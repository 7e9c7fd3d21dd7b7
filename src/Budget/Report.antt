-- ===== src/Budget/Report.antt =====
-- The resource-use report of src/risi/budget.py: `BudgetAmount`, `ResourceUse`, and its JSON form.
use risi.Prelude.{
  ℕ, suc, ℤ, pos, negsuc, ◌≤◌, ◌<◌, ◌≡◌, String, Option, some, List, [], ◌∷◌, arith, ltb,
  if◌then◌else◌,
}
use risi.Prelude.Failure.{Result, ok, err, value_error, type_error, ◌>>=◌}
use risi.Canonical.{Json, int, obj, get, same_keys, entries, nat}
use risi.Operator.Limits.{
  BudgetResource, episodes, retrieval_calls, logical_steps, input_bytes, memory_records,
  artifact_bytes, resource_value, limit,
}
use risi.Budget.{BudgetLedger, amount}

pub record BudgetAmount : Type 0 where
  pub approved : ℕ
  pub consumed : ℕ

-- The constructor, on any two integers.
pub budget_amount : ℤ → ℤ → Result BudgetAmount
budget_amount (pos (suc a)) (pos c) =
    if ltb (suc a) c
    then err (value_error "consumed resource amount must be within the approved ceiling")
    else ok (record { approved = suc a; consumed = c })
budget_amount (pos (suc a)) (negsuc c) =
    err (value_error "consumed resource amount must be within the approved ceiling")
budget_amount _ _ = err (value_error "approved resource amount must be a positive integer")

pub record ResourceUse : Type 0 where
  pub episodes : BudgetAmount
  pub retrieval_calls : BudgetAmount
  pub logical_steps : BudgetAmount
  pub input_bytes : BudgetAmount
  pub memory_records : BudgetAmount
  pub artifact_bytes : BudgetAmount

abbrev pub use_of : ResourceUse → BudgetResource → BudgetAmount
use_of u episodes = u.episodes
use_of u retrieval_calls = u.retrieval_calls
use_of u logical_steps = u.logical_steps
use_of u input_bytes = u.input_bytes
use_of u memory_records = u.memory_records
use_of u artifact_bytes = u.artifact_bytes

-- A report from one amount for each resource, asked for in the order of the fields.
abbrev pub collect : (BudgetResource → Result BudgetAmount) → Result ResourceUse
collect f = do
  e ← f episodes
  r ← f retrieval_calls
  l ← f logical_steps
  i ← f input_bytes
  m ← f memory_records
  a ← f artifact_bytes
  ok (record {
    episodes = e;
    retrieval_calls = r;
    logical_steps = l;
    input_bytes = i;
    memory_records = m;
    artifact_bytes = a;
  })

-- `BudgetLedger.resource_use`
unfoldable pub resource_use : BudgetLedger → Result ResourceUse
unfolding budget_amount
resource_use l = collect (λ r. budget_amount (pos (limit l.approved r)) (pos (amount l.consumed r)))

abbrev pub amount_json : BudgetAmount → Json
amount_json b = obj (entries (("approved", nat b.approved) ∷ ("consumed", nat b.consumed) ∷ []))

unfoldable pub resource_use_json : ResourceUse → Json
resource_use_json u = obj (
    entries (
      ("episodes", amount_json u.episodes)
      ∷ ("retrieval_calls", amount_json u.retrieval_calls)
      ∷ ("logical_steps", amount_json u.logical_steps)
      ∷ ("input_bytes", amount_json u.input_bytes)
      ∷ ("memory_records", amount_json u.memory_records)
      ∷ ("artifact_bytes", amount_json u.artifact_bytes)
      ∷ []))

-- `{item.value for item in BudgetResource}`
abbrev pub resource_names : List String
resource_names =
    "episodes" ∷ "retrieval_calls" ∷ "logical_steps" ∷ "input_bytes" ∷ "memory_records"
    ∷ "artifact_bytes" ∷ []

pub integers : Option Json → Option Json → Result BudgetAmount
unfolding budget_amount
integers (some (int a)) (some (int c)) = budget_amount a c
integers _ _ = err (type_error "resource_use values must be integers")

pub amount_from : Option Json → Result BudgetAmount
unfolding integers
amount_from (some (obj fs)) =
    if same_keys fs ("approved" ∷ "consumed" ∷ [])
    then integers (get "approved" fs) (get "consumed" fs)
    else err (value_error "resource_use has an invalid field set")
amount_from _ = err (value_error "resource_use has an invalid field set")

-- `ResourceUse.from_json`
unfoldable pub resource_use_from_json : Json → Result ResourceUse
unfolding amount_from
resource_use_from_json (obj fs) =
    if same_keys fs resource_names
    then collect (λ r. amount_from (get (resource_value r) fs))
    else err (value_error "resource_use has an invalid field set")
resource_use_from_json _ = err (value_error "resource_use has an invalid field set")

-- An amount as its constructor leaves it: a positive ceiling that is not exceeded.
abbrev pub IsAmount : BudgetAmount → Type 0
IsAmount b = (0 < b.approved) × (b.consumed ≤ b.approved)

budget_amount_again :
    (b : BudgetAmount) → IsAmount b → budget_amount (pos b.approved) (pos b.consumed) ≡ ok b
unfolding budget_amount
budget_amount_again b h = ground arith

amount_from-amount_json :
    (b : BudgetAmount) → IsAmount b → amount_from (some (amount_json b)) ≡ ok b
unfolding amount_from
amount_from-amount_json b h = budget_amount_again b h

-- Reading the JSON form of a report gives the report back, if each ceiling in it is positive and not
-- exceeded.
pub from_json-to_json :
    (u : ResourceUse)
    → ((r : BudgetResource) → IsAmount (use_of u r))
    → resource_use_from_json (resource_use_json u) ≡ ok u
unfolding resource_use_json resource_use_from_json
from_json-to_json u h = rw (
  amount_from-amount_json u.episodes (h episodes),
  amount_from-amount_json u.retrieval_calls (h retrieval_calls),
  amount_from-amount_json u.logical_steps (h logical_steps),
  amount_from-amount_json u.input_bytes (h input_bytes),
  amount_from-amount_json u.memory_records (h memory_records),
  amount_from-amount_json u.artifact_bytes (h artifact_bytes),
)
