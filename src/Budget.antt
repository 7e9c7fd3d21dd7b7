-- ===== src/Budget.antt =====
-- src/risi/budget.py: the ledger that a guarded run charges its resources to.
pub mod Accounting
pub mod Report
use risi.Prelude.{ℕ, ℤ, pos, negsuc, ◌+◌, ltb, if◌then◌else◌}
use risi.Prelude.Failure.{Result, ok, err, value_error, budget_exhausted}
use risi.Operator.Limits.{
  BudgetResource, episodes, retrieval_calls, logical_steps, input_bytes, memory_records,
  artifact_bytes, resource_value, ExecutionLimits, limit,
}

-- Consumed amounts are nonnegative by their type.
pub record ResourceConsumption : Type 0 where
  pub episodes : ℕ
  pub retrieval_calls : ℕ
  pub logical_steps : ℕ
  pub input_bytes : ℕ
  pub memory_records : ℕ
  pub artifact_bytes : ℕ

abbrev pub nothing_consumed : ResourceConsumption
nothing_consumed = record {
  episodes = 0;
  retrieval_calls = 0;
  logical_steps = 0;
  input_bytes = 0;
  memory_records = 0;
  artifact_bytes = 0;
}

-- `getattr(consumption, resource.value)`
unfoldable pub amount : ResourceConsumption → BudgetResource → ℕ
amount c episodes = c.episodes
amount c retrieval_calls = c.retrieval_calls
amount c logical_steps = c.logical_steps
amount c input_bytes = c.input_bytes
amount c memory_records = c.memory_records
amount c artifact_bytes = c.artifact_bytes

-- `replace(consumption, **{resource.value: n})`
unfoldable pub with_amount : ResourceConsumption → BudgetResource → ℕ → ResourceConsumption
with_amount c episodes n = record c { episodes = n }
with_amount c retrieval_calls n = record c { retrieval_calls = n }
with_amount c logical_steps n = record c { logical_steps = n }
with_amount c input_bytes n = record c { input_bytes = n }
with_amount c memory_records n = record c { memory_records = n }
with_amount c artifact_bytes n = record c { artifact_bytes = n }

pub record BudgetLedger : Type 0 where
  pub approved : ExecutionLimits
  pub consumed : ResourceConsumption

-- `BudgetLedger(limits)`
abbrev pub new_ledger : ExecutionLimits → BudgetLedger
new_ledger l = record { approved = l; consumed = nothing_consumed }

charge : BudgetLedger → BudgetResource → ℕ → Result BudgetLedger
charge l r n =
    let used = amount l.consumed r in
    if ltb (limit l.approved r) (used + n)
    then err (budget_exhausted (resource_value r) (limit l.approved r) used n)
    else ok (record l { consumed = with_amount l.consumed r (used + n) })

-- `BudgetLedger.consume`
unfoldable pub consume : BudgetLedger → BudgetResource → ℤ → Result BudgetLedger
unfolding charge
consume l r (negsuc n) = err (value_error "budget consumption amount must be a nonnegative integer")
consume l r (pos n) = charge l r n
