-- ===== src/Operator/Limits.antt =====
-- `ExecutionLimits` of src/risi/operator/models.py, and the closed resource vocabulary of
-- src/risi/budget.py that names its fields.
use risi.Prelude.{ℕ, zero, suc, ℤ, pos, negsuc, String, List, [], ◌∷◌}
use risi.Prelude.Failure.{Result, ok, err, operator_input, ◌>>=◌}
use risi.Canonical.{Json, obj, entries, nat}

pub data BudgetResource : Type 0 where
  episodes retrieval_calls logical_steps : BudgetResource
  input_bytes memory_records artifact_bytes : BudgetResource

pub BudgetResource-discrete : Discrete BudgetResource
BudgetResource-discrete = hlevel

abbrev pub resource_value : BudgetResource → String
resource_value episodes = "episodes"
resource_value retrieval_calls = "retrieval_calls"
resource_value logical_steps = "logical_steps"
resource_value input_bytes = "input_bytes"
resource_value memory_records = "memory_records"
resource_value artifact_bytes = "artifact_bytes"

-- `for resource in BudgetResource`
abbrev pub all_resources : List BudgetResource
all_resources =
    episodes ∷ retrieval_calls ∷ logical_steps ∷ input_bytes ∷ memory_records ∷ artifact_bytes ∷ []

pub record ExecutionLimits : Type 0 where
  pub episodes : ℕ
  pub retrieval_calls : ℕ
  pub logical_steps : ℕ
  pub input_bytes : ℕ
  pub memory_records : ℕ
  pub artifact_bytes : ℕ

-- `getattr(limits, resource.value)`
unfoldable pub limit : ExecutionLimits → BudgetResource → ℕ
limit l episodes = l.episodes
limit l retrieval_calls = l.retrieval_calls
limit l logical_steps = l.logical_steps
limit l input_bytes = l.input_bytes
limit l memory_records = l.memory_records
limit l artifact_bytes = l.artifact_bytes

pub require_positive : ℤ → Result ℕ
require_positive (pos (suc n)) = ok (suc n)
require_positive (pos zero) = err (operator_input "limits must be positive")
require_positive (negsuc n) = err (operator_input "limits must be positive")

-- The constructor: six integers, each of which must be positive.
unfoldable pub new_limits : ℤ → ℤ → ℤ → ℤ → ℤ → ℤ → Result ExecutionLimits
unfolding require_positive
new_limits e r l i m a = do
  e' ← require_positive e
  r' ← require_positive r
  l' ← require_positive l
  i' ← require_positive i
  m' ← require_positive m
  a' ← require_positive a
  ok (record {
    episodes = e';
    retrieval_calls = r';
    logical_steps = l';
    input_bytes = i';
    memory_records = m';
    artifact_bytes = a';
  })

unfoldable pub limits_json : ExecutionLimits → Json
limits_json l = obj (
    entries (
      ("episodes", nat l.episodes)
      ∷ ("retrieval_calls", nat l.retrieval_calls)
      ∷ ("logical_steps", nat l.logical_steps)
      ∷ ("input_bytes", nat l.input_bytes)
      ∷ ("memory_records", nat l.memory_records)
      ∷ ("artifact_bytes", nat l.artifact_bytes)
      ∷ []))
