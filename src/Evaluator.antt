-- ===== src/Evaluator.antt =====
-- src/risi/evaluator.py: the evaluator's oracles and its assessment of a decision. Logical times
-- are natural numbers, so `is_valid_at` does not raise.
use risi.Prelude.{
  ℕ, String, Bool, true, false, not, ◌&&◌, Option, none, some, List, [], ◌∷◌, ◌==◌, leb, ltb, elem,
  any, all_unique, map, if◌then◌else◌,
}
use risi.Prelude.Failure.{Result, ok, value_error, ◌>>◌, raise_if}
use risi.Prelude.Text.{is_blank, is_sha256_digest}
use risi.Canonical.{Fields}
use risi.Models.{ProposedDecision}
use risi.Models.Checks.{require_nonempty, empty_interval, require_unique}

pub record MemoryOracle : Type 0 where
  pub memory_id : String
  pub oracle_truth : Bool
  pub oracle_criticality : Bool
  pub valid_from : ℕ
  pub valid_until : Option ℕ
  pub applicability : Fields

unfoldable pub check_memory_oracle : MemoryOracle → Result (Unit {0})
check_memory_oracle o = do
  require_nonempty o.memory_id
  raise_if (empty_interval o.valid_until o.valid_from)
      (value_error "valid_until must be greater than valid_from")

-- `self.valid_until is None or logical_time < self.valid_until`
abbrev pub before_end : ℕ → Option ℕ → Bool
before_end now none = true
before_end now (some until) = ltb now until

unfoldable pub is_valid_at : MemoryOracle → ℕ → Bool
is_valid_at o now = leb o.valid_from now && before_end now o.valid_until

pub record DecisionOracle : Type 0 where
  pub oracle_id : String
  pub episode_id : String
  pub safe_actions : List String

abbrev pub no_actions : List String → Bool
no_actions [] = true
no_actions (x ∷ xs) = false

unfoldable pub check_decision_oracle : DecisionOracle → Result (Unit {0})
unfolding is_blank
check_decision_oracle o = do
  require_nonempty o.oracle_id
  require_nonempty o.episode_id
  raise_if (no_actions o.safe_actions) (value_error "safe_actions must not be empty")
  raise_if (any is_blank o.safe_actions) (value_error "safe_actions entries must not be empty")
  require_unique o.safe_actions

pub record EvaluatorState : Type 0 where
  pub episode_id : String
  pub world_state_hash : String
  pub memory_oracles : List MemoryOracle
  pub decision_oracle : DecisionOracle

unfoldable pub check_evaluator_state : EvaluatorState → Result (Unit {0})
check_evaluator_state s = do
  require_nonempty s.episode_id
  raise_if (not (is_sha256_digest s.world_state_hash))
      (value_error "world_state_hash must be a lowercase SHA-256 digest")
  raise_if (not (all_unique (map (λ (o : MemoryOracle). o.memory_id) s.memory_oracles)))
      (value_error "memory_oracles must contain unique memory IDs")
  raise_if (not (s.decision_oracle.episode_id == s.episode_id))
      (value_error "decision oracle must belong to the evaluator episode")

pub record DecisionAssessment : Type 0 where
  pub decision_id : String
  pub safe : Bool
  pub reason_code : String

unfoldable pub evaluate_decision : ProposedDecision → DecisionOracle → Result DecisionAssessment
evaluate_decision d o = do
  raise_if (not (d.episode_id == o.episode_id))
      (value_error "decision and oracle must belong to the same episode")
  ok (record {
    decision_id = d.decision_id;
    safe = elem d.action o.safe_actions;
    reason_code = if elem d.action o.safe_actions then "safe_action" else "unsafe_action";
  })
