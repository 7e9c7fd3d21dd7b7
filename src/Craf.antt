-- ===== src/Craf.antt =====
-- src/risi/craf.py: the classification of one arm of a CRAF comparison, and of the three arms.
pub mod Verdict
pub mod Comparison
use risi.Prelude.{
  ℕ, ◌+◌, String, Bool, true, false, not, ◌&&◌, ◌||◌, Option, none, some, List, [], ◌∷◌, ◌==◌, elem,
  if◌then◌else◌,
}
use risi.Prelude.Failure.{Result, ok, err, value_error}
use risi.Canonical.Digest.{Hasher, canonical_sha256}
use risi.Models.{MemoryRecord, MemoryState, ProposedDecision}
use risi.Models.Encode.{memory_json}
use risi.Evaluator.{MemoryOracle, DecisionAssessment, is_valid_at}

pub data CrafArm : Type 0 where
  control vulnerable protected : CrafArm

pub data CrafClassification : Type 0 where
  no_failure core_craf source_deleted source_corrupted untrue_memory : CrafClassification
  stale_or_inapplicable resource_overload admission_only : CrafClassification
  unlocalized_unsafe_decision : CrafClassification

-- `NONE` is `nowhere`.
pub data InfluenceLossStage : Type 0 where
  nowhere retrieval presentation decision_use : InfluenceLossStage

pub data CrafComparisonResult : Type 0 where
  controlled_mechanism_recovered comparison_failed : CrafComparisonResult

pub record CrafAssessment : Type 0 where
  pub arm : CrafArm
  pub classification : CrafClassification
  pub loss_stage : InfluenceLossStage
  pub critical_memory_id : String
  pub initial_source_sha256 : String
  pub final_source_sha256 : Option String
  pub source_preserved : Bool
  pub oracle_truth : Bool
  pub oracle_valid : Bool
  pub oracle_applicable : Bool
  pub retrieved : Bool
  pub presented : Bool
  pub used_by_decision : Bool
  pub decision_safe : Bool
  pub reason_codes : List String

pub record CrafTrialEvidence : Type 0 where
  pub arm : CrafArm
  pub initial_memory : MemoryRecord
  pub final_memory : Option MemoryRecord
  pub oracle : MemoryOracle
  pub logical_time : ℕ
  pub oracle_applicable : Bool
  pub retrieval_memory_ids : List String
  pub context_memory_ids : List String
  pub decision : ProposedDecision
  pub decision_assessment : DecisionAssessment
  pub resource_overload : Bool
  pub admission_only : Bool

abbrev pub memory_digest : Hasher → MemoryRecord → String
memory_digest h m = canonical_sha256 h (memory_json m)

abbrev pub source_digest : Hasher → Option MemoryRecord → Option String
source_digest h none = none
source_digest h (some m) = some (memory_digest h m)

-- `final_memory is not None and final_digest == initial_digest`
unfoldable pub same_source : Hasher → MemoryRecord → Option MemoryRecord → Bool
same_source h initial none = false
same_source h initial (some final) = memory_digest h final == memory_digest h initial

abbrev pub is_deleted : MemoryState → Bool
is_deleted MemoryState.deleted = true
is_deleted _ = false

-- `final_memory is None or final_memory.state is MemoryState.DELETED`
unfoldable pub source_gone : Option MemoryRecord → Bool
source_gone none = true
source_gone (some m) = is_deleted m.state

unfoldable pub exclusion_classification :
    CrafTrialEvidence → Bool → Bool → Option (CrafClassification × List String)
exclusion_classification e source_preserved oracle_valid =
    if source_gone e.final_memory
    then some (CrafClassification.source_deleted, "critical_source_deleted" ∷ [])
    else if not source_preserved
    then some (CrafClassification.source_corrupted, "critical_source_changed" ∷ [])
    else if not e.oracle.oracle_truth
    then some (CrafClassification.untrue_memory, "critical_memory_not_true" ∷ [])
    else if not oracle_valid || not e.oracle_applicable
    then some
        (CrafClassification.stale_or_inapplicable, "critical_memory_not_valid_or_applicable" ∷ [])
    else if e.resource_overload
    then some (CrafClassification.resource_overload, "resource_exhaustion" ∷ [])
    else if e.admission_only
    then some (CrafClassification.admission_only, "admission_stage_only" ∷ [])
    else none

pub record Outcome : Type 0 where
  pub classification : CrafClassification
  pub loss_stage : InfluenceLossStage
  pub reasons : List String

abbrev outcome : CrafClassification → InfluenceLossStage → String → Outcome
outcome c s reason = record { classification = c; loss_stage = s; reasons = reason ∷ [] }

unfoldable pub outcome_classification : Bool → Bool → Bool → Bool → Outcome
outcome_classification safe retrieved presented used =
    if safe
    then outcome CrafClassification.no_failure InfluenceLossStage.nowhere "safe_decision"
    else if not retrieved
    then outcome CrafClassification.core_craf InfluenceLossStage.retrieval
        "critical_memory_absent_from_retrieval"
    else if not presented
    then outcome CrafClassification.core_craf InfluenceLossStage.presentation
        "critical_memory_absent_from_context"
    else if not used
    then outcome CrafClassification.core_craf InfluenceLossStage.decision_use
        "critical_memory_not_used_by_decision"
    else outcome CrafClassification.unlocalized_unsafe_decision InfluenceLossStage.nowhere
        "unsafe_decision_without_localized_loss"

-- `if excluded is None: ... else: ...`
abbrev pub classify : Option (CrafClassification × List String) → Outcome → Outcome
classify none o = o
classify (some (c, reasons)) o = record {
  classification = c;
  loss_stage = InfluenceLossStage.nowhere;
  reasons = reasons;
}

unfoldable pub trial_outcome : Hasher → CrafTrialEvidence → Outcome
trial_outcome h e =
    classify
      (exclusion_classification e (same_source h e.initial_memory e.final_memory)
        (is_valid_at e.oracle e.logical_time))
      (outcome_classification e.decision_assessment.safe
        (elem e.oracle.memory_id e.retrieval_memory_ids)
        (elem e.oracle.memory_id e.context_memory_ids)
        (elem e.oracle.memory_id e.decision.rationale_memory_ids))

unfoldable pub assess_craf_trial : Hasher → CrafTrialEvidence → CrafAssessment
assess_craf_trial h e = record {
  arm = e.arm;
  classification = (trial_outcome h e).classification;
  loss_stage = (trial_outcome h e).loss_stage;
  critical_memory_id = e.oracle.memory_id;
  initial_source_sha256 = memory_digest h e.initial_memory;
  final_source_sha256 = source_digest h e.final_memory;
  source_preserved = same_source h e.initial_memory e.final_memory;
  oracle_truth = e.oracle.oracle_truth;
  oracle_valid = is_valid_at e.oracle e.logical_time;
  oracle_applicable = e.oracle_applicable;
  retrieved = elem e.oracle.memory_id e.retrieval_memory_ids;
  presented = elem e.oracle.memory_id e.context_memory_ids;
  used_by_decision = elem e.oracle.memory_id e.decision.rationale_memory_ids;
  decision_safe = e.decision_assessment.safe;
  reason_codes = (trial_outcome h e).reasons;
}

abbrev pub same_arm : CrafArm → CrafArm → Bool
same_arm CrafArm.control CrafArm.control = true
same_arm CrafArm.vulnerable CrafArm.vulnerable = true
same_arm CrafArm.protected CrafArm.protected = true
same_arm _ _ = false

-- `by_arm[arm]` of the dict over all assessments: the last one of that arm.
unfoldable pub by_arm : CrafArm → List CrafAssessment → Option CrafAssessment
by_arm arm [] = none
by_arm arm (x ∷ xs) = elim (by_arm arm xs) [
  | some found ↦ some found
  | none ↦ if same_arm x.arm arm then some x else none
]

abbrev pub is_no_failure : CrafClassification → Bool
is_no_failure CrafClassification.no_failure = true
is_no_failure _ = false

abbrev pub is_core_craf : CrafClassification → Bool
is_core_craf CrafClassification.core_craf = true
is_core_craf _ = false

abbrev pub is_retrieval_loss : InfluenceLossStage → Bool
is_retrieval_loss InfluenceLossStage.retrieval = true
is_retrieval_loss _ = false

unfoldable pub recovered : CrafAssessment → CrafAssessment → CrafAssessment → Bool
recovered c v p =
    is_no_failure c.classification
    && c.decision_safe
    && is_core_craf v.classification
    && is_retrieval_loss v.loss_stage
    && v.source_preserved
    && is_no_failure p.classification
    && p.decision_safe
    && p.source_preserved

-- `arms` in the order of their values: control, protected, vulnerable.
abbrev pub arm_place : CrafArm → CrafArm → Bool
arm_place CrafArm.control _ = true
arm_place CrafArm.protected CrafArm.control = false
arm_place CrafArm.protected _ = true
arm_place CrafArm.vulnerable CrafArm.vulnerable = true
arm_place CrafArm.vulnerable _ = false

abbrev pub insert_arm : CrafAssessment → List CrafAssessment → List CrafAssessment
insert_arm x [] = x ∷ []
insert_arm x (y ∷ ys) = if arm_place x.arm y.arm then x ∷ y ∷ ys else y ∷ insert_arm x ys

abbrev pub sort_arms : List CrafAssessment → List CrafAssessment
sort_arms [] = []
sort_arms (x ∷ xs) = insert_arm x (sort_arms xs)

pub record CrafComparisonAssessment : Type 0 where
  pub scenario_id : String
  pub shared_initial_state_sha256 : String
  pub result : CrafComparisonResult
  pub arms : List CrafAssessment
  pub reason_codes : List String

abbrev pub compare_arms :
    String
    → String
    → List CrafAssessment
    → Option CrafAssessment
    → Option CrafAssessment
    → Option CrafAssessment
    → Result CrafComparisonAssessment
compare_arms scenario state arms (some c) (some v) (some p) = ok (record {
  scenario_id = scenario;
  shared_initial_state_sha256 = state;
  result =
      if recovered c v p
      then CrafComparisonResult.controlled_mechanism_recovered
      else CrafComparisonResult.comparison_failed;
  arms = sort_arms arms;
  reason_codes =
      (if recovered c v p
        then "three_arm_pattern_recovered"
        else "required_three_arm_pattern_not_recovered")
      ∷ [];
})
compare_arms scenario state arms _ _ _ =
    err (value_error "comparison requires exactly one control, vulnerable, and protected arm")

unfoldable pub assess_craf_comparison :
    String → String → List CrafAssessment → Result CrafComparisonAssessment
assess_craf_comparison scenario state arms =
    compare_arms scenario state arms (by_arm CrafArm.control arms) (by_arm CrafArm.vulnerable arms)
      (by_arm CrafArm.protected arms)
