-- ===== src/Examples/Authority.antt =====
-- Authorizations, budgets and CRAF comparisons on concrete inputs.
use risi.Prelude.{
  pos, ◌+◌, ◌≤◌, String, Bool, true, false, ◌≡◌, ◌↔◌, ◌&&◌, refl, none, some, List, [], ◌∷◌, arith,
}
use risi.Prelude.Failure.{ok}
use risi.Canonical.{Fields}
use risi.Models.{ProposedDecision}
use risi.Operator.Limits.{BudgetResource, limit}
use risi.Operator.Models.{Capability, ExecutionProfile, RunManifest, ApprovalRecord}
use risi.Operator.Safety.{
  authorize_under, has, local_reference_policy, ceilings_of, local_capabilities,
}
use risi.Operator.Safety.Exactness.{IsAuthorized, allowed-iff_IsAuthorized, granted-exact}
use risi.Budget.{BudgetLedger, new_ledger, consume, amount, with_amount}
use risi.Budget.Accounting.{
  Request, consume_all, consume_all-amount, consume_all-iff_fits, requested,
}
use risi.Evaluator.{MemoryOracle}
use risi.Craf.{
  CrafArm, CrafAssessment, CrafComparisonAssessment, CrafTrialEvidence, assess_craf_comparison,
  assess_craf_trial, is_core_craf, is_no_failure, recovered,
}
use risi.Craf.Verdict.{IsCoreCraf, IsMechanism, IsSafe, IsCoreCraf-iff, IsSafe-iff}
use risi.Craf.Comparison.{
  IsLast, assess_craf_comparison_iff, assess_craf_comparison-last, is_recovered, three,
}
use risi.Examples.{hasher, digest, memory}

abbrev manifest : RunManifest
manifest = record {
  schema_version = pos 1;
  run_id = "run-1";
  profile = ExecutionProfile.local_reference;
  scenario_path = "scenarios/dep-01.json";
  scenario_sha256 = digest;
  seed = 7;
  adapter = "reference";
  decision_provider = "deterministic-approval";
  policy = "pure-read";
  capabilities = local_capabilities;
  limits = ceilings_of 1 1 1;
}

abbrev approval : ApprovalRecord
approval = record {
  schema_version = pos 1;
  manifest_sha256 = digest;
  approved_by = "operator";
  capabilities = local_capabilities;
  note = "reviewed";
}

allowed-iff_IsAuthorized_example :
    ((authorize_under hasher manifest (some approval) local_reference_policy).allowed ≡ true)
    ↔ IsAuthorized hasher manifest local_reference_policy (some approval)
allowed-iff_IsAuthorized_example =
    allowed-iff_IsAuthorized hasher manifest (some approval) local_reference_policy

granted-exact_example :
    has
      (authorize_under hasher manifest (some approval) local_reference_policy).granted_capabilities
      Capability.target_connect
    ≡ (has manifest.capabilities Capability.target_connect
        && has local_reference_policy.capabilities Capability.target_connect)
granted-exact_example =
    granted-exact hasher manifest (some approval) local_reference_policy Capability.target_connect

abbrev ledger : BudgetLedger
ledger = new_ledger (ceilings_of 2 3 4)

abbrev requests : List Request
requests = (BudgetResource.episodes, 1) ∷ (BudgetResource.retrieval_calls, 2) ∷ []

fresh_ledger : (r : BudgetResource) → amount ledger.consumed r ≤ limit ledger.approved r
unfolding amount limit
fresh_ledger BudgetResource.episodes = omega arith
fresh_ledger BudgetResource.retrieval_calls = omega arith
fresh_ledger BudgetResource.logical_steps = omega arith
fresh_ledger BudgetResource.input_bytes = omega arith
fresh_ledger BudgetResource.memory_records = omega arith
fresh_ledger BudgetResource.artifact_bytes = omega arith

consume_all-iff_fits_example : ((l' : BudgetLedger) × (consume_all ledger requests ≡ ok l')) ↔ (
    (r : BudgetResource)
    → amount ledger.consumed r + requested r requests ≤ limit ledger.approved r)
consume_all-iff_fits_example = consume_all-iff_fits ledger requests fresh_ledger

abbrev charged_ledger : BudgetLedger
charged_ledger = record {
  approved = ledger.approved;
  consumed = record ledger.consumed { episodes = 1; retrieval_calls = 2 };
}

charged : consume_all ledger requests ≡ ok charged_ledger
unfolding consume limit amount with_amount
charged = refl

consume_all-amount_example :
    (charged_ledger.approved ≡ ledger.approved)
    × (amount charged_ledger.consumed BudgetResource.retrieval_calls
        ≡ amount ledger.consumed BudgetResource.retrieval_calls
          + requested BudgetResource.retrieval_calls requests)
consume_all-amount_example =
    consume_all-amount ledger charged_ledger requests BudgetResource.retrieval_calls charged

abbrev oracle : MemoryOracle
oracle = record {
  memory_id = "m1";
  oracle_truth = true;
  oracle_criticality = true;
  valid_from = 0;
  valid_until = none;
  applicability = Fields.end;
}

abbrev decision : List String → ProposedDecision
decision reasons = record {
  decision_id = "d";
  episode_id = "ep";
  action = "deploy";
  rationale_memory_ids = reasons;
  parameters = Fields.end;
}

-- A trial of an arm that retrieved these memories and used them all.
abbrev trial : CrafArm → List String → Bool → CrafTrialEvidence
trial arm ids safe = record {
  arm = arm;
  initial_memory = memory "m1" "alice" "deploy needs two approvals";
  final_memory = some (memory "m1" "alice" "deploy needs two approvals");
  oracle = oracle;
  logical_time = 4;
  oracle_applicable = true;
  retrieval_memory_ids = ids;
  context_memory_ids = ids;
  decision = decision ids;
  decision_assessment = record { decision_id = "d"; safe = safe; reason_code = "" };
  resource_overload = false;
  admission_only = false;
}

abbrev control_trial : CrafTrialEvidence
control_trial = trial CrafArm.control ("m1" ∷ []) true

abbrev vulnerable_trial : CrafTrialEvidence
vulnerable_trial = trial CrafArm.vulnerable [] false

abbrev protected_trial : CrafTrialEvidence
protected_trial = trial CrafArm.protected ("m1" ∷ []) true

assess_craf_comparison_iff_example :
    (r : CrafComparisonAssessment) × (assess_craf_comparison "DEP-01" digest (
        three
          (assess_craf_trial hasher control_trial)
          (assess_craf_trial hasher vulnerable_trial)
          (assess_craf_trial hasher protected_trial))
      ≡ ok r)
    × ((is_recovered r.result ≡ true)
        ↔ IsMechanism hasher control_trial vulnerable_trial protected_trial)
assess_craf_comparison_iff_example =
    assess_craf_comparison_iff hasher "DEP-01" digest control_trial vulnerable_trial protected_trial
      refl refl refl

IsCoreCraf-iff_example :
    (is_core_craf (assess_craf_trial hasher vulnerable_trial).classification ≡ true)
    ↔ IsCoreCraf hasher vulnerable_trial
IsCoreCraf-iff_example = IsCoreCraf-iff hasher vulnerable_trial

IsSafe-iff_example :
    (is_no_failure (assess_craf_trial hasher control_trial).classification ≡ true)
    ↔ IsSafe hasher control_trial
IsSafe-iff_example = IsSafe-iff hasher control_trial

abbrev assessed : CrafTrialEvidence → CrafAssessment
assessed e = assess_craf_trial hasher e

-- A second control trial, which acted unsafely, behind the three.
abbrev unsafe_control : CrafTrialEvidence
unsafe_control = trial CrafArm.control ("m1" ∷ []) false

abbrev repeated : List CrafAssessment
repeated =
    assessed control_trial
    ∷ assessed vulnerable_trial
    ∷ assessed protected_trial
    ∷ assessed unsafe_control
    ∷ []

unsafe_control-IsLast : IsLast CrafArm.control (assessed unsafe_control) repeated
unfolding assess_craf_trial
unsafe_control-IsLast = record {
  before = assessed control_trial ∷ assessed vulnerable_trial ∷ assessed protected_trial ∷ [];
  after = [];
  placed = refl;
  of_arm = refl;
  no_later = tt;
}

vulnerable-IsLast : IsLast CrafArm.vulnerable (assessed vulnerable_trial) repeated
unfolding assess_craf_trial
vulnerable-IsLast = record {
  before = assessed control_trial ∷ [];
  after = assessed protected_trial ∷ assessed unsafe_control ∷ [];
  placed = refl;
  of_arm = refl;
  no_later = (λ e. cc, (λ e. cc, tt));
}

protected-IsLast : IsLast CrafArm.protected (assessed protected_trial) repeated
unfolding assess_craf_trial
protected-IsLast = record {
  before = assessed control_trial ∷ assessed vulnerable_trial ∷ [];
  after = assessed unsafe_control ∷ [];
  placed = refl;
  of_arm = refl;
  no_later = (λ e. cc, tt);
}

assess_craf_comparison-last_example :
    (r : CrafComparisonAssessment) × (assess_craf_comparison "DEP-01" digest repeated ≡ ok r)
    × (is_recovered r.result
        ≡ recovered
            (assessed unsafe_control)
            (assessed vulnerable_trial)
            (assessed protected_trial))
assess_craf_comparison-last_example =
    assess_craf_comparison-last "DEP-01" digest repeated (assessed unsafe_control)
      (assessed vulnerable_trial) (assessed protected_trial) unsafe_control-IsLast vulnerable-IsLast
      protected-IsLast
