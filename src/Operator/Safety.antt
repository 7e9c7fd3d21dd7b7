-- ===== src/Operator/Safety.antt =====
-- src/risi/operator/safety.py: the authorization of a run. Sets of capabilities are lists here,
-- compared by membership.
pub mod Exactness
use risi.Prelude.{
  ℕ, String, Bool, true, false, not, ◌&&◌, ◌||◌, Option, none, some, List, [], ◌∷◌, ◌++◌, ◌==◌, ltb,
  all, any, filter, if◌then◌else◌,
}
use Prim.Native.String
use risi.Prelude.Text.{str_leb}
use risi.Canonical.Digest.{Hasher}
use risi.Operator.Limits.{BudgetResource, ExecutionLimits, limit, all_resources, resource_value}
use risi.Operator.Models.{
  Capability, capability_value, capability_values, scenario_read, artifact_write, reference_execute,
  evidence_verify, ExecutionProfile, local_reference, profile_value, RunManifest, ApprovalRecord,
  manifest_digest,
}

pub record SafetyPolicy : Type 0 where
  pub profile : ExecutionProfile
  pub capabilities : List Capability
  pub adapter : String
  pub decision_provider : String
  pub policy : String
  pub ceilings : ExecutionLimits

pub record AuthorizationDecision : Type 0 where
  pub allowed : Bool
  pub reason_codes : List String
  pub granted_capabilities : List Capability

-- Equality of enumeration members is that of their values.
abbrev pub same_capability : Capability → Capability → Bool
same_capability a b = capability_value a == capability_value b

abbrev pub has : List Capability → Capability → Bool
has cs c = any (same_capability c) cs

-- `a <= b` on sets
abbrev pub subset : List Capability → List Capability → Bool
subset as' bs = all (has bs) as'

abbrev pub local_capabilities : List Capability
local_capabilities = scenario_read ∷ artifact_write ∷ reference_execute ∷ evidence_verify ∷ []

abbrev pub ceilings_of : ℕ → ℕ → ℕ → ExecutionLimits
ceilings_of e r m = record {
  episodes = e;
  retrieval_calls = r;
  logical_steps = 100;
  input_bytes = 1000000;
  memory_records = m;
  artifact_bytes = 20000000;
}

abbrev pub local_reference_policy : SafetyPolicy
local_reference_policy = record {
  profile = local_reference;
  capabilities = local_capabilities;
  adapter = "reference";
  decision_provider = "deterministic-approval";
  policy = "pure-read";
  ceilings = ceilings_of 1 8 1000;
}

abbrev pub local_reference_obligation_policy : SafetyPolicy
local_reference_obligation_policy = record local_reference_policy {
  decision_provider = "deterministic-obligation";
}

abbrev pub craf_reference_policy : SafetyPolicy
craf_reference_policy = record {
  profile = local_reference;
  capabilities = local_capabilities;
  adapter = "reference";
  decision_provider = "deterministic-approval";
  policy = "craf-reference";
  ceilings = ceilings_of 3 6 1000;
}

abbrev pub risi_c_reference_policy : SafetyPolicy
risi_c_reference_policy = record {
  profile = local_reference;
  capabilities = local_capabilities;
  adapter = "reference";
  decision_provider = "deterministic-region";
  policy = "risi-c-reference";
  ceilings = ceilings_of 4 12 10000;
}

unfoldable pub safety_policy_for_manifest : RunManifest → SafetyPolicy
safety_policy_for_manifest m =
    if m.policy == "craf-reference"
    then craf_reference_policy
    else if m.policy == "risi-c-reference"
    then risi_c_reference_policy
    else if m.decision_provider == "deterministic-obligation"
    then local_reference_obligation_policy
    else local_reference_policy

-- `if test: reasons.append(code)`, in front of the reasons that come later.
abbrev pub reason_if : Bool → String → List String → List String
reason_if test code rest = if test then code ∷ rest else rest

unfoldable pub contract_reasons : RunManifest → SafetyPolicy → List Capability → List String
contract_reasons m p requested =
    reason_if (not (profile_value m.profile == profile_value p.profile)) "profile_denied" (
      reason_if (not (m.adapter == p.adapter)) "adapter_denied" (
        reason_if (not (m.decision_provider == p.decision_provider)) "decision_provider_denied" (
          reason_if (not (m.policy == p.policy)) "memory_policy_denied" (
            reason_if (not (subset requested p.capabilities)) "capability_denied" (
              reason_if (not (subset p.capabilities requested)) "required_capability_missing"
                [])))))

-- `[f"limit_exceeded:{name}" for name in fields if requested.name > ceilings.name]`
abbrev pub limit_reasons_of : ExecutionLimits → ExecutionLimits → List BudgetResource → List String
limit_reasons_of requested ceilings [] = []
limit_reasons_of requested ceilings (r ∷ rs) =
    reason_if (ltb (limit ceilings r) (limit requested r))
      (String.◌++◌ "limit_exceeded:" (resource_value r)) (limit_reasons_of requested ceilings rs)

unfoldable pub limit_reasons : ExecutionLimits → ExecutionLimits → List String
limit_reasons requested ceilings = limit_reasons_of requested ceilings all_resources

unfoldable pub approval_reasons :
    Hasher → RunManifest → Option ApprovalRecord → List Capability → List String
approval_reasons h m none requested = "approval_missing" ∷ []
approval_reasons h m (some a) requested =
    reason_if (not (a.manifest_sha256 == manifest_digest h m)) "approval_manifest_mismatch" (
      reason_if (not (subset a.capabilities requested && subset requested a.capabilities))
        "approval_scope_mismatch" [])

-- `sorted(requested & policy.capabilities, key=value)`
abbrev pub insert_capability : Capability → List Capability → List Capability
insert_capability c [] = c ∷ []
insert_capability c (d ∷ ds) =
    if str_leb (capability_value c) (capability_value d)
    then c ∷ d ∷ ds
    else d ∷ insert_capability c ds

abbrev pub sort_capabilities : List Capability → List Capability
sort_capabilities [] = []
sort_capabilities (c ∷ cs) = insert_capability c (sort_capabilities cs)

unfoldable pub granted : List Capability → List Capability → List Capability
granted requested held = sort_capabilities (filter (has held) requested)

abbrev pub no_reasons : List String → Bool
no_reasons [] = true
no_reasons (r ∷ rs) = false

-- `authorize_run` under the policy that it selects, or under the one that the caller gives.
unfoldable pub authorize_under :
    Hasher → RunManifest → Option ApprovalRecord → SafetyPolicy → AuthorizationDecision
unfolding contract_reasons limit_reasons approval_reasons granted
authorize_under h m a p =
    let reasons =
      contract_reasons m p m.capabilities
      ++ limit_reasons m.limits p.ceilings
      ++ approval_reasons h m a m.capabilities in
    record {
      allowed = no_reasons reasons;
      reason_codes = reasons;
      granted_capabilities = granted m.capabilities p.capabilities;
    }

unfoldable pub authorize_run :
    Hasher → RunManifest → Option ApprovalRecord → Option SafetyPolicy → AuthorizationDecision
unfolding authorize_under safety_policy_for_manifest
authorize_run h m a none = authorize_under h m a (safety_policy_for_manifest m)
authorize_run h m a (some p) = authorize_under h m a p
