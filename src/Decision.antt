-- ===== src/Decision.antt =====
-- src/risi/decision.py: the deterministic decision providers, with the protocols of
-- src/risi/scenarios.py that they read.
pub mod Influence
use Prim.Native.String
use risi.Prelude.{
  ℤ, ltb_ℤ, String, Bool, true, false, ◌&&◌, Option, none, some, List, [], ◌∷◌, ◌==◌, elem, ℕ,
  if◌then◌else◌,
}
use risi.Prelude.Failure.{Result, ok, err, type_error, ◌>>=◌, ◌>>◌}
use risi.Canonical.{Json, Fields, get, entries, strings}
use risi.Models.{EpisodeIdentity, ProposedDecision, RetrievalResult, hit_ids}
use risi.Models.Checks.{check_decision}

pub record ReferenceRunProtocol : Type 0 where
  pub principal_id : String
  pub tenant_id : String
  pub query : String
  pub top_k : ℕ
  pub approval_count_fact : String
  pub minimum_approvals : ℤ
  pub required_memory_id : String
  pub action_if_below : String
  pub action_if_met : String

pub record ObligationDecisionProtocol : Type 0 where
  pub principal_id : String
  pub tenant_id : String
  pub query : String
  pub top_k : ℕ
  pub required_memory_id : String
  pub action_if_present : String
  pub action_if_absent : String

pub record RegionDecisionProtocol : Type 0 where
  pub principal_id : String
  pub tenant_id : String
  pub query : String
  pub top_k : ℕ
  pub dataset_class_fact : String
  pub requested_region_fact : String
  pub restricted_dataset_class : String
  pub prohibited_region : String
  pub required_memory_id : String
  pub action_if_prohibited : String
  pub action_if_allowed : String
  pub allowed_alternatives : List String

pub data DecisionProtocol : Type 0 where
  approval : ReferenceRunProtocol → DecisionProtocol
  region : RegionDecisionProtocol → DecisionProtocol
  obligation : ObligationDecisionProtocol → DecisionProtocol

pub record DecisionRequest : Type 0 where
  pub episode : EpisodeIdentity
  pub context : String
  pub retrieval : RetrievalResult
  pub facts : Fields
  pub protocol : DecisionProtocol

-- `(required_memory_id,) if available else ()`
abbrev pub cite_if : Bool → String → List String
cite_if true id = id ∷ []
cite_if false id = []

abbrev pub decision_for : EpisodeIdentity → String → List String → Fields → ProposedDecision
decision_for episode action rationale parameters = record {
  decision_id = String.◌++◌ episode.episode_id "-decision-0001";
  episode_id = episode.episode_id;
  action = action;
  rationale_memory_ids = rationale;
  parameters = parameters;
}

-- `ProposedDecision(...)` with the checks of its constructor.
unfoldable pub proposed : EpisodeIdentity → String → List String → Fields → Result ProposedDecision
unfolding check_decision
proposed episode action rationale parameters = do
  check_decision (decision_for episode action rationale parameters)
  ok (decision_for episode action rationale parameters)

unfoldable pub propose_approval :
    EpisodeIdentity → ReferenceRunProtocol → Option Json → Bool → Result ProposedDecision
propose_approval episode p (some (Json.int count)) available =
    let cited = available && ltb_ℤ count p.minimum_approvals in
    proposed episode (if cited then p.action_if_below else p.action_if_met)
      (cite_if cited p.required_memory_id)
      (entries (
        ("approval_count", Json.int count)
        ∷ ("minimum_approvals", Json.int p.minimum_approvals)
        ∷ ("policy_available", Json.bool available)
        ∷ []))
propose_approval episode p _ available = err (type_error "approval-count fact must be an integer")

unfoldable pub propose_obligation :
    EpisodeIdentity → ObligationDecisionProtocol → Bool → Result ProposedDecision
propose_obligation episode p available =
    proposed episode (if available then p.action_if_present else p.action_if_absent)
      (cite_if available p.required_memory_id)
      (entries (("policy_available", Json.bool available) ∷ []))

unfoldable pub propose_region :
    EpisodeIdentity
    → RegionDecisionProtocol
    → Option Json
    → Option Json
    → Bool
    → Result ProposedDecision
propose_region episode p (some (Json.str dataset)) (some (Json.str requested)) available =
    let prohibited =
      available && (dataset == p.restricted_dataset_class) && (requested == p.prohibited_region) in
    proposed episode (if prohibited then p.action_if_prohibited else p.action_if_allowed)
      (cite_if available p.required_memory_id)
      (entries (
        ("dataset_class", Json.str dataset)
        ∷ ("requested_region", Json.str requested)
        ∷ ("prohibited_region", Json.str p.prohibited_region)
        ∷ ("policy_available", Json.bool available)
        ∷ ("allowed_alternatives", Json.arr (strings p.allowed_alternatives))
        ∷ []))
propose_region episode p _ _ available = err (type_error "region decision facts must be strings")

-- The registered providers.
pub data Provider : Type 0 where
  deterministic_approval deterministic_obligation deterministic_region : Provider

-- Each provider accepts its own protocol.
unfoldable pub propose_by : Provider → DecisionProtocol → DecisionRequest → Result ProposedDecision
unfolding propose_approval propose_obligation propose_region
propose_by deterministic_approval (approval p) r =
    propose_approval r.episode p (get p.approval_count_fact r.facts)
      (elem p.required_memory_id (hit_ids r.retrieval.hits))
propose_by deterministic_approval _ r =
    err (type_error "deterministic approval provider requires an approval protocol")
propose_by deterministic_obligation (obligation p) r =
    propose_obligation r.episode p (elem p.required_memory_id (hit_ids r.retrieval.hits))
propose_by deterministic_obligation _ r =
    err (type_error "deterministic obligation provider requires an obligation protocol")
propose_by deterministic_region (region p) r =
    propose_region r.episode p (get p.dataset_class_fact r.facts)
      (get p.requested_region_fact r.facts) (elem p.required_memory_id (hit_ids r.retrieval.hits))
propose_by deterministic_region _ r =
    err (type_error "deterministic region provider requires a region protocol")

-- `provider.propose(request)`
unfoldable pub propose : Provider → DecisionRequest → Result ProposedDecision
unfolding propose_by
propose provider r = propose_by provider r.protocol r
