-- ===== src/Decision/Influence.antt =====
-- How a retrieval reaches a decision of the providers of src/risi/decision.py.
use risi.Prelude.{
  ◌≡◌, refl, subst, String, Bool, true, false, ◌&&◌, eq_iff, elem, arith, Option, some, none, ltb_ℤ,
}
use risi.Prelude.Failure.{ok, >>=-eq-ok}
use risi.Canonical.{Json, Fields, get}
use risi.Models.{EpisodeIdentity, ProposedDecision, RetrievalResult, hit_ids}
use risi.Models.Checks.{check_decision}
use risi.Decision.{
  DecisionProtocol, DecisionRequest, Provider, ReferenceRunProtocol, ObligationDecisionProtocol,
  RegionDecisionProtocol, cite_if, decision_for, proposed, propose_approval, propose_obligation,
  propose_region, propose_by, propose,
}

abbrev pub required_memory : DecisionProtocol → String
required_memory (DecisionProtocol.approval p) = p.required_memory_id
required_memory (DecisionProtocol.region p) = p.required_memory_id
required_memory (DecisionProtocol.obligation p) = p.required_memory_id

-- The required memory is among the hits.
abbrev pub has_required : DecisionProtocol → RetrievalResult → Bool
has_required p r = elem (required_memory p) (hit_ids r.hits)

propose_by-retrieval :
    (provider : Provider) (p : DecisionProtocol) (r : DecisionRequest) (context : String)
    (retrieval : RetrievalResult)
    → has_required p r.retrieval ≡ has_required p retrieval
    → propose_by provider p r
      ≡ propose_by provider p (record r { context = context; retrieval = retrieval })
unfolding propose_by
propose_by-retrieval Provider.deterministic_approval (DecisionProtocol.approval p) r c q h =
    rw h refl
propose_by-retrieval Provider.deterministic_approval (DecisionProtocol.region p) r c q h = refl
propose_by-retrieval Provider.deterministic_approval (DecisionProtocol.obligation p) r c q h = refl
propose_by-retrieval Provider.deterministic_obligation (DecisionProtocol.approval p) r c q h = refl
propose_by-retrieval Provider.deterministic_obligation (DecisionProtocol.region p) r c q h = refl
propose_by-retrieval Provider.deterministic_obligation (DecisionProtocol.obligation p) r c q h =
    rw h refl
propose_by-retrieval Provider.deterministic_region (DecisionProtocol.approval p) r c q h = refl
propose_by-retrieval Provider.deterministic_region (DecisionProtocol.region p) r c q h = rw h refl
propose_by-retrieval Provider.deterministic_region (DecisionProtocol.obligation p) r c q h = refl

-- A retrieval and its context influence a decision only by whether the required memory is among the
-- hits: two retrievals that agree on it lead to the same proposal, or to the same exception.
pub propose-retrieval :
    (provider : Provider) (r : DecisionRequest) (context : String) (retrieval : RetrievalResult)
    → has_required r.protocol r.retrieval ≡ has_required r.protocol retrieval
    → propose provider r ≡ propose provider (record r { context = context; retrieval = retrieval })
unfolding propose
propose-retrieval provider r context retrieval h =
    propose_by-retrieval provider r.protocol r context retrieval h

-- A proposal that is made for its episode and cites nothing but `id`, and that only if `available`.
pub record IsGrounded (episode id : String) (available : Bool) (d : ProposedDecision) : Type 0 where
  pub owner : d.episode_id ≡ episode
  pub cited : (x : String) → elem x d.rationale_memory_ids ≡ true → (x ≡ id) × (available ≡ true)

cite_if-cited : (b : Bool) (id x : String) → elem x (cite_if b id) ≡ true → (x ≡ id) × (b ≡ true)
cite_if-cited true id x h = ((eq_iff x id).0 (ground arith), refl)
cite_if-cited false id x h = cc

decision_eq : (d e : ProposedDecision) → ok d ≡ ok e → d ≡ e
decision_eq d e h = cc

proposed-IsGrounded :
    (episode : EpisodeIdentity) (action id : String) (b available : Bool) (parameters : Fields)
    (d : ProposedDecision)
    → (b ≡ true → available ≡ true)
    → proposed episode action (cite_if b id) parameters ≡ ok d
    → IsGrounded episode.episode_id id available d
unfolding proposed
proposed-IsGrounded episode action id b available parameters d sub h =
    let made = decision_for episode action (cite_if b id) parameters in
    let (_, _, eq) = >>=-eq-ok (check_decision made) (λ _. ok made) h in
    subst (IsGrounded episode.episode_id id available) (decision_eq made d eq) (record {
      owner = refl;
      cited = λ x m. let (same, cited) = cite_if-cited b id x m in (same, sub cited);
    })

and_left : (a b : Bool) → (a && b) ≡ true → a ≡ true
and_left a b h = ground arith

approval-IsGrounded :
    (episode : EpisodeIdentity) (p : ReferenceRunProtocol) (fact : Option Json) (available : Bool)
    (d : ProposedDecision)
    → propose_approval episode p fact available ≡ ok d
    → IsGrounded episode.episode_id p.required_memory_id available d
unfolding propose_approval
approval-IsGrounded episode p (some (Json.int n)) available d h =
    let cited = available && ltb_ℤ n p.minimum_approvals in
    proposed-IsGrounded episode _ p.required_memory_id cited available _ d
      (and_left available (ltb_ℤ n p.minimum_approvals)) h
approval-IsGrounded episode p none available d h = cc
approval-IsGrounded episode p (some Json.null) available d h = cc
approval-IsGrounded episode p (some (Json.bool b)) available d h = cc
approval-IsGrounded episode p (some (Json.real m e)) available d h = cc
approval-IsGrounded episode p (some (Json.str s)) available d h = cc
approval-IsGrounded episode p (some (Json.arr xs)) available d h = cc
approval-IsGrounded episode p (some (Json.obj fs)) available d h = cc

region-IsGrounded :
    (episode : EpisodeIdentity) (p : RegionDecisionProtocol) (dataset requested : Option Json)
    (available : Bool) (d : ProposedDecision)
    → propose_region episode p dataset requested available ≡ ok d
    → IsGrounded episode.episode_id p.required_memory_id available d
unfolding propose_region
region-IsGrounded episode p (some (Json.str s)) (some (Json.str t)) available d h =
    proposed-IsGrounded episode _ p.required_memory_id available available _ d (λ e. e) h
region-IsGrounded episode p (some (Json.str s)) none available d h = cc
region-IsGrounded episode p (some (Json.str s)) (some Json.null) available d h = cc
region-IsGrounded episode p (some (Json.str s)) (some (Json.bool b)) available d h = cc
region-IsGrounded episode p (some (Json.str s)) (some (Json.int n)) available d h = cc
region-IsGrounded episode p (some (Json.str s)) (some (Json.real m e)) available d h = cc
region-IsGrounded episode p (some (Json.str s)) (some (Json.arr xs)) available d h = cc
region-IsGrounded episode p (some (Json.str s)) (some (Json.obj fs)) available d h = cc
region-IsGrounded episode p none r available d h = cc
region-IsGrounded episode p (some Json.null) r available d h = cc
region-IsGrounded episode p (some (Json.bool b)) r available d h = cc
region-IsGrounded episode p (some (Json.int n)) r available d h = cc
region-IsGrounded episode p (some (Json.real m e)) r available d h = cc
region-IsGrounded episode p (some (Json.arr xs)) r available d h = cc
region-IsGrounded episode p (some (Json.obj fs)) r available d h = cc

obligation-IsGrounded :
    (episode : EpisodeIdentity) (p : ObligationDecisionProtocol) (available : Bool)
    (d : ProposedDecision)
    → propose_obligation episode p available ≡ ok d
    → IsGrounded episode.episode_id p.required_memory_id available d
unfolding propose_obligation
obligation-IsGrounded episode p available d h =
    proposed-IsGrounded episode _ p.required_memory_id available available _ d (λ e. e) h

propose_by-IsGrounded :
    (provider : Provider) (p : DecisionProtocol) (r : DecisionRequest) (d : ProposedDecision)
    → propose_by provider p r ≡ ok d
    → IsGrounded r.episode.episode_id (required_memory p) (has_required p r.retrieval) d
unfolding propose_by
propose_by-IsGrounded Provider.deterministic_approval (DecisionProtocol.approval p) r d h =
    approval-IsGrounded r.episode p (get p.approval_count_fact r.facts) _ d h
propose_by-IsGrounded Provider.deterministic_approval (DecisionProtocol.region p) r d h = cc
propose_by-IsGrounded Provider.deterministic_approval (DecisionProtocol.obligation p) r d h = cc
propose_by-IsGrounded Provider.deterministic_obligation (DecisionProtocol.approval p) r d h = cc
propose_by-IsGrounded Provider.deterministic_obligation (DecisionProtocol.region p) r d h = cc
propose_by-IsGrounded Provider.deterministic_obligation (DecisionProtocol.obligation p) r d h =
    obligation-IsGrounded r.episode p _ d h
propose_by-IsGrounded Provider.deterministic_region (DecisionProtocol.approval p) r d h = cc
propose_by-IsGrounded Provider.deterministic_region (DecisionProtocol.region p) r d h =
    region-IsGrounded r.episode p _ _ _ d h
propose_by-IsGrounded Provider.deterministic_region (DecisionProtocol.obligation p) r d h = cc

-- A proposal that a provider returns is for the request's episode, and cites at most the protocol's
-- required memory, and that only if the retrieval returned it.
pub propose-IsGrounded :
    (provider : Provider) (r : DecisionRequest) (d : ProposedDecision)
    → propose provider r ≡ ok d
    → IsGrounded r.episode.episode_id
        (required_memory r.protocol)
        (has_required r.protocol r.retrieval)
        d
unfolding propose
propose-IsGrounded provider r d h = propose_by-IsGrounded provider r.protocol r d h
