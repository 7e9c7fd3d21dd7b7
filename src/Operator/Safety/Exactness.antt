-- ===== src/Operator/Safety/Exactness.antt =====
-- When `authorize_run` allows a run, and what it grants (src/risi/operator/safety.py).
use risi.Prelude.{
  ◌≤◌, ◌≡◌, refl, ap, ◌∙◌, sym, ◌↔◌, String, Bool, true, false, not, ◌&&◌, ◌||◌, Option, none, some,
  List, [], ◌∷◌, ◌++◌, ◌==◌, eq_iff, eq_refl, filter, arith, Bool-cases, inl, inr,
}
use risi.Canonical.Digest.{Hasher}
use risi.Operator.Limits.{BudgetResource, ExecutionLimits, limit}
use risi.Operator.Models.{
  Capability, capability_value, capability_of-value, RunManifest, ApprovalRecord, manifest_digest,
  profile_value, ExecutionProfile,
}
use risi.Operator.Safety.{
  SafetyPolicy, same_capability, has, subset, reason_if, no_reasons, limit_reasons,
  contract_reasons, approval_reasons, insert_capability, sort_capabilities, granted,
  authorize_under,
}

same_capability-eq : (a b : Capability) → same_capability a b ≡ true → a ≡ b
same_capability-eq a b h = cc (
  capability_of-value a,
  capability_of-value b,
  (eq_iff (capability_value a) (capability_value b)).0 h,
)

has-of_subset :
    (xs ys : List Capability) (c : Capability)
    → subset xs ys ≡ true
    → has xs c ≡ true
    → has ys c ≡ true
has-of_subset [] ys c h k = cc
has-of_subset (x ∷ xs) ys c h k = ground (arith, same_capability-eq c x, has-of_subset xs ys c)

subset_of_has :
    (xs ys : List Capability)
    → ((c : Capability) → has xs c ≡ true → has ys c ≡ true)
    → subset xs ys ≡ true
subset_of_has [] ys f = refl
subset_of_has (x ∷ xs) ys f =
    ground
      (arith, f x, eq_refl (capability_value x), subset_of_has xs ys (λ c m. f c (ground arith)))

-- The same set of capabilities.
abbrev pub SameCapabilities : List Capability → List Capability → Type 0
SameCapabilities xs ys = (c : Capability) → has xs c ≡ has ys c

pub SameCapabilities-of_subsets :
    (xs ys : List Capability) → subset xs ys ≡ true → subset ys xs ≡ true → SameCapabilities xs ys
SameCapabilities-of_subsets xs ys h k c =
    ground (arith, has-of_subset xs ys c h, has-of_subset ys xs c k)

pub subset-of_SameCapabilities :
    (xs ys : List Capability)
    → SameCapabilities xs ys
    → (subset xs ys ≡ true) × (subset ys xs ≡ true)
subset-of_SameCapabilities xs ys h = (
  subset_of_has xs ys (λ c m. ground (arith, h c)),
  subset_of_has ys xs (λ c m. ground (arith, h c)),
)

pub no_reasons-reason_if :
    (t : Bool) (code : String) (rest : List String)
    → no_reasons (reason_if t code rest) ≡ (not t && no_reasons rest)
no_reasons-reason_if true code rest = refl
no_reasons-reason_if false code rest = refl

pub no_reasons-append :
    (xs ys : List String) → no_reasons (xs ++ ys) ≡ (no_reasons xs && no_reasons ys)
no_reasons-append [] ys = refl
no_reasons-append (x ∷ xs) ys = refl

limits-fit :
    (q c : ExecutionLimits) (r : BudgetResource)
    → no_reasons (limit_reasons q c) ≡ true
    → limit q r ≤ limit c r
unfolding limit_reasons
limits-fit q c BudgetResource.episodes h = ground arith
limits-fit q c _ h = ground arith

limits-clear :
    (q c : ExecutionLimits)
    → ((r : BudgetResource) → limit q r ≤ limit c r)
    → no_reasons (limit_reasons q c) ≡ true
unfolding limit_reasons
limits-clear q c f = ground (
  arith,
  f BudgetResource.episodes,
  f BudgetResource.retrieval_calls,
  f BudgetResource.logical_steps,
  f BudgetResource.input_bytes,
  f BudgetResource.memory_records,
  f BudgetResource.artifact_bytes,
)

-- An approval that covers exactly this manifest.
pub record IsApproved (h : Hasher) (m : RunManifest) (a : ApprovalRecord) : Type 0 where
  pub digest : a.manifest_sha256 ≡ manifest_digest h m
  pub scope : SameCapabilities a.capabilities m.capabilities

-- What it means that a manifest may run under a policy, with no reference to reason codes.
pub record IsAuthorized (h : Hasher) (m : RunManifest) (p : SafetyPolicy)
    (a : Option ApprovalRecord) : Type 0 where
  pub approval : (r : ApprovalRecord) × (a ≡ some r) × IsApproved h m r
  pub profile : m.profile ≡ p.profile
  pub adapter : m.adapter ≡ p.adapter
  pub decision_provider : m.decision_provider ≡ p.decision_provider
  pub policy : m.policy ≡ p.policy
  pub capabilities : SameCapabilities m.capabilities p.capabilities
  pub limits : (r : BudgetResource) → limit m.limits r ≤ limit p.ceilings r

profile_value-eq : (a b : ExecutionProfile) → (profile_value a == profile_value b) ≡ true → a ≡ b
profile_value-eq ExecutionProfile.local_reference ExecutionProfile.local_reference h = refl
profile_value-eq ExecutionProfile.local_reference ExecutionProfile.isolated_dify_knowledge h = cc
profile_value-eq ExecutionProfile.isolated_dify_knowledge ExecutionProfile.local_reference h = cc
profile_value-eq ExecutionProfile.isolated_dify_knowledge ExecutionProfile.isolated_dify_knowledge
      h =
    refl

clear_contract :
    (m : RunManifest) (p : SafetyPolicy)
    → no_reasons (contract_reasons m p m.capabilities) ≡ (
        (profile_value m.profile == profile_value p.profile)
        && (m.adapter == p.adapter)
        && (m.decision_provider == p.decision_provider)
        && (m.policy == p.policy)
        && subset m.capabilities p.capabilities
        && subset p.capabilities m.capabilities)
unfolding contract_reasons
clear_contract m p = ground arith

clear_approval :
    (h : Hasher) (m : RunManifest) (a : Option ApprovalRecord)
    → no_reasons (approval_reasons h m a m.capabilities) ≡ true
    → (r : ApprovalRecord) × (a ≡ some r) × IsApproved h m r
unfolding approval_reasons
clear_approval h m none e = cc
clear_approval h m (some r) e = (
  r,
  refl,
  record {
    digest = ground (arith, eq_iff r.manifest_sha256 (manifest_digest h m));
    scope = SameCapabilities-of_subsets r.capabilities m.capabilities (ground arith) (ground arith);
  },
)

allowed_parts :
    (h : Hasher) (m : RunManifest) (a : Option ApprovalRecord) (p : SafetyPolicy)
    → (authorize_under h m a p).allowed ≡ (
        (no_reasons (contract_reasons m p m.capabilities)
          && no_reasons (limit_reasons m.limits p.ceilings))
        && no_reasons (approval_reasons h m a m.capabilities))
unfolding authorize_under
allowed_parts h m a p = simp no_reasons-append

and_true : (a b : Bool) → (a && b) ≡ true → (a ≡ true) × (b ≡ true)
and_true a b h = ground arith

allowed→IsAuthorized :
    (h : Hasher) (m : RunManifest) (a : Option ApprovalRecord) (p : SafetyPolicy)
    → (authorize_under h m a p).allowed ≡ true
    → IsAuthorized h m p a
allowed→IsAuthorized h m a p e =
    let (front, appr) = and_true _ _ (sym (allowed_parts h m a p) ∙ e) in
    let (contract, limits) = and_true _ _ front in
    let c = sym (clear_contract m p) ∙ contract in
    record {
      approval = clear_approval h m a appr;
      profile = profile_value-eq m.profile p.profile (ground (arith, c));
      adapter = (eq_iff m.adapter p.adapter).0 (ground (arith, c));
      decision_provider = (eq_iff m.decision_provider p.decision_provider).0 (ground (arith, c));
      policy = (eq_iff m.policy p.policy).0 (ground (arith, c));
      capabilities =
          SameCapabilities-of_subsets m.capabilities p.capabilities (ground (arith, c))
            (ground (arith, c));
      limits = λ r. limits-fit m.limits p.ceilings r limits;
    }

IsAuthorized→clear_contract :
    (m : RunManifest) (p : SafetyPolicy)
    → m.profile ≡ p.profile
    → m.adapter ≡ p.adapter
    → m.decision_provider ≡ p.decision_provider
    → m.policy ≡ p.policy
    → SameCapabilities m.capabilities p.capabilities
    → no_reasons (contract_reasons m p m.capabilities) ≡ true
IsAuthorized→clear_contract m p e₁ e₂ e₃ e₄ s =
    let (s₁, s₂) = subset-of_SameCapabilities m.capabilities p.capabilities s in
    clear_contract m p
    ∙ ground (
      arith,
      s₁,
      s₂,
      (eq_iff (profile_value m.profile) (profile_value p.profile)).1 (ap profile_value e₁),
      (eq_iff m.adapter p.adapter).1 e₂,
      (eq_iff m.decision_provider p.decision_provider).1 e₃,
      (eq_iff m.policy p.policy).1 e₄,
    )

IsApproved→clear :
    (h : Hasher) (m : RunManifest) (r : ApprovalRecord)
    → IsApproved h m r
    → no_reasons (approval_reasons h m (some r) m.capabilities) ≡ true
unfolding approval_reasons
IsApproved→clear h m r w =
    let (s₁, s₂) = subset-of_SameCapabilities r.capabilities m.capabilities w.scope in
    ground (arith, s₁, s₂, (eq_iff r.manifest_sha256 (manifest_digest h m)).1 w.digest)

IsAuthorized→allowed :
    (h : Hasher) (m : RunManifest) (a : Option ApprovalRecord) (p : SafetyPolicy)
    → IsAuthorized h m p a
    → (authorize_under h m a p).allowed ≡ true
IsAuthorized→allowed h m a p w =
    let (r, e, w') = w.approval in
    rw (
      allowed_parts,
      IsAuthorized→clear_contract m p w.profile w.adapter w.decision_provider w.policy
          w.capabilities,
      limits-clear m.limits p.ceilings w.limits,
      e,
      IsApproved→clear h m r w',
    )

-- A run is allowed under a policy exactly if there is an approval of this very manifest and of its
-- capabilities, the manifest names the policy's profile, adapter, provider and policy, requests the
-- policy's capabilities, and no limit exceeds the policy's ceiling.
pub allowed-iff_IsAuthorized :
    (h : Hasher) (m : RunManifest) (a : Option ApprovalRecord) (p : SafetyPolicy)
    → ((authorize_under h m a p).allowed ≡ true) ↔ IsAuthorized h m p a
allowed-iff_IsAuthorized h m a p = (allowed→IsAuthorized h m a p, IsAuthorized→allowed h m a p)

has-insert :
    (c d : Capability) (ds : List Capability)
    → has (insert_capability c ds) d ≡ (same_capability d c || has ds d)
has-insert c d [] = refl
has-insert c d (e ∷ ds) = ground (arith, has-insert c d ds)

has-sort : (d : Capability) (cs : List Capability) → has (sort_capabilities cs) d ≡ has cs d
has-sort d [] = refl
has-sort d (c ∷ cs) = ground (arith, has-insert c d (sort_capabilities cs), has-sort d cs)

false_right : (b : Bool) → (b && false) ≡ false
false_right true = refl
false_right false = refl

kept_first :
    (p : Capability → Bool) (d : Capability) (cs : List Capability)
    → has (filter p cs) d ≡ (has cs d && p d)
    → has (filter p (d ∷ cs)) d ≡ (has (d ∷ cs) d && p d)
kept_first p d cs h = elim (Bool-cases (p d)) [
  | inl e ↦ rw (e, eq_refl (capability_value d))
  | inr e ↦ rw (e, eq_refl (capability_value d)) (rw h (rw e (false_right (has cs d))))
]

skip_first :
    (p : Capability → Bool) (d c : Capability) (cs : List Capability)
    → same_capability d c ≡ false
    → has (filter p (c ∷ cs)) d ≡ has (filter p cs) d
skip_first p d c cs ne = elim (Bool-cases (p c)) [ inl e ↦ rw (e, ne) | inr e ↦ rw e ]

has-filter :
    (p : Capability → Bool) (d : Capability) (cs : List Capability)
    → has (filter p cs) d ≡ (has cs d && p d)
has-filter p d [] = refl
has-filter p d (c ∷ cs) = elim (Bool-cases (same_capability d c)) [
  | inl e ↦ rw (← same_capability-eq d c e) (kept_first p d cs (has-filter p d cs))
  | inr ne ↦ rw (ne, ← has-filter p d cs) (skip_first p d c cs ne)
]

-- Whatever an authorization decides, it grants a capability exactly if the manifest requests it and
-- the policy holds it.
pub granted-exact :
    (h : Hasher) (m : RunManifest) (a : Option ApprovalRecord) (p : SafetyPolicy) (c : Capability)
    → has (authorize_under h m a p).granted_capabilities c
      ≡ (has m.capabilities c && has p.capabilities c)
unfolding authorize_under granted
granted-exact h m a p c =
    has-sort c (filter (has p.capabilities) m.capabilities)
    ∙ has-filter (has p.capabilities) c m.capabilities
