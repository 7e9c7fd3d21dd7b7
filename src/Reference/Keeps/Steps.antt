-- ===== src/Reference/Keeps/Steps.antt =====
-- A run of the adapter is a row of committed events: what the commits keep, the methods of
-- src/risi/adapters/reference.py keep, `reset` apart.
use risi.Prelude.{
  ℕ, zero, suc, ◌∙◌, ◌⊎◌, ◌+◌, ◌≡◌, refl, ap, sym, subst, ℤ, pos, negsuc, suc_ℤ, String, Bool, true,
  false, not, ◌||◌, ◌&&◌, Option, none, some, List, ◌==◌, arith, inl, inr, elem, elem→Member,
  eq_iff, if◌then◌else◌,
}
use risi.Prelude.Failure.{Error, Result, ok, err, ◌>>=◌, ◌>>◌, raise_if, >>=-eq-ok}
use risi.Canonical.{Fields, get}
use risi.Reference.Policy.{text_of}
use risi.Models.{
  EventType, EventVisibility, StateSnapshot, RetrievalQuery, RetrievalResult, PolicyConfiguration,
  PolicyIdentity, MemoryRecord,
}
use risi.Paths.{is_nil}
use risi.Trace.{Runtime}
use risi.Reference.{Adapter, Action, pure, then_do, record_event, commit_event}
use risi.Reference.Retrieval.{suppressed_memory_ids, access_counter, Selection}
use risi.Reference.Retrieval.Update.{
  Update, truthy, read_side_update, adaptive_update, counter_update, interaction_count, eclipse,
  set_counter,
}
use risi.Reference.Operations.{
  retrieve, assemble_context, configure_policy, advance_clock, apply_read_side_update,
  commit_update, record_set_change,
}
use risi.Models.Checks.{check_policy_identity}
use risi.Prelude.Text.{is_blank}
use risi.Reference.Policy.{validate_policy_configuration, supported_policies}
use risi.Reference.Keeps.{Advances, left_by, left_by-then_do, left_by-lift}
use risi.Reference.Keeps.Transition.{
  Transition, is_plain, Transition-Advances, counted-Advances, clocked-Advances,
}

abbrev IsUpdate : StateSnapshot → Update → Type 0
IsUpdate s u = Transition s EventType.read_side_update u.payload u.after

module _ (s : StateSnapshot) (q : RetrievalQuery) (u : Update) where
  is-eclipse : (t x : String) (c : ℤ) → ok (some (eclipse s q t x c)) ≡ ok (some u) → IsUpdate s u
  is-eclipse t x c h =
      let eq : eclipse s q t x c ≡ u = cc in
      subst (IsUpdate s) eq (Transition.eclipsed q t x c refl refl refl)

  is-counter : (c : ℕ) (b : Bool) → ok (some (set_counter s c b)) ≡ ok (some u) → IsUpdate s u
  is-counter c b h =
      let eq : set_counter s c b ≡ u = cc in
      subst (IsUpdate s) eq (Transition.shared_counter c b refl refl refl)

  then_part :
      (b : Bool) (m : Result (Option Update))
      → (if b then m else ok none) ≡ ok (some u)
      → m ≡ ok (some u)
  then_part true m h = h
  then_part false m h = cc

  eclipse_unless :
      (t x : String) (already : Bool) (prior : Result ℤ)
      → (if already then ok none else (prior >>= λ n. ok (some (eclipse s q t x (suc_ℤ n)))))
        ≡ ok (some u)
      → IsUpdate s u
  eclipse_unless t x true prior h = cc
  eclipse_unless t x false (err e) h = cc
  eclipse_unless t x false (ok n) h = is-eclipse t x (suc_ℤ n) h

  adaptive-IsUpdate :
      (ids : List String) (trigger suppressed : Option String)
      → adaptive_update s q ids trigger suppressed ≡ ok (some u)
      → IsUpdate s u
  unfolding adaptive_update
  adaptive-IsUpdate ids (some t) (some x) h =
      let (already, _, rest) =
        >>=-eq-ok (suppressed_memory_ids s)
          (λ already.
            if elem x already
            then ok none
            else (interaction_count s.policy_state >>= λ n. ok (some (eclipse s q t x (suc_ℤ n)))))
          (then_part (elem t ids) _ h) in
      eclipse_unless t x (elem x already) (interaction_count s.policy_state) rest
  adaptive-IsUpdate ids none x h = cc
  adaptive-IsUpdate ids (some t) none h = cc

  counter-IsUpdate :
      (ids : List String) (victim canary : Option String)
      → counter_update s q ids victim canary ≡ ok (some u)
      → IsUpdate s u
  unfolding counter_update
  counter-IsUpdate ids (some v) (some c) h =
      let (prior, _, rest) =
        >>=-eq-ok (access_counter s.derived_state)
          (λ prior.
            ok (some (set_counter s (if elem c ids then prior + 1 else prior) (elem c ids))))
          (then_part (q.principal_id == v) _ h) in
      is-counter (if elem c ids then prior + 1 else prior) (elem c ids) rest
  counter-IsUpdate ids none x h = cc
  counter-IsUpdate ids (some t) none h = cc

  one_of :
      (b c : Bool) (m n : Result (Option Update))
      → (if b then ok none else if c then m else n) ≡ ok (some u)
      → (m ≡ ok (some u)) ⊎ (n ≡ ok (some u))
  one_of true c m n h = cc
  one_of false true m n h = inl h
  one_of false false m n h = inr h

  -- A read-side update is the change of state of one event.
  read_side_update-IsUpdate :
      (ids : List String) → read_side_update s q ids ≡ ok (some u) → IsUpdate s u
  unfolding read_side_update
  read_side_update-IsUpdate ids h =
      let victim = text_of (get "victim_principal_id" s.policy.settings) in
      let canary = text_of (get "canary_memory_id" s.policy.settings) in
      let trigger = text_of (get "trigger_memory_id" s.policy.settings) in
      let suppressed = text_of (get "suppressed_memory_id" s.policy.settings) in
      elim (one_of
        ((s.policy.identity.name == "pure-read")
          || not (truthy (get "read_side_updates" s.policy.settings)))
        (s.policy.identity.name == "risi-shared-counter") (counter_update s q ids victim canary)
        (adaptive_update s q ids trigger suppressed) h) [
          | inl counter ↦ counter-IsUpdate ids victim canary counter
          | inr adaptive ↦ adaptive-IsUpdate ids trigger suppressed adaptive
        ]

supported_name : (name : String) → elem name supported_policies ≡ true → is_blank name ≡ false
unfolding is_blank
supported_name name h = elim (elem→Member name supported_policies h) [
  | inl e ↦ subst (λ n. is_blank n ≡ false) (sym e) refl
  | inr (inl e) ↦ subst (λ n. is_blank n ≡ false) (sym e) refl
  | inr (inr (inl e)) ↦ subst (λ n. is_blank n ≡ false) (sym e) refl
  | inr (inr (inr (inl e))) ↦ subst (λ n. is_blank n ≡ false) (sym e) refl
  | inr (inr (inr (inr x))) ↦ elim x [ ]
]

guarded :
    (b : Bool) (e : Error) (r : Result (Unit {0})) (v : Unit {0})
    → (raise_if b e >> r) ≡ ok v
    → b ≡ false
guarded true e r v h = cc
guarded false e r v h = refl

-- A name and a version that are not blank make an identity.
named_identity :
    (i : PolicyIdentity)
    → is_blank i.name ≡ false
    → is_blank i.version ≡ false
    → check_policy_identity i ≡ ok tt
unfolding check_policy_identity
named_identity i n v = rw (n, v) refl

version_one : (v : String) → (v == "1") ≡ true → is_blank v ≡ false
unfolding is_blank
version_one v h = subst (λ n. is_blank n ≡ false) (sym ((eq_iff v "1").0 h)) refl

-- A policy that the adapter accepts has an identity.
validated-identity :
    (memories : List MemoryRecord) (c : PolicyConfiguration) (v : Unit {0})
    → validate_policy_configuration memories c ≡ ok v
    → check_policy_identity c.identity ≡ ok tt
unfolding validate_policy_configuration
validated-identity memories c v h =
    let guard =
      guarded (not (elem c.identity.name supported_policies) || not (c.identity.version == "1")) _ _
        v h in
    named_identity c.identity (supported_name c.identity.name (ground arith))
      (version_one c.identity.version (ground arith))

-- A predicate that every commit of a transition keeps.
pub record Closed (rt : Runtime) (P : Adapter → Type 0) : Type 0 where
  pub commit :
      (after : StateSnapshot) (type : EventType) (visibility : EventVisibility) (payload : Fields)
      (actor : Option String) (a : Adapter)
      → P a
      → Transition a.state type payload after
      → P (left_by (commit_event rt after type visibility payload actor) a)

module _ (rt : Runtime) (P : Adapter → Type 0) (closed : Closed rt P) where
  pub record_event-keeps :
      (type : EventType) (visibility : EventVisibility) (payload : Fields) (actor : Option String)
      (a : Adapter)
      → is_plain type ≡ true
      → P a
      → P (left_by (record_event rt type visibility payload actor) a)
  unfolding record_event
  record_event-keeps type visibility payload actor a t p =
      closed.commit _ type visibility payload actor a p (Transition.plain t refl)

  if-keeps :
      {A : Type 0} (b : Bool) (m n : Result A × Adapter)
      → P (m.1)
      → P (n.1)
      → P ((if b then m else n).1)
  if-keeps true m n p q = p
  if-keeps false m n p q = q

  -- The rest of an action that ends by returning a value.
  then_return :
      {A B : Type 0} (m : Action A) (x : B) (a : Adapter)
      → P (left_by m a)
      → P (left_by (then_do m (λ _. pure x)) a)
  then_return m x a p = left_by-then_do P m (λ _. pure x) a p (λ y b q. q)

  commit_update-keeps :
      (q : RetrievalQuery) (u : Option Update) (a : Adapter)
      → P a
      → ((v : Update) → u ≡ some v → IsUpdate a.state v)
      → P (left_by (commit_update rt q u) a)
  unfolding commit_update
  commit_update-keeps q none a p adv = p
  commit_update-keeps q (some u) a p adv =
      then_return _ tt a (closed.commit u.after _ _ _ _ a p (adv u refl))

  update-keeps :
      (q : RetrievalQuery) (ids : List String) (a : Adapter)
      → P a
      → P (left_by (apply_read_side_update rt q ids) a)
  unfolding apply_read_side_update
  update-keeps q ids a p =
      left_by-lift P (read_side_update a.state q ids) (commit_update rt q) a p (λ u h.
        commit_update-keeps q u a p
          (λ v eq. read_side_update-IsUpdate a.state q v ids (h ∙ ap ok eq)))

  record_set_change-keeps :
      (q : RetrievalQuery) (sel : Selection) (a : Adapter)
      → P a
      → P (left_by (record_set_change rt q sel) a)
  unfolding record_set_change
  record_set_change-keeps q sel a p =
      if-keeps (is_nil sel.removed && is_nil sel.protected) _ _ p
        (then_return _ tt a (record_event-keeps _ _ _ _ a refl p))

  pub retrieve-keeps : (q : RetrievalQuery) (a : Adapter) → P a → P (left_by (retrieve rt q) a)
  unfolding retrieve
  retrieve-keeps q a p = left_by-lift P _ _ a p (λ sel _.
      left_by-then_do P _ _ a (record_event-keeps _ _ _ _ a refl p) (λ _ b pb.
        left_by-then_do P _ _ b (record_set_change-keeps q sel b pb)
          (λ _ c pc. then_return _ sel.result c (update-keeps q _ c pc))))

  pub assemble_context-keeps :
      (r : RetrievalResult) (a : Adapter) → P a → P (left_by (assemble_context rt r) a)
  unfolding assemble_context
  assemble_context-keeps r a p =
      left_by-lift P _ _ a p (λ lines _. then_return _ _ a (record_event-keeps _ _ _ _ a refl p))

  pub configure_policy-keeps :
      (c : PolicyConfiguration) (a : Adapter) → P a → P (left_by (configure_policy rt c) a)
  unfolding configure_policy
  configure_policy-keeps c a p = left_by-lift P _ _ a p (λ u v. then_return _ tt a (
      closed.commit _ _ _ _ _ a p
        (Transition.policy c (validated-identity a.state.source_memories c u v) refl refl refl)))

-- A predicate that every commit of a state that is one event further keeps, whatever the type and
-- the payload of the event say of it.
pub record IsStable (rt : Runtime) (P : Adapter → Type 0) : Type 0 where
  pub commit :
      (after : StateSnapshot) (type : EventType) (visibility : EventVisibility) (payload : Fields)
      (actor : Option String) (a : Adapter)
      → P a
      → Advances a.state after
      → P (left_by (commit_event rt after type visibility payload actor) a)

module _ (rt : Runtime) (P : Adapter → Type 0) (stable : IsStable rt P) where
  pub Closed-of_stable : Closed rt P
  Closed-of_stable = record {
    commit = λ after type visibility payload actor a p step.
        stable.commit after type visibility payload actor a p
          (Transition-Advances a.state type payload after step);
  }

  pub any_event-keeps :
      (type : EventType) (visibility : EventVisibility) (payload : Fields) (actor : Option String)
      (a : Adapter)
      → P a
      → P (left_by (record_event rt type visibility payload actor) a)
  unfolding record_event
  any_event-keeps type visibility payload actor a p =
      stable.commit _ type visibility payload actor a p (counted-Advances a.state)

  pub advance_clock-keeps : (n : ℤ) (a : Adapter) → P a → P (left_by (advance_clock rt n) a)
  unfolding advance_clock
  advance_clock-keeps (pos (suc n)) a p =
      left_by-then_do P _ _ a (stable.commit _ _ _ _ _ a p (clocked-Advances a.state (suc n)))
        (λ _ b q. q)
  advance_clock-keeps (pos zero) a p = p
  advance_clock-keeps (negsuc n) a p = p
