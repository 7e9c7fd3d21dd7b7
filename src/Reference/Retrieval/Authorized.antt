-- ===== src/Reference/Retrieval/Authorized.antt =====
-- What a retrieval may rank: `retrieve` of src/risi/adapters/reference.py scores only memories that
-- `_is_retrievable` admits for its query, and its ranking adds none.
use risi.Prelude.{
  ℕ, zero, suc, ◌≤◌, ◌<◌, ◌≡◌, Member, elem→Member, eq_iff, refl, subst, String, Bool, true, false,
  not, ◌&&◌, ◌||◌, Option, none, some, List, [], ◌∷◌, ◌==◌, arith, Bool-cases, ◌⊎◌, inl, inr, All,
  filter, take, ltb, elem, if◌then◌else◌,
}
use risi.Prelude.Failure.{Result, ok, >>=-eq-ok}
use risi.Canonical.{get}
use risi.Models.{MemoryRecord, MemoryState, RetrievalQuery, RetrievalHit, StateSnapshot}
use risi.Trace.{Runtime}
use risi.Reference.Policy.{text_of}
use risi.Reference.Scoring.{score}
use risi.Reference.Retrieval.{
  Scored, scored_ids, score_all, insert_by, sort_by, by_preference, is_retrievable, is_current,
  valid_at, number_hits, access_counter, probe_ranking, apply_risi_probe_ranking,
}

-- `m` is one of the list's items.
abbrev pub Among : MemoryRecord → List MemoryRecord → Type 0
Among m [] = ⊥
Among m (x ∷ xs) = (m ≡ x) ⊎ Among m xs

-- A memory of the state, by its identifier, that the query may see.
pub record IsAllowed (s : StateSnapshot) (q : RetrievalQuery) (id : String) : Type 0 where
  pub memory : MemoryRecord
  pub among : Among memory s.source_memories
  pub named : memory.memory_id ≡ id
  pub current : memory.state ≡ MemoryState.current
  pub tenant : memory.tenant_id ≡ q.tenant_id
  pub reader : Member q.principal_id memory.access_policy
  pub started : memory.logical_valid_from ≤ s.logical_time
  pub not_over : (until : ℕ) → memory.logical_valid_until ≡ some until → s.logical_time < until

is_current-eq : (m : MemoryState) → is_current m ≡ true → m ≡ MemoryState.current
is_current-eq MemoryState.current h = refl
is_current-eq MemoryState.superseded h = cc
is_current-eq MemoryState.hidden h = cc
is_current-eq MemoryState.archived h = cc
is_current-eq MemoryState.deleted h = cc

valid_at-bounds :
    (now start : ℕ) (end : Option ℕ)
    → valid_at now start end ≡ true
    → (start ≤ now) × ((until : ℕ) → end ≡ some until → now < until)
valid_at-bounds now start none h = (ground arith, λ u e. cc)
valid_at-bounds now start (some v) h = (ground arith, λ u e. ground arith)

-- What `_is_retrievable` tests.
IsAllowed-of :
    (s : StateSnapshot) (q : RetrievalQuery) (m : MemoryRecord)
    → Among m s.source_memories
    → is_retrievable s q m ≡ true
    → IsAllowed s q m.memory_id
unfolding is_retrievable
IsAllowed-of s q m among h =
    let (started, not_over) =
      valid_at-bounds s.logical_time m.logical_valid_from m.logical_valid_until (ground arith) in
    record {
      memory = m;
      among = among;
      named = refl;
      current = is_current-eq m.state (ground arith);
      tenant = (eq_iff m.tenant_id q.tenant_id).0 (ground arith);
      reader = elem→Member q.principal_id m.access_policy (ground arith);
      started = started;
      not_over = not_over;
    }

sorted_as : (xs ys : List Scored) → ok xs ≡ ok ys → xs ≡ ys
sorted_as xs ys h = cc

chosen :
    (b : Bool) (xs : List Scored) (r : Result (List Scored)) (ys : List Scored)
    → (if b then ok xs else r) ≡ ok ys
    → (xs ≡ ys) ⊎ (r ≡ ok ys)
chosen true xs r ys h = inl (sorted_as xs ys h)
chosen false xs r ys h = inr h

chosen_if :
    (b : Bool) (r : Result (List Scored)) (xs ys : List Scored)
    → (if b then r else ok xs) ≡ ok ys
    → (xs ≡ ys) ⊎ (r ≡ ok ys)
chosen_if true r xs ys h = inr h
chosen_if false r xs ys h = inl (sorted_as xs ys h)

module _ (P : Scored → Type 0) where
  if-All : (b : Bool) (xs ys : List Scored) → All P xs → All P ys → All P (if b then xs else ys)
  if-All true xs ys p q = p
  if-All false xs ys p q = q

  All-insert :
      (before : Scored → Scored → Bool) (x : Scored) (xs : List Scored)
      → P x
      → All P xs
      → All P (insert_by before x xs)
  All-insert before x [] p ps = (p, tt)
  All-insert before x (y ∷ ys) p (py, ps) =
      if-All (before x y) _ _ (p, (py, ps)) (py, All-insert before x ys p ps)

  pub All-sort :
      (before : Scored → Scored → Bool) (xs : List Scored) → All P xs → All P (sort_by before xs)
  All-sort before [] ps = tt
  All-sort before (x ∷ xs) (p, ps) =
      All-insert before x (sort_by before xs) p (All-sort before xs ps)

  -- The items that a filter keeps also pass its test.
  pub All-filter :
      (t : Scored → Bool) (xs : List Scored)
      → All P xs
      → All (λ x. P x × (t x ≡ true)) (filter t xs)
  All-filter t [] ps = tt
  All-filter t (x ∷ xs) (p, ps) = elim (Bool-cases (t x)) [
    | inl y ↦ rw y ((p, y), All-filter t xs ps)
    | inr n ↦ rw n (All-filter t xs ps)
  ]

  pub All-take : (n : ℕ) (xs : List Scored) → All P xs → All P (take n xs)
  All-take zero xs ps = tt
  All-take (suc n) [] ps = tt
  All-take (suc n) (x ∷ xs) (p, ps) = (p, All-take n xs ps)

  probe_ranking-All :
      (s : StateSnapshot) (q : RetrievalQuery) (scored ranked : List Scored)
      (observer quiet hidden : Option String)
      → All P scored
      → probe_ranking s q scored observer quiet hidden ≡ ok ranked
      → All P ranked
  unfolding probe_ranking
  probe_ranking-All s q scored ranked (some o) (some n) (some h) ps e =
      elim (chosen
        (not (q.principal_id == o)
          || not (elem n (scored_ids scored) && elem h (scored_ids scored)))
        scored _ ranked e) [
          | inl same ↦ subst (All P) same ps
          | inr r ↦
              let (counter, _, eq) =
                >>=-eq-ok (access_counter s.derived_state)
                  (λ c. ok (sort_by (by_preference (if ltb 0 c then h else n)) scored)) r in
              subst (All P) (sorted_as _ ranked eq) (All-sort _ scored ps)
        ]
  probe_ranking-All s q scored ranked none n h ps e = cc
  probe_ranking-All s q scored ranked (some o) none h ps e = cc
  probe_ranking-All s q scored ranked (some o) (some n) none ps e = cc

  pub ranking-All :
      (s : StateSnapshot) (q : RetrievalQuery) (scored ranked : List Scored)
      → All P scored
      → apply_risi_probe_ranking s q scored ≡ ok ranked
      → All P ranked
  unfolding apply_risi_probe_ranking
  ranking-All s q scored ranked ps e =
      let observer = text_of (get "observer_principal_id" s.policy.settings) in
      let quiet = text_of (get "no_hidden_signal_memory_id" s.policy.settings) in
      let hidden = text_of (get "hidden_signal_memory_id" s.policy.settings) in
      elim (chosen_if (s.policy.identity.name == "risi-shared-counter")
        (probe_ranking s q scored observer quiet hidden) scored ranked e) [
          | inl same ↦ subst (All P) same ps
          | inr r ↦ probe_ranking-All s q scored ranked observer quiet hidden ps r
        ]

pub number_hits-All :
    (P : String → Type 0) (rank : ℕ) (xs : List Scored)
    → All (λ (x : Scored). P (x.1)) xs
    → All (λ (h : RetrievalHit). P h.memory_id) (number_hits rank xs)
number_hits-All P rank [] ps = tt
number_hits-All P rank ((v, id) ∷ xs) (p, ps) = (p, number_hits-All P (suc rank) xs ps)

pub score_all-IsAllowed :
    (rt : Runtime) (s : StateSnapshot) (q : RetrievalQuery) (ms : List MemoryRecord)
    → ((m : MemoryRecord) → Among m ms → Among m s.source_memories)
    → All (λ (x : Scored). IsAllowed s q (x.1)) (score_all rt s q ms)
unfolding score_all
score_all-IsAllowed rt s q [] sub = tt
score_all-IsAllowed rt s q (m ∷ ms) sub =
    let rest = score_all-IsAllowed rt s q ms (λ x among. sub x (inr among)) in
    elim (Bool-cases (is_retrievable s q m && ltb 0 (score rt q.text m.content))) [
      | inl y ↦ rw y (IsAllowed-of s q m (sub m (inl refl)) (ground arith), rest)
      | inr n ↦ rw n rest
    ]
