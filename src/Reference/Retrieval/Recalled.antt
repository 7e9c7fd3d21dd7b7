-- ===== src/Reference/Retrieval/Recalled.antt =====
-- What the suppression leaves of a ranking in `retrieve` of src/risi/adapters/reference.py: no memory
-- that is suppressed and not protected.
use risi.Prelude.{
  ◌≡◌, eq_iff, refl, String, Bool, true, false, not, Option, none, some, List, [], ◌∷◌, arith,
  Bool-cases, ◌⊎◌, inl, inr, All, elem,
}
use risi.Prelude.Failure.{ok}
use risi.Canonical.{get}
use risi.Models.{MemoryRecord, RetrievalQuery, RetrievalHit, StateSnapshot}
use risi.Trace.{Runtime}
use risi.Reference.{find_memory}
use risi.Reference.Retrieval.{
  Scored, score_all, sort_by, by_score, is_removed, is_protected, same_label, kept, select_from,
  suppressed_memory_ids, apply_risi_probe_ranking,
}
use risi.Reference.Retrieval.Authorized.{
  IsAllowed, All-sort, All-filter, All-take, ranking-All, number_hits-All, score_all-IsAllowed,
}

-- A memory that the policy recalls although it is suppressed: under the protected recall, its
-- criticality is the one that the settings name.
pub record IsProtected (s : StateSnapshot) (id : String) : Type 0 where
  pub policy : s.policy.identity.name ≡ "protected-critical-recall"
  pub memory : MemoryRecord
  pub found : find_memory id s.source_memories ≡ some memory
  pub critical :
      same_label memory.system_criticality (get "protected_criticality" s.policy.settings) ≡ true

-- A memory that the query may see, and that is not suppressed unless it is protected.
pub record IsServed (s : StateSnapshot) (q : RetrievalQuery) (id : String) : Type 0 where
  pub allowed : IsAllowed s q id
  pub suppressed : List String
  pub known : suppressed_memory_ids s ≡ ok suppressed
  pub recalled : (elem id suppressed ≡ false) ⊎ IsProtected s id

found_protected :
    (found : Option MemoryRecord) (test : MemoryRecord → Bool)
    → elim found [ some m ↦ test m | none ↦ false ] ≡ true
    → (m : MemoryRecord) × (found ≡ some m) × (test m ≡ true)
found_protected (some m) test h = (m, refl, h)
found_protected none test h = cc

is_protected-IsProtected :
    (s : StateSnapshot) (id : String) → is_protected s id ≡ true → IsProtected s id
unfolding is_protected
is_protected-IsProtected s id h =
    let (m, found, critical) =
      found_protected (find_memory id s.source_memories)
        (λ m. same_label m.system_criticality (get "protected_criticality" s.policy.settings))
        (ground arith) in
    record {
      policy = (eq_iff s.policy.identity.name "protected-critical-recall").0 (ground arith);
      memory = m;
      found = found;
      critical = critical;
    }

recalled_of :
    (s : StateSnapshot) (suppressed : List String) (id : String)
    → not (is_removed s suppressed id) ≡ true
    → (elem id suppressed ≡ false) ⊎ IsProtected s id
recalled_of s suppressed id h = elim (Bool-cases (is_protected s id)) [
  | inl y ↦ inr (is_protected-IsProtected s id y)
  | inr n ↦ inl (ground arith)
]

All-map :
    (P Q : Scored → Type 0) → ((x : Scored) → P x → Q x) → (xs : List Scored) → All P xs → All Q xs
All-map P Q f [] ps = tt
All-map P Q f (x ∷ xs) (p, ps) = (f x p, All-map P Q f xs ps)

pub select_from-IsServed :
    (rt : Runtime) (s : StateSnapshot) (q : RetrievalQuery) (ranked : List Scored)
    (suppressed : List String)
    → apply_risi_probe_ranking s q (sort_by by_score (score_all rt s q s.source_memories))
      ≡ ok ranked
    → suppressed_memory_ids s ≡ ok suppressed
    → All
        (λ (h : RetrievalHit). IsServed s q h.memory_id)
        (select_from s q ranked suppressed).result.hits
unfolding kept
select_from-IsServed rt s q ranked suppressed r k =
    let allowed =
      ranking-All (λ x. IsAllowed s q (x.1)) s q _ ranked
        (All-sort _ by_score _ (score_all-IsAllowed rt s q s.source_memories (λ m among. among)))
        r in
    number_hits-All (IsServed s q) 1 _ (
      All-take _ q.top_k _ (
        All-map _ (λ x. IsServed s q (x.1))
          (λ x (p, t). record {
            allowed = p;
            suppressed = suppressed;
            known = k;
            recalled = recalled_of s suppressed (x.1) t;
          })
          _ (All-filter _ (λ x. not (is_removed s suppressed (x.1))) ranked allowed)))
