-- ===== src/Reference/Retrieval/Served.antt =====
-- What `retrieve` of src/risi/adapters/reference.py returns, from what its selection computes.
use risi.Prelude.{
  ℕ, suc, ◌≤◌, ◌≡◌, refl, subst, ap, String, not, List, [], ◌∷◌, arith, All, take, length,
  length-take,
}
use risi.Prelude.Failure.{Result, ok, err, ◌>>=◌, ◌>>◌, raise_if, value_error}
use risi.Canonical.{get}
use risi.Models.{RetrievalQuery, RetrievalHit, RetrievalResult, StateSnapshot}
use risi.Models.Checks.{check_result}
use risi.Trace.{Runtime}
use risi.Reference.{Adapter, Action, lift, then_do, continue}
use risi.Reference.Retrieval.{
  Scored, score_all, sort_by, by_score, number_hits, kept, select, select_from, Selection,
  suppressed_memory_ids, apply_risi_probe_ranking, within_top_k,
}
use risi.Reference.Retrieval.Recalled.{IsServed, select_from-IsServed}
use risi.Reference.Operations.{retrieve}

checked :
    {C : Type 0} (c : Result (Unit {0})) (v z : C) → (c >> ok v) ≡ ok z → (c ≡ ok tt) × (v ≡ z)
checked (ok tt) v z h = (refl, cc)
checked (err e) v z h = cc

continued :
    {A B : Type 0} (r : Result A) (f : A → Action B) (b : Adapter) (y : B)
    → (continue r f b).0 ≡ ok y
    → (x : A) × (r ≡ ok x) × ((f x b).0 ≡ ok y)
continued (ok x) f b y h = (x, refl, h)
continued (err e) f b y h = cc

-- The steps of a selection, each of which returned.
selection_steps :
    {A B C : Type 0} (guard : Result (Unit {0})) (r : Result A) (w : Result B) (f : A → B → C)
    (check : C → Result (Unit {0})) (z : C)
    → (guard >> (r >>= λ x. w >>= λ y. check (f x y) >> ok (f x y))) ≡ ok z
    → (x : A) × (y : B) × (r ≡ ok x) × (w ≡ ok y) × (check z ≡ ok tt) × (f x y ≡ z)
selection_steps (ok tt) (ok x) (ok y) f check z h =
    let (c, e) = checked (check (f x y)) (f x y) z h in
    (x, y, refl, refl, subst (λ v. check v ≡ ok tt) e c, e)
selection_steps (ok tt) (ok x) (err e) f check z h = cc
selection_steps (ok tt) (err e) w f check z h = cc
selection_steps (err e) r w f check z h = cc

module _ (rt : Runtime) (s : StateSnapshot) (q : RetrievalQuery) (sel : Selection) where
  select-parts :
      select rt s q ≡ ok sel
      → (ranked : List Scored) × (suppressed : List String) × (apply_risi_probe_ranking s q
            (sort_by by_score (score_all rt s q s.source_memories))
          ≡ ok ranked)
        × (suppressed_memory_ids s ≡ ok suppressed)
        × (check_result sel.result ≡ ok tt)
        × (select_from s q ranked suppressed ≡ sel)
  unfolding select
  select-parts h =
      selection_steps
        (raise_if (not (within_top_k q.top_k (get "top_k" s.policy.settings)))
          (value_error "retrieval query exceeds the configured policy top_k"))
        (apply_risi_probe_ranking s q (sort_by by_score (score_all rt s q s.source_memories)))
        (suppressed_memory_ids s) (select_from s q) (λ v. check_result v.result) sel h

  -- A selection holds only memories that are served, ...
  select-IsServed :
      select rt s q ≡ ok sel → All (λ (h : RetrievalHit). IsServed s q h.memory_id) sel.result.hits
  select-IsServed h =
      let (ranked, suppressed, r, k, _, eq) = select-parts h in
      subst (λ (v : Selection). All (λ (h : RetrievalHit). IsServed s q h.memory_id) v.result.hits)
        eq (select_from-IsServed rt s q ranked suppressed r k)

  length-number_hits : (n : ℕ) (xs : List Scored) → length (number_hits n xs) ≡ length xs
  length-number_hits n [] = refl
  length-number_hits n ((v, id) ∷ xs) = ap suc (length-number_hits (suc n) xs)

  -- ... not more of them than the query asks for.
  select-bounded : select rt s q ≡ ok sel → length sel.result.hits ≤ q.top_k
  select-bounded h =
      let (ranked, suppressed, r, k, _, eq) = select-parts h in
      subst (λ (v : Selection). length v.result.hits ≤ q.top_k) eq
        (omega (
          arith,
          length-number_hits 1 (take q.top_k (kept s suppressed ranked)),
          length-take q.top_k (kept s suppressed ranked),
        ))

-- An action that returned a value after its first part did.
then_do-ok :
    {A B : Type 0} (m : Action A) (f : A → Action B) (a : Adapter) (y : B)
    → (then_do m f a).0 ≡ ok y
    → (x : A) × ((m a).0 ≡ ok x) × ((f x ((m a).1)).0 ≡ ok y)
unfolding then_do
then_do-ok m f a y h = continued ((m a).0) f ((m a).1) y h

module _ (rt : Runtime) (q : RetrievalQuery) (a : Adapter) (r : RetrievalResult) where
  retrieve-select :
      (retrieve rt q a).0 ≡ ok r
      → (sel : Selection) × (select rt a.state q ≡ ok sel) × (sel.result ≡ r)
  unfolding retrieve
  retrieve-select h =
      let (sel, s, rest) = then_do-ok (lift (select rt a.state q)) _ a r h in
      let (_, _, rest2) = then_do-ok _ _ _ r rest in
      let (_, _, rest3) = then_do-ok _ _ _ r rest2 in
      let (_, _, rest4) = then_do-ok _ _ _ r rest3 in (sel, s, cc)

  -- A retrieval that returns serves only current memories of the query's tenant that its principal
  -- may read at the adapter's time, at most `top_k` of them. None of them is suppressed, but for
  -- those that the policy protected-critical-recall protects by their criticality.
  pub retrieve-IsServed :
      (retrieve rt q a).0 ≡ ok r
      → All (λ (h : RetrievalHit). IsServed a.state q h.memory_id) r.hits
        × (length r.hits ≤ q.top_k)
  retrieve-IsServed h =
      let (sel, s, eq) = retrieve-select h in
      subst
        (λ (v : RetrievalResult).
          All (λ (h : RetrievalHit). IsServed a.state q h.memory_id) v.hits
          × (length v.hits ≤ q.top_k))
        eq (select-IsServed rt a.state q sel s, select-bounded rt a.state q sel s)
