-- ===== src/Campaign/World/Cleanup.antt =====
-- The knowledge bases that a world of src/risi/campaign.py leaves on the target.
use risi.Prelude.{
  ℕ, ◌-◌, ◌≡◌, refl, ap, ◌∙◌, String, false, List, [], ◌∷◌, ◌++◌, ◌==◌, eq_refl, take, drop,
  if◌then◌else◌,
}
use risi.Prelude.Failure.{Result, ok, err}
use risi.Prelude.Exec.{Exec, lift, continue, ◌>>=◌, ◌>>◌, try_finally, Keeps, Keeps->>=, Keeps->>}
use risi.External.{ExternalKnowledgeAdapter}
use risi.Campaign.{CampaignMemory, CampaignWorld, EvaluatorOracle}
use risi.Campaign.World.{
  DocumentIds, ingest_one, ingest, observe_query, observe, run_checkpoints, delete_unless,
  with_knowledge_base, run_condition, run_conditions, run_world, five_budgets,
}

-- The target beside the knowledge bases that were created and not yet asked to be deleted, the
-- latest first.
abbrev pub Watched : Type 0 → Type 0
Watched W = W × List String

abbrev opened : Result String → List String → List String
opened (ok id) open_bases = id ∷ open_bases
opened (err e) open_bases = open_bases

abbrev pub without : String → List String → List String
without id [] = []
without id (x ∷ xs) = if x == id then xs else x ∷ without id xs

without_head : (id : String) (xs : List String) → without id (id ∷ xs) ≡ xs
without_head id xs = rw (eq_refl id)

module _ {W : Type 0} where
  abbrev watch : {A : Type 0} → Exec W A → Exec (Watched W) A
  watch m s = let (r, w) = m s.0 in (r, (w, s.1))

  abbrev watch_create : Exec W String → Exec (Watched W) String
  watch_create m s = let (r, w) = m s.0 in (r, (w, opened r s.1))

  abbrev watch_delete : String → Exec W (Unit {0}) → Exec (Watched W) (Unit {0})
  watch_delete id m s = let (r, w) = m s.0 in (r, (w, without id s.1))

  -- The adapter, with a record of the open knowledge bases beside the target.
  unfoldable pub watched : ExternalKnowledgeAdapter W → ExternalKnowledgeAdapter (Watched W)
  watched a = record {
    list_knowledge_bases = λ c. watch (a.list_knowledge_bases c);
    create_knowledge_base = λ name c. watch_create (a.create_knowledge_base name c);
    inspect_knowledge_base = λ id c. watch (a.inspect_knowledge_base id c);
    delete_knowledge_base = λ id c. watch_delete id (a.delete_knowledge_base id c);
    create_document = λ id name content c. watch (a.create_document id name content c);
    wait_for_indexing = λ id batch c. watch (a.wait_for_indexing id batch c);
    inspect_segments = λ id document c. watch (a.inspect_segments id document c);
    retrieve = λ id query c. watch (a.retrieve id query c);
    delete_document = λ id document c. watch (a.delete_document id document c);
    read_health = λ c. watch (a.read_health c);
  }

  -- The open knowledge bases are these.
  abbrev pub Open : List String → Watched W → Type 0
  Open xs s = s.1 ≡ xs

  -- A statement that leaves open what was open before it, whether it returns or raises.
  abbrev pub Neutral : {A : Type 0} → Exec (Watched W) A → Type 0
  Neutral m = (xs : List String) → Keeps (Open xs) m

  pub Neutral->>= :
      {A B : Type 0} (m : Exec (Watched W) A) (f : A → Exec (Watched W) B)
      → Neutral m
      → ((x : A) → Neutral (f x))
      → Neutral (m >>= f)
  Neutral->>= m f k l xs = Keeps->>= (Open xs) m f (k xs) (λ x. l x xs)

  pub Neutral->> :
      {A B : Type 0} (m : Exec (Watched W) A) (n : Exec (Watched W) B)
      → Neutral m
      → Neutral n
      → Neutral (m >> n)
  Neutral->> m n k l xs = Keeps->> (Open xs) m n (k xs) (l xs)

  -- What does not touch the target, or does not create or delete.
  pub Neutral-watch : {A : Type 0} (m : Exec W A) → Neutral (watch m)
  Neutral-watch m xs s h = h

  pub Neutral-lift : {A : Type 0} (r : Result A) → Neutral (lift r)
  Neutral-lift r xs s h = h

  module _ (a : ExternalKnowledgeAdapter W) where
    used_and_deleted :
        {A : Type 0} (body : String → Exec (Watched W) A)
        → ((id : String) → Neutral (body id))
        → (r : Result String) (xs : List String) (s : Watched W) → s.1 ≡ opened r xs
        → Open xs
            (continue r (λ id. try_finally (body id) (delete_unless (watched a) false id)) s).1
    unfolding watched try_finally
    used_and_deleted body k (ok id) xs s h =
        ap (without id) (k id (id ∷ xs) s h) ∙ without_head id xs
    used_and_deleted body k (err e) xs s h = h

    -- A knowledge base that is used by such a statement is deleted after it.
    pub with_knowledge_base-Neutral :
        {A : Type 0} (name : String) (body : String → Exec (Watched W) A)
        → ((id : String) → Neutral (body id))
        → Neutral (with_knowledge_base (watched a) name false body)
    unfolding with_knowledge_base watched ◌>>=◌
    with_knowledge_base-Neutral name body k xs s h =
        used_and_deleted body k (a.create_knowledge_base name false s.0).0 xs
          ((watched a).create_knowledge_base name false s).1
          (ap (opened (a.create_knowledge_base name false s.0).0) h)

    module _ (w : CampaignWorld) (o : EvaluatorOracle) where
      ingest_one-Neutral :
          (dataset : String) (m : CampaignMemory) → Neutral (ingest_one (watched a) dataset m false)
      unfolding ingest_one watched
      ingest_one-Neutral dataset m =
          Neutral->>= _ _ (Neutral-watch (a.create_document dataset m.memory_id m.content false))
            (λ ids. Neutral->> _ _ (Neutral-watch (a.wait_for_indexing dataset ids.1 false)) (
              Neutral->>= _ _ (Neutral-watch (a.inspect_segments dataset ids.0 false)) (λ segments.
                Neutral->>= _ _ (λ xs s h. h)
                  (λ content. Neutral->> _ _ (λ xs s h. h) (Neutral-lift (ok ids.0))))))

      ingest-Neutral :
          (dataset : String) (ms : List CampaignMemory) (known : DocumentIds)
          → Neutral (ingest (watched a) dataset ms false known)
      unfolding ingest
      ingest-Neutral dataset [] known = Neutral-lift (ok known)
      ingest-Neutral dataset (m ∷ ms) known =
          Neutral->>= _ _ (ingest_one-Neutral dataset m)
            (λ id. ingest-Neutral dataset ms ((m.memory_id, id) ∷ known))

      observe_query-Neutral :
          (dataset query expected : String) (known : DocumentIds)
          → Neutral (observe_query (watched a) dataset query expected known false)
      unfolding observe_query watched
      observe_query-Neutral dataset query expected known =
          Neutral->>= _ _ (Neutral-watch (a.retrieve dataset query false))
            (λ result. Neutral->>= _ _ (λ xs s h. h) (λ document xs s h. h))

      observe-Neutral :
          (dataset condition : String) (budget : ℕ) (known : DocumentIds)
          → Neutral (observe (watched a) w o dataset condition budget known false)
      unfolding observe
      observe-Neutral dataset condition budget known =
          Neutral->>= _ _ (observe_query-Neutral dataset w.target_query o.target_memory_id known)
            (λ target.
              Neutral->>= _ _
                (observe_query-Neutral dataset w.non_target_query o.non_target_memory_id known)
                (λ other xs s h. h))

      run_checkpoints-Neutral :
          (dataset condition : String) (pool : List CampaignMemory) (known : DocumentIds)
          (previous : ℕ) (budgets : List ℕ)
          → Neutral
              (run_checkpoints (watched a) w o dataset condition pool false known previous budgets)
      unfolding run_checkpoints
      run_checkpoints-Neutral dataset condition pool known previous [] = λ xs s h. h
      run_checkpoints-Neutral dataset condition pool known previous (b ∷ bs) =
          Neutral->>= _ _ (ingest-Neutral dataset (take (b - previous) (drop previous pool)) known)
            (λ documents. Neutral->>= _ _ (observe-Neutral dataset condition b documents) (λ pair.
              Neutral->>= _ _ (run_checkpoints-Neutral dataset condition pool documents b bs)
                (λ rest. Neutral-lift (ok (pair ∷ rest)))))

      run_condition-Neutral :
          (condition : String) (pool : List CampaignMemory) (budgets : List ℕ) (dataset : String)
          → Neutral (run_condition (watched a) w o false condition pool budgets dataset)
      unfolding run_condition watched
      run_condition-Neutral condition pool budgets dataset =
          Neutral->>= _ _ (ingest-Neutral dataset w.source_memories []) (λ documents.
            Neutral->>= _ _ (run_checkpoints-Neutral dataset condition pool documents 0 budgets)
              (λ pairs.
                Neutral->> _ _ (Neutral-watch (a.inspect_knowledge_base dataset false))
                  (Neutral-lift (ok pairs))))

      run_conditions-Neutral :
          (conditions : List (String × List CampaignMemory × List ℕ))
          → Neutral (run_conditions (watched a) w o false conditions)
      unfolding run_conditions
      run_conditions-Neutral [] = λ xs s h. h
      run_conditions-Neutral ((condition, pool, budgets) ∷ later) =
          Neutral->>= _ _
            (with_knowledge_base-Neutral _
              (run_condition (watched a) w o false condition pool budgets)
              (run_condition-Neutral condition pool budgets))
            (λ pairs.
              Neutral->>= _ _ (run_conditions-Neutral later)
                (λ rest. Neutral-lift (ok (pairs ++ rest))))

      -- However the run of a world ends, and whatever the target answers: while the token is not
      -- cancelled, the deletion of each knowledge base that the world created has been asked for,
      -- and of no other, so that what was open before the run is open after it.
      pub run_world-Open : (s : Watched W) → Open s.1 (run_world (watched a) w o false s).1
      unfolding run_world
      run_world-Open s =
          Neutral->> _ _ (λ xs s h. h)
            (run_conditions-Neutral (
              ("baseline", [], 0 ∷ [])
              ∷ ("benign", w.benign_pool, five_budgets)
              ∷ ("targeted", w.targeted_pool, five_budgets)
              ∷ []))
            s.1 s refl
