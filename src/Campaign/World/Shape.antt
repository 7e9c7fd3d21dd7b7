-- ===== src/Campaign/World/Shape.antt =====
-- How many observations a world yields (`_run_world` of src/risi/campaign.py).
use risi.Prelude.{
  ℕ, ◌+◌, suc, ◌≡◌, refl, ap, ap₂, String, Bool, List, [], ◌∷◌, ◌++◌, length, length-append, ◌∙◌,
  take, drop, ◌-◌,
}
use risi.Prelude.Failure.{ok}
use risi.Prelude.Exec.{
  Exec, pure, Ensures, Ensures->>=, Ensures-then, Ensures->>, Ensures-try_finally,
}
use risi.Canonical.{Json}
use risi.External.{ExternalKnowledgeAdapter}
use risi.Campaign.{CampaignMemory, CampaignWorld, EvaluatorOracle}
use risi.Campaign.World.{
  DocumentIds, ingest, observe, run_checkpoints, delete_unless, with_knowledge_base, run_condition,
  run_conditions, run_world, five_budgets,
}

-- A list of that length.
abbrev HasLength : ℕ → List (Json × Json) → Type 0
HasLength n xs = length xs ≡ n

module _ {W : Type 0} (adapter : ExternalKnowledgeAdapter W) (w : CampaignWorld)
    (o : EvaluatorOracle) (cancelled : Bool) where
  pure-length :
      (n : ℕ) (xs : List (Json × Json)) → length xs ≡ n → Ensures {W = W} (HasLength n) (pure xs)
  pure-length n xs h s x e = cc

  run_checkpoints-length :
      (dataset condition : String) (pool : List CampaignMemory) (known : DocumentIds) (previous : ℕ)
      (budgets : List ℕ)
      → Ensures
          (HasLength (length budgets))
          (run_checkpoints adapter w o dataset condition pool cancelled known previous budgets)
  unfolding run_checkpoints
  run_checkpoints-length dataset condition pool known previous [] = pure-length 0 [] refl
  run_checkpoints-length dataset condition pool known previous (b ∷ bs) =
      Ensures-then (HasLength (suc (length bs)))
        (ingest adapter dataset (take (b - previous) (drop previous pool)) cancelled known) _
        (λ documents.
          Ensures-then (HasLength (suc (length bs)))
            (observe adapter w o dataset condition b documents cancelled) _
            (λ pair.
              Ensures->>= (HasLength (suc (length bs))) (HasLength (length bs))
                (run_checkpoints adapter w o dataset condition pool cancelled documents b bs) _
                (run_checkpoints-length dataset condition pool documents b bs)
                (λ rest e. pure-length (suc (length bs)) (pair ∷ rest) (ap suc e))))

  with_knowledge_base_lem :
      {A : Type 0} (Q : A → Type 0) (name : String) (body : String → Exec W A)
      → ((dataset : String) → Ensures Q (body dataset))
      → Ensures Q (with_knowledge_base adapter name cancelled body)
  unfolding with_knowledge_base
  with_knowledge_base_lem Q name body k =
      Ensures-then Q (adapter.create_knowledge_base name cancelled) _ (λ dataset.
        Ensures-try_finally Q (body dataset) (delete_unless adapter cancelled dataset) (k dataset))

  run_condition-length :
      (condition : String) (pool : List CampaignMemory) (budgets : List ℕ) (dataset : String)
      → Ensures
          (HasLength (length budgets))
          (run_condition adapter w o cancelled condition pool budgets dataset)
  unfolding run_condition
  run_condition-length condition pool budgets dataset =
      Ensures-then (HasLength (length budgets))
        (ingest adapter dataset w.source_memories cancelled []) _
        (λ documents.
          Ensures->>= (HasLength (length budgets)) (HasLength (length budgets))
            (run_checkpoints adapter w o dataset condition pool cancelled documents 0 budgets) _
            (run_checkpoints-length dataset condition pool documents 0 budgets)
            (λ pairs e.
              Ensures->> (HasLength (length budgets))
                (adapter.inspect_knowledge_base dataset cancelled) (pure pairs)
                (pure-length (length budgets) pairs e)))

  -- The number of checkpoints of all the conditions.
  abbrev checkpoint_count : List (String × List CampaignMemory × List ℕ) → ℕ
  checkpoint_count [] = 0
  checkpoint_count ((condition, pool, budgets) ∷ later) = length budgets + checkpoint_count later

  run_conditions-length :
      (conditions : List (String × List CampaignMemory × List ℕ))
      → Ensures
          (HasLength (checkpoint_count conditions))
          (run_conditions adapter w o cancelled conditions)
  unfolding run_conditions
  run_conditions-length [] = pure-length 0 [] refl
  run_conditions-length ((condition, pool, budgets) ∷ later) =
      Ensures->>= (HasLength (length budgets + checkpoint_count later)) (HasLength (length budgets))
        _ _
        (with_knowledge_base_lem (HasLength (length budgets)) _
          (run_condition adapter w o cancelled condition pool budgets)
          (run_condition-length condition pool budgets))
        (λ pairs e.
          Ensures->>= (HasLength (length budgets + checkpoint_count later))
            (HasLength (checkpoint_count later)) (run_conditions adapter w o cancelled later) _
            (run_conditions-length later)
            (λ rest f.
              pure-length (length budgets + checkpoint_count later) (pairs ++ rest)
                (length-append pairs rest ∙ ap₂ ◌+◌ e f)))

  -- Whatever the target answers: a world that returns yields eleven observations, one for the
  -- baseline and five for each of the two pools.
  pub length-run_world :
      (s : W) (pairs : List (Json × Json))
      → (run_world adapter w o cancelled s).0 ≡ ok pairs
      → length pairs ≡ 11
  unfolding run_world
  length-run_world = Ensures->> (HasLength 11) _ _ (
      run_conditions-length (
        ("baseline", [], 0 ∷ [])
        ∷ ("benign", w.benign_pool, five_budgets)
        ∷ ("targeted", w.targeted_pool, five_budgets)
        ∷ []))
