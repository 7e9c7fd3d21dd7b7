-- ===== src/Campaign/Execute/Cleanup.antt =====
-- The knowledge bases that a campaign leaves on the target (`CampaignExecutor.execute` of
-- src/risi/campaign.py).
use risi.Prelude.{ℕ, suc, ◌≡◌, ◌∙◌, String, Bool, Option, none, some, List, [], ◌∷◌}
use risi.Prelude.Failure.{Error, Result, ok, err, operator_input}
use risi.Prelude.Exec.{Keeps, Keeps->>=, Keeps->>}
use risi.External.{ExternalKnowledgeAdapter}
use risi.Artifacts.{BundleVerification}
use risi.Campaign.{CampaignWorld, EvaluatorOracle, CampaignPhase}
use risi.Campaign.Guards.{CampaignInput, guard_execution}
use risi.Campaign.World.Cleanup.{Watched, watched, run_world-Open}
use risi.Campaign.Execute.{
  Execution, run_worlds, write_checkpoint, finalize, finalize_with, run_campaign, execute, handle,
  guarded, record_deviation, deviation_of, caught,
}

-- The open knowledge bases of the target are these.
abbrev pub OpenIn : {W : Type 0} → List String → Execution (Watched W) → Type 0
OpenIn xs s = s.target.1 ≡ xs

module _ {W : Type 0} (a : ExternalKnowledgeAdapter W) (request_count : Watched W → ℕ)
    (cancel_seen : ℕ → Bool) (i : CampaignInput) (xs : List String) where
  run_worlds-OpenIn :
      (n : ℕ) (ws : List CampaignWorld) (os : List EvaluatorOracle)
      → Keeps (OpenIn {W = W} xs) (run_worlds (watched a) request_count cancel_seen i n ws os)
  unfolding run_worlds write_checkpoint
  run_worlds-OpenIn n [] [] = λ s h. h
  run_worlds-OpenIn n [] (o ∷ os) = λ s h. h
  run_worlds-OpenIn n (w ∷ ws) [] = λ s h. h
  run_worlds-OpenIn n (w ∷ ws) (o ∷ os) =
      Keeps->> (OpenIn xs) _ _ (λ s h. h)
        (Keeps->> (OpenIn xs) _ _ (λ s h. h)
          (Keeps->>= (OpenIn xs) _ _ (λ s h. run_world-Open a w o s.target ∙ h)
            (λ pairs. Keeps->> (OpenIn xs) _ _ (λ s h. h) (run_worlds-OpenIn (suc n) ws os))))

  finalize-OpenIn : Keeps (OpenIn {W = W} xs) (finalize (watched a) request_count cancel_seen i)
  unfolding finalize finalize_with write_checkpoint
  finalize-OpenIn s =
      Keeps->>= (OpenIn xs) _ _ (λ s h. h)
        (λ count.
          Keeps->>= (OpenIn xs) _ _ (λ s h. h)
            (λ created.
              Keeps->> (OpenIn xs) _ _ (λ s h. h) (Keeps->> (OpenIn xs) _ _ (λ s h. h) (λ s h. h))))
        s

  run_campaign-OpenIn :
      Keeps (OpenIn {W = W} xs) (run_campaign (watched a) request_count cancel_seen i)
  unfolding run_campaign
  run_campaign-OpenIn =
      Keeps->> (OpenIn xs) _ _ (run_worlds-OpenIn 0 i.worlds i.oracles) finalize-OpenIn

  deviation-OpenIn :
      (error : Error) (found : Option (CampaignPhase × String × String))
      → Keeps
          (OpenIn {W = W} xs)
          (record_deviation (watched a) request_count cancel_seen i error found)
  unfolding record_deviation
  deviation-OpenIn error none s h = h
  deviation-OpenIn error (some found) s h =
      elim s.deviation
        as (λ d.
          (elim d as (λ x. Result BundleVerification × Execution (Watched W)) [
            | some earlier ↦ (err (operator_input "retained path already exists"), s)
            | none ↦ (
              err error,
              record s {
                deviation = some (
                    deviation_of (watched a) request_count cancel_seen i found.0 found.1 found.2 s);
              },
            )
          ]).1.target.1
          ≡ xs) [ some earlier ↦ h | none ↦ h ]

  handle-OpenIn :
      (r : Result BundleVerification) (s : Execution (Watched W))
      → OpenIn xs s
      → OpenIn xs (handle (watched a) request_count cancel_seen i (r, s)).1
  handle-OpenIn (ok v) s h = h
  handle-OpenIn (err error) s h = deviation-OpenIn error (caught error) s h

  guarded-OpenIn :
      (g : Result (Unit {0}))
      → Keeps (OpenIn {W = W} xs) (guarded (watched a) request_count cancel_seen i g)
  guarded-OpenIn (ok done) s h =
      let (r, m) = run_campaign (watched a) request_count cancel_seen i s in
      handle-OpenIn r m (run_campaign-OpenIn s h)
  guarded-OpenIn (err error) s h = h

  -- However a campaign ends, by returning, by an exception or by a cancellation between two worlds,
  -- and whatever the target answers: the deletion of each knowledge base that it created has been
  -- asked for, and of no other, so that what was open before the campaign is open after it.
  pub execute-OpenIn :
      (s : Execution (Watched W))
      → OpenIn xs s
      → OpenIn xs (execute (watched a) request_count cancel_seen i s).1
  unfolding execute
  execute-OpenIn s h = guarded-OpenIn (guard_execution i) s h
