-- ===== src/Campaign/Execute/Completion.antt =====
-- What a campaign that returns has done (`CampaignExecutor.execute` of src/risi/campaign.py).
use risi.Prelude.{
  subst, ℕ, suc, false, ◌+◌, ◌*◌, ◌≡◌, refl, ap, String, Bool, Option, none, some, List, [], ◌∷◌,
  ◌++◌, length, length-append, arith,
}
use risi.Prelude.Failure.{Error, Result, ok, err, operator_input}
use risi.Prelude.Exec.{>>=-returns, >>-returns}
use risi.Canonical.{Json}
use risi.External.{ExternalKnowledgeAdapter}
use risi.Campaign.{CampaignWorld, EvaluatorOracle, CampaignPhase, CampaignCheckpoint, Deviation}
use risi.Artifacts.{BundleVerification}
use risi.Campaign.Guards.{CampaignInput, checkpoint_of, guard_execution}
use risi.Campaign.World.Shape.{length-run_world}
use risi.Campaign.Execute.{
  Execution, run_worlds, write_checkpoint, finalize, finalize_with, run_campaign, execute, handle,
  record_deviation, deviation_of, caught, validated_observation_count, guarded,
}

-- Eleven observations for each world were added, and no deviation was written.
pub record HasRun {W : Type 0} (worlds : ℕ) (before after : Execution W) : Type 0 where
  pub added : length after.observations ≡ length before.observations + 11 * worlds
  pub undeviated : after.deviation ≡ before.deviation

count_world :
    (before pairs : List (Json × Json)) (worlds after : ℕ)
    → length pairs ≡ 11
    → after ≡ length (before ++ pairs) + 11 * worlds
    → after ≡ length before + 11 * suc worlds
count_world before pairs worlds after eleven h = omega (arith, length-append before pairs)

module _ {W : Type 0} (adapter : ExternalKnowledgeAdapter W) (request_count : W → ℕ)
    (cancel_seen : ℕ → Bool) (i : CampaignInput) where
  run_worlds-HasRun :
      (n : ℕ) (ws : List CampaignWorld) (os : List EvaluatorOracle) (s t : Execution W)
      → run_worlds adapter request_count cancel_seen i n ws os s ≡ (ok tt, t)
      → HasRun (length ws) s t
  unfolding run_worlds write_checkpoint
  run_worlds-HasRun n [] [] s t h =
      subst (HasRun 0 s) (ap (λ r. r.1) h) (record { added = omega arith; undeviated = refl })
  run_worlds-HasRun n [] (o ∷ os) s t h = cc
  run_worlds-HasRun n (w ∷ ws) [] s t h = cc
  run_worlds-HasRun n (w ∷ ws) (o ∷ os) s t h =
      let (u, r1, h1) = >>-returns _ _ s t tt h in
      let (u2, r2, h2) = >>-returns _ _ s t tt h1 in
      let (pairs, r3, h3) = >>=-returns _ _ _ t tt h2 in
      let (u4, r4, h4) = >>-returns _ _ _ t tt h3 in
      let later = run_worlds-HasRun (suc n) ws os _ t h4 in
      record {
        added =
            count_world s.observations pairs (length ws) (length t.observations)
              (length-run_world adapter w o false s.target pairs r3) later.added;
        undeviated = later.undeviated;
      }

  -- The last checkpoint says that the campaign is complete, with the observations of the manifest.
  pub record IsCompleted (s t : Execution W) : Type 0 where
    pub last : CampaignCheckpoint
    pub written : t.checkpoint ≡ some last
    pub phase : last.phase ≡ CampaignPhase.completed
    pub worlds : last.next_world_index ≡ length i.worlds
    pub observations : last.observation_count ≡ i.manifest.total_observations
    pub run : HasRun (length i.worlds) s t

  validated_lem :
      (pairs : List (Json × Json)) (count : ℕ)
      → validated_observation_count pairs i.manifest ≡ ok count
      → length pairs * 2 ≡ i.manifest.total_observations
  unfolding validated_observation_count
  validated_lem pairs count h = ground arith

  finalize-IsCompleted :
      (s m t : Execution W) (v : BundleVerification)
      → HasRun (length i.worlds) s m
      → finalize adapter request_count cancel_seen i m ≡ (ok v, t)
      → IsCompleted s t
  unfolding finalize finalize_with write_checkpoint checkpoint_of
  finalize-IsCompleted s m t v run h =
      let (count, r1, h1) = >>=-returns _ _ m t v h in
      let (created, r2, h2) = >>=-returns _ _ m t v h1 in
      let (u3, r3, h3) = >>-returns _ _ m t v h2 in
      let (u4, r4, h4) = >>-returns _ _ _ t v h3 in
      subst (IsCompleted s) (ap (λ r. r.1) h4) (record {
        last = _;
        written = refl;
        phase = refl;
        worlds = refl;
        observations = validated_lem m.observations count r1;
        run = record { added = run.added; undeviated = run.undeviated };
      })

  campaign-IsCompleted :
      (s t : Execution W) (v : BundleVerification)
      → run_campaign adapter request_count cancel_seen i s ≡ (ok v, t)
      → IsCompleted s t
  unfolding run_campaign
  campaign-IsCompleted s t v h =
      let (u, r, h1) = >>-returns _ _ s t v h in
      finalize-IsCompleted s _ t v
        (run_worlds-HasRun 0 i.worlds i.oracles s _ (
          ap (λ x. (x, (run_worlds adapter request_count cancel_seen i 0 i.worlds i.oracles s).1))
            r))
        h1

  recorded_not_ok :
      (error : Error) (found : Option (CampaignPhase × String × String)) (m t : Execution W)
      (v : BundleVerification)
      → record_deviation adapter request_count cancel_seen i error found m ≡ (ok v, t)
      → ⊥
  unfolding record_deviation
  recorded_not_ok error none m t v h = cc
  recorded_not_ok error (some found) m t v h = with_deviation m.deviation h
    where
      with_deviation :
          (d : Option Deviation)
          → elim d as (λ x. Result BundleVerification × Execution W) [
            | some earlier ↦ (err (operator_input "retained path already exists"), m)
            | none ↦ (
              err error,
              record m {
                deviation =
                    some
                      (deviation_of adapter request_count cancel_seen i found.0 found.1 found.2 m);
              },
            )
          ]
            ≡ (ok v, t)
          → ⊥
      with_deviation none h = cc
      with_deviation (some d) h = cc

  abbrev ended : Result BundleVerification → Execution W → Result BundleVerification × Execution W
  ended r m = (r, m)

  handle-ok :
      (r : Result BundleVerification) (m t : Execution W) (v : BundleVerification)
      → handle adapter request_count cancel_seen i (r, m) ≡ (ok v, t)
      → ended r m ≡ ended (ok v) t
  handle-ok (ok w) m t v h = h
  handle-ok (err error) m t v h = elim (recorded_not_ok error (caught error) m t v h) [ ]

  guarded-IsCompleted :
      (g : Result (Unit {0})) (s t : Execution W) (v : BundleVerification)
      → guarded adapter request_count cancel_seen i g s ≡ (ok v, t)
      → IsCompleted s t
  guarded-IsCompleted (ok done) s t v h =
      let (r, m) = run_campaign adapter request_count cancel_seen i s in
      campaign-IsCompleted s t v (handle-ok r m t v h)
  guarded-IsCompleted (err error) s t v h = cc

  -- If a campaign returns, whatever the target answered: its last checkpoint is a completed one that
  -- counts all its worlds and the observations of its manifest, eleven observations were added for
  -- each world, and no deviation was written.
  pub execute-IsCompleted :
      (s t : Execution W) (v : BundleVerification)
      → execute adapter request_count cancel_seen i s ≡ (ok v, t)
      → IsCompleted s t
  unfolding execute
  execute-IsCompleted s t v h = guarded-IsCompleted (guard_execution i) s t v h
