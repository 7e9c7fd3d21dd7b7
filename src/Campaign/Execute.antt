-- ===== src/Campaign/Execute.antt =====
-- `prepare_campaign` and `CampaignExecutor.execute` of src/risi/campaign.py. The files of a campaign are
-- fields of the state: the checkpoint, the deviation and the evidence bundle. Whether the cancellation
-- file is there when a world is about to start is a function of the world's index, since the operator
-- may write it at any time.
pub mod Completion
pub mod Cleanup
use Prim.Native.String
use risi.Prelude.{
  ℕ, zero, suc, ◌*◌, eqb, String, Bool, true, false, not, ◌||◌, Option, none, some, List, [], ◌∷◌,
  ◌++◌, ◌==◌, length, map, is_none, if◌then◌else◌,
}
use risi.Prelude.Failure.{
  Error, Result, ok, err, operator_input, permission_error, transport_error, value_error, raise_if,
}
use risi.Prelude.Exec.{Exec, pure, raise, lift, ◌>>=◌, ◌>>◌}
use risi.Canonical.{Json, Fields, obj, str, entries, nat}
use risi.Canonical.Digest.{Hasher}
use risi.Operator.Safety.{AuthorizationDecision}
use risi.External.{ExternalKnowledgeAdapter, ExternalTargetManifest, target_digest}
use risi.Artifacts.{
  Codec, Tree, Files, BundleVerification, json_bytes, json_lines_bytes, create_evidence_bundle,
}
use risi.Campaign.{
  Calendar, CampaignManifest, CampaignApproval, CampaignWorld, EvaluatorOracle, CampaignCheckpoint,
  CampaignPhase, Deviation, phase_value, campaign_digest, campaign_json,
}
use risi.Campaign.Authorization.{authorize_campaign, validate_e1_geometry}
use risi.Campaign.Guards.{CampaignInput, guard_execution, guard_preparation, checkpoint_of}
use risi.Campaign.World.{run_world}

-- The target, the observations and evaluations so far, and the files of the campaign.
pub record Execution (W : Type 0) : Type 0 where
  pub target : W
  pub observations : List (Json × Json)
  pub checkpoint : Option CampaignCheckpoint
  pub deviation : Option Deviation
  pub bundle : Option Tree

abbrev pub observations_of : List (Json × Json) → List Json
observations_of pairs = map (λ p. p.0) pairs

abbrev pub evaluations_of : List (Json × Json) → List Json
evaluations_of pairs = map (λ p. p.1) pairs

-- `_validated_observation_count`
unfoldable pub validated_observation_count : List (Json × Json) → CampaignManifest → Result ℕ
validated_observation_count pairs m =
    if eqb (length pairs * 2) m.total_observations
    then ok (length pairs * 2)
    else err (operator_input "completed observation count differs from the manifest")

-- `files`
unfoldable pub campaign_files : CampaignInput → List (Json × Json) → ℕ → ℕ → Files
campaign_files i pairs count requests =
    ("campaign-manifest.json", json_bytes i.codec (campaign_json i.manifest))
    ∷ (
      "target-manifest-digest.json",
      json_bytes i.codec (
          obj (
            entries
              (("target_manifest_sha256", str (target_digest i.codec.hasher i.target)) ∷ []))),
    )
    ∷ ("observations.jsonl", json_lines_bytes i.codec (observations_of pairs))
    ∷ ("evaluator-assessments.jsonl", json_lines_bytes i.codec (evaluations_of pairs))
    ∷ (
      "result.json",
      json_bytes i.codec (
          obj (
            entries (
              ("schema_version", nat 1)
              ∷ ("campaign_id", str i.manifest.campaign_id)
              ∷ ("status", str "completed")
              ∷ ("world_count", nat (length i.worlds))
              ∷ ("observation_count", nat count)
              ∷ ("request_count", nat requests)
              ∷ []))),
    )
    ∷ []

-- The phase, the code and the message that a caught exception leaves in the deviation; the other
-- exceptions are not caught.
unfoldable pub caught : Error → Option (CampaignPhase × String × String)
caught (transport_error code message) =
    some
      (if code == "cancelled" then CampaignPhase.cancelled else CampaignPhase.failed, code, message)
caught (operator_input message) = some (CampaignPhase.failed, "campaign_failed", message)
caught (permission_error message) = some (CampaignPhase.failed, "campaign_failed", message)
caught error = none

module _ {W : Type 0} (adapter : ExternalKnowledgeAdapter W) (request_count : W → ℕ)
    (cancel_seen : ℕ → Bool) (i : CampaignInput) where
  -- A statement on the target.
  abbrev pub on_target : {A : Type 0} → Exec W A → Exec (Execution W) A
  on_target m s = let (r, w) = m s.target in (r, record s { target = w })

  unfoldable pub write_checkpoint : CampaignPhase → ℕ → Exec (Execution W) (Unit {0})
  write_checkpoint phase next s = (
    ok tt,
    record s {
      checkpoint =
          some (checkpoint_of i phase next (length s.observations * 2) (request_count s.target));
    },
  )

  abbrev pub extend_observations : List (Json × Json) → Exec (Execution W) (Unit {0})
  extend_observations pairs s = (ok tt, record s { observations = s.observations ++ pairs })

  -- `if cancellation_path.exists(): token.cancel(); token.raise_if_cancelled()`
  abbrev pub cancel_check : ℕ → Result (Unit {0})
  cancel_check index =
      raise_if (cancel_seen index) (transport_error "cancelled" "request cancelled before dispatch")

  -- The loop over `zip(worlds, oracles, strict=True)`.
  unfoldable pub run_worlds :
      ℕ → List CampaignWorld → List EvaluatorOracle → Exec (Execution W) (Unit {0})
  run_worlds index (w ∷ ws) (o ∷ os) = do
    lift (cancel_check index)
    write_checkpoint CampaignPhase.running index
    pairs ← on_target (run_world adapter w o false)
    extend_observations pairs
    run_worlds (suc index) ws os
  run_worlds index [] [] = pure tt
  run_worlds index [] (o ∷ os) = raise (value_error "zip() arguments have different lengths")
  run_worlds index (w ∷ ws) [] = raise (value_error "zip() arguments have different lengths")

  abbrev pub store_bundle : Tree → Exec (Execution W) (Unit {0})
  store_bundle tree s = (ok tt, record s { bundle = some tree })

  -- From the complete observations to the bundle and the last checkpoint.
  unfoldable pub finalize_with :
      List (Json × Json) → ℕ → Bool → Exec (Execution W) BundleVerification
  finalize_with pairs requests exists = do
    count ← lift (validated_observation_count pairs i.manifest)
    created ← lift (
        create_evidence_bundle i.codec exists i.manifest.campaign_id
          (campaign_files i pairs count requests) 2000000000)
    store_bundle created.1
    write_checkpoint CampaignPhase.completed (length i.worlds)
    pure created.0

  unfoldable pub finalize : Exec (Execution W) BundleVerification
  finalize s = finalize_with s.observations (request_count s.target) (not (is_none s.bundle)) s

  -- The `try` block.
  unfoldable pub run_campaign : Exec (Execution W) BundleVerification
  run_campaign = do run_worlds 0 i.worlds i.oracles; finalize

  unfoldable pub deviation_of : CampaignPhase → String → String → Execution W → Deviation
  deviation_of phase code message s = record {
    schema_version = 1;
    campaign_id = i.manifest.campaign_id;
    phase = phase_value phase;
    code = code;
    message = message;
    request_count = request_count s.target;
    observation_count = length s.observations * 2;
  }

  -- The `except` block: the deviation is written, unless one is there, and the exception goes on.
  unfoldable pub record_deviation :
      Error → Option (CampaignPhase × String × String) → Exec (Execution W) BundleVerification
  record_deviation error none s = (err error, s)
  record_deviation error (some (phase, code, message)) s = elim s.deviation [
    | some earlier ↦ (err (operator_input "retained path already exists"), s)
    | none ↦ (err error, record s { deviation = some (deviation_of phase code message s) })
  ]

  abbrev pub handle :
      Result BundleVerification × Execution W → Result BundleVerification × Execution W
  handle (ok v, s) = (ok v, s)
  handle (err error, s) = record_deviation error (caught error) s

  abbrev pub guarded : Result (Unit {0}) → Exec (Execution W) BundleVerification
  guarded (ok done) s = handle (run_campaign s)
  guarded (err error) s = (err error, s)

  unfoldable pub execute : Exec (Execution W) BundleVerification
  execute s = guarded (guard_execution i) s

  -- `prepare_campaign`: the first checkpoint, unless one is retained.
  abbrev prepare_checked :
      Result (Unit {0}) → Option CampaignCheckpoint → Exec (Execution W) CampaignCheckpoint
  prepare_checked (err error) retained s = (err error, s)
  prepare_checked (ok done) (some earlier) s =
      (err (operator_input "retained path already exists"), s)
  prepare_checked (ok done) none s =
      let c = checkpoint_of i CampaignPhase.prepared 0 0 0 in
      (ok c, record s { checkpoint = some c })

  unfoldable pub prepare_campaign : Exec (Execution W) CampaignCheckpoint
  prepare_campaign s = prepare_checked (guard_preparation i) s.checkpoint s
