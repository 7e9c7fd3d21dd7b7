-- ===== src/Examples/Execution.antt =====
-- A campaign of 330 small worlds.
use risi.Prelude.{ℕ, zero, suc, String, false, ◌≡◌, refl, ap, none, some, List, [], ◌∷◌}
use risi.Prelude.Failure.{Result, ok, err}
use risi.Prelude.Exec
use risi.Artifacts.{BundleVerification}
use risi.Campaign.{CampaignWorld}
use risi.Campaign.Guards.{CampaignInput}
use risi.Campaign.World.Cleanup.{watched}
use risi.Campaign.Execute.{Execution, execute, run_worlds}
use risi.Campaign.Execute.Completion.{IsCompleted, execute-IsCompleted}
use risi.Campaign.Execute.Cleanup.{OpenIn, execute-OpenIn}
use risi.Campaign.Guards.{guard_execution, require_authority}
use risi.Campaign.Authorization.{
  authorize_campaign, approval_reason_codes, is_expired, target_reasons, campaign_approval_reasons,
  is_for_purpose, validate_e1_geometry, differs_from,
}
use risi.External.{target_digest}
use risi.Canonical.Digest.{canonical_sha256}
use risi.Campaign.{campaign_digest, e1_campaign_geometry}
use risi.Campaign.Execute.{
  run_campaign, run_worlds, write_checkpoint, finalize, finalize_with, validated_observation_count,
  campaign_files,
}
use risi.Campaign.World.{
  run_world, run_conditions, with_knowledge_base, run_condition, run_checkpoints, ingest,
  ingest_one, observe, observe_query,
}
use risi.Artifacts.{
  create_evidence_bundle, prepare_bundle_material, validate_artifact_name, entry_of, json_bytes,
  json_lines_bytes, hash_entries, write_file,
}
use risi.Paths.{escapes, parts, split_slash}
use risi.Examples.Artifacts.{codec}
use risi.Examples.Campaign.{calendar, manifest, approval, target, echo, oracle, campaign_memory}

abbrev copies : {A : Type 0} → ℕ → A → List A
copies zero x = []
copies (suc n) x = x ∷ copies n x

abbrev small_world : CampaignWorld
small_world = record {
  world_id = "w1";
  source_memories = campaign_memory "m1" ∷ campaign_memory "m2" ∷ [];
  benign_pool = [];
  targeted_pool = [];
  target_query = "target";
  non_target_query = "other";
}

abbrev input : CampaignInput
input = record {
  calendar = calendar;
  codec = codec;
  today = 19;
  manifest = manifest;
  target = target;
  approval = some approval;
  worlds = copies 330 small_world;
  oracles = copies 330 oracle;
}

abbrev start : {W : Type 0} → W → Execution W
start w = record {
  target = w;
  observations = [];
  checkpoint = none;
  deviation = none;
  bundle = none;
}

execute-OpenIn_example :
    OpenIn
      ("other" ∷ [])
      (execute (watched echo) (λ s. 0) (λ n. false) input (start ("", "other" ∷ []))).1
execute-OpenIn_example =
    execute-OpenIn echo (λ s. 0) (λ n. false) input ("other" ∷ []) (start ("", "other" ∷ [])) refl

abbrev ended : Result BundleVerification × Execution String
ended = execute echo (λ s. 0) (λ n. false) input (start "")

abbrev value_of : Result BundleVerification → BundleVerification
value_of (ok v) = v
value_of (err e) = record {
  run_id = "";
  inventory_sha256 = "";
  bundle_hash = "";
  file_count = 0;
  total_bytes = 0;
  entries = [];
}

campaign_returns : ended.0 ≡ ok (value_of ended.0)
unfolding execute Exec.◌>>◌ Exec.try_finally guard_execution require_authority authorize_campaign
    approval_reason_codes is_expired target_reasons campaign_approval_reasons is_for_purpose
    validate_e1_geometry differs_from target_digest canonical_sha256 campaign_digest
    e1_campaign_geometry run_campaign run_worlds write_checkpoint finalize finalize_with
    validated_observation_count campaign_files run_world run_conditions with_knowledge_base
    run_condition run_checkpoints ingest ingest_one observe observe_query create_evidence_bundle
    prepare_bundle_material validate_artifact_name entry_of json_bytes json_lines_bytes hash_entries
    write_file escapes parts split_slash
campaign_returns = refl

execute-IsCompleted_example : IsCompleted echo (λ s. 0) (λ n. false) input (start "") ended.1
execute-IsCompleted_example =
    execute-IsCompleted echo (λ s. 0) (λ n. false) input (start "") ended.1 (value_of ended.0)
      (ap (λ r. (r, ended.1)) campaign_returns)
