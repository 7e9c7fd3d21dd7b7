-- ===== src/Examples/Preflight.antt =====
-- A preflight of a campaign that passes.
use risi.Prelude.{String, true, ◌≡◌, refl, some, [], ◌∷◌}
use risi.Prelude.Failure.{Result, ok}
use risi.Prelude.Exec
use risi.Canonical.{Json, Fields, entries, nat}
use risi.Canonical.Digest.{canonical_sha256}
use risi.External.{target_digest}
use risi.Campaign.{PreflightResult, campaign_digest, e1_campaign_geometry}
use risi.Campaign.Authorization.{
  authorize_campaign, approval_reason_codes, is_expired, target_reasons, campaign_approval_reasons,
  is_for_purpose,
}
use risi.Campaign.Preflight.{
  campaign_preflight, run_checks, validate_target, initial_checks, has_passed, preflight_result,
}
use risi.Campaign.Preflight.Authority.{HasAuthority, campaign_preflight-HasAuthority}
use risi.Confidentiality.Differences.{same_leaf}
use risi.Examples.{digest, hasher}
use risi.Examples.Campaign.{calendar, manifest, approval, target, echo}

abbrev outcome : Result PreflightResult × String
outcome =
    campaign_preflight echo (λ a s. (ok Fields.end, s)) hasher calendar 19 manifest target
      (some approval) 1 ""

abbrev passed_preflight : PreflightResult
passed_preflight = record {
  schema_version = 1;
  campaign_id = "e1";
  target_manifest_sha256 = digest;
  campaign_manifest_sha256 = digest;
  input_inventory_sha256 = digest;
  passed = true;
  checks = entries (
      ("authorization", Json.bool true)
      ∷ ("geometry", Json.bool true)
      ∷ ("target_profile", Json.bool true)
      ∷ ("automatic_retry_count", nat 0)
      ∷ ("request_timeout_seconds", nat 10)
      ∷ ("validation_geometry", Json.bool true)
      ∷ ("target_health", Json.bool true)
      ∷ ("validation_passed", Json.bool true)
      ∷ []);
  attempt = 1;
}

abbrev ended : Result PreflightResult × String
ended = (ok passed_preflight, "")

preflight_returns : outcome ≡ ended
unfolding campaign_preflight Exec.◌>>◌ authorize_campaign approval_reason_codes is_expired
    target_reasons campaign_approval_reasons is_for_purpose target_digest campaign_digest
    canonical_sha256 e1_campaign_geometry run_checks validate_target initial_checks has_passed
    preflight_result same_leaf
preflight_returns = refl

campaign_preflight-HasAuthority_example :
    HasAuthority hasher calendar 19 manifest target (some approval) 1
campaign_preflight-HasAuthority_example =
    campaign_preflight-HasAuthority echo (λ a s. (ok Fields.end, s)) hasher calendar 19 manifest
      target (some approval) 1 "" "" passed_preflight preflight_returns refl
