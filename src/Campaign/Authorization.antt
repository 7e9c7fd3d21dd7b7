-- ===== src/Campaign/Authorization.antt =====
-- `authorize_campaign` and `validate_e1_geometry` of src/risi/campaign.py. The date is the caller's
-- `on_date`, or today's date of the clock.
use risi.Prelude.{
  ℕ, eqb, ltb, String, Bool, true, false, not, ◌&&◌, ◌||◌, Option, none, some, List, [], ◌∷◌, ◌==◌,
  filter, if◌then◌else◌,
}
use risi.Prelude.Failure.{Result, ok, err, operator_input, value_error, ◌>>=◌, raise_if}
use risi.Prelude.Text.{codes}
use risi.Canonical.Digest.{Hasher}
use risi.Operator.Models.{
  Capability, target_connect, secret_read, knowledge_base_create, knowledge_base_inspect,
  knowledge_base_delete, document_create, document_inspect, document_delete, retrieval_execute,
  health_read, artifact_write, evidence_verify,
}
use risi.Operator.Safety.{
  AuthorizationDecision, has, subset, reason_if, no_reasons, sort_capabilities,
}
use risi.External.{ExternalTargetManifest, target_digest}
use risi.Confidentiality.{is_prefix}
use risi.Campaign.{
  Calendar, CampaignManifest, CampaignApproval, CampaignPurpose, CampaignGeometry, campaign_digest,
  e1_campaign_geometry,
}

-- `ISOLATED_DIFY_CAPABILITIES`
abbrev pub campaign_capabilities : List Capability
campaign_capabilities =
    target_connect ∷ secret_read ∷ knowledge_base_create ∷ knowledge_base_inspect
    ∷ knowledge_base_delete ∷ document_create ∷ document_inspect ∷ document_delete
    ∷ retrieval_execute ∷ health_read ∷ artifact_write ∷ evidence_verify ∷ []

-- `date.fromisoformat`
abbrev pub day : Calendar → String → Result ℕ
day cal s = elim (cal.from_iso s) [
  | none ↦ err (value_error "Invalid isoformat string")
  | some d ↦ ok d
]

-- `current_date > a or current_date > b`
abbrev pub expired_unless : Bool → Result ℕ → ℕ → Result Bool
expired_unless true later today = ok true
expired_unless false later today = do d ← later; ok (ltb d today)

unfoldable pub is_expired : Calendar → ℕ → String → String → Result Bool
is_expired cal today approval manifest = do
  d ← day cal approval
  expired_unless (ltb d today) (day cal manifest) today

abbrev pub is_e2 : CampaignPurpose → Bool
is_e2 CampaignPurpose.e2_validation = true
is_e2 CampaignPurpose.e3_campaign = false

-- `decision_id.startswith("E2-")`, and with "E3-".
abbrev pub starts_with : String → String → Bool
starts_with s prefix = is_prefix (codes prefix) (codes s)

-- The approval has the purpose that the manifest needs.
unfoldable pub is_for_purpose : CampaignManifest → CampaignApproval → Bool
is_for_purpose m a =
    if m.validation_only
    then is_e2 a.purpose && starts_with a.decision_id "E2-"
    else not (is_e2 a.purpose) && starts_with a.decision_id "E3-"

abbrev pub purpose_reason : CampaignManifest → String
purpose_reason m =
    if m.validation_only then "e2_validation_approval_required" else "e3_approval_required"

unfoldable pub campaign_approval_reasons :
    Hasher → CampaignManifest → ExternalTargetManifest → CampaignApproval → Bool → List String
campaign_approval_reasons h m t a expired =
    reason_if (not (a.campaign_manifest_sha256 == campaign_digest h m)) "approval_manifest_mismatch"
      (reason_if (not (a.target_manifest_sha256 == target_digest h t)) "approval_target_mismatch" (
        reason_if (not (a.input_inventory_sha256 == m.input_inventory_sha256))
          "approval_input_mismatch"
          (reason_if
            (not (
              subset a.capabilities campaign_capabilities
              && subset campaign_capabilities a.capabilities))
            "approval_scope_mismatch"
            (reason_if expired "approval_expired"
              (reason_if (not (is_for_purpose m a)) (purpose_reason m) [])))))

-- `_approval_reason_codes`
unfoldable pub approval_reason_codes :
    Hasher
    → Calendar
    → ℕ
    → CampaignManifest
    → ExternalTargetManifest
    → CampaignApproval
    → Result (List String)
approval_reason_codes h cal today m t a = do
  expired ← is_expired cal today a.expires_on m.expires_on
  ok (campaign_approval_reasons h m t a expired)

unfoldable pub target_reasons :
    Hasher → CampaignManifest → ExternalTargetManifest → List String → List String
target_reasons h m t rest =
    reason_if (not (target_digest h t == m.target_manifest_sha256)) "target_manifest_mismatch" rest

abbrev decide : List String → List Capability → AuthorizationDecision
decide reasons granted = record {
  allowed = no_reasons reasons;
  reason_codes = reasons;
  granted_capabilities = granted;
}

unfoldable pub authorize_campaign :
    Hasher
    → Calendar
    → ℕ
    → CampaignManifest
    → ExternalTargetManifest
    → Option CampaignApproval
    → Result AuthorizationDecision
authorize_campaign h cal today m t none =
    ok (decide (target_reasons h m t ("approval_missing" ∷ [])) [])
authorize_campaign h cal today m t (some a) = do
  reasons ← approval_reason_codes h cal today m t a
  ok (
      decide (target_reasons h m t reasons)
        (sort_capabilities (filter (has a.capabilities) campaign_capabilities)))

unfoldable pub differs_from : CampaignManifest → CampaignGeometry → Bool
differs_from m g =
    not (eqb m.world_count g.world_count)
    || not (eqb m.observations_per_world g.observations_per_world)
    || not (eqb m.total_observations g.total_observations)

unfoldable pub validate_e1_geometry : CampaignManifest → Result (Unit {0})
validate_e1_geometry m = do
  g ← e1_campaign_geometry
  raise_if (not m.validation_only && differs_from m g)
      (operator_input "E1 campaign geometry differs from the accepted design")
