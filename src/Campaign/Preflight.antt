-- ===== src/Campaign/Preflight.antt =====
-- `campaign_preflight` of src/risi/campaign.py. The validation runner is
-- an argument, as it is in the code.
pub mod Authority
use risi.Prelude.{
  ℕ, ℤ, pos, eqb, leb, String, Bool, true, false, not, ◌&&◌, ◌||◌, Option, none, some, List, [],
  ◌∷◌, ◌==◌, if◌then◌else◌,
}
use risi.Prelude.Failure
use risi.Prelude.Failure.{
  Error, Result, ok, err, operator_input, transport_error, key_error, raise_if,
}
use risi.Prelude.Exec.{Exec, pure, lift, ◌>>=◌, ◌>>◌}
use risi.Canonical.{Json, Fields, bool, str, int, entries, nat, get}
use risi.Canonical.Digest.{Hasher}
use risi.Confidentiality.Differences.{same_leaf}
use risi.Operator.Safety.{AuthorizationDecision}
use risi.External.{
  ExternalTargetManifest, ExternalKnowledgeAdapter, target_digest, is_isolated_dify,
}
use risi.Campaign.{
  Calendar, CampaignManifest, CampaignApproval, CampaignGeometry, PreflightResult, campaign_digest,
  e1_campaign_geometry,
}
use risi.Campaign.Authorization.{authorize_campaign}

-- `d[key] = value`, and `d.update(other)`.
abbrev pub set_field : String → Json → Fields → Fields
set_field k v Fields.end = Fields.field k v Fields.end
set_field k v (Fields.field j w rest) =
    if j == k then Fields.field j v rest else Fields.field j w (set_field k v rest)

abbrev pub update_fields : Fields → Fields → Fields
update_fields fs Fields.end = fs
update_fields fs (Fields.field k v rest) = update_fields (set_field k v fs) rest

-- `checks[key] is True`, and `checks[key] == n`.
abbrev pub is_true : Option Json → Bool
is_true (some (Json.bool b)) = b
is_true j = false

abbrev pub equals_nat : Option Json → ℕ → Bool
equals_nat none n = false
equals_nat (some v) n = same_leaf v (nat n)

-- `approval.max_attempts if approval is not None else 1`
abbrev pub attempt_ceiling : Option CampaignApproval → ℕ
attempt_ceiling none = 1
attempt_ceiling (some a) = a.max_attempts

abbrev pub within_attempts : ℕ → Option CampaignApproval → Bool
within_attempts attempt a = leb 1 attempt && leb attempt (attempt_ceiling a)

abbrev pub total_matches : CampaignManifest → Result CampaignGeometry → Result Bool
total_matches m (ok g) = ok (eqb m.total_observations g.total_observations)
total_matches m (err error) = err error

-- `manifest.validation_only or manifest.total_observations == ...`
abbrev pub geometry_check : Bool → Result Bool → Result Bool
geometry_check true total = ok true
geometry_check false total = total

-- Ten worlds of one observation.
unfoldable pub has_validation_geometry : CampaignManifest → Bool
has_validation_geometry m =
    eqb m.world_count 10 && eqb m.observations_per_world 1 && eqb m.total_observations 10

abbrev pub geometry_allowed : CampaignManifest → Bool
geometry_allowed m = not m.validation_only || has_validation_geometry m

unfoldable pub initial_checks :
    CampaignManifest → ExternalTargetManifest → AuthorizationDecision → Bool → Fields
initial_checks m t d geometry = entries (
    ("authorization", bool d.allowed)
    ∷ ("geometry", bool geometry)
    ∷ ("target_profile", bool (is_isolated_dify t.profile))
    ∷ ("automatic_retry_count", int t.automatic_retry_count)
    ∷ ("request_timeout_seconds", int t.request_timeout_seconds)
    ∷ ("validation_geometry", bool (geometry_allowed m))
    ∷ [])

abbrev pub is_healthy_target : Fields → Bool
is_healthy_target health = equals_text (get "status" health)
  where
    equals_text : Option Json → Bool
    equals_text (some (Json.str s)) = s == "healthy"
    equals_text j = false

-- The checks after the validation returned or raised; only a transport error is caught.
abbrev pub validated_checks : Fields → Result Fields → Result Fields
validated_checks checks (ok found) = ok (update_fields checks found)
validated_checks checks (err (transport_error code message)) =
    ok (set_field "failure_code" (str code) (set_field "validation_passed" (bool false) checks))
validated_checks checks (err error) = err error

abbrev pub passed_before : Fields → Bool
passed_before checks =
    is_true (get "authorization" checks)
    && is_true (get "geometry" checks)
    && is_true (get "target_profile" checks)
    && equals_nat (get "automatic_retry_count" checks) 0
    && equals_nat (get "request_timeout_seconds" checks) 10
    && is_true (get "validation_geometry" checks)

-- `... and checks["validation_passed"] is True`: the key is looked up only if all before is true.
abbrev pub last_check : Bool → Option Json → Result Bool
last_check false found = ok false
last_check true none = err (key_error "validation_passed")
last_check true (some v) = ok (is_true (some v))

unfoldable pub has_passed : Fields → Result Bool
has_passed checks = last_check (passed_before checks) (get "validation_passed" checks)

unfoldable pub preflight_result :
    Hasher → CampaignManifest → ExternalTargetManifest → ℕ → Fields → Bool → PreflightResult
preflight_result h m t attempt checks passed = record {
  schema_version = 1;
  campaign_id = m.campaign_id;
  target_manifest_sha256 = target_digest h t;
  campaign_manifest_sha256 = campaign_digest h m;
  input_inventory_sha256 = m.input_inventory_sha256;
  passed = passed;
  checks = checks;
  attempt = attempt;
}

module _ {W : Type 0} (adapter : ExternalKnowledgeAdapter W)
    (validation_runner : ExternalKnowledgeAdapter W → Exec W Fields) where
  abbrev pub health_checks : Result Fields → Result Fields
  health_checks (ok health) = ok (
      entries (
        ("target_health", bool (is_healthy_target health))
        ∷ ("validation_passed", bool (is_healthy_target health))
        ∷ []))
  health_checks (err error) = err error

  -- The `try` block: what it adds to the checks.
  unfoldable pub validate_target : Bool → Exec W Fields
  validate_target true s = validation_runner adapter s
  validate_target false s = let (r, s') = adapter.read_health false s in (health_checks r, s')

  unfoldable pub run_checks : Bool → CampaignManifest → Fields → Exec W Fields
  run_checks true m checks s =
      let (r, s') = validate_target m.validation_only s in (validated_checks checks r, s')
  run_checks false m checks s = (ok (set_field "validation_passed" (bool false) checks), s)

  unfoldable pub campaign_preflight :
      Hasher
      → Calendar
      → ℕ
      → CampaignManifest
      → ExternalTargetManifest
      → Option CampaignApproval
      → ℕ
      → Exec W PreflightResult
  campaign_preflight h cal today m t a attempt = do
    d ← lift (authorize_campaign h cal today m t a)
    lift (
        raise_if (not (within_attempts attempt a))
          (operator_input "preflight attempt is outside its approval ceiling"))
    geometry ← lift (geometry_check m.validation_only (total_matches m e1_campaign_geometry))
    checks ← run_checks (d.allowed && geometry_allowed m) m (initial_checks m t d geometry)
    passed ← lift (has_passed checks)
    pure (preflight_result h m t attempt checks passed)
