-- ===== src/Campaign/Guards.antt =====
-- What `prepare_campaign` and `CampaignExecutor.execute` of src/risi/campaign.py check before they
-- write anything.
use Prim.Native.String
use risi.Prelude.{ℕ, eqb, String, not, ◌||◌, Option, List, [], ◌∷◌, length}
use risi.Prelude.Failure.{Result, permission_error, operator_input, ◌>>=◌, ◌>>◌, raise_if}
use risi.External.{ExternalTargetManifest}
use risi.Artifacts.{Codec}
use risi.Campaign.{
  Calendar, CampaignManifest, CampaignApproval, CampaignWorld, EvaluatorOracle, CampaignCheckpoint,
  CampaignPhase, campaign_digest,
}
use risi.Campaign.Authorization.{authorize_campaign, validate_e1_geometry}

-- Everything that a campaign is given: its contracts and its inputs, the date, and what is outside.
pub record CampaignInput : Type 0 where
  pub calendar : Calendar
  pub codec : Codec
  pub today : ℕ
  pub manifest : CampaignManifest
  pub target : ExternalTargetManifest
  pub approval : Option CampaignApproval
  pub worlds : List CampaignWorld
  pub oracles : List EvaluatorOracle

-- `",".join(decision.reason_codes)`
abbrev pub joined : List String → String
joined [] = ""
joined (r ∷ []) = r
joined (r ∷ s ∷ rs) = String.◌++◌ r (String.◌++◌ "," (joined (s ∷ rs)))

unfoldable pub require_authority : CampaignInput → Result (Unit {0})
require_authority i = do
  decision ← authorize_campaign i.codec.hasher i.calendar i.today i.manifest i.target i.approval
  raise_if (not decision.allowed) (permission_error (joined decision.reason_codes))

-- The guards of `execute`.
unfoldable pub guard_execution : CampaignInput → Result (Unit {0})
guard_execution i = do
  require_authority i
  raise_if i.manifest.validation_only
      (permission_error "validation-only manifests cannot produce campaign outcomes")
  validate_e1_geometry i.manifest
  raise_if
      (not (eqb (length i.worlds) i.manifest.world_count)
        || not (eqb (length i.oracles) i.manifest.world_count))
      (operator_input "input record counts do not match the campaign manifest")

unfoldable pub checkpoint_of : CampaignInput → CampaignPhase → ℕ → ℕ → ℕ → CampaignCheckpoint
checkpoint_of i phase next observations requests = record {
  schema_version = 1;
  campaign_id = i.manifest.campaign_id;
  phase = phase;
  next_world_index = next;
  observation_count = observations;
  request_count = requests;
  manifest_sha256 = campaign_digest i.codec.hasher i.manifest;
  message = "";
}

-- The guards of `prepare_campaign`.
unfoldable pub guard_preparation : CampaignInput → Result (Unit {0})
guard_preparation i = do require_authority i; validate_e1_geometry i.manifest
