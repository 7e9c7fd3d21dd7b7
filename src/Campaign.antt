-- ===== src/Campaign.antt =====
-- src/risi/campaign.py: the contracts of a campaign against an isolated target, and the constants of
-- its geometry (src/risi/statistics.py). Dates are day numbers: `date.fromisoformat`, which is not
-- under src/, is the parameter `Calendar`.
pub mod Load
pub mod Authorization
pub mod World
pub mod Guards
pub mod Execute
pub mod Preflight
pub mod Exactness
use risi.Prelude.{
  ℕ, ℤ, pos, eq_ℤ, eqb, leb, ◌*◌, String, Bool, true, false, not, ◌&&◌, ◌||◌, Option, none, some,
  List, [], ◌∷◌, ◌++◌, ◌==◌, any, all_unique, is_none, length, map, ltb_ℤ, if◌then◌else◌,
}
use risi.Prelude.Failure.{Result, ok, err, operator_input, runtime_error, ◌>>◌, raise_if}
use risi.Prelude.Text.{codes, is_blank, is_sha256_digest}
use risi.Paths.{parts, same_codes, dot_dot, starts_with_slash, has_backslash}
use risi.Canonical.{Json, Fields, obj, arr, str, int, bool, entries, nat, strings}
use risi.Canonical.Digest.{Hasher, canonical_sha256}
use risi.Operator.Models.{Capability, capability_value, capability_values, is_identifier}

pub data CampaignPurpose : Type 0 where
  e2_validation e3_campaign : CampaignPurpose

pub data CampaignPhase : Type 0 where
  prepared preflight_passed running cancelled blocked failed completed : CampaignPhase

pub record CampaignManifest : Type 0 where
  pub schema_version : ℤ
  pub campaign_id : String
  pub target_manifest_sha256 : String
  pub input_inventory_sha256 : String
  pub world_count : ℕ
  pub observations_per_world : ℕ
  pub total_observations : ℕ
  pub top_k : ℕ
  pub retrieval_mode : String
  pub evidence_relative_path : String
  pub expires_on : String
  pub validation_only : Bool
  pub metadata : Fields

-- `date.fromisoformat(value)`: the day, or `ValueError`.
pub record Calendar : Type 0 where
  pub from_iso : String → Option ℕ

-- A relative path without `..` and backslashes.
unfoldable pub is_contained : String → Bool
is_contained path = not (
    starts_with_slash (codes path)
    || any (λ s. same_codes s dot_dot) (parts path)
    || has_backslash path)

unfoldable pub check_campaign : Calendar → CampaignManifest → Result (Unit {0})
check_campaign cal m = do
  raise_if (not (eq_ℤ m.schema_version (pos 1)))
      (operator_input "campaign manifest schema_version must be 1")
  raise_if (not (is_identifier m.campaign_id))
      (operator_input "campaign_id must be a lowercase registered identifier")
  raise_if (not (is_sha256_digest m.target_manifest_sha256))
      (operator_input "target_manifest_sha256 must be a lowercase SHA-256 digest")
  raise_if (not (is_sha256_digest m.input_inventory_sha256))
      (operator_input "input_inventory_sha256 must be a lowercase SHA-256 digest")
  raise_if (eqb m.world_count 0 || eqb m.observations_per_world 0)
      (operator_input "campaign geometry must be positive")
  raise_if (not (eqb m.total_observations (m.world_count * m.observations_per_world)))
      (operator_input "campaign total_observations does not match its geometry")
  raise_if (not (eqb m.top_k 5 && m.retrieval_mode == "semantic-vector"))
      (operator_input "campaign retrieval must be semantic-vector top_k=5")
  raise_if (not (is_contained m.evidence_relative_path))
      (operator_input "evidence_relative_path must be a contained POSIX path")
  raise_if (is_none (cal.from_iso m.expires_on)) (operator_input "expires_on must be an ISO date")

unfoldable pub campaign_json : CampaignManifest → Json
campaign_json m = obj (
    entries (
      ("schema_version", int m.schema_version)
      ∷ ("campaign_id", str m.campaign_id)
      ∷ ("target_manifest_sha256", str m.target_manifest_sha256)
      ∷ ("input_inventory_sha256", str m.input_inventory_sha256)
      ∷ ("world_count", nat m.world_count)
      ∷ ("observations_per_world", nat m.observations_per_world)
      ∷ ("total_observations", nat m.total_observations)
      ∷ ("top_k", nat m.top_k)
      ∷ ("retrieval_mode", str m.retrieval_mode)
      ∷ ("evidence_relative_path", str m.evidence_relative_path)
      ∷ ("expires_on", str m.expires_on)
      ∷ ("validation_only", bool m.validation_only)
      ∷ ("metadata", obj m.metadata)
      ∷ []))

-- `CampaignManifest.digest`
unfoldable pub campaign_digest : Hasher → CampaignManifest → String
campaign_digest h m = canonical_sha256 h (campaign_json m)

pub record CampaignApproval : Type 0 where
  pub schema_version : ℤ
  pub decision_id : String
  pub status : String
  pub purpose : CampaignPurpose
  pub campaign_manifest_sha256 : String
  pub target_manifest_sha256 : String
  pub input_inventory_sha256 : String
  pub approved_by : String
  pub capabilities : List Capability
  pub expires_on : String
  pub max_attempts : ℕ
  pub note : String

abbrev pub expected_attempts : CampaignPurpose → ℕ
expected_attempts CampaignPurpose.e2_validation = 3
expected_attempts CampaignPurpose.e3_campaign = 1

unfoldable pub check_campaign_approval : Calendar → CampaignApproval → Result (Unit {0})
check_campaign_approval cal a = do
  raise_if (not (eq_ℤ a.schema_version (pos 1)))
      (operator_input "campaign approval schema_version must be 1")
  raise_if (is_blank a.decision_id || not (a.status == "accepted") || is_blank a.approved_by)
      (operator_input "campaign approval identity or status is invalid")
  raise_if (not (is_sha256_digest a.campaign_manifest_sha256))
      (operator_input "campaign_manifest_sha256 must be a lowercase SHA-256 digest")
  raise_if (not (is_sha256_digest a.target_manifest_sha256))
      (operator_input "target_manifest_sha256 must be a lowercase SHA-256 digest")
  raise_if (not (is_sha256_digest a.input_inventory_sha256))
      (operator_input "input_inventory_sha256 must be a lowercase SHA-256 digest")
  raise_if (not (all_unique (capability_values a.capabilities)))
      (operator_input "campaign approval capabilities must be unique")
  raise_if (is_none (cal.from_iso a.expires_on))
      (operator_input "approval expires_on must be an ISO date")
  raise_if (not (eqb a.max_attempts (expected_attempts a.purpose)))
      (operator_input "approval max_attempts does not match its purpose")

abbrev pub purpose_value : CampaignPurpose → String
purpose_value CampaignPurpose.e2_validation = "e2-validation"
purpose_value CampaignPurpose.e3_campaign = "e3-campaign"

abbrev pub phase_value : CampaignPhase → String
phase_value CampaignPhase.prepared = "prepared"
phase_value CampaignPhase.preflight_passed = "preflight-passed"
phase_value CampaignPhase.running = "running"
phase_value CampaignPhase.cancelled = "cancelled"
phase_value CampaignPhase.blocked = "blocked"
phase_value CampaignPhase.failed = "failed"
phase_value CampaignPhase.completed = "completed"

unfoldable pub campaign_approval_json : CampaignApproval → Json
campaign_approval_json a = obj (
    entries (
      ("schema_version", int a.schema_version)
      ∷ ("decision_id", str a.decision_id)
      ∷ ("status", str a.status)
      ∷ ("purpose", str (purpose_value a.purpose))
      ∷ ("campaign_manifest_sha256", str a.campaign_manifest_sha256)
      ∷ ("target_manifest_sha256", str a.target_manifest_sha256)
      ∷ ("input_inventory_sha256", str a.input_inventory_sha256)
      ∷ ("approved_by", str a.approved_by)
      ∷ ("capabilities", arr (strings (capability_values a.capabilities)))
      ∷ ("expires_on", str a.expires_on)
      ∷ ("max_attempts", nat a.max_attempts)
      ∷ ("note", str a.note)
      ∷ []))

pub record CampaignMemory : Type 0 where
  pub memory_id : String
  pub content : String

-- The record separator symbol U+241E.
abbrev pub has_separator : String → Bool
has_separator s = any (λ c. eqb c 9246) (codes s)

unfoldable pub check_campaign_memory : CampaignMemory → Result (Unit {0})
check_campaign_memory m =
    raise_if (not (is_identifier m.memory_id) || is_blank m.content || has_separator m.content)
      (operator_input "campaign memory is invalid")

pub record CampaignWorld : Type 0 where
  pub world_id : String
  pub source_memories : List CampaignMemory
  pub benign_pool : List CampaignMemory
  pub targeted_pool : List CampaignMemory
  pub target_query : String
  pub non_target_query : String

abbrev pub memory_ids : List CampaignMemory → List String
memory_ids ms = map (λ m. m.memory_id) ms

unfoldable pub check_world : CampaignWorld → Result (Unit {0})
check_world w = do
  raise_if (not (is_identifier w.world_id)) (operator_input "world_id is invalid")
  raise_if
      (not (
        eqb (length w.source_memories) 2
        && eqb (length w.benign_pool) 25
        && eqb (length w.targeted_pool) 25))
      (operator_input "campaign world does not have the frozen source/pool shape")
  raise_if (not (all_unique (memory_ids (w.source_memories ++ w.benign_pool ++ w.targeted_pool))))
      (operator_input "campaign memory IDs must be unique within a world")
  raise_if (is_blank w.target_query || is_blank w.non_target_query)
      (operator_input "campaign queries must not be empty")

pub record EvaluatorOracle : Type 0 where
  pub world_id : String
  pub target_memory_id : String
  pub non_target_memory_id : String

pub record PreflightResult : Type 0 where
  pub schema_version : ℕ
  pub campaign_id : String
  pub target_manifest_sha256 : String
  pub campaign_manifest_sha256 : String
  pub input_inventory_sha256 : String
  pub passed : Bool
  pub checks : Fields
  pub attempt : ℕ

unfoldable pub preflight_json : PreflightResult → Json
preflight_json p = obj (
    entries (
      ("schema_version", nat p.schema_version)
      ∷ ("campaign_id", str p.campaign_id)
      ∷ ("target_manifest_sha256", str p.target_manifest_sha256)
      ∷ ("campaign_manifest_sha256", str p.campaign_manifest_sha256)
      ∷ ("input_inventory_sha256", str p.input_inventory_sha256)
      ∷ ("passed", bool p.passed)
      ∷ ("checks", obj p.checks)
      ∷ ("attempt", nat p.attempt)
      ∷ []))

pub record CampaignCheckpoint : Type 0 where
  pub schema_version : ℕ
  pub campaign_id : String
  pub phase : CampaignPhase
  pub next_world_index : ℕ
  pub observation_count : ℕ
  pub request_count : ℕ
  pub manifest_sha256 : String
  pub message : String

unfoldable pub checkpoint_json : CampaignCheckpoint → Json
checkpoint_json c = obj (
    entries (
      ("schema_version", nat c.schema_version)
      ∷ ("campaign_id", str c.campaign_id)
      ∷ ("phase", str (phase_value c.phase))
      ∷ ("next_world_index", nat c.next_world_index)
      ∷ ("observation_count", nat c.observation_count)
      ∷ ("request_count", nat c.request_count)
      ∷ ("manifest_sha256", str c.manifest_sha256)
      ∷ ("message", str c.message)
      ∷ []))

pub record Deviation : Type 0 where
  pub schema_version : ℕ
  pub campaign_id : String
  pub phase : String
  pub code : String
  pub message : String
  pub request_count : ℕ
  pub observation_count : ℕ

unfoldable pub deviation_json : Deviation → Json
deviation_json d = obj (
    entries (
      ("schema_version", nat d.schema_version)
      ∷ ("campaign_id", str d.campaign_id)
      ∷ ("phase", str d.phase)
      ∷ ("code", str d.code)
      ∷ ("message", str d.message)
      ∷ ("request_count", nat d.request_count)
      ∷ ("observation_count", nat d.observation_count)
      ∷ []))

-- `e1_campaign_geometry`: 330 worlds of 22 observations. The power is not used.
pub record CampaignGeometry : Type 0 where
  pub world_count : ℕ
  pub observations_per_world : ℕ
  pub total_observations : ℕ

unfoldable pub e1_campaign_geometry : Result CampaignGeometry
e1_campaign_geometry =
    raise_if (not (eqb (330 * 22) 7260)) (runtime_error "E1 geometry constants are inconsistent")
    >> ok (record { world_count = 330; observations_per_world = 22; total_observations = 330 * 22 })
