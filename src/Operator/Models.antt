-- ===== src/Operator/Models.antt =====
-- src/risi/operator/models.py: run manifests, approval records and the checks of their
-- constructors.
use risi.Prelude.{
  ℕ, ℤ, pos, eq_ℤ, String, Bool, false, not, ◌&&◌, ◌||◌, List, [], ◌∷◌, ◌==◌, ◌≡◌, refl, Option,
  none, some, eqb, leb, length, all, all_unique, map, if◌then◌else◌,
}
use risi.Prelude.Failure.{Result, operator_input, ◌>>◌, raise_if}
use risi.Prelude.Text.{codes, is_blank, is_sha256_digest}
use risi.Paths.{escapes, has_backslash}
use risi.Canonical.{Json, obj, arr, str, int, entries, strings, nat}
use risi.Canonical.Digest.{Hasher, canonical_sha256}
use risi.Operator.Limits.{ExecutionLimits, limits_json}

pub data Capability : Type 0 where
  scenario_read artifact_write reference_execute evidence_verify target_connect : Capability
  secret_read knowledge_base_create knowledge_base_inspect knowledge_base_delete : Capability
  document_create document_inspect document_delete retrieval_execute health_read : Capability

abbrev pub capability_value : Capability → String
capability_value scenario_read = "scenario.read"
capability_value artifact_write = "artifact.write"
capability_value reference_execute = "reference.execute"
capability_value evidence_verify = "evidence.verify"
capability_value target_connect = "target.connect"
capability_value secret_read = "secret.read"
capability_value knowledge_base_create = "knowledge-base.create"
capability_value knowledge_base_inspect = "knowledge-base.inspect"
capability_value knowledge_base_delete = "knowledge-base.delete"
capability_value document_create = "document.create"
capability_value document_inspect = "document.inspect"
capability_value document_delete = "document.delete"
capability_value retrieval_execute = "retrieval.execute"
capability_value health_read = "health.read"

pub data ExecutionProfile : Type 0 where
  local_reference isolated_dify_knowledge : ExecutionProfile

abbrev pub profile_value : ExecutionProfile → String
profile_value local_reference = "local-reference"
profile_value isolated_dify_knowledge = "isolated-dify-knowledge"

pub record RunManifest : Type 0 where
  pub schema_version : ℤ
  pub run_id : String
  pub profile : ExecutionProfile
  pub scenario_path : String
  pub scenario_sha256 : String
  pub seed : ℕ
  pub adapter : String
  pub decision_provider : String
  pub policy : String
  pub capabilities : List Capability
  pub limits : ExecutionLimits

pub record ApprovalRecord : Type 0 where
  pub schema_version : ℤ
  pub manifest_sha256 : String
  pub approved_by : String
  pub capabilities : List Capability
  pub note : String

abbrev pub capability_values : List Capability → List String
capability_values cs = map capability_value cs

pub is_identifier_start : ℕ → Bool
is_identifier_start c = (leb b'a' c && leb c b'z') || (leb b'0' c && leb c b'9')

pub is_identifier_char : ℕ → Bool
unfolding is_identifier_start
is_identifier_char c = is_identifier_start c || eqb c b'.' || eqb c b'_' || eqb c b'-'

abbrev pub identifier_codes : List ℕ → Bool
unfolding is_identifier_start is_identifier_char
identifier_codes [] = false
identifier_codes (c ∷ cs) = is_identifier_start c && all is_identifier_char cs && leb (length cs) 63

-- `^[a-z0-9][a-z0-9._-]{0,63}$`
unfoldable pub is_identifier : String → Bool
unfolding identifier_codes
is_identifier s = identifier_codes (codes s)

pub validate_identifier : String → Result (Unit {0})
unfolding is_identifier
validate_identifier value =
    raise_if (not (is_identifier value))
      (operator_input "must be a lowercase registered identifier")

pub validate_scenario_reference : String → String → Result (Unit {0})
unfolding escapes is_sha256_digest
validate_scenario_reference path digest = do
  raise_if (escapes path) (operator_input "scenario_path must remain beneath the scenario root")
  raise_if (has_backslash path) (operator_input "scenario_path must use POSIX separators")
  raise_if (not (is_sha256_digest digest))
      (operator_input "scenario_sha256 must be a lowercase SHA-256 digest")

unfoldable pub check_manifest : RunManifest → Result (Unit {0})
unfolding validate_identifier validate_scenario_reference
check_manifest m = do
  raise_if (not (eq_ℤ m.schema_version (pos 1)))
      (operator_input "manifest schema_version must be 1")
  validate_identifier m.run_id
  validate_scenario_reference m.scenario_path m.scenario_sha256
  validate_identifier m.adapter
  validate_identifier m.decision_provider
  validate_identifier m.policy
  raise_if (eqb (length m.capabilities) 0) (operator_input "capabilities must not be empty")
  raise_if (not (all_unique (capability_values m.capabilities)))
      (operator_input "capabilities must contain unique values")

unfoldable pub check_approval : ApprovalRecord → Result (Unit {0})
unfolding is_sha256_digest is_blank
check_approval a = do
  raise_if (not (eq_ℤ a.schema_version (pos 1)))
      (operator_input "approval schema_version must be 1")
  raise_if (not (is_sha256_digest a.manifest_sha256))
      (operator_input "manifest_sha256 must be a lowercase SHA-256 digest")
  raise_if (is_blank a.approved_by) (operator_input "approved_by must not be empty")
  raise_if (not (all_unique (capability_values a.capabilities)))
      (operator_input "approval capabilities must contain unique values")

unfoldable pub manifest_json : RunManifest → Json
unfolding limits_json
manifest_json m = obj (
    entries (
      ("schema_version", int m.schema_version)
      ∷ ("run_id", str m.run_id)
      ∷ ("profile", str (profile_value m.profile))
      ∷ ("scenario_path", str m.scenario_path)
      ∷ ("scenario_sha256", str m.scenario_sha256)
      ∷ ("seed", nat m.seed)
      ∷ ("adapter", str m.adapter)
      ∷ ("decision_provider", str m.decision_provider)
      ∷ ("policy", str m.policy)
      ∷ ("capabilities", arr (strings (capability_values m.capabilities)))
      ∷ ("limits", limits_json m.limits)
      ∷ []))

-- `RunManifest.digest`
unfoldable pub manifest_digest : Hasher → RunManifest → String
unfolding manifest_json canonical_sha256
manifest_digest h m = canonical_sha256 h (manifest_json m)

-- `Capability(value)`: the member with that value.
unfoldable pub capability_of : String → Option Capability
capability_of s =
    if s == "scenario.read"
    then some scenario_read
    else if s == "artifact.write"
    then some artifact_write
    else if s == "reference.execute"
    then some reference_execute
    else if s == "evidence.verify"
    then some evidence_verify
    else if s == "target.connect"
    then some target_connect
    else if s == "secret.read"
    then some secret_read
    else if s == "knowledge-base.create"
    then some knowledge_base_create
    else if s == "knowledge-base.inspect"
    then some knowledge_base_inspect
    else if s == "knowledge-base.delete"
    then some knowledge_base_delete
    else if s == "document.create"
    then some document_create
    else if s == "document.inspect"
    then some document_inspect
    else if s == "document.delete"
    then some document_delete
    else if s == "retrieval.execute"
    then some retrieval_execute
    else if s == "health.read"
    then some health_read
    else none

-- Every member is found again by its value.
pub capability_of-value : (c : Capability) → capability_of (capability_value c) ≡ some c
unfolding capability_of
capability_of-value scenario_read = refl
capability_of-value _ = refl
