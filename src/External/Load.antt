-- ===== src/External/Load.antt =====
-- `load_external_target_manifest` and `load_target_credential` of src/risi/adapters/external.py, from
-- the JSON value that the file holds. Reading and parsing the file is outside.
use risi.Prelude.{
  ℕ, ℤ, String, not, ◌≡◌, refl, Option, some, List, [], ◌∷◌, ◌==◌, if◌then◌else◌, ltb,
}
use risi.Prelude.Failure.{Error, Result, ok, err, operator_input, ◌>>=◌, ◌>>◌, raise_if}
use risi.Canonical.{Json, Fields, obj, str, int, get, same_keys}
use risi.Operator.Models.{ExecutionProfile, profile_value}
use risi.External.{
  Urls, ExternalTargetManifest, TargetCredential, check_target, check_credential, target_json,
}

abbrev pub target_fields : List String
target_fields =
    "schema_version" ∷ "target_id" ∷ "profile" ∷ "base_url" ∷ "server_name" ∷ "certificate_sha256"
    ∷ "ca_certificate_path" ∷ "api_key_pbkdf2_sha256" ∷ "health_token_pbkdf2_sha256" ∷ "api_paths"
    ∷ "identities" ∷ "request_timeout_seconds" ∷ "automatic_retry_count" ∷ "indexing_poll_seconds"
    ∷ "indexing_timeout_seconds" ∷ "metadata" ∷ []

-- `isinstance(value, dict) and set(value) == required`
unfoldable pub exact_fields : Json → List String → Error → Result Fields
exact_fields (obj fs) names error = if same_keys fs names then ok fs else err error
exact_fields j names error = err error

unfoldable pub require_profile : Option Json → Result ExecutionProfile
require_profile (some (str s)) =
    if s == "local-reference"
    then ok ExecutionProfile.local_reference
    else if s == "isolated-dify-knowledge"
    then ok ExecutionProfile.isolated_dify_knowledge
    else err (operator_input "external target profile is not implemented")
require_profile j = err (operator_input "external target profile is not implemented")

unfoldable pub require_fields : Option Json → Result Fields
require_fields (some (obj fs)) = ok fs
require_fields j = err (operator_input "external target field must be an object")

unfoldable pub require_int : Option Json → Result ℤ
require_int (some (int n)) = ok n
require_int j = err (operator_input "external target numeric fields must be integers")

unfoldable pub require_str : Error → Option Json → Result String
require_str error (some (str s)) = ok s
require_str error j = err error

abbrev bad_text : Error
bad_text = operator_input "external target identity fields must be strings"

abbrev bad_credential : Error
bad_credential = operator_input "target credential fields must be strings"

-- The constructor, with its checks.
abbrev checked_target : Urls → ExternalTargetManifest → Result ExternalTargetManifest
checked_target urls m = check_target urls m >> ok m

unfoldable pub target_from_json : Urls → Json → Result ExternalTargetManifest
unfolding exact_fields require_profile require_fields require_int require_str
target_from_json urls j = do
  fs ←
      exact_fields j target_fields
        (operator_input "external target manifest has an invalid field set")
  profile ← require_profile (get "profile" fs)
  api_paths ← require_fields (get "api_paths" fs)
  identities ← require_fields (get "identities" fs)
  metadata ← require_fields (get "metadata" fs)
  schema_version ← require_int (get "schema_version" fs)
  timeout ← require_int (get "request_timeout_seconds" fs)
  retries ← require_int (get "automatic_retry_count" fs)
  poll ← require_int (get "indexing_poll_seconds" fs)
  limit ← require_int (get "indexing_timeout_seconds" fs)
  target_id ← require_str bad_text (get "target_id" fs)
  base_url ← require_str bad_text (get "base_url" fs)
  server_name ← require_str bad_text (get "server_name" fs)
  certificate ← require_str bad_text (get "certificate_sha256" fs)
  ca_path ← require_str bad_text (get "ca_certificate_path" fs)
  api_key ← require_str bad_text (get "api_key_pbkdf2_sha256" fs)
  health_token ← require_str bad_text (get "health_token_pbkdf2_sha256" fs)
  checked_target urls (record {
    schema_version = schema_version;
    target_id = target_id;
    profile = profile;
    base_url = base_url;
    server_name = server_name;
    certificate_sha256 = certificate;
    ca_certificate_path = ca_path;
    api_key_pbkdf2_sha256 = api_key;
    health_token_pbkdf2_sha256 = health_token;
    api_paths = api_paths;
    identities = identities;
    request_timeout_seconds = timeout;
    automatic_retry_count = retries;
    indexing_poll_seconds = poll;
    indexing_timeout_seconds = limit;
    metadata = metadata;
  })

-- `credential_pbkdf2_sha256(value, target_id, purpose)`: the derivation of `hashlib` is not under
-- src/. Of the arguments that the code gives it, the value, the target and the purpose vary.
pub record Verifier : Type 0 where
  pub pbkdf2_sha256 : String → String → String → String

abbrev checked_credential : TargetCredential → Result TargetCredential
checked_credential c = check_credential c >> ok c

unfoldable pub credential_from_json :
    Verifier → ExternalTargetManifest → ℕ → Json → Result TargetCredential
unfolding exact_fields require_str
credential_from_json v m size j = do
  raise_if (ltb 16384 size) (operator_input "target credential file exceeds the size limit")
  fs ←
      exact_fields j ("target_id" ∷ "api_key" ∷ "health_token" ∷ [])
        (operator_input "target credential has an invalid field set")
  target_id ← require_str bad_credential (get "target_id" fs)
  api_key ← require_str bad_credential (get "api_key" fs)
  health_token ← require_str bad_credential (get "health_token" fs)
  raise_if (not (target_id == m.target_id))
      (operator_input "target credential is bound to another target")
  c ←
      checked_credential
        (record { target_id = target_id; api_key = api_key; health_token = health_token })
  raise_if (not (v.pbkdf2_sha256 api_key target_id "api-key" == m.api_key_pbkdf2_sha256))
      (operator_input "target API key verifier does not match the manifest")
  raise_if
      (not (v.pbkdf2_sha256 health_token target_id "health-token" == m.health_token_pbkdf2_sha256))
      (operator_input "target health token verifier does not match the manifest")
  ok c

profile_lem : (p : ExecutionProfile) → require_profile (some (str (profile_value p))) ≡ ok p
unfolding require_profile
profile_lem ExecutionProfile.local_reference = refl
profile_lem ExecutionProfile.isolated_dify_knowledge = refl

-- A manifest that passes the checks of its constructor is loaded again from the JSON that `to_json`
-- writes for it.
pub target_from_json-target_json :
    (urls : Urls) (m : ExternalTargetManifest)
    → check_target urls m ≡ ok tt
    → target_from_json urls (target_json m) ≡ ok m
unfolding target_from_json target_json
target_from_json-target_json urls m checked = rw (profile_lem m.profile, checked)
