-- ===== src/External.antt =====
-- src/risi/adapters/external.py: the contract of an isolated external knowledge target. The target
-- itself is outside src/: it is reached through `ExternalKnowledgeAdapter`, whose methods are
-- statements on its state `W`. Numbers of a manifest are Python integers.
pub mod Load
use risi.Prelude.{
  ℕ, ℤ, pos, eq_ℤ, eqb, suc, String, Bool, true, false, not, ◌&&◌, ◌||◌, Option, none, some, List,
  [], ◌∷◌, ◌==◌, any, all_unique, map,
}
use risi.Prelude.Failure.{Result, operator_input, value_error, ◌>>◌, raise_if}
use risi.Prelude.Text.{codes, is_blank, is_sha256_digest}
use risi.Prelude.Exec.{Exec}
use risi.Canonical.{
  Json, Items, Fields, Float, finite, obj, arr, str, int, real, null, entries, nat, get,
}
use risi.Canonical.Digest.{Hasher, canonical_sha256}
use risi.Operator.Models.{ExecutionProfile, profile_value, is_identifier}
use risi.Operator.Limits

-- `urllib.parse.urlsplit`, which is not under src/: the parts of a URL that the code reads. An
-- absent host is the empty text.
pub record UrlParts : Type 0 where
  pub scheme : String
  pub hostname : String
  pub path : String
  pub query : String
  pub fragment : String

pub record Urls : Type 0 where
  pub urlsplit : String → UrlParts

pub record ExternalTargetManifest : Type 0 where
  pub schema_version : ℤ
  pub target_id : String
  pub profile : ExecutionProfile
  pub base_url : String
  pub server_name : String
  pub certificate_sha256 : String
  pub ca_certificate_path : String
  pub api_key_pbkdf2_sha256 : String
  pub health_token_pbkdf2_sha256 : String
  pub api_paths : Fields
  pub identities : Fields
  pub request_timeout_seconds : ℤ
  pub automatic_retry_count : ℤ
  pub indexing_poll_seconds : ℤ
  pub indexing_timeout_seconds : ℤ
  pub metadata : Fields

abbrev pub is_isolated_dify : ExecutionProfile → Bool
is_isolated_dify ExecutionProfile.isolated_dify_knowledge = true
is_isolated_dify ExecutionProfile.local_reference = false

-- `hostname in allowed_hosts`: the server's name, and the guest's address if it is a text.
abbrev pub is_guest : Option Json → String → Bool
is_guest (some (Json.str guest)) host = host == guest
is_guest _ host = false

unfoldable pub is_https_origin : UrlParts → Bool
is_https_origin u =
    u.scheme == "https"
    && not (u.hostname == "")
    && (u.path == "" || u.path == "/")
    && u.query == ""
    && u.fragment == ""

unfoldable pub validate_transport_identity : Urls → ExternalTargetManifest → Result (Unit {0})
validate_transport_identity urls m = do
  raise_if (not (is_https_origin (urls.urlsplit m.base_url)))
      (operator_input "base_url must be one HTTPS origin")
  raise_if
      (not (
        (urls.urlsplit m.base_url).hostname == m.server_name
        || is_guest (get "guest_ipv4" m.identities) (urls.urlsplit m.base_url).hostname))
      (operator_input "base_url host is not the frozen target identity")
  raise_if (not (m.server_name == "risi-dify-e1"))
      (operator_input "server_name is not the frozen E1 target identity")
  raise_if (not (is_sha256_digest m.certificate_sha256))
      (operator_input "certificate_sha256 must be a lowercase SHA-256 digest")
  raise_if (not (is_sha256_digest m.api_key_pbkdf2_sha256))
      (operator_input "api_key_pbkdf2_sha256 must be a lowercase PBKDF2-SHA256 verifier")
  raise_if (not (is_sha256_digest m.health_token_pbkdf2_sha256))
      (operator_input "health_token_pbkdf2_sha256 must be a lowercase PBKDF2-SHA256 verifier")
  raise_if (is_blank m.ca_certificate_path) (operator_input "ca_certificate_path must not be empty")

unfoldable pub validate_lifecycle_ceilings : ExternalTargetManifest → Result (Unit {0})
validate_lifecycle_ceilings m = do
  raise_if (not (eq_ℤ m.request_timeout_seconds (pos 10)))
      (operator_input "request_timeout_seconds must be exactly 10")
  raise_if (not (eq_ℤ m.automatic_retry_count (pos 0)))
      (operator_input "automatic_retry_count must be zero")
  raise_if (not (eq_ℤ m.indexing_poll_seconds (pos 1) && eq_ℤ m.indexing_timeout_seconds (pos 300)))
      (operator_input "indexing polling must be one second with a 300 second limit")

unfoldable pub check_target : Urls → ExternalTargetManifest → Result (Unit {0})
unfolding validate_transport_identity validate_lifecycle_ceilings
check_target urls m = do
  raise_if (not (eq_ℤ m.schema_version (pos 1)))
      (operator_input "target manifest schema_version must be 1")
  raise_if (not (is_identifier m.target_id))
      (operator_input "target_id must be a lowercase registered identifier")
  raise_if (not (is_isolated_dify m.profile))
      (operator_input "target profile must be isolated-dify-knowledge")
  validate_transport_identity urls m
  validate_lifecycle_ceilings m

unfoldable pub target_json : ExternalTargetManifest → Json
target_json m = obj (
    entries (
      ("schema_version", int m.schema_version)
      ∷ ("target_id", str m.target_id)
      ∷ ("profile", str (profile_value m.profile))
      ∷ ("base_url", str m.base_url)
      ∷ ("server_name", str m.server_name)
      ∷ ("certificate_sha256", str m.certificate_sha256)
      ∷ ("ca_certificate_path", str m.ca_certificate_path)
      ∷ ("api_key_pbkdf2_sha256", str m.api_key_pbkdf2_sha256)
      ∷ ("health_token_pbkdf2_sha256", str m.health_token_pbkdf2_sha256)
      ∷ ("api_paths", obj m.api_paths)
      ∷ ("identities", obj m.identities)
      ∷ ("request_timeout_seconds", int m.request_timeout_seconds)
      ∷ ("automatic_retry_count", int m.automatic_retry_count)
      ∷ ("indexing_poll_seconds", int m.indexing_poll_seconds)
      ∷ ("indexing_timeout_seconds", int m.indexing_timeout_seconds)
      ∷ ("metadata", obj m.metadata)
      ∷ []))

-- `ExternalTargetManifest.digest`
unfoldable pub target_digest : Hasher → ExternalTargetManifest → String
target_digest h m = canonical_sha256 h (target_json m)

pub record TargetCredential : Type 0 where
  pub target_id : String
  pub api_key : String
  pub health_token : String

-- `"\r" in s or "\n" in s`
abbrev pub has_line_break : String → Bool
has_line_break s = any (λ c. eqb c 13 || eqb c 10) (codes s)

unfoldable pub check_credential : TargetCredential → Result (Unit {0})
check_credential c =
    raise_if
      (is_blank c.target_id
        || c.api_key == ""
        || c.health_token == ""
        || has_line_break c.api_key
        || has_line_break c.health_token)
      (operator_input "target credential is invalid")

pub record ExternalRetrievalHit : Type 0 where
  pub segment_id : String
  pub document_id : String
  pub rank : ℕ
  pub score : Float
  pub content : String

pub record ExternalRetrievalResult : Type 0 where
  pub hits : List ExternalRetrievalHit

abbrev pub ranks_from : ℕ → List ExternalRetrievalHit → Bool
ranks_from n [] = true
ranks_from n (x ∷ xs) = eqb x.rank n && ranks_from (suc n) xs

abbrev pub segment_ids : List ExternalRetrievalHit → List String
segment_ids xs = map (λ x. x.segment_id) xs

unfoldable pub check_retrieval : ExternalRetrievalResult → Result (Unit {0})
check_retrieval r = do
  raise_if (not (ranks_from 1 r.hits))
      (value_error "external retrieval ranks must be contiguous and one-based")
  raise_if (not (all_unique (segment_ids r.hits)))
      (value_error "external retrieval segment IDs must be unique")

-- The scores of a result are finite.
abbrev pub score_json : Float → Json
score_json (finite m e) = real m e
score_json x = null

unfoldable pub external_hit_json : ExternalRetrievalHit → Json
external_hit_json x = obj (
    entries (
      ("segment_id", str x.segment_id)
      ∷ ("document_id", str x.document_id)
      ∷ ("rank", nat x.rank)
      ∷ ("score", score_json x.score)
      ∷ ("content", str x.content)
      ∷ []))

abbrev pub external_hits_json : List ExternalRetrievalHit → Items
external_hits_json [] = Items.nil
external_hits_json (x ∷ xs) = Items.cons (external_hit_json x) (external_hits_json xs)

unfoldable pub external_result_json : ExternalRetrievalResult → Json
external_result_json r = obj (entries (("hits", arr (external_hits_json r.hits)) ∷ []))

-- The methods; the Boolean is whether the cancellation token that is passed is cancelled.
pub record ExternalKnowledgeAdapter (W : Type 0) : Type 0 where
  pub list_knowledge_bases : Bool → Exec W (List Fields)
  pub create_knowledge_base : String → Bool → Exec W String
  pub inspect_knowledge_base : String → Bool → Exec W Fields
  pub delete_knowledge_base : String → Bool → Exec W (Unit {0})
  pub create_document : String → String → String → Bool → Exec W (String × String)
  pub wait_for_indexing : String → String → Bool → Exec W (Unit {0})
  pub inspect_segments : String → String → Bool → Exec W (List Fields)
  pub retrieve : String → String → Bool → Exec W ExternalRetrievalResult
  pub delete_document : String → String → Bool → Exec W (Unit {0})
  pub read_health : Bool → Exec W Fields
