-- ===== src/Examples/Campaign.antt =====
-- A campaign against a target that answers each query with the document that it was given last.
use risi.Prelude.{pos, String, true, false, ◌≡◌, ◌↔◌, refl, some, List, [], ◌∷◌, length}
use risi.Prelude.Failure.{Result, ok, err}
use risi.Prelude.Exec
use risi.Prelude.Exec.{Exec}
use risi.Canonical.{Json, Fields, finite, entries}
use risi.Prelude.Text.{is_sha256_digest, is_blank}
use risi.Operator.Models.{ExecutionProfile, is_identifier}
use risi.Operator.Safety.{AuthorizationDecision}
use risi.External.{
  Urls, ExternalTargetManifest, ExternalKnowledgeAdapter, check_target, validate_transport_identity,
  validate_lifecycle_ceilings, is_https_origin, target_json,
}
use risi.External.Load.{target_from_json, target_from_json-target_json}
use risi.Campaign.{
  Calendar, CampaignManifest, CampaignApproval, CampaignMemory, CampaignWorld, CampaignPurpose,
  EvaluatorOracle,
}
use risi.Campaign.Authorization.{authorize_campaign, campaign_capabilities}
use risi.Campaign.Exactness.{IsCovered, authorize_campaign-iff_IsCovered}
use risi.Campaign.World.{
  run_world, run_conditions, run_checkpoints, run_condition, with_knowledge_base, ingest,
  ingest_one, observe, observe_query,
}
use risi.Campaign.World.Shape.{length-run_world}
use risi.Campaign.World.Cleanup.{Open, watched, run_world-Open}
use risi.Examples.{digest, hasher}

abbrev urls : Urls
urls = record {
  urlsplit = λ s. record {
    scheme = "https";
    hostname = "risi-dify-e1";
    path = "";
    query = "";
    fragment = "";
  };
}

abbrev pub target : ExternalTargetManifest
target = record {
  schema_version = pos 1;
  target_id = "dify";
  profile = ExecutionProfile.isolated_dify_knowledge;
  base_url = "https://risi-dify-e1";
  server_name = "risi-dify-e1";
  certificate_sha256 = digest;
  ca_certificate_path = "ca.pem";
  api_key_pbkdf2_sha256 = digest;
  health_token_pbkdf2_sha256 = digest;
  api_paths = Fields.end;
  identities = Fields.end;
  request_timeout_seconds = pos 10;
  automatic_retry_count = pos 0;
  indexing_poll_seconds = pos 1;
  indexing_timeout_seconds = pos 300;
  metadata = Fields.end;
}

target_checked : check_target urls target ≡ ok tt
unfolding check_target validate_transport_identity validate_lifecycle_ceilings is_https_origin
    is_identifier is_sha256_digest is_blank
target_checked = refl

target_from_json-target_json_example : target_from_json urls (target_json target) ≡ ok target
target_from_json-target_json_example = target_from_json-target_json urls target target_checked

abbrev pub calendar : Calendar
calendar = record { from_iso = λ s. some 20 }

abbrev pub manifest : CampaignManifest
manifest = record {
  schema_version = pos 1;
  campaign_id = "e1";
  target_manifest_sha256 = digest;
  input_inventory_sha256 = digest;
  world_count = 330;
  observations_per_world = 22;
  total_observations = 7260;
  top_k = 5;
  retrieval_mode = "semantic-vector";
  evidence_relative_path = "evidence";
  expires_on = "2026-12-31";
  validation_only = false;
  metadata = Fields.end;
}

abbrev pub approval : CampaignApproval
approval = record {
  schema_version = pos 1;
  decision_id = "E3-1";
  status = "accepted";
  purpose = CampaignPurpose.e3_campaign;
  campaign_manifest_sha256 = digest;
  target_manifest_sha256 = digest;
  input_inventory_sha256 = digest;
  approved_by = "operator";
  capabilities = campaign_capabilities;
  expires_on = "2026-12-31";
  max_attempts = 1;
  note = "";
}

authorize_campaign-iff_IsCovered_example :
    (d : AuthorizationDecision) × (authorize_campaign hasher calendar 19 manifest target
        (some approval)
      ≡ ok d)
    × ((d.allowed ≡ true) ↔ IsCovered hasher 19 20 20 manifest target approval)
authorize_campaign-iff_IsCovered_example =
    authorize_campaign-iff_IsCovered hasher calendar 19 20 20 manifest target approval refl refl

-- The target's state is the content that it was given last.
abbrev pub echo : ExternalKnowledgeAdapter String
echo = record {
  list_knowledge_bases = λ c s. (ok [], s);
  create_knowledge_base = λ name c s. (ok name, s);
  inspect_knowledge_base = λ id c s. (ok Fields.end, s);
  delete_knowledge_base = λ id c s. (ok tt, s);
  create_document = λ id name content c s. (ok (name, "batch"), content);
  wait_for_indexing = λ id batch c s. (ok tt, s);
  inspect_segments = λ id document c s. (ok (entries (("content", Json.str s) ∷ []) ∷ []), s);
  retrieve = λ id query c s. (
    ok (record {
      hits =
          record {
            segment_id = "s";
            document_id = "m1";
            rank = 1;
            score = finite (pos 1) (pos 0);
            content = s;
          }
          ∷ [];
    }),
    s,
  );
  delete_document = λ id document c s. (ok tt, s);
  read_health = λ c s. (ok (entries (("status", Json.str "healthy") ∷ [])), s);
}

abbrev pub campaign_memory : String → CampaignMemory
campaign_memory id = record { memory_id = id; content = "text" }

abbrev pub world : CampaignWorld
world = record {
  world_id = "w1";
  source_memories = campaign_memory "m1" ∷ campaign_memory "m2" ∷ [];
  benign_pool = campaign_memory "b1" ∷ campaign_memory "b2" ∷ [];
  targeted_pool = campaign_memory "t1" ∷ campaign_memory "t2" ∷ [];
  target_query = "target";
  non_target_query = "other";
}

abbrev pub oracle : EvaluatorOracle
oracle = record { world_id = "w1"; target_memory_id = "m1"; non_target_memory_id = "m2" }

abbrev pairs_of : Result (List (Json × Json)) → List (Json × Json)
pairs_of (ok pairs) = pairs
pairs_of (err e) = []

abbrev pairs : List (Json × Json)
pairs = pairs_of (run_world echo world oracle false "").0

world_returns : (run_world echo world oracle false "").0 ≡ ok pairs
unfolding run_world run_conditions with_knowledge_base run_condition run_checkpoints ingest
    Exec.◌>>◌ Exec.try_finally ingest_one observe observe_query
world_returns = refl

length-run_world_example : length pairs ≡ 11
length-run_world_example = length-run_world echo world oracle false "" pairs world_returns

run_world-Open_example :
    Open ("other" ∷ []) (run_world (watched echo) world oracle false ("", "other" ∷ [])).1
run_world-Open_example = run_world-Open echo world oracle ("", "other" ∷ [])
