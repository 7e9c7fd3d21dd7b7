-- ===== src/Campaign/World.antt =====
-- `CampaignExecutor._ingest`, `_observe` and `_run_world` of src/risi/campaign.py. The cancellation
-- token does not change while a world runs: it is the Boolean `cancelled`. The observation and the
-- evaluation that one checkpoint appends to the two lists are a pair here.
pub mod Shape
pub mod Cleanup
use Prim.Native.String
use risi.Prelude.{
  ℕ, ◌-◌, ◌+◌, String, Bool, true, false, not, Option, none, some, List, [], ◌∷◌, ◌++◌, ◌==◌, take,
  drop, map, is_none, if◌then◌else◌,
}
use risi.Prelude.Failure.{
  Result, ok, err, operator_input, transport_error, index_error, key_error, raise_if,
}
use risi.Prelude.Exec.{Exec, pure, lift, ◌>>=◌, ◌>>◌, try_finally}
use risi.Canonical.{Json, Fields, obj, str, bool, entries, nat, nat_or_null, get}
use risi.External.{
  ExternalKnowledgeAdapter, ExternalRetrievalHit, ExternalRetrievalResult, external_result_json,
}
use risi.Campaign.{CampaignMemory, CampaignWorld, EvaluatorOracle}

-- `segments[0].get("content")`
abbrev pub first_content : List Fields → Result (Option Json)
first_content [] = err (index_error "tuple index out of range")
first_content (s ∷ ss) = ok (get "content" s)

abbrev pub is_content : String → Option Json → Bool
is_content content (some (str s)) = s == content
is_content content j = false

-- `document_ids`, with the last insertion first.
abbrev pub DocumentIds : Type 0
DocumentIds = List (String × String)

-- `document_ids[memory_id]`
abbrev pub document_of : String → DocumentIds → Result String
document_of id [] = err (key_error id)
document_of id ((k, d) ∷ rest) = if k == id then ok d else document_of id rest

-- The rank of the first hit of that document.
abbrev pub rank_of : String → List ExternalRetrievalHit → Option ℕ
rank_of document [] = none
rank_of document (x ∷ xs) = if x.document_id == document then some x.rank else rank_of document xs

unfoldable pub recall_json : Option ℕ → Json
recall_json rank = obj (
    entries
      (("critical_recalled", bool (not (is_none rank))) ∷ ("critical_rank", nat_or_null rank) ∷ []))

unfoldable pub record_json : CampaignWorld → String → ℕ → Json → Json → Json
record_json w condition budget target non_target = obj (
    entries (
      ("schema_version", nat 1)
      ∷ ("world_id", str w.world_id)
      ∷ ("condition", str condition)
      ∷ ("budget", nat budget)
      ∷ ("target", target)
      ∷ ("non_target", non_target)
      ∷ []))

abbrev pub five_budgets : List ℕ
five_budgets = 5 ∷ 10 ∷ 15 ∷ 20 ∷ 25 ∷ []

module _ {W : Type 0} (adapter : ExternalKnowledgeAdapter W) where
  -- One turn of the loop of `_ingest`.
  unfoldable pub ingest_one : String → CampaignMemory → Bool → Exec W String
  ingest_one dataset m cancelled = do
    ids ← adapter.create_document dataset m.memory_id m.content cancelled
    adapter.wait_for_indexing dataset ids.1 cancelled
    segments ← adapter.inspect_segments dataset ids.0 cancelled
    content ← lift (first_content segments)
    lift (
        raise_if (not (is_content m.content content))
          (transport_error "source_mismatch" "stored chunk differs from canonical source"))
    pure ids.0

  -- `_ingest`, in front of the documents that are there.
  unfoldable pub ingest : String → List CampaignMemory → Bool → DocumentIds → Exec W DocumentIds
  ingest dataset [] cancelled known = pure known
  ingest dataset (m ∷ ms) cancelled known = do
    id ← ingest_one dataset m cancelled
    ingest dataset ms cancelled ((m.memory_id, id) ∷ known)

  -- One turn of the loop of `_observe`: the observation and the evaluation of a query.
  unfoldable pub observe_query :
      String → String → String → DocumentIds → Bool → Exec W (Json × Json)
  observe_query dataset query expected known cancelled = do
    result ← adapter.retrieve dataset query cancelled
    document ← lift (document_of expected known)
    pure (external_result_json result, recall_json (rank_of document result.hits))

  unfoldable pub observe :
      CampaignWorld
      → EvaluatorOracle
      → String
      → String
      → ℕ
      → DocumentIds
      → Bool
      → Exec W (Json × Json)
  observe w o dataset condition budget known cancelled = do
    target ← observe_query dataset w.target_query o.target_memory_id known cancelled
    other ← observe_query dataset w.non_target_query o.non_target_memory_id known cancelled
    pure (
      record_json w condition budget target.0 other.0,
      record_json w condition budget target.1 other.1,
    )

  -- The loop over the checkpoints of a condition.
  unfoldable pub run_checkpoints :
      CampaignWorld
      → EvaluatorOracle
      → String
      → String
      → List CampaignMemory
      → Bool
      → DocumentIds
      → ℕ
      → List ℕ
      → Exec W (List (Json × Json))
  run_checkpoints w o dataset condition pool cancelled known previous [] = pure []
  run_checkpoints w o dataset condition pool cancelled known previous (budget ∷ budgets) = do
    documents ← ingest dataset (take (budget - previous) (drop previous pool)) cancelled known
    pair ← observe w o dataset condition budget documents cancelled
    rest ← run_checkpoints w o dataset condition pool cancelled documents budget budgets
    pure (pair ∷ rest)

  -- `if not token.cancelled: delete_knowledge_base(dataset_id, token)`
  abbrev pub delete_unless : Bool → String → Exec W (Unit {0})
  delete_unless true dataset = pure tt
  delete_unless false dataset = adapter.delete_knowledge_base dataset false

  -- A knowledge base is created, used, and deleted in a `finally`.
  unfoldable pub with_knowledge_base : {A : Type 0} → String → Bool → (String → Exec W A) → Exec W A
  with_knowledge_base name cancelled body = do
    dataset ← adapter.create_knowledge_base name cancelled
    try_finally (body dataset) (delete_unless cancelled dataset)

  -- The `try` block of `_run_world`.
  unfoldable pub run_condition :
      CampaignWorld
      → EvaluatorOracle
      → Bool
      → String
      → List CampaignMemory
      → List ℕ
      → String
      → Exec W (List (Json × Json))
  run_condition w o cancelled condition pool checkpoints dataset = do
    documents ← ingest dataset w.source_memories cancelled []
    pairs ← run_checkpoints w o dataset condition pool cancelled documents 0 checkpoints
    adapter.inspect_knowledge_base dataset cancelled
    pure pairs

  unfoldable pub run_conditions :
      CampaignWorld
      → EvaluatorOracle
      → Bool
      → List (String × List CampaignMemory × List ℕ)
      → Exec W (List (Json × Json))
  run_conditions w o cancelled [] = pure []
  run_conditions w o cancelled ((condition, pool, checkpoints) ∷ later) = do
    pairs ←
        with_knowledge_base (String.◌++◌ w.world_id (String.◌++◌ "-" condition)) cancelled
          (run_condition w o cancelled condition pool checkpoints)
    rest ← run_conditions w o cancelled later
    pure (pairs ++ rest)

  -- `_run_world`
  unfoldable pub run_world : CampaignWorld → EvaluatorOracle → Bool → Exec W (List (Json × Json))
  run_world w o cancelled = do
    lift (
        raise_if (not (o.world_id == w.world_id))
          (operator_input "oracle world does not match target-visible world"))
    run_conditions w o cancelled (
        ("baseline", [], 0 ∷ [])
        ∷ ("benign", w.benign_pool, five_budgets)
        ∷ ("targeted", w.targeted_pool, five_budgets)
        ∷ [])
