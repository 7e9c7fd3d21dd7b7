-- ===== src/Campaign/Load.antt =====
-- `load_campaign_worlds` and `load_evaluator_oracles` of src/risi/campaign.py, from the JSON values of
-- the lines of the file. Reading and parsing the file is outside.
use risi.Prelude.{
  String, Bool, false, not, Option, none, some, List, [], ◌∷◌, ◌==◌, all_unique, map, if◌then◌else◌,
}
use risi.Prelude.Failure.{Error, Result, ok, err, operator_input, ◌>>=◌, ◌>>◌, raise_if}
use risi.Canonical.{Json, Items, arr, str, get, nat}
use risi.External.Load.{exact_fields, require_str}
use risi.Confidentiality.Differences.{same_leaf}
use risi.Campaign.{
  CampaignMemory, CampaignWorld, EvaluatorOracle, check_campaign_memory, check_world,
}

abbrev checked_memory : CampaignMemory → Result CampaignMemory
checked_memory m = check_campaign_memory m >> ok m

abbrev bad_memory_field : Error
bad_memory_field = operator_input "campaign memory fields must be strings"

-- `_campaign_memory`
unfoldable pub campaign_memory : Json → Result CampaignMemory
campaign_memory j = do
  fs ←
      exact_fields j ("memory_id" ∷ "content" ∷ [])
        (operator_input "campaign memory has an invalid field set")
  memory_id ← require_str bad_memory_field (get "memory_id" fs)
  content ← require_str bad_memory_field (get "content" fs)
  checked_memory (record { memory_id = memory_id; content = content })

abbrev pub campaign_memories : Items → Result (List CampaignMemory)
campaign_memories Items.nil = ok []
campaign_memories (Items.cons x xs) = do
  m ← campaign_memory x
  ms ← campaign_memories xs
  ok (m ∷ ms)

-- One of the arrays of a world.
abbrev pub memory_array : Option Json → Result (List CampaignMemory)
memory_array (some (arr xs)) = campaign_memories xs
memory_array j = err (operator_input "campaign world array must be an array")

-- `value["schema_version"] != 1`, Python's comparison.
abbrev pub is_version_one : Option Json → Bool
is_version_one none = false
is_version_one (some v) = same_leaf v (nat 1)

abbrev checked_world : CampaignWorld → Result CampaignWorld
checked_world w = check_world w >> ok w

abbrev pub world_fields : List String
world_fields =
    "schema_version" ∷ "world_id" ∷ "source_memories" ∷ "benign_pool" ∷ "targeted_pool"
    ∷ "target_query" ∷ "non_target_query" ∷ []

abbrev bad_world_field : Error
bad_world_field = operator_input "campaign world identity and queries must be strings"

-- One turn of the loop of `load_campaign_worlds`.
unfoldable pub campaign_world : Json → Result CampaignWorld
campaign_world j = do
  fs ← exact_fields j world_fields (operator_input "campaign world has an invalid field set")
  raise_if (not (is_version_one (get "schema_version" fs)))
      (operator_input "campaign world schema_version must be 1")
  sources ← memory_array (get "source_memories" fs)
  benign ← memory_array (get "benign_pool" fs)
  targeted ← memory_array (get "targeted_pool" fs)
  world_id ← require_str bad_world_field (get "world_id" fs)
  target_query ← require_str bad_world_field (get "target_query" fs)
  non_target_query ← require_str bad_world_field (get "non_target_query" fs)
  checked_world (record {
    world_id = world_id;
    source_memories = sources;
    benign_pool = benign;
    targeted_pool = targeted;
    target_query = target_query;
    non_target_query = non_target_query;
  })

abbrev pub campaign_world_list : List Json → Result (List CampaignWorld)
campaign_world_list [] = ok []
campaign_world_list (j ∷ js) = do w ← campaign_world j; ws ← campaign_world_list js; ok (w ∷ ws)

abbrev pub world_ids : List CampaignWorld → List String
world_ids ws = map (λ w. w.world_id) ws

unfoldable pub load_campaign_worlds : List Json → Result (List CampaignWorld)
load_campaign_worlds js = do
  ws ← campaign_world_list js
  raise_if (not (all_unique (world_ids ws))) (operator_input "campaign world IDs must be unique")
  ok ws

-- `isinstance(item, str) and item`
abbrev pub nonempty_str : Option Json → Result String
nonempty_str (some (str s)) =
    if s == ""
    then err (operator_input "evaluator oracle fields must be nonempty strings")
    else ok s
nonempty_str j = err (operator_input "evaluator oracle fields must be nonempty strings")

unfoldable pub evaluator_oracle : Json → Result EvaluatorOracle
evaluator_oracle j = do
  fs ←
      exact_fields j
        ("schema_version" ∷ "world_id" ∷ "target_memory_id" ∷ "non_target_memory_id" ∷ [])
        (operator_input "evaluator oracle has an invalid field set")
  raise_if (not (is_version_one (get "schema_version" fs)))
      (operator_input "evaluator oracle schema_version must be 1")
  world_id ← nonempty_str (get "world_id" fs)
  target ← nonempty_str (get "target_memory_id" fs)
  non_target ← nonempty_str (get "non_target_memory_id" fs)
  ok (record { world_id = world_id; target_memory_id = target; non_target_memory_id = non_target })

abbrev pub evaluator_oracle_list : List Json → Result (List EvaluatorOracle)
evaluator_oracle_list [] = ok []
evaluator_oracle_list (j ∷ js) = do
  o ← evaluator_oracle j
  os ← evaluator_oracle_list js
  ok (o ∷ os)

abbrev pub oracle_ids : List EvaluatorOracle → List String
oracle_ids os = map (λ o. o.world_id) os

unfoldable pub load_evaluator_oracles : List Json → Result (List EvaluatorOracle)
load_evaluator_oracles js = do
  os ← evaluator_oracle_list js
  raise_if (not (all_unique (oracle_ids os)))
      (operator_input "evaluator oracle world IDs must be unique")
  ok os
