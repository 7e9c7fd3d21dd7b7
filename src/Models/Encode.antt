-- ===== src/Models/Encode.antt =====
-- The `to_json` methods of src/risi/models.py and the values of its string enumerations.
use risi.Prelude.{String, List, [], ◌∷◌, pos, negsuc}
use risi.Canonical.{
  Json, Items, real, str, arr, obj, nil, cons, entries, strings, str_or_null, nat, nat_or_null,
}
use risi.Models.{
  EventVisibility, attacker, evaluator, both, EventType, MemoryState, EpisodeIdentity,
  PolicyConfiguration, MemoryRecord, RetrievalQuery, RetrievalHit, RetrievalResult,
  ProposedDecision, StateSnapshot,
}

abbrev pub visibility_value : EventVisibility → String
visibility_value attacker = "attacker"
visibility_value evaluator = "evaluator"
visibility_value both = "both"

abbrev pub event_type_value : EventType → String
event_type_value EventType.episode_started = "episode_started"
event_type_value EventType.policy_configured = "policy_configured"
event_type_value EventType.memory_ingested = "memory_ingested"
event_type_value EventType.memory_read = "memory_read"
event_type_value EventType.read_side_update = "read_side_update"
event_type_value EventType.retrieval_completed = "retrieval_completed"
event_type_value EventType.retrieval_set_change = "retrieval_set_change"
event_type_value EventType.context_assembled = "context_assembled"
event_type_value EventType.critical_memory_suppression = "critical_memory_suppression"
event_type_value EventType.admission_decision = "admission_decision"
event_type_value EventType.deduplication_decision = "deduplication_decision"
event_type_value EventType.consolidation = "consolidation"
event_type_value EventType.eviction = "eviction"
event_type_value EventType.archive = "archive"
event_type_value EventType.trial_reset = "trial_reset"
event_type_value EventType.state_hash = "state_hash"
event_type_value EventType.invariant_violation = "invariant_violation"
event_type_value EventType.decision = "decision"
event_type_value EventType.oracle_evaluated = "oracle_evaluated"
event_type_value EventType.episode_completed = "episode_completed"

abbrev pub memory_state_value : MemoryState → String
memory_state_value MemoryState.current = "current"
memory_state_value MemoryState.superseded = "superseded"
memory_state_value MemoryState.hidden = "hidden"
memory_state_value MemoryState.archived = "archived"
memory_state_value MemoryState.deleted = "deleted"

unfoldable pub episode_json : EpisodeIdentity → Json
episode_json e = obj (
    entries (
      ("scenario_id", str e.scenario_id)
      ∷ ("episode_id", str e.episode_id)
      ∷ ("seed", nat e.seed)
      ∷ []))

unfoldable pub policy_json : PolicyConfiguration → Json
policy_json p = obj (
    entries (
      ("name", str p.identity.name)
      ∷ ("version", str p.identity.version)
      ∷ ("settings", obj p.settings)
      ∷ []))

unfoldable pub memory_json : MemoryRecord → Json
memory_json m = obj (
    entries (
      ("memory_id", str m.memory_id)
      ∷ ("scenario_id", str m.scenario_id)
      ∷ ("tenant_id", str m.tenant_id)
      ∷ ("owner_id", str m.owner_id)
      ∷ ("source_id", str m.source_id)
      ∷ ("content", str m.content)
      ∷ ("access_policy", arr (strings m.access_policy))
      ∷ ("logical_created_at", nat m.logical_created_at)
      ∷ ("logical_valid_from", nat m.logical_valid_from)
      ∷ ("logical_valid_until", nat_or_null m.logical_valid_until)
      ∷ ("system_criticality", str_or_null m.system_criticality)
      ∷ ("state", str (memory_state_value m.state))
      ∷ ("metadata", obj m.metadata)
      ∷ []))

unfoldable pub query_json : RetrievalQuery → Json
query_json q = obj (
    entries (
      ("principal_id", str q.principal_id)
      ∷ ("tenant_id", str q.tenant_id)
      ∷ ("text", str q.text)
      ∷ ("top_k", nat q.top_k)
      ∷ []))

unfoldable pub hit_json : RetrievalHit → Json
hit_json h = obj (
    entries (
      ("memory_id", str h.memory_id)
      ∷ ("rank", nat h.rank)
      ∷ ("score", real (pos h.score) (negsuc 11))
      ∷ []))

abbrev pub hits_json : List RetrievalHit → Items
unfolding hit_json
hits_json [] = nil
hits_json (h ∷ hs) = cons (hit_json h) (hits_json hs)

unfoldable pub result_json : RetrievalResult → Json
unfolding hit_json
result_json r =
    obj (entries (("hits", arr (hits_json r.hits)) ∷ ("observations", obj r.observations) ∷ []))

unfoldable pub decision_json : ProposedDecision → Json
decision_json d = obj (
    entries (
      ("decision_id", str d.decision_id)
      ∷ ("episode_id", str d.episode_id)
      ∷ ("action", str d.action)
      ∷ ("rationale_memory_ids", arr (strings d.rationale_memory_ids))
      ∷ ("parameters", obj d.parameters)
      ∷ []))

unfoldable pub memories_json : List MemoryRecord → Items
unfolding memory_json
memories_json [] = nil
memories_json (m ∷ ms) = cons (memory_json m) (memories_json ms)

unfoldable pub snapshot_json : StateSnapshot → Json
unfolding episode_json policy_json memories_json
snapshot_json s = obj (
    entries (
      ("snapshot_version", nat s.snapshot_version)
      ∷ ("episode", episode_json s.episode)
      ∷ ("logical_time", nat s.logical_time)
      ∷ ("next_event_sequence", nat s.next_event_sequence)
      ∷ ("source_memories", arr (memories_json s.source_memories))
      ∷ ("derived_state", obj s.derived_state)
      ∷ ("indexes", obj s.indexes)
      ∷ ("queues", obj s.queues)
      ∷ ("policy", policy_json s.policy)
      ∷ ("policy_state", obj s.policy_state)
      ∷ []))
