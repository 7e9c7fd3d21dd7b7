-- ===== src/Models.antt =====
-- The data of src/risi/models.py: target-visible records and the events of a trace. The checks of
-- the constructors are in Models/Checks, the `to_json` methods in Models/Encode. A field that its
-- constructor requires to be nonnegative is a natural number here. A frozen JSON object is held as
-- the normalized object that it was frozen from.
pub mod Encode
pub mod Checks
use risi.Prelude.{ℕ, String, Option, List, map}
use risi.Canonical.{Fields}

pub data EventVisibility : Type 0 where
  attacker evaluator both : EventVisibility

pub data EventType : Type 0 where
  episode_started policy_configured memory_ingested memory_read read_side_update : EventType
  retrieval_completed retrieval_set_change context_assembled : EventType
  critical_memory_suppression admission_decision deduplication_decision consolidation : EventType
  eviction archive trial_reset state_hash invariant_violation decision : EventType
  oracle_evaluated episode_completed : EventType

pub data MemoryState : Type 0 where
  current superseded hidden archived deleted : MemoryState

pub record EpisodeIdentity : Type 0 where
  pub scenario_id : String
  pub episode_id : String
  pub seed : ℕ

pub record PolicyIdentity : Type 0 where
  pub name : String
  pub version : String

pub record PolicyConfiguration : Type 0 where
  pub identity : PolicyIdentity
  pub settings : Fields

pub record MemoryRecord : Type 0 where
  pub memory_id : String
  pub scenario_id : String
  pub tenant_id : String
  pub owner_id : String
  pub source_id : String
  pub content : String
  pub access_policy : List String
  pub logical_created_at : ℕ
  pub logical_valid_from : ℕ
  pub logical_valid_until : Option ℕ
  pub system_criticality : Option String
  pub state : MemoryState
  pub metadata : Fields

pub record RetrievalQuery : Type 0 where
  pub principal_id : String
  pub tenant_id : String
  pub text : String
  pub top_k : ℕ

-- The reference adapter's scores are round(overlap / total, 12): the number of units of 10^-12.
pub record RetrievalHit : Type 0 where
  pub memory_id : String
  pub rank : ℕ
  pub score : ℕ

pub record RetrievalResult : Type 0 where
  pub hits : List RetrievalHit
  pub observations : Fields

pub record ProposedDecision : Type 0 where
  pub decision_id : String
  pub episode_id : String
  pub action : String
  pub rationale_memory_ids : List String
  pub parameters : Fields

pub record StateSnapshot : Type 0 where
  pub snapshot_version : ℕ
  pub episode : EpisodeIdentity
  pub logical_time : ℕ
  pub next_event_sequence : ℕ
  pub source_memories : List MemoryRecord
  pub derived_state : Fields
  pub indexes : Fields
  pub queues : Fields
  pub policy : PolicyConfiguration
  pub policy_state : Fields

pub record TraceEventDraft : Type 0 where
  pub event_id : String
  pub episode_id : String
  pub sequence : ℕ
  pub logical_time : ℕ
  pub event_type : EventType
  pub actor_principal_id : Option String
  pub visibility : EventVisibility
  pub state_hash_before : String
  pub state_hash_after : String
  pub payload : Fields

pub record TraceEvent : Type 0 where
  pub event_id : String
  pub episode_id : String
  pub sequence : ℕ
  pub logical_time : ℕ
  pub event_type : EventType
  pub actor_principal_id : Option String
  pub visibility : EventVisibility
  pub state_hash_before : String
  pub state_hash_after : String
  pub previous_event_hash : Option String
  pub event_hash : String
  pub payload : Fields

-- `[memory.memory_id for memory in memories]`
abbrev pub memory_ids : List MemoryRecord → List String
memory_ids ms = map (λ m. m.memory_id) ms

abbrev pub hit_ids : List RetrievalHit → List String
hit_ids hs = map (λ h. h.memory_id) hs
