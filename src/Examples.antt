-- ===== src/Examples.antt =====
-- Concrete inputs on which the theorems are applied.
pub mod Reference
pub mod Evidence
pub mod Authority
pub mod Decisions
pub mod Confidentiality
pub mod Campaign
pub mod Execution
pub mod Health
pub mod Preflight
pub mod Artifacts
pub mod Runner
use risi.Prelude.{ℕ, String, Bool, true, false, ◌≡◌, refl, none, some, List, [], ◌∷◌}
use risi.Prelude.Text.{is_sha256_digest}
use risi.Canonical.{Json, Fields, entries, nat}
use risi.Canonical.Digest.{Hasher, IsHexHasher}
use risi.Models.{
  EventType, EventVisibility, EpisodeIdentity, PolicyConfiguration, MemoryRecord, MemoryState,
  RetrievalQuery, StateSnapshot, TraceEvent, TraceEventDraft,
}
use risi.Trace.{Runtime}

-- A digest of 64 hexadecimal digits, and a runtime in which every value has it.
abbrev pub digest : String
digest = "aaaaaaaaaaaaaaaaaaaaaaaaaaaaaaaaaaaaaaaaaaaaaaaaaaaaaaaaaaaaaaaa"

abbrev pub hasher : Hasher
hasher = record { sha256 = λ j. digest }

abbrev pub runtime : Runtime
runtime = record { hasher = hasher; casefold = λ s. s }

pub hasher-IsHexHasher : IsHexHasher hasher
unfolding is_sha256_digest
hasher-IsHexHasher = record { hex = λ j. refl }

abbrev pub memory : String → String → String → MemoryRecord
memory id owner content = record {
  memory_id = id;
  scenario_id = "DEP-01";
  tenant_id = "acme";
  owner_id = owner;
  source_id = "handbook";
  content = content;
  access_policy = "alice" ∷ [];
  logical_created_at = 0;
  logical_valid_from = 0;
  logical_valid_until = none;
  system_criticality = none;
  state = MemoryState.current;
  metadata = Fields.end;
}

abbrev pub pure_read : ℕ → PolicyConfiguration
pure_read k = record {
  identity = record { name = "pure-read"; version = "1" };
  settings = entries (("top_k", nat k) ∷ ("read_side_updates", Json.bool false) ∷ []);
}

abbrev pub snapshot : StateSnapshot
snapshot = record {
  snapshot_version = 1;
  episode = record { scenario_id = "DEP-01"; episode_id = "ep"; seed = 7 };
  logical_time = 0;
  next_event_sequence = 0;
  source_memories =
      memory "m1" "alice" "deploy needs two approvals" ∷ memory "m2" "bob" "lunch at noon" ∷ [];
  derived_state = Fields.end;
  indexes = Fields.end;
  queues = Fields.end;
  policy = pure_read 2;
  policy_state = Fields.end;
}

abbrev pub query : RetrievalQuery
query = record { principal_id = "alice"; tenant_id = "acme"; text = "deploy approvals"; top_k = 1 }

abbrev pub draft : TraceEventDraft
draft = record {
  event_id = "ep-event-0000";
  episode_id = "ep";
  sequence = 0;
  logical_time = 0;
  event_type = EventType.decision;
  actor_principal_id = none;
  visibility = EventVisibility.both;
  state_hash_before = digest;
  state_hash_after = digest;
  payload = entries (("action", Json.str "wait") ∷ []);
}

-- The event of that draft at the head of a trace.
abbrev pub event : TraceEvent
event = record {
  event_id = "ep-event-0000";
  episode_id = "ep";
  sequence = 0;
  logical_time = 0;
  event_type = EventType.decision;
  actor_principal_id = none;
  visibility = EventVisibility.both;
  state_hash_before = digest;
  state_hash_after = digest;
  previous_event_hash = none;
  event_hash = digest;
  payload = entries (("action", Json.str "wait") ∷ []);
}
