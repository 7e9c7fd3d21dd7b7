-- ===== src/Replay.antt =====
-- `_apply_event` and `_replay_events` of src/risi/replay.py: a final state is rebuilt from the
-- initial one and the events of a trace.
pub mod Runs
pub mod Clock
use risi.Prelude.{
  ℕ, ◌+◌, ℤ, String, Bool, true, false, not, ◌&&◌, ◌||◌, Option, none, some, List, [], ◌∷◌, ◌==◌,
  if◌then◌else◌,
}
use risi.Prelude.Failure.{Result, ok, err, artifact_error, ◌>>=◌, ◌>>◌, raise_if}
use risi.Canonical.{Json, Fields, get, entries, strings}
use risi.Models.{EventType, StateSnapshot, TraceEvent, PolicyConfiguration, PolicyIdentity}
use risi.Models.Checks.{check_policy_identity}
use risi.Trace.{Runtime, state_snapshot_hash}

-- `_object`, `_string`, `_integer` on `payload.get(...)`
abbrev pub require_object : Option Json → Result Fields
require_object (some (Json.obj fs)) = ok fs
require_object _ = err (artifact_error "must be an object")

abbrev pub require_string : Option Json → Result String
require_string (some (Json.str s)) = ok s
require_string _ = err (artifact_error "must be a string")

abbrev pub require_integer : Option Json → Result ℤ
require_integer (some (Json.int n)) = ok n
require_integer _ = err (artifact_error "must be an integer")

unfoldable pub policy_from_json : Option Json → Result PolicyConfiguration
policy_from_json value = do
  policy ← require_object value
  name ← require_string (get "name" policy)
  version ← require_string (get "version" policy)
  let identity : PolicyIdentity = record { name = name; version = version }
  check_policy_identity identity
  settings ← require_object (get "settings" policy)
  ok (record { identity = identity; settings = settings })

-- `operation == name`
abbrev pub is_operation : String → Option Json → Bool
is_operation name (some (Json.str s)) = s == name
is_operation name _ = false

unfoldable pub apply_counter : StateSnapshot → Fields → Result StateSnapshot
apply_counter s payload = do
  counter ← require_integer (get "counter" payload)
  matched ← require_string (get "matched_event" payload)
  raise_if (not (matched == "hidden" || matched == "sham"))
      (artifact_error "unsupported RISI-C matched event")
  ok (record s {
    derived_state = entries (("shared_access_counter", Json.int counter) ∷ []);
    next_event_sequence = s.next_event_sequence + 1;
  })

unfoldable pub apply_eclipse : StateSnapshot → Fields → Result StateSnapshot
apply_eclipse s payload = do
  trigger ← require_string (get "trigger_memory_id" payload)
  suppressed ← require_string (get "suppressed_memory_id" payload)
  tenant ← require_string (get "tenant_id" payload)
  count ← require_integer (get "interaction_count" payload)
  ok (record s {
    derived_state = entries (
        ("suppressed_memory_ids", Json.arr (strings (suppressed ∷ [])))
        ∷ ("trigger_memory_ids", Json.arr (strings (trigger ∷ [])))
        ∷ ("tenant_id", Json.str tenant)
        ∷ []);
    policy_state = entries (("interaction_count", Json.int count) ∷ []);
    next_event_sequence = s.next_event_sequence + 1;
  })

unfoldable pub apply_read_side : StateSnapshot → Fields → Result StateSnapshot
apply_read_side s payload =
    if is_operation "set_shared_access_counter" (get "operation" payload)
    then apply_counter s payload
    else if not (is_operation "set_memory_eclipse" (get "operation" payload))
    then err (artifact_error "unsupported read-side state transition")
    else apply_eclipse s payload

-- The state that an event leads to.
unfoldable pub reconstruct : StateSnapshot → EventType → Fields → Result StateSnapshot
reconstruct s EventType.policy_configured payload = do
  policy ← policy_from_json (get "policy" payload)
  ok (record s { policy = policy; next_event_sequence = s.next_event_sequence + 1 })
reconstruct s EventType.read_side_update payload = apply_read_side s payload
reconstruct s _ payload = ok (record s { next_event_sequence = s.next_event_sequence + 1 })

unfoldable pub apply_event : Runtime → StateSnapshot → TraceEvent → Result StateSnapshot
apply_event rt s e = do
  raise_if (not (e.state_hash_before == state_snapshot_hash rt s))
      (artifact_error "event does not apply to the reconstructed state")
  reconstructed ← reconstruct s e.event_type e.payload
  raise_if (not (e.state_hash_after == state_snapshot_hash rt reconstructed))
      (artifact_error "event state transition does not match the recorded state hash")
  ok reconstructed

unfoldable pub replay_events : Runtime → StateSnapshot → List TraceEvent → Result StateSnapshot
replay_events rt s [] = ok s
replay_events rt s (e ∷ es) = do
  reconstructed ← apply_event rt s e
  replay_events rt reconstructed es
