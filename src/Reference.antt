-- ===== src/Reference.antt =====
-- src/risi/adapters/reference.py: the reference memory adapter. Its state is the snapshot and the
-- trace; `_memory_by_id` is always the index of the snapshot's source memories, and is looked up
-- in those. A method that raises keeps what it had written before, so an action returns the
-- adapter beside a result or an exception.
pub mod Scoring
pub mod Policy
pub mod Retrieval
pub mod Operations
pub mod Keeps
pub mod Recorded
use Prim.Native.String
use risi.Prelude.{
  ℕ, ◌+◌, String, Bool, true, false, Option, none, some, List, [], ◌∷◌, ◌++◌, ◌==◌, if◌then◌else◌,
}
use risi.Prelude.Failure.{Error, Result, ok, err, ◌>>=◌, ◌>>◌}
use risi.Prelude.Decimal.{decimal4}
use risi.Canonical.{Fields}
use risi.Models.{
  EventType, EventVisibility, MemoryRecord, StateSnapshot, TraceEvent, TraceEventDraft,
}
use risi.Models.Checks.{check_draft}
use risi.Trace.{Runtime, create_event, state_snapshot_hash, hash_of}
use risi.Trace.Extension.{last_event}

pub record Adapter : Type 0 where
  pub state : StateSnapshot
  pub trace : List TraceEvent

abbrev pub Action : Type 0 → Type 0
Action A = Adapter → Result A × Adapter

module _ {A : Type 0} where
  abbrev pub pure : A → Action A
  pure x a = (ok x, a)

  abbrev pub raise : Error → Action A
  raise e a = (err e, a)

  -- A computation that may raise and writes nothing.
  abbrev pub lift : Result A → Action A
  lift r a = (r, a)

module _ {A B : Type 0} where
  abbrev continue : Result A → (A → Action B) → Action B
  continue (ok x) f a = f x a
  continue (err e) f a = (err e, a)

  -- `then_do m f` runs `m`, and goes on with its value unless it raised.
  unfoldable pub then_do : Action A → (A → Action B) → Action B
  then_do m f a = let (r, a') = m a in continue r f a'

-- `_memory_by_id[memory_id]`: the last record of that identifier.
abbrev pub find_memory : String → List MemoryRecord → Option MemoryRecord
find_memory id [] = none
find_memory id (m ∷ ms) = elim (find_memory id ms) [
  | some found ↦ some found
  | none ↦ if id == m.memory_id then some m else none
]

-- `f"{episode_id}-event-{sequence:04d}"`
unfoldable pub event_label : String → ℕ → String
event_label episode n = String.◌++◌ episode (String.◌++◌ "-event-" (decimal4 n))

unfoldable pub draft_event :
    Runtime
    → StateSnapshot
    → StateSnapshot
    → EventType
    → EventVisibility
    → Fields
    → Option String
    → TraceEventDraft
draft_event rt before after type visibility payload actor = record {
  event_id = event_label before.episode.episode_id before.next_event_sequence;
  episode_id = before.episode.episode_id;
  sequence = before.next_event_sequence;
  logical_time = after.logical_time;
  event_type = type;
  actor_principal_id = actor;
  visibility = visibility;
  state_hash_before = state_snapshot_hash rt before;
  state_hash_after = state_snapshot_hash rt after;
  payload = payload;
}

-- `_commit_event` from the current state: nothing is written if the event is refused.
abbrev pub append_event : StateSnapshot → Adapter → Result TraceEvent → Result TraceEvent × Adapter
append_event after a (ok e) = (ok e, record { state = after; trace = a.trace ++ e ∷ [] })
append_event after a (err x) = (err x, a)

unfoldable pub commit_event :
    Runtime
    → StateSnapshot
    → EventType
    → EventVisibility
    → Fields
    → Option String
    → Action TraceEvent
commit_event rt after type visibility payload actor a =
    let draft = draft_event rt a.state after type visibility payload actor in
    append_event after a
      (check_draft draft >> create_event rt draft (hash_of (last_event none a.trace)))

-- `record_event`
unfoldable pub record_event :
    Runtime → EventType → EventVisibility → Fields → Option String → Action TraceEvent
record_event rt type visibility payload actor a =
    commit_event rt (record a.state { next_event_sequence = a.state.next_event_sequence + 1 }) type
      visibility payload actor a
