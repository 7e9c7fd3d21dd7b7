-- ===== src/Trace.antt =====
-- src/risi/trace.py: events linked by hashes, their creation and their verification.
pub mod Extension
pub mod Tamper
pub mod Visibility
use risi.Prelude.{
  ℕ, suc, ◌+◌, String, Bool, true, false, not, ◌&&◌, ◌||◌, Option, none, some, List, [], ◌∷◌, ◌==◌,
  eqb, ltb, elem, if◌then◌else◌,
}
use risi.Prelude.Failure.{
  Result, ok, err, trace_integrity, visibility_violation, ◌>>=◌, ◌>>◌, raise_if,
}
use risi.Prelude.Text.{is_sha256_digest}
use risi.Canonical.{Json, Fields, Value, Values, Pairs, freeze, obj, str, entries, str_or_null, nat}
use risi.Canonical.Digest.{Hasher, canonical_sha256}
use risi.Models.{
  EventVisibility, attacker, evaluator, both, StateSnapshot, TraceEvent, TraceEventDraft,
}
use risi.Models.Encode.{visibility_value, event_type_value, snapshot_json}

-- What the program takes from Python's standard library and does not define: the digest of
-- canonical JSON, and `str.casefold`.
pub record Runtime : Type 0 where
  pub hasher : Hasher
  pub casefold : String → String

abbrev pub evaluator_only_keys : List String
evaluator_only_keys =
    "attack_assignment" ∷ "decision_oracle" ∷ "evaluator_only" ∷ "expected_outcome"
    ∷ "memory_oracles" ∷ "oracle_applicability" ∷ "oracle_criticality" ∷ "oracle_truth" ∷ []

unfoldable pub state_snapshot_hash : Runtime → StateSnapshot → String
state_snapshot_hash rt s = canonical_sha256 rt.hasher (snapshot_json s)

pub require_hash : String → Result (Unit {0})
require_hash value =
    raise_if (not (is_sha256_digest value)) (trace_integrity "must be a lowercase SHA-256 digest")

-- Mappings and lists are searched; a tuple is neither.
unfoldable mutual
  pub contains_evaluator_only_key : Runtime → Value → Bool
  contains_evaluator_only_key rt (Value.mapping ps) = pairs_contain rt ps
  contains_evaluator_only_key rt (Value.read_only ps) = pairs_contain rt ps
  contains_evaluator_only_key rt (Value.list vs) = values_contain rt vs
  contains_evaluator_only_key rt _ = false

  pub values_contain : Runtime → Values → Bool
  values_contain rt Values.nil = false
  values_contain rt (Values.cons v vs) = contains_evaluator_only_key rt v || values_contain rt vs

  pub pairs_contain : Runtime → Pairs → Bool
  pairs_contain rt Pairs.end = false
  pairs_contain rt (Pairs.pair k v ps) =
      elem (rt.casefold k) evaluator_only_keys
      || contains_evaluator_only_key rt v
      || pairs_contain rt ps
  pairs_contain rt (Pairs.odd_pair v ps) = contains_evaluator_only_key rt v || pairs_contain rt ps

abbrev pub attacker_sees : EventVisibility → Bool
attacker_sees attacker = true
attacker_sees both = true
attacker_sees evaluator = false

-- The payload of a constructed event is frozen.
unfoldable pub breaks_boundary : Runtime → EventVisibility → Fields → Bool
breaks_boundary rt v payload =
    attacker_sees v && contains_evaluator_only_key rt (freeze (obj payload))

pub require_visibility_boundary : Runtime → EventVisibility → Fields → Result (Unit {0})
require_visibility_boundary rt v payload =
    raise_if (breaks_boundary rt v payload)
      (visibility_violation "attacker-visible event contains evaluator-only fields")

unfoldable pub event_material : TraceEventDraft → Option String → Json
event_material d previous = obj (
    entries (
      ("event_id", str d.event_id)
      ∷ ("episode_id", str d.episode_id)
      ∷ ("sequence", nat d.sequence)
      ∷ ("logical_time", nat d.logical_time)
      ∷ ("event_type", str (event_type_value d.event_type))
      ∷ ("actor_principal_id", str_or_null d.actor_principal_id)
      ∷ ("visibility", str (visibility_value d.visibility))
      ∷ ("state_hash_before", str d.state_hash_before)
      ∷ ("state_hash_after", str d.state_hash_after)
      ∷ ("previous_event_hash", str_or_null previous)
      ∷ ("payload", obj d.payload)
      ∷ []))

-- The fields that an event shares with its draft.
abbrev pub draft_of : TraceEvent → TraceEventDraft
draft_of e = record {
  event_id = e.event_id;
  episode_id = e.episode_id;
  sequence = e.sequence;
  logical_time = e.logical_time;
  event_type = e.event_type;
  actor_principal_id = e.actor_principal_id;
  visibility = e.visibility;
  state_hash_before = e.state_hash_before;
  state_hash_after = e.state_hash_after;
  payload = e.payload;
}

-- The event of a draft, with its place in the chain.
unfoldable pub seal : Runtime → TraceEventDraft → Option String → TraceEvent
seal rt d previous = record {
  event_id = d.event_id;
  episode_id = d.episode_id;
  sequence = d.sequence;
  logical_time = d.logical_time;
  event_type = d.event_type;
  actor_principal_id = d.actor_principal_id;
  visibility = d.visibility;
  state_hash_before = d.state_hash_before;
  state_hash_after = d.state_hash_after;
  previous_event_hash = previous;
  event_hash = canonical_sha256 rt.hasher (event_material d previous);
  payload = d.payload;
}

abbrev pub require_optional_hash : Option String → Result (Unit {0})
unfolding require_hash
require_optional_hash none = ok tt
require_optional_hash (some value) = require_hash value

unfoldable pub create_event : Runtime → TraceEventDraft → Option String → Result TraceEvent
unfolding require_hash require_visibility_boundary seal
create_event rt d previous = do
  require_hash d.state_hash_before
  require_hash d.state_hash_after
  require_optional_hash previous
  require_visibility_boundary rt d.visibility d.payload
  ok (seal rt d previous)

abbrev pub hash_of : Option TraceEvent → Option String
hash_of none = none
hash_of (some e) = some e.event_hash

abbrev pub same_text? : Option String → Option String → Bool
same_text? none none = true
same_text? (some s) (some t) = s == t
same_text? _ _ = false

-- `previous is not None and test(previous)`
abbrev pub previous_is : Option TraceEvent → (TraceEvent → Bool) → Bool
previous_is none test = false
previous_is (some p) test = test p

-- What `_verify_event` raises, the events before this one given by the last of them and by the
-- set of their identifiers.
unfoldable pub verify_event :
    Runtime → TraceEvent → String → ℕ → Option TraceEvent → List String → Result (Unit {0})
unfolding require_hash require_visibility_boundary
verify_event rt e episode expected previous ids = do
  require_hash e.state_hash_before
  require_hash e.state_hash_after
  require_hash e.event_hash
  raise_if (not (e.episode_id == episode)) (trace_integrity "all events must belong to one episode")
  raise_if (not (eqb e.sequence expected))
      (trace_integrity "event sequence must be contiguous and zero-based")
  raise_if (elem e.event_id ids) (trace_integrity "event IDs must be unique")
  raise_if (not (same_text? e.previous_event_hash (hash_of previous)))
      (trace_integrity "previous event hash does not match the chain")
  raise_if (previous_is previous (λ p. ltb e.logical_time p.logical_time))
      (trace_integrity "logical time must not decrease")
  raise_if (previous_is previous (λ p. not (e.state_hash_before == p.state_hash_after)))
      (trace_integrity "adjacent event state hashes are discontinuous")
  require_visibility_boundary rt e.visibility e.payload
  raise_if
      (not (
        e.event_hash
        == canonical_sha256 rt.hasher (event_material (draft_of e) (hash_of previous))))
      (trace_integrity "event hash does not match canonical event material")

-- The loop of `verify_trace`.
unfoldable pub verify_from :
    Runtime → String → ℕ → Option TraceEvent → List String → List TraceEvent → Result (Unit {0})
verify_from rt episode n previous ids [] = ok tt
verify_from rt episode n previous ids (e ∷ es) = do
  verify_event rt e episode n previous ids
  verify_from rt episode (suc n) (some e) (e.event_id ∷ ids) es

unfoldable pub verify_trace : Runtime → List TraceEvent → Result (Unit {0})
unfolding verify_from
verify_trace rt [] = ok tt
verify_trace rt (e ∷ es) = verify_from rt e.episode_id 0 none [] (e ∷ es)
