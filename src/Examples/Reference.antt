-- ===== src/Examples/Reference.antt =====
-- Runs of the reference adapter and their replay on concrete inputs.
use risi.Prelude.{none, pos, ◌≡◌, ◌≤◌, refl, List, [], ◌∷◌, All, length}
use risi.Prelude.Failure.{ok}
use risi.Prelude.Text.{is_blank, is_sha256_digest}
use risi.Prelude.Decimal.{decimal4}
use risi.Canonical.{Fields, entries, Json, nat, freeze}
use risi.Canonical.Digest.{canonical_sha256, Collision}
use risi.Models.Encode.{query_json, result_json}
use risi.Models.{EventType, EventVisibility, TraceEvent, RetrievalHit, RetrievalResult}
use risi.Models.Checks.{check_draft, check_result}
use risi.Trace.{create_event, breaks_boundary, state_snapshot_hash, contains_evaluator_only_key}
use risi.Reference.{Adapter, then_do, commit_event, record_event, draft_event, event_label}
use risi.Reference.Policy.{validate_policy_configuration}
use risi.Reference.Scoring.{score}
use risi.Reference.Retrieval.{
  is_retrievable, score_all, select, kept, suppressed_memory_ids, apply_risi_probe_ranking,
}
use risi.Reference.Keeps.{left_by}
use risi.Reference.Retrieval.PureRead.{OnlyCounted, retrieve-OnlyCounted}
use risi.Reference.Retrieval.Served.{retrieve-IsServed}
use risi.Reference.Retrieval.Recalled.{IsServed}
use risi.Reference.Retrieval.Update.{read_side_update}
use risi.Reference.Operations.{
  retrieve, configure_policy, apply_read_side_update, commit_update, record_set_change,
}
use risi.Reference.Recorded.{IsRecorded}
use risi.Reference.Recorded.Runs.{Call, run, perform, run-IsRecorded, run-SameSource, SameSource}
use risi.Replay.{apply_event, reconstruct, replay_events}
use risi.Replay.Clock.{apply_event-clocked}
use risi.Reference.Keeps.Transition.{clocked, counted}
use risi.Replay.Runs.{replay_events-run}
use risi.Examples.{event, hasher, runtime, hasher-IsHexHasher, snapshot, query, pure_read}

abbrev adapter : Adapter
adapter = record { state = snapshot; trace = [] }

abbrev calls : List Call
calls =
    Call.configure_call (pure_read 1)
    ∷ Call.retrieve_call query
    ∷ Call.record_call EventType.episode_started EventVisibility.both Fields.end none
    ∷ Call.clock_call (pos 3)
    ∷ Call.retrieve_call query
    ∷ []

run-IsRecorded_example : IsRecorded runtime (run runtime calls adapter)
run-IsRecorded_example = run-IsRecorded runtime snapshot calls hasher-IsHexHasher refl

run-SameSource_example : SameSource adapter (run runtime calls adapter)
run-SameSource_example = run-SameSource runtime adapter calls

abbrev timeless_calls : List Call
timeless_calls =
    Call.record_call EventType.episode_started EventVisibility.both Fields.end none
    ∷ Call.configure_call (pure_read 1)
    ∷ Call.retrieve_call query
    ∷ Call.record_call EventType.episode_completed EventVisibility.evaluator Fields.end none
    ∷ []

-- Every one of these calls is recorded by one event.
timeless_events : length (run runtime timeless_calls adapter).trace ≡ 4
unfolding run perform retrieve configure_policy then_do commit_event record_event check_draft
    create_event is_blank apply_read_side_update commit_update record_set_change read_side_update
    select score_all score kept is_retrievable suppressed_memory_ids apply_risi_probe_ranking
    check_result validate_policy_configuration draft_event breaks_boundary event_label decimal4
    is_sha256_digest state_snapshot_hash canonical_sha256 contains_evaluator_only_key freeze
    query_json result_json
timeless_events = refl

replay_events-run_example :
    replay_events runtime snapshot (run runtime timeless_calls adapter).trace
    ≡ ok (run runtime timeless_calls adapter).state
replay_events-run_example = replay_events-run runtime snapshot timeless_calls refl

-- The first memory matches both words of the query, the second none.
abbrev answer : RetrievalResult
answer = record {
  hits = record { memory_id = "m1"; rank = 1; score = 1000000000000 } ∷ [];
  observations = entries (
      ("principal_id", Json.str "alice")
      ∷ ("result_count", nat 1)
      ∷ ("policy", Json.str "pure-read")
      ∷ []);
}

answered : (retrieve runtime query adapter).0 ≡ ok answer
unfolding retrieve then_do commit_event record_event check_draft create_event is_blank
    apply_read_side_update commit_update record_set_change read_side_update select score_all score
    kept is_retrievable suppressed_memory_ids apply_risi_probe_ranking check_result draft_event
    breaks_boundary event_label decimal4 is_sha256_digest state_snapshot_hash canonical_sha256
    contains_evaluator_only_key freeze query_json result_json
answered = refl

retrieve-IsServed_example :
    All (λ (h : RetrievalHit). IsServed snapshot query h.memory_id) answer.hits
    × (length answer.hits ≤ 1)
retrieve-IsServed_example = retrieve-IsServed runtime query adapter answer answered

retrieve-OnlyCounted_example : OnlyCounted snapshot (left_by (retrieve runtime query) adapter)
retrieve-OnlyCounted_example = retrieve-OnlyCounted runtime query adapter refl

-- The event of an advance by three steps, in a runtime where all digests are one.
abbrev clock_event : TraceEvent
clock_event = record event {
  logical_time = 3;
  event_type = EventType.state_hash;
  visibility = EventVisibility.evaluator;
  payload = Fields.end;
}

clock_created :
    create_event runtime
      (draft_event runtime snapshot
        (clocked snapshot 3)
        EventType.state_hash
        EventVisibility.evaluator
        Fields.end
        none)
      none
    ≡ ok clock_event
unfolding create_event breaks_boundary draft_event event_label decimal4 is_sha256_digest
    state_snapshot_hash canonical_sha256
clock_created = refl

clock_applied : apply_event runtime snapshot clock_event ≡ ok (counted snapshot)
unfolding apply_event reconstruct state_snapshot_hash canonical_sha256
clock_applied = refl

apply_event-clocked_example : Collision hasher
apply_event-clocked_example =
    apply_event-clocked runtime snapshot (counted snapshot) 2 Fields.end none clock_event
      clock_created clock_applied
