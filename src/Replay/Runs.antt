-- ===== src/Replay/Runs.antt =====
-- Replay against the adapter: what src/risi/replay.py rebuilds from a trace of
-- src/risi/adapters/reference.py is the adapter's own state.
use risi.Prelude.{
  ℕ, ◌≡◌, refl, ap, sym, subst, ◌∙◌, ℤ, String, Bool, true, false, none, some, List, [], ◌∷◌, ◌++◌,
  eq_refl, inl, inr, all,
}
use risi.Prelude.Failure.{ok, >>=-eq-ok}
use risi.Canonical.{Fields}
use risi.Models.{EventType, StateSnapshot, TraceEvent, PolicyConfiguration, RetrievalQuery}
use risi.Models.Checks.{check_policy_identity}
use risi.Models.Encode.{policy_json}
use risi.Trace.{Runtime, state_snapshot_hash, hash_of, seal}
use risi.Trace.Extension.{created_parts, last_event}
use risi.Reference.{Adapter, draft_event}
use risi.Reference.Retrieval.Update.{eclipse, set_counter}
use risi.Reference.Keeps.{commit_event-cases}
use risi.Reference.Keeps.Transition.{Transition, counted, is_plain}
use risi.Reference.Keeps.Steps.{Closed}
use risi.Reference.Recorded.Runs.{Call, is_replayable, run, run-keeps}
use risi.Replay.{
  reconstruct, apply_event, replay_events, policy_from_json, apply_read_side, apply_counter,
  apply_eclipse,
}

reconstruct-plain :
    (s : StateSnapshot) (type : EventType) (payload : Fields)
    → is_plain type ≡ true
    → reconstruct s type payload ≡ ok (counted s)
unfolding reconstruct
reconstruct-plain s EventType.episode_started payload p = refl
reconstruct-plain s EventType.policy_configured payload p = cc
reconstruct-plain s EventType.memory_ingested payload p = refl
reconstruct-plain s EventType.memory_read payload p = refl
reconstruct-plain s EventType.read_side_update payload p = cc
reconstruct-plain s EventType.retrieval_completed payload p = refl
reconstruct-plain s EventType.retrieval_set_change payload p = refl
reconstruct-plain s EventType.context_assembled payload p = refl
reconstruct-plain s EventType.critical_memory_suppression payload p = refl
reconstruct-plain s EventType.admission_decision payload p = refl
reconstruct-plain s EventType.deduplication_decision payload p = refl
reconstruct-plain s EventType.consolidation payload p = refl
reconstruct-plain s EventType.eviction payload p = refl
reconstruct-plain s EventType.archive payload p = refl
reconstruct-plain s EventType.trial_reset payload p = refl
reconstruct-plain s EventType.state_hash payload p = refl
reconstruct-plain s EventType.invariant_violation payload p = refl
reconstruct-plain s EventType.decision payload p = refl
reconstruct-plain s EventType.oracle_evaluated payload p = refl
reconstruct-plain s EventType.episode_completed payload p = refl

policy_from_json-policy_json :
    (c : PolicyConfiguration)
    → check_policy_identity c.identity ≡ ok tt
    → policy_from_json (some (policy_json c)) ≡ ok c
unfolding policy_from_json policy_json
policy_from_json-policy_json c h = rw h refl

reconstruct-eclipse :
    (s : StateSnapshot) (q : RetrievalQuery) (t x : String) (n : ℤ)
    → reconstruct s EventType.read_side_update (eclipse s q t x n).payload
      ≡ ok (eclipse s q t x n).after
unfolding reconstruct apply_read_side apply_eclipse
reconstruct-eclipse s q t x n = refl

reconstruct-counter :
    (s : StateSnapshot) (n : ℕ) (b : Bool)
    → reconstruct s EventType.read_side_update (set_counter s n b).payload
      ≡ ok (set_counter s n b).after
unfolding reconstruct apply_read_side apply_counter
reconstruct-counter s n true = refl
reconstruct-counter s n false = refl

-- A transition is rebuilt from its event.
reconstruct-Transition :
    (s : StateSnapshot) (type : EventType) (payload : Fields) (after : StateSnapshot)
    → Transition s type payload after
    → reconstruct s type payload ≡ ok after
unfolding reconstruct
reconstruct-Transition s type payload after (Transition.plain p e) =
    reconstruct-plain s type payload p ∙ ap ok (sym e)
reconstruct-Transition s type payload after (Transition.policy c i ty l e) =
    rw (ty, l, e, policy_from_json-policy_json c i) refl
reconstruct-Transition s type payload after (Transition.eclipsed q t x n ty l e) =
    rw (ty, l, e) (reconstruct-eclipse s q t x n)
reconstruct-Transition s type payload after (Transition.shared_counter n b ty l e) =
    rw (ty, l, e) (reconstruct-counter s n b)

ok_eq : (s t : StateSnapshot) → ok s ≡ ok t → s ≡ t
ok_eq s t h = cc

replay_events-append :
    (rt : Runtime) (s t u : StateSnapshot) (es : List TraceEvent) (e : TraceEvent)
    → replay_events rt s es ≡ ok t
    → apply_event rt t e ≡ ok u
    → replay_events rt s (es ++ e ∷ []) ≡ ok u
unfolding replay_events
replay_events-append rt s t u [] e h k =
    rw (subst (λ x. apply_event rt x e ≡ ok u) (ok_eq t s (sym h)) k) refl
replay_events-append rt s t u (x ∷ es) e h k =
    let (next, hx, rest) = >>=-eq-ok (apply_event rt s x) (λ n. replay_events rt n es) h in
    rw hx (replay_events-append rt next t u es e rest k)

-- An event that records a transition is applied to the state it started from.
apply_event-Transition :
    (rt : Runtime) (s after : StateSnapshot) (e : TraceEvent)
    → e.state_hash_before ≡ state_snapshot_hash rt s
    → e.state_hash_after ≡ state_snapshot_hash rt after
    → reconstruct s e.event_type e.payload ≡ ok after
    → apply_event rt s e ≡ ok after
unfolding apply_event
apply_event-Transition rt s after e b a r =
    rw (b, eq_refl (state_snapshot_hash rt s), r, a, eq_refl (state_snapshot_hash rt after)) refl

module _ (rt : Runtime) (s : StateSnapshot) where
  IsReplayed : Adapter → Type 0
  IsReplayed a = replay_events rt s a.trace ≡ ok a.state

  IsReplayed-Closed : Closed rt IsReplayed
  unfolding IsReplayed draft_event seal
  IsReplayed-Closed = record {
    commit = λ after type visibility payload actor a replayed step.
        elim (commit_event-cases rt after type visibility payload actor a) [
          | inl eq ↦ subst IsReplayed (sym eq) replayed
          | inr (e, made, eq) ↦
              let (_, _, _, is) = created_parts rt _ (hash_of (last_event none a.trace)) e made in
              subst IsReplayed (sym eq) (
                replay_events-append rt s a.state after a.trace e replayed (
                  apply_event-Transition rt a.state after e
                    (ap (λ (x : TraceEvent). x.state_hash_before) is)
                    (ap (λ (x : TraceEvent). x.state_hash_after) is)
                    (rw
                      (
                        ap (λ (x : TraceEvent). x.event_type) is,
                        ap (λ (x : TraceEvent). x.payload) is,
                      )
                      (reconstruct-Transition a.state type payload after step))))
        ];
  }

  -- After any calls of an adapter with an empty trace, but calls of `reset` or `advance_clock`, and
  -- calls of `record_event` for an event of the types POLICY_CONFIGURED or READ_SIDE_UPDATE:
  -- replaying its trace from its initial state rebuilds its state.
  pub replay_events-run :
      (cs : List Call)
      → all is_replayable cs ≡ true
      → replay_events rt s (run rt cs (record { state = s; trace = [] })).trace
        ≡ ok (run rt cs (record { state = s; trace = [] })).state
  unfolding IsReplayed replay_events
  replay_events-run cs h = run-keeps rt IsReplayed IsReplayed-Closed cs _ h refl
