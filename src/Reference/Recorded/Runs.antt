-- ===== src/Reference/Recorded/Runs.antt =====
-- Runs of the reference adapter: any row of calls of its methods
-- (src/risi/adapters/reference.py).
use risi.Prelude.{
  ◌≡◌, refl, sym, ◌∙◌, subst, ℤ, String, Bool, true, false, Option, List, [], ◌∷◌, inl, inr, all,
  arith,
}
use risi.Canonical.Digest.{IsHexHasher}
use risi.Canonical.{Fields}
use risi.Models.{
  EventType, EventVisibility, MemoryRecord, RetrievalQuery, RetrievalResult, PolicyConfiguration,
  StateSnapshot,
}
use risi.Trace.{Runtime, verify_trace}
use risi.Reference.{Adapter, record_event}
use risi.Reference.Operations.{
  ingest, retrieve, assemble_context, configure_policy, advance_clock, run_maintenance, consolidate,
  expire,
}
use risi.Reference.Keeps.{left_by, commit_event-cases}
use risi.Reference.Keeps.Steps.{
  Closed, IsStable, Closed-of_stable, record_event-keeps, any_event-keeps, retrieve-keeps,
  assemble_context-keeps, configure_policy-keeps, advance_clock-keeps,
}
use risi.Reference.Keeps.Transition.{is_plain}
use risi.Reference.Recorded.{IsRecorded, commit_event-IsRecorded}

-- A call of a public method that may write, `reset` apart. The arguments of `record_call` are those
-- of `record_event`.
pub data Call : Type 0 where
  ingest_call : MemoryRecord → Call
  retrieve_call : RetrievalQuery → Call
  context_call : RetrievalResult → Call
  configure_call : PolicyConfiguration → Call
  clock_call : ℤ → Call
  record_call : EventType → EventVisibility → Fields → Option String → Call
  maintenance_call consolidate_call expire_call : Call

-- The adapter after a call, whether it returned or raised.
unfoldable pub perform : Runtime → Call → Adapter → Adapter
perform rt (ingest_call m) a = left_by (ingest m) a
perform rt (retrieve_call q) a = left_by (retrieve rt q) a
perform rt (context_call r) a = left_by (assemble_context rt r) a
perform rt (configure_call c) a = left_by (configure_policy rt c) a
perform rt (clock_call n) a = left_by (advance_clock rt n) a
perform rt (record_call type visibility payload actor) a =
    left_by (record_event rt type visibility payload actor) a
perform rt maintenance_call a = left_by run_maintenance a
perform rt consolidate_call a = left_by consolidate a
perform rt expire_call a = left_by expire a

unfoldable pub run : Runtime → List Call → Adapter → Adapter
unfolding perform
run rt [] a = a
run rt (c ∷ cs) a = run rt cs (perform rt c a)

-- A call that writes nothing which replay would not find again: no advance of the clock, and no
-- event given by the caller that says that the policy was configured or the read side updated.
abbrev pub is_replayable : Call → Bool
is_replayable (clock_call n) = false
is_replayable (record_call type visibility payload actor) = is_plain type
is_replayable _ = true

module _ (rt : Runtime) (P : Adapter → Type 0) (closed : Closed rt P) where
  perform-keeps : (c : Call) (a : Adapter) → is_replayable c ≡ true → P a → P (perform rt c a)
  unfolding perform ingest run_maintenance consolidate expire
  perform-keeps (ingest_call m) a r p = p
  perform-keeps (retrieve_call q) a r p = retrieve-keeps rt P closed q a p
  perform-keeps (context_call x) a r p = assemble_context-keeps rt P closed x a p
  perform-keeps (configure_call c) a r p = configure_policy-keeps rt P closed c a p
  perform-keeps (clock_call n) a r p = cc
  perform-keeps (record_call type visibility payload actor) a r p =
      record_event-keeps rt P closed type visibility payload actor a r p
  perform-keeps maintenance_call a r p = p
  perform-keeps consolidate_call a r p = p
  perform-keeps expire_call a r p = p

  pub run-keeps :
      (cs : List Call) (a : Adapter) → all is_replayable cs ≡ true → P a → P (run rt cs a)
  unfolding run
  run-keeps [] a r p = p
  run-keeps (c ∷ cs) a r p =
      run-keeps cs (perform rt c a) (ground arith) (perform-keeps c a (ground arith) p)

module _ (rt : Runtime) (P : Adapter → Type 0) (stable : IsStable rt P) where
  perform-stable : (c : Call) (a : Adapter) → P a → P (perform rt c a)
  unfolding perform
  perform-stable (clock_call n) a p = advance_clock-keeps rt P stable n a p
  perform-stable (record_call type visibility payload actor) a p =
      any_event-keeps rt P stable type visibility payload actor a p
  perform-stable c a p = perform-keeps rt P (Closed-of_stable rt P stable) c a refl p

  pub run-stable : (cs : List Call) (a : Adapter) → P a → P (run rt cs a)
  unfolding run
  run-stable [] a p = p
  run-stable (c ∷ cs) a p = run-stable cs (perform rt c a) (perform-stable c a p)

IsRecorded-IsStable : (rt : Runtime) → IsHexHasher rt.hasher → IsStable rt (IsRecorded rt)
IsRecorded-IsStable rt hex = record {
  commit = λ after type visibility payload actor a rec adv.
      commit_event-IsRecorded rt after type visibility payload actor a rec adv hex;
}

fresh-IsRecorded :
    (rt : Runtime) (s : StateSnapshot)
    → s.next_event_sequence ≡ 0
    → IsRecorded rt (record { state = s; trace = [] })
unfolding verify_trace
fresh-IsRecorded rt s zero_events = record {
  verified = refl;
  counted = zero_events;
  episode = refl;
  free = λ n h. refl;
  time = λ p h. cc;
  hashed = λ p h. cc;
}

-- If digests are 64 hexadecimal digits: whatever calls but `reset` are made of an adapter whose
-- state counts no event and whose trace is empty, those of `record_event` included, returning or
-- raising, its trace is verified, is counted by its state, and ends at the hash of its state.
pub run-IsRecorded :
    (rt : Runtime) (s : StateSnapshot) (cs : List Call)
    → IsHexHasher rt.hasher
    → s.next_event_sequence ≡ 0
    → IsRecorded rt (run rt cs (record { state = s; trace = [] }))
run-IsRecorded rt s cs hex start =
    run-stable rt (IsRecorded rt) (IsRecorded-IsStable rt hex) cs _ (fresh-IsRecorded rt s start)

-- The memories and the episode of an adapter are those of `b`.
pub record SameSource (b a : Adapter) : Type 0 where
  pub memories : a.state.source_memories ≡ b.state.source_memories
  pub episode : a.state.episode ≡ b.state.episode

SameSource-IsStable : (rt : Runtime) (b : Adapter) → IsStable rt (SameSource b)
SameSource-IsStable rt b = record {
  commit = λ after type visibility payload actor a same adv.
      elim (commit_event-cases rt after type visibility payload actor a) [
        | inl eq ↦ subst (SameSource b) (sym eq) same
        | inr (e, _, eq) ↦ subst (SameSource b) (sym eq) (record {
          memories = adv.memories ∙ same.memories;
          episode = adv.episode ∙ same.episode;
        })
      ];
}

-- Whatever calls but `reset` are made of an adapter, those of `record_event` included, returning or
-- raising, its source memories and its episode stay the same.
pub run-SameSource : (rt : Runtime) (a : Adapter) (cs : List Call) → SameSource a (run rt cs a)
run-SameSource rt a cs =
    run-stable rt (SameSource a) (SameSource-IsStable rt a) cs a
      (record { memories = refl; episode = refl })
