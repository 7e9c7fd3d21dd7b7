-- ===== src/Reference/Operations.antt =====
-- The methods of `ReferenceMemoryAdapter` (src/risi/adapters/reference.py) as actions.
use Prim.Native.String
use risi.Prelude.{
  ℕ, suc, ◌+◌, ℤ, pos, String, ◌&&◌, Option, none, some, List, [], ◌∷◌, ◌==◌, if◌then◌else◌,
}
use risi.Prelude.Failure.{Result, ok, err, value_error, permission_error, key_error, ◌>>=◌, ◌>>◌}
use risi.Prelude.Text.{sorted}
use risi.Paths.{is_nil}
use risi.Canonical.{Json, entries, strings, nat}
use risi.Models.{
  EventType, EventVisibility, MemoryRecord, PolicyConfiguration, RetrievalQuery, RetrievalHit,
  RetrievalResult, StateSnapshot, TraceEvent, hit_ids,
}
use risi.Models.Encode.{query_json, result_json, policy_json}
use risi.Trace.{Runtime}
use risi.Reference.{
  Adapter, Action, pure, raise, lift, then_do, find_memory, commit_event, record_event,
}
use risi.Reference.Policy.{validate_policy_configuration}
use risi.Reference.Retrieval.{select, Selection}
use risi.Reference.Retrieval.Update.{Update, read_side_update}

-- `ReferenceMemoryAdapter(initial_state)`
unfoldable pub new_adapter : StateSnapshot → Result Adapter
unfolding validate_policy_configuration
new_adapter s = do
  validate_policy_configuration s.source_memories s.policy
  ok (record { state = s; trace = [] })

unfoldable pub ingest : MemoryRecord → Action MemoryRecord
ingest m = raise (permission_error "the local-reference profile does not grant memory writes")

unfoldable pub commit_update : Runtime → RetrievalQuery → Option Update → Action (Unit {0})
commit_update rt q none = pure tt
commit_update rt q (some u) =
    then_do
      (commit_event rt u.after EventType.read_side_update u.visibility u.payload
        (some q.principal_id))
      (λ _. pure tt)

unfoldable pub apply_read_side_update : Runtime → RetrievalQuery → List String → Action (Unit {0})
apply_read_side_update rt q retrieved a =
    then_do (lift (read_side_update a.state q retrieved)) (commit_update rt q) a

-- The event of `retrieve` when suppression removed or protected a memory.
unfoldable pub record_set_change : Runtime → RetrievalQuery → Selection → Action (Unit {0})
record_set_change rt q sel a =
    if is_nil sel.removed && is_nil sel.protected
    then pure tt a
    else then_do
        (record_event rt EventType.retrieval_set_change EventVisibility.both
          (entries (
            ("removed_memory_ids", Json.arr (strings sel.removed))
            ∷ ("protected_memory_ids", Json.arr (strings (sorted sel.protected)))
            ∷ ("policy", Json.str a.state.policy.identity.name)
            ∷ []))
          (some q.principal_id))
        (λ _. pure tt) a

unfoldable pub retrieve : Runtime → RetrievalQuery → Action RetrievalResult
retrieve rt q a =
    then_do (lift (select rt a.state q))
      (λ sel.
        then_do
          (record_event rt EventType.retrieval_completed EventVisibility.both
            (entries (("query", query_json q) ∷ ("result", result_json sel.result) ∷ []))
            (some q.principal_id))
          (λ _. then_do (record_set_change rt q sel) (λ _.
            then_do (apply_read_side_update rt q (hit_ids sel.result.hits))
              (λ _. pure sel.result))))
      a

-- The lines of a context, and the text that joins them by newlines.
unfoldable pub context_lines : List MemoryRecord → List RetrievalHit → Result (List String)
context_lines memories [] = ok []
context_lines memories (h ∷ hs) = elim (find_memory h.memory_id memories) [
  | none ↦ err (key_error h.memory_id)
  | some m ↦ (do
    rest ← context_lines memories hs
    ok (String.◌++◌ "[" (String.◌++◌ h.memory_id (String.◌++◌ "] " m.content)) ∷ rest))
]

abbrev pub join_lines : List String → String
join_lines [] = ""
join_lines (l ∷ []) = l
join_lines (l ∷ k ∷ ls) = String.◌++◌ l (String.◌++◌ "\n" (join_lines (k ∷ ls)))

unfoldable pub assemble_context : Runtime → RetrievalResult → Action String
unfolding context_lines
assemble_context rt r a =
    then_do (lift (context_lines a.state.source_memories r.hits))
      (λ lines.
        then_do
          (record_event rt EventType.context_assembled EventVisibility.both
            (entries (
              ("memory_ids", Json.arr (strings (hit_ids r.hits)))
              ∷ ("context", Json.str (join_lines lines))
              ∷ []))
            none)
          (λ _. pure (join_lines lines)))
      a

unfoldable pub configure_policy : Runtime → PolicyConfiguration → Action (Unit {0})
configure_policy rt c a =
    then_do (lift (validate_policy_configuration a.state.source_memories c))
      (λ _.
        then_do
          (commit_event rt
            (record a.state { policy = c; next_event_sequence = a.state.next_event_sequence + 1 })
            EventType.policy_configured EventVisibility.evaluator
            (entries (("policy", policy_json c) ∷ [])) none)
          (λ _. pure tt))
      a

unfoldable pub advance_clock : Runtime → ℤ → Action ℕ
advance_clock rt (pos (suc n)) a =
    then_do
      (commit_event rt
        (record a.state {
          logical_time = a.state.logical_time + suc n;
          next_event_sequence = a.state.next_event_sequence + 1;
        })
        EventType.state_hash EventVisibility.evaluator
        (entries (("logical_steps", nat (suc n)) ∷ [])) none)
      (λ _. pure (a.state.logical_time + suc n)) a
advance_clock rt _ a = raise (value_error "logical_steps must be positive") a

unfoldable pub reset : StateSnapshot → Action (Unit {0})
reset s a =
    if s.episode.scenario_id == a.state.episode.scenario_id
    then (ok tt, record { state = s; trace = [] })
    else raise (value_error "reset snapshot belongs to another scenario") a

-- `run_maintenance`, `consolidate` and `expire` do nothing; the accessors only read.
unfoldable pub run_maintenance : Action (Unit {0})
run_maintenance = pure tt

unfoldable pub consolidate : Action (List String)
consolidate = pure []

unfoldable pub expire : Action (List String)
expire = pure []

unfoldable pub snapshot : Action StateSnapshot
snapshot a = (ok a.state, a)

unfoldable pub export_trace : Action (List TraceEvent)
export_trace a = (ok a.trace, a)
