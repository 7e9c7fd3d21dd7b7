-- ===== src/Reference/Retrieval/Update.antt =====
-- The read-side updates of src/risi/adapters/reference.py: `_apply_read_side_update` and
-- `_apply_risi_counter_update`, as the state and the event that they commit.
use risi.Prelude.{
  ℕ, ◌+◌, ℤ, pos, suc_ℤ, eq_ℤ, String, Bool, true, false, not, ◌||◌, Option, none, some, List, [],
  ◌∷◌, ◌==◌, elem, if◌then◌else◌,
}
use risi.Prelude.Failure.{Result, ok, err, type_error, ◌>>=◌}
use risi.Canonical.{Json, Items, Fields, get, entries, strings, nat}
use risi.Models.{EventVisibility, RetrievalQuery, StateSnapshot}
use risi.Reference.Policy.{text_of}
use risi.Reference.Retrieval.{suppressed_memory_ids, access_counter}

-- The truth value of an optional JSON value.
abbrev pub truthy : Option Json → Bool
truthy none = false
truthy (some Json.null) = false
truthy (some (Json.bool b)) = b
truthy (some (Json.int n)) = not (eq_ℤ n (pos 0))
truthy (some (Json.real m e)) = not (eq_ℤ m (pos 0))
truthy (some (Json.str s)) = not (s == "")
truthy (some (Json.arr Items.nil)) = false
truthy (some (Json.arr (Items.cons x xs))) = true
truthy (some (Json.obj Fields.end)) = false
truthy (some (Json.obj (Fields.field k v fs))) = true

-- What an update writes: the state after it, and its event.
pub record Update : Type 0 where
  pub after : StateSnapshot
  pub visibility : EventVisibility
  pub payload : Fields

-- `policy_state.get("interaction_count", 0)`
pub interaction_count : Fields → Result ℤ
interaction_count policy_state = elim (get "interaction_count" policy_state) [
  | none ↦ ok (pos 0)
  | some (Json.int n) ↦ ok n
  | _ ↦ err (type_error "policy_state.interaction_count is invalid")
]

abbrev pub eclipse : StateSnapshot → RetrievalQuery → String → String → ℤ → Update
eclipse s q trigger suppressed count = record {
  after = record s {
    derived_state = entries (
        ("suppressed_memory_ids", Json.arr (strings (suppressed ∷ [])))
        ∷ ("trigger_memory_ids", Json.arr (strings (trigger ∷ [])))
        ∷ ("tenant_id", Json.str q.tenant_id)
        ∷ []);
    policy_state = entries (("interaction_count", Json.int count) ∷ []);
    next_event_sequence = s.next_event_sequence + 1;
  };
  visibility = EventVisibility.both;
  payload = entries (
      ("operation", Json.str "set_memory_eclipse")
      ∷ ("trigger_memory_id", Json.str trigger)
      ∷ ("suppressed_memory_id", Json.str suppressed)
      ∷ ("tenant_id", Json.str q.tenant_id)
      ∷ ("interaction_count", Json.int count)
      ∷ []);
}

unfoldable pub adaptive_update :
    StateSnapshot
    → RetrievalQuery
    → List String
    → Option String
    → Option String
    → Result (Option Update)
unfolding interaction_count
adaptive_update s q retrieved (some trigger) (some suppressed) =
    if elem trigger retrieved
    then (do
      already ← suppressed_memory_ids s
      if elem suppressed already then ok none else (do
        prior ← interaction_count s.policy_state
        ok (some (eclipse s q trigger suppressed (suc_ℤ prior)))))
    else ok none
adaptive_update s q retrieved _ _ =
    err (type_error "adaptive reference policy identifiers are invalid")

abbrev pub set_counter : StateSnapshot → ℕ → Bool → Update
set_counter s counter hidden = record {
  after = record s {
    derived_state = entries (("shared_access_counter", nat counter) ∷ []);
    next_event_sequence = s.next_event_sequence + 1;
  };
  visibility = EventVisibility.evaluator;
  payload = entries (
      ("operation", Json.str "set_shared_access_counter")
      ∷ ("counter", nat counter)
      ∷ ("matched_event", Json.str (if hidden then "hidden" else "sham"))
      ∷ []);
}

unfoldable pub counter_update :
    StateSnapshot
    → RetrievalQuery
    → List String
    → Option String
    → Option String
    → Result (Option Update)
counter_update s q retrieved (some victim) (some canary) =
    if q.principal_id == victim
    then (do
      prior ← access_counter s.derived_state
      let hidden = elem canary retrieved
      ok (some (set_counter s (if hidden then prior + 1 else prior) hidden)))
    else ok none
counter_update s q retrieved _ _ = err (type_error "RISI reference policy identifiers are invalid")

unfoldable pub read_side_update :
    StateSnapshot → RetrievalQuery → List String → Result (Option Update)
unfolding adaptive_update counter_update
read_side_update s q retrieved =
    if (s.policy.identity.name == "pure-read")
      || not (truthy (get "read_side_updates" s.policy.settings))
    then ok none
    else if s.policy.identity.name == "risi-shared-counter"
    then counter_update s q retrieved (text_of (get "victim_principal_id" s.policy.settings))
        (text_of (get "canary_memory_id" s.policy.settings))
    else adaptive_update s q retrieved (text_of (get "trigger_memory_id" s.policy.settings))
        (text_of (get "suppressed_memory_id" s.policy.settings))
