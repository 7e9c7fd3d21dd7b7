-- ===== src/Reference/Keeps/Transition.antt =====
-- The state transitions that the methods of src/risi/adapters/reference.py commit, each with the
-- type and the payload of the event that records it.
use risi.Prelude.{ℕ, ◌+◌, ◌≡◌, refl, sym, subst, ℤ, String, Bool, true, false, arith, ◌∷◌, []}
use risi.Prelude.Failure.{ok}
use risi.Canonical.{Fields, entries}
use risi.Models.{EventType, StateSnapshot, RetrievalQuery, PolicyConfiguration}
use risi.Models.Encode.{policy_json}
use risi.Models.Checks.{check_policy_identity}
use risi.Reference.Retrieval.Update.{eclipse, set_counter}
use risi.Reference.Keeps.{Advances}

-- The next event, and nothing else.
abbrev pub counted : StateSnapshot → StateSnapshot
counted s = record s { next_event_sequence = s.next_event_sequence + 1 }

abbrev pub configured : StateSnapshot → PolicyConfiguration → StateSnapshot
configured s c = record s { policy = c; next_event_sequence = s.next_event_sequence + 1 }

abbrev pub clocked : StateSnapshot → ℕ → StateSnapshot
clocked s n = record s {
  logical_time = s.logical_time + n;
  next_event_sequence = s.next_event_sequence + 1;
}

-- An event type that replay only counts.
abbrev pub is_plain : EventType → Bool
is_plain EventType.policy_configured = false
is_plain EventType.read_side_update = false
is_plain _ = true

-- A transition that an event of this type and payload records, so that replay finds it again.
pub data Transition (before : StateSnapshot) (type : EventType) (payload : Fields)
    (after : StateSnapshot) : Type 0 where
  plain : is_plain type ≡ true → after ≡ counted before → Transition before type payload after
  policy :
      (c : PolicyConfiguration)
      → check_policy_identity c.identity ≡ ok tt
      → type ≡ EventType.policy_configured
      → payload ≡ entries (("policy", policy_json c) ∷ [])
      → after ≡ configured before c
      → Transition before type payload after
  eclipsed :
      (q : RetrievalQuery) (t x : String) (n : ℤ)
      → type ≡ EventType.read_side_update
      → payload ≡ (eclipse before q t x n).payload
      → after ≡ (eclipse before q t x n).after
      → Transition before type payload after
  shared_counter :
      (n : ℕ) (b : Bool)
      → type ≡ EventType.read_side_update
      → payload ≡ (set_counter before n b).payload
      → after ≡ (set_counter before n b).after
      → Transition before type payload after

pub Transition-Advances :
    (before : StateSnapshot) (type : EventType) (payload : Fields) (after : StateSnapshot)
    → Transition before type payload after
    → Advances before after
Transition-Advances before type payload after (plain p e) =
    subst (Advances before) (sym e)
      (record { episode = refl; memories = refl; sequence = refl; time = omega arith })
Transition-Advances before type payload after (policy c p t l e) =
    subst (Advances before) (sym e)
      (record { episode = refl; memories = refl; sequence = refl; time = omega arith })
Transition-Advances before type payload after (eclipsed q t x n ty l e) =
    subst (Advances before) (sym e)
      (record { episode = refl; memories = refl; sequence = refl; time = omega arith })
Transition-Advances before type payload after (shared_counter n b ty l e) =
    subst (Advances before) (sym e)
      (record { episode = refl; memories = refl; sequence = refl; time = omega arith })

pub counted-Advances : (before : StateSnapshot) → Advances before (counted before)
counted-Advances before = record {
  episode = refl;
  memories = refl;
  sequence = refl;
  time = omega arith;
}

pub clocked-Advances : (before : StateSnapshot) (n : ℕ) → Advances before (clocked before n)
clocked-Advances before n = record {
  episode = refl;
  memories = refl;
  sequence = refl;
  time = omega arith;
}
