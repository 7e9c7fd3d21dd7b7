-- ===== src/Reference/Keeps.antt =====
-- How the adapter's actions run, for invariants: one rule for each way to build an action, and
-- what a committed event leaves behind (`_commit_event` of src/risi/adapters/reference.py).
pub mod Transition
pub mod Steps
use risi.Prelude.{
  ℕ, ◌+◌, ◌≤◌, ◌≡◌, refl, String, Option, none, some, List, ◌∷◌, [], ◌++◌, ◌⊎◌, inl, inr,
}
use risi.Prelude.Failure.{Error, Result, ok, err, ◌>>=◌, ◌>>◌, >>=-eq-ok}
use risi.Canonical.{Fields}
use risi.Models.{EventType, EventVisibility, StateSnapshot, TraceEvent}
use risi.Models.Checks.{check_draft}
use risi.Trace.{Runtime, create_event, hash_of}
use risi.Trace.Extension.{last_event}
use risi.Reference.{
  Adapter, Action, pure, raise, lift, then_do, continue, draft_event, append_event, commit_event,
}

-- The adapter that an action leaves, whether it returns or raises.
abbrev pub left_by : {A : Type 0} → Action A → Adapter → Adapter
left_by m a = (m a).1

module _ {A B : Type 0} (P : Adapter → Type 0) where
  P-continue :
      (r : Result A) (f : A → Action B) (b : Adapter)
      → P b
      → ((x : A) → P b → P (left_by (f x) b))
      → P (left_by (continue r f) b)
  P-continue (ok x) f b p k = k x p
  P-continue (err e) f b p k = p

  pub left_by-then_do :
      (m : Action A) (f : A → Action B) (a : Adapter)
      → P (left_by m a)
      → ((x : A) (b : Adapter) → P b → P (left_by (f x) b))
      → P (left_by (then_do m f) a)
  unfolding then_do
  left_by-then_do m f a p k = let (r, b) = m a in P-continue r f b p (λ x. k x b)

  -- The rest may use what the computation returned.
  pub left_by-lift :
      (r : Result A) (f : A → Action B) (a : Adapter)
      → P a
      → ((x : A) → r ≡ ok x → P (left_by (f x) a))
      → P (left_by (then_do (lift r) f) a)
  unfolding then_do
  left_by-lift (ok x) f a p k = k x refl
  left_by-lift (err e) f a p k = p

-- A state that one event leads to.
pub record Advances (before after : StateSnapshot) : Type 0 where
  pub episode : after.episode ≡ before.episode
  pub memories : after.source_memories ≡ before.source_memories
  pub sequence : after.next_event_sequence ≡ before.next_event_sequence + 1
  pub time : before.logical_time ≤ after.logical_time

module _ (rt : Runtime) (after : StateSnapshot) (type : EventType) (visibility : EventVisibility)
    (payload : Fields) (actor : Option String) (a : Adapter) where
  abbrev pub written : TraceEvent → Adapter
  written e = record { state = after; trace = a.trace ++ e ∷ [] }

  append_event-cases :
      (checked : Result (Unit {0})) (made : Result TraceEvent)
      → ((append_event after a (checked >> made)).1 ≡ a)
        ⊎ ((e : TraceEvent) × (made ≡ ok e)
            × ((append_event after a (checked >> made)).1 ≡ written e))
  append_event-cases (err x) made = inl refl
  append_event-cases (ok tt) (err x) = inl refl
  append_event-cases (ok tt) (ok e) = inr (e, refl, refl)

  -- Either the event is refused and nothing is written, or it is the next event of the trace.
  pub commit_event-cases :
      (left_by (commit_event rt after type visibility payload actor) a ≡ a)
      ⊎ ((e : TraceEvent) × (create_event rt
              (draft_event rt a.state after type visibility payload actor)
              (hash_of (last_event none a.trace))
            ≡ ok e)
          × (left_by (commit_event rt after type visibility payload actor) a ≡ written e))
  unfolding commit_event
  commit_event-cases = append_event-cases _ _
