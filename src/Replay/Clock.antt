-- ===== src/Replay/Clock.antt =====
-- An advance of the clock by src/risi/adapters/reference.py, replayed by src/risi/replay.py.
use risi.Prelude.{
  ℕ, suc, ◌+◌, ◌≡◌, ◌≢◌, refl, ap, sym, subst, ◌∙◌, String, Bool, true, false, not, Option, none,
  some, ◌==◌, eq_iff, arith,
}
use risi.Prelude.Failure.{Error, Result, ok, err, ◌>>=◌, ◌>>◌, raise_if, >>=-eq-ok, artifact_error}
use risi.Canonical.{Json, Fields, get, nat, obj}
use risi.Canonical.Digest.{Collision, sort_keys}
use risi.Models.{EventType, EventVisibility, StateSnapshot, TraceEvent}
use risi.Models.Encode.{snapshot_json}
use risi.Trace.{Runtime, create_event, seal, state_snapshot_hash}
use risi.Trace.Extension.{created_parts}
use risi.Reference.{draft_event}
use risi.Reference.Keeps.Transition.{clocked, counted}
use risi.Replay.{apply_event, reconstruct}

-- An entry of an object.
abbrev entry : String → Json → Option Json
entry k (obj fs) = get k fs
entry k _ = none

time_entry :
    (s : StateSnapshot)
    → entry "logical_time" (sort_keys (snapshot_json s)) ≡ some (nat s.logical_time)
unfolding snapshot_json sort_keys
time_entry s = refl

nat-injective : (m n : ℕ) → some (nat m) ≡ some (nat n) → m ≡ n
nat-injective m n h = cc

-- Two states whose times differ, and whose hashes do not.
collide :
    (rt : Runtime) (s t : StateSnapshot)
    → s.logical_time ≢ t.logical_time
    → state_snapshot_hash rt s ≡ state_snapshot_hash rt t
    → Collision rt.hasher
unfolding state_snapshot_hash
collide rt s t differ same = record {
  left = snapshot_json s;
  right = snapshot_json t;
  distinct = λ p.
      differ (nat-injective _ _ (sym (time_entry s) ∙ ap (entry "logical_time") p ∙ time_entry t));
  agree = same;
}

passed :
    (b : Bool) (x : Error) (z u : StateSnapshot) → (raise_if (not b) x >> ok z) ≡ ok u → b ≡ true
passed true x z u h = refl
passed false x z u h = cc

-- The second check of `_apply_event`.
after_checked :
    (rt : Runtime) (r : Result StateSnapshot) (t u : StateSnapshot) (e : TraceEvent) (x : Error)
    → r ≡ ok t
    → (r >>= λ n. raise_if (not (e.state_hash_after == state_snapshot_hash rt n)) x >> ok n) ≡ ok u
    → (e.state_hash_after == state_snapshot_hash rt t) ≡ true
after_checked rt (ok n) t u e x same h =
    let eq : n ≡ t = cc in
    subst (λ k. (e.state_hash_after == state_snapshot_hash rt k) ≡ true) eq
      (passed (e.state_hash_after == state_snapshot_hash rt n) x n u h)
after_checked rt (err y) t u e x same h = cc

-- What replay checks of an event that it takes for a mere count.
counted_hash :
    (rt : Runtime) (s u : StateSnapshot) (e : TraceEvent)
    → e.event_type ≡ EventType.state_hash
    → apply_event rt s e ≡ ok u
    → e.state_hash_after ≡ state_snapshot_hash rt (counted s)
unfolding apply_event reconstruct
counted_hash rt s u e type h =
    let mismatch = artifact_error "event state transition does not match the recorded state hash" in
    let (_, _, rest) =
      >>=-eq-ok
        (raise_if (not (e.state_hash_before == state_snapshot_hash rt s))
          (artifact_error "event does not apply to the reconstructed state"))
        (λ _. reconstruct s e.event_type e.payload >>= λ n.
          raise_if (not (e.state_hash_after == state_snapshot_hash rt n)) mismatch >> ok n)
        h in
    (eq_iff e.state_hash_after (state_snapshot_hash rt (counted s))).0 (
      after_checked rt (reconstruct s e.event_type e.payload) (counted s) u e mismatch
        (subst (λ t. reconstruct s t e.payload ≡ ok (counted s)) (sym type) refl) rest)

later : (m n : ℕ) → m + suc n ≢ m
later m n h = omega arith

-- The event that records an advance of the clock by a positive number of steps is refused by replay:
-- if it is applied to the very state that it was created from, two values with one digest are at
-- hand.
pub apply_event-clocked :
    (rt : Runtime) (s u : StateSnapshot) (n : ℕ) (payload : Fields) (previous : Option String)
    (e : TraceEvent)
    → create_event rt
        (draft_event rt s
          (clocked s (suc n))
          EventType.state_hash
          EventVisibility.evaluator
          payload
          none)
        previous
      ≡ ok e
    → apply_event rt s e ≡ ok u
    → Collision rt.hasher
unfolding draft_event seal
apply_event-clocked rt s u n payload previous e made applied =
    let (_, _, _, is) = created_parts rt _ previous e made in
    collide rt (clocked s (suc n)) (counted s) (later s.logical_time n) (
      sym (ap (λ (x : TraceEvent). x.state_hash_after) is)
      ∙ counted_hash rt s u e (ap (λ (x : TraceEvent). x.event_type) is) applied)
