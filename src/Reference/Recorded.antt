-- ===== src/Reference/Recorded.antt =====
-- The trace of the reference adapter is always a verified record of its state
-- (src/risi/adapters/reference.py with `verify_trace` of src/risi/trace.py).
pub mod Runs
use Prim.Native.String
use text.Mathlib.TextLemmas.{append_cancel_left}
use risi.Prelude.{
  ℕ, zero, suc, ◌+◌, ◌≤◌, ◌≡◌, ◌≢◌, refl, ap, sym, subst, ◌∙◌, String, Bool, true, false, ◌||◌,
  Option, none, some, List, [], ◌∷◌, ◌++◌, ◌==◌, eq_iff, elem, arith, Bool-cases, inl, inr, length,
  length-append,
}
use risi.Prelude.Failure.{Result, ok, err}
use risi.Prelude.Decimal.{decimal4, decimal4-injective}
use risi.Canonical.{Fields}
use risi.Canonical.Digest.{IsHexHasher}
use risi.Models.{EventType, EventVisibility, StateSnapshot, TraceEvent, TraceEventDraft}
use risi.Trace.{Runtime, seal, create_event, hash_of, verify_trace, state_snapshot_hash}
use risi.Trace.Extension.{
  last_event, ids_after, episode_of, Continues, created_parts, create_event-extends,
}
use risi.Reference.{Adapter, event_label, draft_event, commit_event}
use risi.Reference.Keeps.{left_by, Advances, commit_event-cases, written}

-- The trace verifies, belongs to the state's episode, is as long as the state counts, has free
-- labels from there on, and ends at the state's hash and not after its time.
pub record IsRecorded (rt : Runtime) (a : Adapter) : Type 0 where
  pub verified : verify_trace rt a.trace ≡ ok tt
  pub counted : a.state.next_event_sequence ≡ length a.trace
  pub episode : episode_of a.trace a.state.episode.episode_id ≡ a.state.episode.episode_id
  pub free :
      (n : ℕ)
      → length a.trace ≤ n
      → elem (event_label a.state.episode.episode_id n) (ids_after [] a.trace) ≡ false
  pub time :
      (p : TraceEvent) → last_event none a.trace ≡ some p → p.logical_time ≤ a.state.logical_time
  pub hashed :
      (p : TraceEvent)
      → last_event none a.trace ≡ some p
      → state_snapshot_hash rt a.state ≡ p.state_hash_after

-- Different sequence numbers have different labels.
pub event_label-injective : (e : String) (n m : ℕ) → event_label e n ≡ event_label e m → n ≡ m
unfolding event_label
event_label-injective e n m h =
    decimal4-injective n m (append_cancel_left "-event-" _ _ (append_cancel_left e _ _ h))

last_event-snoc :
    (previous : Option TraceEvent) (es : List TraceEvent) (e : TraceEvent)
    → last_event previous (es ++ e ∷ []) ≡ some e
last_event-snoc previous [] e = refl
last_event-snoc previous (x ∷ es) e = last_event-snoc (some x) es e

last-is :
    (es : List TraceEvent) (e p : TraceEvent) → last_event none (es ++ e ∷ []) ≡ some p → e ≡ p
last-is es e p h = cc (last_event-snoc none es e)

ids_after-snoc :
    (ids : List String) (es : List TraceEvent) (e : TraceEvent)
    → ids_after ids (es ++ e ∷ []) ≡ e.event_id ∷ ids_after ids es
ids_after-snoc ids [] e = refl
ids_after-snoc ids (x ∷ es) e = ids_after-snoc (x.event_id ∷ ids) es e

episode_of-snoc :
    (es : List TraceEvent) (e : TraceEvent) (episode : String)
    → episode_of es episode ≡ episode
    → e.episode_id ≡ episode
    → episode_of (es ++ e ∷ []) episode ≡ episode
episode_of-snoc [] e episode h k = k
episode_of-snoc (x ∷ es) e episode h k = h

label-new : (s : String) (n m : ℕ) → suc m ≤ n → (event_label s n == event_label s m) ≡ false
label-new s n m h = elim (Bool-cases (event_label s n == event_label s m)) [
  | inl e ↦ absurd (omega (arith, event_label-injective s n m ((eq_iff _ _).0 e)))
  | inr e ↦ e
]

module _ (rt : Runtime) (after : StateSnapshot) (type : EventType) (visibility : EventVisibility)
    (payload : Fields) (actor : Option String) (a : Adapter) (rec : IsRecorded rt a)
    (adv : Advances a.state after) where
  draft-Continues : Continues a.trace (draft_event rt a.state after type visibility payload actor)
  unfolding draft_event
  draft-Continues = record {
    episode_id = sym rec.episode;
    sequence = rec.counted;
    fresh = rec.free a.state.next_event_sequence (omega (arith, rec.counted));
    time = λ p h. omega (arith, rec.time p h, adv.time);
    continuous = rec.hashed;
  }

  extended-IsRecorded :
      (e : TraceEvent)
      → verify_trace rt (a.trace ++ e ∷ []) ≡ ok tt
      → e.event_id ≡ event_label a.state.episode.episode_id a.state.next_event_sequence
      → e.episode_id ≡ a.state.episode.episode_id
      → e.logical_time ≡ after.logical_time
      → e.state_hash_after ≡ state_snapshot_hash rt after
      → IsRecorded rt (written rt after type visibility payload actor a e)
  extended-IsRecorded e v id episode time hash =
      let snoc = length-append a.trace (e ∷ []) in
      record {
        verified = v;
        counted = omega (arith, snoc, adv.sequence, rec.counted);
        episode =
            rw adv.episode
              (episode_of-snoc a.trace e a.state.episode.episode_id rec.episode episode);
        free = λ n h.
            rw
              (
                adv.episode,
                ids_after-snoc [] a.trace e,
                id,
                label-new a.state.episode.episode_id n a.state.next_event_sequence
                    (omega (arith, snoc, rec.counted)),
              )
              (rec.free n (omega (arith, snoc)));
        time = λ p h.
            omega (arith, time, ap (λ (x : TraceEvent). x.logical_time) (last-is a.trace e p h));
        hashed =
            λ p h. sym hash ∙ ap (λ (x : TraceEvent). x.state_hash_after) (last-is a.trace e p h);
      }

  -- What `_commit_event` leaves is recorded, whether it raised or not.
  pub commit_event-IsRecorded :
      IsHexHasher rt.hasher
      → IsRecorded rt (left_by (commit_event rt after type visibility payload actor) a)
  unfolding draft_event seal
  commit_event-IsRecorded hex = elim (commit_event-cases rt after type visibility payload actor a) [
    | inl same ↦ subst (IsRecorded rt) (sym same) rec
    | inr (e, made, eq) ↦
        let d = draft_event rt a.state after type visibility payload actor in
        let v = create_event-extends rt a.trace d e hex rec.verified draft-Continues made in
        let (_, _, _, is) = created_parts rt d (hash_of (last_event none a.trace)) e made in
        subst (IsRecorded rt) (sym eq) (
          extended-IsRecorded e v (ap (λ (x : TraceEvent). x.event_id) is)
            (ap (λ (x : TraceEvent). x.episode_id) is) (ap (λ (x : TraceEvent). x.logical_time) is)
            (ap (λ (x : TraceEvent). x.state_hash_after) is))
  ]
