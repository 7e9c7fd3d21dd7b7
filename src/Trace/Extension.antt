-- ===== src/Trace/Extension.antt =====
-- What `verify_trace` accepts, and how an accepted trace is extended (src/risi/trace.py).
use risi.Prelude.{
  ℕ, zero, suc, ◌+◌, ◌≤◌, ◌≡◌, refl, ap, sym, subst, ◌↔◌, String, Bool, true, false, not, ◌&&◌,
  Option, none, some, List, [], ◌∷◌, ◌++◌, ◌==◌, eq_iff, eq_refl, eqb, ltb, elem, arith, Bool-cases,
  inl, inr, length, if◌then◌else◌,
}
use risi.Prelude.Failure.{Result, ok, err, ◌>>=◌, ◌>>◌, raise_if, >>=-eq-ok}
use risi.Prelude.Text.{is_sha256_digest}
use risi.Canonical.Digest.{canonical_sha256, IsHexHasher}
use risi.Models.{TraceEvent, TraceEventDraft}
use risi.Trace.{
  Runtime, breaks_boundary, event_material, draft_of, seal, create_event, hash_of, same_text?,
  previous_is, verify_event, verify_from, verify_trace,
}

-- An event that may stand at place `expected` of a trace of `episode`, behind `previous` and the
-- events whose identifiers are `ids`.
pub record Follows (rt : Runtime) (episode : String) (expected : ℕ) (previous : Option TraceEvent)
    (ids : List String) (e : TraceEvent) : Type 0 where
  pub hash_before : is_sha256_digest e.state_hash_before ≡ true
  pub hash_after : is_sha256_digest e.state_hash_after ≡ true
  pub hash : is_sha256_digest e.event_hash ≡ true
  pub episode_id : e.episode_id ≡ episode
  pub sequence : e.sequence ≡ expected
  pub fresh : elem e.event_id ids ≡ false
  pub linked : e.previous_event_hash ≡ hash_of previous
  pub time : (p : TraceEvent) → previous ≡ some p → p.logical_time ≤ e.logical_time
  pub continuous : (p : TraceEvent) → previous ≡ some p → e.state_hash_before ≡ p.state_hash_after
  pub visible : breaks_boundary rt e.visibility e.payload ≡ false
  pub digest :
      e.event_hash ≡ canonical_sha256 rt.hasher (event_material (draft_of e) e.previous_event_hash)

raise_if-ok : (t : Bool) (x : risi.Prelude.Failure.Error) → raise_if t x ≡ ok tt → t ≡ false
raise_if-ok t x h = ground arith

same_text?-eq : (s t : Option String) → same_text? s t ≡ true → s ≡ t
same_text?-eq none none h = refl
same_text?-eq (some s) (some t) h = ap some ((eq_iff s t).0 h)
same_text?-eq none (some t) h = cc
same_text?-eq (some s) none h = cc

same_text?-refl : (s : Option String) → same_text? s s ≡ true
same_text?-refl none = refl
same_text?-refl (some s) = eq_refl s

-- The steps of `_verify_event` in one conjunction.
passes : Runtime → TraceEvent → String → ℕ → Option TraceEvent → List String → Bool
passes rt e episode expected previous ids =
    is_sha256_digest e.state_hash_before
    && is_sha256_digest e.state_hash_after
    && is_sha256_digest e.event_hash
    && (e.episode_id == episode)
    && eqb e.sequence expected
    && not (elem e.event_id ids)
    && same_text? e.previous_event_hash (hash_of previous)
    && not (previous_is previous (λ p. ltb e.logical_time p.logical_time))
    && not (previous_is previous (λ p. not (e.state_hash_before == p.state_hash_after)))
    && not (breaks_boundary rt e.visibility e.payload)
    && (e.event_hash == canonical_sha256 rt.hasher (event_material (draft_of e) (hash_of previous)))

verify_event-passes :
    (rt : Runtime) (e : TraceEvent) (episode : String) (expected : ℕ) (previous : Option TraceEvent)
    (ids : List String)
    → verify_event rt e episode expected previous ids ≡ ok tt
    → passes rt e episode expected previous ids ≡ true
unfolding verify_event passes
verify_event-passes rt e episode expected none ids h = ground arith
verify_event-passes rt e episode expected (some p) ids h = ground arith

passes-verify_event :
    (rt : Runtime) (e : TraceEvent) (episode : String) (expected : ℕ) (previous : Option TraceEvent)
    (ids : List String)
    → passes rt e episode expected previous ids ≡ true
    → verify_event rt e episode expected previous ids ≡ ok tt
unfolding verify_event passes
passes-verify_event rt e episode expected none ids h = ground arith
passes-verify_event rt e episode expected (some p) ids h = ground arith

module _ (rt : Runtime) (episode : String) (expected : ℕ) (ids : List String) (e : TraceEvent) where
  Follows-of_passes :
      (previous : Option TraceEvent)
      → passes rt e episode expected previous ids ≡ true
      → Follows rt episode expected previous ids e
  unfolding passes
  Follows-of_passes previous h =
      let linked : e.previous_event_hash ≡ hash_of previous =
        same_text?-eq e.previous_event_hash (hash_of previous) (ground arith) in
      record {
        hash_before = ground arith;
        hash_after = ground arith;
        hash = ground arith;
        episode_id = (eq_iff e.episode_id episode).0 (ground arith);
        sequence = ground arith;
        fresh = ground arith;
        linked = linked;
        time = λ p eq. ground arith;
        continuous = λ p eq. ground (arith, eq_iff e.state_hash_before p.state_hash_after);
        visible = ground arith;
        digest = rw linked ((eq_iff e.event_hash _).0 (ground arith));
      }

  passes_of_Follows :
      (previous : Option TraceEvent)
      → Follows rt episode expected previous ids e
      → passes rt e episode expected previous ids ≡ true
  unfolding passes
  passes_of_Follows none f = ground (
    arith,
    f.hash_before,
    (eq_iff e.episode_id episode).1 f.episode_id,
    (eq_iff e.event_hash _).1 f.digest,
  )
  passes_of_Follows (some p) f = ground (
    arith,
    f.time p refl,
    (eq_iff e.state_hash_before p.state_hash_after).1 (f.continuous p refl),
    (eq_iff e.episode_id episode).1 f.episode_id,
    (eq_iff e.event_hash _).1 f.digest,
    eq_refl p.event_hash,
  )

  -- `_verify_event` raises nothing for an event exactly if the event may follow: well-formed
  -- digests, the episode and the place expected, a fresh identifier, linked to the event before it,
  -- not earlier, continuous in state, within its visibility, and with the digest of its content.
  pub verify_event_iff :
      (previous : Option TraceEvent)
      → (verify_event rt e episode expected previous ids ≡ ok tt)
        ↔ Follows rt episode expected previous ids e
  verify_event_iff previous = (
    (λ h. Follows-of_passes previous (verify_event-passes rt e episode expected previous ids h)),
    (λ f. passes-verify_event rt e episode expected previous ids (passes_of_Follows previous f)),
  )

-- The last event, if any, and the identifiers met so far.
abbrev pub last_event : Option TraceEvent → List TraceEvent → Option TraceEvent
last_event previous [] = previous
last_event previous (e ∷ es) = last_event (some e) es

abbrev pub ids_after : List String → List TraceEvent → List String
ids_after ids [] = ids
ids_after ids (e ∷ es) = ids_after (e.event_id ∷ ids) es

module _ (rt : Runtime) (episode : String) (e : TraceEvent) where
  pub verify_from-append :
      (n : ℕ) (previous : Option TraceEvent) (ids : List String) (es : List TraceEvent)
      → verify_from rt episode n previous ids es ≡ ok tt
      → Follows rt episode (n + length es) (last_event previous es) (ids_after ids es) e
      → verify_from rt episode n previous ids (es ++ e ∷ []) ≡ ok tt
  unfolding verify_from
  verify_from-append n previous ids [] h f = rw (
      (verify_event_iff rt episode n ids e previous).1
        (subst (λ k. Follows rt episode k previous ids e) (omega arith) f))
  verify_from-append n previous ids (x ∷ es) h f =
      let (_, hx, rest) =
        >>=-eq-ok (verify_event rt x episode n previous ids)
          (λ _. verify_from rt episode (suc n) (some x) (x.event_id ∷ ids) es) h in
      rw hx (
        verify_from-append (suc n) (some x) (x.event_id ∷ ids) es rest (
          subst
            (λ k. Follows rt episode k (last_event (some x) es) (ids_after (x.event_id ∷ ids) es) e)
            (omega arith) f))

-- The episode that a trace belongs to, or that its first event would give it.
abbrev pub episode_of : List TraceEvent → String → String
episode_of [] episode = episode
episode_of (e ∷ es) episode = e.episode_id

pub verify_trace-append :
    (rt : Runtime) (es : List TraceEvent) (e : TraceEvent)
    → verify_trace rt es ≡ ok tt
    → Follows rt (episode_of es e.episode_id) (length es) (last_event none es) (ids_after [] es) e
    → verify_trace rt (es ++ e ∷ []) ≡ ok tt
unfolding verify_trace
verify_trace-append rt [] e h f = verify_from-append rt e.episode_id e 0 none [] [] refl f
verify_trace-append rt (x ∷ es) e h f = verify_from-append rt x.episode_id e 0 none [] (x ∷ es) h (
    subst (λ k. Follows rt x.episode_id k (last_event none (x ∷ es)) (ids_after [] (x ∷ es)) e)
      (omega arith) f)

-- What a draft must satisfy to continue a trace, beside what `create_event` checks itself.
pub record Continues (es : List TraceEvent) (d : TraceEventDraft) : Type 0 where
  pub episode_id : d.episode_id ≡ episode_of es d.episode_id
  pub sequence : d.sequence ≡ length es
  pub fresh : elem d.event_id (ids_after [] es) ≡ false
  pub time : (p : TraceEvent) → last_event none es ≡ some p → p.logical_time ≤ d.logical_time
  pub continuous :
      (p : TraceEvent) → last_event none es ≡ some p → d.state_hash_before ≡ p.state_hash_after

pub created_parts :
    (rt : Runtime) (d : TraceEventDraft) (previous : Option String) (e : TraceEvent)
    → create_event rt d previous ≡ ok e
    → (is_sha256_digest d.state_hash_before ≡ true)
      × (is_sha256_digest d.state_hash_after ≡ true)
      × (breaks_boundary rt d.visibility d.payload ≡ false)
      × (e ≡ seal rt d previous)
unfolding create_event
created_parts rt d none e h = ground arith
created_parts rt d (some p) e h = ground arith

sealed-Follows :
    (rt : Runtime) (es : List TraceEvent) (d : TraceEventDraft)
    → IsHexHasher rt.hasher
    → Continues es d
    → is_sha256_digest d.state_hash_before ≡ true
    → is_sha256_digest d.state_hash_after ≡ true
    → breaks_boundary rt d.visibility d.payload ≡ false
    → Follows rt
        (episode_of es d.episode_id)
        (length es)
        (last_event none es)
        (ids_after [] es)
        (seal rt d (hash_of (last_event none es)))
unfolding seal canonical_sha256
sealed-Follows rt es d hex c before after visible = record {
  hash_before = before;
  hash_after = after;
  hash = hex.hex _;
  episode_id = c.episode_id;
  sequence = c.sequence;
  fresh = c.fresh;
  linked = refl;
  time = c.time;
  continuous = c.continuous;
  visible = visible;
  digest = refl;
}

-- If digests are 64 hexadecimal digits, an event that `create_event` makes from a draft that
-- continues a verified trace, linked to its last event, extends it to a verified trace.
pub create_event-extends :
    (rt : Runtime) (es : List TraceEvent) (d : TraceEventDraft) (e : TraceEvent)
    → IsHexHasher rt.hasher
    → verify_trace rt es ≡ ok tt
    → Continues es d
    → create_event rt d (hash_of (last_event none es)) ≡ ok e
    → verify_trace rt (es ++ e ∷ []) ≡ ok tt
create_event-extends rt es d e hex v c made =
    let (before, after, visible, eq) = created_parts rt d (hash_of (last_event none es)) e made in
    verify_trace-append rt es e v (
      subst
        (λ (x : TraceEvent).
          Follows rt (episode_of es x.episode_id) (length es) (last_event none es) (ids_after [] es)
            x)
        (sym eq) (unfold seal in sealed-Follows rt es d hex c before after visible))
