-- ===== src/Trace/Tamper.antt =====
-- Tamper evidence of verified traces (src/risi/trace.py).
use native.Mathlib.Decide.{ℕ_discrete}
use risi.Prelude.{
  ℕ, suc, ◌+◌, String, ◌≡◌, refl, Option, none, some, List, [], ◌∷◌, ◌⊎◌, inl, inr, ◌==◌, eq_iff,
  Bool-cases, length, arith,
}
use risi.Prelude.Failure.{ok, >>=-eq-ok}
use risi.Canonical.{Json, get, obj, str_or_null, nat}
use risi.Canonical.Digest.{canonical_sha256, sort_keys, Collision}
use risi.Models.{TraceEvent, TraceEventDraft}
use risi.Trace.{Runtime, event_material, draft_of, verify_event, verify_from, verify_trace}
use risi.Trace.Extension.{Follows, verify_event_iff}

String-discrete : Discrete String
String-discrete s t = elim (Bool-cases (s == t)) [
  | inl e ↦ yes ((eq_iff s t).0 e)
  | inr ne ↦ no (λ p. cc ((eq_iff s t).1 p))
]

pub Json-discrete : Discrete Json
Json-discrete = hlevel (ℕ_discrete, String-discrete)

-- All that an event says, its own digest left out, and the order of keys in its payload.
abbrev pub content : TraceEvent → Json
content e = sort_keys (event_material (draft_of e) e.previous_event_hash)

-- The two traces say the same, event by event.
abbrev pub SameContents : List TraceEvent → List TraceEvent → Type 0
SameContents [] [] = Unit
SameContents (e ∷ es) (f ∷ fs) = (content e ≡ content f) × SameContents es fs
SameContents _ _ = ⊥

-- An entry of an object.
abbrev member : String → Json → Option Json
member k (obj fs) = get k fs
member k _ = none

member-previous :
    (d : TraceEventDraft) (p : Option String)
    → member "previous_event_hash" (sort_keys (event_material d p)) ≡ some (str_or_null p)
unfolding event_material sort_keys
member-previous d none = refl
member-previous d (some p) = refl

member-sequence :
    (d : TraceEventDraft) (p : Option String)
    → member "sequence" (sort_keys (event_material d p)) ≡ some (nat d.sequence)
unfolding event_material sort_keys
member-sequence d p = refl

str_or_null-injective : (p q : Option String) → str_or_null p ≡ str_or_null q → p ≡ q
str_or_null-injective none none e = refl
str_or_null-injective (some p) (some q) e = cc
str_or_null-injective none (some q) e = cc
str_or_null-injective (some p) none e = cc

module _ (rt : Runtime) where
  -- The event's digest is that of its content.
  IsSealed : TraceEvent → Type 0
  IsSealed e =
      e.event_hash ≡ canonical_sha256 rt.hasher (event_material (draft_of e) e.previous_event_hash)

  same_content :
      (e f : TraceEvent)
      → IsSealed e
      → IsSealed f
      → e.event_hash ≡ f.event_hash
      → (content e ≡ content f) ⊎ Collision rt.hasher
  unfolding IsSealed
  same_content e f he hf eq = elim (Json-discrete (content e) (content f)) [
    | yes same ↦ inl same
    | no differ ↦ inr (record {
      left = event_material (draft_of e) e.previous_event_hash;
      right = event_material (draft_of f) f.previous_event_hash;
      distinct = differ;
      agree = cc (he, hf, eq);
    })
  ]

same_previous :
    (e f : TraceEvent) → content e ≡ content f → e.previous_event_hash ≡ f.previous_event_hash
same_previous e f h = str_or_null-injective e.previous_event_hash f.previous_event_hash (
    cc (
      member-previous (draft_of e) e.previous_event_hash,
      member-previous (draft_of f) f.previous_event_hash,
    ))

same_sequence : (e f : TraceEvent) → content e ≡ content f → e.sequence ≡ f.sequence
same_sequence e f h = cc (
  member-sequence (draft_of e) e.previous_event_hash,
  member-sequence (draft_of f) f.previous_event_hash,
)

linked_hashes :
    (e f x y : TraceEvent)
    → x.previous_event_hash ≡ some e.event_hash
    → y.previous_event_hash ≡ some f.event_hash
    → x.previous_event_hash ≡ y.previous_event_hash
    → e.event_hash ≡ f.event_hash
linked_hashes e f x y hx hy h = cc

first_same {ℓ} :
    {C : Type ℓ} (e f : TraceEvent) (es fs : List TraceEvent)
    → (content e ≡ content f) ⊎ C
    → SameContents es fs
    → SameContents (e ∷ es) (f ∷ fs) ⊎ C
first_same e f es fs (inl h) rest = inl (h, rest)
first_same e f es fs (inr c) rest = inr c

-- The last event of a nonempty trace.
abbrev pub final : TraceEvent → List TraceEvent → TraceEvent
final e [] = e
final e (x ∷ xs) = final x xs

module _ (rt : Runtime) where
  head-Follows :
      (episode : String) (n : ℕ) (p : Option TraceEvent) (ids : List String) (x : TraceEvent)
      (es : List TraceEvent)
      → verify_from rt episode n p ids (x ∷ es) ≡ ok tt
      → Follows rt episode n p ids x
        × (verify_from rt episode (suc n) (some x) (x.event_id ∷ ids) es ≡ ok tt)
  unfolding verify_from
  head-Follows episode n p ids x es h =
      let (_, hx, rest) =
        >>=-eq-ok (verify_event rt x episode n p ids)
          (λ _. verify_from rt episode (suc n) (some x) (x.event_id ∷ ids) es) h in
      ((verify_event_iff rt episode n ids x p).0 hx, rest)

  final-sequence :
      (episode : String) (n : ℕ) (p : Option TraceEvent) (ids : List String) (x : TraceEvent)
      (es : List TraceEvent)
      → verify_from rt episode n p ids (x ∷ es) ≡ ok tt
      → (final x es).sequence ≡ n + length es
  final-sequence episode n p ids x [] h =
      omega (arith, (head-Follows episode n p ids x [] h).0.sequence)
  final-sequence episode n p ids x (y ∷ es) h = omega (
    arith,
    final-sequence episode (suc n) (some x) (x.event_id ∷ ids) y es
        (head-Follows episode n p ids x (y ∷ es) h).1,
  )

  final-IsSealed :
      (episode : String) (n : ℕ) (p : Option TraceEvent) (ids : List String) (x : TraceEvent)
      (es : List TraceEvent)
      → verify_from rt episode n p ids (x ∷ es) ≡ ok tt
      → IsSealed rt (final x es)
  unfolding IsSealed
  final-IsSealed episode n p ids x [] h = (head-Follows episode n p ids x [] h).0.digest
  final-IsSealed episode n p ids x (y ∷ es) h =
      final-IsSealed episode (suc n) (some x) (x.event_id ∷ ids) y es
        (head-Follows episode n p ids x (y ∷ es) h).1

  same_from :
      (ep fp : String) (n : ℕ) (p q : Option TraceEvent) (is js : List String) (e f : TraceEvent)
      (es fs : List TraceEvent)
      → verify_from rt ep n p is (e ∷ es) ≡ ok tt
      → verify_from rt fp n q js (f ∷ fs) ≡ ok tt
      → length es ≡ length fs
      → (final e es).event_hash ≡ (final f fs).event_hash
      → SameContents (e ∷ es) (f ∷ fs) ⊎ Collision rt.hasher
  unfolding IsSealed
  same_from ep fp n p q is js e f [] [] he hf len last =
      first_same e f [] []
        (same_content rt e f (head-Follows ep n p is e [] he).0.digest
          (head-Follows fp n q js f [] hf).0.digest last)
        tt
  same_from ep fp n p q is js e f (x ∷ es) (y ∷ fs) he hf len last =
      let (ee, re) = head-Follows ep n p is e (x ∷ es) he in
      let (ff, rf) = head-Follows fp n q js f (y ∷ fs) hf in
      elim (same_from ep fp (suc n) (some e) (some f) (e.event_id ∷ is) (f.event_id ∷ js) x y es fs
        re rf (omega arith) last) [
          | inr c ↦ inr c
          | inl rest ↦
              first_same e f (x ∷ es) (y ∷ fs)
                (same_content rt e f ee.digest ff.digest (
                  linked_hashes e f x y
                    (head-Follows ep (suc n) (some e) (e.event_id ∷ is) x es re).0.linked
                    (head-Follows fp (suc n) (some f) (f.event_id ∷ js) y fs rf).0.linked
                    (same_previous x y rest.0)))
                rest
        ]
  same_from ep fp n p q is js e f [] (y ∷ fs) he hf len last = absurd (omega arith)
  same_from ep fp n p q is js e f (x ∷ es) [] he hf len last = absurd (omega arith)

  -- Two verified traces whose last events carry one digest say the same, event by event and in
  -- number, unless two different values with one digest are at hand.
  pub anchor_fixes_trace :
      (e f : TraceEvent) (es fs : List TraceEvent)
      → verify_trace rt (e ∷ es) ≡ ok tt
      → verify_trace rt (f ∷ fs) ≡ ok tt
      → (final e es).event_hash ≡ (final f fs).event_hash
      → SameContents (e ∷ es) (f ∷ fs) ⊎ Collision rt.hasher
  unfolding verify_trace IsSealed
  anchor_fixes_trace e f es fs he hf last =
      elim (same_content rt (final e es) (final f fs)
        (final-IsSealed e.episode_id 0 none [] e es he)
        (final-IsSealed f.episode_id 0 none [] f fs hf) last) [
          | inr c ↦ inr c
          | inl same ↦
              same_from e.episode_id f.episode_id 0 none none [] [] e f es fs he hf
                (omega (
                  arith,
                  same_sequence (final e es) (final f fs) same,
                  final-sequence e.episode_id 0 none [] e es he,
                  final-sequence f.episode_id 0 none [] f fs hf,
                ))
                last
        ]
