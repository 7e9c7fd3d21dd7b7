-- ===== src/Craf/Comparison.antt =====
-- What `assess_craf_comparison` of src/risi/craf.py concludes from the assessments of the trials.
use risi.Prelude.{
  ◌≡◌, ◌≢◌, ◌↔◌, refl, sym, subst, String, Bool, true, false, none, some, List, [], ◌∷◌, ◌++◌, All,
  Bool-cases, inl, inr, if◌then◌else◌,
}
use risi.Prelude.Failure.{ok}
use risi.Canonical.Digest.{Hasher}
use risi.Craf.{
  CrafArm, CrafComparisonResult, CrafAssessment, CrafTrialEvidence, CrafComparisonAssessment,
  assess_craf_trial, recovered, by_arm, same_arm, assess_craf_comparison,
}
use risi.Craf.Verdict.{IsMechanism, recovered_iff}

abbrev pub is_recovered : CrafComparisonResult → Bool
is_recovered CrafComparisonResult.controlled_mechanism_recovered = true
is_recovered CrafComparisonResult.comparison_failed = false

abbrev pub three : CrafAssessment → CrafAssessment → CrafAssessment → List CrafAssessment
three c v p = c ∷ v ∷ p ∷ []

-- `x` is the last of the assessments of its arm.
pub record IsLast (arm : CrafArm) (x : CrafAssessment) (xs : List CrafAssessment) : Type 0 where
  pub before : List CrafAssessment
  pub after : List CrafAssessment
  pub placed : xs ≡ before ++ x ∷ after
  pub of_arm : x.arm ≡ arm
  pub no_later : All (λ (y : CrafAssessment). y.arm ≢ arm) after

same_arm-eq : (a b : CrafArm) → same_arm a b ≡ true → a ≡ b
same_arm-eq CrafArm.control CrafArm.control h = refl
same_arm-eq CrafArm.control CrafArm.vulnerable h = cc
same_arm-eq CrafArm.control CrafArm.protected h = cc
same_arm-eq CrafArm.vulnerable CrafArm.control h = cc
same_arm-eq CrafArm.vulnerable CrafArm.vulnerable h = refl
same_arm-eq CrafArm.vulnerable CrafArm.protected h = cc
same_arm-eq CrafArm.protected CrafArm.control h = cc
same_arm-eq CrafArm.protected CrafArm.vulnerable h = cc
same_arm-eq CrafArm.protected CrafArm.protected h = refl

same_arm_refl : (a : CrafArm) → same_arm a a ≡ true
same_arm_refl CrafArm.control = refl
same_arm_refl CrafArm.vulnerable = refl
same_arm_refl CrafArm.protected = refl

by_arm-none :
    (arm : CrafArm) (ys : List CrafAssessment)
    → All (λ (y : CrafAssessment). y.arm ≢ arm) ys
    → by_arm arm ys ≡ none
unfolding by_arm
by_arm-none arm [] h = refl
by_arm-none arm (y ∷ ys) (differ, rest) = elim (Bool-cases (same_arm y.arm arm)) [
  | inl t ↦ absurd (differ (same_arm-eq y.arm arm t))
  | inr f ↦ rw (by_arm-none arm ys rest, f) refl
]

by_arm-placed :
    (arm : CrafArm) (x : CrafAssessment) (before after : List CrafAssessment)
    → x.arm ≡ arm
    → All (λ (y : CrafAssessment). y.arm ≢ arm) after
    → by_arm arm (before ++ x ∷ after) ≡ some x
unfolding by_arm
by_arm-placed arm x [] after is no_later =
    rw (by_arm-none arm after no_later, is, same_arm_refl arm) refl
by_arm-placed arm x (y ∷ before) after is no_later =
    rw (by_arm-placed arm x before after is no_later) refl

by_arm-last :
    (arm : CrafArm) (x : CrafAssessment) (xs : List CrafAssessment)
    → IsLast arm x xs
    → by_arm arm xs ≡ some x
by_arm-last arm x xs last =
    rw last.placed (by_arm-placed arm x last.before last.after last.of_arm last.no_later)

verdict-recovered :
    (b : Bool)
    → is_recovered (
        if b
        then CrafComparisonResult.controlled_mechanism_recovered
        else CrafComparisonResult.comparison_failed)
      ≡ b
verdict-recovered true = refl
verdict-recovered false = refl

module _ (scenario state : String) (arms : List CrafAssessment) (c v p : CrafAssessment) where
  -- The comparison looks at one assessment of each arm.
  compared :
      by_arm CrafArm.control arms ≡ some c
      → by_arm CrafArm.vulnerable arms ≡ some v
      → by_arm CrafArm.protected arms ≡ some p
      → (r : CrafComparisonAssessment) × (assess_craf_comparison scenario state arms ≡ ok r)
        × (is_recovered r.result ≡ recovered c v p)
  unfolding assess_craf_comparison
  compared hc hv hp = rw (hc, hv, hp) (_, refl, verdict-recovered (recovered c v p))

  -- If each of the three arms is among the assessments, however often and in whatever order, the
  -- comparison returns, and its verdict is that of the last assessment of each arm.
  pub assess_craf_comparison-last :
      IsLast CrafArm.control c arms
      → IsLast CrafArm.vulnerable v arms
      → IsLast CrafArm.protected p arms
      → (r : CrafComparisonAssessment) × (assess_craf_comparison scenario state arms ≡ ok r)
        × (is_recovered r.result ≡ recovered c v p)
  assess_craf_comparison-last lc lv lp =
      compared (by_arm-last CrafArm.control c arms lc) (by_arm-last CrafArm.vulnerable v arms lv)
        (by_arm-last CrafArm.protected p arms lp)

-- The comparison of a control, a vulnerable and a protected trial returns, and reports the
-- mechanism as recovered exactly if the three trials show its pattern.
pub assess_craf_comparison_iff :
    (h : Hasher) (scenario state : String) (c v p : CrafTrialEvidence)
    → c.arm ≡ CrafArm.control
    → v.arm ≡ CrafArm.vulnerable
    → p.arm ≡ CrafArm.protected
    → (r : CrafComparisonAssessment) × (assess_craf_comparison scenario state
          (three (assess_craf_trial h c) (assess_craf_trial h v) (assess_craf_trial h p))
        ≡ ok r)
      × ((is_recovered r.result ≡ true) ↔ IsMechanism h c v p)
unfolding assess_craf_trial
assess_craf_comparison_iff h scenario state c v p is_c is_v is_p =
    let x = assess_craf_trial h c in
    let y = assess_craf_trial h v in
    let z = assess_craf_trial h p in
    let (r, made, verdict) =
      assess_craf_comparison-last scenario state (three x y z) x y z
        (record {
          before = [];
          after = y ∷ z ∷ [];
          placed = refl;
          of_arm = is_c;
          no_later = (λ e. cc, (λ e. cc, tt));
        })
        (record {
          before = x ∷ [];
          after = z ∷ [];
          placed = refl;
          of_arm = is_v;
          no_later = (λ e. cc, tt);
        })
        (record { before = x ∷ y ∷ []; after = []; placed = refl; of_arm = is_p; no_later = tt }) in
    (r, made, subst (λ b. (b ≡ true) ↔ IsMechanism h c v p) (sym verdict) (recovered_iff h c v p))
