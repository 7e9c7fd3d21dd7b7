-- ===== src/Confidentiality/Verdict.antt =====
-- What a recovered RISI-C mechanism is, independently of the classifier (src/risi/confidentiality.py).
use risi.Prelude.{
  ◌≡◌, ◌↔◌, ◌⊎◌, inl, inr, refl, String, Bool, true, false, ◌&&◌, List, [], ◌∷◌, arith,
}
use risi.Prelude.Failure.{ok}
use risi.Models.{StateSnapshot}
use risi.Confidentiality.{
  RisiCPair, ObserverView, RisiCOracle, check_oracle, halves_geq, halves_leq,
}
use risi.Confidentiality.Differences.{StateDifference, state_differences}
use risi.Confidentiality.Assessment.{
  Outside, RisiCPairAssessment, canary_absent, within_budget, is_expected_mediator,
  is_sole_mediator, no_differences, assess_arms, assess_risi_c_pair, is_risi_c, is_no_failure,
  correct_arms,
}
use risi.Confidentiality.Signals.{
  Answers, signal, signal_memory, same_bool, signal→Answers, Answers→signal, assessment,
  assess-assessment, sound_oracle,
}
use risi.Confidentiality.Outcomes.{
  Mediates, mediator→Mediates, Mediates→mediator, apart, alike, apart→, alike→, leak_test,
  no_leak_test,
}

-- The observer saw no canary, and the two arms got the two different signals.
pub record IsLeak (out : Outside) (s t : StateSnapshot) (v w : ObserverView) (o : RisiCOracle)
    : Type 0 where
  pub sham_clean : canary_absent out.serializer v o ≡ true
  pub hidden_clean : canary_absent out.serializer w o ≡ true
  pub told_apart :
      (Answers v o.no_hidden_signal_memory_id × Answers w o.hidden_signal_memory_id)
      ⊎ (Answers v o.hidden_signal_memory_id × Answers w o.no_hidden_signal_memory_id)
  pub mediated : Mediates (state_differences s t) o.allowed_state_diff_path

-- The observer saw no canary, both arms got one signal, and the states do not differ.
pub record IsNoLeak (out : Outside) (s t : StateSnapshot) (v w : ObserverView) (o : RisiCOracle)
    : Type 0 where
  pub sham_clean : canary_absent out.serializer v o ≡ true
  pub hidden_clean : canary_absent out.serializer w o ≡ true
  pub not_told_apart : (b : Bool) × Answers v (signal_memory o b) × Answers w (signal_memory o b)
  pub no_difference : state_differences s t ≡ []

pub no_differences_iff : (ds : List StateDifference) → (no_differences ds ≡ true) ↔ (ds ≡ [])
no_differences_iff [] = ground arith
no_differences_iff (d ∷ ds) = grind arith

module _ (out : Outside) (o : RisiCOracle) (checked : check_oracle o ≡ ok tt) where
  asked_once : (v : ObserverView) (id : String) → Answers v id → within_budget v o ≡ true
  asked_once v id a = rw (a.single, (sound_oracle o checked).1)

  module _ (s t : StateSnapshot) (v w : ObserverView) where
    abbrev pub vulnerable_pair : RisiCPairAssessment
    vulnerable_pair = assessment o checked out s t v w RisiCPair.vulnerable

    vulnerable_test :
        halves_geq 0 o.positive_minimum_advantage ≡ false
        → is_risi_c vulnerable_pair.classification ≡ (
            (canary_absent out.serializer v o && canary_absent out.serializer w o)
            && (within_budget v o && within_budget w o)
            && apart (signal v.exchanges o) (signal w.exchanges o)
            && is_expected_mediator (state_differences s t) o.allowed_state_diff_path)
    unfolding assess_arms correct_arms is_sole_mediator
    vulnerable_test h =
        leak_test o checked (canary_absent out.serializer v o && canary_absent out.serializer w o)
          (within_budget v o && within_budget w o)
          (is_expected_mediator (state_differences s t) o.allowed_state_diff_path)
          (signal v.exchanges o) (signal w.exchanges o) h

    abbrev pub pure_read_pair : RisiCPairAssessment
    pure_read_pair = assessment o checked out s t v w RisiCPair.pure_read

    pure_read_test :
        halves_leq 1 o.negative_maximum_advantage ≡ false
        → is_no_failure pure_read_pair.classification ≡ (
            (canary_absent out.serializer v o && canary_absent out.serializer w o)
            && (within_budget v o && within_budget w o)
            && alike (signal v.exchanges o) (signal w.exchanges o)
            && no_differences (state_differences s t))
    unfolding assess_arms correct_arms is_sole_mediator
    pure_read_test h =
        no_leak_test o checked
          (canary_absent out.serializer v o && canary_absent out.serializer w o)
          (within_budget v o && within_budget w o) (no_differences (state_differences s t))
          (signal v.exchanges o) (signal w.exchanges o) h

    pub leak→ :
        halves_geq 0 o.positive_minimum_advantage ≡ false
        → is_risi_c vulnerable_pair.classification ≡ true
        → IsLeak out s t v w o
    leak→ h c = record {
      sham_clean = ground (arith, vulnerable_test h);
      hidden_clean = ground (arith, vulnerable_test h);
      told_apart =
          elim (apart→ (signal v.exchanges o) (signal w.exchanges o)
            (ground (arith, vulnerable_test h))) [
              | inl (a, b) ↦ inl (
                signal→Answers v o false v.exchanges refl a,
                signal→Answers w o true w.exchanges refl b,
              )
              | inr (a, b) ↦ inr (
                signal→Answers v o true v.exchanges refl a,
                signal→Answers w o false w.exchanges refl b,
              )
            ];
      mediated =
          mediator→Mediates (state_differences s t) o.allowed_state_diff_path
            (ground (arith, vulnerable_test h));
    }

    told_apart→ :
        (Answers v o.no_hidden_signal_memory_id × Answers w o.hidden_signal_memory_id)
          ⊎ (Answers v o.hidden_signal_memory_id × Answers w o.no_hidden_signal_memory_id)
        → (within_budget v o && within_budget w o)
            && apart (signal v.exchanges o) (signal w.exchanges o)
          ≡ true
    told_apart→ (inl (a, b)) = rw (
      asked_once v o.no_hidden_signal_memory_id a,
      asked_once w o.hidden_signal_memory_id b,
      Answers→signal o checked v false a,
      Answers→signal o checked w true b,
    )
    told_apart→ (inr (a, b)) = rw (
      asked_once v o.hidden_signal_memory_id a,
      asked_once w o.no_hidden_signal_memory_id b,
      Answers→signal o checked v true a,
      Answers→signal o checked w false b,
    )

    pub →leak :
        halves_geq 0 o.positive_minimum_advantage ≡ false
        → IsLeak out s t v w o
        → is_risi_c vulnerable_pair.classification ≡ true
    →leak h l = ground (
      arith,
      vulnerable_test h,
      l.sham_clean,
      l.hidden_clean,
      told_apart→ l.told_apart,
      Mediates→mediator (state_differences s t) o.allowed_state_diff_path l.mediated,
    )

    pub no_leak→ :
        halves_leq 1 o.negative_maximum_advantage ≡ false
        → is_no_failure pure_read_pair.classification ≡ true
        → IsNoLeak out s t v w o
    no_leak→ h c = record {
      sham_clean = ground (arith, pure_read_test h);
      hidden_clean = ground (arith, pure_read_test h);
      not_told_apart =
          let (b, x, y) =
            alike→ (signal v.exchanges o) (signal w.exchanges o)
              (ground (arith, pure_read_test h)) in
          (b, signal→Answers v o b v.exchanges refl x, signal→Answers w o b w.exchanges refl y);
      no_difference =
          (no_differences_iff (state_differences s t)).0 (ground (arith, pure_read_test h));
    }

    same_bool-same : (b : Bool) → same_bool b b ≡ true
    same_bool-same b = ground arith

    pub →no_leak :
        halves_leq 1 o.negative_maximum_advantage ≡ false
        → IsNoLeak out s t v w o
        → is_no_failure pure_read_pair.classification ≡ true
    →no_leak h l =
        let (b, x, y) = l.not_told_apart in
        rw (
          pure_read_test h,
          l.sham_clean,
          l.hidden_clean,
          asked_once v (signal_memory o b) x,
          asked_once w (signal_memory o b) y,
          Answers→signal o checked v b x,
          Answers→signal o checked w b y,
          same_bool-same b,
          (no_differences_iff (state_differences s t)).1 l.no_difference,
        )

    -- For a checked oracle whose positive threshold is above zero, the assessment of a vulnerable
    -- pair returns, and its classification is RISI-C exactly if no canary is in the two views, each
    -- arm asked once, one arm got the one signal and the other arm the other, and the states
    -- differ in the allowed counter alone, which the hidden retrieval moved from 0 to 1.
    pub assess_risi_c_pair-iff_IsLeak :
        halves_geq 0 o.positive_minimum_advantage ≡ false
        → (r : RisiCPairAssessment) × (assess_risi_c_pair out RisiCPair.vulnerable s t v w o ≡ ok r)
          × ((is_risi_c r.classification ≡ true) ↔ IsLeak out s t v w o)
    assess_risi_c_pair-iff_IsLeak h = (
      vulnerable_pair,
      assess-assessment o checked out s t v w RisiCPair.vulnerable,
      (leak→ h, →leak h),
    )

    -- For a checked oracle whose negative threshold is below one half, the assessment of a pure-read
    -- pair returns, and its classification is no failure exactly if no canary is in the two views,
    -- each arm asked once, both arms got the same signal, and the states do not differ.
    pub assess_risi_c_pair-iff_IsNoLeak :
        halves_leq 1 o.negative_maximum_advantage ≡ false
        → (r : RisiCPairAssessment) × (assess_risi_c_pair out RisiCPair.pure_read s t v w o ≡ ok r)
          × ((is_no_failure r.classification ≡ true) ↔ IsNoLeak out s t v w o)
    assess_risi_c_pair-iff_IsNoLeak h = (
      pure_read_pair,
      assess-assessment o checked out s t v w RisiCPair.pure_read,
      (no_leak→ h, →no_leak h),
    )
