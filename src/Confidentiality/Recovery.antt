-- ===== src/Confidentiality/Recovery.antt =====
-- The comparison of a vulnerable and a pure-read pair (`assess_risi_c_comparison` of
-- src/risi/confidentiality.py), from the states and views of the four arms.
use risi.Prelude.{◌≡◌, ◌↔◌, ◌∙◌, sym, refl, String, Bool, true, false, arith, if◌then◌else◌}
use risi.Prelude.Failure.{ok}
use risi.Models.{StateSnapshot}
use risi.Confidentiality.{
  RisiCPair, RisiCComparisonResult, ObserverView, RisiCOracle, check_oracle, halves_geq, halves_leq,
}
use risi.Confidentiality.Differences.{state_differences}
use risi.Confidentiality.Assessment.{
  Outside, RisiCPairAssessment, RisiCComparisonAssessment, assess_arms, is_sole_mediator,
  assess_risi_c_pair, is_recovered, assess_risi_c_comparison,
}
use risi.Confidentiality.Outcomes.{Mediates→mediator}
use risi.Confidentiality.Signals.{assess-assessment}
use risi.Confidentiality.Verdict.{
  IsLeak, IsNoLeak, vulnerable_pair, pure_read_pair, leak→, →leak, no_leak→, →no_leak,
}

abbrev pub reports_recovery : RisiCComparisonResult → Bool
reports_recovery RisiCComparisonResult.controlled_mechanism_recovered = true
reports_recovery RisiCComparisonResult.comparison_failed = false

module _ (out : Outside) (o : RisiCOracle) (checked : check_oracle o ≡ ok tt)
    (positive : halves_geq 0 o.positive_minimum_advantage ≡ false)
    (negative : halves_leq 1 o.negative_maximum_advantage ≡ false) (s t : StateSnapshot)
    (v w : ObserverView) (s' t' : StateSnapshot) (v' w' : ObserverView) where
  abbrev vulnerable_arms : RisiCPairAssessment
  vulnerable_arms = vulnerable_pair out o checked s t v w

  abbrev pure_read_arms : RisiCPairAssessment
  pure_read_arms = pure_read_pair out o checked s' t' v' w'

  recovered→ :
      is_recovered vulnerable_arms pure_read_arms ≡ true
      → IsLeak out s t v w o × IsNoLeak out s' t' v' w' o
  unfolding is_recovered
  recovered→ h = (
    leak→ out o checked s t v w positive (ground arith),
    no_leak→ out o checked s' t' v' w' negative (ground arith),
  )

  →recovered :
      IsLeak out s t v w o
      → IsNoLeak out s' t' v' w' o
      → is_recovered vulnerable_arms pure_read_arms ≡ true
  unfolding is_recovered assess_arms is_sole_mediator
  →recovered l n = rw (
    →leak out o checked s t v w positive l,
    →no_leak out o checked s' t' v' w' negative n,
    Mediates→mediator (state_differences s t) o.allowed_state_diff_path l.mediated,
    n.no_difference,
    l.sham_clean,
    l.hidden_clean,
    n.sham_clean,
    n.hidden_clean,
  )

  recovered_result :
      (b : Bool)
      → reports_recovery (
          if b
          then RisiCComparisonResult.controlled_mechanism_recovered
          else RisiCComparisonResult.comparison_failed)
        ≡ b
  recovered_result b = ground arith

  -- For a checked oracle with a positive threshold above zero and a negative one below one half, the
  -- two pairs are assessed and compared without an exception, and the comparison reports a recovered
  -- mechanism exactly if the vulnerable pair leaks and the pure-read pair does not.
  pub assess_risi_c_comparison_iff :
      (scenario state : String)
      → (a b : RisiCPairAssessment) × (r : RisiCComparisonAssessment) × (assess_risi_c_pair out
            RisiCPair.vulnerable s t v w o
          ≡ ok a)
        × (assess_risi_c_pair out RisiCPair.pure_read s' t' v' w' o ≡ ok b)
        × (assess_risi_c_comparison scenario state a b ≡ ok r)
        × ((reports_recovery r.result ≡ true) ↔ (IsLeak out s t v w o × IsNoLeak out s' t' v' w' o))
  unfolding assess_risi_c_comparison assess_arms
  assess_risi_c_comparison_iff scenario state = (
    vulnerable_arms,
    pure_read_arms,
    _,
    assess-assessment o checked out s t v w RisiCPair.vulnerable,
    assess-assessment o checked out s' t' v' w' RisiCPair.pure_read,
    refl,
    (
      (λ h. recovered→ (sym (recovered_result (is_recovered vulnerable_arms pure_read_arms)) ∙ h)),
      (λ h. recovered_result (is_recovered vulnerable_arms pure_read_arms) ∙ →recovered h.0 h.1),
    ),
  )
