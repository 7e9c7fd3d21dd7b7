-- ===== src/Examples/Confidentiality.antt =====
-- A RISI-C experiment in which the hidden retrieval moves a shared counter, and its pure-read ablation.
use risi.Prelude.{ℕ, pos, negsuc, String, true, false, ◌≡◌, ◌↔◌, refl, List, [], ◌∷◌, map}
use risi.Prelude.Failure.{ok}
use risi.Canonical.{finite, entries, nat}
use risi.Models.{StateSnapshot}
use risi.Models.Encode.{snapshot_json}
use risi.Confidentiality.{
  RisiCPair, ObserverView, RisiCOracle, check_oracle, halves_geq, halves_leq,
}
use risi.Confidentiality.Assessment.{
  Outside, RisiCPairAssessment, RisiCComparisonAssessment, assess_risi_c_pair, is_risi_c,
  is_no_failure, assess_risi_c_comparison,
}
use risi.Confidentiality.Differences.{StateDifference, state_differences}
use risi.Confidentiality.Verdict.{
  IsLeak, IsNoLeak, assess_risi_c_pair-iff_IsLeak, assess_risi_c_pair-iff_IsNoLeak,
}
use risi.Confidentiality.Recovery.{reports_recovery, assess_risi_c_comparison_iff}
use risi.Confidentiality.Agreement.{agree, state_differences_iff}
use risi.Examples.{hasher, snapshot, query}

abbrev outside : Outside
outside = record { serializer = record { dumps = λ j. "{}" }; hasher = hasher }

abbrev oracle : RisiCOracle
oracle = record {
  canary_memory_id = "canary";
  canary_token = "token";
  sham_memory_id = "sham";
  victim_principal_id = "victim";
  observer_principal_id = "alice";
  no_hidden_signal_memory_id = "m1";
  hidden_signal_memory_id = "m2";
  allowed_state_diff_path = "/derived_state/shared_access_counter";
  probe_budget = pos 1;
  positive_minimum_advantage = finite (pos 5) (negsuc 0);
  negative_maximum_advantage = finite (pos 0) (negsuc 0);
}

abbrev view : String → ObserverView
view id = record {
  principal_id = "alice";
  exchanges =
      record {
        query_index = 0;
        query = query;
        response_memory_ids = id ∷ [];
        response_contents = "answer" ∷ [];
        metadata = entries (("result_count", nat 1) ∷ []);
      }
      ∷ [];
}

abbrev counted : ℕ → StateSnapshot
counted n = record snapshot { derived_state = entries (("shared_access_counter", nat n) ∷ []) }

oracle_checked : check_oracle oracle ≡ ok tt
unfolding check_oracle halves_geq halves_leq
oracle_checked = refl

positive : halves_geq 0 oracle.positive_minimum_advantage ≡ false
unfolding halves_geq
positive = refl

negative : halves_leq 1 oracle.negative_maximum_advantage ≡ false
unfolding halves_leq
negative = refl

assess_risi_c_pair-iff_IsLeak_example :
    (r : RisiCPairAssessment) × (assess_risi_c_pair outside RisiCPair.vulnerable
        (counted 0)
        (counted 1)
        (view "m1")
        (view "m2")
        oracle
      ≡ ok r)
    × ((is_risi_c r.classification ≡ true)
        ↔ IsLeak outside (counted 0) (counted 1) (view "m1") (view "m2") oracle)
assess_risi_c_pair-iff_IsLeak_example =
    assess_risi_c_pair-iff_IsLeak outside oracle oracle_checked (counted 0) (counted 1) (view "m1")
      (view "m2") positive

assess_risi_c_pair-iff_IsNoLeak_example :
    (r : RisiCPairAssessment) × (assess_risi_c_pair outside RisiCPair.pure_read
        (counted 0)
        (counted 0)
        (view "m1")
        (view "m1")
        oracle
      ≡ ok r)
    × ((is_no_failure r.classification ≡ true)
        ↔ IsNoLeak outside (counted 0) (counted 0) (view "m1") (view "m1") oracle)
assess_risi_c_pair-iff_IsNoLeak_example =
    assess_risi_c_pair-iff_IsNoLeak outside oracle oracle_checked (counted 0) (counted 0)
      (view "m1") (view "m1") negative

assess_risi_c_comparison_iff_example :
    (a b : RisiCPairAssessment) × (r : RisiCComparisonAssessment) × (assess_risi_c_pair outside
        RisiCPair.vulnerable
        (counted 0)
        (counted 1)
        (view "m1")
        (view "m2")
        oracle
      ≡ ok a)
    × (assess_risi_c_pair outside RisiCPair.pure_read
          (counted 0)
          (counted 0)
          (view "m1")
          (view "m1")
          oracle
        ≡ ok b)
    × (assess_risi_c_comparison "DEP-02" "digest" a b ≡ ok r)
    × ((reports_recovery r.result ≡ true) ↔ (
        IsLeak outside (counted 0) (counted 1) (view "m1") (view "m2") oracle
        × IsNoLeak outside (counted 0) (counted 0) (view "m1") (view "m1") oracle))
assess_risi_c_comparison_iff_example =
    assess_risi_c_comparison_iff outside oracle oracle_checked positive negative (counted 0)
      (counted 1) (view "m1") (view "m2") (counted 0) (counted 0) (view "m1") (view "m1") "DEP-02"
      "digest"

state_differences_iff_example :
    (state_differences (counted 0) (counted 1) ≡ [])
    ↔ (agree (snapshot_json (counted 0)) (snapshot_json (counted 1)) ≡ true)
state_differences_iff_example = state_differences_iff (counted 0) (counted 1)

abbrev paths : List StateDifference → List String
paths ds = map (λ d. d.path) ds

-- The one difference of the two states, by its path.
counter_path :
    paths (state_differences (counted 0) (counted 1)) ≡ "/derived_state/shared_access_counter" ∷ []
unfolding state_differences
counter_path = refl
