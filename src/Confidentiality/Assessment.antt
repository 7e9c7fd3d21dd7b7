-- ===== src/Confidentiality/Assessment.antt =====
-- `assess_risi_c_pair` and `assess_risi_c_comparison` of src/risi/confidentiality.py. The accuracy of
-- the two arms and the advantage are numbers of halves: an accuracy of 1 is 0.5.
use risi.Prelude.{
  ℕ, pos, eq_ℤ, eqb, ◌+◌, ◌-◌, String, Bool, true, false, not, ◌&&◌, ◌||◌, Option, none, some, List,
  [], ◌∷◌, ◌==◌, length, is_none, if◌then◌else◌,
}
use risi.Prelude.Failure.{Result, ok, err, value_error, index_error, ◌>>=◌, ◌>>◌, raise_if}
use risi.Canonical.{Json, nat}
use risi.Canonical.Digest.{Hasher, canonical_sha256}
use risi.Models.{StateSnapshot}
use risi.Models.Encode.{snapshot_json}
use risi.Confidentiality.{
  RisiCPair, RisiCArm, RisiCClassification, RisiCComparisonResult, ObserverExchange, ObserverView,
  RisiCOracle, Serializer, view_json, canonical_json, contained, halves_geq, halves_leq,
}
use risi.Confidentiality.Differences.{StateDifference, state_differences, same_leaf}

-- What the code takes from outside src/: the serialization of JSON, and its digest.
pub record Outside : Type 0 where
  pub serializer : Serializer
  pub hasher : Hasher

pub record RisiCArmAssessment : Type 0 where
  pub arm : RisiCArm
  pub label : ℕ
  pub prediction : Option ℕ
  pub correct : Bool
  pub observer_view_sha256 : String
  pub final_state_sha256 : String

pub record RisiCPairAssessment : Type 0 where
  pub pair : RisiCPair
  pub classification : RisiCClassification
  pub accuracy : ℕ
  pub advantage : ℕ
  pub canary_absent : Bool
  pub observer_budget_respected : Bool
  pub sole_mediator : Bool
  pub state_differences : List StateDifference
  pub arms : List RisiCArmAssessment

pub record RisiCComparisonAssessment : Type 0 where
  pub scenario_id : String
  pub shared_initial_state_sha256 : String
  pub result : RisiCComparisonResult
  pub pairs : List RisiCPairAssessment

-- `response_ids == (memory_id,)`
abbrev pub is_only : String → List String → Bool
is_only s [] = false
is_only s (t ∷ []) = t == s
is_only s (t ∷ u ∷ us) = false

-- `view.exchanges[0].response_memory_ids`
abbrev pub first_response : List ObserverExchange → Result (List String)
first_response [] = err (index_error "tuple index out of range")
first_response (x ∷ xs) = ok x.response_memory_ids

abbrev pub within_budget : ObserverView → RisiCOracle → Bool
within_budget v o = eq_ℤ (pos (length v.exchanges)) o.probe_budget

abbrev pub classify_response : List String → RisiCOracle → Result ℕ
classify_response ids o =
    if is_only o.hidden_signal_memory_id ids
    then ok 1
    else if is_only o.no_hidden_signal_memory_id ids
    then ok 0
    else err (value_error "observer response is outside the frozen classifier domain")

-- `_prediction`
unfoldable pub predict : ObserverView → RisiCOracle → Result ℕ
predict v o = do
  raise_if (not (within_budget v o))
      (value_error "observer view does not match the frozen probe budget")
  ids ← first_response v.exchanges
  classify_response ids o

-- `try: ... except ValueError: prediction = None`
abbrev pub none_on_value_error : Result ℕ → Result (Option ℕ)
none_on_value_error (ok n) = ok (some n)
none_on_value_error (err (value_error message)) = ok none
none_on_value_error (err error) = err error

-- `prediction == label`
abbrev pub equals_label : Option ℕ → ℕ → Bool
equals_label none label = false
equals_label (some n) label = eqb n label

unfoldable pub canary_absent : Serializer → ObserverView → RisiCOracle → Bool
canary_absent s v o =
    not (contained o.canary_memory_id (canonical_json s (view_json v)))
    && not (contained o.canary_token (canonical_json s (view_json v)))

-- One turn of the loop over `views`.
unfoldable pub assess_arm :
    Outside → RisiCOracle → RisiCArm → ℕ → ObserverView → StateSnapshot → Result RisiCArmAssessment
assess_arm out o arm label v s = do
  prediction ← none_on_value_error (predict v o)
  ok (record {
    arm = arm;
    label = label;
    prediction = prediction;
    correct = equals_label prediction label;
    observer_view_sha256 = canonical_sha256 out.hasher (view_json v);
    final_state_sha256 = canonical_sha256 out.hasher (snapshot_json s);
  })

-- `sum(arm.correct for arm in arms)` of two arms
abbrev pub one_if : Bool → ℕ
one_if true = 1
one_if false = 0

unfoldable pub correct_arms : RisiCArmAssessment → RisiCArmAssessment → ℕ
correct_arms a b = one_if a.correct + one_if b.correct

-- `abs(accuracy - 0.5)`, in halves
unfoldable pub distance_from_half : ℕ → ℕ
distance_from_half c = (c - 1) + (1 - c)

-- `value == 0` of a value in a difference, and `value == 1`: `True` is 1.
abbrev pub equals_number : Json → ℕ → Bool
equals_number v n = same_leaf v (nat n)

unfoldable pub is_expected_mediator : List StateDifference → String → Bool
is_expected_mediator [] allowed = false
is_expected_mediator (d ∷ []) allowed =
    d.path == allowed
    && d.no_hidden_present
    && d.hidden_present
    && equals_number d.no_hidden_value 0
    && equals_number d.hidden_value 1
is_expected_mediator (d ∷ e ∷ ds) allowed = false

abbrev pub no_differences : List StateDifference → Bool
no_differences [] = true
no_differences (d ∷ ds) = false

unfoldable pub is_sole_mediator : RisiCPair → List StateDifference → String → Bool
is_sole_mediator RisiCPair.vulnerable ds allowed = is_expected_mediator ds allowed
is_sole_mediator RisiCPair.pure_read ds allowed = no_differences ds

-- The classification of a pair whose predictions are all there.
abbrev pub classify_advantage : RisiCPair → RisiCOracle → ℕ → Bool → RisiCClassification
classify_advantage RisiCPair.vulnerable o advantage mediated =
    if halves_geq advantage o.positive_minimum_advantage && mediated
    then RisiCClassification.risi_c
    else RisiCClassification.confounded
classify_advantage RisiCPair.pure_read o advantage mediated =
    if halves_leq advantage o.negative_maximum_advantage && mediated
    then RisiCClassification.no_failure
    else RisiCClassification.confounded

unfoldable pub classify_pair :
    RisiCPair → RisiCOracle → Bool → Bool → Bool → ℕ → Bool → RisiCClassification
classify_pair pair o absent respected predicted advantage mediated =
    if not absent
    then RisiCClassification.direct_disclosure
    else if not respected || not predicted
    then RisiCClassification.inconclusive
    else classify_advantage pair o advantage mediated

-- The body of `assess_risi_c_pair` after the loop.
unfoldable pub assess_arms :
    Outside
    → RisiCPair
    → StateSnapshot
    → StateSnapshot
    → ObserverView
    → ObserverView
    → RisiCOracle
    → RisiCArmAssessment
    → RisiCArmAssessment
    → RisiCPairAssessment
assess_arms out pair s t v w o a b =
    let ds = state_differences s t in
    let absent = canary_absent out.serializer v o && canary_absent out.serializer w o in
    let respected = within_budget v o && within_budget w o in
    let mediated = is_sole_mediator pair ds o.allowed_state_diff_path in
    record {
      pair = pair;
      classification =
          classify_pair pair o absent respected (not (is_none a.prediction || is_none b.prediction))
            (distance_from_half (correct_arms a b)) mediated;
      accuracy = correct_arms a b;
      advantage = distance_from_half (correct_arms a b);
      canary_absent = absent;
      observer_budget_respected = respected;
      sole_mediator = mediated;
      state_differences = ds;
      arms = a ∷ b ∷ [];
    }

unfoldable pub assess_risi_c_pair :
    Outside
    → RisiCPair
    → StateSnapshot
    → StateSnapshot
    → ObserverView
    → ObserverView
    → RisiCOracle
    → Result RisiCPairAssessment
assess_risi_c_pair out pair s t v w o = do
  a ← assess_arm out o RisiCArm.sham 0 v s
  b ← assess_arm out o RisiCArm.hidden 1 w t
  ok (assess_arms out pair s t v w o a b)

abbrev pub is_vulnerable : RisiCPair → Bool
is_vulnerable RisiCPair.vulnerable = true
is_vulnerable RisiCPair.pure_read = false

abbrev pub is_risi_c : RisiCClassification → Bool
is_risi_c RisiCClassification.risi_c = true
is_risi_c _ = false

abbrev pub is_no_failure : RisiCClassification → Bool
is_no_failure RisiCClassification.no_failure = true
is_no_failure _ = false

unfoldable pub is_recovered : RisiCPairAssessment → RisiCPairAssessment → Bool
is_recovered v p =
    is_risi_c v.classification
    && is_no_failure p.classification
    && v.sole_mediator
    && p.sole_mediator
    && v.canary_absent
    && p.canary_absent

unfoldable pub assess_risi_c_comparison :
    String → String → RisiCPairAssessment → RisiCPairAssessment → Result RisiCComparisonAssessment
assess_risi_c_comparison scenario state v p = do
  raise_if (not (is_vulnerable v.pair))
      (value_error "vulnerable assessment has the wrong pair identity")
  raise_if (is_vulnerable p.pair) (value_error "pure-read assessment has the wrong pair identity")
  ok (record {
    scenario_id = scenario;
    shared_initial_state_sha256 = state;
    result =
        if is_recovered v p
        then RisiCComparisonResult.controlled_mechanism_recovered
        else RisiCComparisonResult.comparison_failed;
    pairs = v ∷ p ∷ [];
  })
