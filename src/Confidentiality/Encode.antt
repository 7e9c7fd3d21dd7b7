-- ===== src/Confidentiality/Encode.antt =====
-- The `to_json` methods of the assessments of src/risi/confidentiality.py.
use risi.Prelude.{pos, negsuc, ◌*◌, ℕ, String, List, [], ◌∷◌}
use risi.Canonical.{Json, Items, obj, arr, str, bool, real, entries, nat, nat_or_null}
use risi.Confidentiality.{RisiCPair, RisiCArm, RisiCClassification, RisiCComparisonResult}
use risi.Confidentiality.Differences.{StateDifference, difference_json}
use risi.Confidentiality.Assessment.{
  RisiCArmAssessment, RisiCPairAssessment, RisiCComparisonAssessment,
}

abbrev pub pair_value : RisiCPair → String
pair_value RisiCPair.vulnerable = "vulnerable"
pair_value RisiCPair.pure_read = "pure_read"

abbrev pub arm_value : RisiCArm → String
arm_value RisiCArm.sham = "sham"
arm_value RisiCArm.hidden = "hidden"

abbrev pub classification_value : RisiCClassification → String
classification_value RisiCClassification.risi_c = "risi_c"
classification_value RisiCClassification.no_failure = "no_failure"
classification_value RisiCClassification.direct_disclosure = "direct_disclosure"
classification_value RisiCClassification.confounded = "confounded"
classification_value RisiCClassification.inconclusive = "inconclusive"

abbrev pub result_value : RisiCComparisonResult → String
result_value RisiCComparisonResult.controlled_mechanism_recovered = "controlled_mechanism_recovered"
result_value RisiCComparisonResult.comparison_failed = "comparison_failed"

unfoldable pub arm_json : RisiCArmAssessment → Json
arm_json a = obj (
    entries (
      ("arm", str (arm_value a.arm))
      ∷ ("label", nat a.label)
      ∷ ("prediction", nat_or_null a.prediction)
      ∷ ("correct", bool a.correct)
      ∷ ("observer_view_sha256", str a.observer_view_sha256)
      ∷ ("final_state_sha256", str a.final_state_sha256)
      ∷ []))

-- A number of halves as a float: 0.0, 0.5 or 1.0.
unfoldable pub halves_json : ℕ → Json
halves_json h = real (pos (h * 5)) (negsuc 0)

abbrev differences_json : List StateDifference → Items
differences_json [] = Items.nil
differences_json (d ∷ ds) = Items.cons (difference_json d) (differences_json ds)

abbrev arms_json : List RisiCArmAssessment → Items
arms_json [] = Items.nil
arms_json (a ∷ rest) = Items.cons (arm_json a) (arms_json rest)

unfoldable pub pair_json : RisiCPairAssessment → Json
pair_json p = obj (
    entries (
      ("pair", str (pair_value p.pair))
      ∷ ("classification", str (classification_value p.classification))
      ∷ ("accuracy", halves_json p.accuracy)
      ∷ ("advantage", halves_json p.advantage)
      ∷ ("canary_absent", bool p.canary_absent)
      ∷ ("observer_budget_respected", bool p.observer_budget_respected)
      ∷ ("sole_mediator", bool p.sole_mediator)
      ∷ ("state_differences", arr (differences_json p.state_differences))
      ∷ ("arms", arr (arms_json p.arms))
      ∷ []))

abbrev pairs_json : List RisiCPairAssessment → Items
pairs_json [] = Items.nil
pairs_json (p ∷ rest) = Items.cons (pair_json p) (pairs_json rest)

unfoldable pub comparison_json : RisiCComparisonAssessment → Json
comparison_json c = obj (
    entries (
      ("schema_version", nat 1)
      ∷ ("scenario_id", str c.scenario_id)
      ∷ ("shared_initial_state_sha256", str c.shared_initial_state_sha256)
      ∷ ("result", str (result_value c.result))
      ∷ ("pairs", arr (pairs_json c.pairs))
      ∷ []))
