-- ===== src/Confidentiality/Signals.antt =====
-- How the classifier of src/risi/confidentiality.py reads the answers that an observer got, and what the
-- thresholds of a checked oracle allow.
use risi.Prelude.{
  ℕ, pos, eq_ℤ, eq_ℤ_iff, ◌≡◌, ◌↔◌, refl, String, Bool, true, false, not, Option, none, some, List,
  [], ◌∷◌, ◌==◌, eq_iff, if◌then◌else◌, arith, any, ◌+◌, eq_refl,
}
use risi.Prelude.Text.{codes}
use risi.Prelude.Failure.{ok, raise_if-passes}
use risi.Canonical.{Float, finite, infinite, nan}
use risi.Canonical.Digest.{canonical_sha256}
use risi.Models.{StateSnapshot}
use risi.Models.Encode.{snapshot_json}
use risi.Confidentiality.{
  RisiCPair, RisiCArm, ObserverExchange, ObserverView, RisiCOracle, check_oracle, view_json,
  identifiers, is_empty, starts_with_slash, within_advantage, halves_geq, halves_leq,
}
use risi.Confidentiality.Assessment.{
  Outside, RisiCArmAssessment, RisiCPairAssessment, is_only, predict, none_on_value_error,
  equals_label, assess_arm, one_if, distance_from_half, assess_arms, assess_risi_c_pair,
}

-- The observer asked once, and got this memory and no other.
pub record Answers (v : ObserverView) (memory_id : String) : Type 0 where
  pub exchange : ObserverExchange
  pub single : v.exchanges ≡ exchange ∷ []
  pub response : exchange.response_memory_ids ≡ memory_id ∷ []

-- Which signal the observer got, if any.
abbrev pub signal : List ObserverExchange → RisiCOracle → Option Bool
signal [] o = none
signal (x ∷ []) o =
    if is_only o.hidden_signal_memory_id x.response_memory_ids
    then some true
    else if is_only o.no_hidden_signal_memory_id x.response_memory_ids
    then some false
    else none
signal (x ∷ y ∷ ys) o = none

is_only_iff : (s : String) (ids : List String) → (is_only s ids ≡ true) ↔ (ids ≡ s ∷ [])
is_only_iff s [] = grind arith
is_only_iff s (t ∷ []) = grind (arith, eq_iff t s)
is_only_iff s (t ∷ u ∷ us) = grind arith

-- The memory that stands for a signal.
abbrev pub signal_memory : RisiCOracle → Bool → String
signal_memory o true = o.hidden_signal_memory_id
signal_memory o false = o.no_hidden_signal_memory_id

pub signal→Answers :
    (v : ObserverView) (o : RisiCOracle) (b : Bool) (xs : List ObserverExchange)
    → v.exchanges ≡ xs
    → signal xs o ≡ some b
    → Answers v (signal_memory o b)
signal→Answers v o true [] e h = grind arith
signal→Answers v o false [] e h = grind arith
signal→Answers v o true (x ∷ []) e h = record {
  exchange = x;
  single = e;
  response = (is_only_iff o.hidden_signal_memory_id x.response_memory_ids).0 (ground arith);
}
signal→Answers v o false (x ∷ []) e h = record {
  exchange = x;
  single = e;
  response = (is_only_iff o.no_hidden_signal_memory_id x.response_memory_ids).0 (ground arith);
}
signal→Answers v o b (x ∷ y ∷ ys) e h = grind arith

abbrev pub signal_label : Option Bool → Option ℕ
signal_label none = none
signal_label (some true) = some 1
signal_label (some false) = some 0

abbrev pub same_bool : Bool → Bool → Bool
same_bool true b = b
same_bool false b = not b

within_geq : (x : Float) → within_advantage x ≡ true → halves_geq 1 x ≡ true
unfolding halves_geq halves_leq
within_geq (finite m e) h = ground arith
within_geq (infinite positive) h = ground arith
within_geq nan h = ground arith

within_leq : (x : Float) → within_advantage x ≡ true → halves_leq 0 x ≡ true
unfolding halves_geq halves_leq
within_leq (finite m e) h = ground arith
within_leq (infinite positive) h = ground arith
within_leq nan h = ground arith

module _ (o : RisiCOracle) (checked : check_oracle o ≡ ok tt) where
  -- What the checks of the constructor leave.
  pub sound_oracle :
      ((o.no_hidden_signal_memory_id == o.hidden_signal_memory_id) ≡ false)
      × (o.probe_budget ≡ pos 1)
      × (within_advantage o.positive_minimum_advantage ≡ true)
      × (within_advantage o.negative_maximum_advantage ≡ true)
  unfolding check_oracle
  sound_oracle =
      let (h1, r1) = raise_if-passes (any is_empty (identifiers o)) _ _ checked in
      let (h2, r2) = raise_if-passes (o.canary_memory_id == o.sham_memory_id) _ _ r1 in
      let (h3, r3) =
        raise_if-passes (o.no_hidden_signal_memory_id == o.hidden_signal_memory_id) _ _ r2 in
      let (h4, r4) = raise_if-passes (o.victim_principal_id == o.observer_principal_id) _ _ r3 in
      let (h5, r5) =
        raise_if-passes (not (starts_with_slash (codes o.allowed_state_diff_path))) _ _ r4 in
      let (h6, r6) = raise_if-passes (not (eq_ℤ o.probe_budget (pos 1))) _ _ r5 in
      let (h7, r7) = raise_if-passes (not (within_advantage o.positive_minimum_advantage)) _ _ r6 in
      (
        h3,
        (eq_ℤ_iff o.probe_budget (pos 1)).0 (ground (arith, h6)),
        ground (arith, h7),
        ground (arith, r7),
      )

  -- The signals are exclusive.
  pub Answers→signal :
      (v : ObserverView) (b : Bool) → Answers v (signal_memory o b) → signal v.exchanges o ≡ some b
  Answers→signal v true a =
      let only =
        (is_only_iff o.hidden_signal_memory_id a.exchange.response_memory_ids).1 a.response in
      rw (a.single, only)
  Answers→signal v false a =
      let only =
        (is_only_iff o.no_hidden_signal_memory_id a.exchange.response_memory_ids).1 a.response in
      rw (a.single, a.response, sound_oracle.0, eq_refl o.no_hidden_signal_memory_id)

  predict-signal_list :
      (v : ObserverView) (xs : List ObserverExchange)
      → v.exchanges ≡ xs
      → none_on_value_error (predict v o) ≡ ok (signal_label (signal xs o))
  unfolding predict
  predict-signal_list v [] e = rw (e, sound_oracle.1)
  predict-signal_list v (x ∷ []) e = rw (e, sound_oracle.1) (ground arith)
  predict-signal_list v (x ∷ y ∷ ys) e = rw (e, sound_oracle.1) (ground arith)

  predict-signal :
      (v : ObserverView)
      → none_on_value_error (predict v o) ≡ ok (signal_label (signal v.exchanges o))
  predict-signal v = predict-signal_list v v.exchanges refl

  -- The threshold is passed exactly by two correct or two wrong predictions.
  pub positive_threshold :
      (a b : Bool)
      → halves_geq 0 o.positive_minimum_advantage ≡ false
      → halves_geq (distance_from_half (one_if (not a) + one_if b)) o.positive_minimum_advantage
        ≡ not (same_bool a b)
  unfolding distance_from_half
  positive_threshold true true h = rw h
  positive_threshold true false h = within_geq o.positive_minimum_advantage sound_oracle.2
  positive_threshold false true h = within_geq o.positive_minimum_advantage sound_oracle.2
  positive_threshold false false h = rw h

  pub negative_threshold :
      (a b : Bool)
      → halves_leq 1 o.negative_maximum_advantage ≡ false
      → halves_leq (distance_from_half (one_if (not a) + one_if b)) o.negative_maximum_advantage
        ≡ same_bool a b
  unfolding distance_from_half
  negative_threshold true true h = within_leq o.negative_maximum_advantage sound_oracle.3
  negative_threshold true false h = rw h
  negative_threshold false true h = rw h
  negative_threshold false false h = within_leq o.negative_maximum_advantage sound_oracle.3

  module _ (out : Outside) (s t : StateSnapshot) (v w : ObserverView) where
    abbrev pub arm : RisiCArm → ℕ → ObserverView → StateSnapshot → RisiCArmAssessment
    arm a label x state = record {
      arm = a;
      label = label;
      prediction = signal_label (signal x.exchanges o);
      correct = equals_label (signal_label (signal x.exchanges o)) label;
      observer_view_sha256 = canonical_sha256 out.hasher (view_json x);
      final_state_sha256 = canonical_sha256 out.hasher (snapshot_json state);
    }

    -- The assessment that is returned, for every checked oracle.
    abbrev pub assessment : RisiCPair → RisiCPairAssessment
    assessment pair =
        assess_arms out pair s t v w o (arm RisiCArm.sham 0 v s) (arm RisiCArm.hidden 1 w t)

    pub assess-assessment :
        (pair : RisiCPair) → assess_risi_c_pair out pair s t v w o ≡ ok (assessment pair)
    unfolding assess_risi_c_pair assess_arm
    assess-assessment pair = rw (predict-signal v, predict-signal w)
