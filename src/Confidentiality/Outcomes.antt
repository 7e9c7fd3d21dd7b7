-- ===== src/Confidentiality/Outcomes.antt =====
-- The mediator of a pair and the outcomes of its classifier (src/risi/confidentiality.py), by the two
-- signals.
use risi.Prelude.{
  ℕ, ◌≡◌, ◌⊎◌, inl, inr, refl, pos, String, Bool, true, false, not, ◌&&◌, ◌||◌, Option, none, some,
  List, [], ◌∷◌, eq_iff, arith, is_none, ◌+◌,
}
use risi.Prelude.Failure.{ok}
use risi.Canonical.{int}
use risi.Confidentiality.{
  RisiCPair, RisiCClassification, RisiCOracle, check_oracle, halves_geq, halves_leq,
}
use risi.Confidentiality.Differences.{StateDifference, same_leaf}
use risi.Confidentiality.Assessment.{
  equals_label, one_if, distance_from_half, is_expected_mediator, classify_pair, is_risi_c,
  is_no_failure,
}
use risi.Confidentiality.Signals.{signal_label, same_bool, positive_threshold, negative_threshold}

-- The states differ in the allowed counter alone, which the hidden retrieval moved from 0 to 1.
pub record Mediates (ds : List StateDifference) (allowed : String) : Type 0 where
  pub difference : StateDifference
  pub only : ds ≡ difference ∷ []
  pub path : difference.path ≡ allowed
  pub no_hidden_present : difference.no_hidden_present ≡ true
  pub hidden_present : difference.hidden_present ≡ true
  pub zero_before : same_leaf difference.no_hidden_value (int (pos 0)) ≡ true
  pub one_after : same_leaf difference.hidden_value (int (pos 1)) ≡ true

pub mediator→Mediates :
    (ds : List StateDifference) (allowed : String)
    → is_expected_mediator ds allowed ≡ true
    → Mediates ds allowed
unfolding is_expected_mediator
mediator→Mediates [] allowed h = ground arith
mediator→Mediates (d ∷ []) allowed h = record {
  difference = d;
  only = refl;
  path = (eq_iff d.path allowed).0 (ground arith);
  no_hidden_present = ground arith;
  hidden_present = ground arith;
  zero_before = ground arith;
  one_after = ground arith;
}
mediator→Mediates (d ∷ e ∷ ds) allowed h = ground arith

pub Mediates→mediator :
    (ds : List StateDifference) (allowed : String)
    → Mediates ds allowed
    → is_expected_mediator ds allowed ≡ true
unfolding is_expected_mediator
Mediates→mediator ds allowed m = rw (
  m.only,
  (eq_iff m.difference.path allowed).1 m.path,
  m.no_hidden_present,
  m.hidden_present,
  m.zero_before,
  m.one_after,
)

-- The two signals of the pair of arms are there, and differ.
abbrev pub apart : Option Bool → Option Bool → Bool
apart (some a) (some b) = not (same_bool a b)
apart _ _ = false

-- Both are there, and agree.
abbrev pub alike : Option Bool → Option Bool → Bool
alike (some a) (some b) = same_bool a b
alike _ _ = false

pub apart→ :
    (x y : Option Bool)
    → apart x y ≡ true
    → ((x ≡ some false) × (y ≡ some true)) ⊎ ((x ≡ some true) × (y ≡ some false))
apart→ none y h = ground arith
apart→ (some a) none h = ground arith
apart→ (some true) (some true) h = ground arith
apart→ (some true) (some false) h = inr (refl, refl)
apart→ (some false) (some true) h = inl (refl, refl)
apart→ (some false) (some false) h = ground arith

pub alike→ : (x y : Option Bool) → alike x y ≡ true → (b : Bool) × (x ≡ some b) × (y ≡ some b)
alike→ none y h = ground arith
alike→ (some a) none h = ground arith
alike→ (some true) (some true) h = (true, refl, refl)
alike→ (some true) (some false) h = ground arith
alike→ (some false) (some true) h = ground arith
alike→ (some false) (some false) h = (false, refl, refl)

module _ (o : RisiCOracle) (checked : check_oracle o ≡ ok tt) where
  abbrev advantage : Option Bool → Option Bool → ℕ
  advantage x y =
      distance_from_half
        (one_if (equals_label (signal_label x) 0) + one_if (equals_label (signal_label y) 1))

  abbrev classification :
      RisiCPair → Bool → Bool → Option Bool → Option Bool → Bool → RisiCClassification
  classification pair absent respected x y mediated =
      classify_pair pair o absent respected
        (not (is_none (signal_label x) || is_none (signal_label y))) (advantage x y) mediated

  pub leak_test :
      (absent respected mediated : Bool) (x y : Option Bool)
      → halves_geq 0 o.positive_minimum_advantage ≡ false
      → is_risi_c (classification RisiCPair.vulnerable absent respected x y mediated)
        ≡ (absent && respected && apart x y && mediated)
  unfolding classify_pair
  leak_test absent respected mediated none y h = ground arith
  leak_test absent respected mediated (some a) none h = ground arith
  leak_test absent respected mediated (some true) (some true) h =
      ground (arith, positive_threshold o checked true true h)
  leak_test absent respected mediated (some true) (some false) h =
      ground (arith, positive_threshold o checked true false h)
  leak_test absent respected mediated (some false) (some true) h =
      ground (arith, positive_threshold o checked false true h)
  leak_test absent respected mediated (some false) (some false) h =
      ground (arith, positive_threshold o checked false false h)

  pub no_leak_test :
      (absent respected mediated : Bool) (x y : Option Bool)
      → halves_leq 1 o.negative_maximum_advantage ≡ false
      → is_no_failure (classification RisiCPair.pure_read absent respected x y mediated)
        ≡ (absent && respected && alike x y && mediated)
  unfolding classify_pair
  no_leak_test absent respected mediated none y h = ground arith
  no_leak_test absent respected mediated (some a) none h = ground arith
  no_leak_test absent respected mediated (some true) (some true) h =
      ground (arith, negative_threshold o checked true true h)
  no_leak_test absent respected mediated (some true) (some false) h =
      ground (arith, negative_threshold o checked true false h)
  no_leak_test absent respected mediated (some false) (some true) h =
      ground (arith, negative_threshold o checked false true h)
  no_leak_test absent respected mediated (some false) (some false) h =
      ground (arith, negative_threshold o checked false false h)
