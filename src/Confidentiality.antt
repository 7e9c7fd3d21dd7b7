-- ===== src/Confidentiality.antt =====
-- src/risi/confidentiality.py: what an observer of a RISI-C experiment sees, and the oracle that only
-- the evaluator holds. The differences of two states are in Confidentiality/Differences, the
-- assessments in Confidentiality/Assessment.
pub mod Differences
pub mod Assessment
pub mod Encode
pub mod Signals
pub mod Outcomes
pub mod Verdict
pub mod Recovery
pub mod Agreement
use risi.Prelude.{
  ℕ, ℤ, pos, negsuc, eq_ℤ, ltb, leb, eqb, ◌*◌, ◌^◌, ◌+◌, suc, String, Bool, true, false, not, ◌&&◌,
  ◌||◌, Option, none, some, List, [], ◌∷◌, ◌++◌, ◌==◌, any, all_unique, length, map,
}
use risi.Prelude.Failure.{Result, ok, err, value_error, type_error, ◌>>◌, raise_if}
use risi.Prelude.Text.{codes}
use risi.Canonical.{
  Json, Fields, Items, Float, finite, infinite, nan, obj, arr, str, entries, strings, nat, get,
  same_keys, null, bool, int, real,
}
use risi.Canonical.Digest.{sort_keys}
use risi.Models.{RetrievalQuery}
use risi.Models.Encode.{query_json}

pub data RisiCPair : Type 0 where
  vulnerable pure_read : RisiCPair

pub data RisiCArm : Type 0 where
  sham hidden : RisiCArm

pub data RisiCClassification : Type 0 where
  risi_c no_failure direct_disclosure confounded inconclusive : RisiCClassification

pub data RisiCComparisonResult : Type 0 where
  controlled_mechanism_recovered comparison_failed : RisiCComparisonResult

pub record ObserverExchange : Type 0 where
  pub query_index : ℕ
  pub query : RetrievalQuery
  pub response_memory_ids : List String
  pub response_contents : List String
  pub metadata : Fields

-- `not value`
abbrev pub is_empty : String → Bool
is_empty s = s == ""

-- `isinstance(result_count, bool) or not isinstance(result_count, int)`, and the comparison.
abbrev pub check_count : ℕ → Option Json → Result (Unit {0})
check_count n (some (int c)) =
    raise_if (not (eq_ℤ c (pos n)))
      (value_error "observer result_count does not match the response")
check_count n _ = err (type_error "observer result_count must be an integer")

unfoldable pub check_exchange : ObserverExchange → Result (Unit {0})
check_exchange x = do
  raise_if (not (eqb (length x.response_memory_ids) (length x.response_contents)))
      (value_error "observer response IDs and contents must have equal length")
  raise_if (not (all_unique x.response_memory_ids))
      (value_error "observer response memory IDs must be unique")
  raise_if (any is_empty (x.response_memory_ids ++ x.response_contents))
      (value_error "observer response values must not be empty")
  raise_if (not (same_keys x.metadata ("result_count" ∷ [])))
      (value_error "observer metadata contains a prohibited or missing field")
  check_count (length x.response_memory_ids) (get "result_count" x.metadata)

unfoldable pub exchange_json : ObserverExchange → Json
exchange_json x = obj (
    entries (
      ("query_index", nat x.query_index)
      ∷ ("query", query_json x.query)
      ∷ ("response_memory_ids", arr (strings x.response_memory_ids))
      ∷ ("response_contents", arr (strings x.response_contents))
      ∷ ("metadata", obj x.metadata)
      ∷ []))

pub record ObserverView : Type 0 where
  pub principal_id : String
  pub exchanges : List ObserverExchange

-- `tuple(exchange.query_index ...) == tuple(range(len(self.exchanges)))`
abbrev pub contiguous_from : ℕ → List ObserverExchange → Bool
contiguous_from n [] = true
contiguous_from n (x ∷ xs) = eqb x.query_index n && contiguous_from (suc n) xs

abbrev pub foreign : String → ObserverExchange → Bool
foreign principal x = not (x.query.principal_id == principal)

unfoldable pub check_view : ObserverView → Result (Unit {0})
check_view v = do
  raise_if (is_empty v.principal_id) (value_error "observer principal_id must not be empty")
  raise_if (not (contiguous_from 0 v.exchanges))
      (value_error "observer query indexes must be contiguous and zero-based")
  raise_if (any (foreign v.principal_id) v.exchanges)
      (value_error "observer view contains another principal's query")

abbrev pub exchanges_json : List ObserverExchange → Items
unfolding exchange_json
exchanges_json [] = Items.nil
exchanges_json (x ∷ xs) = Items.cons (exchange_json x) (exchanges_json xs)

unfoldable pub view_json : ObserverView → Json
unfolding exchange_json
view_json v = obj (
    entries
      (("principal_id", str v.principal_id) ∷ ("exchanges", arr (exchanges_json v.exchanges)) ∷ []))

pub record RisiCOracle : Type 0 where
  pub canary_memory_id : String
  pub canary_token : String
  pub sham_memory_id : String
  pub victim_principal_id : String
  pub observer_principal_id : String
  pub no_hidden_signal_memory_id : String
  pub hidden_signal_memory_id : String
  pub allowed_state_diff_path : String
  pub probe_budget : ℤ
  pub positive_minimum_advantage : Float
  pub negative_maximum_advantage : Float

-- h / 2 >= x
unfoldable pub halves_geq : ℕ → Float → Bool
halves_geq h (finite (pos m) (pos k)) = leb (2 * (m * 10 ^ k)) h
halves_geq h (finite (pos m) (negsuc k)) = leb (2 * m) (h * 10 ^ suc k)
halves_geq h (finite (negsuc m) e) = true
halves_geq h (infinite positive) = not positive
halves_geq h nan = false

-- h / 2 <= x
unfoldable pub halves_leq : ℕ → Float → Bool
halves_leq h (finite (pos m) (pos k)) = leb h (2 * (m * 10 ^ k))
halves_leq h (finite (pos m) (negsuc k)) = leb (h * 10 ^ suc k) (2 * m)
halves_leq h (finite (negsuc m) e) = false
halves_leq h (infinite positive) = positive
halves_leq h nan = false

-- `math.isfinite(value) and 0.0 <= value <= 0.5`
abbrev pub within_advantage : Float → Bool
unfolding halves_geq halves_leq
within_advantage (finite m e) = halves_leq 0 (finite m e) && halves_geq 1 (finite m e)
within_advantage x = false

-- `value.startswith("/")`
abbrev pub starts_with_slash : List ℕ → Bool
starts_with_slash [] = false
starts_with_slash (c ∷ cs) = eqb c b'/'

abbrev pub identifiers : RisiCOracle → List String
identifiers o =
    o.canary_memory_id ∷ o.canary_token ∷ o.sham_memory_id ∷ o.victim_principal_id
    ∷ o.observer_principal_id ∷ o.no_hidden_signal_memory_id ∷ o.hidden_signal_memory_id
    ∷ o.allowed_state_diff_path ∷ []

unfoldable pub check_oracle : RisiCOracle → Result (Unit {0})
unfolding halves_geq halves_leq
check_oracle o = do
  raise_if (any is_empty (identifiers o))
      (value_error "RISI-C oracle identifiers must not be empty")
  raise_if (o.canary_memory_id == o.sham_memory_id)
      (value_error "RISI-C canary and sham memories must differ")
  raise_if (o.no_hidden_signal_memory_id == o.hidden_signal_memory_id)
      (value_error "RISI-C signal memories must differ")
  raise_if (o.victim_principal_id == o.observer_principal_id)
      (value_error "RISI-C victim and observer principals must differ")
  raise_if (not (starts_with_slash (codes o.allowed_state_diff_path)))
      (value_error "RISI-C state-diff path must be a JSON pointer")
  raise_if (not (eq_ℤ o.probe_budget (pos 1)))
      (value_error "M1 RISI-C probe_budget must be exactly 1")
  raise_if (not (within_advantage o.positive_minimum_advantage))
      (value_error "RISI-C advantage thresholds must be within [0.0, 0.5]")
  raise_if (not (within_advantage o.negative_maximum_advantage))
      (value_error "RISI-C advantage thresholds must be within [0.0, 0.5]")

-- A float as JSON; the constructor's checks leave finite ones.
abbrev pub float_json : Float → Json
float_json (finite m e) = real m e
float_json x = null

unfoldable pub oracle_json : RisiCOracle → Json
oracle_json o = obj (
    entries (
      ("canary_memory_id", str o.canary_memory_id)
      ∷ ("canary_token", str o.canary_token)
      ∷ ("sham_memory_id", str o.sham_memory_id)
      ∷ ("victim_principal_id", str o.victim_principal_id)
      ∷ ("observer_principal_id", str o.observer_principal_id)
      ∷ ("no_hidden_signal_memory_id", str o.no_hidden_signal_memory_id)
      ∷ ("hidden_signal_memory_id", str o.hidden_signal_memory_id)
      ∷ ("allowed_state_diff_path", str o.allowed_state_diff_path)
      ∷ ("probe_budget", int o.probe_budget)
      ∷ ("positive_minimum_advantage", float_json o.positive_minimum_advantage)
      ∷ ("negative_maximum_advantage", float_json o.negative_maximum_advantage)
      ∷ []))

-- `json.dumps(...)` of `canonical_json`, which is not under src/, as a function of the value with its
-- keys in order.
pub record Serializer : Type 0 where
  pub dumps : Json → String

unfoldable pub canonical_json : Serializer → Json → String
canonical_json s j = s.dumps (sort_keys j)

-- `needle in text`, on code points.
abbrev pub is_prefix : List ℕ → List ℕ → Bool
is_prefix [] text = true
is_prefix (c ∷ cs) [] = false
is_prefix (c ∷ cs) (d ∷ ds) = eqb c d && is_prefix cs ds

abbrev pub occurs : List ℕ → List ℕ → Bool
occurs needle [] = is_prefix needle []
occurs needle (d ∷ ds) = is_prefix needle (d ∷ ds) || occurs needle ds

unfoldable pub contained : String → String → Bool
contained needle text = occurs (codes needle) (codes text)
