-- ===== src/Canonical/RoundTrip.antt =====
-- Frozen values, and what normalization makes of them (src/risi/canonical.py).
use risi.Prelude.{◌≡◌, refl, sym, subst, ◌∙◌}
use risi.Prelude.Failure.{ok, >>=-eq-ok}
use risi.Canonical.{
  Json, Items, Fields, Value, Values, Pairs, infinite, nan, normalize_json_value, normalize_values,
  normalize_pairs, freeze, freeze_items, freeze_fields, freeze_json_value,
}

mutual
  unfolding normalize_json_value freeze

  normalize-freeze_value : (j : Json) → normalize_json_value (freeze j) ≡ ok j
  normalize-freeze_value Json.null = refl
  normalize-freeze_value (Json.bool b) = refl
  normalize-freeze_value (Json.int n) = refl
  normalize-freeze_value (Json.real m e) = refl
  normalize-freeze_value (Json.str s) = refl
  normalize-freeze_value (Json.arr xs) = rw (normalize-freeze_items xs)
  normalize-freeze_value (Json.obj fs) = rw (normalize-freeze_fields fs)

  normalize-freeze_items : (xs : Items) → normalize_values (freeze_items xs) ≡ ok xs
  normalize-freeze_items Items.nil = refl
  normalize-freeze_items (Items.cons x xs) =
      rw (normalize-freeze_value x, normalize-freeze_items xs)

  normalize-freeze_fields : (fs : Fields) → normalize_pairs (freeze_fields fs) ≡ ok fs
  normalize-freeze_fields Fields.end = refl
  normalize-freeze_fields (Fields.field k x fs) =
      rw (normalize-freeze_value x, normalize-freeze_fields fs)

-- Freezing a normalized value and normalizing it again gives the value back.
pub normalize-freeze : (j : Json) → normalize_json_value (freeze j) ≡ ok j
normalize-freeze j = normalize-freeze_value j

-- An immutable JSON value: its arrays are tuples, its objects read-only mappings with string keys,
-- at every depth.
mutual
  pub IsFrozen : Value → Type 0
  IsFrozen (Value.list vs) = ⊥
  IsFrozen (Value.tuple vs) = AllFrozen vs
  IsFrozen (Value.mapping ps) = ⊥
  IsFrozen (Value.read_only ps) = AllFrozenPairs ps
  IsFrozen (Value.opaque name) = ⊥
  IsFrozen (Value.real (infinite b)) = ⊥
  IsFrozen (Value.real nan) = ⊥
  IsFrozen _ = Unit

  AllFrozen : Values → Type 0
  AllFrozen Values.nil = Unit
  AllFrozen (Values.cons v vs) = IsFrozen v × AllFrozen vs

  AllFrozenPairs : Pairs → Type 0
  AllFrozenPairs Pairs.end = Unit
  AllFrozenPairs (Pairs.pair k v ps) = IsFrozen v × AllFrozenPairs ps
  AllFrozenPairs (Pairs.odd_pair v ps) = ⊥

mutual
  unfolding freeze IsFrozen

  freeze-IsFrozen : (j : Json) → IsFrozen (freeze j)
  freeze-IsFrozen Json.null = tt
  freeze-IsFrozen (Json.bool b) = tt
  freeze-IsFrozen (Json.int n) = tt
  freeze-IsFrozen (Json.real m e) = tt
  freeze-IsFrozen (Json.str s) = tt
  freeze-IsFrozen (Json.arr xs) = freeze_items-AllFrozen xs
  freeze-IsFrozen (Json.obj fs) = freeze_fields-AllFrozenPairs fs

  freeze_items-AllFrozen : (xs : Items) → AllFrozen (freeze_items xs)
  freeze_items-AllFrozen Items.nil = tt
  freeze_items-AllFrozen (Items.cons x xs) = (freeze-IsFrozen x, freeze_items-AllFrozen xs)

  freeze_fields-AllFrozenPairs : (fs : Fields) → AllFrozenPairs (freeze_fields fs)
  freeze_fields-AllFrozenPairs Fields.end = tt
  freeze_fields-AllFrozenPairs (Fields.field k x fs) =
      (freeze-IsFrozen x, freeze_fields-AllFrozenPairs fs)

-- If `freeze_json_value` returns a value, that value is immutable at every depth, with tuples for
-- arrays and read-only mappings for objects, and has the normal form of the value it was made of.
pub freeze_json_value-IsFrozen :
    (v w : Value)
    → freeze_json_value v ≡ ok w
    → IsFrozen w × (normalize_json_value w ≡ normalize_json_value v)
unfolding freeze_json_value
freeze_json_value-IsFrozen v w h =
    let (j, hj, hw) = >>=-eq-ok (normalize_json_value v) (λ x. ok (freeze x)) h in
    let eq : freeze j ≡ w = cc in
    subst (λ x. IsFrozen x × (normalize_json_value x ≡ normalize_json_value v)) eq
      (freeze-IsFrozen j, normalize-freeze j ∙ sym hj)
