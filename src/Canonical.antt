-- ===== src/Canonical.antt =====
-- src/risi/canonical.py: JSON values, their normal form, and the digests over them.
pub mod Digest
pub mod RoundTrip
use risi.Prelude.{
  ℕ, ℤ, pos, String, Bool, true, false, Option, none, some, List, [], ◌∷◌, ◌==◌, elem, all, ◌&&◌,
  if◌then◌else◌,
}
use risi.Prelude.Failure.{Error, value_error, Result, ok, err, ◌>>=◌}

-- A Python float. A finite one is given by the decimal digits and exponent that `json.dumps`
-- writes for it: `finite m e` is m * 10^e.
pub data Float : Type 0 where
  finite : ℤ → ℤ → Float
  infinite : Bool → Float
  nan : Float

-- A normalized JSON value (`JsonValue`). An object is a `dict` in insertion order, with distinct
-- keys; a number with a fraction is finite.
mutual
  pub data Json : Type 0 where
    null : Json
    bool : Bool → Json
    int : ℤ → Json
    real : ℤ → ℤ → Json
    str : String → Json
    arr : Items → Json
    obj : Fields → Json

  pub data Items : Type 0 where
    nil : Items
    cons : Json → Items → Items

  pub data Fields : Type 0 where
    end : Fields
    field : String → Json → Fields → Fields

-- Any Python value that the functions may be handed: lists and tuples differ, and so do a mapping
-- that can be written, such as a `dict`, and the read-only one that `MappingProxyType` makes. A
-- mapping may have a key that is no string, and `opaque` is a value of an unsupported type, by the
-- type's name.
mutual
  pub data Value : Type 0 where
    null : Value
    bool : Bool → Value
    int : ℤ → Value
    real : Float → Value
    str : String → Value
    list : Values → Value
    tuple : Values → Value
    mapping : Pairs → Value
    read_only : Pairs → Value
    opaque : String → Value

  pub data Values : Type 0 where
    nil : Values
    cons : Value → Values → Values

  pub data Pairs : Type 0 where
    end : Pairs
    pair : String → Value → Pairs → Pairs
    odd_pair : Value → Pairs → Pairs

unfoldable mutual
  pub normalize_json_value : Value → Result Json
  normalize_json_value Value.null = ok Json.null
  normalize_json_value (Value.bool b) = ok (Json.bool b)
  normalize_json_value (Value.int n) = ok (Json.int n)
  normalize_json_value (Value.real (finite m e)) = ok (Json.real m e)
  normalize_json_value (Value.real x) = err (value_error "JSON numbers must be finite")
  normalize_json_value (Value.str s) = ok (Json.str s)
  normalize_json_value (Value.list vs) = do xs ← normalize_values vs; ok (Json.arr xs)
  normalize_json_value (Value.tuple vs) = do xs ← normalize_values vs; ok (Json.arr xs)
  normalize_json_value (Value.mapping ps) = do fs ← normalize_pairs ps; ok (Json.obj fs)
  normalize_json_value (Value.read_only ps) = do fs ← normalize_pairs ps; ok (Json.obj fs)
  normalize_json_value (Value.opaque name) = err (value_error "Unsupported JSON value type")

  pub normalize_values : Values → Result Items
  normalize_values Values.nil = ok Items.nil
  normalize_values (Values.cons v vs) = do
    x ← normalize_json_value v
    xs ← normalize_values vs
    ok (Items.cons x xs)

  pub normalize_pairs : Pairs → Result Fields
  normalize_pairs Pairs.end = ok Fields.end
  normalize_pairs (Pairs.pair k v ps) = do
    x ← normalize_json_value v
    fs ← normalize_pairs ps
    ok (Fields.field k x fs)
  normalize_pairs (Pairs.odd_pair v ps) = err (value_error "JSON object keys must be strings")

-- The recursive copy of `freeze_json_value`: arrays become tuples, objects read-only mappings.
unfoldable mutual
  pub freeze : Json → Value
  freeze Json.null = Value.null
  freeze (Json.bool b) = Value.bool b
  freeze (Json.int n) = Value.int n
  freeze (Json.real m e) = Value.real (finite m e)
  freeze (Json.str s) = Value.str s
  freeze (Json.arr xs) = Value.tuple (freeze_items xs)
  freeze (Json.obj fs) = Value.read_only (freeze_fields fs)

  pub freeze_items : Items → Values
  freeze_items Items.nil = Values.nil
  freeze_items (Items.cons x xs) = Values.cons (freeze x) (freeze_items xs)

  pub freeze_fields : Fields → Pairs
  freeze_fields Fields.end = Pairs.end
  freeze_fields (Fields.field k x fs) = Pairs.pair k (freeze x) (freeze_fields fs)

unfoldable pub freeze_json_value : Value → Result Value
unfolding normalize_json_value freeze
freeze_json_value v = do x ← normalize_json_value v; ok (freeze x)

-- `isinstance(normalized, dict)` after the normalization.
abbrev pub require_dict : Json → Result Fields
require_dict (Json.obj fs) = ok fs
require_dict _ = err (value_error "Expected a JSON object")

unfoldable pub normalize_json_object : Value → Result Fields
unfolding normalize_json_value
normalize_json_object v = do x ← normalize_json_value v; require_dict x

-- `d.get(key)` and the keys of a `dict`.
abbrev pub get : String → Fields → Option Json
get k end = none
get k (field j v fs) = if k == j then some v else get k fs

abbrev pub keys : Fields → List String
keys end = []
keys (field k v fs) = k ∷ keys fs

-- `set(d) == {...}`
abbrev pub same_keys : Fields → List String → Bool
same_keys fs names = all (λ k. elem k names) (keys fs) && all (λ k. elem k (keys fs)) names

-- A JSON array of texts.
abbrev pub strings : List String → Items
strings [] = nil
strings (s ∷ ss) = cons (str s) (strings ss)

-- A `dict` display with the given entries.
abbrev pub entries : List (String × Json) → Fields
entries [] = end
entries ((k, v) ∷ rest) = field k v (entries rest)

-- An optional text or number as JSON.
abbrev pub str_or_null : Option String → Json
str_or_null none = null
str_or_null (some s) = str s

abbrev pub nat : ℕ → Json
nat n = int (pos n)

abbrev pub nat_or_null : Option ℕ → Json
nat_or_null none = null
nat_or_null (some n) = nat n
