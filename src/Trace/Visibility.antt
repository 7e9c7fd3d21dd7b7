-- ===== src/Trace/Visibility.antt =====
-- What the visibility boundary of src/risi/trace.py looks at in a payload.
use risi.Prelude.{String, ◌≡◌, refl, Bool, false, ◌&&◌, ◌||◌, List, [], ◌∷◌, ◌++◌, any, elem, arith}
use risi.Canonical.{Json, Items, Fields, freeze, obj, arr}
use risi.Models.{EventVisibility}
use risi.Trace.{
  Runtime, evaluator_only_keys, attacker_sees, breaks_boundary, contains_evaluator_only_key,
}

-- The keys of an object, and of the objects that are reached through objects alone.
mutual
  keys_in : Json → List String
  keys_in (Json.obj fs) = field_keys fs
  keys_in _ = []

  field_keys : Fields → List String
  field_keys Fields.end = []
  field_keys (Fields.field k v fs) = k ∷ (keys_in v ++ field_keys fs)

unfoldable pub object_keys : Fields → List String
unfolding field_keys
object_keys fs = field_keys fs

abbrev pub is_evaluator_only : Runtime → String → Bool
is_evaluator_only rt k = elem (rt.casefold k) evaluator_only_keys

any-append {ℓ} :
    {A : Type ℓ} (p : A → Bool) (xs ys : List A) → any p (xs ++ ys) ≡ (any p xs || any p ys)
any-append p [] ys = refl
any-append p (x ∷ xs) ys = ground (arith, any-append p xs ys)

or_assoc : (a b c : Bool) → (a || b || c) ≡ (a || (b || c))
or_assoc a b c = ground arith

module _ (rt : Runtime) where
  mutual
    unfolding contains_evaluator_only_key freeze keys_in

    contains_json :
        (j : Json)
        → contains_evaluator_only_key rt (freeze j) ≡ any (is_evaluator_only rt) (keys_in j)
    contains_json Json.null = refl
    contains_json (Json.bool b) = refl
    contains_json (Json.int n) = refl
    contains_json (Json.real m e) = refl
    contains_json (Json.str s) = refl
    contains_json (Json.arr xs) = refl
    contains_json (Json.obj fs) = contains_fields fs

    contains_fields :
        (fs : Fields)
        → contains_evaluator_only_key rt (freeze (obj fs))
          ≡ any (is_evaluator_only rt) (field_keys fs)
    contains_fields Fields.end = refl
    contains_fields (Fields.field k v fs) =
        rw
          (
            contains_json v,
            contains_fields fs,
            any-append (is_evaluator_only rt) (keys_in v) (field_keys fs),
          )
          (or_assoc (is_evaluator_only rt k) (any (is_evaluator_only rt) (keys_in v))
            (any (is_evaluator_only rt) (field_keys fs)))

  -- An event breaks the boundary exactly when an attacker sees it and one of the keys that are
  -- reached through objects alone is, case-folded, an evaluator-only key.
  pub breaks_boundary-iff_object_keys :
      (v : EventVisibility) (payload : Fields)
      → breaks_boundary rt v payload
        ≡ (attacker_sees v && any (is_evaluator_only rt) (object_keys payload))
  unfolding breaks_boundary object_keys
  breaks_boundary-iff_object_keys v payload = rw (contains_fields payload)

  -- Nothing inside an array is looked at: whatever stands in an array under a harmless key, its
  -- objects with evaluator-only keys included, passes the boundary of an attacker-visible event.
  pub arrays_pass_boundary :
      (v : EventVisibility) (k : String) (xs : Items)
      → is_evaluator_only rt k ≡ false
      → breaks_boundary rt v (Fields.field k (arr xs) Fields.end) ≡ false
  unfolding breaks_boundary contains_evaluator_only_key freeze
  arrays_pass_boundary v k xs h = ground arith
