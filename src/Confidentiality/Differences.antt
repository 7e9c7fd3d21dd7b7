-- ===== src/Confidentiality/Differences.antt =====
-- `_state_differences` of src/risi/confidentiality.py. The values are JSON, as `to_json` of a snapshot
-- returns it. The loop over the sorted union of the keys is a loop over the fields of the left
-- object, then over those of the right one that are new, and its results are put in the order of
-- their keys.
use risi.Prelude.{
  ℕ, suc, pos_part, neg_part, ℤ, pos, ◌*◌, ◌+◌, ◌^◌, eqb, String, Bool, true, false, ◌&&◌, Option,
  none, some, List, [], ◌∷◌, ◌++◌, ◌==◌, elem, if◌then◌else◌,
}
use risi.Prelude.Text.{str_leb}
use risi.Prelude.Decimal.{decimal}
use risi.Canonical.{Json, Items, Fields, obj, entries, str, get, keys}
use risi.Models.{StateSnapshot}
use risi.Models.Encode.{snapshot_json}

pub record StateDifference : Type 0 where
  pub path : String
  pub no_hidden_present : Bool
  pub no_hidden_value : Json
  pub hidden_present : Bool
  pub hidden_value : Json

unfoldable pub difference_json : StateDifference → Json
difference_json d = obj (
    entries (
      ("path", str d.path)
      ∷ ("no_hidden_present", Json.bool d.no_hidden_present)
      ∷ ("no_hidden_value", d.no_hidden_value)
      ∷ ("hidden_present", Json.bool d.hidden_present)
      ∷ ("hidden_value", d.hidden_value)
      ∷ []))

-- `s + t`
abbrev pub join : String → String → String
join String.[] t = t
join (String.◌∷◌ c s) t = String.◌∷◌ c (join s t)

-- `value.replace("~", "~0").replace("/", "~1")`: the first replacement writes no slash.
unfoldable pub pointer_token : String → String
pointer_token String.[] = String.[]
pointer_token (String.◌∷◌ c s) =
    let rest = pointer_token s in
    if String.◌∷◌ c String.[] == "~"
    then join "~0" rest
    else if String.◌∷◌ c String.[] == "/"
    then join "~1" rest
    else String.◌∷◌ c rest

-- `f"{path}/{token}"`
abbrev pub child : String → String → String
child path token = join path (String.◌∷◌ "/" token)

-- The value of a number, m * 10^e: `True` is 1.
abbrev pub number : Json → Option (ℤ × ℤ)
number (Json.bool true) = some (pos 1, pos 0)
number (Json.bool false) = some (pos 0, pos 0)
number (Json.int n) = some (n, pos 0)
number (Json.real m e) = some (m, e)
number _ = none

pub same_number : ℤ × ℤ → ℤ × ℤ → Bool
same_number (m, e) (n, f) =
    eqb (pos_part m * 10 ^ (pos_part e + neg_part f)) (pos_part n * 10 ^ (pos_part f + neg_part e))
    && eqb (neg_part m * 10 ^ (pos_part e + neg_part f))
        (neg_part n * 10 ^ (pos_part f + neg_part e))

abbrev pub same_optional_number : Option (ℤ × ℤ) → Option (ℤ × ℤ) → Bool
unfolding same_number
same_optional_number (some x) (some y) = same_number x y
same_optional_number _ _ = false

-- `==` of two normalized values that are not both objects and not both arrays.
unfoldable pub same_leaf : Json → Json → Bool
unfolding same_number
same_leaf Json.null Json.null = true
same_leaf (Json.str s) (Json.str t) = s == t
same_leaf v w = same_optional_number (number v) (number w)

abbrev pub removed : String → Json → StateDifference
removed path v = record {
  path = path;
  no_hidden_present = true;
  no_hidden_value = v;
  hidden_present = false;
  hidden_value = Json.null;
}

abbrev pub added : String → Json → StateDifference
added path w = record {
  path = path;
  no_hidden_present = false;
  no_hidden_value = Json.null;
  hidden_present = true;
  hidden_value = w;
}

-- `path or "/"`
abbrev pub root_or : String → String
root_or path = if path == "" then "/" else path

unfoldable pub leaf_difference : Json → Json → String → List StateDifference
unfolding same_leaf
leaf_difference v w path =
    if same_leaf v w
    then []
    else record {
      path = root_or path;
      no_hidden_present = true;
      no_hidden_value = v;
      hidden_present = true;
      hidden_value = w;
    }
      ∷ []

-- The differences under the keys of an object, each with its key.
abbrev pub Keyed : Type 0
Keyed = List (String × List StateDifference)

abbrev pub insert_keyed : String → List StateDifference → Keyed → Keyed
insert_keyed k ds [] = (k, ds) ∷ []
insert_keyed k ds ((j, es) ∷ rest) =
    let later = insert_keyed k ds rest in
    if str_leb k j then (k, ds) ∷ (j, es) ∷ rest else (j, es) ∷ later

-- In the order of the keys.
abbrev pub collect : Keyed → List StateDifference
collect [] = []
collect ((k, ds) ∷ rest) = ds ++ collect rest

abbrev pub sort_keyed : Keyed → Keyed
sort_keyed [] = []
sort_keyed ((k, ds) ∷ rest) = insert_keyed k ds (sort_keyed rest)

-- The keys that only the right object has.
abbrev pub added_fields : Fields → List String → String → Keyed
added_fields Fields.end known path = []
added_fields (Fields.field k w ws) known path =
    let rest = added_fields ws known path in
    if elem k known then rest else (k, added (child path (pointer_token k)) w ∷ []) ∷ rest

abbrev pub added_items : Items → ℕ → String → List StateDifference
added_items Items.nil i path = []
added_items (Items.cons w ws) i path =
    added (child path (decimal i)) w ∷ added_items ws (suc i) path

unfoldable mutual
  unfolding pointer_token leaf_difference

  pub differences : Json → Json → String → List StateDifference
  differences (Json.obj vs) (Json.obj ws) path =
      collect (sort_keyed (field_differences vs ws path ++ added_fields ws (keys vs) path))
  differences (Json.arr vs) (Json.arr ws) path = item_differences vs ws 0 path
  differences v w path = leaf_difference v w path

  pub field_differences : Fields → Fields → String → Keyed
  field_differences Fields.end ws path = []
  field_differences (Fields.field k v vs) ws path =
      (
        k,
        elim (get k ws) [
          | none ↦ removed (child path (pointer_token k)) v ∷ []
          | some w ↦ differences v w (child path (pointer_token k))
        ],
      )
      ∷ field_differences vs ws path

  pub item_differences : Items → Items → ℕ → String → List StateDifference
  item_differences Items.nil ws i path = added_items ws i path
  item_differences (Items.cons v vs) Items.nil i path =
      removed (child path (decimal i)) v ∷ item_differences vs Items.nil (suc i) path
  item_differences (Items.cons v vs) (Items.cons w ws) i path =
      differences v w (child path (decimal i)) ++ item_differences vs ws (suc i) path

unfoldable pub state_differences : StateSnapshot → StateSnapshot → List StateDifference
unfolding differences snapshot_json
state_differences s t = differences (snapshot_json s) (snapshot_json t) ""
