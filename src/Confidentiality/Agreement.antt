-- ===== src/Confidentiality/Agreement.antt =====
-- Python's `==` on two JSON values, and that `_state_differences` of src/risi/confidentiality.py
-- finds nothing exactly where it holds.
use risi.Prelude.{
  ℕ, suc, ◌≡◌, ◌↔◌, refl, String, Bool, true, false, ◌&&◌, none, some, List, [], ◌∷◌, ◌++◌, all,
  elem, arith, Option-cases, inl, inr, ap, ap₂, sym, ◌∙◌,
}
use risi.Canonical.{Json, Items, Fields, get, keys}
use risi.Models.{StateSnapshot}
use risi.Models.Encode.{snapshot_json}
use risi.Confidentiality.Differences.{
  StateDifference, Keyed, differences, field_differences, item_differences, added_fields, collect,
  sort_keyed, insert_keyed, leaf_difference, same_leaf, state_differences, pointer_token, child,
}
use risi.Prelude.Decimal.{decimal}
use risi.Confidentiality.Assessment.{no_differences}
use risi.Confidentiality.Verdict.{no_differences_iff}

-- Objects agree if each field of the left one is in the right one with an equal value, and the
-- right one has no other key; arrays agree item by item.
unfoldable mutual
  pub agree : Json → Json → Bool
  agree (Json.obj vs) (Json.obj ws) = fields_agree vs ws && all (λ k. elem k (keys vs)) (keys ws)
  agree (Json.arr vs) (Json.arr ws) = items_agree vs ws
  agree v w = same_leaf v w

  pub fields_agree : Fields → Fields → Bool
  fields_agree Fields.end ws = true
  fields_agree (Fields.field k v vs) ws =
      elim (get k ws) [ none ↦ false | some w ↦ agree v w ] && fields_agree vs ws

  pub items_agree : Items → Items → Bool
  items_agree Items.nil Items.nil = true
  items_agree (Items.cons v vs) (Items.cons w ws) = agree v w && items_agree vs ws
  items_agree _ _ = false

no_differences-append :
    (ds es : List StateDifference)
    → no_differences (ds ++ es) ≡ (no_differences ds && no_differences es)
no_differences-append [] es = refl
no_differences-append (d ∷ ds) es = refl

-- Nothing is found under any key.
abbrev all_empty : Keyed → Bool
all_empty [] = true
all_empty ((k, ds) ∷ rest) = no_differences ds && all_empty rest

all_empty-append : (xs ys : Keyed) → all_empty (xs ++ ys) ≡ (all_empty xs && all_empty ys)
all_empty-append [] ys = refl
all_empty-append ((k, ds) ∷ xs) ys = ground (arith, all_empty-append xs ys)

all_empty-insert_keyed :
    (k : String) (ds : List StateDifference) (xs : Keyed)
    → all_empty (insert_keyed k ds xs) ≡ (no_differences ds && all_empty xs)
all_empty-insert_keyed k ds [] = refl
all_empty-insert_keyed k ds ((j, es) ∷ xs) = ground (arith, all_empty-insert_keyed k ds xs)

all_empty-sort_keyed : (xs : Keyed) → all_empty (sort_keyed xs) ≡ all_empty xs
all_empty-sort_keyed [] = refl
all_empty-sort_keyed ((k, ds) ∷ xs) =
    rw (all_empty-insert_keyed k ds (sort_keyed xs), all_empty-sort_keyed xs)

no_differences-collect : (xs : Keyed) → no_differences (collect xs) ≡ all_empty xs
no_differences-collect [] = refl
no_differences-collect ((k, ds) ∷ xs) =
    rw (no_differences-append ds (collect xs), no_differences-collect xs)

all_empty-added_fields :
    (ws : Fields) (known : List String) (path : String)
    → all_empty (added_fields ws known path) ≡ all (λ k. elem k known) (keys ws)
all_empty-added_fields Fields.end known path = refl
all_empty-added_fields (Fields.field k w ws) known path =
    ground (arith, all_empty-added_fields ws known path)

leaf_lem : (v w : Json) (path : String) → no_differences (leaf_difference v w path) ≡ same_leaf v w
unfolding leaf_difference
leaf_lem v w path = ground arith

mutual
  unfolding differences agree

  differences_agree :
      (v w : Json) (path : String) → no_differences (differences v w path) ≡ agree v w
  differences_agree (Json.obj vs) (Json.obj ws) path = rw (
    no_differences-collect
        (sort_keyed (field_differences vs ws path ++ added_fields ws (keys vs) path)),
    all_empty-sort_keyed (field_differences vs ws path ++ added_fields ws (keys vs) path),
    all_empty-append (field_differences vs ws path) (added_fields ws (keys vs) path),
    field_differences_agree vs ws path,
    all_empty-added_fields ws (keys vs) path,
  )
  differences_agree (Json.arr vs) (Json.arr ws) path = item_differences_agree vs ws 0 path
  differences_agree Json.null w path = leaf_lem Json.null w path
  differences_agree (Json.bool b) w path = leaf_lem (Json.bool b) w path
  differences_agree (Json.int n) w path = leaf_lem (Json.int n) w path
  differences_agree (Json.real m e) w path = leaf_lem (Json.real m e) w path
  differences_agree (Json.str s) w path = leaf_lem (Json.str s) w path
  differences_agree (Json.obj vs) Json.null path = leaf_lem (Json.obj vs) Json.null path
  differences_agree (Json.obj vs) (Json.bool b) path = leaf_lem (Json.obj vs) (Json.bool b) path
  differences_agree (Json.obj vs) (Json.int n) path = leaf_lem (Json.obj vs) (Json.int n) path
  differences_agree (Json.obj vs) (Json.real m e) path = leaf_lem (Json.obj vs) (Json.real m e) path
  differences_agree (Json.obj vs) (Json.str s) path = leaf_lem (Json.obj vs) (Json.str s) path
  differences_agree (Json.obj vs) (Json.arr ws) path = leaf_lem (Json.obj vs) (Json.arr ws) path
  differences_agree (Json.arr vs) Json.null path = leaf_lem (Json.arr vs) Json.null path
  differences_agree (Json.arr vs) (Json.bool b) path = leaf_lem (Json.arr vs) (Json.bool b) path
  differences_agree (Json.arr vs) (Json.int n) path = leaf_lem (Json.arr vs) (Json.int n) path
  differences_agree (Json.arr vs) (Json.real m e) path = leaf_lem (Json.arr vs) (Json.real m e) path
  differences_agree (Json.arr vs) (Json.str s) path = leaf_lem (Json.arr vs) (Json.str s) path
  differences_agree (Json.arr vs) (Json.obj ws) path = leaf_lem (Json.arr vs) (Json.obj ws) path

  field_differences_agree :
      (vs ws : Fields) (path : String)
      → all_empty (field_differences vs ws path) ≡ fields_agree vs ws
  field_differences_agree Fields.end ws path = refl
  field_differences_agree (Fields.field k v vs) ws path = elim (Option-cases (get k ws)) [
    | inl e ↦ rw e
    | inr (w, e) ↦ rw e (
        ap₂ ◌&&◌ (differences_agree v w (child path (pointer_token k)))
          (field_differences_agree vs ws path))
  ]

  item_differences_agree :
      (vs ws : Items) (i : ℕ) (path : String)
      → no_differences (item_differences vs ws i path) ≡ items_agree vs ws
  item_differences_agree Items.nil Items.nil i path = refl
  item_differences_agree Items.nil (Items.cons w ws) i path = refl
  item_differences_agree (Items.cons v vs) Items.nil i path = refl
  item_differences_agree (Items.cons v vs) (Items.cons w ws) i path = rw (
    no_differences-append (differences v w (child path (decimal i)))
        (item_differences vs ws (suc i) path),
    differences_agree v w (child path (decimal i)),
    item_differences_agree vs ws (suc i) path,
  )

-- The differences of two states are empty exactly if the states, as JSON, are equal for Python.
pub state_differences_iff :
    (s t : StateSnapshot)
    → (state_differences s t ≡ []) ↔ (agree (snapshot_json s) (snapshot_json t) ≡ true)
unfolding state_differences
state_differences_iff s t = (
  (λ h. sym (differences_agree (snapshot_json s) (snapshot_json t) "") ∙ ap no_differences h),
  (λ h.
      (no_differences_iff (differences (snapshot_json s) (snapshot_json t) "")).0
        (differences_agree (snapshot_json s) (snapshot_json t) "" ∙ h)),
)
