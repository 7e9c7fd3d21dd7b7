-- ===== src/Artifacts/Verification/Nested.antt =====
-- What the verification of a bundle does not look at (`verify_evidence_bundle` of
-- src/risi/artifacts.py).
use risi.Prelude.{
  ◌≡◌, refl, ap₂, String, true, ◌&&◌, Option, none, some, List, [], ◌∷◌, ◌++◌, arith,
}
use risi.Prelude.Failure.{Error, ok, Refines, Refines-same, Refines->>=}
use risi.Paths.{Segment, parts}
use risi.Canonical.{Json, Items}
use risi.Artifacts.{
  Bytes, Codec, Tree, InventoryEntry, BundleVerification, find_file, inventory_name,
  validate_artifact_name,
}
use risi.Artifacts.Verification.{
  missing_error, unreadable, present, check_file, entry_from_json, verify_entry, verify_entries,
  is_inventory, all_listed, has_file, all_there, verify_listing, verify_inventory,
  verify_evidence_bundle, inventory_header, parsed,
}

find_file-append :
    (p : List Segment) (s t : Tree) (content : Bytes)
    → find_file p s ≡ some content
    → find_file p (s ++ t) ≡ some content
find_file-append p [] t content h = cc
find_file-append p ((q, x) ∷ s) t content h = ground (arith, find_file-append p s t content)

present_append :
    (error : Error) (p : List Segment) (s t : Tree)
    → Refines (present error (find_file p s)) (present error (find_file p (s ++ t)))
present_append error p s t = found_append (find_file p s) refl
  where
    found_append :
        (o : Option Bytes)
        → find_file p s ≡ o
        → Refines (present error o) (present error (find_file p (s ++ t)))
    found_append none e x h = cc
    found_append (some content) e x h = rw (find_file-append p s t content e) h

module _ (c : Codec) (tree extra : Tree) where
  check_file-append :
      (e : InventoryEntry) → Refines (check_file c tree e) (check_file c (tree ++ extra) e)
  unfolding check_file
  check_file-append e =
      Refines->>= (validate_artifact_name e.path) _ _ _
        (Refines-same (validate_artifact_name e.path))
        (λ u.
          Refines->>= _ _ _ _ (present_append missing_error (parts e.path) tree extra)
            (λ content. Refines-same _))

  verify_entry-append :
      (j : Json) → Refines (verify_entry c tree j) (verify_entry c (tree ++ extra) j)
  unfolding verify_entry
  verify_entry-append j =
      Refines->>= (entry_from_json j) _ _ _ (Refines-same (entry_from_json j)) check_file-append

  verify_entries-append :
      (js : Items) (names : List String)
      → Refines (verify_entries c tree js names) (verify_entries c (tree ++ extra) js names)
  unfolding verify_entries
  verify_entries-append Items.nil names = Refines-same _
  verify_entries-append (Items.cons j js) names = Refines->>= _ _ _ _ (verify_entry-append j) (λ e.
      Refines->>= _ _ _ _ (Refines-same _) (λ u.
        Refines->>= _ _ _ _ (verify_entries-append js (e.path ∷ names))
          (λ es. Refines-same (ok (e ∷ es)))))

module _ (c : Codec) (tree : Tree) (p : List Segment) (content : Bytes)
    (inventory : is_inventory p ≡ true) where
  abbrev extended : Tree
  extended = tree ++ (p, content) ∷ []

  all_listed-extended :
      (es : List InventoryEntry) (s : Tree)
      → all_listed es (s ++ (p, content) ∷ []) ≡ all_listed es s
  all_listed-extended es [] = rw inventory
  all_listed-extended es ((q, x) ∷ s) = ground (arith, all_listed-extended es s)

  has_file-extended :
      (name : String) (s : Tree) → has_file name (s ++ (p, content) ∷ []) ≡ has_file name s
  has_file-extended name [] = rw inventory
  has_file-extended name ((q, x) ∷ s) = ground (arith, has_file-extended name s)

  all_there-extended : (es : List InventoryEntry) → all_there es extended ≡ all_there es tree
  all_there-extended [] = refl
  all_there-extended (e ∷ es) = ap₂ ◌&&◌ (has_file-extended e.path tree) (all_there-extended es)

  verify_listing-extended :
      (text : Bytes) (run_id hash : String) (es : List InventoryEntry)
      → Refines
          (verify_listing c tree text run_id hash es)
          (verify_listing c extended text run_id hash es)
  unfolding verify_listing
  verify_listing-extended text run_id hash es =
      rw (all_listed-extended es tree, all_there-extended es) (Refines-same _)

  verify_inventory-extended :
      (text : Bytes) → Refines (verify_inventory c tree text) (verify_inventory c extended text)
  unfolding verify_inventory
  verify_inventory-extended text =
      Refines->>= (parsed (c.loads text)) _ _ _ (Refines-same (parsed (c.loads text))) (λ j.
        Refines->>= (inventory_header j) _ _ _ (Refines-same (inventory_header j)) (λ header.
          Refines->>= (verify_entries c tree header.1 []) _ _ _
            (verify_entries-append c tree ((p, content) ∷ []) header.1 [])
            (λ es. verify_listing-extended text header.0 header.2 es)))

  -- A file whose name in its directory is inventory.json is not looked at: if the verification of a
  -- bundle returns a summary, it returns the same summary when such a file is added to the bundle,
  -- under any directory and with any content, though no entry lists it.
  pub verify_evidence_bundle-extended :
      (v : BundleVerification)
      → verify_evidence_bundle c tree ≡ ok v
      → verify_evidence_bundle c extended ≡ ok v
  unfolding verify_evidence_bundle
  verify_evidence_bundle-extended =
      Refines->>= _ _ _ _ (present_append unreadable (inventory_name ∷ []) tree ((p, content) ∷ []))
        verify_inventory-extended
