-- ===== src/Artifacts/Verification/Intact.antt =====
-- What a verified bundle is worth, and what the verification does not look at
-- (`verify_evidence_bundle` of src/risi/artifacts.py).
use risi.Prelude.{
  ◌≡◌, refl, String, Bool, true, false, not, ◌&&◌, Option, none, some, List, [], ◌∷◌, ◌==◌, eq_iff,
  length, All, arith, subst, elem,
}
use risi.Prelude.Failure.{ok, raise_if, ◌>>=◌, ◌>>◌, >>=-eq-ok, raise_if-passes}
use risi.Paths.{parts}
use risi.Canonical.{Json, Items}
use risi.Artifacts.{
  Bytes, Codec, Tree, InventoryEntry, BundleVerification, find_file, inventory_name,
  validate_artifact_name, hash_entries,
}
use risi.Artifacts.Verification.{
  unreadable, missing_error, integrity_error, present, matches, check_file, entry_from_json,
  verify_entry, verify_entries, all_listed, all_there, verify_listing, verify_inventory,
  verify_evidence_bundle, inventory_header, parsed, summary,
}

-- The file that an entry names is there, with the size and the digest of the entry.
pub record IsStored (c : Codec) (tree : Tree) (e : InventoryEntry) : Type 0 where
  pub content : Bytes
  pub found : find_file (parts e.path) tree ≡ some content
  pub size : length content ≡ e.byte_count
  pub digest : c.sha256_bytes content ≡ e.sha256

ok_injective {ℓ} : {A : Type ℓ} (x y : A) → ok x ≡ ok y → x ≡ y
ok_injective x y h = cc

-- The entries of a verified bundle.
abbrev pub AllStored : Codec → Tree → List InventoryEntry → Type 0
AllStored c tree es = All (IsStored c tree) es

module _ (c : Codec) (tree : Tree) where
  matches→IsStored :
      (e : InventoryEntry) (content : Bytes)
      → find_file (parts e.path) tree ≡ some content
      → matches c content e.byte_count e.sha256 ≡ true
      → IsStored c tree e
  unfolding matches
  matches→IsStored e content found h = record {
    content = content;
    found = found;
    size = ground arith;
    digest = (eq_iff (c.sha256_bytes content) e.sha256).0 (ground arith);
  }

  matching :
      (e d : InventoryEntry) (content : Bytes)
      → find_file (parts e.path) tree ≡ some content
      → (raise_if (not (matches c content e.byte_count e.sha256)) integrity_error >> ok e) ≡ ok d
      → IsStored c tree d
  matching e d content found h =
      let (t, r) = raise_if-passes (not (matches c content e.byte_count e.sha256)) _ _ h in
      subst (IsStored c tree) (ok_injective e d r) (matches→IsStored e content found (ground arith))

  check_file-IsStored : (e d : InventoryEntry) → check_file c tree e ≡ ok d → IsStored c tree d
  unfolding check_file
  check_file-IsStored e d h =
      let (u, named, h1) = >>=-eq-ok (validate_artifact_name e.path) _ h in
      with_content (find_file (parts e.path) tree) refl h1
    where
      with_content :
          (o : Option Bytes)
          → find_file (parts e.path) tree ≡ o
          → (present missing_error o >>= λ content.
              raise_if (not (matches c content e.byte_count e.sha256)) integrity_error >> ok e)
            ≡ ok d
          → IsStored c tree d
      with_content none found r = cc
      with_content (some content) found r = matching e d content found r

  verify_entry-IsStored :
      (j : Json) (d : InventoryEntry) → verify_entry c tree j ≡ ok d → IsStored c tree d
  unfolding verify_entry
  verify_entry-IsStored j d h =
      let (e, r, k) = >>=-eq-ok (entry_from_json j) (check_file c tree) h in
      check_file-IsStored e d k

  verify_entries-AllStored :
      (js : Items) (names : List String) (es : List InventoryEntry)
      → verify_entries c tree js names ≡ ok es
      → AllStored c tree es
  unfolding verify_entries
  verify_entries-AllStored Items.nil names es h = subst (AllStored c tree) (ok_injective [] es h) tt
  verify_entries-AllStored (Items.cons j js) names es h =
      let (e, r, h1) = >>=-eq-ok (verify_entry c tree j) _ h in
      let (t, h2) = raise_if-passes (elem e.path names) _ _ h1 in
      let (rest, q, h3) = >>=-eq-ok (verify_entries c tree js (e.path ∷ names)) _ h2 in
      subst (AllStored c tree) (ok_injective (e ∷ rest) es h3)
        (verify_entry-IsStored j e r, verify_entries-AllStored js (e.path ∷ names) rest q)

-- The files of a directory are those of the entries: each entry's file is there with its size and
-- digest, each file but those named inventory.json is listed, and the hash is that of the entries.
pub record IsIntact (c : Codec) (tree : Tree) (v : BundleVerification) : Type 0 where
  pub stored : AllStored c tree v.entries
  pub complete : all_listed v.entries tree ≡ true
  pub hash : v.bundle_hash ≡ hash_entries c v.entries
  pub inventory : Bytes
  pub inventory_found : find_file (inventory_name ∷ []) tree ≡ some inventory
  pub inventory_digest : v.inventory_sha256 ≡ c.sha256_bytes inventory

module _ (c : Codec) (tree : Tree) where
  listing-IsIntact :
      (content : Bytes) (run_id hash : String) (es : List InventoryEntry) (v : BundleVerification)
      → find_file (inventory_name ∷ []) tree ≡ some content
      → AllStored c tree es
      → verify_listing c tree content run_id hash es ≡ ok v
      → IsIntact c tree v
  unfolding verify_listing
  listing-IsIntact content run_id hash es v found stored h =
      let (t, h1) = raise_if-passes (not (all_listed es tree && all_there es tree)) _ _ h in
      let (u, h2) = raise_if-passes (not (hash == hash_entries c es)) _ _ h1 in
      subst (IsIntact c tree) (ok_injective (summary c run_id content es) v h2) (record {
        stored = stored;
        complete = first_true (all_listed es tree) (all_there es tree) t;
        hash = refl;
        inventory = content;
        inventory_found = found;
        inventory_digest = refl;
      })
    where
      first_true : (a b : Bool) → not (a && b) ≡ false → a ≡ true
      first_true a b t = ground arith

  inventory-IsIntact :
      (content : Bytes) (v : BundleVerification)
      → find_file (inventory_name ∷ []) tree ≡ some content
      → verify_inventory c tree content ≡ ok v
      → IsIntact c tree v
  unfolding verify_inventory
  inventory-IsIntact content v found h =
      let (j, p, h1) = >>=-eq-ok (parsed (c.loads content)) _ h in
      let (header, q, h2) = >>=-eq-ok (inventory_header j) _ h1 in
      let (es, r, h3) = >>=-eq-ok (verify_entries c tree header.1 []) _ h2 in
      listing-IsIntact content header.0 header.2 es v found
        (verify_entries-AllStored c tree header.1 [] es r) h3

  -- If the verification of a bundle returns a summary, the files of the directory are intact: each
  -- entry's file is there with its size and digest, each file but those named inventory.json is
  -- listed, and the summary's hashes are those of the entries and of the inventory.
  pub verify_evidence_bundle-IsIntact :
      (v : BundleVerification) → verify_evidence_bundle c tree ≡ ok v → IsIntact c tree v
  unfolding verify_evidence_bundle
  verify_evidence_bundle-IsIntact v h = with_inventory (find_file (inventory_name ∷ []) tree) refl h
    where
      with_inventory :
          (o : Option Bytes)
          → find_file (inventory_name ∷ []) tree ≡ o
          → (present unreadable o >>= λ content. verify_inventory c tree content) ≡ ok v
          → IsIntact c tree v
      with_inventory none found r = cc
      with_inventory (some content) found r = inventory-IsIntact content v found r
