-- ===== src/Artifacts.antt =====
-- src/risi/artifacts.py: evidence bundles. A bundle directory is a list of regular files, each under
-- the segments of its path; a file system with links is not modelled. SHA-256 of bytes, the bytes of a
-- serialized value and their parsing are not under src/ and are the parameter `Codec`.
pub mod Verification
use risi.Prelude.{
  ℕ, ℤ, pos, negsuc, ◌+◌, eqb, ltb, String, Bool, true, false, not, ◌&&◌, ◌||◌, Option, none, some,
  List, [], ◌∷◌, ◌++◌, ◌==◌, all, any, elem, length, is_none, map, if◌then◌else◌,
}
use risi.Prelude.Failure.{Error, Result, ok, err, artifact_error, ◌>>=◌, ◌>>◌, raise_if}
use risi.Prelude.Text.{codes, str_leb}
use risi.Paths.{Segment, parts, same_codes, escapes, has_backslash}
use risi.Canonical.{Json, Items, Fields, obj, arr, str, int, entries, nat, get, same_keys}
use risi.Canonical.Digest.{Hasher, canonical_sha256, sort_keys}
use risi.Confidentiality.Differences.{same_leaf}

abbrev pub Bytes : Type 0
Bytes = List ℕ

pub record Codec : Type 0 where
  pub hasher : Hasher
  -- `hashlib.sha256(value).hexdigest()`
  pub sha256_bytes : Bytes → String
  -- `f"{json.dumps(value, ...)}\n".encode()`, of the value with its keys in order
  pub dump_line : Json → Bytes
  -- `json.loads(content)`, if it is JSON
  pub loads : Bytes → Option Json

-- `json_bytes`
unfoldable pub json_bytes : Codec → Json → Bytes
json_bytes c j = c.dump_line (sort_keys j)

-- `json_lines_bytes`
unfoldable pub json_lines_bytes : Codec → List Json → Bytes
json_lines_bytes c [] = []
json_lines_bytes c (j ∷ js) = json_bytes c j ++ json_lines_bytes c js

pub record InventoryEntry : Type 0 where
  pub path : String
  pub sha256 : String
  pub byte_count : ℕ

unfoldable pub entry_json : InventoryEntry → Json
entry_json e =
    obj
      (entries (("path", str e.path) ∷ ("sha256", str e.sha256) ∷ ("bytes", nat e.byte_count) ∷ []))

pub record BundleVerification : Type 0 where
  pub run_id : String
  pub inventory_sha256 : String
  pub bundle_hash : String
  pub file_count : ℕ
  pub total_bytes : ℕ
  pub entries : List InventoryEntry

unfoldable pub verification_json : BundleVerification → Json
verification_json v = obj (
    entries (
      ("run_id", str v.run_id)
      ∷ ("inventory_sha256", str v.inventory_sha256)
      ∷ ("bundle_hash", str v.bundle_hash)
      ∷ ("file_count", nat v.file_count)
      ∷ ("total_bytes", nat v.total_bytes)
      ∷ []))

-- `_BundleMaterial`
pub record BundleMaterial : Type 0 where
  pub entries : List InventoryEntry
  pub inventory_content : Bytes
  pub bundle_hash : String
  pub total_bytes : ℕ

unfoldable pub validate_artifact_name : String → Result (Unit {0})
validate_artifact_name name = do
  raise_if (escapes name || has_backslash name)
      (artifact_error "artifact names must remain beneath the bundle root")
  raise_if (name == "inventory.json")
      (artifact_error "inventory.json is reserved by the evidence writer")

-- `files`: names and contents, in the order of the dict.
abbrev pub Files : Type 0
Files = List (String × Bytes)

abbrev pub validate_names : Files → Result (Unit {0})
validate_names [] = ok tt
validate_names ((name, content) ∷ rest) = validate_artifact_name name >> validate_names rest

-- `for name in sorted(files)`
abbrev pub insert_file : String × Bytes → Files → Files
insert_file x [] = x ∷ []
insert_file x (y ∷ ys) = if str_leb x.0 y.0 then x ∷ y ∷ ys else y ∷ insert_file x ys

abbrev pub sort_files : Files → Files
sort_files [] = []
sort_files (x ∷ xs) = insert_file x (sort_files xs)

unfoldable pub entry_of : Codec → String × Bytes → InventoryEntry
entry_of c x = record { path = x.0; sha256 = c.sha256_bytes x.1; byte_count = length x.1 }

abbrev pub entries_json : List InventoryEntry → Items
entries_json [] = Items.nil
entries_json (e ∷ es) = Items.cons (entry_json e) (entries_json es)

-- `canonical_sha256([entry.to_json() for entry in entries])`
unfoldable pub hash_entries : Codec → List InventoryEntry → String
hash_entries c es = canonical_sha256 c.hasher (arr (entries_json es))

abbrev pub sum_bytes : List InventoryEntry → ℕ
sum_bytes [] = 0
sum_bytes (e ∷ es) = e.byte_count + sum_bytes es

unfoldable pub inventory_json : String → List InventoryEntry → String → Json
inventory_json run_id es hash = obj (
    entries (
      ("schema_version", nat 1)
      ∷ ("run_id", str run_id)
      ∷ ("files", arr (entries_json es))
      ∷ ("bundle_hash", str hash)
      ∷ []))

abbrev pub material_of : Codec → String → List InventoryEntry → BundleMaterial
material_of c run_id es =
    let content = json_bytes c (inventory_json run_id es (hash_entries c es)) in
    record {
      entries = es;
      inventory_content = content;
      bundle_hash = hash_entries c es;
      total_bytes = sum_bytes es + length content;
    }

abbrev pub no_files : Files → Bool
no_files [] = true
no_files (x ∷ xs) = false

-- `_prepare_bundle_material`
unfoldable pub prepare_bundle_material : Codec → String → Files → Result BundleMaterial
prepare_bundle_material c run_id files = do
  raise_if (no_files files) (artifact_error "evidence bundle must contain files")
  validate_names files
  ok (material_of c run_id (map (entry_of c) (sort_files files)))

unfoldable pub measure_evidence_bundle : Codec → String → Files → Result ℕ
measure_evidence_bundle c run_id files = do
  material ← prepare_bundle_material c run_id files
  ok material.total_bytes

-- The files of a bundle directory, by the segments of their paths.
abbrev pub Tree : Type 0
Tree = List (List Segment × Bytes)

abbrev pub same_path : List Segment → List Segment → Bool
same_path [] [] = true
same_path (a ∷ as') (b ∷ bs) = same_codes a b && same_path as' bs
same_path _ _ = false

abbrev pub find_file : List Segment → Tree → Option Bytes
find_file p [] = none
find_file p ((q, content) ∷ rest) = if same_path p q then some content else find_file p rest

-- A path that the other one goes through.
abbrev pub is_above : List Segment → List Segment → Bool
is_above [] [] = false
is_above [] (b ∷ bs) = true
is_above (a ∷ as') [] = false
is_above (a ∷ as') (b ∷ bs) = same_codes a b && is_above as' bs

abbrev pub blocks : List Segment → List Segment × Bytes → Bool
blocks p file = is_above p file.0 || is_above file.0 p

abbrev pub overwrite : List Segment → Bytes → Tree → Tree
overwrite p content [] = (p, content) ∷ []
overwrite p content ((q, old) ∷ rest) =
    if same_path p q then (q, content) ∷ rest else (q, old) ∷ overwrite p content rest

-- `mkdir(parents=True)` and `write_bytes`: a file where a directory is needed, or a directory where
-- the file is to be, is an `OSError`.
unfoldable pub write_file : List Segment → Bytes → Tree → Result Tree
write_file p content tree =
    if any (blocks p) tree
    then err (artifact_error "cannot create evidence bundle")
    else ok (overwrite p content tree)

abbrev pub write_files : Files → Tree → Result Tree
write_files [] tree = ok tree
write_files ((name, content) ∷ rest) tree = do
  tree' ← write_file (parts name) content tree
  write_files rest tree'

abbrev pub inventory_name : Segment
inventory_name = codes "inventory.json"

-- `create_evidence_bundle`: the summary, and the directory that it leaves. Whether the destination
-- exists is an argument.
unfoldable pub create_evidence_bundle :
    Codec → Bool → String → Files → ℕ → Result (BundleVerification × Tree)
create_evidence_bundle c exists run_id files max_bytes = do
  material ← prepare_bundle_material c run_id files
  raise_if exists (artifact_error "evidence bundle already exists; run IDs are immutable")
  raise_if (ltb max_bytes material.total_bytes)
      (artifact_error "evidence bundle exceeds the approved artifact_bytes limit")
  staged ← write_files files []
  tree ← write_file (inventory_name ∷ []) material.inventory_content staged
  ok (
    record {
      run_id = run_id;
      inventory_sha256 = c.sha256_bytes material.inventory_content;
      bundle_hash = material.bundle_hash;
      file_count = length material.entries;
      total_bytes = material.total_bytes;
      entries = material.entries;
    },
    tree,
  )
