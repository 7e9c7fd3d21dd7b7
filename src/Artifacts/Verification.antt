-- ===== src/Artifacts/Verification.antt =====
-- `verify_evidence_bundle` of src/risi/artifacts.py.
pub mod Intact
pub mod Nested
use risi.Prelude.{
  ℕ, ℤ, pos, negsuc, ◌+◌, eqb, String, Bool, true, false, not, ◌&&◌, ◌||◌, Option, none, some, List,
  [], ◌∷◌, ◌++◌, ◌==◌, all, any, elem, length, map, if◌then◌else◌,
}
use risi.Prelude.Failure.{Error, Result, ok, err, artifact_error, ◌>>=◌, ◌>>◌, raise_if}
use risi.Prelude.Text.{codes}
use risi.Paths.{Segment, parts, same_codes}
use risi.Canonical.{Json, Items, Fields, obj, arr, str, int, nat, get}
use risi.Confidentiality.Differences.{same_leaf}
use risi.External.Load.{exact_fields, require_str}
use risi.Artifacts.{
  Bytes, Codec, Tree, InventoryEntry, BundleVerification, find_file, inventory_name,
  validate_artifact_name, hash_entries, sum_bytes,
}

abbrev pub unreadable : Error
unreadable = artifact_error "cannot read bundle inventory"

abbrev pub parsed : Option Json → Result Json
parsed none = err unreadable
parsed (some j) = ok j

abbrev pub present : Error → Option Bytes → Result Bytes
present error none = err error
present error (some content) = ok content

-- `inventory["schema_version"] != 1`, Python's comparison.
abbrev pub is_one : Option Json → Bool
is_one none = false
is_one (some v) = same_leaf v (nat 1)

abbrev pub require_items : Option Json → Result Items
require_items (some (arr xs)) = ok xs
require_items j = err (artifact_error "bundle inventory files must be an array")

abbrev bad_identity : Error
bad_identity = artifact_error "bundle inventory identity is invalid"

-- `_validate_inventory_header`
unfoldable pub inventory_header : Json → Result (String × Items × String)
inventory_header j = do
  fs ←
      exact_fields j ("schema_version" ∷ "run_id" ∷ "files" ∷ "bundle_hash" ∷ [])
        (artifact_error "bundle inventory has an invalid field set")
  raise_if (not (is_one (get "schema_version" fs))) bad_identity
  run_id ← require_str bad_identity (get "run_id" fs)
  files ← require_items (get "files" fs)
  hash ←
      require_str (artifact_error "bundle inventory hash must be a string") (get "bundle_hash" fs)
  ok (run_id, files, hash)

abbrev bad_metadata : Error
bad_metadata = artifact_error "bundle inventory contains invalid file metadata"

abbrev pub require_count : Option Json → Result ℕ
require_count (some (int (pos n))) = ok n
require_count j = err bad_metadata

-- `len(content) != byte_count or _sha256_bytes(content) != digest`
unfoldable pub matches : Codec → Bytes → ℕ → String → Bool
matches c content n digest = eqb (length content) n && c.sha256_bytes content == digest

abbrev pub missing_error : Error
missing_error = artifact_error "bundle file escapes or is missing from the bundle root"

abbrev pub integrity_error : Error
integrity_error = artifact_error "bundle file failed integrity verification"

-- The file of an entry, checked. A directory is no file, and is refused as if it were missing.
unfoldable pub check_file : Codec → Tree → InventoryEntry → Result InventoryEntry
check_file c tree e = do
  validate_artifact_name e.path
  content ← present missing_error (find_file (parts e.path) tree)
  raise_if (not (matches c content e.byte_count e.sha256)) integrity_error
  ok e

unfoldable pub entry_from_json : Json → Result InventoryEntry
entry_from_json j = do
  fs ←
      exact_fields j ("path" ∷ "sha256" ∷ "bytes" ∷ [])
        (artifact_error "bundle inventory contains an invalid file entry")
  name ← require_str bad_metadata (get "path" fs)
  digest ← require_str bad_metadata (get "sha256" fs)
  n ← require_count (get "bytes" fs)
  ok (record { path = name; sha256 = digest; byte_count = n })

-- `_verify_entry`
unfoldable pub verify_entry : Codec → Tree → Json → Result InventoryEntry
verify_entry c tree j = do e ← entry_from_json j; check_file c tree e

-- `_verify_entries`, after the entries of these names.
unfoldable pub verify_entries : Codec → Tree → Items → List String → Result (List InventoryEntry)
verify_entries c tree Items.nil names = ok []
verify_entries c tree (Items.cons j js) names = do
  e ← verify_entry c tree j
  raise_if (elem e.path names) (artifact_error "bundle inventory contains duplicate paths")
  es ← verify_entries c tree js (e.path ∷ names)
  ok (e ∷ es)

-- `path.relative_to(root).as_posix()`
abbrev pub posix : List Segment → List ℕ
posix [] = []
posix (s ∷ []) = s
posix (s ∷ t ∷ ts) = s ++ b'/' ∷ posix (t ∷ ts)

-- `path.name == "inventory.json"`
abbrev pub is_inventory : List Segment → Bool
is_inventory [] = false
is_inventory (s ∷ []) = same_codes s inventory_name
is_inventory (s ∷ t ∷ ts) = is_inventory (t ∷ ts)

abbrev pub listed : List InventoryEntry → List ℕ → Bool
listed es name = any (λ e. same_codes (codes e.path) name) es

-- `actual_names <= expected_names`: every file but the inventories is listed.
abbrev pub all_listed : List InventoryEntry → Tree → Bool
all_listed es [] = true
all_listed es ((p, content) ∷ rest) = (is_inventory p || listed es (posix p)) && all_listed es rest

-- `name in actual_names`
abbrev pub has_file : String → Tree → Bool
has_file name [] = false
has_file name ((p, content) ∷ rest) =
    (not (is_inventory p) && same_codes (codes name) (posix p)) || has_file name rest

-- `expected_names <= actual_names`
abbrev pub all_there : List InventoryEntry → Tree → Bool
all_there es tree = all (λ e. has_file e.path tree) es

abbrev summary : Codec → String → Bytes → List InventoryEntry → BundleVerification
summary c run_id content es = record {
  run_id = run_id;
  inventory_sha256 = c.sha256_bytes content;
  bundle_hash = hash_entries c es;
  file_count = length es;
  total_bytes = sum_bytes es + length content;
  entries = es;
}

-- What follows the checks of the single entries.
unfoldable pub verify_listing :
    Codec → Tree → Bytes → String → String → List InventoryEntry → Result BundleVerification
verify_listing c tree content run_id hash es = do
  raise_if (not (all_listed es tree && all_there es tree))
      (artifact_error "bundle contains missing or unlisted files")
  raise_if (not (hash == hash_entries c es))
      (artifact_error "bundle inventory hash does not match its entries")
  ok (summary c run_id content es)

-- The inventory, once it was read.
unfoldable pub verify_inventory : Codec → Tree → Bytes → Result BundleVerification
verify_inventory c tree content = do
  j ← parsed (c.loads content)
  header ← inventory_header j
  es ← verify_entries c tree header.1 []
  verify_listing c tree content header.0 header.2 es

unfoldable pub verify_evidence_bundle : Codec → Tree → Result BundleVerification
verify_evidence_bundle c tree = do
  content ← present unreadable (find_file (inventory_name ∷ []) tree)
  verify_inventory c tree content
