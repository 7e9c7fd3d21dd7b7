-- ===== src/Examples/Artifacts.antt =====
-- A bundle of one file, its verification, and the bundle with a file that no entry lists.
use risi.Prelude.{false, ◌≡◌, refl, some, List, [], ◌∷◌, ◌++◌}
use risi.Prelude.Failure.{ok}
use risi.Prelude.Text.{codes}
use risi.External.Load.{exact_fields, require_str}
use risi.Confidentiality.Differences.{same_leaf}
use risi.Paths.{split_slash, Segment, parts, escapes}
use risi.Canonical.Digest.{canonical_sha256}
use risi.Artifacts.{
  Codec, Tree, Files, BundleVerification, InventoryEntry, inventory_json, inventory_name,
  hash_entries, create_evidence_bundle, prepare_bundle_material, json_bytes, entry_of, entry_json,
  write_file, validate_artifact_name,
}
use risi.Artifacts.Verification.{
  verify_evidence_bundle, verify_inventory, verify_entries, verify_entry, verify_listing,
  check_file, entry_from_json, inventory_header, matches,
}
use risi.Artifacts.Verification.Intact.{IsIntact, verify_evidence_bundle-IsIntact}
use risi.Artifacts.Verification.Nested.{verify_evidence_bundle-extended}
use risi.Examples.{digest, hasher}

abbrev entry : InventoryEntry
entry = record { path = "result.json"; sha256 = digest; byte_count = 2 }

-- The only text that this codec parses is the inventory of that entry.
abbrev pub codec : Codec
codec = record {
  hasher = hasher;
  sha256_bytes = λ b. digest;
  dump_line = λ j. 7 ∷ [];
  loads = λ b. some (inventory_json "run-1" (entry ∷ []) digest);
}

abbrev pub files : Files
files = ("result.json", 1 ∷ 2 ∷ []) ∷ []

abbrev bundle : Tree
bundle = (codes "result.json" ∷ [], 1 ∷ 2 ∷ []) ∷ (inventory_name ∷ [], 7 ∷ []) ∷ []

abbrev verified : BundleVerification
verified = record {
  run_id = "run-1";
  inventory_sha256 = digest;
  bundle_hash = digest;
  file_count = 1;
  total_bytes = 3;
  entries = entry ∷ [];
}

created : create_evidence_bundle codec false "run-1" files 100 ≡ ok (verified, bundle)
unfolding create_evidence_bundle prepare_bundle_material validate_artifact_name escapes entry_of
    json_bytes write_file hash_entries canonical_sha256
created = refl

bundle_verified : verify_evidence_bundle codec bundle ≡ ok verified
unfolding verify_evidence_bundle verify_inventory inventory_header exact_fields inventory_json
    same_leaf require_str verify_entries verify_entry entry_from_json entry_json check_file
    validate_artifact_name escapes matches verify_listing hash_entries canonical_sha256 parts
    split_slash
bundle_verified = refl

verify_evidence_bundle-IsIntact_example : IsIntact codec bundle verified
verify_evidence_bundle-IsIntact_example =
    verify_evidence_bundle-IsIntact codec bundle verified bundle_verified

abbrev hidden_path : List Segment
hidden_path = codes "cache" ∷ inventory_name ∷ []

verify_evidence_bundle-extended_example :
    verify_evidence_bundle codec (bundle ++ (hidden_path, 9 ∷ []) ∷ []) ≡ ok verified
verify_evidence_bundle-extended_example =
    verify_evidence_bundle-extended codec bundle hidden_path (9 ∷ []) refl verified bundle_verified
