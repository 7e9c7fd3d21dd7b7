-- ===== src/Canonical/Digest.antt =====
-- Digests over canonical JSON (`canonical_sha256` of src/risi/canonical.py). `json.dumps` with
-- sorted keys and compact separators, its UTF-8 encoding and SHA-256 are not under src/: together
-- they are the parameter `sha256`, a function of the value with its keys in order.
use risi.Prelude.{String, ◌≡◌, ◌≢◌, true, if◌then◌else◌}
use risi.Prelude.Text.{is_sha256_digest, str_leb}
use risi.Canonical.{Json, Items, Fields}

pub record Hasher : Type 0 where
  pub sha256 : Json → String

insert_field : String → Json → Fields → Fields
insert_field k v Fields.end = Fields.field k v Fields.end
insert_field k v (Fields.field j w fs) =
    if str_leb k j
    then Fields.field k v (Fields.field j w fs)
    else Fields.field j w (insert_field k v fs)

-- `sort_keys=True`, at every depth.
mutual
  sort_value : Json → Json
  sort_value (Json.arr xs) = Json.arr (sort_items xs)
  sort_value (Json.obj fs) = Json.obj (sort_fields fs)
  sort_value j = j

  sort_items : Items → Items
  sort_items Items.nil = Items.nil
  sort_items (Items.cons x xs) = Items.cons (sort_value x) (sort_items xs)

  sort_fields : Fields → Fields
  sort_fields Fields.end = Fields.end
  sort_fields (Fields.field k v fs) = insert_field k (sort_value v) (sort_fields fs)

unfoldable pub sort_keys : Json → Json
unfolding sort_value insert_field
sort_keys j = sort_value j

unfoldable pub canonical_sha256 : Hasher → Json → String
canonical_sha256 h j = h.sha256 (sort_keys j)

-- What `hashlib.sha256(...).hexdigest()` is documented to return.
pub record IsHexHasher (h : Hasher) : Type 0 where
  pub hex : (j : Json) → is_sha256_digest (h.sha256 j) ≡ true

-- Two values that differ by more than the order of keys, and have one digest.
pub record Collision (h : Hasher) : Type 0 where
  pub left : Json
  pub right : Json
  pub distinct : sort_keys left ≢ sort_keys right
  pub agree : canonical_sha256 h left ≡ canonical_sha256 h right
