-- ===== src/Reference/Policy.antt =====
-- `_validate_policy_configuration` of src/risi/adapters/reference.py and its helpers.
use risi.Prelude.{
  suc, pos, String, Bool, true, false, not, ◌&&◌, ◌||◌, Option, none, some, List, [], ◌∷◌, ◌==◌,
  elem, all_unique, if◌then◌else◌,
}
use risi.Prelude.Failure.{Result, ok, err, value_error, ◌>>=◌, ◌>>◌, raise_if}
use risi.Canonical.{Json, Fields, get, same_keys}
use risi.Models.{PolicyConfiguration, MemoryRecord, memory_ids}

abbrev pub supported_policies : List String
supported_policies =
    "pure-read" ∷ "memory-eclipsing" ∷ "protected-critical-recall" ∷ "risi-shared-counter" ∷ []

-- A positive integer, and no boolean.
abbrev pub is_positive_int : Option Json → Bool
is_positive_int (some (Json.int (pos (suc n)))) = true
is_positive_int _ = false

-- `value is b`
abbrev pub is_bool : Bool → Option Json → Bool
is_bool true (some (Json.bool true)) = true
is_bool false (some (Json.bool false)) = true
is_bool _ _ = false

-- `isinstance(value, str)`
abbrev pub text_of : Option Json → Option String
text_of (some (Json.str s)) = some s
text_of _ = none

pub validate_policy_top_k : Fields → Result (Unit {0})
validate_policy_top_k settings =
    raise_if (not (is_positive_int (get "top_k" settings)))
      (value_error "reference policy top_k is invalid")

pub validate_pure_read_policy : Fields → Result (Unit {0})
unfolding validate_policy_top_k
validate_pure_read_policy settings = do
  raise_if (not (same_keys settings ("top_k" ∷ "read_side_updates" ∷ [])))
      (value_error "reference policy settings are invalid")
  validate_policy_top_k settings
  raise_if (not (is_bool false (get "read_side_updates" settings)))
      (value_error "reference policy read-side setting is invalid")

-- A memory identifier setting: a nonempty text that names a source memory.
pub known_memory : List MemoryRecord → Option String → Result String
known_memory memories none = err (value_error "adaptive reference policy identifier is invalid")
known_memory memories (some id) = do
  raise_if (id == "") (value_error "adaptive reference policy identifier is invalid")
  raise_if (not (elem id (memory_ids memories)))
      (value_error "adaptive reference policy identifier is unknown")
  ok id

abbrev pub adaptive_keys : String → List String
adaptive_keys name =
    if name == "protected-critical-recall"
    then "top_k" ∷ "read_side_updates" ∷ "trigger_memory_id" ∷ "suppressed_memory_id"
      ∷ "protected_criticality" ∷ []
    else "top_k" ∷ "read_side_updates" ∷ "trigger_memory_id" ∷ "suppressed_memory_id" ∷ []

abbrev pub is_text : String → Option Json → Bool
is_text s (some (Json.str t)) = s == t
is_text s _ = false

pub validate_adaptive_policy : List MemoryRecord → String → Fields → Result (Unit {0})
unfolding validate_policy_top_k known_memory
validate_adaptive_policy memories name settings = do
  raise_if (not (same_keys settings (adaptive_keys name)))
      (value_error "reference policy settings are invalid")
  validate_policy_top_k settings
  raise_if (not (is_bool true (get "read_side_updates" settings)))
      (value_error "reference policy read-side setting is invalid")
  trigger ← known_memory memories (text_of (get "trigger_memory_id" settings))
  suppressed ← known_memory memories (text_of (get "suppressed_memory_id" settings))
  raise_if (trigger == suppressed)
      (value_error "adaptive reference trigger and suppressed memory must differ")
  raise_if
      (name == "protected-critical-recall"
        && not (is_text "protected-recall" (get "protected_criticality" settings)))
      (value_error "protected reference policy criticality label is invalid")

pub named_memory : List MemoryRecord → Option String → Result String
named_memory memories none = err (value_error "RISI reference policy memory identifier is invalid")
named_memory memories (some id) = do
  raise_if (not (elem id (memory_ids memories)))
      (value_error "RISI reference policy memory identifier is invalid")
  ok id

pub named_principal : Option String → Result String
named_principal none = err (value_error "RISI reference policy principal is invalid")
named_principal (some id) = do
  raise_if (id == "") (value_error "RISI reference policy principal is invalid")
  ok id

pub validate_risi_policy : List MemoryRecord → Fields → Result (Unit {0})
unfolding validate_policy_top_k named_memory named_principal
validate_risi_policy memories settings = do
  raise_if
      (not (
        same_keys settings (
          "top_k" ∷ "read_side_updates" ∷ "canary_memory_id" ∷ "victim_principal_id"
          ∷ "observer_principal_id" ∷ "no_hidden_signal_memory_id" ∷ "hidden_signal_memory_id"
          ∷ [])))
      (value_error "RISI reference policy settings are invalid")
  validate_policy_top_k settings
  raise_if (not (is_bool true (get "read_side_updates" settings)))
      (value_error "RISI reference policy read-side setting is invalid")
  canary ← named_memory memories (text_of (get "canary_memory_id" settings))
  no_hidden ← named_memory memories (text_of (get "no_hidden_signal_memory_id" settings))
  hidden ← named_memory memories (text_of (get "hidden_signal_memory_id" settings))
  raise_if (not (all_unique (canary ∷ no_hidden ∷ hidden ∷ [])))
      (value_error "RISI reference policy memory identifiers must be distinct")
  victim ← named_principal (text_of (get "victim_principal_id" settings))
  observer ← named_principal (text_of (get "observer_principal_id" settings))
  raise_if (victim == observer)
      (value_error "RISI reference victim and observer principals must differ")

unfoldable pub validate_policy_configuration :
    List MemoryRecord → PolicyConfiguration → Result (Unit {0})
unfolding validate_pure_read_policy validate_risi_policy validate_adaptive_policy
validate_policy_configuration memories c = do
  raise_if (not (elem c.identity.name supported_policies) || not (c.identity.version == "1"))
      (value_error "reference adapter received an unknown policy identity")
  if c.identity.name == "pure-read"
      then validate_pure_read_policy c.settings
      else if c.identity.name == "risi-shared-counter"
      then validate_risi_policy memories c.settings
      else validate_adaptive_policy memories c.identity.name c.settings
