-- ===== src/Reference/Retrieval.antt =====
-- What a retrieval returns and what it leaves behind, as functions of the state:
-- `retrieve`, `_is_retrievable`, `_suppressed_memory_ids`, `_apply_risi_probe_ranking` and the
-- read-side updates of src/risi/adapters/reference.py.
pub mod Update
pub mod Authorized
pub mod Recalled
pub mod Served
pub mod PureRead
use risi.Prelude.{
  ℕ, zero, suc, ◌+◌, ℤ, pos, String, Bool, true, false, not, ◌&&◌, ◌||◌, Option, none, some, List,
  [], ◌∷◌, ◌==◌, eqb, leb, ltb, elem, filter, map, take, length, if◌then◌else◌,
}
use risi.Prelude.Failure.{Result, ok, err, value_error, type_error, ◌>>=◌, ◌>>◌, raise_if}
use risi.Prelude.Text.{str_leb}
use risi.Canonical.{Json, Items, Fields, get, entries, nat}
use risi.Models.{
  MemoryRecord, MemoryState, RetrievalQuery, RetrievalHit, RetrievalResult, StateSnapshot,
}
use risi.Models.Checks.{check_result}
use risi.Trace.{Runtime}
use risi.Reference.{find_memory}
use risi.Reference.Scoring.{score}
use risi.Reference.Policy.{text_of}

-- `logical_time >= valid_from and (valid_until is None or logical_time < valid_until)`
abbrev pub valid_at : ℕ → ℕ → Option ℕ → Bool
valid_at now from_time none = leb from_time now
valid_at now from_time (some until) = leb from_time now && ltb now until

abbrev pub is_current : MemoryState → Bool
is_current MemoryState.current = true
is_current _ = false

unfoldable pub is_retrievable : StateSnapshot → RetrievalQuery → MemoryRecord → Bool
is_retrievable s q m =
    is_current m.state
    && (m.tenant_id == q.tenant_id)
    && elem q.principal_id m.access_policy
    && valid_at s.logical_time m.logical_valid_from m.logical_valid_until

-- A score and the identifier of its memory.
abbrev pub Scored : Type 0
Scored = ℕ × String

abbrev pub scored_ids : List Scored → List String
scored_ids ss = map (λ x. x.1) ss

-- The loop over the source memories.
unfoldable pub score_all :
    Runtime → StateSnapshot → RetrievalQuery → List MemoryRecord → List Scored
score_all rt s q [] = []
score_all rt s q (m ∷ ms) =
    let rest = score_all rt s q ms in
    let value = score rt q.text m.content in
    if is_retrievable s q m && ltb 0 value then (value, m.memory_id) ∷ rest else rest

-- `sorted` by a comparison of keys.
abbrev pub insert_by : (Scored → Scored → Bool) → Scored → List Scored → List Scored
insert_by before x [] = x ∷ []
insert_by before x (y ∷ ys) = if before x y then x ∷ y ∷ ys else y ∷ insert_by before x ys

abbrev pub sort_by : (Scored → Scored → Bool) → List Scored → List Scored
sort_by before [] = []
sort_by before (x ∷ xs) = insert_by before x (sort_by before xs)

-- key=(-score, memory_id)
abbrev pub by_score : Scored → Scored → Bool
by_score (s, i) (t, j) = ltb t s || (eqb t s && str_leb i j)

-- key=(memory_id != preferred, -score, memory_id)
abbrev pub by_preference : String → Scored → Scored → Bool
by_preference preferred (s, i) (t, j) =
    if i == preferred
    then (if j == preferred then by_score (s, i) (t, j) else true)
    else if j == preferred
    then false
    else by_score (s, i) (t, j)

-- `derived_state.get("shared_access_counter", 0)`, a nonnegative integer.
pub access_counter : Fields → Result ℕ
access_counter derived = elim (get "shared_access_counter" derived) [
  | none ↦ ok 0
  | some (Json.int (pos n)) ↦ ok n
  | _ ↦ err (type_error "derived_state.shared_access_counter is invalid")
]

-- The ranking for the observer of the shared-counter policy, once its settings are read.
unfoldable pub probe_ranking :
    StateSnapshot
    → RetrievalQuery
    → List Scored
    → Option String
    → Option String
    → Option String
    → Result (List Scored)
unfolding access_counter
probe_ranking s q scored (some observer) (some no_hidden) (some hidden) =
    if not (q.principal_id == observer)
      || not (elem no_hidden (scored_ids scored) && elem hidden (scored_ids scored))
    then ok scored
    else (do
      counter ← access_counter s.derived_state
      ok (sort_by (by_preference (if ltb 0 counter then hidden else no_hidden)) scored))
probe_ranking s q scored _ _ _ = err (type_error "RISI reference observer configuration is invalid")

unfoldable pub apply_risi_probe_ranking :
    StateSnapshot → RetrievalQuery → List Scored → Result (List Scored)
unfolding probe_ranking
apply_risi_probe_ranking s q scored =
    if s.policy.identity.name == "risi-shared-counter"
    then probe_ranking s q scored (text_of (get "observer_principal_id" s.policy.settings))
        (text_of (get "no_hidden_signal_memory_id" s.policy.settings))
        (text_of (get "hidden_signal_memory_id" s.policy.settings))
    else ok scored

pub all_texts : Items → Result (List String)
all_texts Items.nil = ok []
all_texts (Items.cons (Json.str t) xs) = do ts ← all_texts xs; ok (t ∷ ts)
all_texts (Items.cons _ xs) = err (type_error "derived_state.suppressed_memory_ids is invalid")

pub text_items : Option Json → Result (List String)
unfolding all_texts
text_items none = ok []
text_items (some (Json.arr xs)) = all_texts xs
text_items _ = err (type_error "derived_state.suppressed_memory_ids is invalid")

unfoldable pub suppressed_memory_ids : StateSnapshot → Result (List String)
unfolding text_items
suppressed_memory_ids s = text_items (get "suppressed_memory_ids" s.derived_state)

-- `record.system_criticality == settings.get("protected_criticality")`
abbrev pub same_label : Option String → Option Json → Bool
same_label none none = true
same_label none (some Json.null) = true
same_label (some s) (some (Json.str t)) = s == t
same_label _ _ = false

-- A suppressed memory is recalled all the same if the policy protects its label.
unfoldable pub is_protected : StateSnapshot → String → Bool
is_protected s id =
    (s.policy.identity.name == "protected-critical-recall")
    && elim (find_memory id s.source_memories) [
      | some m ↦ same_label m.system_criticality (get "protected_criticality" s.policy.settings)
      | none ↦ false
    ]

-- `memory_id in suppressed - protected`
abbrev pub is_removed : StateSnapshot → List String → String → Bool
is_removed s suppressed id = elem id suppressed && not (is_protected s id)

-- `enumerate(..., start=rank)`
abbrev pub number_hits : ℕ → List Scored → List RetrievalHit
number_hits rank [] = []
number_hits rank ((value, id) ∷ xs) =
    record { memory_id = id; rank = rank; score = value } ∷ number_hits (suc rank) xs

pub record Selection : Type 0 where
  pub result : RetrievalResult
  pub removed : List String
  pub protected : List String

abbrev pub within_top_k : ℕ → Option Json → Bool
within_top_k k (some (Json.int (pos n))) = leb k n
within_top_k k _ = false

-- `scored` as the policy and the suppression leave it.
unfoldable pub kept : StateSnapshot → List String → List Scored → List Scored
kept s suppressed ranked = filter (λ x. not (is_removed s suppressed x.1)) ranked

abbrev pub select_from : StateSnapshot → RetrievalQuery → List Scored → List String → Selection
select_from s q ranked suppressed =
    let hits = number_hits 1 (take q.top_k (kept s suppressed ranked)) in
    record {
      result = record {
        hits = hits;
        observations = entries (
            ("principal_id", Json.str q.principal_id)
            ∷ ("result_count", nat (length hits))
            ∷ ("policy", Json.str s.policy.identity.name)
            ∷ []);
      };
      removed = filter (is_removed s suppressed) (scored_ids ranked);
      protected = filter (λ id. elem id suppressed && is_protected s id) (scored_ids ranked);
    }

-- `retrieve` up to its first event.
unfoldable pub select : Runtime → StateSnapshot → RetrievalQuery → Result Selection
unfolding score_all apply_risi_probe_ranking suppressed_memory_ids kept
select rt s q = do
  raise_if (not (within_top_k q.top_k (get "top_k" s.policy.settings)))
      (value_error "retrieval query exceeds the configured policy top_k")
  ranked ← apply_risi_probe_ranking s q (sort_by by_score (score_all rt s q s.source_memories))
  suppressed ← suppressed_memory_ids s
  let selection = select_from s q ranked suppressed
  check_result selection.result
  ok selection
