-- ===== src/Models/Checks.antt =====
-- The `__post_init__` checks of src/risi/models.py, in the order of the source. A check that a
-- number is nonnegative holds by the number's type.
use risi.Prelude.{
  ℕ, String, Bool, true, false, not, ◌&&◌, Option, none, some, List, [], ◌∷◌, ◌==◌, ◌+◌, leb, eqb,
  any, all, all_unique,
}
use risi.Prelude.Failure.{Result, ok, value_error, ◌>>◌, raise_if}
use risi.Prelude.Text.{is_blank}
use risi.Models.{
  EpisodeIdentity, PolicyIdentity, MemoryRecord, RetrievalQuery, RetrievalHit, RetrievalResult,
  ProposedDecision, StateSnapshot, TraceEventDraft, memory_ids, hit_ids,
}

unfoldable pub require_nonempty : String → Result (Unit {0})
unfolding is_blank
require_nonempty value = raise_if (is_blank value) (value_error "must not be empty")

pub require_unique : List String → Result (Unit {0})
require_unique values =
    raise_if (not (all_unique values)) (value_error "must contain unique values")

unfoldable pub check_episode : EpisodeIdentity → Result (Unit {0})
unfolding require_nonempty
check_episode e = do require_nonempty e.scenario_id; require_nonempty e.episode_id

unfoldable pub check_policy_identity : PolicyIdentity → Result (Unit {0})
unfolding require_nonempty
check_policy_identity p = do require_nonempty p.name; require_nonempty p.version

-- `logical_valid_until is not None and logical_valid_until <= logical_valid_from`
abbrev pub empty_interval : Option ℕ → ℕ → Bool
empty_interval none from_time = false
empty_interval (some until) from_time = leb until from_time

unfoldable pub check_memory : MemoryRecord → Result (Unit {0})
unfolding require_nonempty require_unique is_blank
check_memory m = do
  require_nonempty m.memory_id
  require_nonempty m.scenario_id
  require_nonempty m.tenant_id
  require_nonempty m.owner_id
  require_nonempty m.source_id
  require_nonempty m.content
  raise_if (empty_interval m.logical_valid_until m.logical_valid_from)
      (value_error "logical_valid_until must be greater than logical_valid_from")
  require_unique m.access_policy
  raise_if (any is_blank m.access_policy) (value_error "access_policy entries must not be empty")

unfoldable pub check_query : RetrievalQuery → Result (Unit {0})
unfolding require_nonempty
check_query q = do
  require_nonempty q.principal_id
  require_nonempty q.tenant_id
  require_nonempty q.text
  raise_if (eqb q.top_k 0) (value_error "top_k must be positive")

-- `tuple(hit.rank for hit in hits) == tuple(range(start, ...))`
abbrev pub contiguous_ranks : ℕ → List RetrievalHit → Bool
contiguous_ranks start [] = true
contiguous_ranks start (h ∷ hs) = eqb h.rank start && contiguous_ranks (start + 1) hs

unfoldable pub check_result : RetrievalResult → Result (Unit {0})
unfolding require_unique
check_result r = do
  raise_if (not (contiguous_ranks 1 r.hits))
      (value_error "retrieval hit ranks must be contiguous and one-based")
  require_unique (hit_ids r.hits)

unfoldable pub check_decision : ProposedDecision → Result (Unit {0})
unfolding require_nonempty require_unique
check_decision d = do
  require_nonempty d.decision_id
  require_nonempty d.episode_id
  require_nonempty d.action
  require_unique d.rationale_memory_ids

unfoldable pub check_snapshot : StateSnapshot → Result (Unit {0})
unfolding require_unique
check_snapshot s = do
  raise_if (eqb s.snapshot_version 0) (value_error "snapshot_version must be positive")
  require_unique (memory_ids s.source_memories)
  raise_if (not (all (λ m. m.scenario_id == s.episode.scenario_id) s.source_memories))
      (value_error "all source memories must belong to the snapshot scenario")

-- `actor_principal_id is not None` and blank
abbrev pub check_actor : Option String → Result (Unit {0})
unfolding require_nonempty
check_actor none = ok tt
check_actor (some actor) = require_nonempty actor

unfoldable pub check_draft : TraceEventDraft → Result (Unit {0})
unfolding require_nonempty
check_draft d = do
  require_nonempty d.event_id
  require_nonempty d.episode_id
  check_actor d.actor_principal_id
