-- ===== src/Reference/Retrieval/PureRead.antt =====
-- Retrieval under the pure-read policy of src/risi/adapters/reference.py.
use risi.Prelude.{
  ◌+◌, ◌≡◌, refl, ap, sym, subst, ◌∙◌, String, Bool, true, false, ◌&&◌, Option, none, eq_iff, inl,
  inr, if◌then◌else◌, List,
}
use risi.Prelude.Failure.{Result, ok}
use risi.Canonical.{Fields}
use risi.Models.{EventType, EventVisibility, RetrievalQuery, StateSnapshot, hit_ids}
use risi.Paths.{is_nil}
use risi.Trace.{Runtime}
use risi.Reference.{Adapter, record_event}
use risi.Reference.Keeps.{left_by, left_by-then_do, left_by-lift, commit_event-cases}
use risi.Reference.Retrieval.{Selection}
use risi.Reference.Retrieval.Update.{Update, read_side_update}
use risi.Reference.Operations.{retrieve, record_set_change, apply_read_side_update, commit_update}

-- The state has changed in nothing but its count of events.
pub record OnlyCounted (s : StateSnapshot) (a : Adapter) : Type 0 where
  pub same : a.state ≡ record s { next_event_sequence = a.state.next_event_sequence }

made_none : (u : Option Update) → ok none ≡ ok u → none ≡ u
made_none u h = cc

if-OnlyCounted :
    {A : Type 0} (s : StateSnapshot) (b : Bool) (m n : Result A × Adapter)
    → OnlyCounted s (m.1)
    → OnlyCounted s (n.1)
    → OnlyCounted s ((if b then m else n).1)
if-OnlyCounted s true m n p q = p
if-OnlyCounted s false m n p q = q

module _ (rt : Runtime) (s : StateSnapshot) where
  record_event-OnlyCounted :
      (type : EventType) (visibility : EventVisibility) (payload : Fields) (actor : Option String)
      (a : Adapter)
      → OnlyCounted s a
      → OnlyCounted s (left_by (record_event rt type visibility payload actor) a)
  unfolding record_event
  record_event-OnlyCounted type visibility payload actor a p =
      elim (commit_event-cases rt
        (record a.state { next_event_sequence = a.state.next_event_sequence + 1 }) type visibility
        payload actor a) [
          | inl eq ↦ subst (OnlyCounted s) (sym eq) p
          | inr (e, _, eq) ↦ subst (OnlyCounted s) (sym eq) (record {
            same =
                ap
                  (λ (t : StateSnapshot). record t {
                    next_event_sequence = a.state.next_event_sequence + 1;
                  })
                  p.same;
          })
        ]

  -- A pure-read policy makes no update.
  no_update :
      (a : Adapter) (q : RetrievalQuery) (ids : List String)
      → a.state.policy.identity.name ≡ "pure-read"
      → read_side_update a.state q ids ≡ ok none
  unfolding read_side_update
  no_update a q ids h = rw ((eq_iff a.state.policy.identity.name "pure-read").1 h) refl

  update-OnlyCounted :
      (a : Adapter) (q : RetrievalQuery) (ids : List String)
      → s.policy.identity.name ≡ "pure-read"
      → OnlyCounted s a
      → OnlyCounted s (left_by (apply_read_side_update rt q ids) a)
  unfolding apply_read_side_update
  update-OnlyCounted a q ids h p =
      left_by-lift (OnlyCounted s) (read_side_update a.state q ids) (commit_update rt q) a p (λ u e.
        unfold commit_update in
        subst (λ v. OnlyCounted s (left_by (commit_update rt q v) a))
          (made_none u (
            sym (no_update a q ids (ap (λ (t : StateSnapshot). t.policy.identity.name) p.same ∙ h))
            ∙ e))
          p)

  set_change-OnlyCounted :
      (q : RetrievalQuery) (sel : Selection) (a : Adapter)
      → OnlyCounted s a
      → OnlyCounted s (left_by (record_set_change rt q sel) a)
  unfolding record_set_change
  set_change-OnlyCounted q sel a p =
      if-OnlyCounted s (is_nil sel.removed && is_nil sel.protected) _ _ p
        (left_by-then_do (OnlyCounted s) _ _ a (record_event-OnlyCounted _ _ _ _ a p) (λ _ b k. k))

-- A retrieval under the pure-read policy, whether it returns or raises, changes nothing of the
-- adapter's state but the count of events.
pub retrieve-OnlyCounted :
    (rt : Runtime) (q : RetrievalQuery) (a : Adapter)
    → a.state.policy.identity.name ≡ "pure-read"
    → OnlyCounted a.state (left_by (retrieve rt q) a)
unfolding retrieve
retrieve-OnlyCounted rt q a h =
    let start : OnlyCounted a.state a = record { same = refl } in
    left_by-lift (OnlyCounted a.state) _ _ a start (λ sel _.
      left_by-then_do (OnlyCounted a.state) _ _ a
        (record_event-OnlyCounted rt a.state _ _ _ _ a start)
        (λ _ b k.
          left_by-then_do (OnlyCounted a.state) _ _ b (set_change-OnlyCounted rt a.state q sel b k)
            (λ _ c l.
              left_by-then_do (OnlyCounted a.state) _ _ c
                (update-OnlyCounted rt a.state c q (hit_ids sel.result.hits) h l) (λ _ d n. n))))
