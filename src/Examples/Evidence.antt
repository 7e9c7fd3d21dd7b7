-- ===== src/Examples/Evidence.antt =====
-- Traces, canonical values, reports and paths on concrete inputs.
use risi.Prelude.{ℕ, false, ◌&&◌, ◌≡◌, ◌↔◌, ◌⊎◌, refl, none, [], ◌∷◌, any, arith}
use risi.Prelude.Failure.{ok}
use risi.Prelude.Text.{is_sha256_digest, codes}
use risi.Paths.{escapes, parts, split_slash}
use risi.Paths.Resolve.{IsBeneath, place, rev_onto, place-IsBeneath}
use risi.Canonical.{
  Json, Fields, Items, Pairs, Value, Values, entries, freeze, freeze_json_value,
  normalize_json_value,
}
use risi.Canonical.Digest.{canonical_sha256, Collision}
use risi.Canonical.RoundTrip.{IsFrozen, freeze_json_value-IsFrozen}
use risi.Models.{EventVisibility}
use risi.Trace.{
  attacker_sees, breaks_boundary, contains_evaluator_only_key, create_event, verify_event,
  verify_from, verify_trace,
}
use risi.Trace.Extension.{Continues, Follows, create_event-extends, verify_event_iff}
use risi.Trace.Tamper.{SameContents, anchor_fixes_trace}
use risi.Trace.Visibility.{
  arrays_pass_boundary, breaks_boundary-iff_object_keys, is_evaluator_only, object_keys,
}
use risi.Operator.Limits.{BudgetResource}
use risi.Budget.Report.{
  BudgetAmount, IsAmount, ResourceUse, use_of, from_json-to_json, resource_use_from_json,
  resource_use_json,
}
use risi.Examples.{runtime, hasher, hasher-IsHexHasher, draft, event}

created : create_event runtime draft none ≡ ok event
unfolding create_event breaks_boundary contains_evaluator_only_key freeze is_sha256_digest
    canonical_sha256
created = refl

starts : Continues [] draft
starts = record {
  episode_id = refl;
  sequence = refl;
  fresh = refl;
  time = λ p h. cc;
  continuous = λ p h. cc;
}

create_event-extends_example : verify_trace runtime (event ∷ []) ≡ ok tt
unfolding verify_trace
create_event-extends_example =
    create_event-extends runtime [] draft event hasher-IsHexHasher refl starts created

verify_event_iff_example :
    (verify_event runtime event "ep" 0 none [] ≡ ok tt) ↔ Follows runtime "ep" 0 none [] event
verify_event_iff_example = verify_event_iff runtime "ep" 0 [] event none

verified : verify_trace runtime (event ∷ []) ≡ ok tt
unfolding verify_trace verify_event verify_from breaks_boundary contains_evaluator_only_key freeze
    is_sha256_digest canonical_sha256
verified = refl

anchor_fixes_trace_example : SameContents (event ∷ []) (event ∷ []) ⊎ Collision hasher
anchor_fixes_trace_example = anchor_fixes_trace runtime event event [] [] verified verified refl

breaks_boundary-iff_object_keys_example :
    breaks_boundary runtime EventVisibility.both (entries (("attack_assignment", Json.null) ∷ []))
    ≡ (attacker_sees EventVisibility.both
        && any
            (is_evaluator_only runtime)
            (object_keys (entries (("attack_assignment", Json.null) ∷ []))))
breaks_boundary-iff_object_keys_example =
    breaks_boundary-iff_object_keys runtime EventVisibility.both
      (entries (("attack_assignment", Json.null) ∷ []))

-- An array that holds an object with an evaluator-only key.
abbrev hidden_items : Items
hidden_items = Items.cons (Json.obj (entries (("attack_assignment", Json.str "a") ∷ []))) Items.nil

arrays_pass_boundary_example :
    breaks_boundary runtime EventVisibility.both
      (Fields.field "records" (Json.arr hidden_items) Fields.end)
    ≡ false
arrays_pass_boundary_example =
    arrays_pass_boundary runtime EventVisibility.both "records" hidden_items refl

abbrev open_object : Value
open_object =
    Value.mapping (Pairs.pair "ids" (Value.list (Values.cons Value.null Values.nil)) Pairs.end)

abbrev frozen_object : Value
frozen_object =
    Value.read_only (Pairs.pair "ids" (Value.tuple (Values.cons Value.null Values.nil)) Pairs.end)

frozen : freeze_json_value open_object ≡ ok frozen_object
unfolding freeze_json_value normalize_json_value freeze
frozen = refl

freeze_json_value-IsFrozen_example :
    IsFrozen frozen_object × (normalize_json_value frozen_object ≡ normalize_json_value open_object)
freeze_json_value-IsFrozen_example = freeze_json_value-IsFrozen open_object frozen_object frozen

abbrev ten_of : ℕ → BudgetAmount
ten_of n = record { approved = 10; consumed = n }

abbrev report : ResourceUse
report = record {
  episodes = ten_of 1;
  retrieval_calls = ten_of 2;
  logical_steps = ten_of 0;
  input_bytes = ten_of 10;
  memory_records = ten_of 3;
  artifact_bytes = ten_of 4;
}

amounts : (r : BudgetResource) → IsAmount (use_of report r)
amounts BudgetResource.episodes = (omega arith, omega arith)
amounts BudgetResource.retrieval_calls = (omega arith, omega arith)
amounts BudgetResource.logical_steps = (omega arith, omega arith)
amounts BudgetResource.input_bytes = (omega arith, omega arith)
amounts BudgetResource.memory_records = (omega arith, omega arith)
amounts BudgetResource.artifact_bytes = (omega arith, omega arith)

from_json-to_json_example : resource_use_from_json (resource_use_json report) ≡ ok report
from_json-to_json_example = from_json-to_json report amounts

inside : escapes "runs/./state.json" ≡ false
unfolding escapes parts split_slash
inside = refl

place-IsBeneath_example :
    IsBeneath (codes "root" ∷ []) (place (codes "root" ∷ []) "runs/./state.json")
    × (place (codes "root" ∷ []) "runs/./state.json"
        ≡ rev_onto (parts "runs/./state.json") (codes "root" ∷ []))
place-IsBeneath_example = place-IsBeneath (codes "root" ∷ []) "runs/./state.json" inside
