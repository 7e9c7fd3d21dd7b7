-- ===== src/Examples/Decisions.antt =====
-- Proposals of the deterministic providers on concrete inputs.
use risi.Prelude.{String, pos, true, ◌≡◌, refl, List, [], ◌∷◌}
use risi.Prelude.Failure.{ok}
use risi.Prelude.Text.{is_blank}
use risi.Canonical.{Fields, Json, entries}
use risi.Models.{ProposedDecision, RetrievalResult}
use risi.Models.Checks.{check_decision}
use risi.Decision.{
  DecisionProtocol, DecisionRequest, Provider, ReferenceRunProtocol, propose, propose_by,
  propose_approval, proposed,
}
use risi.Decision.Influence.{IsGrounded, propose-IsGrounded, propose-retrieval}
use risi.Examples.{snapshot}

abbrev protocol : ReferenceRunProtocol
protocol = record {
  principal_id = "alice";
  tenant_id = "acme";
  query = "deploy approvals";
  top_k = 2;
  approval_count_fact = "approvals";
  minimum_approvals = pos 2;
  required_memory_id = "m1";
  action_if_below = "wait";
  action_if_met = "deploy";
}

abbrev hits : List String → RetrievalResult
hits [] = record { hits = []; observations = Fields.end }
hits (id ∷ ids) = record {
  hits = record { memory_id = id; rank = 1; score = 1 } ∷ (hits ids).hits;
  observations = Fields.end;
}

abbrev request : List String → DecisionRequest
request ids = record {
  episode = snapshot.episode;
  context = "";
  retrieval = hits ids;
  facts = entries (("approvals", Json.int (pos 1)) ∷ []);
  protocol = DecisionProtocol.approval protocol;
}

-- One approval of two, and the policy memory at hand: the proposal is to wait.
abbrev wait : ProposedDecision
wait = record {
  decision_id = "ep-decision-0001";
  episode_id = "ep";
  action = "wait";
  rationale_memory_ids = "m1" ∷ [];
  parameters = entries (
      ("approval_count", Json.int (pos 1))
      ∷ ("minimum_approvals", Json.int (pos 2))
      ∷ ("policy_available", Json.bool true)
      ∷ []);
}

waits : propose Provider.deterministic_approval (request ("m2" ∷ "m1" ∷ [])) ≡ ok wait
unfolding propose propose_by propose_approval proposed check_decision is_blank
waits = refl

propose-IsGrounded_example : IsGrounded "ep" "m1" true wait
propose-IsGrounded_example =
    propose-IsGrounded Provider.deterministic_approval (request ("m2" ∷ "m1" ∷ [])) wait waits

propose-retrieval_example :
    propose Provider.deterministic_approval (request ("m2" ∷ "m1" ∷ []))
    ≡ propose Provider.deterministic_approval
        (record (request []) { context = "m1"; retrieval = hits ("m1" ∷ []) })
propose-retrieval_example =
    propose-retrieval Provider.deterministic_approval (request ("m2" ∷ "m1" ∷ [])) "m1"
      (hits ("m1" ∷ [])) refl
