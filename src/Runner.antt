-- ===== src/Runner.antt =====
-- The budget of a run in src/risi/runner.py: what a run charges to its ledger, and the search for the
-- size of the evidence that reports its own size. The builder of the evidence is a closure over the
-- run, and is an argument, as it is of `_prepare_budgeted_evidence`.
pub mod Convergence
use risi.Prelude.{ℕ, zero, suc, ℤ, pos, String, eqb, if◌then◌else◌}
use risi.Prelude.Failure.{Result, ok, err, runtime_error, ◌>>=◌}
use risi.Canonical.{Json, Fields}
use risi.Operator.Limits.{BudgetResource, ExecutionLimits}
use risi.Budget.{BudgetLedger, new_ledger, consume}
use risi.Budget.Report.{resource_use, resource_use_json}
use risi.Artifacts.{Codec, Files, measure_evidence_bundle}

-- `_initial_budget`, from the size of the scenario's file and the number of its memories.
unfoldable pub initial_budget : ExecutionLimits → ℕ → ℕ → Result BudgetLedger
initial_budget limits input_bytes memories = do
  ledger ← consume (new_ledger limits) BudgetResource.input_bytes (pos input_bytes)
  consume ledger BudgetResource.memory_records (pos memories)

unfoldable pub consume_episode_start : BudgetLedger → Result BudgetLedger
consume_episode_start l = do
  ledger ← consume l BudgetResource.episodes (pos 1)
  consume ledger BudgetResource.logical_steps (pos 1)

unfoldable pub consume_retrieval : BudgetLedger → Result BudgetLedger
consume_retrieval l = do
  ledger ← consume l BudgetResource.retrieval_calls (pos 1)
  consume ledger BudgetResource.logical_steps (pos 1)

unfoldable pub consume_decision : BudgetLedger → Result BudgetLedger
consume_decision l = consume l BudgetResource.logical_steps (pos 1)

-- `_EvidenceBuilder`: the report of resource use to the files and the execution record.
abbrev pub EvidenceBuilder : Type 0
EvidenceBuilder = Json → Result (Files × Fields)

module _ (c : Codec) (run_id : String) (ledger : BudgetLedger) (builder : EvidenceBuilder) where
  -- A round of the loop: the files, the execution record, and the measured size.
  unfoldable pub build_round : ℕ → Result (Files × Fields × ℕ)
  build_round artifact_bytes = do
    candidate ← consume ledger BudgetResource.artifact_bytes (pos artifact_bytes)
    use_report ← resource_use candidate
    built ← builder (resource_use_json use_report)
    measured ← measure_evidence_bundle c run_id built.0
    ok (built.0, built.1, measured)

  -- The loop, with the number of rounds that are left.
  unfoldable pub build_rounds : ℕ → ℕ → Result (Files × Fields)
  build_rounds zero artifact_bytes =
      err (runtime_error "artifact resource accounting did not converge")
  build_rounds (suc rounds) artifact_bytes = do
    built ← build_round artifact_bytes
    let rest = build_rounds rounds built.2
    if eqb built.2 artifact_bytes then ok (built.0, built.1) else rest

  unfoldable pub prepare_budgeted_evidence : Result (Files × Fields)
  prepare_budgeted_evidence = build_rounds 8 0
