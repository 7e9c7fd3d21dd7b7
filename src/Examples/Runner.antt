-- ===== src/Examples/Runner.antt =====
-- The evidence of one file, whose length does not depend on the report of resource use.
use risi.Prelude.{ℕ, zero, suc, ◌≤◌, ◌≡◌, refl, arith}
use risi.Prelude.Failure.{ok}
use risi.Canonical.{Fields}
use risi.Operator.Safety.{ceilings_of}
use risi.Operator.Limits.{limit}
use risi.Budget.{BudgetLedger, new_ledger, consume, amount, with_amount}
use risi.Budget.Report.{resource_use}
use risi.Paths.{escapes}
use risi.Artifacts.{
  Files, measure_evidence_bundle, prepare_bundle_material, validate_artifact_name, entry_of,
  json_bytes,
}
use risi.Runner.{EvidenceBuilder, build_round, build_rounds, prepare_budgeted_evidence}
use risi.Runner.Convergence.{
  IsSteady, evidence, round_result, prepare_budgeted_evidence-fixed,
  prepare_budgeted_evidence-returns,
}
use risi.Examples.Artifacts.{codec, files}

abbrev ledger : BudgetLedger
ledger = new_ledger (ceilings_of 1 1 1)

abbrev builder : EvidenceBuilder
builder j = ok (files, Fields.end)

-- Two bytes of the file, and one of the inventory.
abbrev size : ℕ → ℕ
size b = 3

beyond : (b : ℕ) → suc (suc (suc (suc (suc (suc (suc (suc (suc (suc b))))))))) ≤ 9 → ⊥
beyond b h = omega arith

builds :
    (b : ℕ)
    → b ≤ 9
    → (f : Files) × (execution : Fields) × (build_round codec "run-1" ledger builder b
        ≡ ok (f, execution, size b))
unfolding build_round consume limit amount resource_use with_amount measure_evidence_bundle
    prepare_bundle_material validate_artifact_name escapes entry_of json_bytes
builds zero h = (files, Fields.end, refl)
builds (suc zero) h = (files, Fields.end, refl)
builds (suc (suc zero)) h = (files, Fields.end, refl)
builds (suc (suc (suc zero))) h = (files, Fields.end, refl)
builds (suc (suc (suc (suc zero)))) h = (files, Fields.end, refl)
builds (suc (suc (suc (suc (suc zero))))) h = (files, Fields.end, refl)
builds (suc (suc (suc (suc (suc (suc zero)))))) h = (files, Fields.end, refl)
builds (suc (suc (suc (suc (suc (suc (suc zero))))))) h = (files, Fields.end, refl)
builds (suc (suc (suc (suc (suc (suc (suc (suc zero)))))))) h = (files, Fields.end, refl)
builds (suc (suc (suc (suc (suc (suc (suc (suc (suc zero))))))))) h = (files, Fields.end, refl)
builds (suc (suc (suc (suc (suc (suc (suc (suc (suc (suc b)))))))))) h = elim (beyond b h) [ ]

steady : IsSteady codec "run-1" ledger builder size
steady = record { builds = builds; monotone = λ a b h. omega arith; bounded = λ b h. omega arith }

prepare_budgeted_evidence-returns_example :
    (f : Files) × (execution : Fields) × (prepare_budgeted_evidence codec "run-1" ledger builder
      ≡ evidence f execution)
prepare_budgeted_evidence-returns_example =
    prepare_budgeted_evidence-returns codec "run-1" ledger builder size steady

returned : prepare_budgeted_evidence codec "run-1" ledger builder ≡ evidence files Fields.end
unfolding prepare_budgeted_evidence build_rounds build_round consume limit amount resource_use
    with_amount measure_evidence_bundle prepare_bundle_material validate_artifact_name escapes
    entry_of json_bytes
returned = refl

prepare_budgeted_evidence-fixed_example :
    (k : ℕ) × (build_round codec "run-1" ledger builder k ≡ round_result files Fields.end k)
prepare_budgeted_evidence-fixed_example =
    prepare_budgeted_evidence-fixed codec "run-1" ledger builder files Fields.end returned
