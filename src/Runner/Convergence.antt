-- ===== src/Runner/Convergence.antt =====
-- What `_prepare_budgeted_evidence` of src/risi/runner.py returns, and that it does.
use risi.Prelude.{
  ℕ, zero, suc, ◌+◌, ◌≤◌, ◌<◌, ◌≡◌, subst, String, true, false, eqb, Bool-cases, inl, inr, ◌⊎◌,
  arith, if◌then◌else◌,
}
use risi.Prelude.Failure.{Result, ok, >>=-eq-ok}
use risi.Canonical.{Fields}
use risi.Budget.{BudgetLedger}
use risi.Artifacts.{Codec, Files}
use risi.Runner.{EvidenceBuilder, build_round, build_rounds, prepare_budgeted_evidence}

-- How long the evidence is that reports a number of bytes: every report up to `most` builds, a report
-- of more bytes is not shorter, and no report is longer than `most`, six bytes more than that of none.
pub record IsSteady (c : Codec) (run_id : String) (ledger : BudgetLedger)
    (builder : EvidenceBuilder) (size : ℕ → ℕ) : Type 0 where
  pub builds :
      (b : ℕ)
      → b ≤ size 0 + 6
      → (files : Files) × (execution : Fields) × (build_round c run_id ledger builder b
          ≡ ok (files, execution, size b))
  pub monotone : (a b : ℕ) → a ≤ b → size a ≤ size b
  pub bounded : (b : ℕ) → b ≤ size 0 + 6 → size b ≤ size 0 + 6

abbrev pub evidence : Files → Fields → Result (Files × Fields)
evidence files execution = ok (files, execution)

abbrev pub round_result : Files → Fields → ℕ → Result (Files × Fields × ℕ)
round_result files execution k = ok (files, execution, k)

module _ (c : Codec) (run_id : String) (ledger : BudgetLedger) (builder : EvidenceBuilder) where
  -- A round that measured what it charged ends the loop.
  stop_or_next :
      (b k : ℕ) (f files : Files) (x execution : Fields) (rest : Result (Files × Fields))
      → (if eqb k b then evidence f x else rest) ≡ evidence files execution
      → ((k ≡ b) × (evidence f x ≡ evidence files execution)) ⊎ (rest ≡ evidence files execution)
  stop_or_next b k f files x execution rest h = elim (Bool-cases (eqb k b)) [
    | inl e ↦ inl (
      (ground (arith, e)),
      subst (λ t. (if t then evidence f x else rest) ≡ evidence files execution) e h,
    )
    | inr e ↦ inr (subst (λ t. (if t then evidence f x else rest) ≡ evidence files execution) e h)
  ]

  same_round :
      (b k : ℕ) (f files : Files) (x execution : Fields)
      → build_round c run_id ledger builder b ≡ round_result f x k
      → k ≡ b
      → evidence f x ≡ evidence files execution
      → build_round c run_id ledger builder b ≡ round_result files execution b
  same_round b k f files x execution r e h = cc

  build_rounds-fixed :
      (n b : ℕ) (files : Files) (execution : Fields)
      → build_rounds c run_id ledger builder n b ≡ ok (files, execution)
      → (k : ℕ) × (build_round c run_id ledger builder k ≡ round_result files execution k)
  unfolding build_rounds
  build_rounds-fixed zero b files execution h = cc
  build_rounds-fixed (suc n) b files execution h =
      let ((f, x, k), r, h1) = >>=-eq-ok (build_round c run_id ledger builder b) _ h in
      elim (stop_or_next b k f files x execution (build_rounds c run_id ledger builder n k) h1) [
        | inl (e, done) ↦ (b, same_round b k f files x execution r e done)
        | inr later ↦ build_rounds-fixed n k files execution later
      ]

  -- If the evidence of a run is returned, it was built from a report of resource use that charges
  -- as artifact bytes exactly the measured size of that evidence, within the approved limit.
  pub prepare_budgeted_evidence-fixed :
      (files : Files) (execution : Fields)
      → prepare_budgeted_evidence c run_id ledger builder ≡ ok (files, execution)
      → (k : ℕ) × (build_round c run_id ledger builder k ≡ round_result files execution k)
  unfolding prepare_budgeted_evidence
  prepare_budgeted_evidence-fixed files execution h = build_rounds-fixed 8 0 files execution h

  module _ (size : ℕ → ℕ) (steady : IsSteady c run_id ledger builder size) where
    -- The loop returns from these rounds on.
    abbrev Ends : ℕ → ℕ → Type 0
    Ends n b =
        (files : Files) × (execution : Fields) × (build_rounds c run_id ledger builder n b
          ≡ evidence files execution)

    stops :
        (n b : ℕ) (f : Files) (x : Fields)
        → build_round c run_id ledger builder b ≡ round_result f x (size b)
        → eqb (size b) b ≡ true
        → build_rounds c run_id ledger builder (suc n) b ≡ evidence f x
    unfolding build_rounds
    stops n b f x r e = rw (r, e)

    goes_on :
        (n b : ℕ) (f : Files) (x : Fields) (g : Files) (y : Fields)
        → build_round c run_id ledger builder b ≡ round_result f x (size b)
        → eqb (size b) b ≡ false
        → build_rounds c run_id ledger builder n (size b) ≡ evidence g y
        → build_rounds c run_id ledger builder (suc n) b ≡ evidence g y
    unfolding build_rounds
    goes_on n b f x g y r e s = rw (r, e) s

    -- A round returns, if the next ones do where it does not.
    round_then :
        (n b : ℕ) → b ≤ size 0 + 6 → (eqb (size b) b ≡ false → Ends n (size b)) → Ends (suc n) b
    round_then n b fits next =
        let (f, x, r) = steady.builds b fits in
        elim (Bool-cases (eqb (size b) b)) [
          | inl e ↦ (f, x, stops n b f x r e)
          | inr e ↦ let (g, y, s) = next e in (g, y, goes_on n b f x g y r e s)
        ]

    further : (s b n : ℕ) → b ≤ s → eqb s b ≡ false → size 0 + 6 < b + suc n → size 0 + 6 < s + n
    further s b n below e enough = ground arith

    impossible : (b : ℕ) → b ≤ size 0 + 6 → size 0 + 6 < b + 0 → ⊥
    impossible b fits enough = omega arith

    build_rounds-Ends : (n b : ℕ) → b ≤ size b → b ≤ size 0 + 6 → size 0 + 6 < b + n → Ends n b
    build_rounds-Ends zero b below fits enough = elim (impossible b fits enough) [ ]
    build_rounds-Ends (suc n) b below fits enough = round_then n b fits (λ e.
        build_rounds-Ends n (size b) (steady.monotone b (size b) below) (steady.bounded b fits)
          (further (size b) b n below e enough))

    -- Eight rounds are enough for evidence whose length is steady: if every report of at most
    -- `size 0 + 6` artifact bytes builds, a report of more bytes makes the evidence no shorter, and
    -- the evidence stays within those bytes, then the evidence is returned.
    pub prepare_budgeted_evidence-returns :
        (files : Files) × (execution : Fields) × (prepare_budgeted_evidence c run_id ledger builder
          ≡ evidence files execution)
    unfolding prepare_budgeted_evidence
    prepare_budgeted_evidence-returns = round_then 7 0 (omega arith) (λ e.
        build_rounds-Ends 7 (size 0) (steady.monotone 0 (size 0) (omega arith)) (omega arith)
          (omega arith))
