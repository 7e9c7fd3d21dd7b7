-- ===== src/Budget/Accounting.antt =====
-- What a sequence of charges does to a ledger (src/risi/budget.py).
use risi.Prelude.{ℕ, pos, ◌+◌, ◌≤◌, ◌≡◌, refl, ◌↔◌, List, [], ◌∷◌, arith}
use risi.Prelude.Failure.{Result, ok, ◌>>=◌, >>=-eq-ok}
use risi.Operator.Limits.{
  BudgetResource, episodes, retrieval_calls, logical_steps, input_bytes, memory_records,
  artifact_bytes, limit,
}
use risi.Budget.{ResourceConsumption, BudgetLedger, amount, with_amount, consume}

-- One request of a run: a resource and how much of it.
abbrev pub Request : Type 0
Request = BudgetResource × ℕ

-- The charges of a run, one after another; the first refusal ends them.
abbrev pub consume_all : BudgetLedger → List Request → Result BudgetLedger
consume_all l [] = ok l
consume_all l ((r, n) ∷ rs) = do l' ← consume l r (pos n); consume_all l' rs

-- How much of a resource a list of requests asks for.
unfoldable pub same : BudgetResource → BudgetResource → ℕ → ℕ
same episodes episodes n = n
same retrieval_calls retrieval_calls n = n
same logical_steps logical_steps n = n
same input_bytes input_bytes n = n
same memory_records memory_records n = n
same artifact_bytes artifact_bytes n = n
same _ _ n = 0

unfoldable pub requested : BudgetResource → List Request → ℕ
requested r [] = 0
requested r ((s, n) ∷ rs) = same r s n + requested r rs

-- No resource is past its approved ceiling.
abbrev pub WithinLimits : BudgetLedger → Type 0
WithinLimits l = (r : BudgetResource) → amount l.consumed r ≤ limit l.approved r

-- One accepted charge: the ceilings stay, the resource grows by the amount, the others stay.
with_amount_effect :
    (c : ResourceConsumption) (s : BudgetResource) (n : ℕ) (r : BudgetResource)
    → amount (with_amount c s (amount c s + n)) r ≡ amount c r + same r s n
unfolding amount with_amount same
with_amount_effect c episodes n r = ground arith
with_amount_effect c _ n r = ground arith

consume_effect :
    (l : BudgetLedger) (s : BudgetResource) (n : ℕ) {l' : BudgetLedger} (r : BudgetResource)
    → consume l s (pos n) ≡ ok l'
    → (l'.approved ≡ l.approved) × (amount l'.consumed r ≡ amount l.consumed r + same r s n)
unfolding consume
consume_effect l s n r h = ground (arith, with_amount_effect l.consumed s n r)

-- A charge is accepted exactly when it fits under the ceiling.
consume-fits :
    (l : BudgetLedger) (s : BudgetResource) (n : ℕ)
    → amount l.consumed s + n ≤ limit l.approved s
    → (l' : BudgetLedger) × (consume l s (pos n) ≡ ok l')
unfolding consume
consume-fits l s n h =
    (record l { consumed = with_amount l.consumed s (amount l.consumed s + n) }, ground arith)

consume-within :
    (l : BudgetLedger) (s : BudgetResource) (n : ℕ) {l' : BudgetLedger}
    → consume l s (pos n) ≡ ok l'
    → amount l.consumed s + n ≤ limit l.approved s
unfolding consume
consume-within l s n h = ground arith

-- An accepted sequence of charges leaves the limits as they were and adds, for each resource, what
-- was requested to what was consumed.
pub consume_all-amount :
    (l l' : BudgetLedger) (rs : List Request) (r : BudgetResource)
    → consume_all l rs ≡ ok l'
    → (l'.approved ≡ l.approved) × (amount l'.consumed r ≡ amount l.consumed r + requested r rs)
unfolding requested
consume_all-amount l l' [] r h = ground arith
consume_all-amount l l' ((s, n) ∷ rs) r h =
    let (m, hm, hr) = >>=-eq-ok (consume l s (pos n)) (λ m. consume_all m rs) h in
    grind (arith, consume_effect l s n {l' = m} r hm, consume_all-amount m l' rs r hr)

same_self : (s : BudgetResource) (n : ℕ) → same s s n ≡ n
unfolding same
same_self episodes n = refl
same_self _ n = refl

fits_after :
    (l : BudgetLedger) (s : BudgetResource) (n : ℕ) (r : BudgetResource)
    → amount l.consumed s + n ≤ limit l.approved s
    → amount l.consumed r ≤ limit l.approved r
    → amount l.consumed r + same r s n ≤ limit l.approved r
unfolding same
fits_after l episodes n r k w = ground arith
fits_after l _ n r k w = ground arith

charged :
    (l : BudgetLedger) (s : BudgetResource) (n : ℕ) (m : BudgetLedger) (r : BudgetResource)
    → WithinLimits l
    → consume l s (pos n) ≡ ok m
    → amount m.consumed r ≤ limit m.approved r
charged l s n m r w h =
    let e = consume_effect l s n {l' = m} r h in
    let k = consume-within l s n {l' = m} h in rw (e.0, e.1) (fits_after l s n r k (w r))

consume_all-WithinLimits :
    (l l' : BudgetLedger) (rs : List Request)
    → WithinLimits l
    → consume_all l rs ≡ ok l'
    → WithinLimits l'
consume_all-WithinLimits l l' [] w h = λ r. ground (arith, w r)
consume_all-WithinLimits l l' ((s, n) ∷ rs) w h =
    let (m, hm, hr) = >>=-eq-ok (consume l s (pos n)) (λ m. consume_all m rs) h in
    consume_all-WithinLimits m l' rs (λ r. charged l s n m r w hm) hr

fits→accepted :
    (l : BudgetLedger) (rs : List Request)
    → ((r : BudgetResource) → amount l.consumed r + requested r rs ≤ limit l.approved r)
    → (l' : BudgetLedger) × (consume_all l rs ≡ ok l')
unfolding requested
fits→accepted l [] fits = (l, refl)
fits→accepted l ((s, n) ∷ rs) fits =
    let (m, hm) = consume-fits l s n (omega (arith, fits s, same_self s n)) in
    let (l', h) =
      fits→accepted m rs λ r. grind (arith, fits r, consume_effect l s n {l' = m} r hm) in
    (l', rw hm h)

sums-le :
    (l : BudgetLedger) (rs : List Request)
    → WithinLimits l
    → (r : BudgetResource) (l' : BudgetLedger) → consume_all l rs ≡ ok l'
    → amount l.consumed r + requested r rs ≤ limit l.approved r
sums-le l rs w r l' h =
    let e = consume_all-amount l l' rs r h in
    rw (← e.1, ← e.0) (consume_all-WithinLimits l l' rs w h r)

-- A ledger within its limits accepts a sequence of charges, in whatever order, exactly if for each
-- resource what was consumed and the sum of the requests stay within the limit.
pub consume_all-iff_fits :
    (l : BudgetLedger) (rs : List Request)
    → WithinLimits l
    → ((l' : BudgetLedger) × (consume_all l rs ≡ ok l'))
      ↔ ((r : BudgetResource) → amount l.consumed r + requested r rs ≤ limit l.approved r)
consume_all-iff_fits l rs w =
    ((λ done r. sums-le l rs w r done.0 done.1), (λ fits. fits→accepted l rs fits))
