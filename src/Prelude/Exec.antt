-- ===== src/Prelude/Exec.antt =====
-- Statements that read and write a state and may raise: what was written before an exception stays
-- written. `W` is the state of what the program drives.
use mathlib.Core.Path.{◌≡◌, refl}
use risi.Prelude.Failure.{Error, Result, ok, err}

abbrev pub Exec : Type 0 → Type 0 → Type 0
Exec W A = W → Result A × W

-- The exception of the last statement, or else what the body returned or raised.
abbrev pub after_finally : {A : Type 0} → Result (Unit {0}) → Result A → Result A
after_finally (ok done) r = r
after_finally (err e) r = err e

module _ {W : Type 0} where
  abbrev pub pure : {A : Type 0} → A → Exec W A
  pure x w = (ok x, w)

  abbrev pub raise : {A : Type 0} → Error → Exec W A
  raise e w = (err e, w)

  -- A computation that writes nothing.
  abbrev pub lift : {A : Type 0} → Result A → Exec W A
  lift r w = (r, w)

  abbrev pub continue : {A B : Type 0} → Result A → (A → Exec W B) → Exec W B
  continue (ok x) f w = f x w
  continue (err e) f w = (err e, w)

  infixl 5 ◌>>=◌ ◌>>◌
  unfoldable pub ◌>>=◌ : {A B : Type 0} → Exec W A → (A → Exec W B) → Exec W B
  (m >>= f) w = let (r, w') = m w in continue r f w'

  unfoldable pub ◌>>◌ : {A B : Type 0} → Exec W A → Exec W B → Exec W B
  unfolding ◌>>=◌
  (m >> n) w = (m >>= λ x. n) w

  -- `try: body finally: last`
  unfoldable pub try_finally : {A : Type 0} → Exec W A → Exec W (Unit {0}) → Exec W A
  try_finally body last w =
      let (r, w') = body w in let (s, w'') = last w' in (after_finally s r, w'')

-- Every run of the statement, whether it returns or raises, keeps the predicate.
abbrev pub Keeps : {W A : Type 0} → (W → Type 0) → Exec W A → Type 0
Keeps P m = (w : _) → P w → P (m w).1

module _ {W : Type 0} (P : W → Type 0) where
  keeps_continue :
      {A B : Type 0} (r : Result A) (f : A → Exec W B) (w : W)
      → P w
      → ((x : A) → Keeps P (f x))
      → P (continue r f w).1
  keeps_continue (ok x) f w p k = k x w p
  keeps_continue (err e) f w p k = p

  pub Keeps->>= :
      {A B : Type 0} (m : Exec W A) (f : A → Exec W B)
      → Keeps P m
      → ((x : A) → Keeps P (f x))
      → Keeps P (m >>= f)
  unfolding ◌>>=◌
  Keeps->>= m f k l w p = let (r, w') = m w in keeps_continue r f w' (k w p) l

  pub Keeps->> :
      {A B : Type 0} (m : Exec W A) (n : Exec W B) → Keeps P m → Keeps P n → Keeps P (m >> n)
  unfolding ◌>>◌
  Keeps->> m n k l w p = Keeps->>= m (λ x. n) k (λ x. l) w p

  pub Keeps-try_finally :
      {A : Type 0} (m : Exec W A) (last : Exec W (Unit {0}))
      → Keeps P m
      → Keeps P last
      → Keeps P (try_finally m last)
  unfolding try_finally
  Keeps-try_finally m last k l w p = l (m w).1 (k w p)

-- Whatever the statement returns satisfies the predicate.
abbrev pub Ensures : {W A : Type 0} → (A → Type 0) → Exec W A → Type 0
Ensures Q m = (w : _) (x : _) → (m w).0 ≡ ok x → Q x

ensures_after :
    {A : Type 0} (Q : A → Type 0) (s : Result (Unit {0})) (r : Result A)
    → ((x : A) → r ≡ ok x → Q x)
    → (x : A) → after_finally s r ≡ ok x
    → Q x
ensures_after Q (ok done) r k x h = k x h
ensures_after Q (err e) r k x h = cc

module _ {W : Type 0} where
  ensures_continue :
      {A B : Type 0} (Q : B → Type 0) (R : A → Type 0) (r : Result A) (f : A → Exec W B) (w : W)
      → ((x : A) → r ≡ ok x → R x)
      → ((x : A) → R x → Ensures Q (f x))
      → (y : B) → (continue r f w).0 ≡ ok y
      → Q y
  ensures_continue Q R (ok x) f w k l y h = l x (k x refl) w y h
  ensures_continue Q R (err e) f w k l y h = cc

  pub Ensures->>= :
      {A B : Type 0} (Q : B → Type 0) (R : A → Type 0) (m : Exec W A) (f : A → Exec W B)
      → Ensures R m
      → ((x : A) → R x → Ensures Q (f x))
      → Ensures Q (m >>= f)
  unfolding ◌>>=◌
  Ensures->>= Q R m f k l w y h = ensures_continue Q R (m w).0 f (m w).1 (k w) l y h

  -- What a statement before returned does not matter.
  pub Ensures-then :
      {A B : Type 0} (Q : B → Type 0) (m : Exec W A) (f : A → Exec W B)
      → ((x : A) → Ensures Q (f x))
      → Ensures Q (m >>= f)
  Ensures-then Q m f l = Ensures->>= Q (λ x. Unit) m f (λ w x h. tt) (λ x u. l x)

  pub Ensures->> :
      {A B : Type 0} (Q : B → Type 0) (m : Exec W A) (n : Exec W B)
      → Ensures Q n
      → Ensures Q (m >> n)
  unfolding ◌>>◌
  Ensures->> Q m n l = Ensures-then Q m (λ x. n) (λ x. l)

  pub Ensures-try_finally :
      {A : Type 0} (Q : A → Type 0) (m : Exec W A) (last : Exec W (Unit {0}))
      → Ensures Q m
      → Ensures Q (try_finally m last)
  unfolding try_finally
  Ensures-try_finally Q m last k w x h = ensures_after Q (last (m w).1).0 (m w).0 (k w) x h

-- If two statements in a row return, the first one did, and the second one from where it left.
module _ {W : Type 0} where
  continue-returns :
      {A B : Type 0} (r : Result A) (f : A → Exec W B) (w v : W) (b : B)
      → continue r f w ≡ (ok b, v)
      → (x : A) × (r ≡ ok x) × (f x w ≡ (ok b, v))
  continue-returns (ok x) f w v b h = (x, refl, h)
  continue-returns (err e) f w v b h = cc

  pub >>=-returns :
      {A B : Type 0} (m : Exec W A) (f : A → Exec W B) (w v : W) (b : B)
      → (m >>= f) w ≡ (ok b, v)
      → (x : A) × ((m w).0 ≡ ok x) × (f x (m w).1 ≡ (ok b, v))
  unfolding ◌>>=◌
  >>=-returns m f w v b h = continue-returns (m w).0 f (m w).1 v b h

  pub >>-returns :
      {A B : Type 0} (m : Exec W A) (n : Exec W B) (w v : W) (b : B)
      → (m >> n) w ≡ (ok b, v)
      → (x : A) × ((m w).0 ≡ ok x) × (n (m w).1 ≡ (ok b, v))
  unfolding ◌>>◌
  >>-returns m n w v b h = >>=-returns m (λ x. n) w v b h
