-- ===== src/Base/Exec.antt =====
-- A program over a state that may raise: an exception does not take back what was written, so a
-- program that raises has a last state as well.
pub mod Keeps
pub mod Returns
pub mod Ends
use mathlib.Core.Path.{◌≡◌, refl, ap}
use tunnel2tunnel.Base.Result.{Error, Result, ok, err}

abbrev pub Exec {ℓ κ} : Type ℓ → Type κ → Type (ℓ ⊔ κ)
Exec S A = S → Result A × S

module _ {ℓ κ} {S : Type ℓ} {A : Type κ} where
  unfoldable pub gets : (S → A) → Exec S A
  gets read now = (ok (read now), now)

  unfoldable pub lift : Result A → Exec S A
  lift outcome now = (outcome, now)

  unfoldable pub pure : A → Exec S A
  pure value now = (ok value, now)

  unfoldable pub raise : Error → Exec S A
  raise error now = (err error, now)

module _ {ℓ κ ι} {S : Type ℓ} {A : Type κ} {B : Type ι} where
  -- The rest of a program behind what its first part gave.
  abbrev pub resumed : (A → Exec S B) → Result A × S → Result B × S
  resumed next (err e, after) = (err e, after)
  resumed next (ok x, after) = next x after

  infixl 5 ◌>>=◌ ◌>>◌
  unfoldable pub ◌>>=◌ : Exec S A → (A → Exec S B) → Exec S B
  ◌>>=◌ first next now = resumed next (first now)

  abbrev pub ◌>>◌ : Exec S A → Exec S B → Exec S B
  first >> second = first >>= λ _. second

  halves :
      (next : A → Exec S B) (out : Result A × S) {end : S} {y : B}
      → resumed next out ≡ (ok y, end)
      → (x : A) × (middle : S) × (out ≡ (ok x, middle)) × (next x middle ≡ (ok y, end))
  halves next (err e, after) h = cc (ap (λ t. t.0) h)
  halves next (ok x, after) h = (x, after, refl, h)

  -- A run that returns goes through the value and the state of its first part.
  pub >>=-eq-ok :
      (first : Exec S A) (next : A → Exec S B) {start end : S} {y : B}
      → (first >>= next) start ≡ (ok y, end)
      → (x : A) × (middle : S) × (first start ≡ (ok x, middle)) × (next x middle ≡ (ok y, end))
  unfolding ◌>>=◌
  >>=-eq-ok first next {start} h = halves next (first start) h
