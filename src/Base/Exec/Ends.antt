-- ===== src/Base/Exec/Ends.antt =====
-- What holds of the result and the last state of programs that return.
use mathlib.Core.Path.{◌≡◌, ap}
use mathlib.Core.Bool.{Bool, true, false}
use tunnel2tunnel.Base.Equality.{if◌then◌else◌}
use tunnel2tunnel.Base.Result.{Error, ok, err}
use tunnel2tunnel.Base.Exec.{Exec, raise, ◌>>=◌, >>=-eq-ok}

-- Where `m` returns a value, `Q` holds of it and of the state behind.
pub record Ends {ℓ κ ι} {S : Type ℓ} {A : Type κ} (Q : A → S → Type ι) (m : Exec S A)
    : Type (ℓ ⊔ κ ⊔ ι) where
  pub at : (s s' : S) (a : A) → m s ≡ (ok a, s') → Q a s'

module _ {ℓ κ ι} {S : Type ℓ} {A : Type κ} {Q : A → S → Type ι} where
  pub Ends-raise : (e : Error) → Ends {S = S} Q (raise e)
  unfolding raise
  Ends-raise e = record { at = λ s s' b h. absurd (clash (ap (λ t. t.0) h)) }
    where
      clash : {y : A} → err e ≡ ok y → ⊥
      clash p = cc

  pub Ends-if : (b : Bool) (m n : Exec S A) → Ends Q m → Ends Q n → Ends Q (if b then m else n)
  Ends-if true m n h k = h
  Ends-if false m n h k = k

  pub Ends-then {ο} :
      {B : Type ο} (m : Exec S B) (f : B → Exec S A) → ((x : B) → Ends Q (f x)) → Ends Q (m >>= f)
  Ends-then m f k = record {
    at = λ s s' a h. let (x, middle, first, rest) = >>=-eq-ok m f h in (k x).at middle s' a rest;
  }
