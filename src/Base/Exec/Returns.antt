-- ===== src/Base/Exec/Returns.antt =====
-- What holds of the results of programs that return, one rule for each way to build one.
use mathlib.Core.Path.{◌≡◌, refl, ap, subst}
use mathlib.Core.Bool.{Bool, true, false}
use tunnel2tunnel.Base.Equality.{if◌then◌else◌}
use tunnel2tunnel.Base.Result.{Error, Result, ok, err}
use tunnel2tunnel.Base.Exec.{Exec, pure, raise, lift, ◌>>=◌, >>=-eq-ok}

-- Where `m` returns a value, `Q` holds of it.
pub record Returns {ℓ κ ι} {S : Type ℓ} {A : Type κ} (Q : A → Type ι) (m : Exec S A)
    : Type (ℓ ⊔ κ ⊔ ι) where
  pub at : (s s' : S) (a : A) → m s ≡ (ok a, s') → Q a

module _ {ℓ κ ι} {S : Type ℓ} {A : Type κ} {Q : A → Type ι} where
  pub Returns-pure : (a : A) → Q a → Returns {S = S} Q (pure a)
  unfolding pure
  Returns-pure a q = record { at = λ s s' b h. subst Q (result (ap (λ t. t.0) h)) q }
    where
      result : {x y : A} → ok x ≡ ok y → x ≡ y
      result p = cc

  pub Returns-raise : (e : Error) → Returns {S = S} Q (raise e)
  unfolding raise
  Returns-raise e = record { at = λ s s' b h. absurd (clash (ap (λ t. t.0) h)) }
    where
      clash : {y : A} → err e ≡ ok y → ⊥
      clash p = cc

  pub Returns-if :
      (b : Bool) (m n : Exec S A)
      → (b ≡ true → Returns Q m)
      → (b ≡ false → Returns Q n)
      → Returns Q (if b then m else n)
  Returns-if true m n km kn = km refl
  Returns-if false m n km kn = kn refl

module _ {ℓ κ ο ι} {S : Type ℓ} {A : Type κ} {B : Type ο} {Q : B → Type ι} where
  -- The rest may use what holds of the first result.
  pub Returns-bind {υ} :
      {R : A → Type υ} (m : Exec S A) (f : A → Exec S B)
      → Returns R m
      → ((a : A) → R a → Returns Q (f a))
      → Returns Q (m >>= f)
  Returns-bind m f km kf = record {
    at = λ s s' b h.
        let (a, middle, first, second) = >>=-eq-ok m f h in
        (kf a (km.at s middle a first)).at middle s' b second;
  }

  pub Returns-then :
      (m : Exec S A) (f : A → Exec S B) → ((a : A) → Returns Q (f a)) → Returns Q (m >>= f)
  Returns-then m f kf = record {
    at = λ s s' b h.
        let (a, middle, first, second) = >>=-eq-ok m f h in (kf a).at middle s' b second;
  }

module _ {ℓ κ} {S : Type ℓ} {A : Type κ} where
  pub Returns-lift : (r : Result A) → Returns {S = S} (λ a. r ≡ ok a) (lift r)
  unfolding lift
  Returns-lift r = record { at = λ s s' a h. ap (λ t. t.0) h }

module _ {ℓ κ ι ο} {S : Type ℓ} {A : Type κ} {P : A → Type ι} {Q : A → Type ο} where
  pub Returns-map : {m : Exec S A} → ((a : A) → P a → Q a) → Returns P m → Returns Q m
  Returns-map f km = record { at = λ s s' a h. f a (km.at s s' a h) }
