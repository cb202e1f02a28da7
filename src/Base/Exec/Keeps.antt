-- ===== src/Base/Exec/Keeps.antt =====
-- State predicates that a program cannot break, with a rule for each way to build a program.
use tunnel2tunnel.Base.Equality.{if◌then◌else◌}
use mathlib.Core.Bool.{Bool, true, false}
use tunnel2tunnel.Base.Result.{Error, Result, ok, err}
use tunnel2tunnel.Base.Exec.{Exec, pure, raise, lift, gets, ◌>>=◌, resumed}

-- From a state with `P`, the program ends in one, with a value or with an error.
pub record Keeps {ℓ κ ι} {S : Type ℓ} {A : Type κ} (P : S → Type ι) (program : Exec S A)
    : Type (ℓ ⊔ ι) where
  pub at : (before : S) → P before → P (program before).1

module _ {ℓ κ ι ο} {S : Type ℓ} {A : Type κ} {B : Type ο} {P : S → Type ι} where
  at_resumed :
      (next : A → Exec S B) (out : Result A × S)
      → ((x : A) → Keeps P (next x))
      → P out.1
      → P (resumed next out).1
  at_resumed next (ok x, after) rule p = (rule x).at after p
  at_resumed next (err e, after) rule p = p

  pub Keeps-bind :
      (first : Exec S A) (next : A → Exec S B)
      → Keeps P first
      → ((x : A) → Keeps P (next x))
      → Keeps P (first >>= next)
  unfolding ◌>>=◌
  Keeps-bind first next one rule = record {
    at = λ before p. at_resumed next (first before) rule (one.at before p);
  }

module _ {ℓ κ ι} {S : Type ℓ} {A : Type κ} {P : S → Type ι} where
  pub Keeps-if :
      (test : Bool) (then_part else_part : Exec S A)
      → Keeps P then_part
      → Keeps P else_part
      → Keeps P (if test then then_part else else_part)
  Keeps-if true then_part else_part left right = left
  Keeps-if false then_part else_part left right = right

  -- A program that only reads the state.
  Keeps-reader : (read : S → Result A) → Keeps {A = A} P (λ before. (read before, before))
  Keeps-reader read = record { at = λ before p. p }

  pub Keeps-gets : (read : S → A) → Keeps P (gets read)
  unfolding gets
  Keeps-gets read = Keeps-reader (λ before. ok (read before))

  pub Keeps-lift : (outcome : Result A) → Keeps P (lift outcome)
  unfolding lift
  Keeps-lift outcome = Keeps-reader (λ _. outcome)

  pub Keeps-pure : (value : A) → Keeps P (pure value)
  unfolding pure
  Keeps-pure value = Keeps-reader (λ _. ok value)

  pub Keeps-raise : (error : Error) → Keeps P (raise {A = A} error)
  unfolding raise
  Keeps-raise error = Keeps-reader (λ _. err error)

pub ruleset keeps_rules = (Keeps-bind, Keeps-if, Keeps-gets, Keeps-lift, Keeps-pure, Keeps-raise)
