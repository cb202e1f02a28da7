-- ===== src/Base/Result.antt =====
-- Results of functions that may raise. What an error carries is what a handler or a caller reads.
use mathlib.Core.Path.{◌≡◌, refl}
use mathlib.Core.List.{List, [], ◌∷◌}
use tunnel2tunnel.Base.Equality.{Text}

pub data Target : Type 0 where
  to_clean to_history : Target

pub data Error : Type 0 where
  -- a command that was run with `check=True` and failed
  called_process_error : Error
  assertion_error : Error
  index_error : Error
  attribute_error : Error
  -- a `ValueError` that names two values
  value_error : Text → Text → Error
  key_error : Error
  -- a `ValueError` about a missing username
  username_required : Error
  -- a `ValueError` that names a remote with several URLs
  multiple_urls : Text → Error
  -- a `HistoryMasterError`, by its message or a word for it
  history_master_error : Text → Error
  unclean_merge_detected : Text → List Text → Target → Error

pub data Result {ℓ} (A : Type ℓ) : Type ℓ where
  err : Error → Result A
  ok : A → Result A

module _ {ℓ κ} {A : Type ℓ} {B : Type κ} where
  infixl 5 ◌>>=◌ ◌>>◌
  -- The first error ends the chain.
  abbrev pub ◌>>=◌ : Result A → (A → Result B) → Result B
  ◌>>=◌ (err e) next = err e
  ◌>>=◌ (ok x) next = next x

  abbrev pub ◌>>◌ : Result A → Result B → Result B
  first >> second = first >>= λ _. second

  -- A chain that succeeds has two halves that do.
  pub >>=-eq-ok :
      (first : Result A) (next : A → Result B) {y : B}
      → first >>= next ≡ ok y
      → (x : A) × (first ≡ ok x) × (next x ≡ ok y)
  >>=-eq-ok (err e) next chain = cc
  >>=-eq-ok (ok x) next chain = (x, refl, chain)

pub ok-injective {ℓ} : {A : Type ℓ} {a b : A} → ok a ≡ ok b → a ≡ b
ok-injective h = cc

-- `[f(x) for x in xs]` for an `f` that may raise.
unfoldable pub traverse {ℓ κ} :
    {A : Type ℓ} {B : Type κ} → (A → Result B) → List A → Result (List B)
traverse f [] = ok []
traverse f (x ∷ xs) = let rest = traverse f xs in do y ← f x; ys ← rest; ok (y ∷ ys)
