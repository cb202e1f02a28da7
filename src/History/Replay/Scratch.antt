-- ===== src/History/Replay/Scratch.antt =====
-- The scratch branch: what holds of a ref and of HEAD while it is checked out, with a rule for each
-- way to build a program.
use tunnel2tunnel.Base.{Bool, true, false, some, Option, Text, ◌≡◌, refl, if◌then◌else◌}
use tunnel2tunnel.Base.Result.{Error, Result, ok, err}
use tunnel2tunnel.Base.Exec.{Exec, gets, lift, pure, raise, ◌>>=◌, ◌>>◌, resumed}
use tunnel2tunnel.Base.Exec.Keeps.{Keeps}
use tunnel2tunnel.Base.Exec.Ends.{Ends}
use tunnel2tunnel.Split.Host.{Host}
use tunnel2tunnel.History.Checkout.{Checkout, Place, scratch_ref, asks}

module _ (host : Host) (desk : Checkout host.git.Refs) (ref : Text) (value : Option Text) where
  -- A ref has its value.
  abbrev pub Holds : Place host desk → Type 0
  Holds place = host.git.ref_at place.0 ref ≡ value

  abbrev pub OnScratch : Place host desk → Type 0
  OnScratch place = Holds place × (desk.head_ref place.1 ≡ some scratch_ref)

  -- The ref has its value, and behind a program that returned HEAD is on the scratch branch.
  abbrev pub Within {ℓ} : {A : Type ℓ} → Result A × Place host desk → Type 0
  Within (ok x, place) = OnScratch place
  Within (err e, place) = Holds place

  pub record Works {ℓ} {A : Type ℓ} (m : Exec (Place host desk) A) : Type ℓ where
    pub at : (before : Place host desk) → OnScratch before → Within (m before)

  -- A program that starts on the scratch branch, and may leave it.
  pub record Leaves {ℓ} {A : Type ℓ} (m : Exec (Place host desk) A) : Type ℓ where
    pub at : (before : Place host desk) → OnScratch before → Holds (m before).1

  module _ {ℓ} {A : Type ℓ} where
    pub Works-gets : (read : Place host desk → A) → Works (gets read)
    unfolding gets
    Works-gets read = record { at = λ before h. h }

    pub Works-pure : (x : A) → Works (pure x)
    unfolding pure
    Works-pure x = record { at = λ before h. h }

    pub Works-raise : (e : Error) → Works (raise {A = A} e)
    unfolding raise
    Works-raise e = record { at = λ before h. h.0 }

    Within-read : (r : Result A) (place : Place host desk) → OnScratch place → Within (r, place)
    Within-read (ok x) place h = h
    Within-read (err e) place h = h.0

    pub Works-lift : (r : Result A) → Works (lift r)
    unfolding lift
    Works-lift r = record { at = λ before h. Within-read r before h }

    pub Works-asks : (read : Place host desk → Result A) → Works (asks host desk read)
    unfolding asks
    Works-asks read = record { at = λ before h. Within-read (read before) before h }

    pub Works-if :
        (b : Bool) (m n : Exec (Place host desk) A) → Works m → Works n → Works (if b then m else n)
    Works-if true m n h k = h
    Works-if false m n h k = k

    raised {κ} :
        (B : Type κ) (e : Error) (out : Result A × Place host desk)
        → Holds out.1
        → Within (resumed (λ _. raise {A = B} e) out)
    unfolding raise
    raised B e (ok x, place) h = h
    raised B e (err x, place) h = h

    Holds-Within : (out : Result A × Place host desk) → Within out → Holds out.1
    Holds-Within (ok x, place) h = h.0
    Holds-Within (err e, place) h = h

    pub Leaves-Works : {m : Exec (Place host desk) A} → Works m → Leaves m
    Leaves-Works {m} w = record { at = λ before h. Holds-Within (m before) (w.at before h) }

    pub Leaves-Keeps : {m : Exec (Place host desk) A} → Keeps Holds m → Leaves m
    Leaves-Keeps k = record { at = λ before h. k.at before h.0 }

    pub Leaves-if :
        (b : Bool) (m n : Exec (Place host desk) A)
        → Leaves m
        → Leaves n
        → Leaves (if b then m else n)
    Leaves-if true m n h k = h
    Leaves-if false m n h k = k

  module _ {ℓ κ} {A : Type ℓ} {B : Type κ} where
    Within-resumed :
        (f : A → Exec (Place host desk) B) (out : Result A × Place host desk)
        → ((x : A) → Works (f x))
        → Within out
        → Within (resumed f out)
    Within-resumed f (ok x, place) k h = (k x).at place h
    Within-resumed f (err e, place) k h = h

    pub Works-bind :
        (m : Exec (Place host desk) A) (f : A → Exec (Place host desk) B)
        → Works m
        → ((x : A) → Works (f x))
        → Works (m >>= f)
    unfolding ◌>>=◌
    Works-bind m f w k = record { at = λ before h. Within-resumed f (m before) k (w.at before h) }

    Holds-left :
        (f : A → Exec (Place host desk) B) (out : Result A × Place host desk)
        → ((x : A) → Leaves (f x))
        → Within out
        → Holds (resumed f out).1
    Holds-left f (ok x, place) k h = (k x).at place h
    Holds-left f (err e, place) k h = h

    pub Leaves-bind :
        (m : Exec (Place host desk) A) (f : A → Exec (Place host desk) B)
        → Works m
        → ((x : A) → Leaves (f x))
        → Leaves (m >>= f)
    unfolding ◌>>=◌
    Leaves-bind m f w k = record { at = λ before h. Holds-left f (m before) k (w.at before h) }

    -- A program that leaves the scratch branch and raises.
    pub Works-raised :
        (m : Exec (Place host desk) A) (e : Error) → Leaves m → Works (m >> raise {A = B} e)
    unfolding ◌>>=◌
    Works-raised m e k = record { at = λ before h. raised B e (m before) (k.at before h) }

    entered :
        (Q : Place host desk → Type 0) (f : A → Exec (Place host desk) B)
        (out : Result A × Place host desk)
        → ((x : A) (place : Place host desk) → out ≡ (ok x, place) → Q place)
        → ((x : A) (place : Place host desk) → Holds place → Q place → Holds (f x place).1)
        → Holds out.1
        → Holds (resumed f out).1
    entered Q f (ok x, place) q k h = k x place h (q x place refl)
    entered Q f (err e, place) q k h = h

    -- The second part may use what holds of the state behind the first.
    pub Keeps-enter :
        (Q : Place host desk → Type 0) (m : Exec (Place host desk) A)
        (f : A → Exec (Place host desk) B)
        → Keeps Holds m
        → Ends (λ _ place. Q place) m
        → ((x : A) (place : Place host desk) → Holds place → Q place → Holds (f x place).1)
        → Keeps Holds (m >>= f)
    unfolding ◌>>=◌
    Keeps-enter Q m f kept ends k = record {
      at = λ before h.
          entered Q f (m before) (λ x place e. ends.at before place x e) k (kept.at before h);
    }
