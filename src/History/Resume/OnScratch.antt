-- ===== src/History/Resume/OnScratch.antt =====
-- A repository with HEAD on the scratch branch: what holds of a ref behind a program, with a rule for each
-- way to build one.
use tunnel2tunnel.Base.{Bool, true, false, Option, some, Text, ◌≡◌, if◌then◌else◌}
use tunnel2tunnel.Base.Result.{Result, ok, err}
use tunnel2tunnel.Base.Exec.{Exec, gets, lift, ◌>>=◌, resumed}
use tunnel2tunnel.Base.Exec.Keeps.{Keeps}
use tunnel2tunnel.Split.Host.{Host}
use tunnel2tunnel.History.Checkout.{Checkout, Place, scratch_ref}
use tunnel2tunnel.History.Replay.Scratch.{Holds, Within, Works, Leaves}
use tunnel2tunnel.History.Update.{Saved, Repo, on_work}

module _ (host : Host) (desk : Checkout host.git.Refs) (ref : Text) (value : Option Text) where
  abbrev pub Same : Repo host desk → Type 0
  Same repo = host.git.ref_at repo.refs ref ≡ value

  -- The ref has its value, and HEAD is on the scratch branch.
  abbrev pub On : Repo host desk → Type 0
  On repo = Same repo × (desk.head_ref repo.work ≡ some scratch_ref)

  abbrev pub Stays {ℓ} : {A : Type ℓ} → Result A × Repo host desk → Type 0
  Stays (ok x, repo) = On repo
  Stays (err e, repo) = Same repo

  -- A program that stays on the scratch branch unless it raises.
  pub record Stands {ℓ} {A : Type ℓ} (m : Exec (Repo host desk) A) : Type ℓ where
    pub at : (before : Repo host desk) → On before → Stays (m before)

  pub record Ends {ℓ} {A : Type ℓ} (m : Exec (Repo host desk) A) : Type ℓ where
    pub at : (before : Repo host desk) → On before → Same (m before).1

  module _ {ℓ} {A : Type ℓ} where
    pub Stands-on_work :
        (m : Exec (Place host desk) A) → Works host desk ref value m → Stands (on_work host desk m)
    unfolding on_work
    Stands-on_work m w = record {
      at = λ repo h. on repo.saved (m (repo.refs, repo.work)) (w.at (repo.refs, repo.work) h);
    }
      where
        on :
            (saved : Option Saved) (out : Result A × Place host desk)
            → Within host desk ref value out
            → Stays (out.0, record { refs = out.1.0; work = out.1.1; saved = saved })
        on saved (ok x, place) h = h
        on saved (err e, place) h = h

    pub Stands-gets : (read : Repo host desk → A) → Stands (gets read)
    unfolding gets
    Stands-gets read = record { at = λ repo h. h }

    pub Stands-lift : (r : Result A) → Stands (lift r)
    unfolding lift
    Stands-lift (ok x) = record { at = λ repo h. h }
    Stands-lift (err e) = record { at = λ repo h. h.0 }

    pub Ends-Keeps : {m : Exec (Repo host desk) A} → Keeps Same m → Ends m
    Ends-Keeps k = record { at = λ repo h. k.at repo h.0 }

    pub Ends-if :
        (b : Bool) (m n : Exec (Repo host desk) A) → Ends m → Ends n → Ends (if b then m else n)
    Ends-if true m n h k = h
    Ends-if false m n h k = k

  module _ {ℓ κ} {A : Type ℓ} {B : Type κ} where
    Stays-resumed :
        (f : A → Exec (Repo host desk) B) (out : Result A × Repo host desk)
        → ((x : A) → Stands (f x))
        → Stays out
        → Stays (resumed f out)
    Stays-resumed f (ok x, repo) k h = (k x).at repo h
    Stays-resumed f (err e, repo) k h = h

    pub Stands-bind :
        (m : Exec (Repo host desk) A) (f : A → Exec (Repo host desk) B)
        → Stands m
        → ((x : A) → Stands (f x))
        → Stands (m >>= f)
    unfolding ◌>>=◌
    Stands-bind m f w k = record { at = λ repo h. Stays-resumed f (m repo) k (w.at repo h) }

    Same-resumed :
        (f : A → Exec (Repo host desk) B) (out : Result A × Repo host desk)
        → ((x : A) → Ends (f x))
        → Stays out
        → Same (resumed f out).1
    Same-resumed f (ok x, repo) k h = (k x).at repo h
    Same-resumed f (err e, repo) k h = h

    pub Ends-bind :
        (m : Exec (Repo host desk) A) (f : A → Exec (Repo host desk) B)
        → Stands m
        → ((x : A) → Ends (f x))
        → Ends (m >>= f)
    unfolding ◌>>=◌
    Ends-bind m f w k = record { at = λ repo h. Same-resumed f (m repo) k (w.at repo h) }

  -- The second part does not depend on where HEAD is.
  pub leave_work :
      {A B : Type 0} (m : Exec (Place host desk) A) (f : A → Exec (Repo host desk) B)
      → Leaves host desk ref value m
      → ((x : A) → Keeps Same (f x))
      → Ends (on_work host desk m >>= f)
  unfolding on_work ◌>>=◌
  leave_work {A} {B} m f l k = record {
    at = λ repo h. by_outcome repo.saved (m (repo.refs, repo.work)) (l.at (repo.refs, repo.work) h);
  }
    where
      by_outcome :
          (saved : Option Saved) (out : Result A × Place host desk)
          → Holds host desk ref value out.1
          → Same (resumed f (out.0, record { refs = out.1.0; work = out.1.1; saved = saved })).1
      by_outcome saved (ok x, place) h = (k x).at _ h
      by_outcome saved (err e, place) h = h
