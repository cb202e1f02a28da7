-- ===== src/History/Resume/Conflict.antt =====
-- What a run that stops at a conflict leaves of the refs and the state file.
use mathlib.Core.Path.{subst}
use tunnel2tunnel.Base.{
  Bool, true, false, Option, none, some, List, Text, codes, ◌≡◌, ◌≢◌, refl, ap, ◌∙◌, starts_with,
  list_eq, nat_eq, if◌then◌else◌,
}
use tunnel2tunnel.Base.Result.{Result, ok, ok-injective}
use tunnel2tunnel.Base.Exec.{Exec, pure, ◌>>=◌, >>=-eq-ok}
use tunnel2tunnel.Base.Exec.Keeps.{Keeps, Keeps-gets, Keeps-lift}
use tunnel2tunnel.Base.Exec.Returns.{Returns, Returns-pure, Returns-then}
use tunnel2tunnel.Git.{IsLawful}
use tunnel2tunnel.Split.Host.{Host}
use tunnel2tunnel.History.Plan.{Step}
use tunnel2tunnel.History.Checkout.{Checkout, IsDocumented, scratch_ref}
use tunnel2tunnel.History.Steps.{Pending}
use tunnel2tunnel.History.Update.{
  Outcome, conflicted, planned, updated, Ending, stop, go, Options, Repo, ended, finish, start,
  move_history, run_plan, run_planned,
}
use tunnel2tunnel.History.Resume.Stopped.{
  SameRef, HasConflict, run_and_fold-Keeps, run_and_fold-Ends,
}

-- The history branch has moved.
abbrev pub IsUpdated : Outcome → Type 0
IsUpdated outcome = (tip : Text) × (outcome ≡ updated tip)

module _ (host : Host) (desk : Checkout host.git.Refs) where
  pub IsUpdated-finish :
      (history_ref : Text) (old checkout : Option Text) (tip : Text)
      → Returns IsUpdated (finish host desk history_ref old checkout tip)
  unfolding finish
  IsUpdated-finish history_ref old checkout tip = Returns-then _ _ (λ _.
      Returns-then _ _ (λ _.
        Returns-then _ _ (λ _. Returns-then _ _ (λ _. Returns-pure (updated tip) (tip, refl)))))

  move_history-IsUpdated :
      (history_ref : Text) (old checkout : Option Text) (tip : Text)
      → Returns IsUpdated (move_history host desk history_ref old checkout tip)
  unfolding move_history start
  move_history-IsUpdated history_ref none checkout tip =
      Returns-then _ _ (λ _. Returns-then _ _ (λ _. Returns-pure (updated tip) (tip, refl)))
  move_history-IsUpdated history_ref (some old) checkout tip =
      IsUpdated-finish history_ref (some old) checkout tip

  -- The ending of a run whose outcome is a conflict.
  pub ended_conflict :
      (next : Text → Exec (Repo host desk) Outcome) (ending : Ending)
      (middle after : Repo host desk) (pending : Pending)
      → ((tip : Text) → Returns IsUpdated (next tip))
      → ended host desk next ending middle ≡ (ok (conflicted pending), after)
      → (ending ≡ stop (conflicted pending)) × (middle ≡ after)
  unfolding ended pure
  ended_conflict next (stop outcome) middle after pending moves h =
      (ap stop (ok-injective (ap (λ t. t.0) h)), ap (λ t. t.1) h)
  ended_conflict next (go tip) middle after pending moves h =
      absurd (clash ((moves tip).at middle after (conflicted pending) h))
    where
      clash : IsUpdated (conflicted pending) → ⊥
      clash (tip, e) = cc

  -- A program that keeps `P` if it ends with a conflict, of which and of the last state holds `Q`.
  record Stops (P : Repo host desk → Type 0) (Q : Pending → Repo host desk → Type 0)
      (m : Exec (Repo host desk) Outcome) : Type 0 where
    pub at :
        (before after : Repo host desk) (pending : Pending)
        → P before
        → m before ≡ (ok (conflicted pending), after)
        → P after × Q pending after

  module _ {P : Repo host desk → Type 0} {Q : Pending → Repo host desk → Type 0} where
    Stops-then {ℓ} :
        {A : Type ℓ} (m : Exec (Repo host desk) A) (f : A → Exec (Repo host desk) Outcome)
        → Keeps P m
        → ((x : A) → Stops P Q (f x))
        → Stops P Q (m >>= f)
    Stops-then {A = A} m f kept k = record {
      at = λ before after pending p h.
          let (x, middle, first, rest) = >>=-eq-ok m f h in
          (k x).at middle after pending
            (subst (λ (t : Result A × Repo host desk). P t.1) first (kept.at before p)) rest;
    }

    Stops-if :
        (b : Bool) (m n : Exec (Repo host desk) Outcome)
        → Stops P Q m
        → Stops P Q n
        → Stops P Q (if b then m else n)
    Stops-if true m n h k = h
    Stops-if false m n h k = k

    Stops-planned : (steps : List Step) → Stops P Q (pure (planned steps))
    unfolding pure
    Stops-planned steps = record {
      at = λ before after pending p h. absurd (clash (ok-injective (ap (λ t. t.0) h)));
    }
      where
        clash : {pending : Pending} → planned steps ≡ conflicted pending → ⊥
        clash e = cc

    Stops-ended :
        (body : Exec (Repo host desk) Ending) (next : Text → Exec (Repo host desk) Outcome)
        → Keeps P body
        → ((before after : Repo host desk) (pending : Pending)
            → body before ≡ (ok (stop (conflicted pending)), after)
            → Q pending after)
        → ((tip : Text) → Returns IsUpdated (next tip))
        → Stops P Q (body >>= ended host desk next)
    Stops-ended body next kept q moves = record {
      at = λ before after pending p h.
          let (ending, middle, first, rest) = >>=-eq-ok body (ended host desk next) h in
          let (is_stop, is_after) = ended_conflict next ending middle after pending moves rest in
          let ran : body before ≡ (ok (stop (conflicted pending)), after) =
            first ∙ (λ i. (ok (is_stop i), is_after i)) in
          (
            subst (λ (t : Result Ending × Repo host desk). P t.1) ran (kept.at before p),
            q before after pending ran,
          );
    }

  module _ (law : IsLawful host.git) (doc : IsDocumented host desk) (ref : Text)
      (value : Option Text) (full : starts_with ref (codes "refs/") ≡ true)
      (other : ref ≢ scratch_ref) where
    run_plan-Stops :
        (options : Options) (checkout : Option Text) (master_tip : Text)
        → Stops
            (SameRef host desk law doc ref value full other)
            (HasConflict host desk)
            (run_plan host desk options checkout master_tip)
    unfolding run_plan run_planned
    run_plan-Stops options checkout master_tip = Stops-then _ _ (Keeps-gets _) (λ old.
        Stops-then _ _ (Keeps-gets _) (λ found. Stops-then _ _ (Keeps-lift found) (λ plan.
          Stops-if options.dry_run _ _ (Stops-planned plan.0) (
            Stops-ended _ _
              (run_and_fold-Keeps host desk law doc ref value full other _ plan.0 plan.1)
              (λ before after pending.
                (run_and_fold-Ends host desk _ plan.0 plan.1).at before after
                  (stop (conflicted pending)))
              (λ tip. move_history-IsUpdated _ old checkout tip)))))

-- A run that stops at a conflict leaves every full ref but the scratch branch as it was, the history
-- branch included. The conflict is in the state file, where the steps that are saved begin with its
-- step, or it is the conflict of the fold of the base and no step is left. It is assumed that git's
-- commands move HEAD and write refs as documented.
pub run_plan_conflict :
    (host : Host) (desk : Checkout host.git.Refs) (law : IsLawful host.git)
    (doc : IsDocumented host desk) (ref : Text) (full : starts_with ref (codes "refs/") ≡ true)
    (other : ref ≢ scratch_ref) (options : Options) (checkout : Option Text) (master_tip : Text)
    (before after : Repo host desk) (pending : Pending)
    → run_plan host desk options checkout master_tip before ≡ (ok (conflicted pending), after)
    → (host.git.ref_at after.refs ref ≡ host.git.ref_at before.refs ref)
      × HasConflict host desk pending after
run_plan_conflict host desk law doc ref full other options checkout master_tip before after pending
      h =
    (run_plan-Stops host desk law doc ref (host.git.ref_at before.refs ref) full other options
        checkout master_tip).at
      before after pending refl h
