-- ===== src/History/Resume/Stopped.antt =====
-- A run of steps, with the fold of the base: which refs it writes, and what it saves at a conflict.
use mathlib.Core.Path.{subst}
use tunnel2tunnel.Base.{
  true, Option, none, some, List, [], ◌∷◌, Text, codes, ◌≡◌, ◌≢◌, ◌⊎◌, inl, inr, refl, ap,
  starts_with, list_eq, nat_eq,
}
use tunnel2tunnel.Base.Result.{ok-injective}
use tunnel2tunnel.Base.Exec.{Exec, pure, ◌>>=◌, >>=-eq-ok}
use tunnel2tunnel.Base.Exec.Keeps.{
  Keeps, keeps_rules, Keeps-pure, Keeps-raise, Keeps-bind, Keeps-if,
}
use tunnel2tunnel.Base.Exec.Ends.{Ends, Ends-raise, Ends-if, Ends-then}
use tunnel2tunnel.Git.{IsLawful}
use tunnel2tunnel.Split.Host.{Host}
use tunnel2tunnel.History.Plan.{Step, commit, base_merge, base_fold, marker}
use tunnel2tunnel.History.Checkout.{Checkout, IsDocumented, Place, scratch_ref}
use tunnel2tunnel.History.Replay.{Stepped, moved_to, cherry_pick_conflict, merge_conflict}
use tunnel2tunnel.History.Replay.Scratch.{Holds}
use tunnel2tunnel.History.Replay.Frame.{
  replay_commit-Keeps, recreate_base_merge-Keeps, fold_base-Keeps, create_merge_marker-Keeps,
}
use tunnel2tunnel.History.Steps.{Run, Pending, execute_step, after_step, run_steps}
use tunnel2tunnel.History.Steps.Resumed.{IsStopped, run_steps-remaining}
use tunnel2tunnel.History.Update.{
  Saved, conflicted, Ending, stop, go, Repo, on_work, write_state, save_conflict, after_fold,
  fold_latest, after_run, run_and_fold,
}

-- The conflict is that of the next step that is saved, or of the fold of the base behind all steps.
abbrev pub IsNext : Pending → List Step → Type 0
IsNext pending remaining =
    ((rest : List Step) × (remaining ≡ pending.step ∷ rest))
    ⊎ ((base_sha : Text) × (pending.step ≡ base_fold base_sha) × (remaining ≡ []))

module _ (host : Host) (desk : Checkout host.git.Refs) where
  -- The state file has the conflict and the steps from it on.
  abbrev pub HasConflict : Pending → Repo host desk → Type 0
  HasConflict pending repo =
      (saved : Saved) × (repo.saved ≡ some saved)
      × (saved.pending ≡ some pending)
      × IsNext pending saved.remaining

  -- A conflict that ends the run is in the state file.
  abbrev pub IsSaved : Ending → Repo host desk → Type 0
  IsSaved (stop (conflicted pending)) repo = HasConflict pending repo
  IsSaved (stop _) repo = Unit
  IsSaved (go tip) repo = Unit

  Ends-go : (tip : Text) → Ends IsSaved (pure (go tip))
  unfolding pure
  Ends-go tip = record {
    at = λ s s' a h. subst (λ e. IsSaved e s') (ok-injective (ap (λ t. t.0) h)) tt;
  }

  Ends-save_conflict :
      (saved : Saved) (pending : Pending)
      → IsNext pending saved.remaining
      → Ends IsSaved (save_conflict host desk saved pending)
  unfolding save_conflict write_state pure ◌>>=◌
  Ends-save_conflict saved pending next = record {
    at = λ s s' a h.
        subst (λ (t : Ending × Repo host desk). IsSaved t.0 t.1)
          (λ i. (ok-injective (ap (λ t. t.0) h) i, (h i).1))
          (record saved { pending = some pending }, refl, refl, next);
  }

  after_fold-Ends :
      (saved : Saved) (base_sha : Text) (stepped : Stepped)
      → Ends IsSaved (after_fold host desk saved base_sha stepped)
  unfolding after_fold
  after_fold-Ends saved base_sha (moved_to tip) = Ends-go tip
  after_fold-Ends saved base_sha (cherry_pick_conflict m) = Ends-raise _
  after_fold-Ends saved base_sha (merge_conflict m) =
      Ends-save_conflict _ _ (inr (base_sha, refl, refl))

  fold_latest-Ends :
      (saved : Saved) (tip : Text) (base : Option Text)
      → Ends IsSaved (fold_latest host desk saved tip base)
  unfolding fold_latest
  fold_latest-Ends saved tip none = Ends-go tip
  fold_latest-Ends saved tip (some base) =
      Ends-if _ _ _ (Ends-go tip) (Ends-then _ _ (after_fold-Ends saved base))

  after_run-Ends :
      (saved : Saved) (run : Run) (conflict : Option Pending)
      → IsStopped run conflict
      → Ends IsSaved (after_run host desk saved run conflict)
  unfolding after_run
  after_run-Ends saved run (some pending) stops = Ends-save_conflict _ _ (inl stops)
  after_run-Ends saved run none stops =
      Ends-then _ _ (fold_latest-Ends (record saved { tip = run.tip }) run.tip)

  pub run_and_fold-Ends :
      (saved : Saved) (steps : List Step) (tip : Text)
      → Ends IsSaved (run_and_fold host desk saved steps tip)
  unfolding run_and_fold on_work
  run_and_fold-Ends saved steps tip = record {
    at = λ s s' a h.
        let (run, middle, first, rest) =
          >>=-eq-ok (on_work host desk (run_steps host desk steps tip))
            (λ run. after_run host desk saved run run.conflict) h in
        let (done, place, whole, ran, stops) =
          run_steps-remaining host desk steps tip (s.refs, s.work) (middle.refs, middle.work) run
            (ap (λ t. (t.0, (t.1.refs, t.1.work))) first) in
        (after_run-Ends saved run run.conflict stops).at middle s' a rest;
  }

  module _ (law : IsLawful host.git) (doc : IsDocumented host desk) (ref : Text)
      (value : Option Text) (full : starts_with ref (codes "refs/") ≡ true)
      (other : ref ≢ scratch_ref) where
    execute_step-Keeps :
        (step : Step) (tip : Text)
        → Keeps (Holds host desk ref value) (execute_step host desk step tip)
    unfolding execute_step
    execute_step-Keeps (commit sha) tip =
        replay_commit-Keeps host desk law doc ref value full other sha tip
    execute_step-Keeps (base_merge sha) tip =
        recreate_base_merge-Keeps host desk law doc ref value full other sha tip
    execute_step-Keeps (marker clean branch) tip =
        create_merge_marker-Keeps host desk law doc ref value full other clean branch tip
    execute_step-Keeps (base_fold sha) tip =
        fold_base-Keeps host desk law doc ref value full other sha tip

    after_step-Keeps :
        (step : Step) (steps : List Step) (tip : Text) (next : Text → Exec (Place host desk) Run)
        (stepped : Stepped)
        → ((t : Text) → Keeps (Holds host desk ref value) (next t))
        → Keeps (Holds host desk ref value) (after_step host desk step steps tip next stepped)
    unfolding after_step
    after_step-Keeps step steps tip next (moved_to t) k = k t
    after_step-Keeps step steps tip next (cherry_pick_conflict m) k = Keeps-pure _
    after_step-Keeps step steps tip next (merge_conflict m) k = Keeps-pure _

    run_steps-Keeps :
        (steps : List Step) (tip : Text)
        → Keeps (Holds host desk ref value) (run_steps host desk steps tip)
    unfolding run_steps
    run_steps-Keeps [] tip = Keeps-pure _
    run_steps-Keeps (step ∷ steps) tip =
        Keeps-bind _ _ (execute_step-Keeps step tip)
          (λ stepped. after_step-Keeps step steps tip _ stepped (λ t. run_steps-Keeps steps t))

    -- A ref has its value.
    abbrev pub SameRef : Repo host desk → Type 0
    SameRef repo = host.git.ref_at repo.refs ref ≡ value

    pub on_work-Keeps {ℓ} :
        {A : Type ℓ} (m : Exec (Place host desk) A)
        → Keeps (Holds host desk ref value) m
        → Keeps SameRef (on_work host desk m)
    unfolding on_work
    on_work-Keeps m k = record { at = λ repo h. k.at (repo.refs, repo.work) h }

    pub write_state-Keeps : (saved : Option Saved) → Keeps SameRef (write_state host desk saved)
    unfolding write_state
    write_state-Keeps saved = record { at = λ s h. h }

    save_conflict-Keeps :
        (saved : Saved) (pending : Pending) → Keeps SameRef (save_conflict host desk saved pending)
    unfolding save_conflict
    save_conflict-Keeps saved pending = search (keeps_rules, write_state-Keeps)

    after_fold-Keeps :
        (saved : Saved) (base_sha : Text) (stepped : Stepped)
        → Keeps SameRef (after_fold host desk saved base_sha stepped)
    unfolding after_fold
    after_fold-Keeps saved base_sha (moved_to tip) = Keeps-pure (go tip)
    after_fold-Keeps saved base_sha (cherry_pick_conflict m) = Keeps-raise _
    after_fold-Keeps saved base_sha (merge_conflict m) = save_conflict-Keeps _ _

    fold_latest-Keeps :
        (saved : Saved) (tip : Text) (base : Option Text)
        → Keeps SameRef (fold_latest host desk saved tip base)
    unfolding fold_latest
    fold_latest-Keeps saved tip none = Keeps-pure (go tip)
    fold_latest-Keeps saved tip (some base) =
        Keeps-if (host.git.is_ancestor base tip) _ _ (Keeps-pure (go tip)) (
          Keeps-bind _ _
            (on_work-Keeps _ (fold_base-Keeps host desk law doc ref value full other base tip))
            (after_fold-Keeps saved base))

    after_run-Keeps :
        (saved : Saved) (run : Run) (conflict : Option Pending)
        → Keeps SameRef (after_run host desk saved run conflict)
    unfolding after_run
    after_run-Keeps saved run (some pending) = save_conflict-Keeps _ _
    after_run-Keeps saved run none = search (keeps_rules, fold_latest-Keeps)

    pub run_and_fold-Keeps :
        (saved : Saved) (steps : List Step) (tip : Text)
        → Keeps SameRef (run_and_fold host desk saved steps tip)
    unfolding run_and_fold
    run_and_fold-Keeps saved steps tip =
        Keeps-bind _ _ (on_work-Keeps _ (run_steps-Keeps steps tip))
          (λ run. after_run-Keeps saved run run.conflict)
