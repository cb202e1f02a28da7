-- ===== src/History/Steps/Resumed.antt =====
-- Where a run of steps stops.
use tunnel2tunnel.Base.{Option, none, some, List, [], ◌∷◌, ◌++◌, Text, ◌≡◌, refl, ap}
use mathlib.Core.Path.{subst}
use tunnel2tunnel.Base.Result.{ok, ok-injective}
use tunnel2tunnel.Base.Exec.{pure, ◌>>=◌, >>=-eq-ok}
use tunnel2tunnel.History.Plan.{Step}
use tunnel2tunnel.Split.Host.{Host}
use tunnel2tunnel.History.Checkout.{Checkout, Place, PendingKind, cherry_pick, merge}
use tunnel2tunnel.History.Replay.{Stepped, moved_to, cherry_pick_conflict, merge_conflict}
use tunnel2tunnel.History.Steps.{Run, Pending, execute_step, run_steps, stopped, after_step}

-- A finished run.
abbrev pub finished : Text → Run
finished tip = record { tip = tip; remaining = []; conflict = none }

-- Nothing remains of a run without a conflict, and a conflict is that of the first step that remains.
abbrev pub IsStopped : Run → Option Pending → Type 0
IsStopped run none = run.remaining ≡ []
IsStopped run (some pending) = (rest : List Step) × (run.remaining ≡ pending.step ∷ rest)

module _ (host : Host) (desk : Checkout host.git.Refs) where
  -- The steps before those that remain were run.
  abbrev pub IsResumable : List Step → Text → Place host desk → Run → Type 0
  IsResumable steps tip before run =
      (done : List Step) × (middle : Place host desk) × (steps ≡ done ++ run.remaining)
      × (run_steps host desk done tip before ≡ (ok (finished run.tip), middle))
      × IsStopped run run.conflict

  -- A conflict at the first step.
  at_once :
      (step : Step) (steps : List Step) (tip : Text) (before : Place host desk) (kind : PendingKind)
      (message : Text) (now after : Place host desk) {run : Run}
      → stopped host desk tip (step ∷ steps) kind step message now ≡ (ok run, after)
      → IsResumable (step ∷ steps) tip before run
  unfolding pure run_steps
  at_once step steps tip before kind message now after {run} h =
      subst (IsResumable (step ∷ steps) tip before) (ok-injective (ap (λ t. t.0) h))
        ([], before, refl, refl, (steps, refl))

  later_step :
      (step : Step) (steps : List Step) (tip : Text) (before middle after : Place host desk)
      (run : Run) (stepped : Stepped)
      → execute_step host desk step tip before ≡ (ok stepped, middle)
      → ((t : Text)
          → run_steps host desk steps t middle ≡ (ok run, after)
          → IsResumable steps t middle run)
      → after_step host desk step steps tip (λ t. run_steps host desk steps t) stepped middle
        ≡ (ok run, after)
      → IsResumable (step ∷ steps) tip before run
  unfolding after_step run_steps ◌>>=◌
  later_step step steps tip before middle after run (moved_to t) one ih h =
      let (done, end, whole, ran, stops) = ih t h in
      (step ∷ done, end, ap (λ xs. step ∷ xs) whole, rw one ran, stops)
  later_step step steps tip before middle after run (cherry_pick_conflict m) one ih h =
      at_once step steps tip before cherry_pick m middle after h
  later_step step steps tip before middle after run (merge_conflict m) one ih h =
      at_once step steps tip before merge m middle after h

  -- A run that returns has run the steps before those that remain, each without a conflict, and ends with
  -- the tip that these lead to. Without a conflict nothing remains, and a conflict is that of the first step
  -- that remains.
  pub run_steps-remaining :
      (steps : List Step) (tip : Text) (before after : Place host desk) (run : Run)
      → run_steps host desk steps tip before ≡ (ok run, after)
      → (done : List Step) × (middle : Place host desk) × (steps ≡ done ++ run.remaining)
        × (run_steps host desk done tip before ≡ (ok (finished run.tip), middle))
        × IsStopped run run.conflict
  unfolding run_steps pure
  run_steps-remaining [] tip before after run h =
      subst (IsResumable [] tip before) (ok-injective (ap (λ t. t.0) h))
        ([], before, refl, refl, refl)
  run_steps-remaining (step ∷ steps) tip before after run h =
      let (stepped, middle, one, rest) = >>=-eq-ok (execute_step host desk step tip) _ h in
      later_step step steps tip before middle after run stepped one
        (λ t e. run_steps-remaining steps t middle after run e) rest
