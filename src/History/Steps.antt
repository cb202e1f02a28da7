-- ===== src/History/Steps.antt =====
-- The steps, run one after another until one conflicts.
pub mod Resumed
use tunnel2tunnel.Base.{Option, none, some, List, [], ◌∷◌, Text}
use tunnel2tunnel.Base.Exec.{Exec, pure, ◌>>=◌}
use tunnel2tunnel.Split.Host.{Host}
use tunnel2tunnel.History.Plan.{Step, commit, base_merge, base_fold, marker}
use tunnel2tunnel.History.Checkout.{Checkout, Place, PendingKind, cherry_pick, merge}
use tunnel2tunnel.History.Replay.{
  Stepped, moved_to, cherry_pick_conflict, merge_conflict, replay_commit, recreate_base_merge,
  create_merge_marker, fold_base,
}

pub record Pending : Type 0 where
  pub kind : PendingKind
  pub step : Step
  pub message : Text

-- The tip, what remains, and the conflict that stopped the run.
pub record Run : Type 0 where
  pub tip : Text
  pub remaining : List Step
  pub conflict : Option Pending

module _ (host : Host) (desk : Checkout host.git.Refs) where
  unfoldable pub execute_step : Step → Text → Exec (Place host desk) Stepped
  execute_step (commit sha) tip = replay_commit host desk sha tip
  execute_step (base_merge sha) tip = recreate_base_merge host desk sha tip
  execute_step (marker clean_sha branch) tip = create_merge_marker host desk clean_sha branch tip
  execute_step (base_fold sha) tip = fold_base host desk sha tip

  abbrev pub stopped : Text → List Step → PendingKind → Step → Text → Exec (Place host desk) Run
  stopped tip remaining kind step message = pure (record {
    tip = tip;
    remaining = remaining;
    conflict = some (record { kind = kind; step = step; message = message });
  })

  -- What a step that was run is followed by: the rest of the steps, or the end at a conflict.
  unfoldable pub after_step :
      Step
      → List Step
      → Text
      → (Text → Exec (Place host desk) Run)
      → Stepped
      → Exec (Place host desk) Run
  after_step step steps tip next (moved_to new_tip) = next new_tip
  after_step step steps tip next (cherry_pick_conflict message) =
      stopped tip (step ∷ steps) cherry_pick step message
  after_step step steps tip next (merge_conflict message) =
      stopped tip (step ∷ steps) merge step message

  unfoldable pub run_steps : List Step → Text → Exec (Place host desk) Run
  run_steps [] tip = pure (record { tip = tip; remaining = []; conflict = none })
  run_steps (step ∷ steps) tip =
      execute_step step tip >>= after_step step steps tip (λ new_tip. run_steps steps new_tip)
