-- ===== src/History/Resume.antt =====
-- `--continue`, `--abort`, and the choice between these and a new run.
pub mod Stopped
pub mod Conflict
pub mod OnScratch
pub mod Frame
use tunnel2tunnel.Base.{
  Bool, true, false, not, ◌&&◌, ◌||◌, Option, none, some, List, [], ◌∷◌, ◌++◌, Text, codes, ◌==◌,
  list_eq, nat_eq, if◌then◌else◌, is_some, drop,
}
use tunnel2tunnel.Base.Result.{Result, ok, err, history_master_error, key_error}
use tunnel2tunnel.Base.Exec.{Exec, gets, lift, pure, raise, ◌>>=◌, ◌>>◌}
use tunnel2tunnel.Branches.{history_name}
use tunnel2tunnel.Split.Host.{Host, move_ref, when}
use tunnel2tunnel.History.Plan.{Step, commit, base_merge, base_fold, marker}
use tunnel2tunnel.History.Checkout.{
  Checkout, Completed, Place, PendingKind, cherry_pick, merge, pick_abort, pick_continue,
  merge_abort, run_git, head_sha, conflicted_paths, cleanup_scratch, current_checkout,
  restore_checkout, refuse_if_checked_out_dirty, sync_checkout_if_current,
}
use tunnel2tunnel.History.Conflicts.{
  is_empty_cherry_pick, commit_empty, resolve_already_replayed_conflict,
  resolve_documentation_conflict,
}
use tunnel2tunnel.History.Replay.{complete_base_fold}
use tunnel2tunnel.History.Steps.{Pending}
use tunnel2tunnel.History.Update.{
  Saved, Outcome, no_op, aborted, conflicted, Ending, stop, go, Options, Repo, on_work, on_refs,
  write_state, run_and_fold, finish, ended, run_plan,
}

-- `step["sha"]`, which a marker does not have.
unfoldable pub step_sha : Step → Result Text
step_sha (commit sha) = ok sha
step_sha (base_merge sha) = ok sha
step_sha (base_fold sha) = ok sha
step_sha (marker clean_sha branch) = err key_error

module _ (host : Host) (desk : Checkout host.git.Refs) where
  unfoldable pub abort_git : PendingKind → Exec (Place host desk) Completed
  abort_git cherry_pick = run_git host desk pick_abort
  abort_git merge = run_git host desk merge_abort

  unfoldable pub abort_pending : Option Pending → Exec (Place host desk) (Unit {0})
  abort_pending none = pure tt
  abort_pending (some pending) = gets (λ place. desk.in_progress pending.kind place.1) >>= λ there.
      if there then (abort_git pending.kind >>= λ done. pure tt) else pure tt

  unfoldable pub abort_saved : Option Saved → Exec (Repo host desk) Outcome
  abort_saved none = pure no_op
  abort_saved (some saved) = do
    on_work host desk (abort_pending saved.pending)
    on_work host desk (cleanup_scratch host desk)
    on_work host desk (restore_checkout host desk saved.original_checkout)
    write_state host desk none
    pure aborted

  unfoldable pub do_abort : Exec (Repo host desk) Outcome
  do_abort = gets (λ repo. repo.saved) >>= abort_saved

  -- Behind a commit that is resolved.
  unfoldable pub go_on : Saved → Exec (Repo host desk) Ending
  go_on saved = on_work host desk (head_sha host desk) >>= λ tip.
      on_work host desk (cleanup_scratch host desk)
      >> run_and_fold host desk saved (drop 1 saved.remaining) tip

  unfoldable pub after_continue : Saved → Pending → Completed → Exec (Repo host desk) Ending
  after_continue saved pending result =
      if result.succeeded
      then go_on saved
      else (on_work host desk (is_empty_cherry_pick host desk result) >>= λ empty.
          if empty
          then (on_work host desk (commit_empty host desk) >> go_on saved)
          else (write_state host desk (some saved) >> pure (stop (conflicted pending))))

  unfoldable pub complete_merge : Saved → Step → Exec (Repo host desk) Ending
  complete_merge saved (base_fold sha) =
      on_work host desk (complete_base_fold host desk sha)
      >>= run_and_fold host desk saved (drop 1 saved.remaining)
  complete_merge saved _ = raise (history_master_error (codes "unexpected pending merge step"))

  unfoldable pub resolve_pending : Saved → Pending → PendingKind → Exec (Repo host desk) Ending
  resolve_pending saved pending cherry_pick =
      on_work host desk (conflicted_paths host desk >>= resolve_documentation_conflict host desk)
      >> lift (step_sha pending.step)
      >>= λ sha.
          on_work host desk (resolve_already_replayed_conflict host desk sha saved.tip)
          >> on_work host desk (run_git host desk pick_continue)
          >>= after_continue saved pending
  resolve_pending saved pending merge =
      on_work host desk (conflicted_paths host desk) >>= λ conflicted_paths.
      if conflicted_paths == []
      then complete_merge saved pending.step
      else pure (stop (conflicted pending))

  unfoldable pub continue_from : Saved → Option Pending → Exec (Repo host desk) Ending
  continue_from saved none = run_and_fold host desk saved saved.remaining saved.tip
  continue_from saved (some pending) =
      gets (λ repo. desk.in_progress pending.kind repo.work) >>= λ there.
      if there
      then resolve_pending saved pending pending.kind
      else raise (history_master_error (codes "not in progress"))

  unfoldable pub finish_saved : Text → Saved → Text → Exec (Repo host desk) Outcome
  finish_saved history_ref saved tip =
      finish host desk history_ref saved.original_sha saved.original_checkout tip >>= λ outcome.
      write_state host desk none >> pure outcome

  unfoldable pub continue_saved : Text → Option Saved → Exec (Repo host desk) Outcome
  continue_saved history_ref none = raise (history_master_error (codes "nothing to continue"))
  continue_saved history_ref (some saved) =
      continue_from saved saved.pending >>= ended host desk (finish_saved history_ref saved)

  unfoldable pub do_continue : Text → Exec (Repo host desk) Outcome
  do_continue history_ref = gets (λ repo. repo.saved) >>= continue_saved history_ref

  -- `fetch` runs `git fetch` and says whether it succeeded; `agrees` is the answer to a question.
  module _ (fetch : List Text → Exec host.git.Refs Bool) (agrees : Text → Bool) where
    unfoldable pub move_main : Text → Option Text → Option Text → Exec (Repo host desk) (Unit {0})
    move_main main_branch none local_sha = pure tt
    move_main main_branch (some remote_sha) local_sha =
        if elim local_sha [ none ↦ true | some sha ↦ host.git.is_ancestor sha remote_sha ]
        then (do
          on_work host desk (refuse_if_checked_out_dirty host desk main_branch)
          on_refs host desk
              (move_ref host (codes "refs/heads/" ++ main_branch) remote_sha local_sha)
          on_work host desk (sync_checkout_if_current host desk main_branch remote_sha))
        else pure tt

    unfoldable pub pull_master : Text → Exec (Repo host desk) (Unit {0})
    pull_master main_branch =
        on_refs host desk (fetch (codes "origin" ∷ main_branch ∷ [])) >>= λ fetched.
        gets (λ repo. host.git.rev_parse repo.refs (codes "refs/remotes/origin/" ++ main_branch))
        >>= λ remote_sha. gets (λ repo. host.git.rev_parse repo.refs main_branch) >>= λ local_sha.
            when fetched (move_main main_branch remote_sha local_sha)

    unfoldable pub pull_base : Exec (Repo host desk) (Unit {0})
    pull_base = on_refs host desk (fetch (codes "base" ∷ [])) >>= λ fetched. pure tt

    unfoldable pub run_on : Options → Option Text → Option Text → Exec (Repo host desk) Outcome
    run_on options checkout none = raise (history_master_error (codes "branch does not exist"))
    run_on options checkout (some master_tip) = run_plan host desk options checkout master_tip

    unfoldable pub new_run : Options → Option Saved → Exec (Repo host desk) Outcome
    new_run options (some saved) = raise (history_master_error (codes "mid-conflict"))
    new_run options none = gets (λ repo. current_checkout host desk repo.work) >>= λ checkout.
        when
          (options.pull_master
            || options.yes
            || agrees (codes "Pull " ++ (options.main_branch ++ codes "?")))
          (pull_master options.main_branch)
        >> when (options.pull_base || options.yes || agrees (codes "Pull base?")) pull_base
        >> gets (λ repo. host.git.rev_parse repo.refs options.main_branch)
        >>= run_on options checkout

    unfoldable pub update_history_master : Options → Exec (Repo host desk) Outcome
    update_history_master options =
        if options.abort
        then do_abort
        else if options.continue_run
        then do_continue (codes "refs/heads/" ++ history_name options.main_branch)
        else (gets (λ repo. repo.saved) >>= new_run options)
