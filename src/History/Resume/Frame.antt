-- ===== src/History/Resume/Frame.antt =====
-- What an abortion and a continuation leave of the refs, where HEAD is on the scratch branch, as a
-- conflict leaves it.
use tunnel2tunnel.Base.{
  true, Option, none, some, List, [], Text, codes, ◌≡◌, ◌≢◌, refl, ap, starts_with, ◌==◌, list_eq,
  nat_eq,
}
use tunnel2tunnel.Base.Result.{Error, Result, ok, err}
use tunnel2tunnel.Base.Exec.{gets, raise, ◌>>=◌, >>=-eq-ok}
use tunnel2tunnel.Base.Exec.Keeps.{Keeps, Keeps-bind, Keeps-pure, Keeps-raise}
use mathlib.Core.Path.{subst}
use tunnel2tunnel.Base.Exec.Returns.{Returns, Returns-bind, Returns-then, Returns-pure}
use tunnel2tunnel.History.Resume.Conflict.{IsUpdated, IsUpdated-finish, ended_conflict}
use tunnel2tunnel.Git.{IsLawful}
use tunnel2tunnel.Split.Host.{Host}
use tunnel2tunnel.History.Plan.{Step, commit, base_merge, base_fold, marker}
use tunnel2tunnel.History.Checkout.{
  Checkout, Completed, IsDocumented, PendingKind, cherry_pick, merge, scratch_ref, pick_continue,
}
use tunnel2tunnel.History.Replay.Scratch.{Works-bind}
use tunnel2tunnel.History.Replay.Entered.{cleanup_scratch-Keeps}
use tunnel2tunnel.History.Replay.Frame.{complete_fold-Leaves}
use tunnel2tunnel.History.Replay.Resolved.{
  run_git-Works, conflicted_paths-Works, head_sha-Works, is_empty-Works, commit_empty-Works,
  already_replayed-Works, documentation-Works,
}
use tunnel2tunnel.History.Steps.{Pending}
use tunnel2tunnel.History.Update.{Saved, Outcome, conflicted, Ending, Repo, run_and_fold, ended}
use tunnel2tunnel.History.Resume.{
  go_on, after_continue, complete_merge, resolve_pending, continue_from, step_sha, continue_saved,
  do_continue, finish_saved,
}
use tunnel2tunnel.History.Resume.OnScratch.{
  Same, On, Ends, Stands-on_work, Stands-gets, Stands-lift, Stands-bind, Ends-Keeps, Ends-if,
  Ends-bind, leave_work,
}
use tunnel2tunnel.History.Resume.Stopped.{on_work-Keeps, write_state-Keeps, run_and_fold-Keeps}

finish_saved-IsUpdated :
    (host : Host) (desk : Checkout host.git.Refs) (history_ref : Text) (saved : Saved) (tip : Text)
    → Returns IsUpdated (finish_saved host desk history_ref saved tip)
unfolding finish_saved
finish_saved-IsUpdated host desk history_ref saved tip =
    Returns-bind _ _
      (IsUpdated-finish host desk history_ref saved.original_sha saved.original_checkout tip)
      (λ outcome there. Returns-then _ _ (λ x. Returns-pure outcome there))

module _ (host : Host) (desk : Checkout host.git.Refs) (law : IsLawful host.git)
    (doc : IsDocumented host desk) (ref : Text) (value : Option Text)
    (full : starts_with ref (codes "refs/") ≡ true) (other : ref ≢ scratch_ref) where
  run_and_fold-Ends :
      (saved : Saved) (steps : List Step) (tip : Text)
      → Ends host desk ref value (run_and_fold host desk saved steps tip)
  run_and_fold-Ends saved steps tip =
      Ends-Keeps _ _ _ _ (run_and_fold-Keeps host desk law doc ref value full other saved steps tip)

  go_on-Ends : (saved : Saved) → Ends host desk ref value (go_on host desk saved)
  unfolding go_on
  go_on-Ends saved =
      Ends-bind _ _ _ _ _ _
        (Stands-on_work _ _ _ _ _ (head_sha-Works host desk law doc ref value full other))
        (λ tip. Ends-Keeps _ _ _ _ (
          Keeps-bind _ _
            (on_work-Keeps host desk law doc ref value full other _
              (cleanup_scratch-Keeps host desk law doc ref value full other))
            (λ x. run_and_fold-Keeps host desk law doc ref value full other saved _ tip)))

  after_continue-Ends :
      (saved : Saved) (pending : Pending) (result : Completed)
      → Ends host desk ref value (after_continue host desk saved pending result)
  unfolding after_continue
  after_continue-Ends saved pending result =
      Ends-if _ _ _ _ result.succeeded _ _ (go_on-Ends saved) (
        Ends-bind _ _ _ _ _ _
          (Stands-on_work _ _ _ _ _ (is_empty-Works host desk law doc ref value full other result))
          (λ empty.
            Ends-if _ _ _ _ empty _ _
              (Ends-bind _ _ _ _ _ _
                (Stands-on_work _ _ _ _ _
                  (commit_empty-Works host desk law doc ref value full other))
                (λ x. go_on-Ends saved))
              (Ends-Keeps _ _ _ _ (
                Keeps-bind _ _ (write_state-Keeps host desk law doc ref value full other _)
                  (λ x. Keeps-pure _)))))

  complete_merge-Ends :
      (saved : Saved) (step : Step) → Ends host desk ref value (complete_merge host desk saved step)
  unfolding complete_merge
  complete_merge-Ends saved (base_fold sha) =
      leave_work _ _ _ _ _ _ (complete_fold-Leaves host desk law doc ref value full other sha)
        (run_and_fold-Keeps host desk law doc ref value full other saved _)
  complete_merge-Ends saved (commit sha) = Ends-Keeps _ _ _ _ (Keeps-raise _)
  complete_merge-Ends saved (base_merge sha) = Ends-Keeps _ _ _ _ (Keeps-raise _)
  complete_merge-Ends saved (marker sha b) = Ends-Keeps _ _ _ _ (Keeps-raise _)

  resolve_pending-Ends :
      (saved : Saved) (pending : Pending) (kind : PendingKind)
      → Ends host desk ref value (resolve_pending host desk saved pending kind)
  unfolding resolve_pending
  resolve_pending-Ends saved pending cherry_pick =
      Ends-bind _ _ _ _ _ _
        (Stands-bind _ _ _ _ _ _
          (Stands-on_work _ _ _ _ _ (
            Works-bind _ _ _ _ _ _ (conflicted_paths-Works host desk law doc ref value full other)
              (documentation-Works host desk law doc ref value full other)))
          (λ x. Stands-lift _ _ _ _ (step_sha pending.step)))
        (λ sha.
          Ends-bind _ _ _ _ _ _
            (Stands-bind _ _ _ _ _ _
              (Stands-on_work _ _ _ _ _
                (already_replayed-Works host desk law doc ref value full other sha saved.tip))
              (λ x.
                Stands-on_work _ _ _ _ _
                  (run_git-Works host desk law doc ref value full other pick_continue)))
            (after_continue-Ends saved pending))
  resolve_pending-Ends saved pending merge =
      Ends-bind _ _ _ _ _ _
        (Stands-on_work _ _ _ _ _ (conflicted_paths-Works host desk law doc ref value full other))
        (λ paths.
          Ends-if _ _ _ _ (paths == []) _ _ (complete_merge-Ends saved pending.step)
            (Ends-Keeps _ _ _ _ (Keeps-pure _)))

  continue_from-Ends :
      (saved : Saved) (pending : Option Pending)
      → Ends host desk ref value (continue_from host desk saved pending)
  unfolding continue_from
  continue_from-Ends saved none = run_and_fold-Ends saved saved.remaining saved.tip
  continue_from-Ends saved (some pending) = Ends-bind _ _ _ _ _ _ (Stands-gets _ _ _ _ _) (λ there.
      Ends-if _ _ _ _ there _ _ (resolve_pending-Ends saved pending pending.kind)
        (Ends-Keeps _ _ _ _ (Keeps-raise _)))

  continue_saved-conflict :
      (history_ref : Text) (found : Option Saved) (before after : Repo host desk)
      (pending : Pending)
      → On host desk ref value before
      → continue_saved host desk history_ref found before ≡ (ok (conflicted pending), after)
      → Same host desk ref value after
  unfolding continue_saved raise
  continue_saved-conflict history_ref none before after pending on h =
      absurd (clash (ap (λ t. t.0) h))
    where
      clash : {e : Error} {o : Outcome} → err e ≡ ok o → ⊥
      clash p = cc
  continue_saved-conflict history_ref (some saved) before after pending on h =
      let (ending, middle, first, rest) =
        >>=-eq-ok (continue_from host desk saved saved.pending)
          (ended host desk (finish_saved host desk history_ref saved)) h in
      let (is_stop, is_after) =
        ended_conflict host desk (finish_saved host desk history_ref saved) ending middle after
          pending (λ tip. finish_saved-IsUpdated host desk history_ref saved tip) rest in
      subst (Same host desk ref value) is_after (
        subst (λ (t : Result Ending × Repo host desk). Same host desk ref value t.1) first
          ((continue_from-Ends saved saved.pending).at before on))

-- A continuation from a checkout with HEAD on the scratch branch that stops at a conflict leaves every
-- full ref but the scratch branch as it was, the history branch included. It is assumed that git's
-- commands move HEAD and write refs as documented.
pub do_continue_conflict :
    (host : Host) (desk : Checkout host.git.Refs) (law : IsLawful host.git)
    (doc : IsDocumented host desk) (ref : Text) (full : starts_with ref (codes "refs/") ≡ true)
    (other : ref ≢ scratch_ref) (history_ref : Text) (before after : Repo host desk)
    (pending : Pending)
    → desk.head_ref before.work ≡ some scratch_ref
    → do_continue host desk history_ref before ≡ (ok (conflicted pending), after)
    → host.git.ref_at after.refs ref ≡ host.git.ref_at before.refs ref
unfolding do_continue gets ◌>>=◌
do_continue_conflict host desk law doc ref full other history_ref before after pending on h =
    continue_saved-conflict host desk law doc ref (host.git.ref_at before.refs ref) full other
      history_ref before.saved before after pending (refl, on) h
