-- ===== src/History/Update.antt =====
-- `update_history_master`: a run, its continuation behind a conflict, and its abortion. The state
-- is the refs, the working tree, and the state file.
use tunnel2tunnel.Base.{
  Bool, Option, none, some, List, [], ◌++◌, Text, codes, list_eq, nat_eq, if◌then◌else◌,
  remove_prefix,
}
use tunnel2tunnel.Base.Result.{ok, history_master_error}
use tunnel2tunnel.Base.Exec.{Exec, gets, lift, pure, raise, ◌>>=◌, ◌>>◌}
use tunnel2tunnel.Branches.{history_name}
use tunnel2tunnel.Split.Host.{Host, move_ref, create_branch}
use tunnel2tunnel.History.Plan.{Step, base_fold, build_plan}
use tunnel2tunnel.History.Checkout.{
  Checkout, Place, merge, refuse_if_checked_out_dirty, sync_checkout_if_current, restore_checkout,
}
use tunnel2tunnel.History.Replay.{
  Stepped, moved_to, cherry_pick_conflict, merge_conflict, fold_base,
}
use tunnel2tunnel.History.Steps.{Run, Pending, run_steps}

-- The state file.
pub record Saved : Type 0 where
  pub remaining : List Step
  pub tip : Text
  pub force_merge : List Text
  pub original_sha : Option Text
  pub pending : Option Pending
  pub original_checkout : Option Text

pub data Outcome : Type 0 where
  no_op aborted : Outcome
  conflicted : Pending → Outcome
  planned : List Step → Outcome
  updated : Text → Outcome

-- Where a run stands before the history branch moves: it has an outcome, or a new tip.
pub data Ending : Type 0 where
  stop : Outcome → Ending
  go : Text → Ending

pub record Options : Type 0 where
  pub main_branch : Text
  pub force_merge : List Text
  pub registered_merges : List (Text × Text)
  pub pull_master : Bool
  pub pull_base : Bool
  pub yes : Bool
  pub continue_run : Bool
  pub abort : Bool
  pub dry_run : Bool

abbrev pub base_remote_ref : Text
base_remote_ref = codes "refs/remotes/base/base"

module _ (host : Host) (desk : Checkout host.git.Refs) where
  pub record Repo : Type 0 where
    pub refs : host.git.Refs
    pub work : desk.Work
    pub saved : Option Saved

  unfoldable pub on_work {ℓ} : {A : Type ℓ} → Exec (Place host desk) A → Exec Repo A
  on_work m repo =
      let out = m (repo.refs, repo.work) in (out.0, record repo { refs = out.1.0; work = out.1.1 })

  unfoldable pub on_refs {ℓ} : {A : Type ℓ} → Exec host.git.Refs A → Exec Repo A
  on_refs m repo = ((m repo.refs).0, record repo { refs = (m repo.refs).1 })

  unfoldable pub write_state : Option Saved → Exec Repo (Unit {0})
  write_state saved repo = (ok tt, record repo { saved = saved })

  -- A conflict is saved and is the outcome.
  unfoldable pub save_conflict : Saved → Pending → Exec Repo Ending
  save_conflict saved pending =
      write_state (some (record saved { pending = some pending }))
      >> pure (stop (conflicted pending))

  unfoldable pub after_fold : Saved → Text → Stepped → Exec Repo Ending
  after_fold saved base_sha (moved_to tip) = pure (go tip)
  after_fold saved base_sha (cherry_pick_conflict message) = raise (history_master_error message)
  after_fold saved base_sha (merge_conflict message) =
      save_conflict (record saved { remaining = [] })
        (record { kind = merge; step = base_fold base_sha; message = message })

  -- base/base is folded in, if the tip does not have it.
  unfoldable pub fold_latest : Saved → Text → Option Text → Exec Repo Ending
  fold_latest saved tip none = pure (go tip)
  fold_latest saved tip (some base_sha) =
      if host.git.is_ancestor base_sha tip
      then pure (go tip)
      else (on_work (fold_base host desk base_sha tip) >>= after_fold saved base_sha)

  unfoldable pub after_run : Saved → Run → Option Pending → Exec Repo Ending
  after_run saved run (some pending) =
      save_conflict (record saved { remaining = run.remaining; tip = run.tip }) pending
  after_run saved run none =
      gets (λ repo. host.git.rev_parse repo.refs base_remote_ref)
      >>= fold_latest (record saved { tip = run.tip }) run.tip

  unfoldable pub run_and_fold : Saved → List Step → Text → Exec Repo Ending
  run_and_fold saved steps tip =
      on_work (run_steps host desk steps tip) >>= λ run. after_run saved run run.conflict

  -- The history branch moves from where it was when the run began.
  unfoldable pub finish : Text → Option Text → Option Text → Text → Exec Repo Outcome
  finish history_ref old_sha checkout tip = do
    on_work
        (refuse_if_checked_out_dirty host desk (remove_prefix history_ref (codes "refs/heads/")))
    on_refs (move_ref host history_ref tip old_sha)
    on_work
        (sync_checkout_if_current host desk (remove_prefix history_ref (codes "refs/heads/")) tip)
    on_work (restore_checkout host desk checkout)
    pure (updated tip)

  unfoldable pub start : Text → Option Text → Text → Exec Repo Outcome
  start history_ref checkout tip = do
    on_refs (create_branch host history_ref tip)
    on_work (restore_checkout host desk checkout)
    pure (updated tip)

  unfoldable pub move_history : Text → Option Text → Option Text → Text → Exec Repo Outcome
  move_history history_ref none checkout tip = start history_ref checkout tip
  move_history history_ref (some old_sha) checkout tip =
      finish history_ref (some old_sha) checkout tip

  unfoldable pub ended : (Text → Exec Repo Outcome) → Ending → Exec Repo Outcome
  ended next (stop outcome) = pure outcome
  ended next (go tip) = next tip

  -- What a plan is followed by.
  unfoldable pub run_planned :
      Options
      → Option Text
      → Text
      → Option Text
      → List Step × Text × Option Text
      → Exec Repo Outcome
  run_planned options checkout history_ref old_history_sha plan =
      if options.dry_run
      then pure (planned plan.0)
      else (run_and_fold
            (record {
              remaining = [];
              tip = plan.1;
              force_merge = options.force_merge;
              original_sha = old_history_sha;
              pending = none;
              original_checkout = checkout;
            })
            plan.0 plan.1
          >>= ended (move_history history_ref old_history_sha checkout))

  -- The run behind the pulls.
  unfoldable pub run_plan : Options → Option Text → Text → Exec Repo Outcome
  run_plan options checkout master_tip =
      let history_ref = codes "refs/heads/" ++ history_name options.main_branch in
      gets (λ repo. host.git.rev_parse repo.refs history_ref) >>= λ old_history_sha.
      gets (λ repo.
        build_plan host.git repo.refs master_tip old_history_sha options.force_merge
          options.registered_merges)
      >>= λ found. lift found >>= run_planned options checkout history_ref old_history_sha
