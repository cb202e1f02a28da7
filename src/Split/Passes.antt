-- ===== src/Split/Passes.antt =====
-- `kind_for` and `sync_branch`: the clean pass and the history pass.
pub mod Frame
pub mod Content
pub mod Counts
use tunnel2tunnel.Base.{
  ℕ, ◌+◌, Bool, true, false, not, ◌&&◌, ◌||◌, Option, none, some, List, [], ◌∷◌, ◌++◌, Text, codes,
  ◌==◌, list_eq, nat_eq, option_eq, if◌then◌else◌, length, last?, join, ltb,
}
use tunnel2tunnel.Base.Result.{
  Result, ok, err, Target, to_clean, to_history, unclean_merge_detected, assertion_error,
}
use tunnel2tunnel.Base.Exec.{Exec, pure, raise, lift, gets, ◌>>=◌, ◌>>◌}
use tunnel2tunnel.Git.{Git, CommitSpec, Author}
use tunnel2tunnel.Branches.{unclean_name, history_name, history_fork_point_ref}
use tunnel2tunnel.Classify.{CommitClassification, classify_commit}
use tunnel2tunnel.TreeOps.{build_filtered_tree}
use tunnel2tunnel.Trailers.{strip_trailers_with_prefix}
use tunnel2tunnel.Identity.{CommitIdentity, resolve_identity}
use tunnel2tunnel.Split.Host.{Host, move_ref, create_branch, when}
use tunnel2tunnel.Split.Commit.{make_split_commit}
use tunnel2tunnel.Split.Cursor.{
  source_trailer, kind_trailer, counterpart_tree_trailer, original_merge_parents_trailer,
  clean_commit_trailer, forward_cursor_ref, source_shas,
}

unfoldable pub kind_for : CommitClassification → Text
kind_for c =
    if c.is_ai_only_commit
    then codes "history"
    else if not c.is_ai_tainted_commit
    then codes "code"
    else codes "mixed"

pub record SyncSplitsResult : Type 0 where
  pub branch : Text
  pub clean_ref : Text
  pub clean_commits_created : ℕ
  pub clean_commits_skipped_ai_only : ℕ
  pub clean_commits_skipped_noop : ℕ
  pub history_ref : Text
  pub history_commits_created : ℕ

-- The variables of the clean pass.
pub record CleanPass : Type 0 where
  pub clean_tip : Text
  pub source_to_clean_commit : List (Text × Text)
  pub created : ℕ
  pub skipped_ai_only : ℕ
  pub skipped_noop : ℕ

-- The variables of the history pass.
pub record HistoryPass : Type 0 where
  pub history_tip : Text
  pub created : ℕ

unfoldable pub clean_commit_of : Text → List (Text × Text) → Option Text
clean_commit_of source [] = none
clean_commit_of source ((s, c) ∷ dict) = if s == source then some c else clean_commit_of source dict

module _ (host : Host) where
  open host use {git}

  -- The tip of a branch, or the base branch's tip, at which it is then created.
  unfoldable pub started : Text → Bool → Option Text → Option Text → Exec git.Refs Text
  started ref dry_run (some tip) base = pure tip
  started ref dry_run none none = raise assertion_error
  started ref dry_run none (some base_tip) = do
    when (not dry_run) (create_branch host ref base_tip)
    pure base_tip

  unfoldable pub ensure_branch_started : Text → Text → Bool → Exec git.Refs Text
  ensure_branch_started ref base_ref dry_run = do
    tip ← gets (λ refs. git.rev_parse refs ref)
    base ← gets (λ refs. git.rev_parse refs base_ref)
    started ref dry_run tip base

  -- A merge commit, unless it is flattened, stops the pass; what the pass has made is kept.
  unfoldable pub stop_at_merge :
      Bool → Bool → Bool → Text → Text → Target → Text → List Text → Exec git.Refs (Unit {0})
  stop_at_merge false dry_run made ref tip target source parents = pure tt
  stop_at_merge true dry_run made ref tip target source parents = do
    when (not dry_run && made) (move_ref host ref tip none)
    raise (unclean_merge_detected source parents target)

  unfoldable pub classified : Text → Exec git.Refs CommitClassification
  classified source = do
    subject ← lift (git.subject_for_commit source)
    paths ← lift (git.changed_paths_for_commit source)
    pure (classify_commit host.is_ai_path host.is_ai_subject source subject paths)

  -- The new commit, unless the filtered tree is the tip's.
  unfoldable pub add_clean_commit : Bool → Text → Text → Text → CleanPass → Exec git.Refs CleanPass
  add_clean_commit true source kind clean_tree pass =
      pure (record pass { skipped_noop = pass.skipped_noop + 1 })
  add_clean_commit false source kind clean_tree pass = do
    new_clean_tip ← lift (make_split_commit host pass.clean_tip clean_tree source kind [] false)
    pure (record pass {
      clean_tip = new_clean_tip;
      source_to_clean_commit = (source, new_clean_tip) ∷ pass.source_to_clean_commit;
      created = pass.created + 1;
    })

  -- What the clean pass does with a commit, by whether it is AI-only.
  unfoldable pub clean_commit : Bool → Text → Text → CleanPass → Exec git.Refs CleanPass
  clean_commit true source kind pass =
      pure (record pass { skipped_ai_only = pass.skipped_ai_only + 1 })
  clean_commit false source kind pass = do
    tip_tree ← lift (git.tree_for_commit pass.clean_tip)
    clean_tree ← lift (build_filtered_tree git tip_tree source (λ p. not (host.is_ai_path p)))
    add_clean_commit (clean_tree == tip_tree) source kind clean_tree pass

  -- One round of the clean pass.
  unfoldable pub clean_step : Bool → Bool → Text → Text → CleanPass → Exec git.Refs CleanPass
  clean_step dry_run fake_merges clean_ref source pass = do
    parents ← lift (git.parents_of source)
    let is_merge = ltb 1 (length parents) && not fake_merges
    stop_at_merge is_merge dry_run (ltb 0 pass.created) clean_ref pass.clean_tip to_clean source
        parents
    cls ← classified source
    clean_commit cls.is_ai_only_commit source (kind_for cls) pass

  unfoldable pub clean_loop : Bool → Bool → Text → List Text → CleanPass → Exec git.Refs CleanPass
  clean_loop dry_run fake_merges clean_ref [] pass = pure pass
  clean_loop dry_run fake_merges clean_ref (source ∷ sources) pass =
      clean_step dry_run fake_merges clean_ref source pass
      >>= clean_loop dry_run fake_merges clean_ref sources

  -- The trailers that tie a history commit to its clean commit and to a flattened merge.
  unfoldable pub counterpart_trailers : Option Text → Exec git.Refs (List (Text × Text))
  counterpart_trailers none = pure []
  counterpart_trailers (some commit) = do
    tree ← lift (git.tree_for_commit commit)
    pure ((clean_commit_trailer, commit) ∷ (counterpart_tree_trailer, tree) ∷ [])

  -- One round of the history pass.
  unfoldable pub history_step :
      Bool → Bool → Text → List (Text × Text) → Text → HistoryPass → Exec git.Refs HistoryPass
  history_step dry_run fake_merges history_ref clean_commits source pass = do
    parents ← lift (git.parents_of source)
    let is_merge = ltb 1 (length parents) && not fake_merges
    stop_at_merge is_merge dry_run (ltb 0 pass.created) history_ref pass.history_tip to_history
        source parents
    cls ← classified source
    tip_tree ← lift (git.tree_for_commit pass.history_tip)
    history_tree ← lift (build_filtered_tree git tip_tree source host.is_ai_path)
    counterpart ← counterpart_trailers (clean_commit_of source clean_commits)
    let merged =
        if ltb 1 (length parents)
        then (original_merge_parents_trailer, join (codes " ") parents) ∷ []
        else []
    new_history_tip ← lift (
        make_split_commit host pass.history_tip history_tree source (kind_for cls)
          (counterpart ++ merged) true)
    pure (record { history_tip = new_history_tip; created = pass.created + 1 })

  unfoldable pub history_loop :
      Bool → Bool → Text → List (Text × Text) → List Text → HistoryPass → Exec git.Refs HistoryPass
  history_loop dry_run fake_merges history_ref clean_commits [] pass = pure pass
  history_loop dry_run fake_merges history_ref clean_commits (source ∷ sources) pass =
      history_step dry_run fake_merges history_ref clean_commits source pass
      >>= history_loop dry_run fake_merges history_ref clean_commits sources

  unfoldable pub move_cursor : Bool → Text → Target → Option Text → Exec git.Refs (Unit {0})
  move_cursor dry_run base_branch target none = pure tt
  move_cursor dry_run base_branch target (some last) =
      when (not dry_run) (move_ref host (forward_cursor_ref base_branch target) last none)

  -- The moves at the end of a pass: the branch, if it grew, and the cursor, if there were sources.
  unfoldable pub finish_pass :
      Bool → Bool → Text → Text → Text → Target → List Text → Exec git.Refs (Unit {0})
  finish_pass dry_run made ref tip base_branch target sources = do
    when (not dry_run && made) (move_ref host ref tip none)
    move_cursor dry_run base_branch target (last? sources)

  unfoldable pub clean_pass : Text → Text → Bool → Bool → Text → Exec git.Refs CleanPass
  clean_pass base_branch main_branch dry_run fake_merges clean_tip = do
    found ← gets (λ refs.
        source_shas git refs base_branch to_clean base_branch (unclean_name base_branch)
          main_branch)
    sources ← lift found
    pass ← clean_loop dry_run fake_merges base_branch sources (record {
      clean_tip = clean_tip;
      source_to_clean_commit = [];
      created = 0;
      skipped_ai_only = 0;
      skipped_noop = 0;
    })
    finish_pass dry_run (ltb 0 pass.created) base_branch pass.clean_tip base_branch to_clean sources
    pure pass

  unfoldable pub history_pass :
      Text → Text → Bool → Bool → List (Text × Text) → Text → Exec git.Refs HistoryPass
  history_pass base_branch main_branch dry_run fake_merges clean_commits history_tip = do
    let history_ref = history_name base_branch
    found ← gets (λ refs.
        source_shas git refs base_branch to_history history_ref (unclean_name base_branch)
          (history_name main_branch))
    sources ← lift found
    pass ←
        history_loop dry_run fake_merges history_ref clean_commits sources
          (record { history_tip = history_tip; created = 0 })
    finish_pass dry_run (ltb 0 pass.created) history_ref pass.history_tip base_branch to_history
        sources
    pure pass

  unfoldable pub sync_branch : Text → Text → Bool → Bool → Exec git.Refs SyncSplitsResult
  sync_branch base_branch main_branch dry_run fake_merges = do
    let history_ref = history_name base_branch
    clean_tip ← ensure_branch_started base_branch main_branch dry_run
    existing ← gets (λ refs. git.rev_parse refs history_ref)
    history_tip ← ensure_branch_started history_ref (history_name main_branch) dry_run
    when (existing == none && not dry_run)
        (create_branch host (history_fork_point_ref base_branch) history_tip)
    clean ← clean_pass base_branch main_branch dry_run fake_merges clean_tip
    history ←
        history_pass base_branch main_branch dry_run fake_merges clean.source_to_clean_commit
          history_tip
    pure (record {
      branch = base_branch;
      clean_ref = base_branch;
      clean_commits_created = clean.created;
      clean_commits_skipped_ai_only = clean.skipped_ai_only;
      clean_commits_skipped_noop = clean.skipped_noop;
      history_ref = history_ref;
      history_commits_created = history.created;
    })
