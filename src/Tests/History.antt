-- ===== src/Tests/History.antt =====
-- A merge of `f` is registered, whose history conflicts when it is replayed.
use tunnel2tunnel.Base.{
  insert_by, sort_by, Bool, Option, ◌==◌, ◌≢◌, nat_eq, arith, starts_with, after_prefix, split_on,
  true, false, none, some, List, [], ◌∷◌, ◌++◌, Text, codes, ◌≡◌, refl, All, list_eq, option_eq,
  strip, lstrip, rstrip, is_space, break_at, splitlines, drop_break, is_break, lines_keep,
}
use native.Mathlib.Decide.{ℕ_discrete}
use tunnel2tunnel.Base.Dict.{lookup, insert, erase, lookup-erase}
use tunnel2tunnel.Base.Result.{ok, traverse}
use tunnel2tunnel.Base.Exec
use tunnel2tunnel.Base.Exec.{pure, gets, lift, raise}
use tunnel2tunnel.Split.Host.{move_ref, full_ref, create_branch}
use tunnel2tunnel.Git.Memory.{parse, walk_refs, walk, memory-IsLawful}
use tunnel2tunnel.Branches.{history_name, history_fork_point_ref}
use tunnel2tunnel.Trailers.{read_trailer_value, read_trailers}
use tunnel2tunnel.History.Plan.{
  Step, commit, marker, build_plan, is_marked, replay_plan, replay_from, merged_branches,
  find_newly_merged_clean_branches, tagged, forced_found, put_registered, marker_steps, sort_merged,
  branch_steps, commits_behind, fork_point_of, found_branch, has_merge_marker, is_base_merge,
  marked_by, or_sha, place_of, put_found, put_wanted, replay_step,
}
use tunnel2tunnel.History.Plan.Markers.{Once, marker_shas, build_plan-Once}
use tunnel2tunnel.History.Checkout.{
  Checkout, IsDocumented, Command, pick, pick_continue, detach, branch, Completed, Place,
  cherry_pick, asks, run_git, switch_to, delete_ref, on_git_refs, require, checked, head_sha,
  conflicted_paths, restart_scratch, checkout_scratch, leave_scratch, cleanup_scratch, is_dirty,
  scratch_ref,
}
use tunnel2tunnel.History.Conflicts.{
  is_empty_cherry_pick, resolve_already_replayed_conflict, resolve_documentation_conflict, has_part,
  is_documentation,
}
use tunnel2tunnel.History.Replay.{
  pick_message, resolve_pick, settle_pick, scratch_tip, end_pick, pick_onto, replay_commit,
}
use tunnel2tunnel.History.Steps.{Run, Pending, run_steps, execute_step, after_step}
use tunnel2tunnel.History.Steps.Resumed.{run_steps-remaining, finished, IsStopped}
use tunnel2tunnel.History.Update.{
  Saved, Options, Repo, conflicted, run_plan, run_planned, run_and_fold, after_run, save_conflict,
  write_state, on_work, ended,
}
use tunnel2tunnel.History.Resume.Stopped.{HasConflict}
use tunnel2tunnel.History.Resume.{
  do_continue, continue_saved, continue_from, resolve_pending, after_continue, step_sha,
}
use tunnel2tunnel.History.Resume.Conflict.{run_plan_conflict}
use tunnel2tunnel.History.Resume.Frame.{do_continue_conflict}
use tunnel2tunnel.Tests.Split.{git, host, objects, history_synced}

abbrev completed : Bool → Completed
completed b = record { succeeded = b; stdout = []; stderr = codes "e" }

abbrev answer : Command → Completed
answer (pick sha) = completed (sha == codes "h2")
answer pick_continue = completed false
answer _ = completed true

-- The pick of `h2` goes through, and any other stops at a conflict of the file `a`.
abbrev stubborn : Checkout git.Refs
stubborn = record {
  Work = Option Text;
  head_ref = λ work. work;
  in_progress = λ kind work. true;
  path_exists = λ path work. false;
  write_file = λ path content work. work;
  unlink = λ path work. work;
  head_sha = λ place. ok (codes "s1");
  status = λ place. ok [];
  unmerged = λ place. ok (codes "a");
  show_path_at = λ sha path. ok [];
  run = λ command place. (answer command, place);
  switch = λ to place. (
    completed true,
    (place.0, elim to [ detach sha ↦ none | branch name ↦ some (codes "refs/heads/" ++ name) ]),
  );
  delete_ref = λ ref place. (erase ref place.0, place.1);
  log_names = λ ref. ok [];
  decode = λ bytes. bytes;
  fnmatch = λ name pattern. name == pattern;
  path_name = λ path. path;
  word = λ c. true;
  repr = λ text. text;
}

stubborn-IsDocumented : IsDocumented host stubborn
stubborn-IsDocumented = record {
  ref_at-run = λ command place ref full off. refl;
  head_ref-run = λ command place. refl;
  ref_at-switch = λ to place ref full. refl;
  head_ref-detach = λ sha place done. refl;
  head_ref-branch = λ name sha place there done. refl;
  ref_at-delete_ref = λ place ref r other. ground (arith, lookup-erase r ref place.0);
  head_ref-write_file = λ path content work. refl;
  head_ref-unlink = λ path work. refl;
}

abbrev history_steps : List Step
history_steps = commit (codes "h1") ∷ marker (codes "s1") (codes "f") ∷ []

history_planned :
    build_plan git history_synced (codes "s1") (some (codes "b0")) [] ((codes "f", codes "s1") ∷ [])
    ≡ ok (history_steps, codes "b0", some (codes "s1"))
unfolding build_plan replay_plan replay_from parse lookup list_eq codes ℕ_discrete merged_branches
    find_newly_merged_clean_branches walk_refs tagged walk option_eq forced_found put_registered
    marker_steps sort_merged insert splitlines drop_break is_break lines_keep traverse break_at
    is_space lstrip rstrip strip history_fork_point_ref history_name branch_steps commits_behind
    fork_point_of found_branch has_merge_marker is_base_merge is_marked marked_by or_sha place_of
    put_found insert_by sort_by put_wanted replay_step read_trailer_value read_trailers
history_planned = refl

build_plan-Once_example :
    Once (marker_shas history_steps)
    × All
        (λ sha. is_marked git history_synced (some (codes "b0")) sha ≡ ok false)
        (marker_shas history_steps)
build_plan-Once_example =
    build_plan-Once git history_synced (codes "s1") (some (codes "b0")) []
      ((codes "f", codes "s1") ∷ []) history_planned

abbrev conflict_of_h1 : Text → Pending
conflict_of_h1 onto = record {
  kind = cherry_pick;
  step = commit (codes "h1");
  message = pick_message (codes "h1") onto (completed false);
}

abbrev two_picks : List Step
two_picks = commit (codes "h2") ∷ commit (codes "h1") ∷ []

abbrev stopped_run : Run
stopped_run = record {
  tip = codes "s1";
  remaining = commit (codes "h1") ∷ [];
  conflict = some (conflict_of_h1 (codes "s1"));
}

-- The scratch branch stays at the tip, and HEAD on it.
abbrev stopped_place : Text → Place host stubborn
stopped_place tip = (insert scratch_ref tip history_synced, some scratch_ref)

two_picks_run :
    run_steps host stubborn two_picks (codes "b0") (history_synced, none)
    ≡ (ok stopped_run, stopped_place (codes "s1"))
unfolding run_steps execute_step after_step pure gets lift raise Exec.◌>>=◌ lookup insert list_eq
    codes ℕ_discrete splitlines drop_break is_break lines_keep move_ref full_ref create_branch
    starts_with after_prefix erase asks run_git switch_to delete_ref on_git_refs require checked
    head_sha conflicted_paths restart_scratch checkout_scratch leave_scratch cleanup_scratch
    is_dirty is_empty_cherry_pick resolve_already_replayed_conflict resolve_documentation_conflict
    has_part is_documentation option_eq resolve_pick settle_pick scratch_tip end_pick pick_onto
    replay_commit split_on
two_picks_run = refl

run_steps-remaining_example :
    (done : List Step) × (middle : Place host stubborn) × (two_picks
      ≡ done ++ stopped_run.remaining)
    × (run_steps host stubborn done (codes "b0") (history_synced, none)
        ≡ (ok (finished stopped_run.tip), middle))
    × IsStopped stopped_run stopped_run.conflict
run_steps-remaining_example =
    run_steps-remaining host stubborn two_picks (codes "b0") (history_synced, none)
      (stopped_place (codes "s1")) stopped_run two_picks_run

abbrev options : Options
options = record {
  main_branch = codes "master";
  force_merge = [];
  registered_merges = (codes "f", codes "s1") ∷ [];
  pull_master = false;
  pull_base = false;
  yes = false;
  continue_run = false;
  abort = false;
  dry_run = false;
}

abbrev clean_repo : Repo host stubborn
clean_repo = record { refs = history_synced; work = none; saved = none }

abbrev saved_conflict : Saved
saved_conflict = record {
  remaining = history_steps;
  tip = codes "b0";
  force_merge = [];
  original_sha = some (codes "b0");
  pending = some (conflict_of_h1 (codes "b0"));
  original_checkout = none;
}

abbrev stopped_repo : Repo host stubborn
stopped_repo = record {
  refs = (stopped_place (codes "b0")).0;
  work = some scratch_ref;
  saved = some saved_conflict;
}

run_conflicts :
    run_plan host stubborn options none (codes "s1") clean_repo
    ≡ (ok (conflicted (conflict_of_h1 (codes "b0"))), stopped_repo)
unfolding run_plan run_planned run_and_fold after_run save_conflict write_state on_work ended
    run_steps execute_step after_step pure gets lift raise Exec.◌>>=◌ build_plan replay_plan
    replay_from parse lookup list_eq codes ℕ_discrete merged_branches
    find_newly_merged_clean_branches walk_refs tagged walk option_eq forced_found put_registered
    marker_steps sort_merged insert splitlines drop_break is_break lines_keep traverse break_at
    is_space lstrip rstrip strip history_fork_point_ref history_name branch_steps commits_behind
    fork_point_of found_branch has_merge_marker is_base_merge is_marked marked_by or_sha place_of
    put_found insert_by sort_by put_wanted replay_step read_trailer_value read_trailers move_ref
    full_ref create_branch starts_with after_prefix erase asks run_git switch_to delete_ref
    on_git_refs require checked head_sha conflicted_paths restart_scratch checkout_scratch
    leave_scratch cleanup_scratch is_dirty is_empty_cherry_pick resolve_already_replayed_conflict
    resolve_documentation_conflict has_part is_documentation resolve_pick settle_pick scratch_tip
    end_pick pick_onto replay_commit split_on
run_conflicts = refl

abbrev history_ref : Text
history_ref = codes "refs/heads/ai/history/master"

history_ref-IsFull : starts_with history_ref (codes "refs/") ≡ true
unfolding starts_with after_prefix codes ℕ_discrete
history_ref-IsFull = refl

history_ref-ne-scratch_ref : history_ref ≢ scratch_ref
unfolding codes
history_ref-ne-scratch_ref = ground arith

run_plan_conflict_example :
    (git.ref_at stopped_repo.refs history_ref ≡ git.ref_at clean_repo.refs history_ref)
    × HasConflict host stubborn (conflict_of_h1 (codes "b0")) stopped_repo
run_plan_conflict_example =
    run_plan_conflict host stubborn (memory-IsLawful objects) stubborn-IsDocumented history_ref
      history_ref-IsFull history_ref-ne-scratch_ref options none (codes "s1") clean_repo
      stopped_repo (conflict_of_h1 (codes "b0")) run_conflicts

continue_conflicts :
    do_continue host stubborn history_ref stopped_repo
    ≡ (ok (conflicted (conflict_of_h1 (codes "b0"))), stopped_repo)
unfolding do_continue continue_saved continue_from resolve_pending after_continue step_sha
    write_state on_work ended pure gets lift Exec.◌>>=◌ run_git asks conflicted_paths split_on
    resolve_documentation_conflict resolve_already_replayed_conflict is_documentation
    is_empty_cherry_pick has_part codes list_eq ℕ_discrete starts_with after_prefix
continue_conflicts = refl

do_continue_conflict_example :
    git.ref_at stopped_repo.refs history_ref ≡ git.ref_at stopped_repo.refs history_ref
do_continue_conflict_example =
    do_continue_conflict host stubborn (memory-IsLawful objects) stubborn-IsDocumented history_ref
      history_ref-IsFull history_ref-ne-scratch_ref history_ref stopped_repo stopped_repo
      (conflict_of_h1 (codes "b0")) refl continue_conflicts
