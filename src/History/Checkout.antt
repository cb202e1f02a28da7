-- ===== src/History/Checkout.antt =====
-- The checkout that the steps of a plan run in: git's commands on it, the scratch branch
-- (`_checkout_scratch`, `_cleanup_scratch`) and the branch that is checked out. What the commands do
-- to the working tree is git's; `IsDocumented` says which refs and which HEAD they may touch.
use tunnel2tunnel.Base.{
  ℕ, Bool, true, not, ◌&&◌, Option, none, some, List, [], ◌++◌, Text, codes, ◌==◌, ◌≡◌, ◌≢◌,
  list_eq, nat_eq, option_eq, if◌then◌else◌, keep_if, splitlines, split_on, starts_with, drop, ltb,
  length, remove_prefix, strip,
}
use tunnel2tunnel.Base.Result.{Result, ok, history_master_error}
use tunnel2tunnel.Base.Exec.{Exec, gets, pure, raise, ◌>>=◌, ◌>>◌}
use tunnel2tunnel.Split.Host.{Host, create_branch}

pub data PendingKind : Type 0 where
  cherry_pick merge : PendingKind

-- A command that ran, with its output.
pub record Completed : Type 0 where
  pub succeeded : Bool
  pub stdout : Text
  pub stderr : Text

-- The commands that work on what is checked out.
pub data Command : Type 0 where
  pick reset_hard checkout_ours add rm rm_cached : Text → Command
  pick_continue pick_abort merge_abort : Command
  commit merge_no_commit : List Text → Command

-- The commands that move HEAD to another place.
pub data Switch : Type 0 where
  detach branch : Text → Switch

pub record Checkout (Refs : Type 0) : Type 1 where
  pub Work : Type 0
  -- the full ref that HEAD is on, if it is not detached
  pub head_ref : Work → Option Text
  pub in_progress : PendingKind → Work → Bool
  pub path_exists : Text → Work → Bool
  pub write_file : Text → Text → Work → Work
  pub unlink : Text → Work → Work
  -- `git rev-parse HEAD`, `git status --porcelain` and `git diff --name-only --diff-filter=U -z`
  pub head_sha : Refs × Work → Result Text
  pub status : Refs × Work → Result Text
  pub unmerged : Refs × Work → Result Text
  pub show_path_at : Text → Text → Result Text
  pub run : Command → Refs × Work → Completed × (Refs × Work)
  pub switch : Switch → Refs × Work → Completed × (Refs × Work)
  pub delete_ref : Text → Refs × Work → Refs × Work
  -- `git log REF --name-only --pretty=format:`
  pub log_names : Text → Result Text
  -- of Python: `bytes.decode`, `fnmatch.fnmatch`, `Path.name` and the word characters of patterns
  pub decode : Text → Text
  pub fnmatch : Text → Text → Bool
  pub path_name : Text → Text
  pub word : ℕ → Bool
  -- Python's `repr` of a text
  pub repr : Text → Text

abbrev pub scratch_branch : Text
scratch_branch = codes "_base_split_scratch"

abbrev pub scratch_ref : Text
scratch_ref = codes "refs/heads/_base_split_scratch"

abbrev pub recovery_filename : Text
recovery_filename = codes ".rebase-recovery.tmp"

-- A line of the status that stands for a change of a tracked file.
unfoldable pub is_dirty : Text → Bool
is_dirty line =
    ltb 3 (length line)
    && not (starts_with line (codes "??"))
    && not (drop 3 line == recovery_filename)

module _ (host : Host) (desk : Checkout host.git.Refs) where
  abbrev pub Place : Type 0
  Place = host.git.Refs × desk.Work

  -- The documented behaviour: HEAD is moved by a switch only, which writes no ref, and another
  -- command writes no ref but the one that HEAD is on.
  pub record IsDocumented : Type 0 where
    pub ref_at-run :
        (command : Command) (place : Place) (ref : Text)
        → starts_with ref (codes "refs/") ≡ true
        → desk.head_ref place.1 ≢ some ref
        → host.git.ref_at (desk.run command place).1.0 ref ≡ host.git.ref_at place.0 ref
    pub head_ref-run :
        (command : Command) (place : Place)
        → desk.head_ref (desk.run command place).1.1 ≡ desk.head_ref place.1
    pub ref_at-switch :
        (to : Switch) (place : Place) (ref : Text)
        → starts_with ref (codes "refs/") ≡ true
        → host.git.ref_at (desk.switch to place).1.0 ref ≡ host.git.ref_at place.0 ref
    pub head_ref-detach :
        (sha : Text) (place : Place)
        → (desk.switch (detach sha) place).0.succeeded ≡ true
        → desk.head_ref (desk.switch (detach sha) place).1.1 ≡ none
    pub head_ref-branch :
        (name sha : Text) (place : Place)
        → host.git.ref_at place.0 (codes "refs/heads/" ++ name) ≡ some sha
        → (desk.switch (branch name) place).0.succeeded ≡ true
        → desk.head_ref (desk.switch (branch name) place).1.1 ≡ some (codes "refs/heads/" ++ name)
    pub ref_at-delete_ref :
        (place : Place) (ref r : Text)
        → r ≢ ref
        → host.git.ref_at (desk.delete_ref ref place).0 r ≡ host.git.ref_at place.0 r
    pub head_ref-write_file :
        (path content : Text) (work : desk.Work)
        → desk.head_ref (desk.write_file path content work) ≡ desk.head_ref work
    pub head_ref-unlink :
        (path : Text) (work : desk.Work)
        → desk.head_ref (desk.unlink path work) ≡ desk.head_ref work

  -- A question that may fail.
  unfoldable pub asks {ℓ} : {A : Type ℓ} → (Place → Result A) → Exec Place A
  asks read place = (read place, place)

  unfoldable pub run_git : Command → Exec Place Completed
  run_git command place = (ok (desk.run command place).0, (desk.run command place).1)

  unfoldable pub switch_to : Switch → Exec Place Completed
  switch_to to place = (ok (desk.switch to place).0, (desk.switch to place).1)

  unfoldable pub delete_ref : Text → Exec Place (Unit {0})
  delete_ref ref place = (ok tt, desk.delete_ref ref place)

  unfoldable pub on_files : (desk.Work → desk.Work) → Exec Place (Unit {0})
  on_files change place = (ok tt, (place.0, change place.1))

  unfoldable pub on_git_refs : Exec host.git.Refs (Unit {0}) → Exec Place (Unit {0})
  on_git_refs m place = ((m place.0).0, ((m place.0).1, place.1))

  -- What `check=True` makes of a command that failed.
  unfoldable pub require : Completed → Exec Place (Unit {0})
  require done =
      if done.succeeded then pure tt else raise (history_master_error (codes "git failed"))

  unfoldable pub checked : Command → Exec Place (Unit {0})
  checked command = run_git command >>= require

  unfoldable pub head_sha : Exec Place Text
  head_sha = asks desk.head_sha

  unfoldable pub conflicted_paths : Exec Place (List Text)
  conflicted_paths =
      asks desk.unmerged >>= λ stdout. pure (keep_if (λ path. not (path == [])) (split_on 0 stdout))

  -- Behind the test for changes: HEAD leaves the branch that it is on, and the scratch branch is
  -- made anew.
  unfoldable pub restart_scratch : Text → Exec Place (Unit {0})
  restart_scratch onto =
      switch_to (detach (codes "HEAD"))
      >> delete_ref scratch_ref
      >> on_git_refs (create_branch host scratch_ref onto)
      >> switch_to (branch scratch_branch)
      >>= require

  unfoldable pub checkout_scratch : Text → Exec Place (Unit {0})
  checkout_scratch onto = asks desk.status >>= λ stdout.
      if keep_if is_dirty (splitlines stdout) == []
      then restart_scratch onto
      else raise (history_master_error (codes "the working tree is dirty"))

  unfoldable pub leave_scratch : Text → Exec Place (Unit {0})
  leave_scratch tip =
      (switch_to (detach tip) >>= require) >> (checked (reset_hard tip) >> delete_ref scratch_ref)

  unfoldable pub cleanup_scratch : Exec Place (Unit {0})
  cleanup_scratch = head_sha >>= leave_scratch

  -- The short name of the branch that is checked out.
  unfoldable pub current_checkout : desk.Work → Option Text
  current_checkout work = elim (desk.head_ref work) [
    | none ↦ none
    | some ref ↦ some (remove_prefix ref (codes "refs/heads/"))
  ]

  unfoldable pub restore_checkout : Option Text → Exec Place (Unit {0})
  restore_checkout none = pure tt
  restore_checkout (some original) = switch_to (branch original) >>= λ done. pure tt

  unfoldable pub refuse_if_checked_out_dirty : Text → Exec Place (Unit {0})
  refuse_if_checked_out_dirty ref_short_name =
      gets (λ place. current_checkout place.1) >>= λ current.
      if current == some ref_short_name
      then (asks desk.status >>= λ stdout.
          if strip stdout == []
          then pure tt
          else raise (history_master_error (codes "checked out with uncommitted changes")))
      else pure tt

  unfoldable pub sync_checkout_if_current : Text → Text → Exec Place (Unit {0})
  sync_checkout_if_current ref_short_name new_sha =
      gets (λ place. current_checkout place.1) >>= λ current.
      if current == some ref_short_name then checked (reset_hard new_sha) else pure tt
