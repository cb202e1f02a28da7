-- ===== src/Remote/Main/Untouched.antt =====
-- A run that is cancelled.
use tunnel2tunnel.Base.{
  Bool, true, false, not, ◌||◌, Option, none, some, List, [], ◌∷◌, Text, ◌==◌, list_eq, nat_eq,
  if◌then◌else◌, ◌≡◌, refl,
}
use tunnel2tunnel.Base.Result.{Result, ok, err}
use tunnel2tunnel.Base.Exec.{Exec, gets, pure}
use tunnel2tunnel.Base.Exec.Keeps.{Keeps, Keeps-pure, Keeps-bind, Keeps-gets, Keeps-if}
use tunnel2tunnel.Remote.Url.{Urls}
use tunnel2tunnel.Remote.Selection.{RemoteSelection}
use tunnel2tunnel.Remote.Plan.{ExecutionPlan}
use tunnel2tunnel.Remote.Discover.{
  GitRemotes, discover_remotes, resolve_default_username, get_git_config_value,
}
use tunnel2tunnel.Remote.Main.{
  Session, agrees, check_and_fix_required_remotes, interactive, with_remotes, main, apply_and_fix,
  locks_only, problems, remote_urls, required_remotes, started,
}

module _ (git : GitRemotes) (urls : Urls) (ui : List RemoteSelection → Text → Option ExecutionPlan)
    (session : Session) (config : git.Config) where
  abbrev Same : git.Config → Type 0
  Same now = now ≡ config

  kept_or :
      {A : Type 0} (b : Bool) (m n : Exec git.Config A)
      → Keeps Same m
      → Keeps Same (if b || true then m else n)
  kept_or true m n h = h
  kept_or false m n h = h

  kept_else :
      {A : Type 0} (b : Bool) (m n : Exec git.Config A)
      → b ≡ false
      → Keeps Same n
      → Keeps Same (if b then m else n)
  kept_else true m n h k = cc
  kept_else false m n h k = k

  check_kept :
      (remotes : List RemoteSelection)
      → agrees urls session ≡ false
      → Keeps Same (check_and_fix_required_remotes git urls remotes session)
  unfolding check_and_fix_required_remotes
  check_kept remotes h = rw (h) (
      kept_or (problems (remote_urls [] remotes) required_remotes == []) (pure remotes) _
        (Keeps-pure remotes))

  interactive_kept :
      (remotes : List RemoteSelection)
      → ((rs : List RemoteSelection) (username : Text) → ui rs username ≡ none)
      → Keeps Same (interactive git urls ui remotes session)
  unfolding interactive
  interactive_kept remotes h =
      Keeps-bind
        (gets (λ now.
          resolve_default_username git urls session.username remotes
            (get_git_config_value git urls now)))
        (λ username. elim (ui remotes username) [
          | none ↦ pure 0
          | some plan ↦ apply_and_fix git urls ui plan
        ])
        (Keeps-gets (λ now.
          resolve_default_username git urls session.username remotes
            (get_git_config_value git urls now)))
        (λ username. rw (h remotes username) (Keeps-pure 0))

  with_remotes_kept :
      (remotes : List RemoteSelection)
      → agrees urls session ≡ false
      → session.fix_lfs_locks_only ≡ false
      → ((rs : List RemoteSelection) (username : Text) → ui rs username ≡ none)
      → Keeps Same (with_remotes git urls ui session remotes)
  unfolding with_remotes
  with_remotes_kept [] quiet plain h = Keeps-pure 1
  with_remotes_kept (r ∷ rs) quiet plain h =
      Keeps-bind (check_and_fix_required_remotes git urls (r ∷ rs) session) _
        (check_kept (r ∷ rs) quiet)
        (λ remotes. kept_else session.fix_lfs_locks_only (locks_only git urls ui remotes) _ plain (
          Keeps-if (not session.input_is_tty || not session.output_is_tty) (pure 1)
            (interactive git urls ui remotes session) (Keeps-pure 1) (interactive_kept remotes h)))

  started_kept :
      (found : Result (List RemoteSelection))
      → agrees urls session ≡ false
      → session.fix_lfs_locks_only ≡ false
      → ((rs : List RemoteSelection) (username : Text) → ui rs username ≡ none)
      → Keeps Same (started git urls ui session found)
  unfolding started
  started_kept (err e) quiet plain h = Keeps-pure 1
  started_kept (ok remotes) quiet plain h = with_remotes_kept remotes quiet plain h

-- A run that is cancelled changes nothing: where the required remotes are not to be fixed (neither
-- by an argument nor by an answer), where not only the LFS keys are asked for, and where the user interface
-- returns no plan, git's configuration is as before, whatever the run reads and however it ends.
pub main_cancelled :
    (git : GitRemotes) (urls : Urls) (ui : List RemoteSelection → Text → Option ExecutionPlan)
    (session : Session) (config : git.Config)
    → agrees urls session ≡ false
    → session.fix_lfs_locks_only ≡ false
    → ((remotes : List RemoteSelection) (username : Text) → ui remotes username ≡ none)
    → (main git urls ui session config).1 ≡ config
unfolding main
main_cancelled git urls ui session config quiet plain h =
    (started_kept git urls ui session config (discover_remotes git urls config) quiet plain h).at
      config refl
