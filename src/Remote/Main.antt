-- ===== src/Remote/Main.antt =====
-- The program: the required remotes, the LFS keys, and `main`. The user interface is an argument:
-- what it returns for the remotes and the username that it is given.
pub mod Untouched
use tunnel2tunnel.Base.{
  ℕ, Bool, true, false, not, ◌&&◌, ◌||◌, Option, none, some, List, [], ◌∷◌, ◌++◌, Text, codes, ◌==◌,
  list_eq, nat_eq, if◌then◌else◌, strip, contains,
}
use tunnel2tunnel.Base.Dict.{Dict, lookup, insert}
use tunnel2tunnel.Base.Result.{Error, Result, ok, err, called_process_error}
use tunnel2tunnel.Base.Exec.{Exec, gets, lift, pure, ◌>>=◌, ◌>>◌}
use tunnel2tunnel.Remote.Url.{Urls, github_lfs_locksverify_key}
use tunnel2tunnel.Remote.Selection.{RemoteSelection}
use tunnel2tunnel.Remote.Plan.{ExecutionPlan}
use tunnel2tunnel.Remote.Discover.{
  GitRemotes, discover_remotes, resolve_default_username, get_git_config_value,
}
use tunnel2tunnel.Remote.Apply.{apply_execution_plan}

abbrev pub required_remotes : Dict Text Text
required_remotes =
    (codes "empty", codes "https://luckydonald@github.com/EmptyAAS/empty.git")
    ∷ (codes "base", codes "https://luckydonald@github.com/luckydonald/base.git")
    ∷ []

-- `{r.name: r.fetch.original_url for r in remotes}`
unfoldable pub remote_urls : Dict Text Text → List RemoteSelection → Dict Text Text
remote_urls d [] = d
remote_urls d (r ∷ rs) = remote_urls (insert r.name r.fetch.original_url d) rs

unfoldable pub fix_command : Text → Text → Option Text → List (List Text)
fix_command name expected none =
    (codes "git" ∷ codes "remote" ∷ codes "add" ∷ name ∷ expected ∷ []) ∷ []
fix_command name expected (some actual) =
    if actual == expected
    then []
    else (codes "git" ∷ codes "remote" ∷ codes "set-url" ∷ name ∷ expected ∷ []) ∷ []

-- The commands for the required remotes that are missing or wrong.
unfoldable pub problems : Dict Text Text → Dict Text Text → List (List Text)
problems actual [] = []
problems actual ((name, expected) ∷ rest) =
    fix_command name expected (lookup name actual) ++ problems actual rest

-- `except GitCommandError`
unfoldable pub except_git {ℓ κ} : {S : Type ℓ} {A : Type κ} → Exec S A → Result A × S → Result A × S
except_git handler (err called_process_error, after) = handler after
except_git handler (err e, after) = (err e, after)
except_git handler (ok x, after) = (ok x, after)

unfoldable pub original_urls : List RemoteSelection → List Text
original_urls [] = []
original_urls (r ∷ rs) = r.fetch.original_url ∷ r.push.original_url ∷ original_urls rs

-- The command line, and the terminal: whether there is one, and the answer to the question.
pub record Session : Type 0 where
  pub username : Option Text
  pub fix_lfs_locks_only : Bool
  pub fix_remotes : Bool
  pub input_is_tty : Bool
  pub output_is_tty : Bool
  pub answer : Text

abbrev pub locksverify_command : Text → List Text
locksverify_command key = codes "git" ∷ codes "config" ∷ codes "--local" ∷ key ∷ codes "false" ∷ []

-- Whether the required remotes are to be fixed.
unfoldable pub agrees : Urls → Session → Bool
agrees urls session =
    session.fix_remotes
    || (session.input_is_tty
        && contains ([] ∷ codes "y" ∷ codes "yes" ∷ []) (urls.lower (strip session.answer)))

module _ (git : GitRemotes) (urls : Urls) where
  unfoldable pub discovered : Exec git.Config (List RemoteSelection)
  discovered now = (discover_remotes git urls now, now)

  -- The loop of `apply_lfs_locksverify_fix`: the keys that it changed.
  unfoldable pub fix_keys : List Text → List Text → Exec git.Config (List Text)
  fix_keys seen [] = pure []
  fix_keys seen (url ∷ rest) =
      let skipped = fix_keys seen rest in
      let gone_on : Text → Exec git.Config (List Text) = λ key. fix_keys (key ∷ seen) rest in
      lift (github_lfs_locksverify_key urls url) >>= λ found. elim found [
        | none ↦ skipped
        | some key ↦
            if contains seen key
            then skipped
            else (gets (λ now. strip (git.get_local now key)) >>= λ current.
                if urls.lower current == codes "false" then gone_on key else (do
                  git.run_command (locksverify_command key)
                  keys ← gone_on key
                  pure (key ∷ keys)))
      ]

  unfoldable pub apply_lfs_locksverify_fix :
      Option (List RemoteSelection) → Exec git.Config (List Text)
  apply_lfs_locksverify_fix (some remotes) = fix_keys [] (original_urls remotes)
  apply_lfs_locksverify_fix none = do remotes ← discovered; fix_keys [] (original_urls remotes)

  -- Each command is tried; one that fails is reported.
  unfoldable pub try_commands : List (List Text) → Exec git.Config (Unit {0})
  try_commands [] = pure tt
  try_commands (command ∷ rest) = do
    (λ now. except_git (pure tt) (git.run_command command now))
    try_commands rest

  unfoldable pub check_and_fix_required_remotes :
      List RemoteSelection → Session → Exec git.Config (List RemoteSelection)
  check_and_fix_required_remotes remotes session =
      let commands = problems (remote_urls [] remotes) required_remotes in
      if commands == [] || not (agrees urls session)
      then pure remotes
      else (do try_commands commands; discovered)

  module _ (ui : List RemoteSelection → Text → Option ExecutionPlan) where
    unfoldable pub apply_and_fix : ExecutionPlan → Exec git.Config ℕ
    apply_and_fix plan now =
        except_git (pure 1)
          ((do apply_execution_plan git plan; keys ← apply_lfs_locksverify_fix none; pure 0) now)

    unfoldable pub interactive : List RemoteSelection → Session → Exec git.Config ℕ
    interactive remotes session =
        gets (λ now.
          resolve_default_username git urls session.username remotes
            (get_git_config_value git urls now))
        >>= λ username. elim (ui remotes username) [
          | none ↦ pure 0
          | some plan ↦ apply_and_fix plan
        ]

    unfoldable pub locks_only : List RemoteSelection → Exec git.Config ℕ
    locks_only remotes now =
        except_git (pure 1) ((do keys ← apply_lfs_locksverify_fix (some remotes); pure 0) now)

    unfoldable pub with_remotes : Session → List RemoteSelection → Exec git.Config ℕ
    with_remotes session [] = pure 1
    with_remotes session (r ∷ rs) = do
      remotes ← check_and_fix_required_remotes (r ∷ rs) session
      if session.fix_lfs_locks_only
          then locks_only remotes
          else if not session.input_is_tty || not session.output_is_tty
          then pure 1
          else interactive remotes session

    -- An error of the first reading is caught.
    unfoldable pub started : Session → Result (List RemoteSelection) → Exec git.Config ℕ
    started session (err e) = pure 1
    started session (ok remotes) = with_remotes session remotes

    -- The exit status.
    unfoldable pub main : Session → Exec git.Config ℕ
    main session now = started session (discover_remotes git urls now) now
