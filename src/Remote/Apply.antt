-- ===== src/Remote/Apply.antt =====
-- What the program runs to change git's configuration.
pub mod Effects
pub mod Refined
pub mod Memory
use tunnel2tunnel.Base.{
  ℕ, Bool, true, false, not, ◌&&◌, ◌||◌, Option, none, some, List, [], ◌∷◌, ◌++◌, Text, codes, ◌==◌,
  list_eq, nat_eq, option_eq, if◌then◌else◌, strip, map, contains, length, ltb, ◌≡◌,
}
use tunnel2tunnel.Base.Dict.{Dict, lookup, insert}
use tunnel2tunnel.Base.Result.{Result, ok, err, multiple_urls, called_process_error}
use tunnel2tunnel.Base.Exec
use tunnel2tunnel.Base.Exec.{◌>>=◌, ◌>>◌, Exec, gets, lift, pure, raise}
use tunnel2tunnel.Remote.Url.{Urls, github_lfs_locksverify_key}
use tunnel2tunnel.Remote.UrlSelection.{RemoteUrlSelection, fetch, push, make_url_selection}
use tunnel2tunnel.Remote.Selection.{RemoteSelection, descendants}
use tunnel2tunnel.Remote.Plan.{Command, argv, ExecutionPlan, set_url, set_push_url}
use tunnel2tunnel.Remote.Discover.{GitRemotes, RemoteUrls, discover_remotes}

abbrev pub with_url : Text → RemoteUrls → RemoteUrls
with_url url now = record now {
  fetch_url = url;
  push_url = if now.push_is_set then now.push_url else url;
}

abbrev pub with_push_url : Text → RemoteUrls → RemoteUrls
with_push_url url now = record now { push_url = url; push_is_set = true }

-- Where the observations after `after` are those of `before` but for one remote.
abbrev pub Sets : (git : GitRemotes) → git.Config → git.Config → Text → RemoteUrls → Type 0
Sets git before after name now =
    (n : Text) → git.urls_of after n ≡ (if n == name then some now else git.urls_of before n)

-- The documented behaviour of `git remote set-url` on a remote that there is.
pub record IsLawful (git : GitRemotes) : Type 0 where
  pub run-set_url :
      (config : git.Config) (name url : Text) {now : RemoteUrls}
      → git.urls_of config name ≡ some now
      → (after : git.Config) × (git.run_command (argv (set_url name url)) config ≡ (ok tt, after))
        × Sets git config after name (with_url url now)
  pub run-set_push_url :
      (config : git.Config) (name url : Text) {now : RemoteUrls}
      → git.urls_of config name ≡ some now
      → (after : git.Config) × (git.run_command (argv (set_push_url name url)) config
          ≡ (ok tt, after))
        × Sets git config after name (with_push_url url now)

module _ (git : GitRemotes) where
  unfoldable pub run_commands : List (List Text) → Exec git.Config (Unit {0})
  run_commands [] = pure tt
  run_commands (command ∷ rest) = git.run_command command >> run_commands rest

  unfoldable pub apply_execution_plan : ExecutionPlan → Exec git.Config (Unit {0})
  apply_execution_plan plan = run_commands (map argv plan.commands)
