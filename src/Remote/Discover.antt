-- ===== src/Remote/Discover.antt =====
-- What the program reads of git's configuration. `GitRemotes` is what it calls of git; the
-- configuration is the state.
use tunnel2tunnel.Base.{
  Bool, not, ◌||◌, Option, none, some, List, [], ◌∷◌, ◌++◌, Text, codes, ◌==◌, list_eq, nat_eq,
  option_eq, if◌then◌else◌, strip, map, length, ltb,
}
use tunnel2tunnel.Base.Result.{Result, ok, err, multiple_urls, ◌>>=◌, traverse}
use tunnel2tunnel.Remote.Url.{Urls}
use tunnel2tunnel.Remote.UrlSelection.{RemoteUrlSelection, fetch, push, make_url_selection}
use tunnel2tunnel.Remote.Selection.{RemoteSelection, descendants}

-- What git uses for one remote: without a push URL of its own it pushes to the fetch URL.
pub record RemoteUrls : Type 0 where
  pub fetch_url : Text
  pub push_url : Text
  pub push_is_set : Bool

-- `urls_of` is an observation for the laws.
pub record GitRemotes : Type 1 where
  pub Config : Type 0
  pub urls_of : Config → Text → Option RemoteUrls
  pub remote_names : Config → Result (List Text)
  pub get_all : Config → Text → List Text
  pub get_url : Config → Text → Result Text
  pub get_push_url : Config → Text → Result Text
  pub get : Config → Text → Text
  pub get_local : Config → Text → Text
  pub run_command : List Text → Config → Result (Unit {0}) × Config

-- `value or None` of a value that git printed.
unfoldable pub or_none : Text → Option Text
or_none value = if value == [] then none else some value

unfoldable pub first_some : List (Option Text) → Option Text
first_some [] = none
first_some (none ∷ rest) = first_some rest
first_some (some value ∷ rest) = if value == [] then first_some rest else some value

-- The username of a URL.
unfoldable pub username_of : RemoteUrlSelection → Option Text
username_of s = elim s.github [ none ↦ none | some info ↦ info.username ]

unfoldable pub usernames_of : List RemoteSelection → List (Option Text)
usernames_of [] = []
usernames_of (r ∷ rs) = map username_of (descendants r) ++ usernames_of rs

module _ (git : GitRemotes) (urls : Urls) where
  -- One remote of `discover_remotes`.
  unfoldable pub discover_remote : git.Config → Text → Result RemoteSelection
  discover_remote config name =
      let fetch_urls = git.get_all config (codes "remote." ++ (name ++ codes ".url")) in
      let push_urls = git.get_all config (codes "remote." ++ (name ++ codes ".pushurl")) in
      if ltb 1 (length fetch_urls) || ltb 1 (length push_urls)
      then err (multiple_urls name)
      else (do
        fetch_url ← git.get_url config name
        push_url ← git.get_push_url config name
        fetch_selection ← make_url_selection urls fetch fetch_url
        push_selection ← make_url_selection urls push push_url
        ok (record {
          name = name;
          fetch = fetch_selection;
          push = push_selection;
          push_is_explicit = not (length push_urls == 0);
        }))

  unfoldable pub discover_remotes : git.Config → Result (List RemoteSelection)
  discover_remotes config = do
    names ← git.remote_names config
    traverse (discover_remote config) names

  unfoldable pub get_git_config_value : git.Config → Text → Option Text
  get_git_config_value config key = or_none (strip (git.get config key))

  unfoldable pub resolve_default_username :
      Option Text → List RemoteSelection → (Text → Option Text) → Text
  resolve_default_username cli_username remotes config_getter =
      let found = first_some (
        cli_username ∷ usernames_of remotes
        ++ (config_getter (codes "github.user") ∷ config_getter (codes "user.name") ∷ [])) in
      elim found [ none ↦ [] | some value ↦ value ]
