-- ===== src/Remote/UrlSelection.antt =====
-- The check boxes of one URL: `RemoteUrlSelection` and what it is made of.
use tunnel2tunnel.Base.{
  ℕ, ◌+◌, Bool, true, false, not, ◌&&◌, Option, none, some, [], Text, ◌==◌, nat_eq, list_eq,
  if◌then◌else◌, is_some,
}
use tunnel2tunnel.Base.Result.{Result, ok, ◌>>=◌}
use tunnel2tunnel.Remote.Url.{GitHubUrlInfo, Urls, parse_github_https_url, rewrite_github_https_url}

pub data UrlKind : Type 0 where
  fetch push : UrlKind

pub data SelectionState : Type 0 where
  disabled active unchecked checked partial : SelectionState

pub record RemoteUrlSelection : Type 0 where
  pub kind : UrlKind
  pub original_url : Text
  pub github : Option GitHubUrlInfo
  pub change_username : Bool
  pub add_git_suffix : Bool

-- `int(flag)`
abbrev pub int : Bool → ℕ
int flag = if flag then 1 else 0

-- The state by the number of boxes and of those that are checked.
unfoldable pub state_of_counts : ℕ → ℕ → SelectionState
state_of_counts total selected =
    if selected == 0 then unchecked else if selected == total then checked else partial

abbrev pub eligible : RemoteUrlSelection → Bool
eligible s = is_some s.github

unfoldable pub has_git_suffix_option : RemoteUrlSelection → Bool
has_git_suffix_option s = elim s.github [ none ↦ false | some info ↦ not info.has_git_suffix ]

unfoldable pub toggleable_count : RemoteUrlSelection → ℕ
toggleable_count s = if eligible s then 1 + int (has_git_suffix_option s) else 0

unfoldable pub selected_count : RemoteUrlSelection → ℕ
selected_count s =
    if eligible s
    then int s.change_username + int (has_git_suffix_option s && s.add_git_suffix)
    else 0

unfoldable pub state : RemoteUrlSelection → SelectionState
state s =
    if not (eligible s)
    then disabled
    else if has_git_suffix_option s && s.change_username && not s.add_git_suffix
    then active
    else state_of_counts (toggleable_count s) (selected_count s)

unfoldable pub set_all : Bool → RemoteUrlSelection → RemoteUrlSelection
set_all value s =
    if not (eligible s)
    then s
    else if has_git_suffix_option s
    then record s { change_username = value; add_git_suffix = value }
    else record s { change_username = value }

-- `not github.username`
unfoldable pub lacks_username : GitHubUrlInfo → Bool
lacks_username info = elim info.username [ none ↦ true | some name ↦ name == [] ]

unfoldable pub selection_of : UrlKind → Text → Option GitHubUrlInfo → RemoteUrlSelection
selection_of kind url github = record {
  kind = kind;
  original_url = url;
  github = github;
  change_username = elim github [ none ↦ false | some info ↦ lacks_username info ];
  add_git_suffix = elim github [ none ↦ false | some info ↦ not info.has_git_suffix ];
}

module _ (urls : Urls) where
  unfoldable pub make_url_selection : UrlKind → Text → Result RemoteUrlSelection
  make_url_selection kind url = do
    github ← parse_github_https_url urls url
    ok (selection_of kind url github)

  unfoldable pub compute_target_url : RemoteUrlSelection → Text → Result Text
  compute_target_url s username =
      if not (eligible s)
      then ok s.original_url
      else if not s.change_username && not s.add_git_suffix
      then ok s.original_url
      else rewrite_github_https_url urls s.original_url username s.change_username s.add_git_suffix
