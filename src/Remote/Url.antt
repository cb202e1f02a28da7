-- ===== src/Remote/Url.antt =====
-- The parsing and rewriting of GitHub HTTPS URLs. `Urls` is what the code calls of urllib, with
-- `str.lower` and `str` of a number.
pub mod Parts
pub mod Read
pub mod Rewrite
use tunnel2tunnel.Base.{
  ℕ, ◌-◌, Bool, true, false, not, ◌&&◌, ◌||◌, Option, none, some, List, [], ◌∷◌, ◌++◌, Text, codes,
  ◌==◌, list_eq, nat_eq, option_eq, if◌then◌else◌, ends_with, split_on, keep_if, length, take,
}
use tunnel2tunnel.Base.Result.{Result, ok, err, username_required, ◌>>=◌}

pub record SplitResult : Type 0 where
  pub scheme : Text
  pub netloc : Text
  pub path : Text
  pub query : Text
  pub fragment : Text

-- `hostname`, `username` and `port` are read from the netloc.
pub record Urls : Type 0 where
  pub urlsplit : Text → Result SplitResult
  pub urlunsplit : SplitResult → Text
  pub hostname : Text → Option Text
  pub username : Text → Option Text
  pub port : Text → Result (Option ℕ)
  pub lower : Text → Text
  pub shown : ℕ → Text

pub record GitHubUrlInfo : Type 0 where
  pub original_url : Text
  pub split : SplitResult
  pub username : Option Text
  pub owner : Text
  pub repo : Text
  pub path_without_suffix : Text
  pub has_git_suffix : Bool

-- `value or default`
unfoldable pub or_default : Text → Option Text → Text
or_default default none = default
or_default default (some value) = if value == [] then default else value

abbrev pub git_suffix : Text
git_suffix = codes ".git"

-- `repo[:-4]` of a name that ends in ".git".
unfoldable pub repo_name : Text → Text
repo_name repo = if ends_with repo git_suffix then take (length repo - 4) repo else repo

unfoldable pub path_parts : Text → List Text
path_parts path = keep_if (λ part. not (part == [])) (split_on b'/' path)

unfoldable pub path_of : Text → Text → Text
path_of owner repo = b'/' ∷ (owner ++ (b'/' ∷ repo))

module _ (urls : Urls) where
  unfoldable pub is_github : SplitResult → Bool
  is_github split =
      split.scheme == codes "https"
      && urls.lower (or_default [] (urls.hostname split.netloc)) == codes "github.com"

  -- What the path's parts give.
  unfoldable pub info_of_parts : Text → SplitResult → List Text → Option GitHubUrlInfo
  info_of_parts url split [] = none
  info_of_parts url split (owner ∷ []) = none
  info_of_parts url split (owner ∷ repo ∷ []) =
      let name = repo_name repo in
      if owner == [] || repo == [] || name == []
      then none
      else some (record {
        original_url = url;
        split = split;
        username = urls.username split.netloc;
        owner = owner;
        repo = name;
        path_without_suffix = path_of owner name;
        has_git_suffix = ends_with repo git_suffix;
      })
  info_of_parts url split (owner ∷ repo ∷ third ∷ rest) = none

  unfoldable pub parse_github_https_url : Text → Result (Option GitHubUrlInfo)
  parse_github_https_url url = do
    split ← urls.urlsplit url
    if not (is_github split) then ok none else (do
      port ← urls.port split.netloc
      ok (
          if port == none || port == some 443
          then info_of_parts url split (path_parts split.path)
          else none))

  unfoldable pub with_port : Text → Option ℕ → Text
  with_port host none = host
  with_port host (some port) = host ++ (b':' ∷ urls.shown port)

  -- The netloc with the username set, or as it is.
  unfoldable pub new_netloc : Text → Bool → Text → Result Text
  new_netloc username false netloc = ok netloc
  new_netloc username true netloc = do
    port ← urls.port netloc
    ok (
        username
        ++ (b'@' ∷ with_port (or_default (codes "github.com") (urls.hostname netloc)) port))

  unfoldable pub new_path : GitHubUrlInfo → Bool → Text
  new_path info add_git_suffix =
      if info.has_git_suffix || add_git_suffix
      then info.path_without_suffix ++ git_suffix
      else info.path_without_suffix

  unfoldable pub rewritten_split : GitHubUrlInfo → Text → Bool → Bool → Result SplitResult
  rewritten_split info username set_username add_git_suffix = do
    netloc ← new_netloc username set_username info.split.netloc
    ok (record info.split { netloc = netloc; path = new_path info add_git_suffix })

  unfoldable pub rewrite_info : Text → Text → Bool → Bool → Option GitHubUrlInfo → Result Text
  rewrite_info url username set_username add_git_suffix none = ok url
  rewrite_info url username set_username add_git_suffix (some info) =
      if set_username && username == [] then err username_required else (do
        split ← rewritten_split info username set_username add_git_suffix
        ok (urls.urlunsplit split))

  unfoldable pub rewrite_github_https_url : Text → Text → Bool → Bool → Result Text
  rewrite_github_https_url url username set_username add_git_suffix = do
    info ← parse_github_https_url url
    rewrite_info url username set_username add_git_suffix info

  unfoldable pub lfs_endpoint : GitHubUrlInfo → Text
  lfs_endpoint info = urls.urlunsplit (record info.split {
    path = info.path_without_suffix ++ codes ".git/info/lfs";
    query = [];
    fragment = [];
  })

  unfoldable pub github_lfs_locksverify_key : Text → Result (Option Text)
  github_lfs_locksverify_key url = do
    info ← parse_github_https_url url
    elim info [
      | none ↦ ok none
      | some info ↦ ok (some (codes "lfs." ++ (lfs_endpoint info ++ codes ".locksverify")))
    ]
