-- ===== src/Tests/Remote.antt =====
-- One remote of GitHub without a username, read by a small parser of HTTPS URLs.
use tunnel2tunnel.Base.{
  true, false, Option, none, some, [], ◌∷◌, ◌++◌, Text, codes, ◌≡◌, map, leb, ◌&&◌, strip, lstrip,
  rstrip, ends_with, starts_with, option_eq, split_on, is_space, ◌↔◌, refl, ◌≤◌, ◌<◌, ◌+◌, nat_eq,
  list_eq, break_at, after_prefix, if◌then◌else◌, All, contains,
}
use native.Mathlib.Decide.{ℕ_discrete}
use tunnel2tunnel.Base.Dict.{lookup}
use tunnel2tunnel.Base.Result.{ok, traverse}
use tunnel2tunnel.Remote.Url.{
  SplitResult, Urls, GitHubUrlInfo, rewrite_github_https_url, parse_github_https_url, is_github,
  or_default, rewrite_info, info_of_parts, path_parts, repo_name, rewritten_split, new_netloc,
  with_port, new_path, path_of,
}
use tunnel2tunnel.Remote.UrlSelection.{
  fetch, push, selection_of, lacks_username, compute_target_url, disabled, checked, unchecked,
  partial,
}
use tunnel2tunnel.Remote.Selection.{
  RemoteSelection, selected_count, toggleable_count, state, requires_username, set_all,
}
use tunnel2tunnel.Remote.Selection.Boxes.{selected_count_bound, state_lem, set_all_counts}
use tunnel2tunnel.Remote.Plan.{
  ExecutionPlan, set_url, targets_of, plan_of, previews_of, commands_of, build_execution_plan,
}
use tunnel2tunnel.Remote.Discover.{RemoteUrls}
use tunnel2tunnel.Remote.Apply.{apply_execution_plan}
use tunnel2tunnel.Remote.Apply.Memory.{Table, memory, memory-IsLawful}
use tunnel2tunnel.Remote.Apply.Effects.{IsRead}
use tunnel2tunnel.Remote.Apply.Refined.{IsTarget, names, apply_execution_plan-build_execution_plan}
use tunnel2tunnel.Remote.Main.{Session, main, agrees}
use tunnel2tunnel.Remote.Main.Untouched.{main_cancelled}

abbrev pub host_after : Text → Text → Text
host_after first [] = first
host_after first (at ∷ host) = host

abbrev pub user_before : Text → Text → Option Text
user_before first [] = none
user_before first (at ∷ host) = some first

abbrev pub urlsplit_simple : Option Text → SplitResult
urlsplit_simple none = record { scheme = []; netloc = []; path = []; query = []; fragment = [] }
urlsplit_simple (some rest) = record {
  scheme = codes "https";
  netloc = (break_at b'/' rest).0;
  path = (break_at b'/' rest).1;
  query = [];
  fragment = [];
}

abbrev pub simple_urls : Urls
simple_urls = record {
  urlsplit = λ url. ok (urlsplit_simple (after_prefix (codes "https://") url));
  urlunsplit = λ split. codes "https://" ++ (split.netloc ++ split.path);
  hostname = λ netloc. some (host_after (break_at b'@' netloc).0 (break_at b'@' netloc).1);
  username = λ netloc. user_before (break_at b'@' netloc).0 (break_at b'@' netloc).1;
  port = λ netloc. ok none;
  lower = λ s. map (λ c. if leb b'A' c && leb c b'Z' then c + 32 else c) s;
  shown = λ n. (b'0' + n) ∷ [];
}

abbrev pub old_url : Text
old_url = codes "https://github.com/o/r"

abbrev pub new_url : Text
new_url = codes "https://me@github.com/o/r.git"

abbrev pub info : GitHubUrlInfo
info = record {
  original_url = old_url;
  split = urlsplit_simple (some (codes "github.com/o/r"));
  username = none;
  owner = codes "o";
  repo = codes "r";
  path_without_suffix = codes "/o/r";
  has_git_suffix = false;
}

abbrev pub origin : RemoteSelection
origin = record {
  name = codes "origin";
  fetch = selection_of fetch old_url (some info);
  push = selection_of push old_url (some info);
  push_is_explicit = false;
}

selected_count_bound_example :
    (selected_count origin ≤ toggleable_count origin) × (toggleable_count origin ≤ 4)
selected_count_bound_example = selected_count_bound origin

set_all_counts_example :
    (toggleable_count (set_all false origin) ≡ toggleable_count origin)
    × (selected_count (set_all false origin) ≡ 0)
set_all_counts_example = set_all_counts false origin

state_lem_example :
    (state origin ≡ disabled ↔ toggleable_count origin ≡ 0)
    × (state origin ≡ checked
        ↔ (0 < toggleable_count origin) × (selected_count origin ≡ toggleable_count origin))
    × (state origin ≡ unchecked ↔ (0 < toggleable_count origin) × (selected_count origin ≡ 0))
    × (state origin ≡ partial
        ↔ (0 < selected_count origin) × (selected_count origin < toggleable_count origin))
state_lem_example = state_lem origin

abbrev urls_before : RemoteUrls
urls_before = record { fetch_url = old_url; push_url = old_url; push_is_set = false }

abbrev table : Table
table = (codes "origin", urls_before) ∷ []

abbrev pub username_plan : ExecutionPlan
username_plan = record {
  previews =
      record { remote_name = codes "origin"; kind = fetch; old_url = old_url; new_url = new_url }
      ∷ record { remote_name = codes "origin"; kind = push; old_url = old_url; new_url = new_url }
      ∷ [];
  commands = set_url (codes "origin") new_url ∷ [];
}

origin-IsRead : IsRead (λ name. lookup name table) origin
unfolding lookup codes list_eq ℕ_discrete selection_of
origin-IsRead = record {
  now = urls_before;
  is_there = refl;
  fetch_read = refl;
  push_read = refl;
  explicit_read = refl;
  default_push = λ h. refl;
}

pub plan_built : build_execution_plan simple_urls (origin ∷ []) (codes "me ") ≡ ok username_plan
unfolding build_execution_plan requires_username selection_of lacks_username list_eq strip codes
    ℕ_discrete traverse targets_of compute_target_url rewrite_github_https_url
    parse_github_https_url is_github after_prefix or_default break_at rewrite_info option_eq
    info_of_parts path_parts split_on repo_name ends_with rewritten_split new_netloc plan_of
    previews_of commands_of with_port new_path is_space lstrip rstrip starts_with path_of
plan_built = refl

apply_execution_plan-build_execution_plan_example :
    (after : Table) × (apply_execution_plan memory username_plan table ≡ (ok tt, after))
    × All (IsTarget simple_urls (strip (codes "me ")) (λ name. lookup name after)) (origin ∷ [])
    × ((n : Text) → contains (names (origin ∷ [])) n ≡ false → lookup n after ≡ lookup n table)
apply_execution_plan-build_execution_plan_example =
    apply_execution_plan-build_execution_plan memory memory-IsLawful simple_urls (origin ∷ [])
      (codes "me ") table (refl, tt) (origin-IsRead, tt) plan_built

abbrev session : Session
session = record {
  username = some (codes "me");
  fix_lfs_locks_only = false;
  fix_remotes = false;
  input_is_tty = true;
  output_is_tty = true;
  answer = codes "n";
}

session_disagrees : agrees simple_urls session ≡ false
unfolding agrees codes list_eq ℕ_discrete strip lstrip rstrip is_space
session_disagrees = refl

main_cancelled_example :
    (main memory simple_urls (λ remotes username. none) session table).1 ≡ table
main_cancelled_example =
    main_cancelled memory simple_urls (λ remotes username. none) session table session_disagrees
      refl (λ remotes username. refl)
