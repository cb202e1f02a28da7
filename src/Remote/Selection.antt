-- ===== src/Remote/Selection.antt =====
-- The check boxes of one remote: those of its fetch URL and of its push URL.
pub mod Boxes
use tunnel2tunnel.Base.{
  ℕ, ◌+◌, Bool, true, false, not, ◌&&◌, ◌||◌, Option, none, some, List, [], ◌∷◌, Text, ◌==◌, nat_eq,
  list_eq, if◌then◌else◌, is_some, any,
}
use tunnel2tunnel.Base.Result.{Result, ok, ◌>>=◌}
use tunnel2tunnel.Remote.Url.{GitHubUrlInfo, Urls, parse_github_https_url, rewrite_github_https_url}
use tunnel2tunnel.Remote.UrlSelection
use tunnel2tunnel.Remote.UrlSelection.{
  RemoteUrlSelection, SelectionState, disabled, state_of_counts,
}

pub record RemoteSelection : Type 0 where
  pub name : Text
  pub fetch : RemoteUrlSelection
  pub push : RemoteUrlSelection
  pub push_is_explicit : Bool

abbrev pub descendants : RemoteSelection → List RemoteUrlSelection
descendants r = r.fetch ∷ r.push ∷ []

unfoldable pub toggleable_count : RemoteSelection → ℕ
toggleable_count r = UrlSelection.toggleable_count r.fetch + UrlSelection.toggleable_count r.push

unfoldable pub selected_count : RemoteSelection → ℕ
selected_count r = UrlSelection.selected_count r.fetch + UrlSelection.selected_count r.push

unfoldable pub state : RemoteSelection → SelectionState
state r =
    if toggleable_count r == 0
    then disabled
    else state_of_counts (toggleable_count r) (selected_count r)

unfoldable pub set_all : Bool → RemoteSelection → RemoteSelection
set_all value r = record r {
  fetch = UrlSelection.set_all value r.fetch;
  push = UrlSelection.set_all value r.push;
}

unfoldable pub requires_username : List RemoteSelection → Bool
requires_username remotes =
    any (λ remote. any (λ s. s.change_username) (descendants remote)) remotes
