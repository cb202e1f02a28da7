-- ===== src/Remote/Selection/Boxes.antt =====
-- The counts and states of check boxes.
use tunnel2tunnel.Base.{
  ◌≤◌, ◌<◌, Bool, true, false, Option, none, some, ◌≡◌, refl, arith, nat_eq, if◌then◌else◌, ◌↔◌,
}
use tunnel2tunnel.Remote.Url.{GitHubUrlInfo}
use tunnel2tunnel.Remote.UrlSelection
use tunnel2tunnel.Remote.UrlSelection.{
  RemoteUrlSelection, SelectionState, disabled, unchecked, checked, partial, active,
  state_of_counts, int,
}
use tunnel2tunnel.Remote.Selection.{
  RemoteSelection, toggleable_count, selected_count, state, set_all,
}

-- A URL has at most two boxes, and never more that are checked than it has boxes.
pub url_counts :
    (s : RemoteUrlSelection)
    → (UrlSelection.selected_count s ≤ UrlSelection.toggleable_count s)
      × (UrlSelection.toggleable_count s ≤ 2)
unfolding UrlSelection.selected_count UrlSelection.toggleable_count
url_counts s = ground arith

-- A remote has at most four boxes, and never more that are checked than it has boxes.
pub selected_count_bound :
    (r : RemoteSelection) → (selected_count r ≤ toggleable_count r) × (toggleable_count r ≤ 4)
unfolding selected_count toggleable_count
selected_count_bound r = omega (arith, url_counts r.fetch, url_counts r.push)

url_set_all :
    (value : Bool) (s : RemoteUrlSelection) (github : Option GitHubUrlInfo)
    → s.github ≡ github
    → (UrlSelection.toggleable_count (UrlSelection.set_all value s)
        ≡ UrlSelection.toggleable_count s)
      × (UrlSelection.selected_count (UrlSelection.set_all value s)
          ≡ (if value then UrlSelection.toggleable_count s else 0))
unfolding UrlSelection.selected_count UrlSelection.toggleable_count UrlSelection.set_all
    UrlSelection.has_git_suffix_option
url_set_all true s none h = (ground (arith, h), ground (arith, h))
url_set_all false s none h = (ground (arith, h), ground (arith, h))
url_set_all true s (some info) h = (ground (arith, h), ground (arith, h))
url_set_all false s (some info) h = (ground (arith, h), ground (arith, h))

-- Setting all boxes of a remote checks all of them or none, and adds no box.
pub set_all_counts :
    (value : Bool) (r : RemoteSelection)
    → (toggleable_count (set_all value r) ≡ toggleable_count r)
      × (selected_count (set_all value r) ≡ (if value then toggleable_count r else 0))
unfolding selected_count toggleable_count set_all
set_all_counts true r =
    let f = url_set_all true r.fetch r.fetch.github refl in
    let p = url_set_all true r.push r.push.github refl in
    (omega (arith, f.0, p.0), omega (arith, f.1, p.1))
set_all_counts false r =
    let f = url_set_all false r.fetch r.fetch.github refl in
    let p = url_set_all false r.push r.push.github refl in
    (omega (arith, f.0, p.0), omega (arith, f.1, p.1))

-- The state of a remote says how many boxes are checked: it is disabled without a box, checked with all
-- of its boxes, unchecked with none of them, and partial with some.
pub state_lem :
    (r : RemoteSelection)
    → (state r ≡ disabled ↔ toggleable_count r ≡ 0)
      × (state r ≡ checked ↔ (0 < toggleable_count r) × (selected_count r ≡ toggleable_count r))
      × (state r ≡ unchecked ↔ (0 < toggleable_count r) × (selected_count r ≡ 0))
      × (state r ≡ partial ↔ (0 < selected_count r) × (selected_count r < toggleable_count r))
unfolding state state_of_counts
state_lem r =
    let bound = (selected_count_bound r).0 in
    (
      (λ h. ground arith, λ h. ground arith),
      (λ h. (ground arith, ground arith), λ h. ground (arith, h.0, h.1)),
      (λ h. (ground arith, ground arith), λ h. ground (arith, h.0, h.1)),
      (λ h. (ground arith, ground arith), λ h. ground (arith, h.0, h.1)),
    )
