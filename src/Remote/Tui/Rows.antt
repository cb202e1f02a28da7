-- ===== src/Remote/Tui/Rows.antt =====
-- Checking boxes leaves the rows of the tree as they are.
use tunnel2tunnel.Base.{
  ℕ, zero, suc, Bool, true, false, List, [], ◌∷◌, nat_eq, ◌≡◌, refl, arith, map,
}
use tunnel2tunnel.Remote.UrlSelection.{
  RemoteUrlSelection, UrlKind, fetch, push, has_git_suffix_option,
}
use tunnel2tunnel.Remote.UrlSelection
use tunnel2tunnel.Remote.Selection.{RemoteSelection, set_all}
use tunnel2tunnel.Remote.Tui.{
  rows_from, toggle_url, toggle_git, toggle_remote, at_kind, toggle_row, update_at, TreeRow,
  remote_row, url_row, git_row,
}

-- The boxes that a remote has.
abbrev SameBoxes : (RemoteSelection → RemoteSelection) → Type 0
SameBoxes f =
    (r : RemoteSelection)
    → (has_git_suffix_option (f r).fetch ≡ has_git_suffix_option r.fetch)
      × (has_git_suffix_option (f r).push ≡ has_git_suffix_option r.push)

url_set_all_boxes :
    (value : Bool) (s : RemoteUrlSelection)
    → has_git_suffix_option (UrlSelection.set_all value s) ≡ has_git_suffix_option s
unfolding has_git_suffix_option UrlSelection.set_all
url_set_all_boxes value s = ground arith

set_all_boxes : (value : Bool) → SameBoxes (set_all value)
unfolding set_all
set_all_boxes value r = (url_set_all_boxes value r.fetch, url_set_all_boxes value r.push)

toggle_remote_boxes : SameBoxes toggle_remote
unfolding toggle_remote
toggle_remote_boxes r =
    let all = set_all_boxes true r in
    let nothing = set_all_boxes false r in
    (ground (arith, all.0, nothing.0), ground (arith, all.1, nothing.1))

toggle_url_boxes :
    (s : RemoteUrlSelection) → has_git_suffix_option (toggle_url s) ≡ has_git_suffix_option s
unfolding has_git_suffix_option
toggle_url_boxes s = ground arith

toggle_git_boxes :
    (s : RemoteUrlSelection) → has_git_suffix_option (toggle_git s) ≡ has_git_suffix_option s
unfolding has_git_suffix_option
toggle_git_boxes s = ground arith

rows_update :
    (f : RemoteSelection → RemoteSelection)
    → SameBoxes f
    → (i index : ℕ) (rs : List RemoteSelection)
    → rows_from index (update_at i f rs) ≡ rows_from index rs
unfolding rows_from update_at
rows_update f same i index [] = refl
rows_update f same zero index (r ∷ rs) = rw ((same r).0, (same r).1)
rows_update f same (suc i) index (r ∷ rs) = rw (rows_update f same i (suc index) rs)

rows_map :
    (f : RemoteSelection → RemoteSelection)
    → SameBoxes f
    → (index : ℕ) (rs : List RemoteSelection) → rows_from index (map f rs) ≡ rows_from index rs
unfolding rows_from
rows_map f same index [] = refl
rows_map f same index (r ∷ rs) = rw ((same r).0, (same r).1, rows_map f same (suc index) rs)

pub rows-set_all :
    (value : Bool) (rs : List RemoteSelection)
    → rows_from 0 (map (set_all value) rs) ≡ rows_from 0 rs
rows-set_all value rs = rows_map (set_all value) (set_all_boxes value) 0 rs

pub rows-toggle_row :
    (row : TreeRow) (rs : List RemoteSelection) → rows_from 0 (toggle_row row rs) ≡ rows_from 0 rs
unfolding toggle_row at_kind
rows-toggle_row (remote_row i) rs = rows_update toggle_remote toggle_remote_boxes i 0 rs
rows-toggle_row (url_row i fetch) rs =
    rows_update (at_kind fetch toggle_url) (λ r. (toggle_url_boxes r.fetch, refl)) i 0 rs
rows-toggle_row (url_row i push) rs =
    rows_update (at_kind push toggle_url) (λ r. (refl, toggle_url_boxes r.push)) i 0 rs
rows-toggle_row (git_row i fetch) rs =
    rows_update (at_kind fetch toggle_git) (λ r. (toggle_git_boxes r.fetch, refl)) i 0 rs
rows-toggle_row (git_row i push) rs =
    rows_update (at_kind push toggle_git) (λ r. (refl, toggle_git_boxes r.push)) i 0 rs
