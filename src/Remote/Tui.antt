-- ===== src/Remote/Tui.antt =====
-- The state of the user interface and its operations. Drawing, scrolling and flashing are left out.
pub mod Actions
pub mod Rows
pub mod Handlers
use tunnel2tunnel.Base.{
  ℕ, zero, suc, ◌+◌, ◌-◌, Bool, true, false, not, ◌&&◌, ◌||◌, Option, none, some, List, [], ◌∷◌,
  ◌++◌, Text, ◌==◌, list_eq, nat_eq, if◌then◌else◌, strip, map, length, any, ltb, leb, take, drop,
  is_some,
}
use tunnel2tunnel.Base.Result.{Error, Result, ok, err}
use tunnel2tunnel.Remote.Url.{Urls}
use tunnel2tunnel.Remote.UrlSelection
use tunnel2tunnel.Remote.UrlSelection.{
  RemoteUrlSelection, UrlKind, fetch, push, has_git_suffix_option, eligible,
}
use tunnel2tunnel.Remote.Selection.{
  RemoteSelection, toggleable_count, selected_count, set_all, descendants,
}
use tunnel2tunnel.Remote.Plan.{ExecutionPlan, UrlPreview, build_execution_plan}

pub data TreeRow : Type 0 where
  remote_row : ℕ → TreeRow
  url_row git_row : ℕ → UrlKind → TreeRow

pub data ActionId : Type 0 where
  check_all check_none apply back cancel : ActionId

pub record ActionItem : Type 0 where
  pub action_id : ActionId
  pub enabled : Bool

-- The window that has the focus.
pub data Focus : Type 0 where
  username_window tree_window edit_actions_window submit_window preview_actions_window : Focus

-- What the status line says; each is shown as an error.
pub data Status : Type 0 where
  plan_refused : Error → Status
  no_changes_selected no_changes_to_apply : Status
  has_no_effect : ActionId → Status

-- `failed` is an index out of range.
pub data Outcome : Type 0 where
  running failed : Outcome
  exited : Option ExecutionPlan → Outcome

pub record UiState : Type 0 where
  pub remotes : List RemoteSelection
  pub text : Text
  pub cursor_position : ℕ
  pub selected_tree_index : ℕ
  pub action_index : ℕ
  pub preview_action_index : ℕ
  pub preview_plan : Option ExecutionPlan
  pub status : Option Status
  pub focus : Focus
  pub outcome : Outcome

-- `max(minimum, min(maximum, value))`
unfoldable pub clamp : ℕ → ℕ → ℕ → ℕ
clamp value minimum maximum =
    let upper = if leb maximum value then maximum else value in
    if leb upper minimum then minimum else upper

-- One place back or forward. Behind each is a clamp at zero, where subtraction on ℕ stops.
pub data Delta : Type 0 where
  backward forward : Delta

abbrev pub moved : Delta → ℕ → ℕ
moved backward n = n - 1
moved forward n = n + 1

abbrev pub rows_when : Bool → TreeRow → List TreeRow → List TreeRow
rows_when test row rest = if test then row ∷ rest else rest

-- The rows of the remotes, the first of which has the index.
unfoldable pub rows_from : ℕ → List RemoteSelection → List TreeRow
rows_from index [] = []
rows_from index (r ∷ rs) =
    remote_row index
    ∷ url_row index fetch
    ∷ rows_when (has_git_suffix_option r.fetch) (git_row index fetch) (
        url_row index push
        ∷ rows_when (has_git_suffix_option r.push) (git_row index push) (rows_from (suc index) rs))

abbrev pub tree_rows : UiState → List TreeRow
tree_rows s = rows_from 0 s.remotes

abbrev pub last_tree_index : UiState → ℕ
last_tree_index s = length (tree_rows s) - 1

unfoldable pub get_elem? {ℓ} : {A : Type ℓ} → List A → ℕ → Option A
get_elem? [] i = none
get_elem? (x ∷ xs) zero = some x
get_elem? (x ∷ xs) (suc i) = get_elem? xs i

unfoldable pub update_at :
    ℕ → (RemoteSelection → RemoteSelection) → List RemoteSelection → List RemoteSelection
update_at i f [] = []
update_at zero f (r ∷ rs) = f r ∷ rs
update_at (suc i) f (r ∷ rs) = r ∷ update_at i f rs

abbrev pub clear_status : UiState → UiState
clear_status s = record s { status = none }

abbrev pub set_status : Status → UiState → UiState
set_status message s = record s { status = some message }

abbrev pub clamp_tree_index : UiState → UiState
clamp_tree_index s = record s {
  selected_tree_index = clamp s.selected_tree_index 0 (last_tree_index s);
}

unfoldable pub move_tree : Delta → UiState → UiState
move_tree delta s = if length (tree_rows s) == 0 then s else record s {
  selected_tree_index = clamp (moved delta s.selected_tree_index) 0 (last_tree_index s);
  status = none;
}

unfoldable pub toggle_remote : RemoteSelection → RemoteSelection
toggle_remote r =
    if toggleable_count r == 0 then r else set_all (not (selected_count r == toggleable_count r)) r

abbrev pub toggle_url : RemoteUrlSelection → RemoteUrlSelection
toggle_url s = if eligible s then record s { change_username = not s.change_username } else s

abbrev pub toggle_git : RemoteUrlSelection → RemoteUrlSelection
toggle_git s =
    if has_git_suffix_option s then record s { add_git_suffix = not s.add_git_suffix } else s

unfoldable pub at_kind :
    UrlKind → (RemoteUrlSelection → RemoteUrlSelection) → RemoteSelection → RemoteSelection
at_kind fetch f r = record r { fetch = f r.fetch }
at_kind push f r = record r { push = f r.push }

unfoldable pub toggle_row : TreeRow → List RemoteSelection → List RemoteSelection
toggle_row (remote_row i) = update_at i toggle_remote
toggle_row (url_row i kind) = update_at i (at_kind kind toggle_url)
toggle_row (git_row i kind) = update_at i (at_kind kind toggle_git)

-- The row under the cursor, if there is one.
unfoldable pub current_tree_row : UiState → Option TreeRow
current_tree_row s = get_elem? (tree_rows s) (clamp s.selected_tree_index 0 (last_tree_index s))

unfoldable pub toggle_found : Option TreeRow → UiState → UiState
toggle_found none s = s
toggle_found (some row) s = record (clamp_tree_index s) {
  remotes = toggle_row row s.remotes;
  status = none;
}

unfoldable pub toggle_current_tree_row : UiState → UiState
toggle_current_tree_row s = toggle_found (current_tree_row s) s

abbrev pub current_username : UiState → Text
current_username s = strip s.text

unfoldable pub move_cursor : Delta → UiState → UiState
move_cursor delta s = record s {
  cursor_position = clamp (moved delta s.cursor_position) 0 (length s.text);
}

-- A change of the text clears the status.
unfoldable pub insert_text : Text → UiState → UiState
insert_text [] s = s
insert_text (c ∷ text) s =
    let position = s.cursor_position in
    record s {
      text = take position s.text ++ ((c ∷ text) ++ drop position s.text);
      cursor_position = position + length (c ∷ text);
      status = none;
    }

unfoldable pub delete_before_cursor : UiState → UiState
delete_before_cursor s =
    let position = s.cursor_position in
    if position == 0 then s else record s {
      text = take (position - 1) s.text ++ drop position s.text;
      cursor_position = position - 1;
      status = none;
    }

unfoldable pub delete_at_cursor : UiState → UiState
delete_at_cursor s =
    let position = s.cursor_position in
    if leb (length s.text) position then s else record s {
      text = take position s.text ++ drop (position + 1) s.text;
      cursor_position = position;
      status = none;
    }
