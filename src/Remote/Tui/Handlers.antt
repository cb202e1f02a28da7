-- ===== src/Remote/Tui/Handlers.antt =====
-- The key bindings: when each is on, and what it does.
pub mod InRange
pub mod Shown
pub mod Sound
use tunnel2tunnel.Base.{
  ℕ, ◌-◌, ◌+◌, Bool, true, false, not, ◌&&◌, Option, none, some, Text, ◌==◌, nat_eq, if◌then◌else◌,
  leb, length, is_some, ◌≡◌, List,
}
use tunnel2tunnel.Remote.Url.{Urls}
use tunnel2tunnel.Remote.Selection.{RemoteSelection}
use tunnel2tunnel.Remote.Tui.{
  UiState, Focus, username_window, tree_window, edit_actions_window, submit_window,
  preview_actions_window, Delta, backward, forward, moved, clamp, last_tree_index, move_tree,
  toggle_current_tree_row, move_cursor, insert_text, delete_before_cursor, delete_at_cursor,
  clear_status, get_elem?, Outcome, running, failed, exited,
}
use tunnel2tunnel.Remote.Tui.Actions.{
  check, with_focus, exit, edit_actions, preview_actions, activate_item, activate_submit,
}

pub data Event : Type 0 where
  focus_next focus_previous : Event
  input_down input_enter input_left input_right input_home input_end : Event
  input_backspace input_delete : Event
  input_text : Text → Event
  tree_down tree_up tree_toggle tree_enter : Event
  edit_actions_down edit_actions_up activate_edit_action : Event
  submit_up submit_activate : Event
  preview_actions_down preview_actions_up activate_preview_action : Event
  press_check_all press_check_none refresh press_cancel : Event

abbrev pub same_window : Focus → Focus → Bool
same_window username_window username_window = true
same_window tree_window tree_window = true
same_window edit_actions_window edit_actions_window = true
same_window submit_window submit_window = true
same_window preview_actions_window preview_actions_window = true
same_window _ _ = false

-- The windows after and before one, in the order of the tabulator.
unfoldable pub window_after : Focus → Focus
window_after username_window = tree_window
window_after tree_window = edit_actions_window
window_after edit_actions_window = submit_window
window_after submit_window = username_window
window_after preview_actions_window = username_window

unfoldable pub window_before : Focus → Focus
window_before username_window = submit_window
window_before tree_window = username_window
window_before edit_actions_window = tree_window
window_before submit_window = edit_actions_window
window_before preview_actions_window = edit_actions_window

unfoldable pub turn_focus : (Focus → Focus) → UiState → UiState
turn_focus next s =
    if is_some s.preview_plan
    then with_focus preview_actions_window s
    else with_focus (next s.focus) s

-- The window that a key belongs to; a key of none is on everywhere.
unfoldable pub window_of : Event → Option Focus
window_of input_down = some username_window
window_of input_enter = some username_window
window_of input_left = some username_window
window_of input_right = some username_window
window_of input_home = some username_window
window_of input_end = some username_window
window_of input_backspace = some username_window
window_of input_delete = some username_window
window_of (input_text text) = some username_window
window_of tree_down = some tree_window
window_of tree_up = some tree_window
window_of tree_toggle = some tree_window
window_of tree_enter = some tree_window
window_of edit_actions_down = some edit_actions_window
window_of edit_actions_up = some edit_actions_window
window_of activate_edit_action = some edit_actions_window
window_of submit_up = some submit_window
window_of submit_activate = some submit_window
window_of preview_actions_down = some preview_actions_window
window_of preview_actions_up = some preview_actions_window
window_of activate_preview_action = some preview_actions_window
window_of _ = none

-- The filter of a binding.
unfoldable pub is_on : Event → UiState → Bool
is_on press_check_all s = not (is_some s.preview_plan) && not (same_window s.focus username_window)
is_on press_check_none s = not (is_some s.preview_plan) && not (same_window s.focus username_window)
is_on event s = elim (window_of event) [ none ↦ true | some window ↦ same_window s.focus window ]

unfoldable pub tree_down_to : UiState → UiState
tree_down_to s =
    if leb (last_tree_index s) s.selected_tree_index
    then clear_status (with_focus edit_actions_window (record s { action_index = 0 }))
    else move_tree forward s

unfoldable pub tree_up_to : UiState → UiState
tree_up_to s =
    if s.selected_tree_index == 0
    then clear_status (with_focus username_window s)
    else move_tree backward s

unfoldable pub edit_actions_down_to : UiState → UiState
edit_actions_down_to s =
    let last = length (edit_actions s) - 1 in
    if leb last s.action_index
    then clear_status (with_focus submit_window s)
    else clear_status (record s { action_index = clamp (s.action_index + 1) 0 last })

unfoldable pub edit_actions_up_to : UiState → UiState
edit_actions_up_to s =
    if s.action_index == 0
    then clear_status
        (with_focus tree_window (record s { selected_tree_index = last_tree_index s }))
    else clear_status
        (record s { action_index = clamp (s.action_index - 1) 0 (length (edit_actions s) - 1) })

unfoldable pub preview_move : Delta → UiState → UiState
preview_move delta s = clear_status (record s {
  preview_action_index =
      clamp (moved delta s.preview_action_index) 0 (length (preview_actions s) - 1);
})

-- The state that `run_tui` starts in.
unfoldable pub initial : List RemoteSelection → Text → UiState
initial remotes text = record {
  remotes = remotes;
  text = text;
  cursor_position = length text;
  selected_tree_index = 0;
  action_index = 0;
  preview_action_index = 0;
  preview_plan = none;
  status = none;
  focus = username_window;
  outcome = running;
}

-- `printable` is the test that a typed text has to pass.
module _ (urls : Urls) (printable : Text → Bool) where
  unfoldable pub handle : Event → UiState → UiState
  handle focus_next s = turn_focus window_after s
  handle focus_previous s = turn_focus window_before s
  handle input_down s = with_focus tree_window s
  handle input_enter s = with_focus tree_window s
  handle input_left s = move_cursor backward s
  handle input_right s = move_cursor forward s
  handle input_home s = record s { cursor_position = 0 }
  handle input_end s = record s { cursor_position = length s.text }
  handle input_backspace s = delete_before_cursor s
  handle input_delete s = delete_at_cursor s
  handle (input_text text) s = if printable text then insert_text text s else s
  handle tree_down s = tree_down_to s
  handle tree_up s = tree_up_to s
  handle tree_toggle s = toggle_current_tree_row s
  handle tree_enter s = record s { focus = edit_actions_window; action_index = 0 }
  handle edit_actions_down s = edit_actions_down_to s
  handle edit_actions_up s = edit_actions_up_to s
  handle activate_edit_action s = activate_item (get_elem? (edit_actions s) s.action_index) s
  handle submit_up s = record s {
    action_index = length (edit_actions s) - 1;
    focus = edit_actions_window;
  }
  handle submit_activate s = activate_submit urls s
  handle preview_actions_down s = preview_move forward s
  handle preview_actions_up s = preview_move backward s
  handle activate_preview_action s =
      activate_item (get_elem? (preview_actions s) s.preview_action_index) s
  handle press_check_all s = check true s
  handle press_check_none s = check false s
  handle refresh s = s
  handle press_cancel s = exit none s

  -- A key that is on is pressed while the program runs.
  pub data Step : UiState → UiState → Type 0 where
    press :
        (event : Event) (s : UiState)
        → s.outcome ≡ running
        → is_on event s ≡ true
        → Step s (handle event s)

  pub data Reach (start : UiState) : UiState → Type 0 where
    here : Reach start start
    there : {s t : UiState} → Reach start s → Step s t → Reach start t
