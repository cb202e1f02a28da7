-- ===== src/Remote/Tui/Handlers/InRange.antt =====
-- Every index of the user interface stays in its range.
use tunnel2tunnel.Base.{
  ℕ, ◌+◌, ◌-◌, ◌≤◌, Bool, true, false, Option, none, some, [], ◌∷◌, ◌++◌, Text, nat_eq, length,
  arith, take, drop, length-take, length-append,
}
use tunnel2tunnel.Base.Result.{Result, ok, err}
use tunnel2tunnel.Remote.Url.{Urls}
use tunnel2tunnel.Remote.Plan.{ExecutionPlan}
use tunnel2tunnel.Remote.Tui.Handlers.{
  press_check_all, press_check_none, press_cancel, window_after, window_before, input_down,
  input_enter, input_left, input_right, input_home, input_end, input_backspace, input_delete,
  input_text, tree_down, tree_up, tree_toggle, tree_enter, edit_actions_down, edit_actions_up,
  activate_edit_action, submit_up, submit_activate, preview_actions_down, preview_actions_up,
  activate_preview_action, refresh, Event, handle, focus_next, focus_previous, turn_focus,
  tree_down_to, tree_up_to, edit_actions_down_to, edit_actions_up_to, preview_move,
}
use tunnel2tunnel.Remote.Tui.Rows.{rows-toggle_row, rows-set_all}
use tunnel2tunnel.Remote.Tui.{
  backward, forward, Focus, ActionId, check_all, check_none, apply, back, cancel, ActionItem,
  UiState, clamp, toggle_found, current_tree_row, last_tree_index, TreeRow, move_tree,
  toggle_current_tree_row, get_elem?, move_cursor, insert_text, delete_before_cursor,
  delete_at_cursor, Delta, moved,
}
use tunnel2tunnel.Remote.Tui.Actions.{
  check, edit_actions, preview_actions, activate_action, leave_preview, activate_item, show_plan,
  submit_plan, open_preview, build_preview, activate_submit,
}

pub clamp_bound : (value maximum : ℕ) → clamp value 0 maximum ≤ maximum
unfolding clamp
clamp_bound value maximum = ground arith

-- The cursor stands in the text, and each index is that of a row or an action.
abbrev pub InRange : UiState → Type 0
InRange s =
    (s.cursor_position ≤ length s.text)
    × (s.selected_tree_index ≤ last_tree_index s)
    × (s.action_index ≤ 1)
    × (s.preview_action_index ≤ 2)

InRange-turn_focus : (next : Focus → Focus) (s : UiState) → InRange s → InRange (turn_focus next s)
unfolding turn_focus
InRange-turn_focus next s h = ground (arith, h)

InRange-move_cursor : (delta : Delta) (s : UiState) → InRange s → InRange (move_cursor delta s)
unfolding move_cursor
InRange-move_cursor delta s h =
    (clamp_bound (moved delta s.cursor_position) (length s.text), h.1, h.2, h.3)

inserted_length :
    (position : ℕ) (text new : Text)
    → position ≤ length text
    → position + length new ≤ length (take position text ++ (new ++ drop position text))
inserted_length position text new h = omega (
  arith,
  length-take position text h,
  length-append new (drop position text),
  length-append (take position text) (new ++ drop position text),
)

InRange-insert_text : (text : Text) (s : UiState) → InRange s → InRange (insert_text text s)
unfolding insert_text
InRange-insert_text [] s h = h
InRange-insert_text (c ∷ text) s h =
    (inserted_length s.cursor_position s.text (c ∷ text) h.0, h.1, h.2, h.3)

InRange-delete_before_cursor : (s : UiState) → InRange s → InRange (delete_before_cursor s)
unfolding delete_before_cursor
InRange-delete_before_cursor s h = (
  ground (
    arith,
    h.0,
    length-take (s.cursor_position - 1) s.text (omega (arith, h.0)),
    length-append (take (s.cursor_position - 1) s.text) (drop s.cursor_position s.text),
  ),
  ground (arith, h.1),
  ground (arith, h.2),
  ground (arith, h.3),
)

InRange-delete_at_cursor : (s : UiState) → InRange s → InRange (delete_at_cursor s)
unfolding delete_at_cursor
InRange-delete_at_cursor s h = (
  ground (
    arith,
    h.0,
    length-take s.cursor_position s.text h.0,
    length-append (take s.cursor_position s.text) (drop (s.cursor_position + 1) s.text),
  ),
  ground (arith, h.1),
  ground (arith, h.2),
  ground (arith, h.3),
)

InRange-move_tree : (delta : Delta) (s : UiState) → InRange s → InRange (move_tree delta s)
unfolding move_tree
InRange-move_tree delta s h =
    ground (arith, h, clamp_bound (moved delta s.selected_tree_index) (last_tree_index s))

InRange-toggle_found :
    (found : Option TreeRow) (s : UiState) → InRange s → InRange (toggle_found found s)
unfolding toggle_found
InRange-toggle_found none s h = h
InRange-toggle_found (some row) s h = (
  h.0,
  rw (rows-toggle_row row s.remotes) (clamp_bound s.selected_tree_index (last_tree_index s)),
  h.2,
  h.3,
)

InRange-check : (value : Bool) (s : UiState) → InRange s → InRange (check value s)
unfolding check
InRange-check value s h = rw (rows-set_all value s.remotes) h

InRange-tree_down_to : (s : UiState) → InRange s → InRange (tree_down_to s)
unfolding tree_down_to
InRange-tree_down_to s h = ground (arith, h, InRange-move_tree forward s h)

InRange-tree_up_to : (s : UiState) → InRange s → InRange (tree_up_to s)
unfolding tree_up_to
InRange-tree_up_to s h = ground (arith, h, InRange-move_tree backward s h)

InRange-edit_actions_down_to : (s : UiState) → InRange s → InRange (edit_actions_down_to s)
unfolding edit_actions_down_to edit_actions
InRange-edit_actions_down_to s h = ground (arith, h, clamp_bound (s.action_index + 1) 1)

InRange-edit_actions_up_to : (s : UiState) → InRange s → InRange (edit_actions_up_to s)
unfolding edit_actions_up_to edit_actions
InRange-edit_actions_up_to s h = ground (arith, h, clamp_bound (s.action_index - 1) 1)

InRange-preview_move : (delta : Delta) (s : UiState) → InRange s → InRange (preview_move delta s)
unfolding preview_move preview_actions
InRange-preview_move delta s h =
    ground (arith, h, clamp_bound (moved delta s.preview_action_index) 2)

InRange-activate_action : (id : ActionId) (s : UiState) → InRange s → InRange (activate_action id s)
unfolding activate_action leave_preview
InRange-activate_action check_all s h = InRange-check true s h
InRange-activate_action check_none s h = InRange-check false s h
InRange-activate_action apply s h = ground (arith, h)
InRange-activate_action back s h = ground (arith, h)
InRange-activate_action cancel s h = h

InRange-activate_item :
    (item : Option ActionItem) (s : UiState) → InRange s → InRange (activate_item item s)
unfolding activate_item
InRange-activate_item none s h = h
InRange-activate_item (some item) s h =
    ground (arith, h, InRange-activate_action item.action_id s h)

InRange-show_plan :
    (urls : Urls) (found : Result ExecutionPlan) (s : UiState)
    → InRange s
    → InRange (show_plan urls found s)
unfolding show_plan
InRange-show_plan urls (err e) s h = h
InRange-show_plan urls (ok plan) s h = ground (arith, h)

InRange-submit_plan :
    (urls : Urls) (found : Result ExecutionPlan) (s : UiState)
    → InRange s
    → InRange (submit_plan urls found s)
unfolding submit_plan open_preview
InRange-submit_plan urls (err e) s h = h
InRange-submit_plan urls (ok plan) s h =
    ground (arith, h, InRange-show_plan urls (build_preview urls s) s h)

module _ (urls : Urls) (printable : Text → Bool) where
  pub InRange-handle :
      (event : Event) (s : UiState) → InRange s → InRange (handle urls printable event s)
  unfolding handle activate_submit edit_actions toggle_current_tree_row
  InRange-handle focus_next s h = InRange-turn_focus window_after s h
  InRange-handle focus_previous s h = InRange-turn_focus window_before s h
  InRange-handle input_down s h = h
  InRange-handle input_enter s h = h
  InRange-handle input_left s h = InRange-move_cursor backward s h
  InRange-handle input_right s h = InRange-move_cursor forward s h
  InRange-handle input_home s h = ground (arith, h)
  InRange-handle input_end s h = ground (arith, h)
  InRange-handle input_backspace s h = InRange-delete_before_cursor s h
  InRange-handle input_delete s h = InRange-delete_at_cursor s h
  InRange-handle (input_text text) s h = ground (arith, h, InRange-insert_text text s h)
  InRange-handle tree_down s h = InRange-tree_down_to s h
  InRange-handle tree_up s h = InRange-tree_up_to s h
  InRange-handle tree_toggle s h = InRange-toggle_found (current_tree_row s) s h
  InRange-handle tree_enter s h = ground (arith, h)
  InRange-handle edit_actions_down s h = InRange-edit_actions_down_to s h
  InRange-handle edit_actions_up s h = InRange-edit_actions_up_to s h
  InRange-handle activate_edit_action s h =
      InRange-activate_item (get_elem? (edit_actions s) s.action_index) s h
  InRange-handle submit_up s h = ground (arith, h)
  InRange-handle submit_activate s h = InRange-submit_plan urls (build_preview urls s) s h
  InRange-handle preview_actions_down s h = InRange-preview_move forward s h
  InRange-handle preview_actions_up s h = InRange-preview_move backward s h
  InRange-handle activate_preview_action s h =
      InRange-activate_item (get_elem? (preview_actions s) s.preview_action_index) s h
  InRange-handle press_check_all s h = InRange-check true s h
  InRange-handle press_check_none s h = InRange-check false s h
  InRange-handle refresh s h = h
  InRange-handle press_cancel s h = h
