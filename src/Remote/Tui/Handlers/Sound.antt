-- ===== src/Remote/Tui/Handlers/Sound.antt =====
-- What the user interface returns.
use tunnel2tunnel.Base.{
  ◌-◌, ◌≤◌, ◌<◌, Bool, true, false, not, ◌&&◌, Option, none, some, List, Text, nat_eq,
  if◌then◌else◌, length, is_some, ◌≡◌, ◌≢◌, refl, sym, arith, ◌⊎◌, inl, inr,
}
use mathlib.Core.Path.{subst}
use tunnel2tunnel.Base.Result.{ok}
use tunnel2tunnel.Remote.Url.{Urls}
use tunnel2tunnel.Remote.Plan.{ExecutionPlan, build_execution_plan}
use tunnel2tunnel.Remote.Tui.{
  UiState, Focus, username_window, tree_window, edit_actions_window, submit_window,
  preview_actions_window, running, failed, exited, backward, forward, current_tree_row,
  last_tree_index, current_username, toggle_current_tree_row, move_cursor, insert_text,
  delete_before_cursor, delete_at_cursor, get_elem?,
}
use tunnel2tunnel.Remote.Tui.Actions.{
  check, edit_actions, preview_actions, activate_item, activate_submit, build_preview, with_focus,
}
use tunnel2tunnel.Remote.Tui.Handlers.{
  Event, handle, is_on, window_of, same_window, focus_next, focus_previous, press_check_all,
  press_check_none, press_cancel, window_after, window_before, input_down, input_enter, input_left,
  input_right, input_home, input_end, input_backspace, input_delete, input_text, tree_down, tree_up,
  tree_toggle, tree_enter, edit_actions_down, edit_actions_up, activate_edit_action, submit_up,
  submit_activate, preview_actions_down, preview_actions_up, activate_preview_action, refresh,
  tree_down_to, tree_up_to, edit_actions_down_to, edit_actions_up_to, preview_move,
}
use tunnel2tunnel.Remote.Tui.Handlers.InRange.{InRange}
use tunnel2tunnel.Remote.Selection.{RemoteSelection}
use tunnel2tunnel.Remote.Tui.Handlers.{press, Reach, here, there, initial}
use tunnel2tunnel.Remote.Tui.Handlers.InRange.{InRange-handle}
use tunnel2tunnel.Remote.Tui.Handlers.Shown.{
  in_preview, Shown, Sound, IsSound, Edits, Edits-toggle_found, Edits-insert_text, Edits-tree,
  Edits-edit_actions, Edits-IsSound, IsSound-submit_plan, IsSound-turn_focus,
  IsSound-preview_actions, in_window,
}

Edits-delete_before_cursor : (s : UiState) → Edits s → Edits (delete_before_cursor s)
unfolding delete_before_cursor
Edits-delete_before_cursor s h = ground (arith, h)

Edits-delete_at_cursor : (s : UiState) → Edits s → Edits (delete_at_cursor s)
unfolding delete_at_cursor
Edits-delete_at_cursor s h = ground (arith, h)

Edits-tree_down_to : (s : UiState) → Edits s → Edits (tree_down_to s)
unfolding tree_down_to
Edits-tree_down_to s h = ground (arith, h, Edits-tree forward s h)

Edits-tree_up_to : (s : UiState) → Edits s → Edits (tree_up_to s)
unfolding tree_up_to
Edits-tree_up_to s h = ground (arith, h, Edits-tree backward s h)

Edits-edit_actions_down_to : (s : UiState) → Edits s → Edits (edit_actions_down_to s)
unfolding edit_actions_down_to
Edits-edit_actions_down_to s h = ground (arith, h)

Edits-edit_actions_up_to : (s : UiState) → Edits s → Edits (edit_actions_up_to s)
unfolding edit_actions_up_to
Edits-edit_actions_up_to s h = ground (arith, h)

Edits-input_text :
    (test : Bool) (text : Text) (s : UiState)
    → Edits s
    → Edits (if test then insert_text text s else s)
Edits-input_text true text s h = Edits-insert_text text s h
Edits-input_text false text s h = h

module _ (urls : Urls) (printable : Text → Bool) where
  Shown-some :
      (s : UiState) (plan : Option ExecutionPlan)
      → s.preview_plan ≡ plan
      → Shown urls s plan
      → in_preview s ≡ true
      → (p : ExecutionPlan) × (s.preview_plan ≡ some p) × Shown urls s (some p)
  Shown-some s none e h on = cc
  Shown-some s (some p) e h on = (p, e, h)

  in_edit :
      (s : UiState) (plan : Option ExecutionPlan)
      → s.preview_plan ≡ plan
      → Shown urls s plan
      → s.outcome ≡ running
      → (not (is_some s.preview_plan) && not (same_window s.focus username_window)) ≡ true
      → Edits s
  in_edit s none e h runs on = (e, runs, h)
  in_edit s (some p) e h runs on = absurd (clash on)
    where
      clash : (not (is_some s.preview_plan) && not (same_window s.focus username_window)) ≡ true → ⊥
      clash on = ground arith

  -- Keeping the text, the boxes, the focus and the plan.
  same-IsSound : (s : UiState) → Shown urls s s.preview_plan → s.outcome ≡ running → IsSound urls s
  same-IsSound s h runs = (h, subst (Sound urls s) (sym runs) tt)

  IsSound-handle :
      (event : Event) (s : UiState)
      → s.outcome ≡ running
      → is_on event s ≡ true
      → InRange s
      → Shown urls s s.preview_plan
      → IsSound urls (handle urls printable event s)
  unfolding handle is_on window_of toggle_current_tree_row move_cursor check activate_submit
      preview_move window_after window_before preview_actions
  IsSound-handle focus_next s runs on r h =
      IsSound-turn_focus urls window_after s s.preview_plan away refl h runs
    where
      away : (w : Focus) → same_window (window_after w) preview_actions_window ≡ false
      away username_window = refl
      away tree_window = refl
      away edit_actions_window = refl
      away submit_window = refl
      away preview_actions_window = refl
  IsSound-handle focus_previous s runs on r h =
      IsSound-turn_focus urls window_before s s.preview_plan away refl h runs
    where
      away : (w : Focus) → same_window (window_before w) preview_actions_window ≡ false
      away username_window = refl
      away tree_window = refl
      away edit_actions_window = refl
      away submit_window = refl
      away preview_actions_window = refl
  IsSound-handle press_check_all s runs on r h =
      Edits-IsSound urls (check true s) (in_edit s s.preview_plan refl h runs on)
  IsSound-handle press_check_none s runs on r h =
      Edits-IsSound urls (check false s) (in_edit s s.preview_plan refl h runs on)
  IsSound-handle refresh s runs on r h = same-IsSound s h runs
  IsSound-handle press_cancel s runs on r h = (h, tt)
  IsSound-handle preview_actions_down s runs on r h =
      (h, subst (Sound urls (preview_move forward s)) (sym runs) tt)
  IsSound-handle preview_actions_up s runs on r h =
      (h, subst (Sound urls (preview_move backward s)) (sym runs) tt)
  IsSound-handle activate_preview_action s runs on r h =
      let (plan, e, k) = Shown-some s s.preview_plan refl h on in
      IsSound-preview_actions urls s.preview_action_index s plan r.3 e k runs
  IsSound-handle submit_activate s runs on r h =
      IsSound-submit_plan urls (build_preview urls s) s
        (in_window urls s submit_window on refl h runs)
  IsSound-handle input_down s runs on r h =
      let k = in_window urls s username_window on refl h runs in
      Edits-IsSound urls (with_focus tree_window s) (k.0, k.1, refl)
  IsSound-handle input_enter s runs on r h =
      let k = in_window urls s username_window on refl h runs in
      Edits-IsSound urls (with_focus tree_window s) (k.0, k.1, refl)
  IsSound-handle input_left s runs on r h =
      let k = in_window urls s username_window on refl h runs in
      Edits-IsSound urls (move_cursor backward s) k
  IsSound-handle input_right s runs on r h =
      let k = in_window urls s username_window on refl h runs in
      Edits-IsSound urls (move_cursor forward s) k
  IsSound-handle input_home s runs on r h =
      let k = in_window urls s username_window on refl h runs in
      Edits-IsSound urls (record s { cursor_position = 0 }) k
  IsSound-handle input_end s runs on r h =
      let k = in_window urls s username_window on refl h runs in
      Edits-IsSound urls (record s { cursor_position = length s.text }) k
  IsSound-handle input_backspace s runs on r h =
      let k = in_window urls s username_window on refl h runs in
      Edits-IsSound urls (delete_before_cursor s) (Edits-delete_before_cursor s k)
  IsSound-handle input_delete s runs on r h =
      let k = in_window urls s username_window on refl h runs in
      Edits-IsSound urls (delete_at_cursor s) (Edits-delete_at_cursor s k)
  IsSound-handle (input_text text) s runs on r h =
      let k = in_window urls s username_window on refl h runs in
      Edits-IsSound urls (if printable text then insert_text text s else s)
        (Edits-input_text (printable text) text s k)
  IsSound-handle tree_down s runs on r h =
      let k = in_window urls s tree_window on refl h runs in
      Edits-IsSound urls (tree_down_to s) (Edits-tree_down_to s k)
  IsSound-handle tree_up s runs on r h =
      let k = in_window urls s tree_window on refl h runs in
      Edits-IsSound urls (tree_up_to s) (Edits-tree_up_to s k)
  IsSound-handle tree_toggle s runs on r h =
      let k = in_window urls s tree_window on refl h runs in
      Edits-IsSound urls (toggle_current_tree_row s) (Edits-toggle_found (current_tree_row s) s k)
  IsSound-handle tree_enter s runs on r h =
      let k = in_window urls s tree_window on refl h runs in
      Edits-IsSound urls (record s { focus = edit_actions_window; action_index = 0 })
        (k.0, k.1, refl)
  IsSound-handle edit_actions_down s runs on r h =
      let k = in_window urls s edit_actions_window on refl h runs in
      Edits-IsSound urls (edit_actions_down_to s) (Edits-edit_actions_down_to s k)
  IsSound-handle edit_actions_up s runs on r h =
      let k = in_window urls s edit_actions_window on refl h runs in
      Edits-IsSound urls (edit_actions_up_to s) (Edits-edit_actions_up_to s k)
  IsSound-handle activate_edit_action s runs on r h =
      let k = in_window urls s edit_actions_window on refl h runs in
      Edits-IsSound urls (activate_item (get_elem? (edit_actions s) s.action_index) s)
        (Edits-edit_actions s.action_index s r.2 k)
  IsSound-handle submit_up s runs on r h =
      let k = in_window urls s submit_window on refl h runs in
      Edits-IsSound urls
        (record s { action_index = length (edit_actions s) - 1; focus = edit_actions_window })
        (k.0, k.1, refl)

  reached :
      (remotes : List RemoteSelection) (text : Text) {s : UiState}
      → Reach urls printable (initial remotes text) s
      → InRange s × IsSound urls s
  unfolding initial
  reached remotes text here = ((omega arith, omega arith, omega arith, omega arith), (refl, tt))
  reached remotes text (there path (press event s runs on)) =
      let (ranges, sound) = reached remotes text path in
      (InRange-handle urls printable event s ranges, IsSound-handle event s runs on ranges sound.0)

-- Whatever keys are pressed, the cursor of the user interface stays in the text of its input line, its
-- indexes stay those of a row of the tree and of an action, and no index is out of range where an action is
-- taken.
pub Reach-InRange :
    (urls : Urls) (printable : Text → Bool) (remotes : List RemoteSelection) (text : Text)
    {s : UiState}
    → Reach urls printable (initial remotes text) s
    → (s.cursor_position ≤ length s.text)
      × (s.selected_tree_index ≤ last_tree_index s)
      × (s.action_index < length (edit_actions s))
      × (s.preview_action_index < length (preview_actions s))
      × (s.outcome ≢ failed)
unfolding edit_actions preview_actions
Reach-InRange urls printable remotes text {s} path =
    let (ranges, sound) = reached urls printable remotes text path in
    (
      ranges.0,
      ranges.1,
      omega (arith, ranges.2),
      omega (arith, ranges.3),
      λ e. subst (Sound urls s) e sound.1,
    )

-- Whatever keys are pressed, a plan that the user interface returns is the plan of its last boxes and its
-- last username, and it changes something; and so is a plan that it shows.
pub Reach-build_execution_plan :
    (urls : Urls) (printable : Text → Bool) (remotes : List RemoteSelection) (text : Text)
    {s : UiState} (plan : ExecutionPlan)
    → Reach urls printable (initial remotes text) s
    → (s.outcome ≡ exited (some plan)) ⊎ (s.preview_plan ≡ some plan)
    → (build_execution_plan urls s.remotes (current_username s) ≡ ok plan)
      × (length plan.previews ≢ 0)
Reach-build_execution_plan urls printable remotes text {s} plan path (inl e) =
    subst (Sound urls s) e (reached urls printable remotes text path).1.1
Reach-build_execution_plan urls printable remotes text {s} plan path (inr e) =
    (subst (Shown urls s) e (reached urls printable remotes text path).1.0).1
