-- ===== src/Remote/Tui/Actions.antt =====
-- The actions of the user interface: checking all boxes, the preview, and the end.
use tunnel2tunnel.Base.{
  Bool, true, false, not, ◌&&◌, Option, none, some, List, [], ◌∷◌, ◌==◌, list_eq, nat_eq,
  if◌then◌else◌, map, length, any, ltb,
}
use tunnel2tunnel.Base.Result.{Result, ok, err}
use tunnel2tunnel.Remote.Url.{Urls}
use tunnel2tunnel.Remote.UrlSelection
use tunnel2tunnel.Remote.UrlSelection.{
  RemoteUrlSelection, UrlKind, fetch, push, has_git_suffix_option, eligible,
}
use tunnel2tunnel.Remote.Selection.{RemoteSelection, set_all, descendants}
use tunnel2tunnel.Remote.Plan.{ExecutionPlan, build_execution_plan}
use tunnel2tunnel.Remote.Tui.{
  clear_status, set_status, current_username, ActionId, check_all, check_none, apply, back, cancel,
  ActionItem, Focus, tree_window, preview_actions_window, plan_refused, no_changes_selected,
  no_changes_to_apply, has_no_effect, failed, exited, UiState,
}

unfoldable pub can_check_all : List RemoteSelection → Bool
can_check_all remotes =
    any
      (λ r.
        any
          (λ s. eligible s && ltb (UrlSelection.selected_count s) (UrlSelection.toggleable_count s))
          (descendants r))
      remotes

unfoldable pub can_check_none : List RemoteSelection → Bool
can_check_none remotes =
    any (λ r. any (λ s. eligible s && ltb 0 (UrlSelection.selected_count s)) (descendants r))
      remotes

unfoldable pub edit_actions : UiState → List ActionItem
edit_actions s =
    record { action_id = check_all; enabled = can_check_all s.remotes }
    ∷ record { action_id = check_none; enabled = can_check_none s.remotes }
    ∷ []

-- `bool(plan and plan.previews)`
unfoldable pub has_previews : Option ExecutionPlan → Bool
has_previews none = false
has_previews (some plan) = not (length plan.previews == 0)

unfoldable pub preview_actions : UiState → List ActionItem
preview_actions s =
    record { action_id = apply; enabled = has_previews s.preview_plan }
    ∷ record { action_id = back; enabled = true }
    ∷ record { action_id = cancel; enabled = true }
    ∷ []

-- `check_all` and `check_none`.
unfoldable pub check : Bool → UiState → UiState
check value s = record s { remotes = map (set_all value) s.remotes; status = none }

abbrev pub with_focus : Focus → UiState → UiState
with_focus window s = record s { focus = window }

-- `app.exit(result=plan)`
abbrev pub exit : Option ExecutionPlan → UiState → UiState
exit plan s = record s { outcome = exited plan }

unfoldable pub leave_preview : UiState → UiState
leave_preview s = record s {
  preview_plan = none;
  preview_action_index = 0;
  status = none;
  focus = tree_window;
}

unfoldable pub activate_action : ActionId → UiState → UiState
activate_action check_all s = check true s
activate_action check_none s = check false s
activate_action apply s =
    if has_previews s.preview_plan
    then exit s.preview_plan (clear_status s)
    else set_status no_changes_to_apply s
activate_action back s = leave_preview s
activate_action cancel s = exit none (clear_status s)

-- The action at the index, if it is enabled.
unfoldable pub activate_item : Option ActionItem → UiState → UiState
activate_item none s = record s { outcome = failed }
activate_item (some item) s =
    if item.enabled
    then activate_action item.action_id s
    else set_status (has_no_effect item.action_id) s

module _ (urls : Urls) where
  abbrev pub build_preview : UiState → Result ExecutionPlan
  build_preview s = build_execution_plan urls s.remotes (current_username s)

  -- The preview of the plan, with its actions in focus.
  abbrev pub entered : ExecutionPlan → UiState → UiState
  entered plan s = record s {
    preview_plan = some plan;
    preview_action_index = 0;
    status = none;
    focus = preview_actions_window;
  }

  -- The two endings of `open_preview`, by the plan.
  unfoldable pub show_plan : Result ExecutionPlan → UiState → UiState
  show_plan (err e) s = set_status (plan_refused e) s
  show_plan (ok plan) s =
      if length plan.previews == 0 then set_status no_changes_selected s else entered plan s

  unfoldable pub open_preview : UiState → UiState
  open_preview s = show_plan (build_preview s) s

  unfoldable pub submit_plan : Result ExecutionPlan → UiState → UiState
  submit_plan (err e) s = set_status (plan_refused e) s
  submit_plan (ok plan) s =
      if length plan.previews == 0 then set_status no_changes_selected s else open_preview s

  unfoldable pub activate_submit : UiState → UiState
  activate_submit s = submit_plan (build_preview s) s
