-- ===== src/Tests/Screen.antt =====
-- A run of the user interface: from the input line to the tree, the actions, the submit button and
-- the preview, where the plan is applied.
use tunnel2tunnel.Base.{
  Bool, true, some, [], ◌∷◌, Text, codes, strip, list_eq, ◌≡◌, ◌≢◌, inr, refl, ap, ◌∙◌, ◌≤◌, ◌<◌,
  length,
}
use tunnel2tunnel.Base.Result.{ok}
use native.Mathlib.Decide.{ℕ_discrete}
use tunnel2tunnel.Remote.UrlSelection.{selection_of}
use tunnel2tunnel.Remote.Selection.{requires_username}
use tunnel2tunnel.Remote.Plan.{build_execution_plan, targets_of}
use tunnel2tunnel.Remote.Tui.{clamp, UiState, current_username, last_tree_index, failed}
use tunnel2tunnel.Remote.Tui.Actions.{
  edit_actions, preview_actions, activate_submit, submit_plan, open_preview, show_plan,
}
use tunnel2tunnel.Remote.Tui.Handlers.{
  Event, Reach, here, there, press, initial, handle, is_on, window_of, input_down, tree_enter,
  edit_actions_down, edit_actions_down_to, submit_activate,
}
use tunnel2tunnel.Remote.Tui.Handlers.Sound.{Reach-InRange, Reach-build_execution_plan}
use tunnel2tunnel.Tests.Remote.{simple_urls, origin, username_plan, plan_built}

abbrev printable : Text → Bool
printable text = true

abbrev start_state : UiState
start_state = initial (origin ∷ []) (codes "me ")

abbrev after : Event → UiState → UiState
after event s = handle simple_urls printable event s

abbrev at_tree : UiState
at_tree = after input_down start_state

abbrev at_actions : UiState
at_actions = after tree_enter at_tree

abbrev at_submit : UiState
at_submit = after edit_actions_down (after edit_actions_down at_actions)

abbrev Reached : UiState → Type 0
Reached s = Reach simple_urls printable start_state s

tree-Reached : Reached at_tree
unfolding initial is_on window_of
tree-Reached = there here (press input_down start_state refl refl)

actions-Reached : Reached at_actions
unfolding initial handle is_on window_of
actions-Reached = there tree-Reached (press tree_enter at_tree refl refl)

submit-Reached : Reached at_submit
unfolding initial handle is_on window_of edit_actions_down_to edit_actions
submit-Reached =
    there (there actions-Reached (press edit_actions_down at_actions refl refl))
      (press edit_actions_down (after edit_actions_down at_actions) refl refl)

Reach-InRange_example :
    (at_actions.cursor_position ≤ length at_actions.text)
    × (at_actions.selected_tree_index ≤ last_tree_index at_actions)
    × (at_actions.action_index < length (edit_actions at_actions))
    × (at_actions.preview_action_index < length (preview_actions at_actions))
    × (at_actions.outcome ≢ failed)
Reach-InRange_example =
    Reach-InRange simple_urls printable (origin ∷ []) (codes "me ") actions-Reached

abbrev at_preview : UiState
at_preview = after submit_activate at_submit

preview-Reached : Reached at_preview
unfolding initial handle is_on window_of edit_actions_down_to edit_actions clamp
preview-Reached = there submit-Reached (press submit_activate at_submit refl refl)

preview_shown : at_preview.preview_plan ≡ some username_plan
unfolding initial handle edit_actions_down_to edit_actions activate_submit submit_plan open_preview
    show_plan build_execution_plan ℕ_discrete requires_username clamp selection_of codes strip
    list_eq targets_of
preview_shown =
    ap (λ found. (submit_plan simple_urls found at_submit).preview_plan) plan_built
    ∙ ap (λ found. (show_plan simple_urls found at_submit).preview_plan) plan_built

Reach-build_execution_plan_example :
    (build_execution_plan simple_urls at_preview.remotes (current_username at_preview)
      ≡ ok username_plan)
    × (length username_plan.previews ≢ 0)
Reach-build_execution_plan_example =
    Reach-build_execution_plan simple_urls printable (origin ∷ []) (codes "me ") username_plan
      preview-Reached (inr preview_shown)
