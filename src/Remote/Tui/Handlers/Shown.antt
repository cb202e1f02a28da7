-- ===== src/Remote/Tui/Handlers/Shown.antt =====
-- What the user interface shows and returns is the plan of its boxes and its username.
use tunnel2tunnel.Base.{
  ℕ, zero, suc, ◌≤◌, Bool, true, false, Option, none, some, [], ◌∷◌, Text, ◌==◌, nat_eq,
  if◌then◌else◌, length, is_some, ◌≡◌, ◌≢◌, refl, sym, arith,
}
use mathlib.Core.Path.{subst}
use tunnel2tunnel.Base.Result.{Result, ok, err}
use tunnel2tunnel.Remote.Url.{Urls}
use tunnel2tunnel.Remote.Plan.{ExecutionPlan}
use tunnel2tunnel.Remote.Tui.{
  UiState, Focus, username_window, tree_window, edit_actions_window, submit_window,
  preview_actions_window, Outcome, running, failed, exited, Delta, move_tree, toggle_found,
  insert_text, get_elem?, TreeRow, set_status, no_changes_to_apply, has_no_effect, apply,
}
use tunnel2tunnel.Remote.Tui.Actions.{
  check, edit_actions, preview_actions, activate_item, activate_action, leave_preview, show_plan,
  submit_plan, open_preview, build_preview, has_previews, entered, with_focus,
}
use tunnel2tunnel.Remote.Tui.Handlers.{same_window, turn_focus}

abbrev pub in_preview : UiState → Bool
in_preview s = same_window s.focus preview_actions_window

module _ (urls : Urls) where
  -- The plan that is built for the state, with something to change.
  abbrev pub Fits : UiState → ExecutionPlan → Type 0
  Fits s plan = (build_preview urls s ≡ ok plan) × (length plan.previews ≢ 0)

  abbrev pub Shown : UiState → Option ExecutionPlan → Type 0
  Shown s none = in_preview s ≡ false
  Shown s (some plan) = (in_preview s ≡ true) × Fits s plan

  abbrev pub Sound : UiState → Outcome → Type 0
  Sound s running = Unit
  Sound s failed = ⊥
  Sound s (exited none) = Unit
  Sound s (exited (some plan)) = Fits s plan

  -- The preview is that of the state, and so is what was returned.
  abbrev pub IsSound : UiState → Type 0
  IsSound s = Shown s s.preview_plan × Sound s s.outcome

-- The program runs, and shows no preview.
abbrev pub Edits : UiState → Type 0
Edits s = (s.preview_plan ≡ none) × (s.outcome ≡ running) × (in_preview s ≡ false)

pub Edits-toggle_found :
    (found : Option TreeRow) (s : UiState) → Edits s → Edits (toggle_found found s)
unfolding toggle_found
Edits-toggle_found none s h = h
Edits-toggle_found (some row) s h = h

pub Edits-insert_text : (text : Text) (s : UiState) → Edits s → Edits (insert_text text s)
unfolding insert_text
Edits-insert_text [] s h = h
Edits-insert_text (c ∷ text) s h = h

pub Edits-tree : (delta : Delta) (s : UiState) → Edits s → Edits (move_tree delta s)
unfolding move_tree
Edits-tree delta s h = ground (arith, h)

pub Edits-edit_actions :
    (i : ℕ) (s : UiState) → i ≤ 1 → Edits s → Edits (activate_item (get_elem? (edit_actions s) i) s)
unfolding activate_item get_elem? edit_actions activate_action check
Edits-edit_actions zero s h k = ground (arith, k)
Edits-edit_actions (suc zero) s h k = ground (arith, k)
Edits-edit_actions (suc (suc i)) s h k = absurd (too_many h)
  where
    too_many : {i : ℕ} → suc (suc i) ≤ 1 → ⊥
    too_many h = omega (arith, h)

module _ (urls : Urls) where
  pub Edits-IsSound : (s : UiState) → Edits s → IsSound urls s
  Edits-IsSound s (none_shown, runs, editing) =
      (subst (Shown urls s) (sym none_shown) editing, subst (Sound urls s) (sym runs) tt)

  -- Behind a window of its own no preview is shown.
  Edits-of :
      (s : UiState) (plan : Option ExecutionPlan)
      → s.preview_plan ≡ plan
      → Shown urls s plan
      → s.outcome ≡ running
      → in_preview s ≡ false
      → Edits s
  Edits-of s none e h runs editing = (e, runs, editing)
  Edits-of s (some plan) e (h, fits) runs editing = cc

  IsSound-if :
      (test : Bool) (s t : UiState)
      → (test ≡ true → IsSound urls s)
      → (test ≡ false → IsSound urls t)
      → IsSound urls (if test then s else t)
  IsSound-if true s t h k = h refl
  IsSound-if false s t h k = k refl

  preview-IsSound :
      (s : UiState) (plan : ExecutionPlan)
      → s.preview_plan ≡ some plan
      → s.outcome ≡ running
      → Shown urls s (some plan)
      → IsSound urls s
  preview-IsSound s plan e runs h =
      (subst (Shown urls s) (sym e) h, subst (Sound urls s) (sym runs) tt)

  IsSound-show_plan :
      (found : Result ExecutionPlan) (s : UiState)
      → build_preview urls s ≡ found
      → Edits s
      → IsSound urls (show_plan urls found s)
  unfolding show_plan
  IsSound-show_plan (err e) s h k = Edits-IsSound s k
  IsSound-show_plan (ok plan) s h k =
      IsSound-if (length plan.previews == 0) _ _ (λ _. Edits-IsSound s k)
        (λ some_previews.
          preview-IsSound (entered urls plan s) plan refl k.1 (refl, (h, ground arith)))

  pub IsSound-submit_plan :
      (found : Result ExecutionPlan) (s : UiState)
      → Edits s
      → IsSound urls (submit_plan urls found s)
  unfolding submit_plan open_preview
  IsSound-submit_plan (err e) s k = Edits-IsSound s k
  IsSound-submit_plan (ok plan) s k =
      IsSound-if (length plan.previews == 0) _ _ (λ _. Edits-IsSound s k)
        (λ _. IsSound-show_plan (build_preview urls s) s refl k)

  pub IsSound-turn_focus :
      (next : Focus → Focus) (s : UiState) (plan : Option ExecutionPlan)
      → ((w : Focus) → same_window (next w) preview_actions_window ≡ false)
      → s.preview_plan ≡ plan
      → Shown urls s plan
      → s.outcome ≡ running
      → IsSound urls (turn_focus next s)
  unfolding turn_focus
  IsSound-turn_focus next s none away e h runs =
      IsSound-if (is_some s.preview_plan) _ _ (λ shows. absurd (clash shows))
        (λ _. Edits-IsSound (with_focus (next s.focus) s) (e, runs, away s.focus))
    where
      clash : is_some s.preview_plan ≡ true → ⊥
      clash shows = ground arith
  IsSound-turn_focus next s (some plan) away e h runs =
      IsSound-if (is_some s.preview_plan) _ _
        (λ _. preview-IsSound (with_focus preview_actions_window s) plan e runs (refl, h.1))
        (λ shows. absurd (clash shows))
    where
      clash : is_some s.preview_plan ≡ false → ⊥
      clash shows = ground arith

  pub IsSound-preview_actions :
      (i : ℕ) (s : UiState) (plan : ExecutionPlan)
      → i ≤ 2
      → s.preview_plan ≡ some plan
      → Shown urls s (some plan)
      → s.outcome ≡ running
      → IsSound urls (activate_item (get_elem? (preview_actions s) i) s)
  unfolding activate_item get_elem? preview_actions activate_action leave_preview
  IsSound-preview_actions zero s plan bound e h runs =
      IsSound-if (has_previews s.preview_plan) _ _
        (λ _.
          IsSound-if (has_previews s.preview_plan) _ _
            (λ _.
              (subst (Shown urls s) (sym e) h, subst (λ o. Sound urls s (exited o)) (sym e) h.1))
            (λ _. preview-IsSound (set_status no_changes_to_apply s) plan e runs h))
        (λ _. preview-IsSound (set_status (has_no_effect apply) s) plan e runs h)
  IsSound-preview_actions (suc zero) s plan bound e h runs =
      Edits-IsSound (leave_preview s) (refl, runs, refl)
  IsSound-preview_actions (suc (suc zero)) s plan bound e h runs =
      (subst (Shown urls s) (sym e) h, tt)
  IsSound-preview_actions (suc (suc (suc i))) s plan bound e h runs = absurd (too_many bound)
    where
      too_many : {i : ℕ} → suc (suc (suc i)) ≤ 2 → ⊥
      too_many h = omega (arith, h)

  other_window :
      (f window : Focus)
      → same_window f window ≡ true
      → same_window window preview_actions_window ≡ false
      → same_window f preview_actions_window ≡ false
  other_window username_window window same away = refl
  other_window tree_window window same away = refl
  other_window edit_actions_window window same away = refl
  other_window submit_window window same away = refl
  other_window preview_actions_window username_window same away = cc
  other_window preview_actions_window tree_window same away = cc
  other_window preview_actions_window edit_actions_window same away = cc
  other_window preview_actions_window submit_window same away = cc
  other_window preview_actions_window preview_actions_window same away = cc

  -- A key of a window other than the preview's.
  pub in_window :
      (s : UiState) (window : Focus)
      → same_window s.focus window ≡ true
      → same_window window preview_actions_window ≡ false
      → Shown urls s s.preview_plan
      → s.outcome ≡ running
      → Edits s
  in_window s window same away h runs =
      Edits-of s s.preview_plan refl h runs (other_window s.focus window same away)
