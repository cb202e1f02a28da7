-- ===== src/History/Replay/Resolved.antt =====
-- What the resolution of conflicts leaves of the refs: it stays on the scratch branch.
use tunnel2tunnel.Base.{
  true, false, none, some, Option, List, [], ◌∷◌, Text, codes, ◌≡◌, ◌≢◌, sym, ◌∙◌, starts_with,
  ◌==◌, not, ◌&&◌, all, list_eq, nat_eq, contains,
}
use tunnel2tunnel.Base.Result.{Result, ok, err}
use tunnel2tunnel.Base.Exec.{lift, ◌>>=◌}
use tunnel2tunnel.Git.{IsLawful, TreeEntry}
use tunnel2tunnel.Split.Host.{Host}
use tunnel2tunnel.History.Checkout.{
  Checkout, Command, Completed, IsDocumented, scratch_ref, run_git, on_files, require, checked,
  head_sha, conflicted_paths,
}
use tunnel2tunnel.History.Conflicts.{
  replay_documentation_names, first_fold_auto_resolve_paths, is_empty_cherry_pick, commit_empty,
  none_left, is_documentation, take_ours, take_all_ours, resolve_already_replayed_conflict,
  keep_documentation, resolve_documentation_conflict, write_and_add, drop_attributes,
  restore_attributes, restore_original, attributes_resolved, omit_path, reuse_path, reuse_paths,
  auto_resolve_first_fold_conflicts,
}
use tunnel2tunnel.History.Replay.{
  continue_pick, resolve_pick, settle_pick, finish_merge_commit, merge_base_sha,
}
use tunnel2tunnel.History.Replay.Scratch.{
  Works, Works-gets, Works-pure, Works-raise, Works-lift, Works-asks, Works-if, Works-bind,
}

module _ (host : Host) (desk : Checkout host.git.Refs) (law : IsLawful host.git)
    (doc : IsDocumented host desk) (ref : Text) (value : Option Text)
    (full : starts_with ref (codes "refs/") ≡ true) (other : ref ≢ scratch_ref) where
  pub run_git-Works : (command : Command) → Works host desk ref value (run_git host desk command)
  unfolding run_git
  run_git-Works command = record {
    at = λ before h. (
      doc.ref_at-run command before ref full (λ e. apart (sym e ∙ h.1)) ∙ h.0,
      doc.head_ref-run command before ∙ h.1,
    );
  }
    where
      apart : some ref ≡ some scratch_ref → ⊥
      apart e = other (cc)

  pub write_file-Works :
      (path content : Text)
      → Works host desk ref value (on_files host desk (desk.write_file path content))
  unfolding on_files
  write_file-Works path content = record {
    at = λ before h. (h.0, doc.head_ref-write_file path content before.1 ∙ h.1);
  }

  pub unlink-Works :
      (path : Text) → Works host desk ref value (on_files host desk (desk.unlink path))
  unfolding on_files
  unlink-Works path = record { at = λ before h. (h.0, doc.head_ref-unlink path before.1 ∙ h.1) }

  ruleset works_rules = (
    Works-gets, Works-pure, Works-raise, Works-lift, Works-asks, Works-if, Works-bind,
    run_git-Works, write_file-Works, unlink-Works,
  )

  pub checked-Works : (command : Command) → Works host desk ref value (checked host desk command)
  unfolding checked require
  checked-Works command = search works_rules depth 10

  pub conflicted_paths-Works : Works host desk ref value (conflicted_paths host desk)
  unfolding conflicted_paths
  conflicted_paths-Works = search works_rules depth 10

  pub head_sha-Works : Works host desk ref value (head_sha host desk)
  unfolding head_sha
  head_sha-Works = search works_rules depth 10

  pub is_empty-Works :
      (result : Completed) → Works host desk ref value (is_empty_cherry_pick host desk result)
  unfolding is_empty_cherry_pick
  is_empty-Works result = search (works_rules, conflicted_paths-Works) depth 10

  pub commit_empty-Works : Works host desk ref value (commit_empty host desk)
  unfolding commit_empty
  commit_empty-Works = checked-Works _

  pub none_left-Works : Works host desk ref value (none_left host desk)
  unfolding none_left
  none_left-Works = search (works_rules, conflicted_paths-Works) depth 10

  pub take_ours-Works : (path : Text) → Works host desk ref value (take_ours host desk path)
  unfolding take_ours
  take_ours-Works path = search (works_rules, checked-Works) depth 10

  pub take_all_ours-Works :
      (paths : List Text) → Works host desk ref value (take_all_ours host desk paths)
  unfolding take_all_ours
  take_all_ours-Works [] = Works-pure _ _ _ _ tt
  take_all_ours-Works (path ∷ paths) =
      search (works_rules, take_ours-Works path, take_all_ours-Works paths)

  pub already_replayed-Works :
      (sha onto : Text)
      → Works host desk ref value (resolve_already_replayed_conflict host desk sha onto)
  unfolding resolve_already_replayed_conflict
  already_replayed-Works sha onto =
      search (works_rules, conflicted_paths-Works, take_all_ours-Works, none_left-Works) depth 12

  pub keep_documentation-Works :
      (paths : List Text) → Works host desk ref value (keep_documentation host desk paths)
  unfolding keep_documentation
  keep_documentation-Works [] = Works-pure _ _ _ _ tt
  keep_documentation-Works (path ∷ paths) =
      Works-bind _ _ _ _ _ _
        (Works-if _ _ _ _ (contains replay_documentation_names path) _ _ (take_ours-Works path)
          (checked-Works _))
        (λ x. keep_documentation-Works paths)

  pub documentation-Works :
      (paths : List Text)
      → Works host desk ref value (resolve_documentation_conflict host desk paths)
  unfolding resolve_documentation_conflict
  documentation-Works paths =
      Works-if _ _ _ _ (not (paths == []) && all is_documentation paths) _ _
        (search (works_rules, keep_documentation-Works paths, none_left-Works))
        (Works-pure _ _ _ _ false)

  pub write_and_add-Works :
      (path content : Text) → Works host desk ref value (write_and_add host desk path content)
  unfolding write_and_add
  write_and_add-Works path content = search (works_rules, checked-Works) depth 10

  pub drop_attributes-Works : Works host desk ref value (drop_attributes host desk)
  unfolding drop_attributes
  drop_attributes-Works = search works_rules depth 14

  pub restore_attributes-Works :
      (onto : Text) → Works host desk ref value (restore_attributes host desk onto)
  unfolding restore_attributes
  restore_attributes-Works onto = Works-bind _ _ _ _ _ _ (Works-lift _ _ _ _ _) by_entry
    where
      by_entry :
          (entry : Option TreeEntry)
          → Works host desk ref value (elim entry [
            | none ↦ drop_attributes host desk
            | some found ↦
                lift (desk.show_path_at onto (codes ".gitattributes"))
                >>= write_and_add host desk (codes ".gitattributes")
          ])
      by_entry none = drop_attributes-Works
      by_entry (some found) = search (works_rules, write_and_add-Works)

  pub restore_original-Works :
      (base onto : Text) → Works host desk ref value (restore_original host desk base onto)
  unfolding restore_original
  restore_original-Works base onto = search (works_rules, restore_attributes-Works) depth 10

  pub attributes-Works :
      (paths : List Text) (base onto : Text)
      → Works host desk ref value (attributes_resolved host desk paths base onto)
  unfolding attributes_resolved
  attributes-Works paths base onto = search (works_rules, restore_original-Works) depth 10

  pub omit_path-Works :
      (conflicted : List Text) (path : Text)
      → Works host desk ref value (omit_path host desk conflicted path)
  unfolding omit_path
  omit_path-Works conflicted path = search (works_rules, checked-Works) depth 10

  pub reuse_path-Works :
      (old : Text) (conflicted : List Text) (path : Text)
      → Works host desk ref value (reuse_path host desk old conflicted path)
  unfolding reuse_path
  reuse_path-Works old conflicted path = by_content (desk.show_path_at old path)
    where
      by_content :
          (shown : Result Text)
          → Works host desk ref value (elim shown [
            | ok content ↦ write_and_add host desk path content
            | err e ↦ omit_path host desk conflicted path
          ])
      by_content (ok content) = write_and_add-Works path content
      by_content (err e) = omit_path-Works conflicted path

  pub reuse_paths-Works :
      (old : Text) (conflicted paths : List Text)
      → Works host desk ref value (reuse_paths host desk old conflicted paths)
  unfolding reuse_paths
  reuse_paths-Works old conflicted [] = Works-pure _ _ _ _ tt
  reuse_paths-Works old conflicted (path ∷ paths) =
      search
        (works_rules, reuse_path-Works old conflicted path, reuse_paths-Works old conflicted paths)

  pub auto_resolve-Works :
      (base : Text) (paths : List Text)
      → Works host desk ref value (auto_resolve_first_fold_conflicts host desk base paths)
  unfolding auto_resolve_first_fold_conflicts
  auto_resolve-Works base [] = Works-pure _ _ _ _ []
  auto_resolve-Works base (path ∷ paths) =
      Works-if _ _ _ _ (contains first_fold_auto_resolve_paths path) _ _
        (Works-bind _ _ _ _ _ _ (Works-lift _ _ _ _ (desk.show_path_at base path)) (λ content.
          Works-bind _ _ _ _ _ _ (write_and_add-Works path content) (λ x.
            Works-bind _ _ _ _ _ _ (auto_resolve-Works base paths)
              (λ resolved. Works-pure _ _ _ _ (path ∷ resolved)))))
        (auto_resolve-Works base paths)

  pub continue_pick-Works :
      (sha onto : Text) → Works host desk ref value (continue_pick host desk sha onto)
  unfolding continue_pick
  continue_pick-Works sha onto = search (works_rules, is_empty-Works, commit_empty-Works) depth 14

  pub resolve_pick-Works :
      (sha onto : Text) (result : Completed)
      → Works host desk ref value (resolve_pick host desk sha onto result)
  unfolding resolve_pick
  resolve_pick-Works sha onto result =
      search
        (
          works_rules, conflicted_paths-Works, documentation-Works, already_replayed-Works,
          continue_pick-Works,
        )
        depth 16

  pub settle_pick-Works :
      (sha onto : Text) (result : Completed)
      → Works host desk ref value (settle_pick host desk sha onto result)
  unfolding settle_pick
  settle_pick-Works sha onto result =
      search (works_rules, is_empty-Works, commit_empty-Works, resolve_pick-Works) depth 14

  pub finish_merge-Works : Works host desk ref value (finish_merge_commit host desk)
  unfolding finish_merge_commit
  finish_merge-Works = search (works_rules, checked-Works, head_sha-Works)

  pub merge_base-Works :
      (base onto : Text) → Works host desk ref value (merge_base_sha host desk base onto)
  unfolding merge_base_sha
  merge_base-Works base onto = search works_rules
