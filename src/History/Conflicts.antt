-- ===== src/History/Conflicts.antt =====
-- What is resolved without the user: an empty cherry-pick, instruction files, commits that are there
-- already, conflict paths that git generates, and (gitattributes_safety.py) `.gitattributes`.
use mathlib.Core.List.{reverse}
use tunnel2tunnel.Base.{
  Bool, true, false, not, ◌&&◌, ◌||◌, none, some, List, [], ◌∷◌, ◌++◌, Text, codes, ◌==◌, list_eq,
  nat_eq, if◌then◌else◌, starts_with, contains, any, all, keep_if, length, leb, break_at, newline,
}
use tunnel2tunnel.Base.Result.{ok, err, history_master_error}
use tunnel2tunnel.Base.Exec.{Exec, gets, lift, pure, raise, ◌>>=◌, ◌>>◌}
use tunnel2tunnel.Split.Host.{Host}
use tunnel2tunnel.History.Checkout.{
  Checkout, Completed, Place, checkout_ours, add, rm, rm_cached, commit, checked, run_git,
  conflicted_paths, on_files,
}
use tunnel2tunnel.History.Attributes.{gitattributes_path, should_protect}

abbrev pub first_fold_auto_resolve_paths : List Text
first_fold_auto_resolve_paths = codes "README.md" ∷ codes ".gitignore" ∷ []

abbrev pub replay_documentation_names : List Text
replay_documentation_names = codes "CLAUDE.md" ∷ codes "AGENTS.md" ∷ []

-- `part in text`
unfoldable pub has_part : Text → Text → Bool
has_part part [] = starts_with [] part
has_part part (c ∷ text) = let rest = has_part part text in starts_with (c ∷ text) part || rest

-- `path.rsplit("~", 1)`, for a path with a "~"
unfoldable pub rsplit_tilde : Text → Text × Text
rsplit_tilde path =
    let (suffix, before) = break_at b'~' (reverse path) in
    (reverse (elim before [ [] ↦ [] | _ ∷ name ↦ name ]), reverse suffix)

unfoldable pub is_hex : Text → Bool
is_hex = all (contains (codes "0123456789abcdefABCDEF"))

unfoldable pub is_documentation : Text → Bool
is_documentation path =
    contains replay_documentation_names path
    || any (λ name. starts_with path (name ++ codes "~")) replay_documentation_names

module _ (host : Host) (desk : Checkout host.git.Refs) where
  unfoldable pub is_empty_cherry_pick : Completed → Exec (Place host desk) Bool
  is_empty_cherry_pick result = conflicted_paths host desk >>= λ paths. pure (
      paths == []
      && has_part (codes "previous cherry-pick is now empty")
          (result.stdout ++ (newline ∷ result.stderr)))

  unfoldable pub commit_empty : Exec (Place host desk) (Unit {0})
  commit_empty = checked host desk (commit (codes "--allow-empty" ∷ codes "--no-edit" ∷ []))

  unfoldable pub none_left : Exec (Place host desk) Bool
  none_left = conflicted_paths host desk >>= λ paths. pure (paths == [])

  unfoldable pub take_ours : Text → Exec (Place host desk) (Unit {0})
  take_ours path = checked host desk (checkout_ours path) >> checked host desk (add path)

  unfoldable pub take_all_ours : List Text → Exec (Place host desk) (Unit {0})
  take_all_ours [] = pure tt
  take_all_ours (path ∷ paths) = take_ours path >> take_all_ours paths

  unfoldable pub resolve_already_replayed_conflict : Text → Text → Exec (Place host desk) Bool
  resolve_already_replayed_conflict sha onto =
      if host.git.is_ancestor sha onto
      then (conflicted_paths host desk >>= λ conflicted.
          if conflicted == [] then pure false else (take_all_ours conflicted >> none_left))
      else pure false

  unfoldable pub keep_documentation : List Text → Exec (Place host desk) (Unit {0})
  keep_documentation [] = pure tt
  keep_documentation (path ∷ paths) =
      (if contains replay_documentation_names path
        then take_ours path
        else checked host desk (rm path))
      >> keep_documentation paths

  unfoldable pub resolve_documentation_conflict : List Text → Exec (Place host desk) Bool
  resolve_documentation_conflict conflicted =
      if not (conflicted == []) && all is_documentation conflicted
      then (keep_documentation conflicted >> none_left)
      else pure false

  unfoldable pub is_generated_conflict_path : Text → List Text → desk.Work → Bool
  is_generated_conflict_path path conflicted work =
      let (original_path, suffix) = rsplit_tilde path in
      contains path b'~'
      && (leb 40 (length suffix) && leb (length suffix) 40)
      && is_hex suffix
      && (contains conflicted original_path || desk.path_exists original_path work)

  unfoldable pub write_and_add : Text → Text → Exec (Place host desk) (Unit {0})
  write_and_add path content =
      on_files host desk (desk.write_file path content) >> checked host desk (add path)

  -- The commit has no `.gitattributes`: it goes from the working tree and the index.
  unfoldable pub drop_attributes : Exec (Place host desk) (Unit {0})
  drop_attributes = gets (λ place. desk.path_exists gitattributes_path place.1) >>= λ there.
      (if there then on_files host desk (desk.unlink gitattributes_path) else pure tt)
      >> run_git host desk (rm_cached gitattributes_path)
      >> pure tt

  unfoldable pub restore_attributes : Text → Exec (Place host desk) (Unit {0})
  restore_attributes onto = lift (host.git.ls_tree_entry onto gitattributes_path) >>= λ entry.
      elim entry [
        | none ↦ drop_attributes
        | some found ↦
            lift (desk.show_path_at onto gitattributes_path) >>= write_and_add gitattributes_path
      ]

  unfoldable pub restore_original : Text → Text → Exec (Place host desk) Bool
  restore_original base_sha onto = lift (should_protect host desk base_sha onto) >>= λ protect.
      if protect then (restore_attributes onto >> pure true) else pure false

  -- `GITATTRIBUTES_PATH in conflicted and restore_original(…)`
  unfoldable pub attributes_resolved : List Text → Text → Text → Exec (Place host desk) Bool
  attributes_resolved conflicted base_sha onto =
      if contains conflicted gitattributes_path then restore_original base_sha onto else pure false

  -- The conflicted paths that are not resolved with `.gitattributes`.
  unfoldable pub still_conflicted : Bool → List Text → List Text
  still_conflicted resolved conflicted =
      keep_if (λ path. not (path == gitattributes_path && resolved)) conflicted

  -- The original merge has no file at the path: it is dropped, if it is git's own.
  unfoldable pub omit_path : List Text → Text → Exec (Place host desk) (Unit {0})
  omit_path conflicted path =
      gets (λ place. is_generated_conflict_path path conflicted place.1) >>= λ generated.
      if generated
      then checked host desk (rm path)
      else raise (history_master_error (codes "no blob for a conflicted path"))

  unfoldable pub reuse_path : Text → List Text → Text → Exec (Place host desk) (Unit {0})
  reuse_path old_merge_sha conflicted path = elim (desk.show_path_at old_merge_sha path) [
    | ok content ↦ write_and_add path content
    | err e ↦ omit_path conflicted path
  ]

  unfoldable pub reuse_paths : Text → List Text → List Text → Exec (Place host desk) (Unit {0})
  reuse_paths old_merge_sha conflicted [] = pure tt
  reuse_paths old_merge_sha conflicted (path ∷ paths) =
      reuse_path old_merge_sha conflicted path >> reuse_paths old_merge_sha conflicted paths

  -- The paths that are resolved by what the base has there.
  unfoldable pub auto_resolve_first_fold_conflicts :
      Text → List Text → Exec (Place host desk) (List Text)
  auto_resolve_first_fold_conflicts base_sha [] = pure []
  auto_resolve_first_fold_conflicts base_sha (path ∷ paths) =
      let rest = auto_resolve_first_fold_conflicts base_sha paths in
      if contains first_fold_auto_resolve_paths path
      then (lift (desk.show_path_at base_sha path) >>= λ content.
          write_and_add path content >> (rest >>= λ resolved. pure (path ∷ resolved)))
      else rest
