-- ===== src/TreeOps.antt =====
-- scripts/°base/git/°split_lib/tree_ops.py: a commit's own changes, and their application to
-- another tree through a scratch index.
pub mod Projection
pub mod Described
use tunnel2tunnel.Base.{
  split_on, ℕ, Bool, true, false, not, ◌&&◌, ◌||◌, Option, none, some, List, [], ◌∷◌, Text, codes,
  ◌==◌, list_eq, nat_eq, if◌then◌else◌,
}
use tunnel2tunnel.Base.Result.{Result, ok, err, index_error, assertion_error, ◌>>=◌}
use tunnel2tunnel.Git.{Git, TreeEntry}

pub record PathChange : Type 0 where
  pub status : Text
  pub path : Text
  pub old_path : Option Text

abbrev pub empty_tree_sha : Text
empty_tree_sha = codes "4b825dc642cb6eb9a060e54bf8d69288fbee4904"

-- One line of `git diff-tree --name-status`, split at its tabs.
parse_fields : List Text → Result PathChange
parse_fields ((c ∷ status) ∷ fields) =
    if c == b'R' || c == b'C' then moved c fields else plain (c ∷ status) fields
  where
    moved : ℕ → List Text → Result PathChange
    moved c (old ∷ new ∷ _) = ok (record { status = c ∷ []; path = new; old_path = some old })
    moved c _ = err index_error

    plain : Text → List Text → Result PathChange
    plain status (path ∷ _) = ok (record { status = status; path = path; old_path = none })
    plain status [] = err index_error
parse_fields _ = err index_error

parse_changes : List Text → Result (List PathChange)
parse_changes [] = ok []
parse_changes (line ∷ lines) =
    let rest = parse_changes lines in
    let parsed = parse_fields (split_on 9 line) in
    if line == [] then rest else (do change ← parsed; changes ← rest; ok (change ∷ changes))

-- What a change does, by its status.
pub data Kind : Type 0 where
  add_or_modify delete rename copy other : Kind

unfoldable pub kind : Text → Kind
kind status =
    if status == codes "A" || status == codes "M"
    then add_or_modify
    else if status == codes "D"
    then delete
    else if status == codes "R"
    then rename
    else if status == codes "C"
    then copy
    else other

module _ (git : Git) where
  -- The changes against the first parent, or against the empty tree for a root commit.
  unfoldable pub raw_diff_for_commit : Text → Result (List PathChange)
  unfolding parse_changes parse_fields split_on
  raw_diff_for_commit sha = do
    lines ← git.diff_tree (elim (git.first_parent sha) [ none ↦ empty_tree_sha | some p ↦ p ]) sha
    parse_changes lines

  -- The entry of `sha` at the path goes into the index, if there is one.
  abbrev pub take_entry : Text → Text → git.Index → Result git.Index
  take_entry sha path index = do
    found ← git.ls_tree_entry sha path
    elim found [
      | none ↦ ok index
      | some entry ↦ git.update_index_add index entry.mode entry.blob_sha path
    ]

  -- The body of the loop of `build_filtered_tree`, by the kind of the change.
  abbrev pub filtered_change :
      Kind → (Text → Bool) → Text → Text → Option Text → git.Index → Result git.Index
  filtered_change add_or_modify keep sha path old index =
      if keep path then take_entry sha path index else ok index
  filtered_change delete keep sha path old index =
      if keep path then git.update_index_remove index path else ok index
  filtered_change rename keep sha path none index = err assertion_error
  filtered_change rename keep sha path (some old) index = do
    removed ← if keep old then git.update_index_remove index old else ok index
    if keep path then take_entry sha path removed else ok removed
  filtered_change copy keep sha path none index = err assertion_error
  filtered_change copy keep sha path (some old) index =
      if keep path then take_entry sha path index else ok index
  filtered_change other keep sha path old index = ok index

  pub filtered_changes : (Text → Bool) → Text → List PathChange → git.Index → Result git.Index
  filtered_changes keep sha [] index = ok index
  filtered_changes keep sha (c ∷ changes) index =
      filtered_change (kind c.status) keep sha c.path c.old_path index
      >>= filtered_changes keep sha changes

  unfoldable pub build_filtered_tree : Text → Text → (Text → Bool) → Result Text
  unfolding filtered_changes
  build_filtered_tree parent_target_tree sha keep = do
    changes ← raw_diff_for_commit sha
    index ← git.read_tree parent_target_tree
    filled ← filtered_changes keep sha changes index
    git.write_tree filled

  -- The body of the loop of `apply_path_changes`.
  abbrev pub path_change : Kind → Text → Text → Option Text → git.Index → Result git.Index
  path_change add_or_modify sha path old index = take_entry sha path index
  path_change delete sha path old index = git.update_index_remove index path
  path_change rename sha path none index = err assertion_error
  path_change rename sha path (some old) index = do
    removed ← git.update_index_remove index old
    take_entry sha path removed
  path_change copy sha path none index = err assertion_error
  path_change copy sha path (some old) index = take_entry sha path index
  path_change other sha path old index = ok index

  pub path_changes : Text → List PathChange → git.Index → Result git.Index
  path_changes sha [] index = ok index
  path_changes sha (c ∷ changes) index =
      path_change (kind c.status) sha c.path c.old_path index >>= path_changes sha changes

  unfoldable pub apply_path_changes : Text → List PathChange → Text → Result Text
  unfolding path_changes
  apply_path_changes base_tree changes sha_for_blobs = do
    index ← git.read_tree base_tree
    filled ← path_changes sha_for_blobs changes index
    git.write_tree filled
