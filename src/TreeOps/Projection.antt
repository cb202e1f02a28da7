-- ===== src/TreeOps/Projection.antt =====
-- What a filtered tree holds, path by path. The proofs follow one path through the changes.
use mathlib.Core.Path.{fun_ext}
use tunnel2tunnel.Base.{
  ◌≡◌, refl, sym, ◌∙◌, Bool, true, false, Option, none, some, List, [], ◌∷◌, Text, arith, ◌==◌,
  list_eq, nat_eq, if◌then◌else◌, ◌&&◌, ap,
}
use tunnel2tunnel.Base.Result.{Result, ok, err, ◌>>=◌, >>=-eq-ok}
use tunnel2tunnel.Git.{Git, IsLawful, TreeEntry}
use tunnel2tunnel.TreeOps.{
  PathChange, Kind, add_or_modify, delete, rename, copy, other, kind, raw_diff_for_commit,
  take_entry, filtered_change, filtered_changes, build_filtered_tree, path_change, path_changes,
  apply_path_changes,
}

-- The steps of a run that reads a tree into an index, changes the index, and writes it.
index_run :
    (git : Git) (read : Result git.Index) (loop : git.Index → Result git.Index) {tree : Text}
    → (read >>= λ index. loop index >>= λ filled. git.write_tree filled) ≡ ok tree
    → (index filled : git.Index) × (read ≡ ok index)
      × (loop index ≡ ok filled)
      × (git.write_tree filled ≡ ok tree)
index_run git (ok index) loop h =
    let (filled, run, end) = >>=-eq-ok (loop index) git.write_tree h in
    (index, filled, refl, run, end)
index_run git (err e) loop h = cc

module _ (git : Git) (sha p : Text) where
  -- The entry that `sha` has, or what was there.
  abbrev pub taken : Text → Option (Text × Text) → Option (Text × Text)
  taken path before = elim (git.ls_tree_entry sha path) [
    | ok found ↦ elim found [ none ↦ before | some entry ↦ some (entry.mode, entry.blob_sha) ]
    | err e ↦ before
  ]

  -- The value of the path `p` behind one change.
  abbrev pub effect : Kind → Text → Option Text → Option (Text × Text) → Option (Text × Text)
  effect add_or_modify path old before = if p == path then taken path before else before
  effect delete path old before = if p == path then none else before
  effect rename path none before = before
  effect rename path (some old) before =
      let removed = if p == old then none else before in
      if p == path then taken path removed else removed
  effect copy path old before = if p == path then taken path before else before
  effect other path old before = before

  abbrev pub after : List PathChange → Option (Text × Text) → Option (Text × Text)
  after [] before = before
  after (c ∷ changes) before = after changes (effect (kind c.status) c.path c.old_path before)

  module _ (law : IsLawful git) where
    take_entry-lookup :
        (path : Text) (index : git.Index) {index' : git.Index}
        → take_entry git sha path index ≡ ok index'
        → git.lookup index' p
          ≡ (if p == path then taken path (git.lookup index p) else git.lookup index p)
    take_entry-lookup path index {index'} h = go (git.ls_tree_entry sha path) refl
      where
        go :
            (r : Result (Option TreeEntry))
            → git.ls_tree_entry sha path ≡ r
            → git.lookup index' p
              ≡ (if p == path then taken path (git.lookup index p) else git.lookup index p)
        go (ok none) e = ground arith
        go (ok (some entry)) e = ground (
          arith,
          law.lookup-update_index_add index entry.mode entry.blob_sha path p {after = index'},
        )
        go (err x) e = ground arith

    module _ (keep : Text → Bool) where
      take_if-lookup :
          (b : Bool) (path : Text) (index : git.Index) {index' : git.Index}
          → keep path ≡ b
          → (if b then take_entry git sha path index else ok index) ≡ ok index'
          → git.lookup index' p
            ≡ (if keep p && p == path then taken path (git.lookup index p) else git.lookup index p)
      take_if-lookup true path index e h = ground (arith, take_entry-lookup path index h)
      take_if-lookup false path index e h = ground arith

      remove_if-lookup :
          (b : Bool) (path : Text) (index : git.Index) {index' : git.Index}
          → keep path ≡ b
          → (if b then git.update_index_remove index path else ok index) ≡ ok index'
          → git.lookup index' p ≡ (if keep p && p == path then none else git.lookup index p)
      remove_if-lookup true path index e h =
          ground (arith, law.lookup-update_index_remove index path p h)
      remove_if-lookup false path index e h = ground arith

      -- A kept path follows the change, and any other path stays.
      filtered_change-lookup :
          (k : Kind) (path : Text) (old : Option Text) (index : git.Index) {index' : git.Index}
          → filtered_change git k keep sha path old index ≡ ok index'
          → git.lookup index' p
            ≡ (if keep p then effect k path old (git.lookup index p) else git.lookup index p)
      filtered_change-lookup add_or_modify path old index h =
          ground (arith, take_if-lookup (keep path) path index refl h)
      filtered_change-lookup delete path old index h =
          ground (arith, remove_if-lookup (keep path) path index refl h)
      filtered_change-lookup rename path none index h = cc
      filtered_change-lookup rename path (some old) index h =
          let removed = if keep old then git.update_index_remove index old else ok index in
          let (middle, first, second) = >>=-eq-ok removed _ h in
          ground (
            arith,
            remove_if-lookup (keep old) old index refl first,
            take_if-lookup (keep path) path middle refl second,
          )
      filtered_change-lookup copy path none index h = cc
      filtered_change-lookup copy path (some old) index h =
          ground (arith, take_if-lookup (keep path) path index refl h)
      filtered_change-lookup other path old index h = ground arith

      filtered_changes-lookup :
          (changes : List PathChange) (index : git.Index) {index' : git.Index}
          → filtered_changes git keep sha changes index ≡ ok index'
          → git.lookup index' p
            ≡ (if keep p then after changes (git.lookup index p) else git.lookup index p)
      unfolding filtered_changes
      filtered_changes-lookup [] index h = ground arith
      filtered_changes-lookup (c ∷ changes) index h =
          let step = filtered_change git (kind c.status) keep sha c.path c.old_path index in
          let (middle, first, second) = >>=-eq-ok step (filtered_changes git keep sha changes) h in
          ground (
            arith,
            filtered_change-lookup (kind c.status) c.path c.old_path index first,
            filtered_changes-lookup changes middle second,
          )

      pub build_filtered_tree-after :
          (parent : Text) (changes : List PathChange) {tree : Text}
          → raw_diff_for_commit git sha ≡ ok changes
          → build_filtered_tree git parent sha keep ≡ ok tree
          → git.file_at tree p
            ≡ (if keep p then after changes (git.file_at parent p) else git.file_at parent p)
      unfolding build_filtered_tree
      build_filtered_tree-after parent changes {tree} diff h =
          let written = rw (diff, build_filtered_tree) at h in
          let (index, filled, start, loop, end) =
            index_run git (git.read_tree parent) (filtered_changes git keep sha changes) written in
          ground (
            arith,
            law.lookup-read_tree parent p start,
            filtered_changes-lookup changes index loop,
            law.file_at-write_tree filled p end,
          )

-- Applying changes is filtering that keeps every path.
path_change-filtered_change :
    (git : Git) (k : Kind) (sha path : Text) (old : Option Text) (index : git.Index)
    → path_change git k sha path old index ≡ filtered_change git k (λ _. true) sha path old index
path_change-filtered_change git add_or_modify sha path old index = refl
path_change-filtered_change git delete sha path old index = refl
path_change-filtered_change git rename sha path none index = refl
path_change-filtered_change git rename sha path (some old) index = refl
path_change-filtered_change git copy sha path none index = refl
path_change-filtered_change git copy sha path (some old) index = refl
path_change-filtered_change git other sha path old index = refl

path_changes-filtered_changes :
    (git : Git) (sha : Text) (changes : List PathChange) (index : git.Index)
    → path_changes git sha changes index ≡ filtered_changes git (λ _. true) sha changes index
unfolding path_changes filtered_changes
path_changes-filtered_changes git sha [] index = refl
path_changes-filtered_changes git sha (c ∷ changes) index = rw path_change-filtered_change (
    ap (λ f. filtered_change git (kind c.status) (λ _. true) sha c.path c.old_path index >>= f)
      (fun_ext (path_changes-filtered_changes git sha changes)))

-- Applying a commit's own changes to a tree gives the tree, or the error, of the filter that keeps
-- every path.
pub apply_path_changes-build_filtered_tree :
    (git : Git) (base_tree sha : Text) {changes : List PathChange}
    → raw_diff_for_commit git sha ≡ ok changes
    → apply_path_changes git base_tree changes sha
      ≡ build_filtered_tree git base_tree sha (λ _. true)
unfolding apply_path_changes build_filtered_tree
apply_path_changes-build_filtered_tree git base_tree sha {changes} diff =
    rw (diff, build_filtered_tree, fun_ext (path_changes-filtered_changes git sha changes)) refl

module _ (git : Git) (law : IsLawful git) (sha : Text) (keep : Text → Bool) where
  -- The filtered tree is put together from two trees, if git succeeds: a kept path has the file
  -- that the whole commit leaves there, and any other path the file that the parent has.
  pub build_filtered_tree-file_at :
      (parent : Text) {changes : List PathChange} {tree whole : Text}
      → raw_diff_for_commit git sha ≡ ok changes
      → build_filtered_tree git parent sha keep ≡ ok tree
      → apply_path_changes git parent changes sha ≡ ok whole
      → (p : Text)
      → git.file_at tree p ≡ (if keep p then git.file_at whole p else git.file_at parent p)
  build_filtered_tree-file_at parent {changes} {tree} {whole} diff filtered full p =
      let all_kept = sym (apply_path_changes-build_filtered_tree git parent sha diff) ∙ full in
      ground (
        arith,
        build_filtered_tree-after git sha p law keep parent changes diff filtered,
        build_filtered_tree-after git sha p law (λ _. true) parent changes diff all_kept,
      )

  -- A path that the filter drops keeps the parent's file.
  pub build_filtered_tree_unkept :
      (parent : Text) {tree : Text} (p : Text)
      → keep p ≡ false
      → build_filtered_tree git parent sha keep ≡ ok tree
      → git.file_at tree p ≡ git.file_at parent p
  unfolding build_filtered_tree
  build_filtered_tree_unkept parent {tree} p dropped h = go (raw_diff_for_commit git sha) refl
    where
      go :
          (r : Result (List PathChange))
          → raw_diff_for_commit git sha ≡ r
          → git.file_at tree p ≡ git.file_at parent p
      go (ok changes) e =
          ground (arith, build_filtered_tree-after git sha p law keep parent changes e h)
      go (err x) e = let q = rw (e, build_filtered_tree) at h in cc
