-- ===== src/Git.antt =====
-- What the split tools call of git (scripts/°base/git/°split_lib/git_ops.py runs one command for
-- each). Objects are named by their content and never change, so what they hold is a function of
-- their name; the refs are the state. `lookup`, `file_at` and `ref_at` are observations for the
-- laws: the entry of an index, the file of a tree at any depth, and the value of a full ref.

pub mod Memory
use tunnel2tunnel.Base.{
  true, starts_with, codes, ◌≡◌, Bool, Option, none, some, List, Text, ◌==◌, list_eq, nat_eq,
  if◌then◌else◌,
}
use tunnel2tunnel.Base.Result.{Result, ok}

pub record TreeEntry : Type 0 where
  pub mode : Text
  pub obj_type : Text
  pub blob_sha : Text

pub record Author : Type 0 where
  pub name : Text
  pub email : Text
  pub date : Text

-- The arguments of `git commit-tree`.
pub record CommitSpec : Type 0 where
  pub tree : Text
  pub parents : List Text
  pub message : Text
  pub author : Author
  pub committer : Author

pub record Git : Type 1 where
  pub Index : Type 0
  pub Refs : Type 0
  pub lookup : Index → Text → Option (Text × Text)
  pub file_at : Text → Text → Option (Text × Text)
  pub ref_at : Refs → Text → Option Text
  pub read_tree : Text → Result Index
  pub update_index_add : Index → Text → Text → Text → Result Index
  pub update_index_remove : Index → Text → Result Index
  pub write_tree : Index → Result Text
  pub ls_tree_entry : Text → Text → Result (Option TreeEntry)
  pub first_parent : Text → Option Text
  pub diff_tree : Text → Text → Result (List Text)
  pub tree_for_commit : Text → Result Text
  pub parents_of : Text → Result (List Text)
  pub commit_message : Text → Result Text
  pub subject_for_commit : Text → Result Text
  pub changed_paths_for_commit : Text → Result (List Text)
  pub author_info : Text → Result Author
  pub commit_tree : CommitSpec → Result Text
  pub write_trailers : Text → List (Text × Text) → Result Text
  pub parse_trailers : Text → Result Text
  pub rev_exists : Text → Bool
  pub is_ancestor : Text → Text → Bool
  pub rev_parse : Refs → Text → Option Text
  pub merge_base : Refs → Text → Text → Option Text
  pub rev_list_reverse : Refs → Option Text → Text → Result (List Text)
  pub rev_list_first_parent_reverse : Refs → Option Text → Text → Result (List Text)
  pub update_ref : Refs → Text → Text → Option Text → Result Refs

-- The documented behaviour of the plumbing commands.
pub record IsLawful (git : Git) : Type 0 where
  pub lookup-read_tree :
      (tree path : Text) {index : git.Index}
      → git.read_tree tree ≡ ok index
      → git.lookup index path ≡ git.file_at tree path
  pub lookup-update_index_add :
      (index : git.Index) (mode blob path p : Text) {after : git.Index}
      → git.update_index_add index mode blob path ≡ ok after
      → git.lookup after p ≡ (if p == path then some (mode, blob) else git.lookup index p)
  pub lookup-update_index_remove :
      (index : git.Index) (path p : Text) {after : git.Index}
      → git.update_index_remove index path ≡ ok after
      → git.lookup after p ≡ (if p == path then none else git.lookup index p)
  pub file_at-write_tree :
      (index : git.Index) (path : Text) {tree : Text}
      → git.write_tree index ≡ ok tree
      → git.file_at tree path ≡ git.lookup index path
  pub tree_for_commit-commit_tree :
      (spec : CommitSpec) {sha : Text}
      → git.commit_tree spec ≡ ok sha
      → git.tree_for_commit sha ≡ ok spec.tree
  pub ref_at-update_ref :
      (refs : git.Refs) (ref sha r : Text) (old : Option Text) {after : git.Refs}
      → git.update_ref refs ref sha old ≡ ok after
      → git.ref_at after r ≡ (if r == ref then some sha else git.ref_at refs r)
  -- A full name that is there is what a revision of that spelling means.
  pub rev_parse_of_ref_at :
      (refs : git.Refs) (ref : Text) {sha : Text}
      → starts_with ref (codes "refs/") ≡ true
      → git.ref_at refs ref ≡ some sha
      → git.rev_parse refs ref ≡ some sha
