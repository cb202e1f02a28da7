-- ===== src/Git/Memory.antt =====
-- A git of fixed objects, given by tables, over refs in a dict. It shows that the laws can hold,
-- and the runs of the split tools use it.
use tunnel2tunnel.Base.{
  ℕ, zero, suc, ◌≡◌, refl, Bool, true, false, ◌&&◌, ◌||◌, Option, none, some, List, [], ◌∷◌, ◌++◌,
  Text, codes, arith, ◌==◌, list_eq, nat_eq, pair_eq, option_eq, if◌then◌else◌, length, is_some,
}
use tunnel2tunnel.Base.Dict.{Dict, lookup, insert, erase, lookup-insert, lookup-erase}
use tunnel2tunnel.Base.Result.{Result, ok, err, called_process_error}
use tunnel2tunnel.Git.{Git, IsLawful, CommitSpec}

abbrev pub Files : Type 0
Files = Dict Text (Text × Text)

pub record Objects : Type 0 where
  pub trees : Dict Text Files
  pub commits : Dict Text CommitSpec
  pub diffs : Dict Text (List Text)
  pub paths : Dict Text (List Text)

-- The first name of a content that stands for it.
abbrev pub named {ℓ} : {A : Type ℓ} → (A → A → Bool) → A → Dict Text A → Option Text
named same a [] = none
named same a ((name, b) ∷ d) = let rest = named same a d in if same a b then some name else rest

unfoldable pub or_fail {ℓ} : {A : Type ℓ} → Option A → Result A
or_fail none = err called_process_error
or_fail (some a) = ok a

abbrev pub same_commit : CommitSpec → CommitSpec → Bool
same_commit a b = a.tree == b.tree && a.parents == b.parents && a.message == b.message

module _ (o : Objects) where
  unfoldable pub tree_of : Text → Option Text
  tree_of sha = elim (lookup sha o.commits) [ none ↦ none | some c ↦ some c.tree ]

  unfoldable pub files_of : Text → Files
  files_of tree = elim (lookup tree o.trees) [ none ↦ [] | some files ↦ files ]

  -- The tree of a commit, or the tree itself.
  unfoldable pub tree_ish : Text → Text
  tree_ish sha = elim (tree_of sha) [ none ↦ sha | some tree ↦ tree ]

  unfoldable pub confirmed : Files → Option Text → Result Text
  confirmed files none = err called_process_error
  confirmed files (some name) =
      if lookup name o.trees == some files then ok name else err called_process_error

  unfoldable pub confirmed_commit : CommitSpec → Option Text → Result Text
  confirmed_commit spec none = err called_process_error
  confirmed_commit spec (some name) =
      if tree_of name == some spec.tree then ok name else err called_process_error

  -- The commits from the tip back along the first parents to the lower bound, oldest first.
  unfoldable pub walk : ℕ → Option Text → Text → List Text → List Text
  walk zero from sha below = below
  walk (suc fuel) from sha below =
      let found = sha ∷ below in
      if some sha == from then below else elim (lookup sha o.commits) [
        | none ↦ below
        | some c ↦ elim c.parents [ [] ↦ found | parent ∷ _ ↦ walk fuel from parent found ]
      ]

  unfoldable pub parse : Dict Text Text → Text → Option Text
  parse refs name = elim (lookup name refs) [
    | some sha ↦ some sha
    | none ↦ elim (lookup (codes "refs/heads/" ++ name) refs) [
      | some sha ↦ some sha
      | none ↦ if is_some (lookup name o.commits) then some name else none
    ]
  ]

  unfoldable pub walk_refs : Dict Text Text → Option Text → Text → Result (List Text)
  walk_refs refs from name = elim (parse refs name) [
    | none ↦ err called_process_error
    | some tip ↦ ok (walk (suc (length o.commits)) from tip [])
  ]

  abbrev pub memory : Git
  memory = record {
    Index = Files;
    Refs = Dict Text Text;
    lookup = λ index path. lookup path index;
    file_at = λ tree path. lookup path (files_of tree);
    ref_at = λ refs ref. lookup ref refs;
    read_tree = λ tree. or_fail (lookup tree o.trees);
    update_index_add = λ index mode blob path. ok (insert path (mode, blob) index);
    update_index_remove = λ index path. ok (erase path index);
    write_tree = λ index. confirmed index (named ◌==◌ index o.trees);
    ls_tree_entry = λ sha path. ok (elim (lookup path (files_of (tree_ish sha))) [
      | none ↦ none
      | some (mode, blob) ↦ some (record { mode = mode; obj_type = codes "blob"; blob_sha = blob })
    ]);
    first_parent = λ sha. elim (lookup sha o.commits) [
      | none ↦ none
      | some c ↦ elim c.parents [ [] ↦ none | parent ∷ _ ↦ some parent ]
    ];
    diff_tree = λ base sha. or_fail (lookup sha o.diffs);
    tree_for_commit = λ sha. or_fail (tree_of sha);
    parents_of = λ sha. elim (lookup sha o.commits) [
      | none ↦ err called_process_error
      | some c ↦ ok c.parents
    ];
    commit_message = λ sha. elim (lookup sha o.commits) [
      | none ↦ err called_process_error
      | some c ↦ ok c.message
    ];
    subject_for_commit = λ sha. elim (lookup sha o.commits) [
      | none ↦ err called_process_error
      | some c ↦ ok c.message
    ];
    changed_paths_for_commit = λ sha. or_fail (lookup sha o.paths);
    author_info = λ sha. elim (lookup sha o.commits) [
      | none ↦ err called_process_error
      | some c ↦ ok c.author
    ];
    commit_tree = λ spec. confirmed_commit spec (named same_commit spec o.commits);
    write_trailers = λ message values. ok message;
    parse_trailers = λ message. ok [];
    rev_exists = λ sha. is_some (lookup sha o.commits);
    is_ancestor = λ a b. a == b;
    rev_parse = parse;
    merge_base = λ refs a b. parse refs b;
    rev_list_reverse = walk_refs;
    rev_list_first_parent_reverse = walk_refs;
    update_ref = λ refs ref sha old.
        if old == none || old == lookup ref refs
        then ok (insert ref sha refs)
        else err called_process_error;
  }

  confirmed-lookup :
      (files : Files) (found : Option Text) {tree : Text}
      → confirmed files found ≡ ok tree
      → lookup tree o.trees ≡ some files
  unfolding confirmed
  confirmed-lookup files none h = cc
  confirmed-lookup files (some name) h = ground arith

  confirmed_commit-tree_of :
      (spec : CommitSpec) (found : Option Text) {sha : Text}
      → confirmed_commit spec found ≡ ok sha
      → tree_of sha ≡ some spec.tree
  unfolding confirmed_commit
  confirmed_commit-tree_of spec none h = cc
  confirmed_commit-tree_of spec (some name) h = ground arith

  or_fail-ok {ℓ} : {A : Type ℓ} (x : Option A) {a : A} → or_fail x ≡ ok a → x ≡ some a
  unfolding or_fail
  or_fail-ok none h = cc
  or_fail-ok (some a) h = cc

  or_fail-some {ℓ} : {A : Type ℓ} {x : Option A} {a : A} → x ≡ some a → or_fail x ≡ ok a
  unfolding or_fail
  or_fail-some h = rw h refl

  insert_if :
      (b : Bool) (refs : Dict Text Text) (ref sha r : Text) {after : Dict Text Text}
      → (if b then ok (insert ref sha refs) else err called_process_error) ≡ ok after
      → lookup r after ≡ (if r == ref then some sha else lookup r refs)
  insert_if true refs ref sha r h = ground (arith, lookup-insert r ref sha refs)
  insert_if false refs ref sha r h = cc

  parse-lookup :
      (refs : Dict Text Text) (ref : Text) {sha : Text}
      → lookup ref refs ≡ some sha
      → parse refs ref ≡ some sha
  unfolding parse
  parse-lookup refs ref found = rw (found, parse) refl

  pub memory-IsLawful : IsLawful memory
  unfolding files_of
  memory-IsLawful = record {
    lookup-read_tree = λ tree path h. ground (arith, or_fail-ok (lookup tree o.trees) h);
    lookup-update_index_add =
        λ index mode blob path p h. ground (arith, lookup-insert p path (mode, blob) index);
    lookup-update_index_remove = λ index path p h. ground (arith, lookup-erase p path index);
    file_at-write_tree =
        λ index path h. ground (arith, confirmed-lookup index (named ◌==◌ index o.trees) h);
    tree_for_commit-commit_tree =
        λ spec h. or_fail-some (confirmed_commit-tree_of spec (named same_commit spec o.commits) h);
    ref_at-update_ref =
        λ refs ref sha r old h. insert_if (old == none || old == lookup ref refs) refs ref sha r h;
    rev_parse_of_ref_at = λ refs ref full found. parse-lookup refs ref found;
  }
