-- ===== src/TreeOps/Described.antt =====
-- What the entries of `git diff-tree --name-status` say of two trees, and the splitting of the second
-- tree by the first. The source handles the five letters of `shown`; a type change has another.
use tunnel2tunnel.Base.{
  ◌≡◌, refl, sym, ◌∙◌, Bool, true, false, not, Option, none, some, List, [], ◌∷◌, Text, codes,
  arith, ◌==◌, ◌||◌, list_eq, nat_eq, if◌then◌else◌, ap, map, All,
}
use native.Mathlib.Decide.{ℕ_discrete}
use tunnel2tunnel.Base.Result.{ok}
use tunnel2tunnel.Git.{Git, IsLawful, TreeEntry}
use tunnel2tunnel.TreeOps.{
  PathChange, add_or_modify, delete, rename, copy, kind, raw_diff_for_commit, build_filtered_tree,
}
use tunnel2tunnel.TreeOps.Projection.{after, effect, build_filtered_tree-after}

-- An entry of the diff; a rename and a copy have the old path first.
pub data DiffEntry : Type 0 where
  added modified deleted : Text → DiffEntry
  renamed copied : Text → Text → DiffEntry

-- An entry with the letter by which git shows it.
abbrev pub shown : DiffEntry → PathChange
shown (added path) = record { status = codes "A"; path = path; old_path = none }
shown (modified path) = record { status = codes "M"; path = path; old_path = none }
shown (deleted path) = record { status = codes "D"; path = path; old_path = none }
shown (renamed old new) = record { status = codes "R"; path = new; old_path = some old }
shown (copied old new) = record { status = codes "C"; path = new; old_path = some old }

-- Whether the file at the path may differ by the entry.
abbrev pub names : Text → DiffEntry → Bool
names p (added path) = p == path
names p (modified path) = p == path
names p (deleted path) = p == path
names p (renamed old new) = p == new || p == old
names p (copied old new) = p == new

module _ (git : Git) (sha tree p : Text) where
  -- The commit has a file at the path, which its tree has.
  abbrev pub IsFile : Type 0
  IsFile =
      (entry : TreeEntry) × (git.ls_tree_entry sha p ≡ ok (some entry))
      × (git.file_at tree p ≡ some (entry.mode, entry.blob_sha))

  abbrev pub IsMoved : Bool → Type 0
  IsMoved true = IsFile
  IsMoved false = git.file_at tree p ≡ none

  -- What an entry that names the path says of it.
  abbrev pub Leaves : DiffEntry → Type 0
  Leaves (added path) = IsFile
  Leaves (modified path) = IsFile
  Leaves (deleted path) = git.file_at tree p ≡ none
  Leaves (renamed old new) = IsMoved (p == new)
  Leaves (copied old new) = IsFile

  -- The first entry that names the path says what is there, and is the only one.
  abbrev pub DescribesBy : Bool → DiffEntry → List DiffEntry → Type 0 → Type 0
  DescribesBy true entry entries rest = Leaves entry × All (λ other. names p other ≡ false) entries
  DescribesBy false entry entries rest = rest

  -- The entries describe the file at the path, by what was there; where none names it, it stays.
  abbrev pub Describes : Option (Text × Text) → List DiffEntry → Type 0
  Describes before [] = git.file_at tree p ≡ before
  Describes before (entry ∷ entries) =
      DescribesBy (names p entry) entry entries (Describes before entries)

  abbrev now : DiffEntry → Option (Text × Text) → Option (Text × Text)
  now entry before =
      let c = shown entry in effect git sha p (kind c.status) c.path c.old_path before

  kind_added : kind (codes "A") ≡ add_or_modify
  unfolding kind list_eq codes ℕ_discrete
  kind_added = refl

  kind_modified : kind (codes "M") ≡ add_or_modify
  unfolding kind list_eq codes ℕ_discrete
  kind_modified = refl

  kind_deleted : kind (codes "D") ≡ delete
  unfolding kind list_eq codes ℕ_discrete
  kind_deleted = refl

  kind_renamed : kind (codes "R") ≡ rename
  unfolding kind list_eq codes ℕ_discrete
  kind_renamed = refl

  kind_copied : kind (codes "C") ≡ copy
  unfolding kind list_eq codes ℕ_discrete
  kind_copied = refl

  now_unnamed :
      (entry : DiffEntry) (before : Option (Text × Text))
      → names p entry ≡ false
      → now entry before ≡ before
  now_unnamed (added path) before h = rw kind_added (ground arith)
  now_unnamed (modified path) before h = rw kind_modified (ground arith)
  now_unnamed (deleted path) before h = rw kind_deleted (ground arith)
  now_unnamed (renamed old new) before h = rw kind_renamed (ground arith)
  now_unnamed (copied old new) before h = rw kind_copied (ground arith)

  now_named :
      (entry : DiffEntry) (before : Option (Text × Text))
      → names p entry ≡ true
      → Leaves entry
      → now entry before ≡ git.file_at tree p
  now_named (added path) before h (e, l, f) = rw kind_added (ground arith)
  now_named (modified path) before h (e, l, f) = rw kind_modified (ground arith)
  now_named (deleted path) before h l = rw kind_deleted (ground arith)
  now_named (renamed old new) before h l = rw kind_renamed (ground arith)
  now_named (copied old new) before h (e, l, f) = rw kind_copied (ground arith)

  after_unnamed :
      (entries : List DiffEntry) (before : Option (Text × Text))
      → All (λ other. names p other ≡ false) entries
      → after git sha p (map shown entries) before ≡ before
  after_unnamed [] before h = refl
  after_unnamed (entry ∷ entries) before (h, hs) =
      ap (after git sha p (map shown entries)) (now_unnamed entry before h)
      ∙ after_unnamed entries before hs

  -- Following the changes from the first tree leads to the second.
  after-Describes :
      (entries : List DiffEntry) (before : Option (Text × Text))
      → Describes before entries
      → after git sha p (map shown entries) before ≡ git.file_at tree p
  after-Describes [] before h = sym h
  after-Describes (entry ∷ entries) before h =
      by_name (names p entry) refl h (after-Describes entries before)
    where
      by_name :
          (b : Bool)
          → names p entry ≡ b
          → DescribesBy b entry entries (Describes before entries)
          → (Describes before entries
              → after git sha p (map shown entries) before ≡ git.file_at tree p)
          → after git sha p (map shown entries) (now entry before) ≡ git.file_at tree p
      by_name true e (l, others) rest =
          after_unnamed entries (now entry before) others ∙ now_named entry before e l
      by_name false e l rest =
          ap (after git sha p (map shown entries)) (now_unnamed entry before e) ∙ rest l

-- A commit is split without loss: let its parent's tree be a clean tree on the kept paths and a
-- history tree on the others. If the diff of the commit is made of entries that describe its tree,
-- each an addition, a modification, a deletion, a rename or a copy, and git succeeds, then the
-- commit's tree is the new clean tree on the kept paths and the new history tree on the others,
-- where the clean side is filtered by the kept paths and the history side by the others.
pub build_filtered_tree-split :
    (git : Git) (law : IsLawful git) (sha : Text) (keep : Text → Bool)
    (parent tree clean history : Text) (entries : List DiffEntry) {clean' history' : Text}
    → ((p : Text)
        → git.file_at parent p ≡ (if keep p then git.file_at clean p else git.file_at history p))
    → raw_diff_for_commit git sha ≡ ok (map shown entries)
    → ((p : Text) → Describes git sha tree p (git.file_at parent p) entries)
    → build_filtered_tree git clean sha keep ≡ ok clean'
    → build_filtered_tree git history sha (λ p. not (keep p)) ≡ ok history'
    → (p : Text)
    → git.file_at tree p ≡ (if keep p then git.file_at clean' p else git.file_at history' p)
build_filtered_tree-split git law sha keep parent tree clean history entries before diff described
      kept others p =
    ground (
      arith,
      before p,
      after-Describes git sha tree p entries (git.file_at parent p) (described p),
      build_filtered_tree-after git sha p law keep clean (map shown entries) diff kept,
      build_filtered_tree-after git sha p law (λ q. not (keep q)) history (map shown entries) diff
          others,
    )
