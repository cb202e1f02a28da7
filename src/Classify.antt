-- ===== src/Classify.antt =====
-- scripts/°base/git/°split_lib/classify.py: which paths are AI or base content by the `.ai-ignore`
-- files, and what a commit contains.
pub mod Rules
pub mod Commits
use tunnel2tunnel.Base.{
  ℕ, Bool, true, false, not, ◌&&◌, ◌||◌, Option, none, some, List, [], ◌∷◌, ◌++◌, map, Text, codes,
  newline, is_space, after_prefix, starts_with, ends_with, remove_prefix, ◌==◌, contains, list_eq,
  nat_eq, if◌then◌else◌, any, all, keep_if, splitlines, break_at,
}

-- `[line for line in text.splitlines() if line and not line.startswith("#")]`; no rules if the
-- file is not there.
unfoldable pub ai_ignore_rules : Option Text → List Text
ai_ignore_rules none = []
ai_ignore_rules (some text) =
    keep_if (λ line. not (line == []) && not (starts_with line (codes "#"))) (splitlines text)

-- The ignore files below the root's, each with the path relative to its directory.
ai_ignore_levels : List Text → List Text → List (List Text × List Text)
ai_ignore_levels directory [] = []
ai_ignore_levels directory (part ∷ []) = []
ai_ignore_levels directory (part ∷ next ∷ rest) =
    let below = directory ++ part ∷ [] in
    (below, next ∷ rest) ∷ ai_ignore_levels below (next ∷ rest)

-- The directories whose `.ai-ignore` applies to a path, from the root's to the deepest.
unfoldable pub ai_ignore_files : List Text → List (List Text × List Text)
unfolding ai_ignore_levels
ai_ignore_files parts = ([], parts) ∷ ai_ignore_levels [] parts

-- A pattern that ends in "/" covers what is below the directory.
directory_pattern : Text → Text
directory_pattern pattern =
    let relative = remove_prefix pattern (codes "/") in
    if ends_with relative (codes "/") then relative ++ codes "**" else relative

has_wildcard : Text → Bool
has_wildcard pattern = any (contains (b'*' ∷ b'?' ∷ b'[' ∷ [])) pattern

unfoldable pub glob_candidates : Text → List Text
unfolding directory_pattern has_wildcard
glob_candidates pattern =
    let p = directory_pattern pattern in
    if not (contains p b'/') && has_wildcard p then p ∷ (codes "**/" ++ p) ∷ [] else p ∷ []

-- `AI_SUBJECT_RE.match(subject)`: `^(\[.*\]\s*)?.*\bai:`. The argument `word` says which
-- characters `\w` takes.
module _ (word : ℕ → Bool) where
  -- `.*\bai:` from a place; `edge` says that no word character stands before it.
  unfoldable pub ai_marker : Bool → Text → Bool
  ai_marker edge [] = false
  ai_marker edge (c ∷ s) =
      let rest = ai_marker (not (word c)) s in
      (edge && starts_with (c ∷ s) (codes "ai:")) || (not (c == newline) && rest)

  -- `\s*` and then the marker, at every length of the spaces.
  unfoldable pub spaces_marker : Text → Bool
  spaces_marker [] = false
  spaces_marker (c ∷ s) =
      let rest = spaces_marker s in ai_marker true (c ∷ s) || (is_space c && rest)

  -- `.*\]\s*` and then the marker, at every closing bracket.
  unfoldable pub bracket_marker : Text → Bool
  bracket_marker [] = false
  bracket_marker (c ∷ s) =
      let rest = bracket_marker s in (c == b']' && spaces_marker s) || (not (c == newline) && rest)

  unfoldable pub ai_subject : Text → Bool
  ai_subject [] = false
  ai_subject (c ∷ s) = ai_marker true (c ∷ s) || (c == b'[' && bracket_marker s)

pub record CommitClassification : Type 0 where
  pub sha : Text
  pub subject : Text
  pub paths : List Text
  pub is_ai_only_commit : Bool
  pub is_ai_tainted_commit : Bool
  pub is_code_containing_commit : Bool

-- `parts` is `PurePosixPath(path).parts`, `full_match` its `full_match`, and `read_ignore` the
-- text of the ignore file in a directory below the root, if there is one.
module _ (full_match : List Text → Text → Bool) (read_ignore : List Text → Option Text)
    (parts : Text → List Text) where
  unfoldable pub path_matches_glob : List Text → Text → Bool
  path_matches_glob path pattern = any (full_match path) (glob_candidates pattern)

  -- One round of the inner loop.
  unfoldable pub apply_rule : List Text → Bool → Text → Bool
  apply_rule relative_path is_ai_path rule =
      let is_negation = starts_with rule (codes "!") in
      let pattern = remove_prefix rule (codes "!") in
      if path_matches_glob relative_path pattern then not is_negation else is_ai_path

  apply_rules : List Text → Bool → List Text → Bool
  apply_rules relative_path is_ai_path [] = is_ai_path
  apply_rules relative_path is_ai_path (rule ∷ rules) =
      apply_rules relative_path (apply_rule relative_path is_ai_path rule) rules

  apply_files : Bool → List (List Text × List Text) → Bool
  apply_files is_ai_path [] = is_ai_path
  apply_files is_ai_path ((directory, relative_path) ∷ files) =
      apply_files (apply_rules relative_path is_ai_path (ai_ignore_rules (read_ignore directory)))
        files

  unfoldable pub is_ai_base_path : Text → Bool
  unfolding apply_files apply_rules
  is_ai_base_path path = apply_files false (ai_ignore_files (parts path))

-- The flags, from the test of a path and of a subject.
module _ (is_ai : Text → Bool) (ai_subject_match : Text → Bool) where
  unfoldable pub classify_commit : Text → Text → List Text → CommitClassification
  classify_commit sha subject paths =
      let is_ai_only = not (paths == []) && all is_ai paths in
      record {
        sha = sha;
        subject = subject;
        paths = paths;
        is_ai_only_commit = is_ai_only;
        is_ai_tainted_commit = is_ai_only || (any is_ai paths || ai_subject_match subject);
        is_code_containing_commit = any (λ path. not (is_ai path)) paths;
      }
