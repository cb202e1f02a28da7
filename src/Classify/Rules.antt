-- ===== src/Classify/Rules.antt =====
-- The last matching rule decides, and the pattern of AI subjects.
use tunnel2tunnel.Base.{
  ℕ, ◌≡◌, refl, ◌∙◌, Bool, true, false, not, Option, none, some, List, [], ◌∷◌, ◌++◌, Text, codes,
  arith, starts_with, remove_prefix, if◌then◌else◌, is_space, IsLine,
}
use tunnel2tunnel.Classify.{
  ai_ignore_rules, ai_ignore_files, path_matches_glob, apply_rule, apply_rules, apply_files,
  is_ai_base_path, ai_marker, spaces_marker, bracket_marker, ai_subject,
}

module _ (full_match : List Text → Text → Bool) (read_ignore : List Text → Option Text)
    (parts : Text → List Text) where
  -- All the rules that are read for a path, in order, each with the path it is matched against.
  abbrev in_file : List Text → List Text → List (List Text × Text)
  in_file relative [] = []
  in_file relative (rule ∷ rules) = (relative, rule) ∷ in_file relative rules

  abbrev pub rules_of : List (List Text × List Text) → List (List Text × Text)
  rules_of [] = []
  rules_of ((directory, relative) ∷ files) =
      in_file relative (ai_ignore_rules (read_ignore directory)) ++ rules_of files

  -- The last rule that matches.
  abbrev pub deciding_rule : List (List Text × Text) → Option Text
  deciding_rule [] = none
  deciding_rule ((relative, rule) ∷ rules) = elim (deciding_rule rules) [
    | some later ↦ some later
    | none ↦
        if path_matches_glob full_match read_ignore parts relative (remove_prefix rule (codes "!"))
        then some rule
        else none
  ]

  abbrev pub verdict : Bool → Option Text → Bool
  verdict before none = before
  verdict before (some rule) = not (starts_with rule (codes "!"))

  apply_rules-append :
      (rules : List Text) (before : Bool) (relative : List Text) (more : List (List Text × Text))
      → verdict
          (apply_rules full_match read_ignore parts relative before rules)
          (deciding_rule more)
        ≡ verdict before (deciding_rule (in_file relative rules ++ more))
  unfolding apply_rules apply_rule
  apply_rules-append [] before relative more = refl
  apply_rules-append (rule ∷ rules) before relative more =
      apply_rules-append rules _ relative more ∙ ground arith

  apply_files-verdict :
      (files : List (List Text × List Text)) (before : Bool)
      → apply_files full_match read_ignore parts before files
        ≡ verdict before (deciding_rule (rules_of files))
  unfolding apply_files
  apply_files-verdict [] before = refl
  apply_files-verdict ((directory, relative) ∷ files) before =
      apply_files-verdict files _
      ∙ apply_rules-append (ai_ignore_rules (read_ignore directory)) before relative
          (rules_of files)

  -- A path is AI content exactly as the last rule says that matches it, over the ignore files from
  -- the root's to the deepest and their rules in order: yes for a plain rule, no for one that
  -- begins with "!", and no if no rule matches.
  pub is_ai_base_path-verdict :
      (path : Text)
      → is_ai_base_path full_match read_ignore parts path
        ≡ verdict false (deciding_rule (rules_of (ai_ignore_files (parts path))))
  unfolding is_ai_base_path
  is_ai_base_path-verdict path = apply_files-verdict (ai_ignore_files (parts path)) false

module _ (word : ℕ → Bool) (spaces : (c : ℕ) → is_space c ≡ true → word c ≡ false)
    (bracket : word b']' ≡ false) where
  spaces_marker-le :
      (s : Text) → IsLine s → spaces_marker word s ≡ true → ai_marker word true s ≡ true
  unfolding spaces_marker ai_marker
  spaces_marker-le [] line h = cc
  spaces_marker-le (c ∷ s) line h = ground (arith, spaces c, spaces_marker-le s line.1)

  bracket_marker-le :
      (s : Text) (edge : Bool)
      → IsLine s
      → bracket_marker word s ≡ true
      → ai_marker word edge s ≡ true
  unfolding bracket_marker ai_marker
  bracket_marker-le [] edge line h = cc
  bracket_marker-le (c ∷ s) edge line h =
      ground (arith, bracket, spaces_marker-le s line.1, bracket_marker-le s (not (word c)) line.1)

  -- A marker behind an opening character is a marker of the whole.
  marker_after :
      (c : ℕ) (s : Text)
      → IsLine (c ∷ s)
      → ai_marker word (not (word c)) s ≡ true
      → ai_marker word true (c ∷ s) ≡ true
  unfolding ai_marker
  marker_after c s line h = ground arith

  -- On a subject of one line the bracketed part of the pattern adds nothing, if no space and no
  -- closing bracket is a word character: the pattern matches exactly where the marker stands.
  pub ai_subject-ai_marker : (s : Text) → IsLine s → ai_subject word s ≡ ai_marker word true s
  unfolding ai_subject
  ai_subject-ai_marker [] line = unfold ai_marker in refl
  ai_subject-ai_marker (c ∷ s) line =
      ground (arith, bracket, bracket_marker-le s (not (word c)) line.1, marker_after c s line)
