-- ===== src/History/Attributes.antt =====
-- scripts/°base/git/°split_lib/gitattributes_safety.py: whether the rules for LFS of a base are to be kept
-- out. A set of patterns is a list.
use tunnel2tunnel.Base.{
  ℕ, Bool, true, false, not, ◌&&◌, ◌||◌, none, some, List, [], ◌∷◌, ◌++◌, Text, codes, ◌==◌,
  list_eq, nat_eq, if◌then◌else◌, after_prefix, is_space, strip, splitlines, contains, any, keep_if,
  map,
}
use tunnel2tunnel.Base.Result.{Result, ok, ◌>>=◌}
use tunnel2tunnel.Split.Host.{Host}
use tunnel2tunnel.History.Checkout.{Checkout}

abbrev pub gitattributes_path : Text
gitattributes_path = codes ".gitattributes"

-- The characters of `\S+` at the start, and the rest.
unfoldable pub first_token : Text → Text × Text
first_token [] = ([], [])
first_token (c ∷ s) =
    let (token, rest) = first_token s in if is_space c then ([], c ∷ s) else (c ∷ token, rest)

module _ (word : ℕ → Bool) where
  -- `\b` in front of a text, behind a word character.
  abbrev pub ends_word : Text → Bool
  ends_word [] = true
  ends_word (c ∷ s) = not (word c)

  -- `.*\bfilter=lfs\b` from a place; `edge` says that no word character stands before it.
  unfoldable pub has_lfs_filter : Bool → Text → Bool
  has_lfs_filter edge [] = false
  has_lfs_filter edge (c ∷ s) =
      let rest = has_lfs_filter (not (word c)) s in
      (edge && elim (after_prefix (codes "filter=lfs") (c ∷ s)) [
        | none ↦ false
        | some behind ↦ ends_word behind
      ])
      || rest

  -- `_LFS_LINE_RE.match`: the pattern of a line.
  unfoldable pub lfs_pattern : Text → List Text
  lfs_pattern line =
      let (token, rest) = first_token line in
      if not (token == []) && has_lfs_filter false rest then token ∷ [] else []

  unfoldable pub lfs_patterns : List Text → List Text
  lfs_patterns [] = []
  lfs_patterns (line ∷ lines) = lfs_pattern (strip line) ++ lfs_patterns lines

  unfoldable pub parse_lfs_patterns : Text → List Text
  parse_lfs_patterns gitattributes_text = lfs_patterns (splitlines gitattributes_text)

module _ (host : Host) (desk : Checkout host.git.Refs) where
  unfoldable pub gitattributes_lfs_patterns : Text → Result (List Text)
  gitattributes_lfs_patterns ref = do
    entry ← host.git.ls_tree_entry ref gitattributes_path
    elim entry [
      | none ↦ ok []
      | some found ↦ do
        content ← desk.show_path_at ref gitattributes_path
        ok (parse_lfs_patterns desk.word (desk.decode content))
    ]

  unfoldable pub matches_any_pattern : List Text → Text → Bool
  matches_any_pattern patterns basename = any (desk.fnmatch basename) patterns

  unfoldable pub historical_basenames : Text → Result (List Text)
  historical_basenames ref = do
    stdout ← desk.log_names ref
    ok (map desk.path_name (keep_if (λ line. not (line == [])) (map strip (splitlines stdout))))

  -- The patterns that the base adds, against the names that the history has.
  unfoldable pub protects_from : Text → List Text → Result Bool
  protects_from onto new_patterns = if new_patterns == [] then ok false else (do
    basenames ← historical_basenames onto
    ok (any (matches_any_pattern new_patterns) basenames))

  unfoldable pub should_protect : Text → Text → Result Bool
  should_protect base_sha onto = do
    base_patterns ← gitattributes_lfs_patterns base_sha
    if base_patterns == [] then ok false else (do
      onto_patterns ← gitattributes_lfs_patterns onto
      protects_from onto (keep_if (λ pattern. not (contains onto_patterns pattern)) base_patterns))
