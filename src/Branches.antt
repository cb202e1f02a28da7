-- ===== src/Branches.antt =====
-- scripts/°base/git/°split_lib/branches.py: the names of the clean, unclean and history variants
-- of a branch, and the classification of a ref by its name.
pub mod RoundTrip
use tunnel2tunnel.Base.{
  Bool, true, false, Option, none, some, [], ◌++◌, Text, codes, newline, after_prefix,
  remove_prefix, break_at, ◌==◌, list_eq, nat_eq, option_eq, if◌then◌else◌, ◌∷◌, Eq, ◌≡◌, refl,
  cons-injective,
}

pub data BranchFormat : Type 0 where
  clean unclean history : BranchFormat

unfoldable pub BranchFormat-discrete : Discrete BranchFormat
BranchFormat-discrete clean clean = yes refl
BranchFormat-discrete unclean unclean = yes refl
BranchFormat-discrete history history = yes refl
BranchFormat-discrete clean unclean = no (λ p. cc)
BranchFormat-discrete clean history = no (λ p. cc)
BranchFormat-discrete unclean clean = no (λ p. cc)
BranchFormat-discrete unclean history = no (λ p. cc)
BranchFormat-discrete history clean = no (λ p. cc)
BranchFormat-discrete history unclean = no (λ p. cc)

instance abbrev pub format_eq : Eq BranchFormat
format_eq = record { dec = BranchFormat-discrete }

pub record BranchClassification : Type 0 where
  pub ref : Text
  pub format : BranchFormat
  pub base_name : Text
  pub is_history_master : Bool

abbrev pub refs_heads : Text
refs_heads = codes "refs/heads/"

abbrev pub unclean_prefix : Text
unclean_prefix = codes "ai/UNCLEAN/"

abbrev pub history_prefix : Text
history_prefix = codes "ai/history/"

unfoldable pub history_fork_point_ref : Text → Text
history_fork_point_ref base_branch =
    codes "refs/base-split/history-master-fork-point/" ++ base_branch

unfoldable pub strip_refs_heads : Text → Text
strip_refs_heads ref = remove_prefix ref refs_heads

-- Group 1 of `(.+)$` at the rest of a name: one line that is not empty, at the end of the text
-- or before its last newline.
unfoldable pub last_line : Text → Option Text
last_line rest =
    let (line, tail) = break_at newline rest in
    if line == []
    then none
    else if tail == []
    then some line
    else if tail == newline ∷ []
    then some line
    else none

-- `UNCLEAN_RE.match(name)` and `HISTORY_RE.match(name)`, up to the text of group 1.
unfoldable pub match_prefix : Text → Text → Option Text
match_prefix p name = elim (after_prefix p name) [ none ↦ none | some rest ↦ last_line rest ]

unfoldable pub classify_branch : Text → Text → BranchClassification
classify_branch ref main_branch =
    let name = strip_refs_heads ref in
    elim (match_prefix unclean_prefix name) [
      | some b ↦ record { ref = name; format = unclean; base_name = b; is_history_master = false }
      | none ↦ elim (match_prefix history_prefix name) [
        | some b ↦ record {
          ref = name;
          format = history;
          base_name = b;
          is_history_master = b == main_branch;
        }
        | none ↦ record { ref = name; format = clean; base_name = name; is_history_master = false }
      ]
    ]

unfoldable pub unclean_name : Text → Text
unclean_name base_branch = unclean_prefix ++ base_branch

unfoldable pub history_name : Text → Text
history_name base_branch = history_prefix ++ base_branch

unfoldable pub base_name_from_unclean : Text → Option Text
base_name_from_unclean ref = match_prefix unclean_prefix (strip_refs_heads ref)

unfoldable pub base_name_from_history : Text → Option Text
base_name_from_history ref = match_prefix history_prefix (strip_refs_heads ref)
