-- ===== src/Tests/Tools.antt =====
-- The recovery log's refs of one branch, and a permission entry with a substitution in it.
use native.Mathlib.Decide.{ℕ_discrete}
use tunnel2tunnel.Base.{
  ◌≡◌, refl, ℕ, ◌+◌, arith, option_eq, true, false, ◌&&◌, some, [], ◌∷◌, Text, codes, ◌==◌, list_eq,
  nat_eq, contains, ◌⊎◌, starts_with, after_prefix,
}
use tunnel2tunnel.Identity.{CommitIdentity, is_ai_identity, remaining_identity, occurs_in}
use tunnel2tunnel.Identity.Remaining.{remaining_identity_lem}
use tunnel2tunnel.Base.Dict.{Dict, lookup}
use tunnel2tunnel.Git.Memory.{memory, parse}
use tunnel2tunnel.Recovery.Backup.{backup_ref, is_free, free_candidate, free_candidate_lem}
use tunnel2tunnel.Tests.Split.{feature, objects}
use tunnel2tunnel.Branches.{history_name}
use tunnel2tunnel.Split.Passes.Frame.{history_branch}
use tunnel2tunnel.Recovery.{resolve_watched_refs, covered}
use tunnel2tunnel.Recovery.Covered.{resolve_watched_refs-contains, forward}
use tunnel2tunnel.Permissions.{escape_command_parens, unescape_command_parens}
use tunnel2tunnel.Permissions.Escape.{has_escaped, unescape_command_parens-escape_command_parens}

feature_covered : contains (covered (some (codes "f")) []) (codes "f") ≡ true
unfolding covered codes list_eq ℕ_discrete
feature_covered = refl

resolve_watched_refs-contains_example :
    contains
      (resolve_watched_refs (some (codes "f")) (codes "master") [])
      (history_name (codes "f"))
    ≡ true
resolve_watched_refs-contains_example =
    resolve_watched_refs-contains (some (codes "f")) (codes "master") [] (codes "f")
      (history_name (codes "f")) feature_covered (forward history_branch)

abbrev command : Text
command = codes "echo $(date)"

command_unescaped : has_escaped false command ≡ false
unfolding codes ℕ_discrete
command_unescaped = refl

unescape_command_parens-escape_command_parens_example :
    unescape_command_parens (escape_command_parens command) ≡ command
unescape_command_parens-escape_command_parens_example =
    unescape_command_parens-escape_command_parens command command_unescaped

abbrev spelled : ℕ → Text
spelled second = (b'0' + second) ∷ []

abbrev tagged : Dict Text Text
tagged = (codes "refs/tags/bak/split/f/0/clean", codes "c1") ∷ []

second_free : is_free (memory objects) spelled feature tagged (0 + 1) ≡ true
unfolding is_free backup_ref codes parse lookup list_eq option_eq ℕ_discrete
second_free = refl

free_candidate_lem_example :
    (found : ℕ) × (free_candidate (memory objects) spelled 2 feature tagged 0 ≡ some found)
    × (is_free (memory objects) spelled feature tagged found ≡ true)
free_candidate_lem_example =
    free_candidate_lem (memory objects) spelled 2 feature tagged 0 1 (omega arith) second_free

abbrev agent : CommitIdentity
agent = record { name = codes "claude"; email = codes "c@x" }

abbrev ann : CommitIdentity
ann = record { name = codes "Ann"; email = codes "a@x" }

remaining_runs : remaining_identity (λ text. text) agent ann ≡ some ann
unfolding remaining_identity is_ai_identity occurs_in starts_with after_prefix codes list_eq
    ℕ_discrete
remaining_runs = refl

remaining_identity_lem_example :
    ((agent.name == ann.name && agent.email == ann.email) ≡ false)
    × (is_ai_identity (λ text. text) ann ≡ false)
    × ((ann ≡ agent) ⊎ ((ann ≡ ann) × (is_ai_identity (λ text. text) agent ≡ true)))
remaining_identity_lem_example = remaining_identity_lem (λ text. text) agent ann ann remaining_runs
