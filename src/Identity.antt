-- ===== src/Identity.antt =====
-- scripts/°base/git/°split_lib/identity.py: whose name a generated commit carries. The
-- environment, git's configuration and `str.casefold` are arguments.
pub mod Remaining
use tunnel2tunnel.Base.{
  Bool, false, not, ◌&&◌, ◌||◌, Option, none, some, List, [], ◌∷◌, ◌++◌, Text, codes, newline,
  starts_with, ends_with, strip, ◌==◌, list_eq, nat_eq, pair_eq, if◌then◌else◌, any,
}

pub record CommitIdentity : Type 0 where
  pub name : Text
  pub email : Text

-- `f"{self.name} <{self.email}>"`
unfoldable pub author : CommitIdentity → Text
author c = c.name ++ (codes " <" ++ (c.email ++ codes ">"))

abbrev pub bot_name : Text
bot_name = codes "✨❯ Lucky Lucy"

abbrev pub bot_email : Text
bot_email = codes "claude._.ai._.code@luckydonald.de"

abbrev pub default_identity : CommitIdentity
default_identity = record { name = bot_name; email = bot_email }

abbrev pub luckydonald_email_suffix : Text
luckydonald_email_suffix = codes "@luckydonald.de"

abbrev pub ai_identity_markers : List Text
ai_identity_markers = codes "claude" ∷ codes "codex" ∷ codes "copilot" ∷ []

-- `needle in s`
unfoldable pub occurs_in : Text → Text → Bool
occurs_in needle [] = starts_with [] needle
occurs_in needle (c ∷ s) = starts_with (c ∷ s) needle || occurs_in needle s

-- `x or default` on a text that may be `None`
abbrev or_text : Option Text → Text → Text
or_text none default = default
or_text (some t) default = if t == [] then default else t

unfoldable pub identity_with_default_name : Option Text → Text → CommitIdentity
identity_with_default_name name email = record {
  name = or_text (some (strip (or_text name bot_name))) bot_name;
  email = strip email;
}

module _ (config : Text → Option Text) where
  -- `config` is the output of `git config --get`, `none` where it fails.
  unfoldable pub read_git_config : Text → Option Text
  read_git_config key = elim (config key) [
    | none ↦ none
    | some stdout ↦ let value = strip stdout in if value == [] then none else some value
  ]

  unfoldable pub direct_identity : (Text → Option Text) → Option CommitIdentity
  unfolding read_git_config identity_with_default_name
  direct_identity environ =
      let environment_email = strip (or_text (environ (codes "BASE_SPLIT_EMAIL")) []) in
      if not (environment_email == [])
      then some (identity_with_default_name (environ (codes "BASE_SPLIT_NAME")) environment_email)
      else elim (read_git_config (codes "base.split.email")) [
        | none ↦ none
        | some email ↦
            some (identity_with_default_name (read_git_config (codes "base.split.name")) email)
      ]

  unfoldable pub normal_git_identity : Option CommitIdentity
  unfolding read_git_config identity_with_default_name
  normal_git_identity = elim (read_git_config (codes "user.email")) [
    | none ↦ none
    | some email ↦ some (identity_with_default_name (read_git_config (codes "user.name")) email)
  ]

module _ (casefold : Text → Text) where
  unfoldable pub is_ai_identity : CommitIdentity → Bool
  is_ai_identity c =
      let value = casefold (c.name ++ newline ∷ c.email) in
      any (λ marker. occurs_in marker value) ai_identity_markers

  unfoldable pub remaining_identity : CommitIdentity → CommitIdentity → Option CommitIdentity
  unfolding is_ai_identity
  remaining_identity author committer =
      if author.name == committer.name && author.email == committer.email
      then none
      else if not (is_ai_identity author)
      then some author
      else if not (is_ai_identity committer)
      then some committer
      else none

  is_luckydonald : Option CommitIdentity → Bool
  is_luckydonald none = false
  is_luckydonald (some candidate) = ends_with (casefold candidate.email) luckydonald_email_suffix

  -- The choice where nothing is configured.
  fallback_identity : Option CommitIdentity → Option CommitIdentity → CommitIdentity
  fallback_identity remaining git_identity =
      if is_luckydonald remaining || is_luckydonald git_identity
      then default_identity
      else elim remaining [
        | some identity ↦ identity
        | none ↦ elim git_identity [ some identity ↦ identity | none ↦ default_identity ]
      ]

  unfoldable pub resolve_identity :
      (Text → Option Text) → (Text → Option Text) → Option CommitIdentity → CommitIdentity
  unfolding direct_identity normal_git_identity fallback_identity is_luckydonald
  resolve_identity config environ remaining = elim (direct_identity config environ) [
    | some configured ↦ configured
    | none ↦ fallback_identity remaining (normal_git_identity config)
  ]
