-- ===== src/Split/Host.antt =====
-- What the split tools are run with: git, the configuration and environment, the clock, and the
-- tests of `.ai-ignore` paths and AI subjects of the repository. With the commands of git_ops.py
-- that write a ref.
use tunnel2tunnel.Base.{
  Bool, Option, none, Text, codes, ◌++◌, starts_with, if◌then◌else◌, true, false,
}
use tunnel2tunnel.Base.Result.{ok, err}
use tunnel2tunnel.Base.Exec.{Exec, pure}
use tunnel2tunnel.Git.{Git}

pub record Host : Type 1 where
  pub git : Git
  pub git_config : Text → Option Text
  pub environ : Text → Option Text
  pub casefold : Text → Text
  -- the date that a commit made for a source commit gets
  pub clock : Text → Text
  pub is_ai_path : Text → Bool
  pub is_ai_subject : Text → Bool

-- `_full_ref`
unfoldable pub full_ref : Text → Text
full_ref ref = if starts_with ref (codes "refs/") then ref else codes "refs/heads/" ++ ref

abbrev pub when {ℓ} : {S : Type ℓ} → Bool → Exec S (Unit {0}) → Exec S (Unit {0})
when true m = m
when false m = pure tt

module _ (host : Host) where
  unfoldable pub move_ref : Text → Text → Option Text → Exec host.git.Refs (Unit {0})
  move_ref ref new_sha old_sha refs =
      elim (host.git.update_ref refs (full_ref ref) new_sha old_sha) [
        | ok after ↦ (ok tt, after)
        | err e ↦ (err e, refs)
      ]

  unfoldable pub create_branch : Text → Text → Exec host.git.Refs (Unit {0})
  unfolding move_ref
  create_branch ref at_sha = move_ref ref at_sha none
