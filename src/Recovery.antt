-- ===== src/Recovery.antt =====
-- scripts/°base/git/°split_lib/recovery.py: what is written down before a run, so that it can be
-- undone by hand, and the backup tags.
pub mod Covered
pub mod Backup
use tunnel2tunnel.Base.{
  ℕ, zero, suc, ◌+◌, Bool, true, false, not, ◌&&◌, ◌||◌, Option, none, some, List, [], ◌∷◌, ◌++◌,
  Text, codes, ◌==◌, list_eq, nat_eq, option_eq, if◌then◌else◌, contains, map, newline, join, strip,
  splitlines, all, is_some,
}
use tunnel2tunnel.Base.Dict.{Dict, lookup}
use tunnel2tunnel.Base.Result.{Result, ok, to_clean, to_history}
use tunnel2tunnel.Git.{Git}
use tunnel2tunnel.Branches.{
  unclean_name, history_name, history_fork_point_ref, base_name_from_unclean,
}
use tunnel2tunnel.Split.Host.{full_ref}
use tunnel2tunnel.Split.Cursor.{forward_cursor_ref}
use tunnel2tunnel.Unclean.Info.{clean_cursor_ref, history_cursor_ref}

-- `discover_unclean_branches`, from the lines that git prints.
unfoldable pub unclean_branches_of : List Text → List Text
unclean_branches_of [] = []
unclean_branches_of (line ∷ lines) =
    let rest = unclean_branches_of lines in
    let name = base_name_from_unclean (strip line) in
    if strip line == [] then rest else elim name [ none ↦ rest | some base ↦ base ∷ rest ]

-- The refs of one base branch, in the order of the source.
unfoldable pub refs_of_branch : Text → List Text
refs_of_branch base_branch =
    base_branch
    ∷ unclean_name base_branch
    ∷ history_name base_branch
    ∷ history_fork_point_ref base_branch
    ∷ clean_cursor_ref base_branch
    ∷ history_cursor_ref base_branch
    ∷ forward_cursor_ref base_branch to_clean
    ∷ forward_cursor_ref base_branch to_history
    ∷ []

unfoldable pub refs_of_branches : List Text → List Text
refs_of_branches [] = []
refs_of_branches (b ∷ bs) = refs_of_branch b ++ refs_of_branches bs

-- The loop that drops what was seen.
unfoldable pub dedup : List Text → List Text → List Text
dedup seen [] = []
dedup seen (ref ∷ refs) =
    let skipped = dedup seen refs in
    let kept = dedup (ref ∷ seen) refs in if contains seen ref then skipped else ref ∷ kept

unfoldable pub covered : Option Text → List Text → List Text
covered (some branch) discovered = branch ∷ []
covered none discovered = discovered

-- `discovered` is what `discover_unclean_branches` gives.
unfoldable pub resolve_watched_refs : Option Text → Text → List Text → List Text
unfolding covered
resolve_watched_refs branch main_branch discovered =
    dedup [] (main_branch ∷ history_name main_branch ∷ refs_of_branches (covered branch discovered))

unfoldable pub undo_command : Text → Option Text → Text
undo_command ref none = codes "git update-ref -d '" ++ (full_ref ref ++ codes "' || true")
undo_command ref (some old_sha) =
    codes "git update-ref '" ++ (full_ref ref ++ (codes "' '" ++ (old_sha ++ codes "'")))

abbrev pub abort_commands : List Text
abort_commands =
    codes "git rebase --abort || true"
    ∷ codes "git cherry-pick --abort || true"
    ∷ codes "git merge --abort || true"
    ∷ []

-- `f"`{sha if sha is not None else '(none)'}`"`
unfoldable pub shown_sha : Option Text → Text
shown_sha none = codes "`(none)`"
shown_sha (some sha) = codes "`" ++ (sha ++ codes "`")

unfoldable pub before_line : Text × Option Text → Text
before_line (ref, sha) = codes "`" ++ (ref ++ (codes "` | " ++ shown_sha sha))

unfoldable pub undo_line : Text × Option Text → Text
undo_line (ref, sha) = undo_command ref sha

unfoldable pub recovery_lines : Text → Dict Text (Option Text) → Text → List Text
recovery_lines invocation before timestamp =
    (codes "#### Run _" ++ (timestamp ++ (codes "_ `" ++ (invocation ++ codes "`"))))
    ∷ []
    ∷ codes "Branch | Commit before"
    ∷ codes "------ | -------------"
    ∷ (map before_line before
        ++ [] ∷ codes "```shell" ∷ (abort_commands ++ (map undo_line before ++ codes "```" ∷ [])))

unfoldable pub format_recovery_entry : Text → Dict Text (Option Text) → Text → Text
format_recovery_entry invocation before timestamp =
    join (newline ∷ []) (recovery_lines invocation before timestamp)

-- `after.get(ref)`
unfoldable pub known_sha : Option (Option Text) → Option Text
known_sha none = none
known_sha (some sha) = sha

unfoldable pub after_line : Dict Text (Option Text) → Text × Option Text → Text
after_line after (ref, before_sha) =
    codes "`"
    ++ (ref
        ++ (codes "` | "
            ++ (shown_sha before_sha ++ (codes " | " ++ shown_sha (known_sha (lookup ref after))))))

unfoldable pub format_after_summary : Dict Text (Option Text) → Dict Text (Option Text) → Text
format_after_summary before after = join (newline ∷ []) (
    codes "Branch | Commit before | Commit now"
    ∷ codes "------ | ------------- | ----------"
    ∷ map (after_line after) before)

module _ (git : Git) where
  unfoldable pub snapshot : List Text → git.Refs → Dict Text (Option Text)
  snapshot refs now = map (λ ref. (ref, git.rev_parse now ref)) refs
