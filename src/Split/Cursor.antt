-- ===== src/Split/Cursor.antt =====
-- Where a replay resumes: the cursor refs, the trailers of older tips, and the range of commits.
use mathlib.Core.List.{reverse}
use tunnel2tunnel.Base.{
  not, ◌||◌, Option, none, some, List, [], ◌∷◌, ◌++◌, Text, codes, ◌==◌, list_eq, nat_eq,
  if◌then◌else◌,
}
use tunnel2tunnel.Base.Result.{Result, ok, Target, to_clean, to_history, ◌>>=◌}
use tunnel2tunnel.Git.{Git}
use tunnel2tunnel.Trailers.{read_trailer_value}

abbrev pub source_trailer : Text
source_trailer = codes "X-Base-Split-Source"

abbrev pub kind_trailer : Text
kind_trailer = codes "X-Base-Split-Kind"

abbrev pub counterpart_tree_trailer : Text
counterpart_tree_trailer = codes "X-Base-Split-Counterpart-Tree"

abbrev pub original_merge_parents_trailer : Text
original_merge_parents_trailer = codes "X-Base-Split-Original-Merge-Parents"

abbrev pub clean_commit_trailer : Text
clean_commit_trailer = codes "X-Base-History-Clean-Commit"

-- `sync_unclean.RECON_TRAILER`
abbrev pub recon_trailer : Text
recon_trailer = codes "X-Base-Unclean-Reconstructed-From"

target_word : Target → Text
target_word to_clean = codes "clean"
target_word to_history = codes "history"

unfoldable pub forward_cursor_ref : Text → Target → Text
unfolding target_word
forward_cursor_ref base_branch target =
    codes "refs/base-split/forward-cursor/" ++ (target_word target ++ (codes "/" ++ base_branch))

module _ (git : Git) (refs : git.Refs) where
  unfoldable pub find_last_synced_source : Text → Result (Option Text)
  find_last_synced_source target_ref = elim (git.rev_parse refs target_ref) [
    | none ↦ ok none
    | some tip ↦ do message ← git.commit_message tip; read_trailer_value git message source_trailer
  ]

  unfoldable pub find_forward_cursor : Text → Target → Text → Result (Option Text)
  unfolding find_last_synced_source
  find_forward_cursor base_branch target target_ref =
      elim (git.rev_parse refs (forward_cursor_ref base_branch target)) [
        | some cursor ↦ ok (some cursor)
        | none ↦ find_last_synced_source target_ref
      ]

  -- The walk over the commits of the unclean branch, newest first.
  first_correlated : Text → List Text → Result (Option Text)
  first_correlated target_tip [] = ok none
  first_correlated target_tip (sha ∷ shas) =
      let rest = first_correlated target_tip shas in
      do
        message ← git.commit_message sha
        candidate ← read_trailer_value git message recon_trailer
        elim candidate [
          | none ↦ rest
          | some c ↦
              if not (git.rev_exists c)
              then rest
              else if c == target_tip || git.is_ancestor c target_tip
              then ok (some sha)
              else rest
        ]

  unfoldable pub find_reconstruction_correlated_cursor : Text → Text → Result (Option Text)
  unfolding first_correlated
  find_reconstruction_correlated_cursor unclean_ref target_ref =
      elim (git.rev_parse refs target_ref) [
        | none ↦ ok none
        | some target_tip ↦ do
          shas ← git.rev_list_reverse refs none unclean_ref
          first_correlated target_tip (reverse shas)
      ]

  unfoldable pub commits_to_replay : Text → Option Text → Text → Result (List Text)
  commits_to_replay unclean_ref last_synced_source lower_bound_ref = elim last_synced_source [
    | some last ↦ git.rev_list_first_parent_reverse refs (some last) unclean_ref
    | none ↦
        git.rev_list_first_parent_reverse refs (git.merge_base refs unclean_ref lower_bound_ref)
          unclean_ref
  ]

  -- The cursor with its fallback, and the commits behind it: the first lines of each pass.
  unfoldable pub source_shas : Text → Target → Text → Text → Text → Result (List Text)
  source_shas base_branch target target_ref unclean_ref lower_bound_ref = do
    found ← find_forward_cursor base_branch target target_ref
    last ← elim found [
      | some cursor ↦ ok (some cursor)
      | none ↦ find_reconstruction_correlated_cursor unclean_ref target_ref
    ]
    commits_to_replay unclean_ref last lower_bound_ref
