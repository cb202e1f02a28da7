-- ===== src/Unclean/Lineage.antt =====
-- What the unclean branch already holds: the trailers of its commits, the commits of the other
-- branches behind their cursors, and the rebuilt commits whose tree no longer fits.
use tunnel2tunnel.Base.{
  ◌&&◌, Option, none, some, List, [], ◌∷◌, Text, ◌==◌, list_eq, nat_eq, if◌then◌else◌,
}
use tunnel2tunnel.Base.Dict.{Dict, lookup, insert}
use tunnel2tunnel.Base.Result.{Result, ok, ◌>>=◌}
use tunnel2tunnel.Git.{Git}
use tunnel2tunnel.TreeOps.{empty_tree_sha, apply_path_changes}
use tunnel2tunnel.Trailers.{read_trailer_value}
use tunnel2tunnel.Split.Cursor.{recon_trailer}
use tunnel2tunnel.Unclean.Info.{CommitInfo}
use tunnel2tunnel.Unclean.Buckets.{matched, unmatched, key_for_info}

pub record Divergence : Type 0 where
  pub key : Text
  pub old_unclean_sha : Text
  pub old_tree : Text
  pub expected_tree : Text
  pub clean_sha : Text
  pub history_sha : Text

module _ (git : Git) where
  -- `CommitInfo`s by key: the last commit of a key stands.
  unfoldable pub info_map : List CommitInfo → Dict Text CommitInfo → Dict Text CommitInfo
  info_map [] dict = dict
  info_map (info ∷ infos) dict = info_map infos (elim (key_for_info git.rev_exists info) [
    | matched key ↦ insert key info dict
    | unmatched sha ↦ dict
  ])

  -- The keys of the commits, in order.
  recon_keys : List Text → Result (List (Text × Text))
  recon_keys [] = ok []
  recon_keys (sha ∷ shas) =
      let rest = recon_keys shas in
      do
        message ← git.commit_message sha
        key ← read_trailer_value git message recon_trailer
        keys ← rest
        ok (elim key [ none ↦ keys | some k ↦ (k, sha) ∷ keys ])

  keys_of : List (Text × Text) → List Text
  keys_of [] = []
  keys_of ((key, sha) ∷ pairs) = key ∷ keys_of pairs

  map_of : List (Text × Text) → Dict Text Text → Dict Text Text
  map_of [] mapping = mapping
  map_of ((key, sha) ∷ pairs) mapping = map_of pairs (insert key sha mapping)

  unfoldable pub read_unclean_source_order : Text → git.Refs → Result (List Text)
  unfolding recon_keys keys_of
  read_unclean_source_order unclean_ref refs = elim (git.rev_parse refs unclean_ref) [
    | none ↦ ok []
    | some tip ↦ do
      shas ← git.rev_list_reverse refs none tip
      pairs ← recon_keys shas
      ok (keys_of pairs)
  ]

  unfoldable pub reconstructed_key_map : Text → git.Refs → Result (Dict Text Text)
  unfolding recon_keys map_of
  reconstructed_key_map unclean_ref refs = elim (git.rev_parse refs unclean_ref) [
    | none ↦ ok []
    | some tip ↦ do
      shas ← git.rev_list_reverse refs none tip
      pairs ← recon_keys shas
      ok (map_of pairs [])
  ]

  -- `divergence_candidates`: the keys of the unclean branch that both sides have.
  unfoldable pub divergence_candidates :
      Dict Text Text
      → Dict Text CommitInfo
      → Dict Text CommitInfo
      → List (Text × (Text × (CommitInfo × CommitInfo)))
  divergence_candidates [] clean_map history_map = []
  divergence_candidates ((key, sha) ∷ keys) clean_map history_map =
      let rest = divergence_candidates keys clean_map history_map in
      elim (lookup key clean_map) [
        | none ↦ rest
        | some clean_info ↦ elim (lookup key history_map) [
          | none ↦ rest
          | some history_info ↦ (key, (sha, (clean_info, history_info))) ∷ rest
        ]
      ]

  -- The body of the loop of `detect_divergences` at a candidate.
  divergence : Text → Text → CommitInfo → CommitInfo → Result (Option Divergence)
  divergence key old_sha clean_info history_info = do
    base_tree ← elim (git.first_parent old_sha) [
      | none ↦ ok empty_tree_sha
      | some parent_sha ↦ git.tree_for_commit parent_sha
    ]
    half ← apply_path_changes git base_tree clean_info.paths clean_info.sha
    expected_tree ← apply_path_changes git half history_info.paths history_info.sha
    actual_tree ← git.tree_for_commit old_sha
    ok (
        if expected_tree == actual_tree
        then none
        else some (record {
          key = key;
          old_unclean_sha = old_sha;
          old_tree = actual_tree;
          expected_tree = expected_tree;
          clean_sha = clean_info.sha;
          history_sha = history_info.sha;
        }))

  unfoldable pub detect_divergences :
      List (Text × (Text × (CommitInfo × CommitInfo))) → Result (List Divergence)
  unfolding divergence
  detect_divergences [] = ok []
  detect_divergences ((key, (old_sha, (clean_info, history_info))) ∷ candidates) =
      let rest = detect_divergences candidates in
      do
        found ← divergence key old_sha clean_info history_info
        divergences ← rest
        ok (elim found [ none ↦ divergences | some d ↦ d ∷ divergences ])

  unfoldable pub new_shas_since_cursor :
      Option Text → Option Text → Text → git.Refs → Result (List Text)
  new_shas_since_cursor none cursor lower_bound_ref refs = ok []
  new_shas_since_cursor (some tip) cursor lower_bound_ref refs =
      let all_new = git.rev_list_reverse refs (git.merge_base refs tip lower_bound_ref) tip in
      elim cursor [
        | none ↦ all_new
        | some c ↦
            if git.rev_exists c && git.is_ancestor c tip
            then git.rev_list_reverse refs (some c) tip
            else all_new
      ]
