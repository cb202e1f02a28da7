-- ===== src/Unclean/Merged.antt =====
-- `build_merged_commit`, and the commits that `_rewrite_from` makes.
use tunnel2tunnel.Base.{
  Option, none, some, List, [], ◌∷◌, Text, ◌==◌, list_eq, nat_eq, if◌then◌else◌,
}
use tunnel2tunnel.Base.Result.{Result, ok, err, assertion_error, value_error, ◌>>=◌}
use tunnel2tunnel.Git.{Author}
use tunnel2tunnel.TreeOps.{raw_diff_for_commit, apply_path_changes}
use tunnel2tunnel.Identity.{resolve_identity}
use tunnel2tunnel.Split.Host.{Host}
use tunnel2tunnel.Split.Cursor.{recon_trailer}
use tunnel2tunnel.Unclean.Info.{CommitInfo}
use tunnel2tunnel.Unclean.Buckets.{Key, matched, unmatched, Bucket}
use tunnel2tunnel.Unclean.Message.{message_with_body, merge_message}

unfoldable pub recon_key : Key → CommitInfo → Text
recon_key (matched key) info = key
recon_key (unmatched sha) info = info.sha

module _ (host : Host) where
  open host use {git}

  -- The call of `commit_tree`: the author's own name and date, the resolved committer.
  unfoldable pub authored_commit : Text → List Text → Text → Author → Text → Result Text
  authored_commit tree parents message author source_sha =
      let remaining = some (record { name = author.name; email = author.email }) in
      let committer = resolve_identity host.casefold host.git_config host.environ remaining in
      git.commit_tree (record {
        tree = tree;
        parents = parents;
        message = message;
        author = author;
        committer = record {
          name = committer.name;
          email = committer.email;
          date = host.clock source_sha;
        };
      })

  -- The end of `build_merged_commit`, for the commit whose author it takes.
  unfoldable pub stamped_commit : Text → Text → Text → Key → CommitInfo → Result Text
  stamped_commit unclean_prev tree message key info = do
    stamped ← git.write_trailers message ((recon_trailer, recon_key key info) ∷ [])
    authored_commit tree (unclean_prev ∷ []) stamped info.author info.sha

  unfoldable pub solo_commit : Text → Text → Key → CommitInfo → Result Text
  solo_commit unclean_prev prev_tree key info = do
    tree ← apply_path_changes git prev_tree info.paths info.sha
    stamped_commit unclean_prev tree (message_with_body info.subject info.body) key info

  unfoldable pub pair_commit : Text → Text → Key → CommitInfo → CommitInfo → Result Text
  pair_commit unclean_prev prev_tree key clean_info history_info = do
    half ← apply_path_changes git prev_tree clean_info.paths clean_info.sha
    tree ← apply_path_changes git half history_info.paths history_info.sha
    stamped_commit unclean_prev tree (merge_message host.is_ai_subject clean_info history_info) key
        clean_info

  -- By which sides the bucket has.
  unfoldable pub merged_commit :
      Text → Text → Key → Option CommitInfo → Option CommitInfo → Result Text
  merged_commit unclean_prev prev_tree key (some clean_info) (some history_info) =
      pair_commit unclean_prev prev_tree key clean_info history_info
  merged_commit unclean_prev prev_tree key (some clean_info) none =
      solo_commit unclean_prev prev_tree key clean_info
  merged_commit unclean_prev prev_tree key none (some history_info) =
      solo_commit unclean_prev prev_tree key history_info
  merged_commit unclean_prev prev_tree key none none = err assertion_error

  unfoldable pub build_merged_commit : Text → Key → Bucket → Result Text
  build_merged_commit unclean_prev key bucket = do
    prev_tree ← git.tree_for_commit unclean_prev
    merged_commit unclean_prev prev_tree key bucket.clean bucket.history

  -- `all_shas[all_shas.index(old_sha) + 1:]`
  unfoldable pub descendants_of : Text → List Text → Result (List Text)
  descendants_of old_sha [] = err (value_error old_sha [])
  descendants_of old_sha (sha ∷ shas) =
      let rest = descendants_of old_sha shas in if sha == old_sha then ok shas else rest

  -- The same message and author on a tree and a parent of its own.
  unfoldable pub amended_commit : Text → List Text → Text → Result Text
  amended_commit tree parents sha = do
    message ← git.commit_message sha
    author ← git.author_info sha
    authored_commit tree parents message author sha

  -- The loop over the descendants.
  unfoldable pub replay : List Text → Text → Result Text
  replay [] new_prev = ok new_prev
  replay (sha ∷ shas) new_prev = do
    changes ← raw_diff_for_commit git sha
    prev_tree ← git.tree_for_commit new_prev
    tree ← apply_path_changes git prev_tree changes sha
    next ← amended_commit tree (new_prev ∷ []) sha
    replay shas next

  parents_list : Option Text → List Text
  parents_list none = []
  parents_list (some parent_sha) = parent_sha ∷ []

  -- The commits of `_rewrite_from`, over the commits of the branch.
  unfoldable pub rewritten : List Text → Text → Text → Result Text
  unfolding parents_list
  rewritten all_shas old_sha new_tree = do
    descendants ← descendants_of old_sha all_shas
    amended ← amended_commit new_tree (parents_list (git.first_parent old_sha)) old_sha
    replay descendants amended
