-- ===== src/Unclean/Rebuild.antt =====
-- `_rewrite_from` and `reconstruct_unclean`.
pub mod Frame
pub mod Conflict
use tunnel2tunnel.Base.{
  ℕ, ◌+◌, Bool, true, false, not, ◌&&◌, ◌||◌, Option, none, some, List, [], ◌∷◌, Text, codes, ◌==◌,
  list_eq, nat_eq, option_eq, if◌then◌else◌, is_some, keep_if, length,
}
use tunnel2tunnel.Base.Dict.{Dict, lookup}
use tunnel2tunnel.Base.Result.{Error, Result, ok, err, assertion_error, value_error, traverse}
use tunnel2tunnel.Base.Exec.{Exec, pure, raise, lift, gets, ◌>>=◌, ◌>>◌}
use tunnel2tunnel.Git.{Git}
use tunnel2tunnel.Branches.{unclean_name, history_name}
use tunnel2tunnel.Split.Host.{Host, move_ref, create_branch, when}
use tunnel2tunnel.Unclean.Info.{CommitInfo, read_commit_info, clean_cursor_ref, history_cursor_ref}
use tunnel2tunnel.Unclean.Buckets.{
  Key, matched, unmatched, Bucket, Buckets, correlate_clean_infos, bucket_commits,
}
use tunnel2tunnel.Unclean.Order.{check_order_consistency, order_buckets}
use tunnel2tunnel.Unclean.Lineage.{
  Divergence, info_map, read_unclean_source_order, reconstructed_key_map, divergence_candidates,
  detect_divergences, new_shas_since_cursor,
}
use tunnel2tunnel.Unclean.Merged.{build_merged_commit, rewritten}

-- The dict that `reconstruct_unclean` returns.
pub record Reconstruction : Type 0 where
  pub branch : Text
  pub commits_created : ℕ
  pub divergences_fixed : ℕ
  pub order_conflict : Bool
  pub divergences : List Divergence
  pub unclean_tip : Option Text

-- What a run has read before it writes anything.
pub record Plan : Type 0 where
  pub order_passed_over : Bool
  pub divergences : List Divergence
  pub items_to_build : List (Key × Bucket)
  pub clean_infos : List CommitInfo
  pub history_infos : List CommitInfo
  pub unclean_source_order : List Text

unfoldable pub is_built : Dict Text Text → Key → Bool
is_built key_to_sha (matched key) = is_some (lookup key key_to_sha)
is_built key_to_sha (unmatched sha) = false

-- The `try` around the order check: whether it is passed over.
unfoldable pub order_conflict : Bool → Result (Unit {0}) → Result Bool
order_conflict force (ok u) = ok false
order_conflict force (err (value_error a b)) = if force then ok true else err (value_error a b)
order_conflict force (err e) = err e

module _ (host : Host) where
  open host use {git}

  -- The value, or the assertion that it is there.
  unfoldable pub asserted : Option Text → Exec git.Refs Text
  asserted none = raise assertion_error
  asserted (some value) = pure value

  unfoldable pub rewrite_from : Text → Text → Text → Bool → Exec git.Refs Text
  rewrite_from unclean_ref old_sha new_tree dry_run = do
    found ← gets (λ refs. git.rev_parse refs unclean_ref)
    tip ← asserted found
    listed ← gets (λ refs. git.rev_list_reverse refs none unclean_ref)
    all_shas ← lift listed
    new_tip ← lift (rewritten host all_shas old_sha new_tree)
    when (not dry_run) (move_ref host unclean_ref new_tip (some tip))
    pure new_tip

  -- The loop over the divergences: the tip after the last, and how many.
  unfoldable pub rewrite_all : Text → Bool → List Divergence → Text → ℕ → Exec git.Refs (Text × ℕ)
  rewrite_all unclean_ref dry_run [] tip fixed = pure (tip, fixed)
  rewrite_all unclean_ref dry_run (d ∷ divergences) tip fixed =
      rewrite_from unclean_ref d.old_unclean_sha d.expected_tree dry_run >>= λ new_tip.
      rewrite_all unclean_ref dry_run divergences new_tip (fixed + 1)

  -- The commits of the new buckets, one on the other.
  unfoldable pub build_all : List (Key × Bucket) → Text → Exec git.Refs Text
  build_all [] tip = pure tip
  build_all ((key, bucket) ∷ items) tip =
      lift (build_merged_commit host tip key bucket) >>= build_all items

  -- The infos of both sides, the clean ones with the sources that the history ones give them.
  unfoldable pub infos_of : List Text → List Text → Result (List CommitInfo × List CommitInfo)
  infos_of clean_shas history_shas =
      let read = traverse (read_commit_info git) in both (read history_shas) (read clean_shas)
    where
      paired :
          List CommitInfo → Result (List CommitInfo) → Result (List CommitInfo × List CommitInfo)
      paired history_infos (ok clean_infos) = ok (clean_infos, history_infos)
      paired history_infos (err e) = err e

      both :
          Result (List CommitInfo)
          → Result (List CommitInfo)
          → Result (List CommitInfo × List CommitInfo)
      both (err e) clean = err e
      both (ok history_infos) (err e) = err e
      both (ok history_infos) (ok clean_infos) =
          paired history_infos (correlate_clean_infos git.rev_exists clean_infos history_infos)

  -- All commits of a side, or none if the branch is not there.
  unfoldable pub full_shas : Option Text → git.Refs → Result (List Text)
  full_shas none refs = ok []
  full_shas (some tip) refs = git.rev_list_reverse refs none tip

  -- The unclean branch's tip, or the main branch's, at which it is then created.
  unfoldable pub unclean_started : Text → Bool → Option Text → Option Text → Exec git.Refs Text
  unclean_started unclean_ref dry_run (some tip) base = pure tip
  unclean_started unclean_ref dry_run none base = do
    base_tip ← asserted base
    when (not dry_run) (create_branch host unclean_ref base_tip)
    pure base_tip

  unfoldable pub move_side : Text → Option Text → Exec git.Refs (Unit {0})
  move_side cursor none = pure tt
  move_side cursor (some tip) = move_ref host cursor tip none

  -- The moves at the end.
  unfoldable pub finish : Text → Text → Text → Option Text → Option Text → Exec git.Refs (Unit {0})
  finish base_branch unclean_ref unclean_tip clean_tip history_tip = do
    prior_tip ← gets (λ refs. git.rev_parse refs unclean_ref)
    move_ref host unclean_ref unclean_tip prior_tip
    move_side (clean_cursor_ref base_branch) clean_tip
    move_side (history_cursor_ref base_branch) history_tip

  -- The reading half of `reconstruct_unclean`, from the first commit read to the divergences,
  -- with the filter of the buckets, which reads nothing.
  unfoldable pub plan : Text → Text → Option Text → Option Text → Bool → Exec git.Refs Plan
  plan base_branch main_branch clean_tip history_tip force = do
    let unclean_ref = unclean_name base_branch
    clean_cursor ← gets (λ refs. git.rev_parse refs (clean_cursor_ref base_branch))
    history_cursor ← gets (λ refs. git.rev_parse refs (history_cursor_ref base_branch))
    clean_found ← gets (λ refs. new_shas_since_cursor git clean_tip clean_cursor main_branch refs)
    new_clean_shas ← lift clean_found
    history_found ← gets (λ refs.
        new_shas_since_cursor git history_tip history_cursor (history_name main_branch) refs)
    new_history_shas ← lift history_found
    infos ← lift (infos_of new_clean_shas new_history_shas)
    buckets ← lift (bucket_commits git.rev_exists infos.0 infos.1)
    order_found ← gets (read_unclean_source_order git unclean_ref)
    unclean_source_order ← lift order_found
    keys_found ← gets (reconstructed_key_map git unclean_ref)
    key_to_sha ← lift keys_found
    passed_over ←
        lift (
          order_conflict force (check_order_consistency infos.0 infos.1 unclean_source_order force))
    history_full ← gets (full_shas history_tip)
    full_history_shas ← lift history_full
    clean_full ← gets (full_shas clean_tip)
    full_clean_shas ← lift clean_full
    full_infos ← lift (infos_of full_clean_shas full_history_shas)
    divergences ← lift (
        detect_divergences git (
          divergence_candidates git key_to_sha (info_map git full_infos.0 [])
            (info_map git full_infos.1 [])))
    pure (record {
      order_passed_over = passed_over;
      divergences = divergences;
      items_to_build = keep_if (λ item. not (is_built key_to_sha item.0)) buckets;
      clean_infos = infos.0;
      history_infos = infos.1;
      unclean_source_order = unclean_source_order;
    })

  -- The rewriting of the divergences, if it is allowed.
  unfoldable pub fix_divergences :
      Bool → Text → Bool → List Divergence → Text → Exec git.Refs (Text × ℕ)
  fix_divergences false unclean_ref dry_run divergences tip = pure (tip, 0)
  fix_divergences true unclean_ref dry_run divergences tip =
      rewrite_all unclean_ref dry_run divergences tip 0

  -- By whether both branches are missing.
  unfoldable pub reconstruct_from :
      Bool
      → Text
      → Text
      → Bool
      → Bool
      → Bool
      → Option Text
      → Option Text
      → Exec git.Refs Reconstruction
  reconstruct_from true base_branch main_branch allow_diverge_rewrite force dry_run clean_tip
        history_tip =
      pure (record {
        branch = base_branch;
        commits_created = 0;
        divergences_fixed = 0;
        order_conflict = false;
        divergences = [];
        unclean_tip = none;
      })
  reconstruct_from false base_branch main_branch allow_diverge_rewrite force dry_run clean_tip
        history_tip =
      do
        let unclean_ref = unclean_name base_branch
        planned ← plan base_branch main_branch clean_tip history_tip force
        there ← gets (λ refs. git.rev_parse refs unclean_ref)
        base ← gets (λ refs. git.rev_parse refs main_branch)
        start ← unclean_started unclean_ref dry_run there base
        fixed ← fix_divergences allow_diverge_rewrite unclean_ref dry_run planned.divergences start
        ordered ← lift (
            order_buckets git.rev_exists planned.items_to_build planned.clean_infos
              planned.history_infos planned.unclean_source_order)
        unclean_tip ← build_all ordered fixed.0
        when (not dry_run) (finish base_branch unclean_ref unclean_tip clean_tip history_tip)
        pure (record {
          branch = base_branch;
          commits_created = length ordered;
          divergences_fixed = fixed.1;
          order_conflict = planned.order_passed_over;
          divergences = planned.divergences;
          unclean_tip = some unclean_tip;
        })

  unfoldable pub reconstruct_unclean :
      Text → Text → Bool → Bool → Bool → Exec git.Refs Reconstruction
  reconstruct_unclean base_branch main_branch allow_diverge_rewrite force dry_run = do
    clean_tip ← gets (λ refs. git.rev_parse refs base_branch)
    history_tip ← gets (λ refs. git.rev_parse refs (history_name base_branch))
    reconstruct_from (clean_tip == none && history_tip == none) base_branch main_branch
        allow_diverge_rewrite force dry_run clean_tip history_tip
