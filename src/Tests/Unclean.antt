-- ===== src/Tests/Unclean.antt =====
-- The reverse split of a clean and a history branch of one commit each.
use native.Mathlib.Decide.{ℕ_discrete}
use tunnel2tunnel.Base.{
  insert_by, sort_by, split_on, ◌≡◌, refl, ◌≢◌, ◌↔◌, Bool, true, false, ◌&&◌, ◌||◌, none, some,
  List, [], ◌∷◌, ◌++◌, Text, codes, arith, ◌==◌, list_eq, nat_eq, option_eq, pair_eq, splitlines,
  lines_keep, drop_break, is_break, join, after_prefix, break_at, is_space, lstrip, rstrip,
  starts_with, strip,
}
use tunnel2tunnel.Base.Result.{ok, traverse}
use tunnel2tunnel.Base.Dict.{Dict, lookup, insert}
use tunnel2tunnel.Base.Exec.{◌>>=◌, gets, lift, pure, raise}
use tunnel2tunnel.Git.{CommitSpec}
use tunnel2tunnel.Git.Memory.{
  Objects, memory, memory-IsLawful, or_fail, tree_of, files_of, tree_ish, confirmed,
  confirmed_commit, walk, parse, walk_refs,
}
use tunnel2tunnel.Branches.{unclean_name, history_name}
use tunnel2tunnel.TreeOps.{kind, apply_path_changes, raw_diff_for_commit}
use tunnel2tunnel.Trailers.{is_trailer_line, read_trailers, read_trailer_value, split_trailer_block}
use tunnel2tunnel.Identity.{
  direct_identity, identity_with_default_name, normal_git_identity, read_git_config,
  resolve_identity,
}
use tunnel2tunnel.Split.Host.{Host, full_ref, move_ref, create_branch}
use tunnel2tunnel.Unclean.Info.{
  CommitInfo, read_commit_info, clean_cursor_ref, history_cursor_ref, date_ts, split_paragraph,
  rstrip_newlines, lstrip_newlines,
}
use tunnel2tunnel.Unclean.Buckets.{
  matched, unmatched, key_eq, clean_side, history_side, Buckets, source_by_clean_sha, correlated,
  correlate_clean_infos, key_for_info, put, put_all, bucket_commits,
}
use tunnel2tunnel.Unclean.Buckets.Lookup.{bucket_commits-held, held, with_key, HoldsAll}
use tunnel2tunnel.Unclean.Order.{
  OrderEntry, index_of, order_index, order_key, tuple_leb, comes_before, preceding_matched_index,
  order_entry, order_buckets, check_side, check_order_consistency,
}
use tunnel2tunnel.Unclean.Order.Consistent.{check_order_consistency-ascending, ascending, places}
use tunnel2tunnel.Unclean.Message.{message_with_body}
use tunnel2tunnel.Unclean.Lineage.{
  info_map, read_unclean_source_order, reconstructed_key_map, divergence_candidates,
  detect_divergences, new_shas_since_cursor,
}
use tunnel2tunnel.Unclean.Merged.{
  recon_key, authored_commit, stamped_commit, solo_commit, merged_commit, build_merged_commit,
}
use tunnel2tunnel.Unclean.Rebuild.{
  Reconstruction, is_built, order_conflict, asserted, build_all, infos_of, full_shas,
  unclean_started, move_side, finish, plan, fix_divergences, reconstruct_from, reconstruct_unclean,
}
use tunnel2tunnel.Unclean.Rebuild.Frame.{
  reconstruct_unclean_dry, reconstruct_unclean_frame, Written, unclean_branch, clean_cursor,
  history_cursor,
}
use tunnel2tunnel.Unclean.Rebuild.Conflict.{reconstruct_unclean-order_conflict}
use tunnel2tunnel.Tests.Split.{feature, lucy, commit, objects, host}

abbrev rebuilt : Text → Text → CommitSpec
rebuilt tree parent = record (commit tree (parent ∷ [])) { message = codes "m\n" }

abbrev more : Objects
more = record {
  trees = objects.trees;
  commits =
      objects.commits
      ++ (codes "u1", rebuilt (codes "t1") (codes "b0"))
        ∷ (codes "u2", rebuilt (codes "t3") (codes "u1"))
        ∷ [];
  diffs =
      (codes "b0", [])
      ∷ (codes "c1", (b'A' ∷ 9 ∷ codes "c") ∷ [])
      ∷ (codes "h1", (b'A' ∷ 9 ∷ codes "ai") ∷ [])
      ∷ [];
  paths = objects.paths;
}

abbrev reverse_host : Host
reverse_host = record host { git = memory more }

abbrev two_refs : Dict Text Text
two_refs =
    (codes "refs/heads/f", codes "c1")
    ∷ (codes "refs/heads/ai/history/f", codes "h1")
    ∷ (codes "refs/heads/master", codes "b0")
    ∷ (codes "refs/heads/ai/history/master", codes "b0")
    ∷ []

abbrev info : Text → Text → CommitInfo
info sha path = record {
  sha = sha;
  subject = codes "m";
  body = [];
  author = lucy;
  paths = record { status = codes "A"; path = path; old_path = none } ∷ [];
  source = some (codes "s1");
  kind = none;
  clean_commit = none;
}

abbrev clean_infos : List CommitInfo
clean_infos = info (codes "c1") (codes "c") ∷ []

abbrev history_infos : List CommitInfo
history_infos = info (codes "h1") (codes "ai") ∷ []

abbrev buckets : Buckets
buckets =
    (
      matched (codes "s1"),
      record {
        clean = some (info (codes "c1") (codes "c"));
        history = some (info (codes "h1") (codes "ai"));
      },
    )
    ∷ []

abbrev every : Text → Bool
every sha = true

bucket_runs : bucket_commits every clean_infos history_infos ≡ ok buckets
unfolding bucket_commits put_all put key_for_info lookup insert key_eq list_eq codes ℕ_discrete
bucket_runs = refl

bucket_commits-held_example :
    HoldsAll every clean_side buckets clean_infos
    × HoldsAll every history_side buckets history_infos
    × (held clean_side (matched (codes "s1")) buckets
        ≡ with_key every (matched (codes "s1")) clean_infos)
    × (held history_side (matched (codes "s1")) buckets
        ≡ with_key every (matched (codes "s1")) history_infos)
bucket_commits-held_example =
    bucket_commits-held every clean_infos history_infos buckets (matched (codes "s1")) bucket_runs

check_order_consistency-ascending_example :
    (check_order_consistency clean_infos history_infos (codes "s1" ∷ []) false ≡ ok tt) ↔ (
      (false
        || (codes "s1" ∷ [] == []
            || (ascending (places (codes "s1" ∷ []) clean_infos)
                && ascending (places (codes "s1" ∷ []) history_infos))))
      ≡ true)
check_order_consistency-ascending_example =
    check_order_consistency-ascending clean_infos history_infos (codes "s1" ∷ []) false

abbrev entry : Bool → OrderEntry
entry clean = record {
  key = unmatched (codes "c1");
  bucket = record { clean = none; history = none };
  preceding_matched_index = 0;
  date = 1;
  is_clean = clean;
}

reconstruct_unclean_dry_example :
    (reconstruct_unclean reverse_host feature (codes "master") false false true two_refs).1
    ≡ two_refs
reconstruct_unclean_dry_example =
    reconstruct_unclean_dry reverse_host feature (codes "master") false false two_refs

abbrev clean_ref : Text
clean_ref = codes "refs/heads/f"

untouched_clean : (ref : Text) → Written feature ref → full_ref ref ≢ clean_ref
unfolding full_ref unclean_name clean_cursor_ref history_cursor_ref codes starts_with after_prefix
    ℕ_discrete
untouched_clean _ unclean_branch = ground arith
untouched_clean _ clean_cursor = ground arith
untouched_clean _ history_cursor = ground arith

reconstruct_unclean_frame_example :
    reverse_host.git.ref_at
      (reconstruct_unclean reverse_host feature (codes "master") false false false two_refs).1
      clean_ref
    ≡ reverse_host.git.ref_at two_refs clean_ref
reconstruct_unclean_frame_example =
    reconstruct_unclean_frame reverse_host (memory-IsLawful more) feature clean_ref untouched_clean
      (codes "master") false false false two_refs

abbrev reconstructed : Reconstruction
reconstructed = record {
  branch = feature;
  commits_created = 2;
  divergences_fixed = 0;
  order_conflict = false;
  divergences = [];
  unclean_tip = some (codes "u2");
}

abbrev rebuilt_refs : Dict Text Text
rebuilt_refs =
    two_refs
    ++ (codes "refs/heads/ai/UNCLEAN/f", codes "u2")
      ∷ (codes "refs/base-split/unclean-cursor/clean/f", codes "c1")
      ∷ (codes "refs/base-split/unclean-cursor/history/f", codes "h1")
      ∷ []

reconstruct_runs :
    reconstruct_unclean reverse_host feature (codes "master") false false false two_refs
    ≡ (ok reconstructed, rebuilt_refs)
unfolding reconstruct_unclean reconstruct_from plan unclean_started asserted fix_divergences
    build_all infos_of full_shas move_side finish is_built order_conflict build_merged_commit
    merged_commit solo_commit stamped_commit authored_commit recon_key message_with_body
    rstrip_newlines lstrip_newlines split_paragraph read_commit_info date_ts clean_cursor_ref
    history_cursor_ref source_by_clean_sha correlated correlate_clean_infos key_for_info put put_all
    bucket_commits key_eq index_of order_index order_key tuple_leb comes_before insert_by sort_by
    preceding_matched_index order_entry order_buckets check_side check_order_consistency info_map
    read_unclean_source_order reconstructed_key_map divergence_candidates detect_divergences
    new_shas_since_cursor unclean_name history_name apply_path_changes kind raw_diff_for_commit
    split_on is_trailer_line read_trailers read_trailer_value split_trailer_block direct_identity
    identity_with_default_name normal_git_identity read_git_config resolve_identity full_ref
    move_ref create_branch or_fail tree_of files_of tree_ish confirmed confirmed_commit walk parse
    walk_refs lookup insert ◌>>=◌ gets lift pure raise codes list_eq option_eq pair_eq splitlines
    lines_keep drop_break is_break join after_prefix break_at is_space lstrip rstrip starts_with
    strip ℕ_discrete traverse
reconstruct_runs = refl

reconstruct_unclean-order_conflict_example : reconstructed.order_conflict ≡ false
reconstruct_unclean-order_conflict_example =
    reconstruct_unclean-order_conflict reverse_host feature (codes "master") false false false
      two_refs rebuilt_refs reconstructed reconstruct_runs
