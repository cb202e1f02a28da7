-- ===== src/History/Replay.antt =====
-- The primitives that replay one commit onto a tip, in the scratch checkout.
pub mod Scratch
pub mod Entered
pub mod Resolved
pub mod Frame
use tunnel2tunnel.Base.{
  not, Option, none, some, List, [], ◌∷◌, ◌++◌, Text, codes, ◌==◌, list_eq, nat_eq, option_eq,
  if◌then◌else◌, keep_if, contains, newline,
}
use tunnel2tunnel.Base.Result.{history_master_error}
use tunnel2tunnel.Git.{Author, CommitSpec}
use tunnel2tunnel.Base.Exec.{Exec, gets, lift, pure, raise, ◌>>=◌, ◌>>◌}
use tunnel2tunnel.Trailers.{read_trailer_value}
use tunnel2tunnel.Identity.{resolve_identity}
use tunnel2tunnel.Split.Host.{Host}
use tunnel2tunnel.History.Plan.{merge_kind_trailer, merge_marker_trailer}
use tunnel2tunnel.History.Checkout.{
  Checkout, Completed, Place, pick, pick_continue, merge_abort, commit, merge_no_commit,
  scratch_branch, checked, run_git, head_sha, conflicted_paths, checkout_scratch, cleanup_scratch,
}
use tunnel2tunnel.History.Conflicts.{
  is_empty_cherry_pick, commit_empty, resolve_already_replayed_conflict,
  resolve_documentation_conflict, restore_original, attributes_resolved, still_conflicted,
  reuse_paths, auto_resolve_first_fold_conflicts,
}

abbrev pub merge_sha_trailer : Text
merge_sha_trailer = codes "X-Base-History-Merge-Sha"

abbrev pub merge_replayed_from_trailer : Text
merge_replayed_from_trailer = codes "X-Base-History-Merge-Replayed-From"

-- What a primitive ends with: a new tip, or a conflict that is raised.
pub data Stepped : Type 0 where
  moved_to : Text → Stepped
  cherry_pick_conflict merge_conflict : Text → Stepped

unfoldable pub pick_message : Text → Text → Completed → Text
pick_message sha onto result =
    codes "Cherry-pick of "
    ++ sha
    ++ codes " onto "
    ++ onto
    ++ codes " conflicted."
    ++ newline ∷ []
    ++ codes "Resolve the conflict in the working tree (currently checked out on '"
    ++ scratch_branch
    ++ codes "'), `git add` the resolved paths, then rerun "
    ++ codes "update-history-master with --continue (or --abort to cancel)."
    ++ newline ∷ []
    ++ (if result.stderr == [] then result.stdout else result.stderr)

unfoldable pub merge_message : Text → Text → Completed → Text
merge_message sha onto result =
    codes "Merge of "
    ++ sha
    ++ codes " onto "
    ++ onto
    ++ codes " conflicted and could not be "
    ++ codes "auto-resolved (only base-merge *recreation* resolves "
    ++ codes "automatically). Resolve conflicts, `git add` the resolved paths, "
    ++ codes "then rerun update-history-master with --continue (or --abort)."
    ++ newline ∷ []
    ++ result.stderr

module _ (host : Host) (desk : Checkout host.git.Refs) where
  unfoldable pub marker_spec : Text → Text → Text → Text → CommitSpec
  marker_spec clean_merge_sha onto tree message =
      let identity = resolve_identity host.casefold host.git_config host.environ none in
      let author : Author = record {
        name = identity.name;
        email = identity.email;
        date = host.clock clean_merge_sha;
      } in
      record {
        tree = tree;
        parents = onto ∷ [];
        message = message;
        author = author;
        committer = author;
      }

  -- The conflict's message, or nothing if the pick is through.
  unfoldable pub continue_pick : Text → Text → Exec (Place host desk) (Option Text)
  continue_pick sha onto = run_git host desk pick_continue >>= λ continued.
      if continued.succeeded
      then pure none
      else (is_empty_cherry_pick host desk continued >>= λ empty.
          if empty
          then (commit_empty host desk >> pure none)
          else pure (some (pick_message sha onto continued)))

  unfoldable pub resolve_pick : Text → Text → Completed → Exec (Place host desk) (Option Text)
  resolve_pick sha onto result = conflicted_paths host desk >>= λ conflicted.
      resolve_documentation_conflict host desk conflicted >>= λ documented.
      if documented
      then continue_pick sha onto
      else (resolve_already_replayed_conflict host desk sha onto >>= λ replayed.
          if replayed then continue_pick sha onto else pure (some (pick_message sha onto result)))

  unfoldable pub settle_pick : Text → Text → Completed → Exec (Place host desk) (Option Text)
  settle_pick sha onto result =
      if result.succeeded
      then pure none
      else (is_empty_cherry_pick host desk result >>= λ empty.
          if empty then (commit_empty host desk >> pure none) else resolve_pick sha onto result)

  -- The tip of the scratch branch, which is left.
  unfoldable pub scratch_tip : Exec (Place host desk) Text
  scratch_tip = head_sha host desk >>= λ new_sha. cleanup_scratch host desk >> pure new_sha

  unfoldable pub end_pick : Option Text → Exec (Place host desk) Stepped
  end_pick (some message) = pure (cherry_pick_conflict message)
  end_pick none = scratch_tip >>= λ new_sha. pure (moved_to new_sha)

  unfoldable pub pick_onto : Text → Text → Exec (Place host desk) Stepped
  pick_onto sha onto = run_git host desk (pick sha) >>= settle_pick sha onto >>= end_pick

  unfoldable pub replay_commit : Text → Text → Exec (Place host desk) Stepped
  replay_commit sha onto = checkout_scratch host desk onto >> pick_onto sha onto

  unfoldable pub finish_merge_commit : Exec (Place host desk) Text
  finish_merge_commit = checked host desk (commit (codes "--no-edit" ∷ [])) >> head_sha host desk

  -- The merge is committed, and once more with its trailers.
  unfoldable pub complete_merge_commit : List (Text × Text) → Exec (Place host desk) Text
  complete_merge_commit values = finish_merge_commit >>= λ new_sha.
      lift (host.git.commit_message new_sha) >>= λ message.
      lift (host.git.write_trailers message values) >>= λ new_message.
      checked host desk (commit (codes "--amend" ∷ codes "-m" ∷ new_message ∷ [])) >> scratch_tip

  unfoldable pub complete_base_fold : Text → Exec (Place host desk) Text
  complete_base_fold base_sha =
      complete_merge_commit
        ((merge_kind_trailer, codes "base-merge") ∷ (merge_sha_trailer, base_sha) ∷ [])

  -- The merge is without a common ancestor if `onto` and the base have none.
  unfoldable pub merge_args : Option Text → Text → List Text
  merge_args none base_sha =
      codes "--no-commit" ∷ codes "--no-ff" ∷ codes "--allow-unrelated-histories" ∷ base_sha ∷ []
  merge_args (some ancestor) base_sha = codes "--no-commit" ∷ codes "--no-ff" ∷ base_sha ∷ []

  unfoldable pub merge_base_sha : Text → Text → Exec (Place host desk) Completed
  merge_base_sha base_sha onto =
      gets (λ place. host.git.merge_base place.0 onto base_sha) >>= λ ancestor.
      run_git host desk (merge_no_commit (merge_args ancestor base_sha))

  -- A merge that failed for another reason than a conflict.
  unfoldable pub failed_merge {ℓ} : {A : Type ℓ} → Exec (Place host desk) A
  failed_merge =
      run_git host desk merge_abort
      >> cleanup_scratch host desk
      >> raise (history_master_error (codes "the merge failed"))

  unfoldable pub resolve_recreated :
      Text → Text → Text → List Text → Exec (Place host desk) (Unit {0})
  resolve_recreated old_merge_sha base_old_sha onto conflicted =
      if conflicted == []
      then failed_merge
      else (attributes_resolved host desk conflicted base_old_sha onto >>= λ resolved.
          reuse_paths host desk old_merge_sha conflicted
            (still_conflicted host desk resolved conflicted))

  unfoldable pub recreated_trailers : Text → Text → List (Text × Text)
  recreated_trailers old_merge_sha base_old_sha =
      (merge_kind_trailer, codes "base-merge")
      ∷ (merge_sha_trailer, base_old_sha)
      ∷ (merge_replayed_from_trailer, old_merge_sha)
      ∷ []

  unfoldable pub settle_recreated :
      Text → Text → Text → Completed → Exec (Place host desk) (Unit {0})
  settle_recreated old_merge_sha base_old_sha onto result =
      if result.succeeded
      then (restore_original host desk base_old_sha onto >> pure tt)
      else (conflicted_paths host desk >>= resolve_recreated old_merge_sha base_old_sha onto)

  unfoldable pub merge_again : Text → Text → Text → Exec (Place host desk) Text
  merge_again old_merge_sha base_old_sha onto =
      merge_base_sha base_old_sha onto
      >>= settle_recreated old_merge_sha base_old_sha onto
      >> complete_merge_commit (recreated_trailers old_merge_sha base_old_sha)

  unfoldable pub recreate_from : Text → Text → Option Text → Exec (Place host desk) Text
  recreate_from old_merge_sha onto none = raise (history_master_error (codes "cannot recreate"))
  recreate_from old_merge_sha onto (some base_old_sha) =
      if base_old_sha == []
      then raise (history_master_error (codes "cannot recreate"))
      else (checkout_scratch host desk onto >> merge_again old_merge_sha base_old_sha onto)

  unfoldable pub recreate_base_merge : Text → Text → Exec (Place host desk) Stepped
  recreate_base_merge old_merge_sha onto =
      lift (host.git.commit_message old_merge_sha) >>= λ message.
      lift (read_trailer_value host.git message merge_sha_trailer)
      >>= recreate_from old_merge_sha onto
      >>= λ new_sha. pure (moved_to new_sha)

  unfoldable pub fold_unless : Text → Text → Completed → List Text → Exec (Place host desk) Stepped
  fold_unless base_sha onto result remaining =
      if remaining == []
      then (complete_base_fold base_sha >>= λ new_sha. pure (moved_to new_sha))
      else pure (merge_conflict (merge_message base_sha onto result))

  unfoldable pub resolve_fold : Text → Text → Completed → List Text → Exec (Place host desk) Stepped
  resolve_fold base_sha onto result conflicted =
      if conflicted == []
      then failed_merge
      else (attributes_resolved host desk conflicted base_sha onto >>= λ resolved.
          auto_resolve_first_fold_conflicts host desk base_sha
            (still_conflicted host desk resolved conflicted)
          >>= λ auto_resolved. fold_unless base_sha onto result (
              keep_if (λ path. not (contains auto_resolved path))
                (still_conflicted host desk resolved conflicted)))

  unfoldable pub settle_fold : Text → Text → Completed → Exec (Place host desk) Stepped
  settle_fold base_sha onto result =
      if result.succeeded
      then (restore_original host desk base_sha onto >> fold_unless base_sha onto result [])
      else (conflicted_paths host desk >>= resolve_fold base_sha onto result)

  unfoldable pub fold_onto : Text → Text → Exec (Place host desk) Stepped
  fold_onto base_sha onto = merge_base_sha base_sha onto >>= settle_fold base_sha onto

  unfoldable pub fold_base : Text → Text → Exec (Place host desk) Stepped
  fold_base base_sha onto = checkout_scratch host desk onto >> fold_onto base_sha onto

  -- An empty commit, made without a checkout.
  unfoldable pub create_merge_marker : Text → Text → Text → Exec (Place host desk) Stepped
  create_merge_marker clean_merge_sha branch_name onto =
      lift (host.git.tree_for_commit onto) >>= λ tree.
      lift (
        host.git.write_trailers
          (codes "[base] history: mark end of "
            ++ desk.repr branch_name
            ++ codes "'s replayed history"
            ++ newline ∷ [])
          ((merge_marker_trailer, clean_merge_sha) ∷ []))
      >>= λ message.
          lift (host.git.commit_tree (marker_spec clean_merge_sha onto tree message)) >>= λ sha.
          pure (moved_to sha)
