-- ===== src/History/Replay/Frame.antt =====
-- The primitives write no ref but the scratch branch.
use tunnel2tunnel.Base.{
  true, none, some, Option, List, [], Text, codes, ◌≡◌, ◌≢◌, starts_with, ◌==◌, list_eq, nat_eq,
}
use tunnel2tunnel.Base.Result.{Result, ok, err}
use tunnel2tunnel.Base.Exec.{Exec, ◌>>=◌, ◌>>◌, resumed}
use tunnel2tunnel.Base.Exec.Keeps.{Keeps, Keeps-pure, Keeps-raise, Keeps-if, keeps_rules}
use tunnel2tunnel.Git.{IsLawful}
use tunnel2tunnel.Split.Host.{Host}
use tunnel2tunnel.History.Checkout.{
  Checkout, Completed, IsDocumented, Place, scratch_ref, checkout_scratch, cleanup_scratch,
  merge_abort,
}
use tunnel2tunnel.History.Replay.{
  moved_to, cherry_pick_conflict, scratch_tip, end_pick, pick_onto, replay_commit,
  complete_merge_commit, complete_base_fold, failed_merge, resolve_recreated, settle_recreated,
  merge_again, recreate_from, recreate_base_merge, fold_unless, resolve_fold, settle_fold,
  fold_onto, fold_base, create_merge_marker,
}
use tunnel2tunnel.History.Replay.Scratch.{
  Holds, Works, Leaves, Works-pure, Works-lift, Works-if, Works-bind, Works-raised, Leaves-Works,
  Leaves-Keeps, Leaves-if, Leaves-bind, Keeps-enter,
}
use tunnel2tunnel.History.Replay.Entered.{
  checkout_scratch-Ends, checkout_scratch-Keeps, cleanup_scratch-Keeps,
}
use tunnel2tunnel.History.Replay.Resolved.{
  run_git-Works, checked-Works, conflicted_paths-Works, head_sha-Works, restore_original-Works,
  attributes-Works, reuse_paths-Works, auto_resolve-Works, settle_pick-Works, finish_merge-Works,
  merge_base-Works,
}

module _ (host : Host) (desk : Checkout host.git.Refs) (law : IsLawful host.git)
    (doc : IsDocumented host desk) (ref : Text) (value : Option Text)
    (full : starts_with ref (codes "refs/") ≡ true) (other : ref ≢ scratch_ref) where
  cleanup-Keeps : Keeps (Holds host desk ref value) (cleanup_scratch host desk)
  cleanup-Keeps = cleanup_scratch-Keeps host desk law doc ref value full other

  -- What follows a program that leaves the scratch branch.
  left {ℓ κ} :
      {A : Type ℓ} {B : Type κ} (m : Exec (Place host desk) A) (f : A → Exec (Place host desk) B)
      → Leaves host desk ref value m
      → ((x : A) → Keeps (Holds host desk ref value) (f x))
      → Leaves host desk ref value (m >>= f)
  unfolding ◌>>=◌
  left {A} m f h k = record { at = λ before on. by_outcome (m before) (h.at before on) }
    where
      by_outcome :
          (out : Result A × Place host desk)
          → Holds host desk ref value out.1
          → Holds host desk ref value (resumed f out).1
      by_outcome (ok x, place) h = (k x).at place h
      by_outcome (err e, place) h = h

  scratch_tip-Leaves : Leaves host desk ref value (scratch_tip host desk)
  unfolding scratch_tip
  scratch_tip-Leaves =
      Leaves-bind _ _ _ _ _ _ (head_sha-Works host desk law doc ref value full other)
        (λ sha. Leaves-Keeps _ _ _ _ (search (keeps_rules, cleanup-Keeps)))

  end_pick-Leaves :
      (message : Option Text) → Leaves host desk ref value (end_pick host desk message)
  unfolding end_pick
  end_pick-Leaves (some message) =
      Leaves-Works _ _ _ _ (Works-pure _ _ _ _ (cherry_pick_conflict message))
  end_pick-Leaves none = left _ _ scratch_tip-Leaves (λ sha. Keeps-pure (moved_to sha))

  complete_merge-Leaves :
      (values : List (Text × Text))
      → Leaves host desk ref value (complete_merge_commit host desk values)
  unfolding complete_merge_commit
  complete_merge-Leaves values =
      Leaves-bind _ _ _ _ _ _ (finish_merge-Works host desk law doc ref value full other)
        (λ new_sha. Leaves-bind _ _ _ _ _ _ (Works-lift _ _ _ _ _) (λ message.
          Leaves-bind _ _ _ _ _ _ (Works-lift _ _ _ _ _) (λ new_message.
            Leaves-bind _ _ _ _ _ _ ((checked-Works host desk law doc ref value full other) _)
              (λ x. scratch_tip-Leaves))))

  pub complete_fold-Leaves :
      (base : Text) → Leaves host desk ref value (complete_base_fold host desk base)
  unfolding complete_base_fold
  complete_fold-Leaves base = complete_merge-Leaves _

  failed_merge-Works {ℓ} : {A : Type ℓ} → Works host desk ref value (failed_merge host desk {A = A})
  unfolding failed_merge
  failed_merge-Works = Works-raised _ _ _ _ _ _ (
      Leaves-bind _ _ _ _ _ _ ((run_git-Works host desk law doc ref value full other) merge_abort)
        (λ done. Leaves-Keeps _ _ _ _ cleanup-Keeps))

  settle_recreated-Works :
      (old base onto : Text) (result : Completed)
      → Works host desk ref value (settle_recreated host desk old base onto result)
  unfolding settle_recreated resolve_recreated
  settle_recreated-Works old base onto result =
      Works-if _ _ _ _ result.succeeded _ _
        (Works-bind _ _ _ _ _ _
          ((restore_original-Works host desk law doc ref value full other) base onto)
          (λ done. Works-pure _ _ _ _ tt))
        (Works-bind _ _ _ _ _ _ (conflicted_paths-Works host desk law doc ref value full other)
          (λ paths. Works-if _ _ _ _ (paths == []) _ _ failed_merge-Works (
            Works-bind _ _ _ _ _ _
              ((attributes-Works host desk law doc ref value full other) paths base onto)
              (λ resolved.
                (reuse_paths-Works host desk law doc ref value full other) old paths _))))

  merge_again-Leaves :
      (old base onto : Text) → Leaves host desk ref value (merge_again host desk old base onto)
  unfolding merge_again
  merge_again-Leaves old base onto =
      Leaves-bind _ _ _ _ _ _
        (Works-bind _ _ _ _ _ _
          ((merge_base-Works host desk law doc ref value full other) base onto)
          (settle_recreated-Works old base onto))
        (λ x. complete_merge-Leaves _)

  fold_unless-Leaves :
      (base onto : Text) (result : Completed) (paths : List Text)
      → Leaves host desk ref value (fold_unless host desk base onto result paths)
  unfolding fold_unless
  fold_unless-Leaves base onto result paths =
      Leaves-if _ _ _ _ (paths == []) _ _
        (left _ _ (complete_fold-Leaves base) (λ sha. Keeps-pure (moved_to sha)))
        (Leaves-Works _ _ _ _ (Works-pure _ _ _ _ _))

  resolve_fold-Leaves :
      (base onto : Text) (result : Completed) (paths : List Text)
      → Leaves host desk ref value (resolve_fold host desk base onto result paths)
  unfolding resolve_fold
  resolve_fold-Leaves base onto result paths =
      Leaves-if _ _ _ _ (paths == []) _ _ (Leaves-Works _ _ _ _ failed_merge-Works) (
        Leaves-bind _ _ _ _ _ _
          ((attributes-Works host desk law doc ref value full other) paths base onto)
          (λ resolved.
            Leaves-bind _ _ _ _ _ _
              ((auto_resolve-Works host desk law doc ref value full other) base _)
              (λ done. fold_unless-Leaves base onto result _)))

  fold_onto-Leaves : (base onto : Text) → Leaves host desk ref value (fold_onto host desk base onto)
  unfolding fold_onto settle_fold
  fold_onto-Leaves base onto =
      Leaves-bind _ _ _ _ _ _ ((merge_base-Works host desk law doc ref value full other) base onto)
        (λ result.
          Leaves-if _ _ _ _ result.succeeded _ _
            (Leaves-bind _ _ _ _ _ _
              ((restore_original-Works host desk law doc ref value full other) base onto)
              (λ x. fold_unless-Leaves base onto result []))
            (Leaves-bind _ _ _ _ _ _ (conflicted_paths-Works host desk law doc ref value full other)
              (resolve_fold-Leaves base onto result)))

  -- A program that runs in the scratch checkout.
  in_scratch {ℓ} :
      {A : Type ℓ} (onto : Text) (m : Exec (Place host desk) A)
      → Leaves host desk ref value m
      → Keeps (Holds host desk ref value) (checkout_scratch host desk onto >> m)
  in_scratch onto m k =
      Keeps-enter host desk ref value (λ place. desk.head_ref place.1 ≡ some scratch_ref) _ _
        (checkout_scratch-Keeps host desk law doc ref value full other onto)
        (checkout_scratch-Ends host desk law doc onto) (λ x place h on. k.at place (h, on))

  -- The ref keeps its value, whether the primitive returns or raises.
  pub replay_commit-Keeps :
      (sha onto : Text) → Keeps (Holds host desk ref value) (replay_commit host desk sha onto)
  unfolding replay_commit pick_onto
  replay_commit-Keeps sha onto = in_scratch onto _ (
      Leaves-bind _ _ _ _ _ _
        (Works-bind _ _ _ _ _ _ ((run_git-Works host desk law doc ref value full other) _)
          ((settle_pick-Works host desk law doc ref value full other) sha onto))
        end_pick-Leaves)

  recreate_from-Keeps :
      (old onto : Text) (base : Option Text)
      → Keeps (Holds host desk ref value) (recreate_from host desk old onto base)
  unfolding recreate_from
  recreate_from-Keeps old onto none = Keeps-raise _
  recreate_from-Keeps old onto (some base) =
      Keeps-if (base == []) _ _ (Keeps-raise _)
        (in_scratch onto _ (merge_again-Leaves old base onto))

  pub recreate_base_merge-Keeps :
      (old onto : Text) → Keeps (Holds host desk ref value) (recreate_base_merge host desk old onto)
  unfolding recreate_base_merge
  recreate_base_merge-Keeps old onto = search (keeps_rules, recreate_from-Keeps)

  pub fold_base-Keeps :
      (base onto : Text) → Keeps (Holds host desk ref value) (fold_base host desk base onto)
  unfolding fold_base
  fold_base-Keeps base onto = in_scratch onto _ (fold_onto-Leaves base onto)

  pub create_merge_marker-Keeps :
      (clean branch onto : Text)
      → Keeps (Holds host desk ref value) (create_merge_marker host desk clean branch onto)
  unfolding create_merge_marker
  create_merge_marker-Keeps clean branch onto = search keeps_rules
