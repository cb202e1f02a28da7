-- ===== src/History/Replay/Entered.antt =====
-- The two ends of a step: the scratch branch is made and checked out, and is left and deleted. No other
-- ref changes.
use native.Mathlib.Decide.{ℕ_discrete}
use tunnel2tunnel.Base.{
  Bool, true, false, none, some, Option, Text, codes, ◌≡◌, ◌≢◌, refl, sym, ap, ◌∙◌, starts_with,
  list_eq, nat_eq, if◌then◌else◌, arith,
}
use tunnel2tunnel.Base.Result.{Error, Result, ok, err, ok-injective}
use tunnel2tunnel.Base.Exec.{pure, raise, ◌>>=◌, ◌>>◌, resumed, >>=-eq-ok}
use tunnel2tunnel.Base.Exec.Keeps.{Keeps, Keeps-bind, keeps_rules}
use tunnel2tunnel.Base.Exec.Ends.{Ends, Ends-then, Ends-if, Ends-raise}
use tunnel2tunnel.Git.{IsLawful}
use tunnel2tunnel.Split.Host.{Host, create_branch, full_ref, move_ref}
use tunnel2tunnel.History.Checkout.{
  Checkout, Switch, detach, branch, Completed, IsDocumented, Place, scratch_branch, scratch_ref,
  asks, run_git, switch_to, delete_ref, on_git_refs, require, checked, head_sha, restart_scratch,
  checkout_scratch, leave_scratch, cleanup_scratch, reset_hard,
}
use tunnel2tunnel.History.Replay.Scratch.{Holds, Keeps-enter}

module _ (host : Host) (desk : Checkout host.git.Refs) where
  -- What `check=True` lets through.
  required :
      (done : Completed) (place after : Place host desk) (x : Unit {0})
      → require host desk done place ≡ (ok x, after)
      → (done.succeeded ≡ true) × (place ≡ after)
  unfolding require pure raise
  required done place after x h = by_test done.succeeded _ h
    where
      clash : {e : Error} → err e ≡ ok x → ⊥
      clash p = cc

      by_test :
          (b : Bool) (e : Error)
          → (if b then pure tt else raise e) place ≡ (ok x, after)
          → (b ≡ true) × (place ≡ after)
      by_test true e h = (refl, ap (λ t. t.1) h)
      by_test false e h = absurd (clash (ap (λ t. t.0) h))

  module _ (law : IsLawful host.git) where
    -- What the creation of the scratch branch makes of the refs.
    created : Text → host.git.Refs → Result host.git.Refs → Result (Unit {0}) × host.git.Refs
    created onto before r = elim r [ ok now ↦ (ok tt, now) | err e ↦ (err e, before) ]

    created_scratch :
        (onto : Text) (r : Result host.git.Refs) (before after : host.git.Refs) (x : Unit {0})
        → host.git.update_ref before scratch_ref onto none ≡ r
        → created onto before r ≡ (ok x, after)
        → host.git.ref_at after scratch_ref ≡ some onto
    unfolding created
    created_scratch onto (ok now) before after x e h = ground (
      arith,
      law.ref_at-update_ref before scratch_ref onto scratch_ref none (e ∙ ap (λ t. ok t.1) h),
    )
    created_scratch onto (err f) before after x e h = absurd (clash (ap (λ t. t.0) h))
      where
        clash : err f ≡ ok x → ⊥
        clash p = cc

    created_other :
        (onto ref : Text) (r : Result host.git.Refs) (before : host.git.Refs)
        → ref ≢ scratch_ref
        → host.git.update_ref before scratch_ref onto none ≡ r
        → host.git.ref_at (created onto before r).1 ref ≡ host.git.ref_at before ref
    unfolding created
    created_other onto ref (ok now) before other e =
        ground (arith, law.ref_at-update_ref before scratch_ref onto ref none e)
    created_other onto ref (err f) before other e = refl

    create_branch_lem :
        (onto : Text) (refs : host.git.Refs)
        → create_branch host scratch_ref onto refs
          ≡ created onto refs (host.git.update_ref refs scratch_ref onto none)
    unfolding create_branch move_ref created full_ref codes starts_with ℕ_discrete
    create_branch_lem onto refs = refl

    create-Ends :
        (onto : Text)
        → Ends
            (λ _ place. host.git.ref_at place.0 scratch_ref ≡ some onto)
            (on_git_refs host desk (create_branch host scratch_ref onto))
    unfolding on_git_refs
    create-Ends onto = record {
      at = λ place after x h.
          created_scratch onto (host.git.update_ref place.0 scratch_ref onto none) place.0 after.0 x
            refl (sym (create_branch_lem onto place.0) ∙ ap (λ t. (t.0, t.1.0)) h);
    }

    module _ (doc : IsDocumented host desk) where
      -- Behind the start HEAD is on the scratch branch.
      restart_scratch-Ends :
          (onto : Text)
          → Ends
              (λ _ place. desk.head_ref place.1 ≡ some scratch_ref)
              (restart_scratch host desk onto)
      unfolding restart_scratch switch_to codes
      restart_scratch-Ends onto = record {
        at = λ place after x h.
            let (done, last, switched, passed) = >>=-eq-ok _ (require host desk) h in
            let (succeeded, same) = required done last after x passed in
            let (y, middle, made, moved) =
              >>=-eq-ok _ (λ _. switch_to host desk (branch scratch_branch)) switched in
            let there = (Ends-then _ _ (λ _. create-Ends onto)).at place middle y made in
            ap (λ p. desk.head_ref p.1) (sym (ap (λ t. t.1) moved ∙ same))
            ∙ doc.head_ref-branch scratch_branch onto middle there
                (ap (λ d. d.succeeded) (ok-injective (ap (λ t. t.0) moved)) ∙ succeeded);
      }

      pub checkout_scratch-Ends :
          (onto : Text)
          → Ends
              (λ _ place. desk.head_ref place.1 ≡ some scratch_ref)
              (checkout_scratch host desk onto)
      unfolding checkout_scratch
      checkout_scratch-Ends onto =
          Ends-then _ _ (λ stdout. Ends-if _ _ _ (restart_scratch-Ends onto) (Ends-raise _))

      module _ (ref : Text) (value : Option Text) (full : starts_with ref (codes "refs/") ≡ true)
          (other : ref ≢ scratch_ref) where
        pub switch_to-Keeps :
            (to : Switch) → Keeps (Holds host desk ref value) (switch_to host desk to)
        unfolding switch_to
        switch_to-Keeps to = record { at = λ before h. doc.ref_at-switch to before ref full ∙ h }

        delete_ref-Keeps : Keeps (Holds host desk ref value) (delete_ref host desk scratch_ref)
        unfolding delete_ref
        delete_ref-Keeps = record {
          at = λ before h. doc.ref_at-delete_ref before scratch_ref ref other ∙ h;
        }

        create-Keeps :
            (onto : Text)
            → Keeps
                (Holds host desk ref value)
                (on_git_refs host desk (create_branch host scratch_ref onto))
        unfolding on_git_refs
        create-Keeps onto = record {
          at = λ before h.
              ap (λ t. host.git.ref_at t.1 ref) (create_branch_lem onto before.0)
              ∙ created_other onto ref (host.git.update_ref before.0 scratch_ref onto none) before.0
                  other refl
              ∙ h;
        }

        require-Keeps :
            (done : Completed) → Keeps (Holds host desk ref value) (require host desk done)
        unfolding require
        require-Keeps done = search keeps_rules

        asks-Keeps {ℓ} :
            {A : Type ℓ} (read : Place host desk → Result A)
            → Keeps (Holds host desk ref value) (asks host desk read)
        unfolding asks
        asks-Keeps read = record { at = λ before h. h }

        ruleset end_rules = (
          keeps_rules, switch_to-Keeps, delete_ref-Keeps, create-Keeps, require-Keeps, asks-Keeps,
        )

        pub checkout_scratch-Keeps :
            (onto : Text) → Keeps (Holds host desk ref value) (checkout_scratch host desk onto)
        unfolding checkout_scratch restart_scratch
        checkout_scratch-Keeps onto = search end_rules depth 12

        abbrev Detached : Place host desk → Type 0
        Detached place = Holds host desk ref value place × (desk.head_ref place.1 ≡ none)

        reset-Keeps : (tip : Text) → Keeps Detached (checked host desk (reset_hard tip))
        unfolding checked run_git require
        reset-Keeps tip = Keeps-bind _ _ ran (λ done. search keeps_rules)
          where
            ran : Keeps Detached (run_git host desk (reset_hard tip))
            ran = record {
              at = λ before h. (
                doc.ref_at-run (reset_hard tip) before ref full (λ e. some-ne (sym h.1 ∙ e)) ∙ h.0,
                doc.head_ref-run (reset_hard tip) before ∙ h.1,
              );
            }
              where
                some-ne : none ≡ some ref → ⊥
                some-ne e = cc

        deleted :
            (out : Result (Unit {0}) × Place host desk)
            → Detached out.1
            → Holds host desk ref value (resumed (λ _. delete_ref host desk scratch_ref) out).1
        deleted (ok x, place) h = delete_ref-Keeps.at place h.0
        deleted (err e, place) h = h.0

        detach-Ends :
            (tip : Text)
            → Ends
                (λ _ place. desk.head_ref place.1 ≡ none)
                (switch_to host desk (detach tip) >>= require host desk)
        unfolding switch_to
        detach-Ends tip = record {
          at = λ place after x h.
              let (done, last, moved, passed) =
                >>=-eq-ok (switch_to host desk (detach tip)) (require host desk) h in
              let (succeeded, same) = required done last after x passed in
              ap (λ p. desk.head_ref p.1) (sym (ap (λ t. t.1) moved ∙ same))
              ∙ doc.head_ref-detach tip place
                  (ap (λ d. d.succeeded) (ok-injective (ap (λ t. t.0) moved)) ∙ succeeded);
        }

        reset_and_delete :
            (tip : Text) (place : Place host desk)
            → Detached place
            → Holds host desk ref value
                ((checked host desk (reset_hard tip) >> delete_ref host desk scratch_ref) place).1
        unfolding ◌>>=◌
        reset_and_delete tip place h =
            deleted (checked host desk (reset_hard tip) place) ((reset-Keeps tip).at place h)

        leave_scratch-Keeps :
            (tip : Text) → Keeps (Holds host desk ref value) (leave_scratch host desk tip)
        unfolding leave_scratch
        leave_scratch-Keeps tip =
            Keeps-enter host desk ref value (λ place. desk.head_ref place.1 ≡ none) _ _
              (search end_rules) (detach-Ends tip)
              (λ x place h q. reset_and_delete tip place (h, q))

        pub cleanup_scratch-Keeps : Keeps (Holds host desk ref value) (cleanup_scratch host desk)
        unfolding cleanup_scratch head_sha
        cleanup_scratch-Keeps = search (end_rules, leave_scratch-Keeps)
