-- ===== src/Split/Passes/Frame.antt =====
-- Which refs `sync_branch` can move.
use tunnel2tunnel.Base.{
  ◌≡◌, refl, ◌≢◌, Bool, true, false, not, ◌&&◌, Option, none, some, List, [], ◌∷◌, Text, arith,
  ◌==◌, list_eq, nat_eq, option_eq, last?,
}
use tunnel2tunnel.Base.Result.{Result, ok, err, Target}
use tunnel2tunnel.Base.Exec.{Exec}
use tunnel2tunnel.Base.Exec.Keeps.{
  Keeps, Keeps-pure, Keeps-raise, Keeps-gets, Keeps-bind, keeps_rules,
}
use tunnel2tunnel.Git.{IsLawful}
use tunnel2tunnel.Branches.{history_name, history_fork_point_ref}
use tunnel2tunnel.Split.Host.{Host, full_ref, move_ref, create_branch, when}
use tunnel2tunnel.Split.Cursor.{forward_cursor_ref}
use tunnel2tunnel.Split.Passes.{
  CleanPass, HistoryPass, started, move_cursor, ensure_branch_started, stop_at_merge, classified,
  add_clean_commit, clean_commit, clean_step, clean_loop, counterpart_trailers, history_step,
  history_loop, finish_pass, clean_pass, history_pass, sync_branch,
}

-- The refs of a base branch that its synchronisation may write.
pub data Touched (base_branch : Text) : Text → Type 0 where
  clean_branch : Touched base_branch base_branch
  history_branch : Touched base_branch (history_name base_branch)
  fork_point : Touched base_branch (history_fork_point_ref base_branch)
  cursor : (t : Target) → Touched base_branch (forward_cursor_ref base_branch t)

when-Keeps {ℓ κ} :
    {S : Type ℓ} {P : S → Type κ} (b : Bool) (m : Exec S (Unit {0}))
    → Keeps P m
    → Keeps P (when b m)
when-Keeps true m k = k
when-Keeps false m k = Keeps-pure tt

module _ (host : Host) {P : host.git.Refs → Type 0} (dry_run : Bool) (base_branch : Text)
    (moves : (ref sha : Text)
      → Touched base_branch ref
      → Keeps P (when (not dry_run) (move_ref host ref sha none))) where
  and_moves :
      (made : Bool) (ref sha : Text)
      → Touched base_branch ref
      → Keeps P (when (not dry_run && made) (move_ref host ref sha none))
  and_moves made ref sha t = go dry_run made (moves ref sha t)
    where
      go :
          (dry made : Bool)
          → Keeps P (when (not dry) (move_ref host ref sha none))
          → Keeps P (when (not dry && made) (move_ref host ref sha none))
      go true made k = Keeps-pure tt
      go false true k = k
      go false false k = Keeps-pure tt

  started-Keeps :
      (ref : Text) (tip base : Option Text)
      → Touched base_branch ref
      → Keeps P (started host ref dry_run tip base)
  unfolding started create_branch
  started-Keeps ref (some tip) base t = Keeps-pure tip
  started-Keeps ref none none t = Keeps-raise _
  started-Keeps ref none (some base) t = search (keeps_rules, moves ref base t)

  ensure_branch_started-Keeps :
      (ref base_ref : Text)
      → Touched base_branch ref
      → Keeps P (ensure_branch_started host ref base_ref dry_run)
  unfolding ensure_branch_started
  ensure_branch_started-Keeps ref base_ref t =
      Keeps-bind _ _ (Keeps-gets _)
        λ tip. Keeps-bind _ _ (Keeps-gets _) λ base. started-Keeps ref tip base t

  stop_at_merge-Keeps :
      (is_merge made : Bool) (ref tip : Text) (target : Target) (source : Text)
      (parents : List Text)
      → Touched base_branch ref
      → Keeps P (stop_at_merge host is_merge dry_run made ref tip target source parents)
  unfolding stop_at_merge
  stop_at_merge-Keeps false made ref tip target source parents t = Keeps-pure tt
  stop_at_merge-Keeps true made ref tip target source parents t =
      Keeps-bind _ _ (and_moves made ref tip t) λ _. Keeps-raise _

  classified-Keeps : (source : Text) → Keeps P (classified host source)
  unfolding classified
  classified-Keeps source = search keeps_rules

  add_clean_commit-Keeps :
      (same : Bool) (source kind clean_tree : Text) (pass : CleanPass)
      → Keeps P (add_clean_commit host same source kind clean_tree pass)
  unfolding add_clean_commit
  add_clean_commit-Keeps true source kind clean_tree pass = Keeps-pure _
  add_clean_commit-Keeps false source kind clean_tree pass = search keeps_rules

  clean_commit-Keeps :
      (ai_only : Bool) (source kind : Text) (pass : CleanPass)
      → Keeps P (clean_commit host ai_only source kind pass)
  unfolding clean_commit
  clean_commit-Keeps true source kind pass = Keeps-pure _
  clean_commit-Keeps false source kind pass = search (keeps_rules, add_clean_commit-Keeps)

  clean_step-Keeps :
      (fake : Bool) (source : Text) (pass : CleanPass)
      → Keeps P (clean_step host dry_run fake base_branch source pass)
  unfolding clean_step
  clean_step-Keeps fake source pass =
      search (keeps_rules, classified-Keeps, clean_commit-Keeps, stop_at_merge-Keeps, clean_branch)
        depth 12

  clean_loop-Keeps :
      (fake : Bool) (sources : List Text) (pass : CleanPass)
      → Keeps P (clean_loop host dry_run fake base_branch sources pass)
  unfolding clean_loop
  clean_loop-Keeps fake [] pass = Keeps-pure pass
  clean_loop-Keeps fake (source ∷ sources) pass =
      Keeps-bind _ _ (clean_step-Keeps fake source pass) (clean_loop-Keeps fake sources)

  counterpart_trailers-Keeps : (commit : Option Text) → Keeps P (counterpart_trailers host commit)
  unfolding counterpart_trailers
  counterpart_trailers-Keeps none = Keeps-pure _
  counterpart_trailers-Keeps (some commit) = search keeps_rules

  history_step-Keeps :
      (fake : Bool) (dict : List (Text × Text)) (source : Text) (pass : HistoryPass)
      → Keeps P (history_step host dry_run fake (history_name base_branch) dict source pass)
  unfolding history_step
  history_step-Keeps fake dict source pass =
      search
        (
          keeps_rules, classified-Keeps, counterpart_trailers-Keeps, stop_at_merge-Keeps,
          history_branch,
        )
        depth 16

  history_loop-Keeps :
      (fake : Bool) (dict : List (Text × Text)) (sources : List Text) (pass : HistoryPass)
      → Keeps P (history_loop host dry_run fake (history_name base_branch) dict sources pass)
  unfolding history_loop
  history_loop-Keeps fake dict [] pass = Keeps-pure pass
  history_loop-Keeps fake dict (source ∷ sources) pass =
      Keeps-bind _ _ (history_step-Keeps fake dict source pass)
        (history_loop-Keeps fake dict sources)

  move_cursor-Keeps :
      (target : Target) (last : Option Text)
      → Keeps P (move_cursor host dry_run base_branch target last)
  unfolding move_cursor
  move_cursor-Keeps target none = Keeps-pure tt
  move_cursor-Keeps target (some last) = moves _ last (cursor target)

  finish_pass-Keeps :
      (made : Bool) (ref tip : Text) (target : Target) (sources : List Text)
      → Touched base_branch ref
      → Keeps P (finish_pass host dry_run made ref tip base_branch target sources)
  unfolding finish_pass
  finish_pass-Keeps made ref tip target sources t =
      Keeps-bind _ _ (and_moves made ref tip t) λ _. move_cursor-Keeps target (last? sources)

  ruleset pass_rules = (
    keeps_rules, clean_loop-Keeps, history_loop-Keeps, finish_pass-Keeps, clean_branch,
    history_branch,
  )

  fork_point-Keeps :
      (existing : Option Text) (tip : Text)
      → Keeps P (
          when
            (existing == none && not dry_run)
            (move_ref host (history_fork_point_ref base_branch) tip none))
  fork_point-Keeps existing tip = go (existing == none)
    where
      go :
          (new : Bool)
          → Keeps P (
              when
                (new && not dry_run)
                (move_ref host (history_fork_point_ref base_branch) tip none))
      go true = moves _ tip fork_point
      go false = Keeps-pure tt

  clean_pass-Keeps :
      (main_branch : Text) (fake : Bool) (tip : Text)
      → Keeps P (clean_pass host base_branch main_branch dry_run fake tip)
  unfolding clean_pass
  clean_pass-Keeps main_branch fake tip = search pass_rules depth 10

  history_pass-Keeps :
      (main_branch : Text) (fake : Bool) (dict : List (Text × Text)) (tip : Text)
      → Keeps P (history_pass host base_branch main_branch dry_run fake dict tip)
  unfolding history_pass
  history_pass-Keeps main_branch fake dict tip = search pass_rules depth 10

  sync_branch-Keeps :
      (main_branch : Text) (fake : Bool)
      → Keeps P (sync_branch host base_branch main_branch dry_run fake)
  unfolding sync_branch create_branch
  sync_branch-Keeps main_branch fake =
      search
        (
          keeps_rules, ensure_branch_started-Keeps, clean_pass-Keeps, history_pass-Keeps,
          fork_point-Keeps, clean_branch, history_branch,
        )
        depth 16

-- A dry run changes no ref, whether it returns or raises.
pub sync_branch_dry :
    (host : Host) (base_branch main_branch : Text) (fake_merges : Bool) (refs : host.git.Refs)
    → (sync_branch host base_branch main_branch true fake_merges refs).1 ≡ refs
sync_branch_dry host base_branch main_branch fake_merges refs =
    (sync_branch-Keeps host {P = λ r. r ≡ refs} true base_branch (λ ref sha t. Keeps-pure tt)
        main_branch fake_merges).at
      refs refl

module _ (host : Host) (law : IsLawful host.git) (base_branch r : Text)
    (untouched : (ref : Text) → Touched base_branch ref → full_ref ref ≢ r) where
  move_ref-Keeps :
      (value : Option Text) (ref sha : Text)
      → Touched base_branch ref
      → Keeps (λ refs. host.git.ref_at refs r ≡ value) (move_ref host ref sha none)
  unfolding move_ref
  move_ref-Keeps value ref sha t = record {
    at = λ refs h. go refs h (host.git.update_ref refs (full_ref ref) sha none) refl;
  }
    where
      go :
          (refs : host.git.Refs)
          → host.git.ref_at refs r ≡ value
          → (result : Result host.git.Refs)
          → host.git.update_ref refs (full_ref ref) sha none ≡ result
          → host.git.ref_at (move_ref host ref sha none refs).1 r ≡ value
      go refs h (ok after) e =
          rw (e, move_ref)
            (ground
              (arith, untouched ref t, law.ref_at-update_ref refs (full_ref ref) sha r none e))
      go refs h (err x) e = rw (e, move_ref) h

  -- Whether it returns or raises, a run leaves every ref alone but five: the clean branch, the
  -- history branch, its fork point, and the two cursors of the base branch.
  pub sync_branch_frame :
      (main_branch : Text) (dry_run fake_merges : Bool) (refs : host.git.Refs)
      → host.git.ref_at (sync_branch host base_branch main_branch dry_run fake_merges refs).1 r
        ≡ host.git.ref_at refs r
  sync_branch_frame main_branch dry_run fake_merges refs =
      (sync_branch-Keeps host dry_run base_branch
          (λ ref sha t.
            when-Keeps (not dry_run) _ (move_ref-Keeps (host.git.ref_at refs r) ref sha t))
          main_branch fake_merges).at
        refs refl
