-- ===== src/Unclean/Rebuild/Frame.antt =====
-- Which refs a reconstruction writes.
use tunnel2tunnel.Base.{
  ℕ, ◌+◌, ◌≡◌, refl, ◌≢◌, Bool, true, false, not, Option, none, some, List, [], ◌∷◌, Text,
  option_eq, list_eq, nat_eq, arith,
}
use tunnel2tunnel.Base.Result.{Result, ok, err}
use tunnel2tunnel.Base.Exec.Keeps.{
  Keeps, Keeps-pure, Keeps-raise, Keeps-bind, Keeps-lift, keeps_rules,
}
use tunnel2tunnel.Branches.{unclean_name}
use tunnel2tunnel.Git.{IsLawful}
use tunnel2tunnel.Split.Host.{Host, full_ref, move_ref, create_branch, when}
use tunnel2tunnel.Unclean.Info.{clean_cursor_ref, history_cursor_ref}
use tunnel2tunnel.Unclean.Buckets.{Key, Bucket}
use tunnel2tunnel.Unclean.Lineage.{Divergence}
use tunnel2tunnel.Unclean.Rebuild.{
  asserted, rewrite_from, rewrite_all, build_all, unclean_started, move_side, finish, plan,
  fix_divergences, reconstruct_from, reconstruct_unclean,
}

-- The refs of a base branch that its reconstruction may write.
pub data Written (base_branch : Text) : Text → Type 0 where
  unclean_branch : Written base_branch (unclean_name base_branch)
  clean_cursor : Written base_branch (clean_cursor_ref base_branch)
  history_cursor : Written base_branch (history_cursor_ref base_branch)

module _ (host : Host) {P : host.git.Refs → Type 0} (dry_run : Bool) (base_branch : Text)
    (moves : (ref sha : Text) (old : Option Text)
      → Written base_branch ref
      → Keeps P (when (not dry_run) (move_ref host ref sha old))) where
  asserted-Keeps : (found : Option Text) → Keeps P (asserted host found)
  unfolding asserted
  asserted-Keeps none = Keeps-raise _
  asserted-Keeps (some value) = Keeps-pure value

  rewrite_from-Keeps :
      (old_sha new_tree : Text)
      → Keeps P (rewrite_from host (unclean_name base_branch) old_sha new_tree dry_run)
  unfolding rewrite_from
  rewrite_from-Keeps old_sha new_tree =
      search (keeps_rules, asserted-Keeps, moves, unclean_branch) depth 12

  rewrite_all-Keeps :
      (divergences : List Divergence) (tip : Text) (fixed : ℕ)
      → Keeps P (rewrite_all host (unclean_name base_branch) dry_run divergences tip fixed)
  unfolding rewrite_all
  rewrite_all-Keeps [] tip fixed = Keeps-pure _
  rewrite_all-Keeps (d ∷ divergences) tip fixed =
      Keeps-bind _ _ (rewrite_from-Keeps d.old_unclean_sha d.expected_tree)
        λ new_tip. rewrite_all-Keeps divergences new_tip (fixed + 1)

  fix_divergences-Keeps :
      (allowed : Bool) (divergences : List Divergence) (tip : Text)
      → Keeps P (fix_divergences host allowed (unclean_name base_branch) dry_run divergences tip)
  unfolding fix_divergences
  fix_divergences-Keeps false divergences tip = Keeps-pure _
  fix_divergences-Keeps true divergences tip = rewrite_all-Keeps divergences tip 0

  build_all-Keeps : (items : List (Key × Bucket)) (tip : Text) → Keeps P (build_all host items tip)
  unfolding build_all
  build_all-Keeps [] tip = Keeps-pure tip
  build_all-Keeps ((key, bucket) ∷ items) tip =
      Keeps-bind _ _ (Keeps-lift _) (build_all-Keeps items)

  unclean_started-Keeps :
      (tip base : Option Text)
      → Keeps P (unclean_started host (unclean_name base_branch) dry_run tip base)
  unfolding unclean_started create_branch
  unclean_started-Keeps (some tip) base = Keeps-pure tip
  unclean_started-Keeps none base =
      search (keeps_rules, asserted-Keeps, moves, unclean_branch) depth 10

  plan-Keeps :
      (main_branch : Text) (clean_tip history_tip : Option Text) (force : Bool)
      → Keeps P (plan host base_branch main_branch clean_tip history_tip force)
  unfolding plan
  plan-Keeps main_branch clean_tip history_tip force = search keeps_rules depth 40

module _ (host : Host) {P : host.git.Refs → Type 0} (base_branch : Text) where
  move_side-Keeps :
      ((ref sha : Text) (old : Option Text)
        → Written base_branch ref
        → Keeps P (move_ref host ref sha old))
      → (cursor : Text) → Written base_branch cursor
      → (tip : Option Text) → Keeps P (move_side host cursor tip)
  unfolding move_side
  move_side-Keeps moves cursor w none = Keeps-pure tt
  move_side-Keeps moves cursor w (some tip) = moves cursor tip none w

  finish-Keeps :
      (dry_run : Bool)
      → ((ref sha : Text) (old : Option Text)
          → Written base_branch ref
          → Keeps P (when (not dry_run) (move_ref host ref sha old)))
      → (unclean_tip : Text) (clean_tip history_tip : Option Text)
      → Keeps P (
          when
            (not dry_run)
            (finish host base_branch (unclean_name base_branch) unclean_tip clean_tip history_tip))
  unfolding finish
  finish-Keeps true moves unclean_tip clean_tip history_tip = Keeps-pure tt
  finish-Keeps false moves unclean_tip clean_tip history_tip =
      let side = move_side-Keeps moves in
      search (keeps_rules, moves, side, unclean_branch, clean_cursor, history_cursor) depth 12

module _ (host : Host) {P : host.git.Refs → Type 0} (dry_run : Bool) (base_branch : Text)
    (moves : (ref sha : Text) (old : Option Text)
      → Written base_branch ref
      → Keeps P (when (not dry_run) (move_ref host ref sha old))) where
  reconstruct_from-Keeps :
      (missing : Bool) (main_branch : Text) (allowed force : Bool)
      (clean_tip history_tip : Option Text)
      → Keeps P (
          reconstruct_from host missing base_branch main_branch allowed force dry_run clean_tip
            history_tip)
  unfolding reconstruct_from
  reconstruct_from-Keeps true main_branch allowed force clean_tip history_tip = Keeps-pure _
  reconstruct_from-Keeps false main_branch allowed force clean_tip history_tip =
      let planned = plan-Keeps host dry_run base_branch moves in
      let started = unclean_started-Keeps host dry_run base_branch moves in
      let fixed = fix_divergences-Keeps host dry_run base_branch moves in
      let built = build_all-Keeps host dry_run base_branch moves in
      let finished = finish-Keeps host base_branch dry_run moves in
      search (keeps_rules, planned, started, fixed, built, finished) depth 20

  reconstruct_unclean-Keeps :
      (main_branch : Text) (allowed force : Bool)
      → Keeps P (reconstruct_unclean host base_branch main_branch allowed force dry_run)
  unfolding reconstruct_unclean
  reconstruct_unclean-Keeps main_branch allowed force =
      search (keeps_rules, reconstruct_from-Keeps) depth 8

-- A dry reconstruction changes no ref, whether it returns or raises, also where it is forced or
-- may rewrite divergences.
pub reconstruct_unclean_dry :
    (host : Host) (base_branch main_branch : Text) (allowed force : Bool) (refs : host.git.Refs)
    → (reconstruct_unclean host base_branch main_branch allowed force true refs).1 ≡ refs
reconstruct_unclean_dry host base_branch main_branch allowed force refs =
    (reconstruct_unclean-Keeps host {P = λ r. r ≡ refs} true base_branch
        (λ ref sha old w. Keeps-pure tt) main_branch allowed force).at
      refs refl

module _ (host : Host) (law : IsLawful host.git) (base_branch r : Text)
    (untouched : (ref : Text) → Written base_branch ref → full_ref ref ≢ r) where
  when_move-Keeps :
      (dry_run : Bool) (value : Option Text) (ref sha : Text) (old : Option Text)
      → Written base_branch ref
      → Keeps
          (λ refs. host.git.ref_at refs r ≡ value)
          (when (not dry_run) (move_ref host ref sha old))
  unfolding move_ref
  when_move-Keeps true value ref sha old w = Keeps-pure tt
  when_move-Keeps false value ref sha old w = record {
    at = λ refs h. go refs h (host.git.update_ref refs (full_ref ref) sha old) refl;
  }
    where
      go :
          (refs : host.git.Refs)
          → host.git.ref_at refs r ≡ value
          → (result : Result host.git.Refs)
          → host.git.update_ref refs (full_ref ref) sha old ≡ result
          → host.git.ref_at (move_ref host ref sha old refs).1 r ≡ value
      go refs h (ok after) e =
          rw (e, move_ref)
            (ground (arith, untouched ref w, law.ref_at-update_ref refs (full_ref ref) sha r old e))
      go refs h (err x) e = rw (e, move_ref) h

  -- Whether it returns or raises, a reconstruction leaves every ref alone but three: the unclean
  -- branch, and the clean and history cursors of the base branch.
  pub reconstruct_unclean_frame :
      (main_branch : Text) (allowed force dry_run : Bool) (refs : host.git.Refs)
      → host.git.ref_at
          (reconstruct_unclean host base_branch main_branch allowed force dry_run refs).1
          r
        ≡ host.git.ref_at refs r
  reconstruct_unclean_frame main_branch allowed force dry_run refs =
      (reconstruct_unclean-Keeps host dry_run base_branch
          (when_move-Keeps dry_run (host.git.ref_at refs r)) main_branch allowed force).at
        refs refl
