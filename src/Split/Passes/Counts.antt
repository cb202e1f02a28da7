-- ===== src/Split/Passes/Counts.antt =====
-- What the counters of a pass add up to, and what a pass that returns has met.
use tunnel2tunnel.Base.{
  ℕ, ◌+◌, ◌≡◌, refl, Bool, true, false, not, ◌&&◌, ◌||◌, List, [], ◌∷◌, Text, arith, list_eq,
  nat_eq, ltb, length, all,
}
use tunnel2tunnel.Base.Result.{ok, err, Target}
use tunnel2tunnel.Base.Exec.Returns.{
  Returns, Returns-pure, Returns-raise, Returns-bind, Returns-then, Returns-lift, Returns-map,
}
use tunnel2tunnel.Split.Host.{Host}
use tunnel2tunnel.Split.Passes.{
  CleanPass, stop_at_merge, add_clean_commit, clean_commit, clean_step, clean_loop,
}

abbrev pub total : CleanPass → ℕ
total pass = pass.created + pass.skipped_ai_only + pass.skipped_noop

module _ (host : Host) where
  -- The commit has at most one parent.
  abbrev pub is_plain : Text → Bool
  is_plain source = elim (host.git.parents_of source) [
    | ok parents ↦ not (ltb 1 (length parents))
    | err e ↦ false
  ]

  add_clean_commit-total :
      (same : Bool) (source kind clean_tree : Text) (pass : CleanPass)
      → Returns
          (λ pass'. total pass' ≡ total pass + 1)
          (add_clean_commit host same source kind clean_tree pass)
  unfolding add_clean_commit
  add_clean_commit-total true source kind clean_tree pass = Returns-pure _ (omega arith)
  add_clean_commit-total false source kind clean_tree pass =
      Returns-then _ _ λ new. Returns-pure _ (omega arith)

  clean_commit-total :
      (ai_only : Bool) (source kind : Text) (pass : CleanPass)
      → Returns (λ pass'. total pass' ≡ total pass + 1) (clean_commit host ai_only source kind pass)
  unfolding clean_commit
  clean_commit-total true source kind pass = Returns-pure _ (omega arith)
  clean_commit-total false source kind pass =
      Returns-then _ _
        λ tip. Returns-then _ _ λ tree. add_clean_commit-total _ source kind tree pass

  stop_at_merge-plain :
      (is_merge dry made : Bool) (ref tip : Text) (target : Target) (source : Text)
      (parents : List Text)
      → Returns
          (λ _. is_merge ≡ false)
          (stop_at_merge host is_merge dry made ref tip target source parents)
  unfolding stop_at_merge
  stop_at_merge-plain false dry made ref tip target source parents = Returns-pure tt refl
  stop_at_merge-plain true dry made ref tip target source parents =
      Returns-then _ _ λ _. Returns-raise _

  plain_of_parents :
      (fake : Bool) (source : Text) (parents : List Text)
      → host.git.parents_of source ≡ ok parents
      → (ltb 1 (length parents) && not fake) ≡ false
      → (fake || is_plain source) ≡ true
  plain_of_parents fake source parents known plain = ground arith

  clean_step-total :
      (dry fake : Bool) (ref source : Text) (pass : CleanPass)
      → Returns
          (λ pass'. (total pass' ≡ total pass + 1) × ((fake || is_plain source) ≡ true))
          (clean_step host dry fake ref source pass)
  unfolding clean_step
  clean_step-total dry fake ref source pass = Returns-bind _ _ (Returns-lift _) λ parents known.
      Returns-bind _ _ (stop_at_merge-plain _ dry _ ref _ _ source parents) λ _ plain.
        Returns-then _ _ λ cls.
          Returns-map (λ pass' counted. (counted, plain_of_parents fake source parents known plain))
            (clean_commit-total cls.is_ai_only_commit source _ pass)

  -- A clean loop that returns has counted each source commit once, and, unless merges are
  -- flattened, has met no merge commit.
  clean_loop-total :
      (dry fake : Bool) (ref : Text) (sources : List Text) (pass : CleanPass)
      → Returns
          (λ pass'.
            (total pass' ≡ total pass + length sources) × ((fake || all is_plain sources) ≡ true))
          (clean_loop host dry fake ref sources pass)
  unfolding clean_loop
  clean_loop-total dry fake ref [] pass = Returns-pure pass (omega arith, ground arith)
  clean_loop-total dry fake ref (source ∷ sources) pass =
      Returns-bind _ _ (clean_step-total dry fake ref source pass) λ middle (first, plain).
        Returns-map (λ pass' (rest, plains). (omega arith, ground arith))
          (clean_loop-total dry fake ref sources middle)

  -- A clean loop that returns accounts for each source commit once, as made, skipped as AI-only, or
  -- skipped as no change; and unless merges are flattened, none of them is a merge commit.
  pub clean_loop_counts :
      (dry fake : Bool) (ref : Text) (sources : List Text) (pass pass' : CleanPass)
      (refs refs' : host.git.Refs)
      → clean_loop host dry fake ref sources pass refs ≡ (ok pass', refs')
      → (total pass' ≡ total pass + length sources) × ((fake || all is_plain sources) ≡ true)
  clean_loop_counts dry fake ref sources pass pass' refs refs' h =
      (clean_loop-total dry fake ref sources pass).at refs refs' pass' h
