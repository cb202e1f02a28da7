-- ===== src/Split/Passes/Content.antt =====
-- What the passes never carry over: AI content onto a clean branch, code onto a history branch.
use tunnel2tunnel.Base.{
  ◌≡◌, refl, sym, ◌∙◌, ap, Bool, true, false, Option, List, [], ◌∷◌, Text, ◌==◌, list_eq, nat_eq,
}
use tunnel2tunnel.Base.Result.{ok, ok-injective}
use tunnel2tunnel.Base.Exec.Returns.{
  Returns, Returns-pure, Returns-bind, Returns-then, Returns-lift,
}
use tunnel2tunnel.Git.{IsLawful}
use tunnel2tunnel.TreeOps.Projection.{build_filtered_tree_unkept}
use tunnel2tunnel.Split.Host.{Host}
use tunnel2tunnel.Split.Commit.Tree.{tree_for_commit-make_split_commit}
use tunnel2tunnel.Split.Passes.{
  CleanPass, HistoryPass, add_clean_commit, clean_commit, clean_step, clean_loop, history_step,
  history_loop, clean_pass, history_pass,
}

module _ (host : Host) (law : IsLawful host.git) (p : Text) (value : Option (Text × Text)) where
  -- The tree of a commit has the value at the path.
  abbrev pub Holds : Text → Type 0
  Holds commit =
      (tree : Text) × (host.git.tree_for_commit commit ≡ ok tree)
      × (host.git.file_at tree p ≡ value)

  add_clean_commit-Holds :
      (same : Bool) (source kind clean_tree : Text) (pass : CleanPass)
      → Holds pass.clean_tip
      → host.git.file_at clean_tree p ≡ value
      → Returns
          (λ pass'. Holds pass'.clean_tip)
          (add_clean_commit host same source kind clean_tree pass)
  unfolding add_clean_commit
  add_clean_commit-Holds true source kind clean_tree pass holds new = Returns-pure _ holds
  add_clean_commit-Holds false source kind clean_tree pass holds new =
      Returns-bind _ _ (Returns-lift _) λ commit made.
        Returns-pure _
          (clean_tree, tree_for_commit-make_split_commit host law _ _ _ _ _ _ made, new)

  clean_commit-Holds :
      (ai_only : Bool) (source kind : Text) (pass : CleanPass)
      → host.is_ai_path p ≡ true
      → Holds pass.clean_tip
      → Returns (λ pass'. Holds pass'.clean_tip) (clean_commit host ai_only source kind pass)
  unfolding clean_commit
  clean_commit-Holds true source kind pass ai holds = Returns-pure _ holds
  clean_commit-Holds false source kind pass ai (tree, start, holds) =
      Returns-bind _ _ (Returns-lift _) λ tip_tree tip.
        Returns-bind _ _ (Returns-lift _) λ clean_tree built.
          add_clean_commit-Holds (clean_tree == tip_tree) source kind clean_tree pass
            (tree, start, holds)
            (build_filtered_tree_unkept host.git law source _ tip_tree p (rw ai) built
              ∙ ap (λ t. host.git.file_at t p) (ok-injective (sym tip ∙ start))
              ∙ holds)

  clean_step-Holds :
      (dry fake : Bool) (ref source : Text) (pass : CleanPass)
      → host.is_ai_path p ≡ true
      → Holds pass.clean_tip
      → Returns (λ pass'. Holds pass'.clean_tip) (clean_step host dry fake ref source pass)
  unfolding clean_step
  clean_step-Holds dry fake ref source pass ai holds = Returns-then _ _ λ parents.
      Returns-then _ _
        λ _. Returns-then _ _ λ cls. clean_commit-Holds cls.is_ai_only_commit source _ pass ai holds

  clean_loop-Holds :
      (dry fake : Bool) (ref : Text) (sources : List Text) (pass : CleanPass)
      → host.is_ai_path p ≡ true
      → Holds pass.clean_tip
      → Returns (λ pass'. Holds pass'.clean_tip) (clean_loop host dry fake ref sources pass)
  unfolding clean_loop
  clean_loop-Holds dry fake ref [] pass ai holds = Returns-pure pass holds
  clean_loop-Holds dry fake ref (source ∷ sources) pass ai holds =
      Returns-bind _ _ (clean_step-Holds dry fake ref source pass ai holds)
        λ pass' holds'. clean_loop-Holds dry fake ref sources pass' ai holds'

  history_step-Holds :
      (dry fake : Bool) (ref : Text) (dict : List (Text × Text)) (source : Text)
      (pass : HistoryPass)
      → host.is_ai_path p ≡ false
      → Holds pass.history_tip
      → Returns (λ pass'. Holds pass'.history_tip) (history_step host dry fake ref dict source pass)
  unfolding history_step
  history_step-Holds dry fake ref dict source pass code (tree, start, holds) =
      Returns-then _ _ λ parents. Returns-then _ _ λ _. Returns-then _ _ λ cls.
        Returns-bind _ _ (Returns-lift _) λ tip_tree tip.
          Returns-bind _ _ (Returns-lift _) λ history_tree built. Returns-then _ _ λ counterpart.
            Returns-bind _ _ (Returns-lift _) λ new made. Returns-pure _ (
              history_tree,
              tree_for_commit-make_split_commit host law _ _ _ _ _ _ made,
              build_filtered_tree_unkept host.git law source _ tip_tree p code built
                  ∙ ap (λ t. host.git.file_at t p) (ok-injective (sym tip ∙ start))
                  ∙ holds,
            )

  history_loop-Holds :
      (dry fake : Bool) (ref : Text) (dict : List (Text × Text)) (sources : List Text)
      (pass : HistoryPass)
      → host.is_ai_path p ≡ false
      → Holds pass.history_tip
      → Returns
          (λ pass'. Holds pass'.history_tip)
          (history_loop host dry fake ref dict sources pass)
  unfolding history_loop
  history_loop-Holds dry fake ref dict [] pass code holds = Returns-pure pass holds
  history_loop-Holds dry fake ref dict (source ∷ sources) pass code holds =
      Returns-bind _ _ (history_step-Holds dry fake ref dict source pass code holds)
        λ pass' holds'. history_loop-Holds dry fake ref dict sources pass' code holds'

module _ (host : Host) (law : IsLawful host.git) (p : Text) where
  -- Whatever commits are replayed, a clean pass that returns leaves every AI path of its branch as
  -- it was: the tree behind the last commit has the file there that the tree before the first
  -- commit had.
  pub clean_pass_content :
      (base_branch main_branch : Text) (dry_run fake_merges : Bool) (tip tree : Text)
      (refs refs' : host.git.Refs) (pass : CleanPass)
      → host.is_ai_path p ≡ true
      → host.git.tree_for_commit tip ≡ ok tree
      → clean_pass host base_branch main_branch dry_run fake_merges tip refs ≡ (ok pass, refs')
      → (tree' : Text) × (host.git.tree_for_commit pass.clean_tip ≡ ok tree')
        × (host.git.file_at tree' p ≡ host.git.file_at tree p)
  unfolding clean_pass
  clean_pass_content base_branch main_branch dry_run fake_merges tip tree refs refs' pass ai start
        h =
      run.at refs refs' pass h
    where
      value : Option (Text × Text)
      value = host.git.file_at tree p

      run :
          Returns
            (λ pass'. Holds host law p value pass'.clean_tip)
            (clean_pass host base_branch main_branch dry_run fake_merges tip)
      run = Returns-then _ _ λ found. Returns-then _ _ λ sources.
          Returns-bind _ _
            (clean_loop-Holds host law p value dry_run fake_merges base_branch sources _ ai
              (tree, start, refl))
            λ pass' holds. Returns-then _ _ λ _. Returns-pure pass' holds

  -- Likewise a history pass that returns leaves every code path of its branch as it was.
  pub history_pass_content :
      (base_branch main_branch : Text) (dry_run fake_merges : Bool) (dict : List (Text × Text))
      (tip tree : Text) (refs refs' : host.git.Refs) (pass : HistoryPass)
      → host.is_ai_path p ≡ false
      → host.git.tree_for_commit tip ≡ ok tree
      → history_pass host base_branch main_branch dry_run fake_merges dict tip refs
        ≡ (ok pass, refs')
      → (tree' : Text) × (host.git.tree_for_commit pass.history_tip ≡ ok tree')
        × (host.git.file_at tree' p ≡ host.git.file_at tree p)
  unfolding history_pass
  history_pass_content base_branch main_branch dry_run fake_merges dict tip tree refs refs' pass
        code start h =
      run.at refs refs' pass h
    where
      value : Option (Text × Text)
      value = host.git.file_at tree p

      run :
          Returns
            (λ pass'. Holds host law p value pass'.history_tip)
            (history_pass host base_branch main_branch dry_run fake_merges dict tip)
      run = Returns-then _ _ λ found. Returns-then _ _ λ sources.
          Returns-bind _ _
            (history_loop-Holds host law p value dry_run fake_merges _ dict sources _ code
              (tree, start, refl))
            λ pass' holds. Returns-then _ _ λ _. Returns-pure pass' holds
