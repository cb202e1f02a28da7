-- ===== src/Classify/Commits.antt =====
-- How the three flags of a classified commit depend on one another.
use tunnel2tunnel.Base.{
  ◌≡◌, Bool, true, false, not, List, [], Text, arith, all, any-not, all-not, ◌↔◌, ◌&&◌, ◌==◌,
  list_eq, nat_eq,
}
use tunnel2tunnel.Classify.{classify_commit}

module _ (is_ai : Text → Bool) (ai_subject_match : Text → Bool) (sha subject : Text) where
  -- A commit is AI-only exactly if it touches a path and contains no code. It is free of taint
  -- exactly if all its paths are code and its subject is no AI subject, so no AI-only commit is
  -- free of taint.
  pub classify_commit_flags :
      (paths : List Text)
      → let c = classify_commit is_ai ai_subject_match sha subject paths in
        (c.is_ai_only_commit ≡ (not (paths == []) && not c.is_code_containing_commit))
        × ((c.is_ai_tainted_commit ≡ false)
            ↔ (all (λ path. not (is_ai path)) paths ≡ true) × (ai_subject_match subject ≡ false))
        × ((c.is_ai_only_commit && not c.is_ai_tainted_commit) ≡ false)
  unfolding classify_commit
  classify_commit_flags paths = ground (arith, any-not is_ai paths, all-not is_ai paths)
