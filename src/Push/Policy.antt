-- ===== src/Push/Policy.antt =====
-- Exactly which pushes are let through.
use tunnel2tunnel.Base.{
  ◌≡◌, ◌↔◌, refl, Bool, true, not, ◌&&◌, ◌||◌, List, [], ◌∷◌, Text, arith, ◌==◌, list_eq, nat_eq,
  all, keep_if, map, take,
}
use tunnel2tunnel.Branches.{
  BranchFormat, clean, unclean, history, BranchClassification, BranchFormat-discrete, format_eq,
}
use tunnel2tunnel.Classify.{CommitClassification}
use tunnel2tunnel.Push.{
  RefUpdate, Violation, ai_on_clean, code_on_history, forbidden_name, origin_remote_name,
  is_zero_sha, clean_violations, history_violations, content_violations, check_content_policy,
  check_name_policy, evaluate_ref_update,
}

-- The content that a format allows.
abbrev pub allows : BranchFormat → CommitClassification → Bool
allows clean commit = not commit.is_ai_tainted_commit
allows history commit = not commit.is_code_containing_commit
allows unclean commit = true

clean_violations-nil :
    (ref : Text) (commits : List CommitClassification)
    → (clean_violations ref commits ≡ []) ↔ (all (allows clean) commits ≡ true)
unfolding clean_violations
clean_violations-nil ref [] = (λ h. refl, λ h. refl)
clean_violations-nil ref (commit ∷ commits) = ground (arith, clean_violations-nil ref commits)

history_violations-nil :
    (ref : Text) (commits : List CommitClassification)
    → (history_violations ref commits ≡ []) ↔ (all (allows history) commits ≡ true)
unfolding history_violations
history_violations-nil ref [] = (λ h. refl, λ h. refl)
history_violations-nil ref (commit ∷ commits) = ground (arith, history_violations-nil ref commits)

all-allows_unclean : (commits : List CommitClassification) → all (allows unclean) commits ≡ true
all-allows_unclean [] = refl
all-allows_unclean (commit ∷ commits) = all-allows_unclean commits

content_violations-nil :
    (format : BranchFormat) (ref : Text) (commits : List CommitClassification)
    → (content_violations format ref commits ≡ []) ↔ (all (allows format) commits ≡ true)
unfolding content_violations
content_violations-nil clean ref commits = clean_violations-nil ref commits
content_violations-nil history ref commits = history_violations-nil ref commits
content_violations-nil unclean ref commits = (λ h. all-allows_unclean commits, λ h. refl)

-- A ref update is let through exactly if it deletes the remote ref, or if its name may go to the
-- remote (any other remote than origin, or a clean branch) and every commit has only content that
-- the branch's format allows.
pub evaluate_ref_update-nil :
    (update : RefUpdate) (branch : BranchClassification) (remote_name : Text)
    (commits : List CommitClassification)
    → (evaluate_ref_update update branch remote_name commits ≡ []) ↔ (
        (is_zero_sha update.local_sha
          || ((not (remote_name == origin_remote_name) || branch.format == clean)
              && all (allows branch.format) commits))
        ≡ true)
unfolding evaluate_ref_update check_name_policy check_content_policy BranchFormat-discrete
evaluate_ref_update-nil update branch remote_name commits =
    ground (arith, content_violations-nil branch.format branch.ref commits)

-- The message for a commit that a format refuses.
abbrev pub offence : BranchFormat → Text → Text → Text → Violation
offence clean sha subject ref = ai_on_clean sha subject ref
offence history sha subject ref = code_on_history sha subject ref
offence unclean sha subject ref = forbidden_name ref unclean

content_violations-keep_if :
    (format : BranchFormat) (ref : Text) (commits : List CommitClassification)
    → content_violations format ref commits
      ≡ map
          (λ commit. offence format (take 12 commit.sha) commit.subject ref)
          (keep_if (λ commit. not (allows format commit)) commits)
unfolding content_violations clean_violations history_violations
content_violations-keep_if clean ref [] = refl
content_violations-keep_if history ref [] = refl
content_violations-keep_if unclean ref [] = refl
content_violations-keep_if unclean ref (commit ∷ commits) =
    content_violations-keep_if unclean ref commits
content_violations-keep_if clean ref (commit ∷ commits) =
    ground (arith, content_violations-keep_if clean ref commits)
content_violations-keep_if history ref (commit ∷ commits) =
    ground (arith, content_violations-keep_if history ref commits)

-- The content policy names each offending commit once, in the order of the commits, by the first
-- twelve characters of its sha: on a clean branch the tainted ones, on a history branch those
-- with code, on an unclean branch none.
pub check_content_policy-keep_if :
    (branch : BranchClassification) (commits : List CommitClassification)
    → check_content_policy branch commits
      ≡ map
          (λ commit. offence branch.format (take 12 commit.sha) commit.subject branch.ref)
          (keep_if (λ commit. not (allows branch.format commit)) commits)
unfolding check_content_policy
check_content_policy-keep_if branch commits =
    content_violations-keep_if branch.format branch.ref commits
