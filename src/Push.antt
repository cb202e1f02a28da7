-- ===== src/Push.antt =====
-- scripts/°base/git/°split_lib/push_checks.py: which pushes the content and name policies refuse.
-- A violation message is kept as its kind and the values that the message shows.
pub mod Policy
use tunnel2tunnel.Base.{
  Bool, true, false, ◌&&◌, ◌||◌, Option, none, some, List, [], ◌∷◌, ◌++◌, Text, codes, ◌==◌, nat_eq,
  list_eq, if◌then◌else◌, length, take, all,
}
use tunnel2tunnel.Branches.{BranchFormat, clean, unclean, history, BranchClassification, format_eq}
use tunnel2tunnel.Classify.{CommitClassification}

pub record RefUpdate : Type 0 where
  pub local_ref : Text
  pub local_sha : Text
  pub remote_ref : Text
  pub remote_sha : Text

pub data Violation : Type 0 where
  ai_on_clean : Text → Text → Text → Violation
  code_on_history : Text → Text → Text → Violation
  forbidden_name : Text → BranchFormat → Violation

abbrev pub origin_remote_name : Text
origin_remote_name = codes "origin"

-- `set(sha) == {"0"}` also says that the text is not empty.
unfoldable pub is_zero_sha : Text → Bool
is_zero_sha sha = (length sha == 40 || length sha == 64) && all (λ c. c == b'0') sha

clean_violations : Text → List CommitClassification → List Violation
clean_violations ref [] = []
clean_violations ref (commit ∷ commits) =
    let rest = clean_violations ref commits in
    if commit.is_ai_tainted_commit
    then ai_on_clean (take 12 commit.sha) commit.subject ref ∷ rest
    else rest

history_violations : Text → List CommitClassification → List Violation
history_violations ref [] = []
history_violations ref (commit ∷ commits) =
    let rest = history_violations ref commits in
    if commit.is_code_containing_commit
    then code_on_history (take 12 commit.sha) commit.subject ref ∷ rest
    else rest

content_violations : BranchFormat → Text → List CommitClassification → List Violation
content_violations clean ref commits = clean_violations ref commits
content_violations history ref commits = history_violations ref commits
content_violations unclean ref commits = []

unfoldable pub check_content_policy :
    BranchClassification → List CommitClassification → List Violation
unfolding content_violations clean_violations history_violations
check_content_policy branch commits = content_violations branch.format branch.ref commits

unfoldable pub check_name_policy : BranchClassification → Text → Option Violation
check_name_policy branch remote_name =
    if remote_name == origin_remote_name
    then (if branch.format == unclean || branch.format == history
        then some (forbidden_name branch.ref branch.format)
        else none)
    else none

abbrev to_list {ℓ} : {A : Type ℓ} → Option A → List A
to_list none = []
to_list (some a) = a ∷ []

-- A deletion is exempt from both checks.
unfoldable pub evaluate_ref_update :
    RefUpdate → BranchClassification → Text → List CommitClassification → List Violation
evaluate_ref_update ref_update branch remote_name commits =
    if is_zero_sha ref_update.local_sha
    then []
    else to_list (check_name_policy branch remote_name) ++ check_content_policy branch commits
