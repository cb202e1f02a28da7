-- ===== src/Tests/Refs.antt =====
-- Names, classification and push policy at concrete refs and commits.
use mathlib.Core.List.{cons-ne-nil}
use native.Mathlib.Decide.{ℕ_discrete}
use tunnel2tunnel.Base.{
  ◌≡◌, refl, ◌≢◌, ◌↔◌, Bool, true, false, not, ◌&&◌, ◌||◌, Option, none, some, List, [], ◌∷◌, ◌++◌,
  Text, codes, arith, ◌==◌, list_eq, nat_eq, if◌then◌else◌, all, starts_with, after_prefix,
  remove_prefix, break_at, ends_with, splitlines, lines_keep, drop_break, is_break, is_space,
  IsLine, ℕ, leb, keep_if, take, map,
}
use tunnel2tunnel.Branches.{
  clean, unclean, history, BranchClassification, refs_heads, classify_branch, unclean_name,
  history_name, base_name_from_unclean, base_name_from_history, strip_refs_heads, match_prefix,
  last_line, format_eq, BranchFormat-discrete,
}
use tunnel2tunnel.Branches.RoundTrip.{
  classify_branch-unclean_name, classify_branch-history_name, variant_name-classify_branch,
  variant_name,
}
use tunnel2tunnel.Classify.{
  CommitClassification, is_ai_base_path, ai_ignore_files, ai_ignore_rules, path_matches_glob,
  apply_rule, glob_candidates, ai_subject, ai_marker, bracket_marker, spaces_marker,
  classify_commit,
}
use tunnel2tunnel.Classify.Rules.{
  is_ai_base_path-verdict, ai_subject-ai_marker, verdict, deciding_rule, rules_of,
}
use tunnel2tunnel.Classify.Commits.{classify_commit_flags}
use tunnel2tunnel.Push.{
  RefUpdate, ai_on_clean, forbidden_name, origin_remote_name, is_zero_sha, check_content_policy,
  check_name_policy, evaluate_ref_update,
}
use tunnel2tunnel.Push.Policy.{
  allows, offence, evaluate_ref_update-nil, check_content_policy-keep_if,
}

abbrev topic : Text
topic = codes "feature/x"

abbrev master : Text
master = codes "master"

topic-IsLine : IsLine topic
unfolding codes
topic-IsLine = omega arith

topic_filled : topic ≢ []
unfolding codes
topic_filled = cons-ne-nil _ _

classify_branch-unclean_name_example :
    (classify_branch (unclean_name topic) master ≡ record {
      ref = unclean_name topic;
      format = unclean;
      base_name = topic;
      is_history_master = false;
    })
    × (classify_branch (refs_heads ++ unclean_name topic) master
        ≡ classify_branch (unclean_name topic) master)
    × (base_name_from_unclean (unclean_name topic) ≡ some topic)
    × (base_name_from_history (unclean_name topic) ≡ none)
classify_branch-unclean_name_example =
    classify_branch-unclean_name topic master topic-IsLine topic_filled

classify_branch-history_name_example :
    (classify_branch (history_name topic) master ≡ record {
      ref = history_name topic;
      format = history;
      base_name = topic;
      is_history_master = topic == master;
    })
    × (classify_branch (refs_heads ++ history_name topic) master
        ≡ classify_branch (history_name topic) master)
    × (base_name_from_history (history_name topic) ≡ some topic)
    × (base_name_from_unclean (history_name topic) ≡ none)
classify_branch-history_name_example =
    classify_branch-history_name topic master topic-IsLine topic_filled

abbrev history_master : Text
history_master = codes "refs/heads/ai/history/master"

history_master-IsLine : IsLine (strip_refs_heads history_master)
unfolding codes strip_refs_heads remove_prefix after_prefix ℕ_discrete
history_master-IsLine = omega arith

variant_name-classify_branch_example :
    let c = classify_branch history_master master in
    (variant_name c.format c.base_name ≡ strip_refs_heads history_master)
    × (c.ref ≡ strip_refs_heads history_master)
    × ((c.is_history_master ≡ true) ↔ (c.ref ≡ history_name master) × (c.format ≡ history))
variant_name-classify_branch_example =
    variant_name-classify_branch history_master master history_master-IsLine

classify_runs : (classify_branch history_master master).is_history_master ≡ true
unfolding classify_branch strip_refs_heads match_prefix last_line break_at remove_prefix
    after_prefix codes ℕ_discrete list_eq
classify_runs = refl

-- Every path below `ai/` is AI content but its README, which a nested file brings back.
abbrev parts : Text → List Text
parts path =
    if path == codes "ai/README.md"
    then codes "ai" ∷ codes "README.md" ∷ []
    else codes "src" ∷ path ∷ []

abbrev full_match : List Text → Text → Bool
full_match path pattern =
    (pattern == codes "ai/**" && starts_with (join_path path) (codes "ai/"))
    || join_path path == pattern
  where
    join_path : List Text → Text
    join_path [] = []
    join_path (p ∷ []) = p
    join_path (p ∷ q ∷ ps) = p ++ codes "/" ++ q

abbrev read_ignore : List Text → Option Text
read_ignore directory =
    if directory == []
    then some (codes "# AI\nai/\n")
    else if directory == codes "ai" ∷ []
    then some (codes "!README.md")
    else none

is_ai : Text → Bool
unfolding is_ai_base_path ai_ignore_files ai_ignore_rules path_matches_glob apply_rule
    glob_candidates codes starts_with ends_with remove_prefix after_prefix splitlines lines_keep
    drop_break is_break list_eq ℕ_discrete
is_ai = is_ai_base_path full_match read_ignore parts

readme_runs : is_ai (codes "ai/README.md") ≡ false
unfolding is_ai
readme_runs = refl

is_ai_base_path-verdict_example :
    is_ai_base_path full_match read_ignore parts (codes "ai/README.md")
    ≡ verdict full_match read_ignore parts false (
        deciding_rule full_match read_ignore parts
          (rules_of full_match read_ignore parts (ai_ignore_files (parts (codes "ai/README.md")))))
is_ai_base_path-verdict_example =
    is_ai_base_path-verdict full_match read_ignore parts (codes "ai/README.md")

-- ASCII letters and digits.
abbrev word : ℕ → Bool
word c =
    (leb b'a' c && leb c b'z')
    || (leb b'A' c && leb c b'Z')
    || (leb b'0' c && leb c b'9')
    || c == b'_'

word_space : (c : ℕ) → is_space c ≡ true → word c ≡ false
unfolding is_space
word_space c h = ground arith

abbrev run_subject : Text
run_subject = codes "[base] topic: ai: Run"

run_subject-IsLine : IsLine run_subject
unfolding codes
run_subject-IsLine = omega arith

ai_subject-ai_marker_example : ai_subject word run_subject ≡ ai_marker word true run_subject
unfolding ℕ_discrete
ai_subject-ai_marker_example =
    ai_subject-ai_marker word word_space refl run_subject run_subject-IsLine

ai_subject_runs :
    (ai_subject word run_subject ≡ true) × (ai_subject word (codes "said: hello") ≡ false)
unfolding ai_subject ai_marker bracket_marker spaces_marker starts_with after_prefix codes is_space
    ℕ_discrete
ai_subject_runs = (refl, refl)

abbrev by_ai : Text → Bool
by_ai path = starts_with path (codes "ai/")

abbrev no_subject : Text → Bool
no_subject subject = false

abbrev mixed : List Text
mixed = codes "ai/log.md" ∷ codes "src/a.py" ∷ []

abbrev mixed_commit : CommitClassification
mixed_commit = classify_commit by_ai no_subject (codes "0123456789abcdef") (codes "work") mixed

classify_commit_flags_example :
    let c = mixed_commit in
    (c.is_ai_only_commit ≡ (not (mixed == []) && not c.is_code_containing_commit))
    × ((c.is_ai_tainted_commit ≡ false)
        ↔ (all (λ path. not (by_ai path)) mixed ≡ true) × (no_subject (codes "work") ≡ false))
    × ((c.is_ai_only_commit && not c.is_ai_tainted_commit) ≡ false)
classify_commit_flags_example =
    classify_commit_flags by_ai no_subject (codes "0123456789abcdef") (codes "work") mixed

abbrev topic_branch : BranchClassification
topic_branch = record { ref = topic; format = clean; base_name = topic; is_history_master = false }

abbrev push_topic : RefUpdate
push_topic = record {
  local_ref = topic;
  local_sha = codes "4b825dc6";
  remote_ref = topic;
  remote_sha = codes "0";
}

evaluate_ref_update-nil_example :
    (evaluate_ref_update push_topic topic_branch origin_remote_name (mixed_commit ∷ []) ≡ []) ↔ (
      (is_zero_sha push_topic.local_sha
        || ((not (origin_remote_name == origin_remote_name) || topic_branch.format == clean)
            && all (allows clean) (mixed_commit ∷ [])))
      ≡ true)
unfolding BranchFormat-discrete
evaluate_ref_update-nil_example =
    evaluate_ref_update-nil push_topic topic_branch origin_remote_name (mixed_commit ∷ [])

check_content_policy-keep_if_example :
    check_content_policy topic_branch (mixed_commit ∷ [])
    ≡ map
        (λ commit. offence clean (take 12 commit.sha) commit.subject topic)
        (keep_if (λ commit. not (allows clean commit)) (mixed_commit ∷ []))
check_content_policy-keep_if_example = check_content_policy-keep_if topic_branch (mixed_commit ∷ [])

push_runs :
    evaluate_ref_update push_topic topic_branch origin_remote_name (mixed_commit ∷ [])
    ≡ ai_on_clean (codes "0123456789ab") (codes "work") topic ∷ []
unfolding evaluate_ref_update check_name_policy check_content_policy is_zero_sha classify_commit
    codes starts_with after_prefix list_eq ℕ_discrete BranchFormat-discrete
push_runs = refl

unclean_push_runs :
    evaluate_ref_update push_topic
      (classify_branch (unclean_name topic) master)
      origin_remote_name
      []
    ≡ forbidden_name (unclean_name topic) unclean ∷ []
unfolding evaluate_ref_update check_name_policy check_content_policy is_zero_sha classify_branch
    unclean_name strip_refs_heads match_prefix last_line break_at remove_prefix codes starts_with
    after_prefix list_eq ℕ_discrete BranchFormat-discrete
unclean_push_runs = refl
