-- ===== src/Tests/Split.antt =====
-- A branch with one commit that touches code and AI content, split over a git of fixed objects.
use native.Mathlib.Decide.{ℕ_discrete}
use mathlib.Core.Path.{subst}
use tunnel2tunnel.Base.{
  Bool-cases, inl, inr, split_on, ◌≡◌, refl, ◌≢◌, ◌+◌, Bool, true, false, not, ◌||◌, none, some,
  List, [], ◌∷◌, Text, codes, arith, ◌==◌, list_eq, nat_eq, option_eq, pair_eq, if◌then◌else◌,
  splitlines, lines_keep, drop_break, is_break, join, after_prefix, break_at, ends_with, is_space,
  lstrip, rstrip, starts_with, strip, length, all,
}
use tunnel2tunnel.Base.Result.{ok, to_clean, to_history}
use tunnel2tunnel.Base.Dict.{Dict, lookup, insert}
use tunnel2tunnel.Git.{Git, Author, CommitSpec}
use tunnel2tunnel.Git.Memory.{
  Objects, memory, memory-IsLawful, or_fail, tree_of, files_of, tree_ish, confirmed,
  confirmed_commit, walk, parse, walk_refs,
}
use tunnel2tunnel.Base.Exec.{◌>>=◌, gets, lift, pure, raise}
use tunnel2tunnel.Branches.{unclean_name, history_name, history_fork_point_ref}
use tunnel2tunnel.Classify.{classify_commit}
use tunnel2tunnel.TreeOps.{
  PathChange, kind, apply_path_changes, build_filtered_tree, raw_diff_for_commit,
}
use tunnel2tunnel.Trailers.{
  is_trailer_line, read_trailers, read_trailer_value, split_trailer_block,
  strip_trailers_with_prefix,
}
use tunnel2tunnel.Identity.{
  direct_identity, identity_with_default_name, normal_git_identity, read_git_config,
  resolve_identity,
}
use tunnel2tunnel.Split.Host.{Host, full_ref, move_ref}
use tunnel2tunnel.Split.Commit.{make_split_commit}
use tunnel2tunnel.Split.Cursor.{
  source_shas, find_forward_cursor, forward_cursor_ref, find_reconstruction_correlated_cursor,
  commits_to_replay, find_last_synced_source,
}
use tunnel2tunnel.Split.Passes.{
  sync_branch, clean_pass, history_pass, clean_loop, CleanPass, add_clean_commit, classified,
  clean_commit, clean_step, finish_pass, kind_for, move_cursor, stop_at_merge, HistoryPass,
  history_loop, history_step, counterpart_trailers, clean_commit_of,
}
use tunnel2tunnel.Split.Passes.Content.{clean_pass_content, history_pass_content}
use tunnel2tunnel.Split.Passes.Counts.{clean_loop_counts, total, is_plain}
use tunnel2tunnel.Split.Passes.Frame.{
  sync_branch_dry, sync_branch_frame, Touched, clean_branch, history_branch, fork_point, cursor,
}
use tunnel2tunnel.TreeOps.Described.{DiffEntry, added, Describes, build_filtered_tree-split}
use tunnel2tunnel.TreeOps.Projection.{
  apply_path_changes-build_filtered_tree, build_filtered_tree-file_at,
}

abbrev pub feature : Text
feature = codes "f"

abbrev pub lucy : Author
lucy = record { name = codes "Lucy"; email = codes "l@x"; date = codes "1" }

abbrev pub configured : Author
configured = record { name = codes "Bot"; email = codes "b@x"; date = codes "2" }

abbrev pub commit : Text → List Text → CommitSpec
commit tree parents = record {
  tree = tree;
  parents = parents;
  message = codes "m";
  author = lucy;
  committer = configured;
}

abbrev pub code_file : Text × (Text × Text)
code_file = (codes "c", (codes "100644", codes "x"))

abbrev pub ai_file : Text × (Text × Text)
ai_file = (codes "ai", (codes "100644", codes "y"))

abbrev pub objects : Objects
objects = record {
  trees =
      (codes "t0", [])
      ∷ (codes "t1", code_file ∷ [])
      ∷ (codes "t2", ai_file ∷ [])
      ∷ (codes "t3", code_file ∷ ai_file ∷ [])
      ∷ [];
  commits =
      (codes "b0", commit (codes "t0") [])
      ∷ (codes "s1", commit (codes "t3") (codes "b0" ∷ []))
      ∷ (codes "c1", commit (codes "t1") (codes "b0" ∷ []))
      ∷ (codes "h1", commit (codes "t2") (codes "b0" ∷ []))
      ∷ [];
  diffs = (codes "s1", (b'A' ∷ 9 ∷ codes "c") ∷ (b'A' ∷ 9 ∷ codes "ai") ∷ []) ∷ [];
  paths = (codes "s1", codes "c" ∷ codes "ai" ∷ []) ∷ [];
}

abbrev pub git : Git
git = memory objects

abbrev pub host : Host
host = record {
  git = git;
  git_config = λ key. none;
  environ = λ key. if key == codes "BASE_SPLIT_EMAIL" then some (codes "b@x") else none;
  casefold = λ text. text;
  clock = λ source. codes "2";
  is_ai_path = λ path. path == codes "ai";
  is_ai_subject = λ subject. false;
}

abbrev pub refs : Dict Text Text
refs =
    (codes "refs/heads/f", codes "b0")
    ∷ (codes "refs/heads/ai/UNCLEAN/f", codes "s1")
    ∷ (codes "refs/heads/master", codes "b0")
    ∷ (codes "refs/heads/ai/history/master", codes "b0")
    ∷ []

abbrev synced : Dict Text Text
synced =
    (codes "refs/heads/f", codes "c1")
    ∷ (codes "refs/heads/ai/UNCLEAN/f", codes "s1")
    ∷ (codes "refs/heads/master", codes "b0")
    ∷ (codes "refs/heads/ai/history/master", codes "b0")
    ∷ (codes "refs/base-split/forward-cursor/clean/f", codes "s1")
    ∷ []

abbrev passed : CleanPass
passed = record {
  clean_tip = codes "c1";
  source_to_clean_commit = (codes "s1", codes "c1") ∷ [];
  created = 1;
  skipped_ai_only = 0;
  skipped_noop = 0;
}

abbrev fresh : CleanPass
fresh = record {
  clean_tip = codes "b0";
  source_to_clean_commit = [];
  created = 0;
  skipped_ai_only = 0;
  skipped_noop = 0;
}

abbrev history_passed : HistoryPass
history_passed = record { history_tip = codes "h1"; created = 1 }

abbrev pub history_synced : Dict Text Text
history_synced =
    (codes "refs/heads/f", codes "b0")
    ∷ (codes "refs/heads/ai/UNCLEAN/f", codes "s1")
    ∷ (codes "refs/heads/master", codes "b0")
    ∷ (codes "refs/heads/ai/history/master", codes "b0")
    ∷ (codes "refs/heads/ai/history/f", codes "h1")
    ∷ (codes "refs/base-split/forward-cursor/history/f", codes "s1")
    ∷ []

abbrev own_changes : List PathChange
own_changes =
    record { status = codes "A"; path = codes "c"; old_path = none }
    ∷ record { status = codes "A"; path = codes "ai"; old_path = none }
    ∷ []

abbrev keep_code : Text → Bool
keep_code path = not (host.is_ai_path path)

-- What the functions give on the objects above.
runs :
    (clean_pass host feature (codes "master") false false (codes "b0") refs ≡ (ok passed, synced))
    × (history_pass host feature (codes "master") false false [] (codes "b0") refs
        ≡ (ok history_passed, history_synced))
    × (clean_loop host false false feature (codes "s1" ∷ []) fresh refs ≡ (ok passed, refs))
    × (git.tree_for_commit (codes "b0") ≡ ok (codes "t0"))
    × (raw_diff_for_commit git (codes "s1") ≡ ok own_changes)
    × (build_filtered_tree git (codes "t0") (codes "s1") keep_code ≡ ok (codes "t1"))
    × (build_filtered_tree git (codes "t0") (codes "s1") (λ p. not (keep_code p)) ≡ ok (codes "t2"))
    × (apply_path_changes git (codes "t0") own_changes (codes "s1") ≡ ok (codes "t3"))
    × (host.is_ai_path (codes "ai") ≡ true)
    × (host.is_ai_path (codes "c") ≡ false)
unfolding clean_pass history_pass history_loop history_step counterpart_trailers clean_commit_of
    history_name apply_path_changes kind pair_eq ◌>>=◌ gets lift pure raise source_shas
    find_forward_cursor parse lookup insert list_eq option_eq forward_cursor_ref codes ℕ_discrete
    read_trailer_value splitlines lines_keep drop_break is_break join
    find_reconstruction_correlated_cursor walk_refs walk unclean_name after_prefix break_at
    ends_with is_space lstrip rstrip starts_with strip classify_commit direct_identity
    identity_with_default_name normal_git_identity read_git_config resolve_identity
    make_split_commit commits_to_replay find_last_synced_source full_ref move_ref add_clean_commit
    classified clean_commit clean_loop clean_step finish_pass kind_for move_cursor stop_at_merge
    is_trailer_line read_trailers split_trailer_block strip_trailers_with_prefix build_filtered_tree
    raw_diff_for_commit split_on or_fail tree_of files_of tree_ish confirmed confirmed_commit
runs = (refl, refl, refl, refl, refl, refl, refl, refl, refl, refl)

clean_pass_content_example :
    (tree' : Text) × (git.tree_for_commit (codes "c1") ≡ ok tree')
    × (git.file_at tree' (codes "ai") ≡ git.file_at (codes "t0") (codes "ai"))
clean_pass_content_example =
    clean_pass_content host (memory-IsLawful objects) (codes "ai") feature (codes "master") false
      false (codes "b0") (codes "t0") refs synced passed runs.8 runs.3 runs.0

history_pass_content_example :
    (tree' : Text) × (git.tree_for_commit (codes "h1") ≡ ok tree')
    × (git.file_at tree' (codes "c") ≡ git.file_at (codes "t0") (codes "c"))
history_pass_content_example =
    history_pass_content host (memory-IsLawful objects) (codes "c") feature (codes "master") false
      false [] (codes "b0") (codes "t0") refs history_synced history_passed runs.9 runs.3 runs.1

clean_loop_counts_example :
    (total passed ≡ total fresh + length (codes "s1" ∷ []))
    × ((false || all (is_plain host) (codes "s1" ∷ [])) ≡ true)
clean_loop_counts_example =
    clean_loop_counts host false false feature (codes "s1" ∷ []) fresh passed refs refs runs.2

sync_branch_dry_example : (sync_branch host feature (codes "master") true false refs).1 ≡ refs
sync_branch_dry_example = sync_branch_dry host feature (codes "master") false refs

abbrev main_ref : Text
main_ref = codes "refs/heads/master"

untouched_main : (ref : Text) → Touched feature ref → full_ref ref ≢ main_ref
unfolding full_ref history_name history_fork_point_ref forward_cursor_ref codes starts_with
    after_prefix ℕ_discrete
untouched_main _ clean_branch = ground arith
untouched_main _ history_branch = ground arith
untouched_main _ fork_point = ground arith
untouched_main _ (cursor to_clean) = ground arith
untouched_main _ (cursor to_history) = ground arith

sync_branch_frame_example :
    git.ref_at (sync_branch host feature (codes "master") false false refs).1 main_ref
    ≡ git.ref_at refs main_ref
sync_branch_frame_example =
    sync_branch_frame host (memory-IsLawful objects) feature main_ref untouched_main
      (codes "master") false false refs

apply_path_changes-build_filtered_tree_example :
    apply_path_changes git (codes "t0") own_changes (codes "s1")
    ≡ build_filtered_tree git (codes "t0") (codes "s1") (λ _. true)
apply_path_changes-build_filtered_tree_example =
    apply_path_changes-build_filtered_tree git (codes "t0") (codes "s1") runs.4

build_filtered_tree-file_at_example : git.file_at (codes "t1") (codes "ai") ≡ (
    if keep_code (codes "ai")
    then git.file_at (codes "t3") (codes "ai")
    else git.file_at (codes "t0") (codes "ai"))
build_filtered_tree-file_at_example =
    build_filtered_tree-file_at git (memory-IsLawful objects) (codes "s1") keep_code (codes "t0")
      runs.4 runs.5 runs.7 (codes "ai")

empty_split :
    (p : Text)
    → git.file_at (codes "t0") p
      ≡ (if keep_code p then git.file_at (codes "t0") p else git.file_at (codes "t0") p)
empty_split p = ground arith

abbrev entries : List DiffEntry
entries = added (codes "c") ∷ added (codes "ai") ∷ []

described_c :
    Describes git
      (codes "s1")
      (codes "t3")
      (codes "c")
      (git.file_at (codes "t0") (codes "c"))
      entries
unfolding list_eq codes ℕ_discrete lookup files_of tree_ish tree_of
described_c = (
  (record { mode = codes "100644"; obj_type = codes "blob"; blob_sha = codes "x" }, refl, refl),
  (refl, tt),
)

described_ai :
    Describes git
      (codes "s1")
      (codes "t3")
      (codes "ai")
      (git.file_at (codes "t0") (codes "ai"))
      entries
unfolding list_eq codes ℕ_discrete lookup files_of tree_ish tree_of
described_ai = (
  (record { mode = codes "100644"; obj_type = codes "blob"; blob_sha = codes "y" }, refl, refl),
  tt,
)

same_text : (p q : Text) → (p == q) ≡ true → q ≡ p
same_text p q h = ground arith

entries_described :
    (p : Text) → Describes git (codes "s1") (codes "t3") p (git.file_at (codes "t0") p) entries
unfolding lookup files_of codes list_eq ℕ_discrete
entries_described p = elim (Bool-cases (p == codes "c")) [
  | inl is_c ↦ subst Described (same_text p (codes "c") is_c) described_c
  | inr no_c ↦ elim (Bool-cases (p == codes "ai")) [
    | inl is_ai ↦ subst Described (same_text p (codes "ai") is_ai) described_ai
    | inr no_ai ↦ rw (no_c, no_ai) refl
  ]
]
  where
    Described : Text → Type 0
    Described q = Describes git (codes "s1") (codes "t3") q (git.file_at (codes "t0") q) entries

build_filtered_tree-split_example : git.file_at (codes "t3") (codes "ai") ≡ (
    if keep_code (codes "ai")
    then git.file_at (codes "t1") (codes "ai")
    else git.file_at (codes "t2") (codes "ai"))
build_filtered_tree-split_example =
    build_filtered_tree-split git (memory-IsLawful objects) (codes "s1") keep_code (codes "t0")
      (codes "t3") (codes "t0") (codes "t0") entries empty_split runs.4 entries_described runs.5
      runs.6 (codes "ai")
