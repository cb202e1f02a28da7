-- ===== src/Lib.antt =====
-- The repository tooling of tunnel2tunnel, under scripts/°base: the Python programs that split a
-- repository into clean branches (code), history branches (files of the coding agents) and unclean
-- branches (everything), guard what is pushed, log how to undo a run, keep the permissions of
-- several agents in step, bring the history of the main branch up to date, and put usernames into
-- the URLs of remotes. All paths below are under scripts/°base; the library of the split tools is
-- git/°split_lib.
--
-- The parts and their files:
--   Branches         branches.py: `classify_branch`, `unclean_name`, `history_name` and the names
--                    read back. The main branch is an argument (`detect_main_branch` asks git).
--   Classify         classify.py: the rules of `.ai-ignore` files (`is_ai_base_path`), AI subjects
--                    and `classify_commit`. Glob matching and the text of the files are arguments.
--   Push             push_checks.py: `check_name_policy`, `check_content_policy` and
--                    `evaluate_ref_update`. A message is its kind and the values that it shows.
--   Git              git_ops.py and the other callers of git: a record of commands. Objects never
--                    change, so what a sha holds is a function of it; the refs are the state.
--                    `IsLawful` states the documented behaviour of the plumbing that the proofs
--                    use. Git.Memory is a git of fixed objects with these laws.
--   TreeOps          tree_ops.py: `raw_diff_for_commit`, `build_filtered_tree` and
--                    `apply_path_changes`, with the scratch index as a value. TreeOps.Described says
--                    what the entries of a diff tell of two trees.
--   Trailers         trailers.py: the trailing block of a message, and what is read from it.
--   Identity         identity.py: `resolve_identity` and what it reads.
--   Split            sync_splits.py: `make_split_commit` (Commit), the cursors and the commits to
--                    replay (Cursor), and `sync_branch` with its two passes (Passes).
--   Unclean          sync_unclean.py: `read_commit_info` (Info), `bucket_commits` and
--                    `correlate_clean_infos` (Buckets), the order (Order), the messages (Message),
--                    what the branch already holds (Lineage), the rebuilt commits (Merged) and
--                    `reconstruct_unclean` (Rebuild).
--   Recovery         recovery.py: the watched refs, the undo commands, the log's text, and the
--                    backup tags (Backup).
--   Permissions      ai/settings/°settings_lib/commands.py: permission entries as text and as
--                    dicts, and command prefixes.
--   Remote           git/remote/fix_username.py: the URLs (Url), the check boxes (UrlSelection and
--                    Selection), the plan (Plan), what is read of git (Discover), a run of the plan
--                    (Apply; Apply.Memory is a git of remotes with the laws), `main` (Main), and
--                    the user interface as a state machine (Tui, and its key bindings in
--                    Tui.Handlers). urllib and git are records of functions.
--   History          history_master.py: `_build_plan` (Plan), the scratch branch and what is checked
--                    out (Checkout), the conflicts that are resolved without the user (Conflicts;
--                    gitattributes_safety.py is Attributes and `restore_original`), the primitives
--                    that replay one commit (Replay), `_run_steps` (Steps), `update_history_master`
--                    (Update), and `--continue` and `--abort` (Resume). Git's commands on a
--                    checkout are a record, `Checkout`; `IsDocumented` says which refs and which
--                    HEAD they may touch.
--   Base             what the parts share: Python's text methods over code points, dicts in
--                    insertion order, results, and programs over a state that may raise
--                    (Base.Exec). What such a program wrote before it raised stays written.
--   Tests            runs of the model, and the theorems at concrete data.
--
-- The split tools take a `Host`: git, the configuration and environment, `casefold`, the date of a
-- new commit, and the tests of AI paths and AI subjects that Classify gives. A forward run
-- (`sync_branch`) replays the commits of an unclean branch, each filtered, onto the clean branch
-- and the history branch, and moves a cursor ref for each. A reverse run (`reconstruct_unclean`)
-- pairs the commits of the two by the trailers that the forward run wrote, and rebuilds the
-- unclean branch. Recovery reads the same names to write down what either may move.
--
-- A run for the remotes reads git's configuration, lets the user check boxes in the interface, and
-- runs the commands of the plan that the interface returns. A run for the history plans its steps
-- from the refs, runs them from tip to tip, and moves the history branch at the end; a conflict
-- writes what remains to the state file, from which a continuation goes on.
--
-- Loops are structural over the lists that git gives. Only the search for a free backup timestamp
-- has no bound in the source; here it has a number of rounds, and the theorem on it says how many
-- are enough. Numbers are the native ℕ; the tuple that orders rebuilt commits has its second
-- number one higher than the source, where it starts at -1.
--
-- Not modelled: the reading of git's output, temporary files, what is printed, and the drawing,
-- scrolling and mouse of the user interface; the real merge of sync_splits.py
-- (`build_filtered_merge_commit`); cli.py, merge_base.py and rebase_to_master.py; git/hooks and the other files of git/; the agent hooks, memory and
-- reference tools under ai/; the rest of the settings library; and the tunnel itself (crates,
-- frontend).
pub mod Base
pub mod Branches
pub mod Classify
pub mod Push
pub mod Git
pub mod TreeOps
pub mod Trailers
pub mod Identity
pub mod Split
pub mod Unclean
pub mod Recovery
pub mod Remote
pub mod History
pub mod Permissions
mod Tests
