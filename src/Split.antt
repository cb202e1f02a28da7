-- ===== src/Split.antt =====
-- scripts/°base/git/°split_lib/sync_splits.py: the commits of an unclean branch replayed onto its
-- clean and its history branch.
pub mod Host
pub mod Cursor
pub mod Commit
pub mod Passes
