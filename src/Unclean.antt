-- ===== src/Unclean.antt =====
-- scripts/°base/git/°split_lib/sync_unclean.py: the reverse split, which rebuilds the unclean
-- branch from the clean branch and the history branch.
pub mod Info
pub mod Buckets
pub mod Order
pub mod Message
pub mod Lineage
pub mod Merged
pub mod Rebuild
