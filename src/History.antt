-- ===== src/History.antt =====
-- scripts/°base/git/°split_lib/history_master.py: the history branch of the main branch is brought
-- up to date by a plan of steps, which can stop at a conflict and be resumed.
pub mod Checkout
pub mod Attributes
pub mod Conflicts
pub mod Plan
pub mod Replay
pub mod Steps
pub mod Update
pub mod Resume
