-- ===== src/Tests.antt =====
-- Runs of the model, and the theorems at concrete data.
mod Refs
mod Split
mod Unclean
mod Tools
mod Remote
mod Urls
mod Screen
mod History
