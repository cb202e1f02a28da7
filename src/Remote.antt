-- ===== src/Remote.antt =====
-- scripts/°base/git/remote/fix_username.py: usernames and `.git` endings in the URLs of remotes.
pub mod Url
pub mod UrlSelection
pub mod Selection
pub mod Plan
pub mod Discover
pub mod Apply
pub mod Main
pub mod Tui
