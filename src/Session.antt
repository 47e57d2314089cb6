-- ===== src/Session.antt =====
-- internal/session and resolveSession of internal/cli/ssh.go: what is stored for a session, and the
-- directories that hold it.
pub mod Metadata
pub mod Store
pub mod Names
pub mod Archived
pub mod New
pub mod Listed
pub mod Resolve
mod Tests
