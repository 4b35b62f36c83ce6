-- ===== src/Handlers.antt =====
-- internal/handler.
pub mod Paths
pub mod Filename
pub mod Escape
pub mod Mime
pub mod Words
pub mod Disk
pub mod Fetch
pub mod Render
pub mod Folders
pub mod Upload
pub mod Handoff
pub mod Invariant
