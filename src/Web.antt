-- ===== src/Web.antt =====
-- The admin single-page application, internal/server/web/app.js, by its parts.
pub mod Escape
pub mod Wire
pub mod Format
pub mod Uri
pub mod Timeline
pub mod View
pub mod Options
pub mod Charts
pub mod Rows
pub mod Net
pub mod Select
pub mod Routes
pub mod Page
mod Examples
