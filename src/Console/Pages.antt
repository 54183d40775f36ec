-- ===== src/Console/Pages.antt =====
-- The pages of web/static/app.js: what `shell`, `render` and `renderAgent` write.
pub mod Tables
pub mod Server
pub mod Client
pub mod Render
pub mod Safe
pub mod Inert
