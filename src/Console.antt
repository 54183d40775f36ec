-- ===== src/Console.antt =====
-- The web console, web/static/app.js.
pub mod Markup
pub mod Template
pub mod State
pub mod Format
pub mod Parts
pub mod Number
pub mod Version
pub mod Pages
pub mod Policy
pub mod Dialogs
pub mod Terminal
pub mod Session
