-- ===== src/Remote.antt =====
-- The remote console of the browser, web/static/remote-ui.js.
pub mod Base64
pub mod Protocol
pub mod Sender
pub mod Link
pub mod Files
pub mod Screen
