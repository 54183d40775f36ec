-- ===== src/Remote/Files.antt =====
-- The file manager of `openRemote` in web/static/remote-ui.js.
pub mod Paths
pub mod Download
pub mod Upload
pub mod Manager
pub mod Listing
pub mod RoundTrip
