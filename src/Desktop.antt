-- ===== src/Desktop.antt =====
-- The desktop client of Windows, desktop/*.cjs.
pub mod Input
pub mod Jobs
pub mod Shell
pub mod Script
