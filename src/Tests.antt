-- ===== src/Tests.antt =====
-- The theorems at concrete inputs.
mod Links
mod Transfers
mod Views
mod Desktops
mod Shells
mod Consoles
mod Pages
