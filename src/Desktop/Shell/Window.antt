-- ===== src/Desktop/Shell/Window.antt =====
-- The window of desktop/main.cjs over the life of the client.
use net_conductor.Base.{ℕ, ◌+◌, ◌≡◌, Bool, true, false, Option, none, some}
use net_conductor.Base.Text.{Text}
use net_conductor.Desktop.Shell.{Shell}

abbrev pub windows : Option Bool → ℕ
windows none = 0
windows (some v) = 1

pub record IsWhole (s : Shell) : Type 0 where
  pub counted : s.opened ≡ s.gone + windows s.window
  pub armed : s.reload ≡ true → windows s.window ≡ 1
  pub kept : s.quitting ≡ false → s.gone ≡ 0
