-- ===== src/Desktop/Shell.antt =====
-- The shell of the desktop client, desktop/main.cjs: the gate of the system proxy, the check of the
-- configuration, and the lifecycle of its window.
pub mod Window
pub mod Address
use net_conductor.Base.{
  ℕ, zero, suc, ◌+◌, leb, ◌==◌, Bool, true, false, ◌&&◌, ◌||◌, not, Option, none, some, List, [],
  ◌∷◌, ◌++◌, if◌then◌else◌,
}
use net_conductor.Base.Text.{Text, codes, text_eq}

-- `[…].includes(action)`
unfoldable pub includes : Text → List Text → Bool
includes a [] = false
includes a (b ∷ bs) = text_eq b a || includes a bs

abbrev pub actions : List Text
actions = codes "enable" ∷ codes "restore" ∷ codes "status" ∷ []

-- The test of the handler of "system-proxy"; `url` is that of the sender's frame, if there is one.
unfoldable pub is_denied : Text → Option Text → Text → Bool
unfolding includes
is_denied origin none action = true
is_denied origin (some url) action =
    not (text_eq url (origin ++ codes "/#desktop")) || not (includes action actions)

abbrev pub is_digit : ℕ → Bool
is_digit c = leb b'0' c && leb c b'9'

-- `\d*$`
unfoldable pub is_digits : Text → Bool
is_digits [] = true
is_digits (c ∷ s) = is_digit c && is_digits s

-- `\d+$`
unfoldable pub is_number : Text → Bool
unfolding is_digits
is_number [] = false
is_number (c ∷ s) = is_digit c && is_digits s

-- `/^…\d+$/.test(s)` for the literal characters `p`
unfoldable pub matches : Text → Text → Bool
unfolding is_number
matches [] s = is_number s
matches (p ∷ ps) [] = false
matches (p ∷ ps) (c ∷ s) = p == c && matches ps s

-- `/^127\.0\.0\.1:\d+$/.test(c.localListen)`
unfoldable pub is_local : Text → Bool
unfolding matches
is_local s = matches (codes "127.0.0.1:") s

-- The variables of the script. `window` is whether there is one, with its visibility; `reload` says
-- whether the timer is armed; `opened` and `gone` count windows, `loads` the calls of `loadURL`;
-- `desktop` says whether the remote desktop runs.
pub record Shell : Type 0 where
  pub origin : Text
  pub window : Option Bool
  pub quitting : Bool
  pub reload : Bool
  pub desktop : Bool
  pub opened : ℕ
  pub gone : ℕ
  pub loads : ℕ

abbrev pub launched : Shell
launched = record {
  origin = codes "http://127.0.0.1:18765";
  window = none;
  quitting = false;
  reload = false;
  desktop = false;
  opened = 0;
  gone = 0;
  loads = 0;
}

-- `show()`
unfoldable pub show : Shell → Shell
show s = elim s.window [
  | some v ↦ record s { window = some true }
  | none ↦ record s { window = some true; opened = suc s.opened; loads = suc s.loads }
]

-- `app.on("before-quit", …)`, which `app.quit()` causes.
unfoldable pub before_quit : Shell → Shell
before_quit s = record s { quitting = true; desktop = false }

-- `app.whenReady().then(…)`: the address that the configuration holds, if it could be read, and
-- whether the client starts without a window.
unfoldable pub ready : Option Text → Bool → Shell → Shell
unfolding is_local show before_quit
ready none hidden s = before_quit s
ready (some listen) hidden s =
    if is_local listen
    then (if hidden
        then record s { origin = codes "http://" ++ listen; desktop = true }
        else show (record s { origin = codes "http://" ++ listen; desktop = true }))
    else before_quit s

abbrev pub has_window : Option Bool → Bool
has_window none = false
has_window (some v) = true

-- `did-fail-load`; `aborted` is `code === -3`.
unfoldable pub on_failed_load : Bool → Bool → Shell → Shell
on_failed_load aborted main_frame s =
    if has_window s.window
    then (if not main_frame || (aborted || s.quitting) then s else record s { reload = true })
    else s

unfoldable pub on_finished_load : Shell → Shell
on_finished_load s = if has_window s.window then record s { reload = false } else s

-- The reload timer: `if (window && !window.isDestroyed()) window.loadURL(…)`.
unfoldable pub on_reload : Shell → Shell
on_reload s =
    if s.reload
    then (if has_window s.window
        then record s { reload = false; loads = suc s.loads }
        else record s { reload = false })
    else s

-- `closed`
unfoldable pub on_closed : Shell → Shell
on_closed s = record s { reload = false; window = none; gone = suc s.gone }

-- The window is asked to close: `close`, and `closed` where that is not prevented.
unfoldable pub on_close : Shell → Shell
unfolding on_closed
on_close s =
    if has_window s.window
    then (if s.quitting then on_closed s else record s { window = some false })
    else s

-- `will-navigate`, by the origin of the address: whether the window goes there.
unfoldable pub may_navigate : Text → Shell → Bool
may_navigate origin s = text_eq origin s.origin

-- `opened_again` is a second instance, the tray's icon or its first entry; `quit` is its other entry
-- or another call of `app.quit`, before the windows are asked to close.
pub data Event : Type 0 where
  opened_again : Event
  failed_load : Bool → Bool → Event
  finished_load : Event
  reload_due : Event
  close_clicked : Event
  quit : Event

unfoldable pub step : Event → Shell → Shell
unfolding show on_failed_load on_finished_load on_reload on_close before_quit
step opened_again s = show s
step (failed_load aborted main_frame) s = on_failed_load aborted main_frame s
step finished_load s = on_finished_load s
step reload_due s = on_reload s
step close_clicked s = on_close s
step quit s = before_quit s

unfoldable pub run : List Event → Shell → Shell
unfolding step
run [] s = s
run (e ∷ es) s = run es (step e s)
