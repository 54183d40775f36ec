-- ===== src/Tests/Shells.antt =====
-- The shell of the desktop client, desktop/main.cjs, at concrete inputs.
use net_conductor.Base.{◌≡◌, ◌⊎◌, refl, true, false, Option, some, List, [], ◌∷◌}
use net_conductor.Base.Text.{Text, codes}
use net_conductor.Desktop.Shell.{
  includes, is_denied, is_number, is_digits, matches, is_local, launched, show, ready, on_close,
  close_clicked, opened_again, failed_load, Event, step, run,
}
use net_conductor.Desktop.Shell.Address.{IsOwnPage}
use net_conductor.Desktop.Script.{arguments, system_proxy}
use net_conductor.Desktop.Script.Own.{script-own}

abbrev listen : Option Text
listen = some (codes "127.0.0.1:18765")

abbrev page : Option Text
page = some (codes "http://127.0.0.1:18765/#desktop")

-- The window fails to load, is closed and opened again.
abbrev reopened : List Event
reopened = failed_load false true ∷ close_clicked ∷ opened_again ∷ []

-- Any output is taken as it is.
abbrev script : Text
script = codes "C:\\system-proxy.ps1"

page-starts :
    (system_proxy some script
      (run (close_clicked ∷ []) (ready listen false launched)).origin
      page
      (codes "status")
      (some (codes "{}"))).0
    ≡ arguments script (codes "status") ∷ []
unfolding system_proxy run step ready is_local matches is_number is_digits show on_close is_denied
    includes
page-starts = refl

script-own_example :
    (arguments script (codes "status") ≡ arguments script (codes "status"))
    × ((u : Text) × (page ≡ some u)
        × IsOwnPage u
        × ((codes "status" ≡ codes "enable")
            ⊎ ((codes "status" ≡ codes "restore") ⊎ (codes "status" ≡ codes "status"))))
script-own_example =
    script-own some script listen false (close_clicked ∷ []) page (codes "status")
      (some (codes "{}")) (arguments script (codes "status")) page-starts
