-- ===== src/Tests/Views.antt =====
-- The file manager and the remote desktop's view of web/static/remote-ui.js at concrete inputs.
use net_conductor.Base.{◌≡◌, none, some, List, [], ◌∷◌, if◌then◌else◌}
use net_conductor.Base.Text.{codes}
use net_conductor.Base.Int.{pos}
use net_conductor.Remote.Protocol.{Ratio}
use net_conductor.Remote.Files.Manager.{
  start, Event, listed, file_chosen, uploaded, reloaded, step, run,
}
use net_conductor.Remote.Files.Manager.Transfers.{transfers, one_transfer}
use net_conductor.Remote.Screen.{Screen, frame_came, link_ready, dialog_closed}
use net_conductor.Remote.Screen.Closing.{drawn, closed-still}
use net_conductor.Remote.Screen

-- A file is chosen after the first listing, and another while the first is under way.
abbrev two_files : List Event
two_files =
    listed (some (codes "/home", [])) none
    ∷ file_chosen (codes "a") 3
    ∷ file_chosen (codes "b") 3
    ∷ uploaded none
    ∷ reloaded (some (codes "/home", [])) none
    ∷ []

one_transfer_example :
    transfers (run two_files start).tasks ≡ (if (run two_files start).busy then 1 else 0)
one_transfer_example = one_transfer two_files

abbrev corner : Ratio
corner = record { over = pos 0; under = 640 }

-- The dialog is closed while a frame is out.
closed-still_example :
    drawn
      (Screen.run
        (frame_came (codes "AAAA") ∷ [])
        (Screen.step dialog_closed (Screen.step link_ready Screen.start))).log
    ≡ drawn (Screen.step link_ready Screen.start).log
closed-still_example =
    closed-still (frame_came (codes "AAAA") ∷ []) (Screen.step link_ready Screen.start)
