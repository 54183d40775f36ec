-- ===== src/Remote/Screen.antt =====
-- The remote desktop's view in `openRemote`, web/static/remote-ui.js: pointer and key events become
-- inputs, moves at most every 80 ms, and frames are fetched one after the other.
pub mod Pace
pub mod Closing
use net_conductor.Base.{ℕ, ◌+◌, Bool, true, false, List, [], ◌∷◌, ltb, if◌then◌else◌}
use net_conductor.Base.Text.{Text}
use net_conductor.Base.Int.{ℤ, pos, negsuc}
use net_conductor.Remote.Protocol.{Ratio, Input, button, key, wheel, release}

-- What the view does: inputs for the device, those of moves with their time in milliseconds; frames
-- asked for and shown; errors shown.
pub data Effect : Type 0 where
  moved : ℕ → Ratio → Ratio → Effect
  sent : Input → Effect
  asked_frame : Effect
  shown : Text → Effect
  reported : Text → Effect

-- Where the loop over the frames stands.
pub data Phase : Type 0 where
  connecting : Phase
  asking : Phase
  pausing : Phase
  ended : Phase

-- `move` is the time of the last move that was sent; `log` has the newest effect at its head.
pub record Screen : Type 0 where
  pub active : Bool
  pub move : ℕ
  pub phase : Phase
  pub log : List Effect

abbrev pub start : Screen
start = record { active = true; move = 0; phase = connecting; log = [] }

-- `report`
unfoldable pub report : Text → Screen → Screen
report e s = if s.active then record s { log = reported e ∷ s.log } else s

-- `send` up to the answer of the call
unfoldable pub send : Input → Screen → Screen
send i s = record s { log = sent i ∷ s.log }

-- `onpointermove`: `Date.now() - move < 80` is `now < move + 80`.
unfoldable pub on_move : ℕ → Ratio → Ratio → Screen → Screen
on_move now x y s =
    if ltb now (s.move + 80) then s else record s { move = now; log = moved now x y ∷ s.log }

-- `deltaY > 0 ? -120 : 120`
abbrev pub wheel_delta : Bool → ℤ
wheel_delta true = negsuc 119
wheel_delta false = pos 120

-- `while (active) { … await link.call("frame") … }` from its test on
unfoldable pub next_frame : Screen → Screen
next_frame s =
    if s.active
    then record s { phase = asking; log = asked_frame ∷ s.log }
    else record s { phase = ended }

-- A frame comes: `if (!active) break; img.src = …`, then the pause of 250 ms.
unfoldable pub show_frame : Text → Screen → Screen
show_frame image s =
    if s.active
    then record s { phase = pausing; log = shown image ∷ s.log }
    else record s { phase = ended }

-- An exception ends the loop.
unfoldable pub end_loop : Text → Screen → Screen
unfolding report
end_loop e s = report e (record s { phase = ended })

pub data Event : Type 0 where
  pointer_moved : ℕ → Ratio → Ratio → Event
  pointer_pressed : ℕ → Bool → Event
  key_pressed : Text → Bool → Event
  blurred : Event
  wheeled : Bool → Event
  input_failed : Text → Event
  link_ready : Event
  frame_came : Text → Event
  pause_over : Event
  call_failed : Text → Event
  dialog_closed : Event

unfoldable pub while_connecting : Event → Screen → Screen
unfolding next_frame end_loop
while_connecting link_ready s = next_frame s
while_connecting (call_failed e) s = end_loop e s
while_connecting e s = s

unfoldable pub while_asking : Event → Screen → Screen
unfolding show_frame end_loop
while_asking (frame_came image) s = show_frame image s
while_asking (call_failed e) s = end_loop e s
while_asking e s = s

unfoldable pub while_pausing : Event → Screen → Screen
unfolding next_frame
while_pausing pause_over s = next_frame s
while_pausing e s = s

unfoldable pub advance : Phase → Event → Screen → Screen
unfolding while_connecting while_asking while_pausing
advance connecting e s = while_connecting e s
advance asking e s = while_asking e s
advance pausing e s = while_pausing e s
advance ended e s = s

unfoldable pub step : Event → Screen → Screen
unfolding on_move send report advance
step (pointer_moved now x y) s = on_move now x y s
step (pointer_pressed b down) s = send (button b down) s
step (key_pressed code down) s = send (key code down) s
step blurred s = send release s
step (wheeled down) s = send (wheel (wheel_delta down)) s
step (input_failed e) s = report e s
step dialog_closed s = record s { active = false }
step e s = advance s.phase e s

unfoldable pub run : List Event → Screen → Screen
unfolding step
run [] s = s
run (e ∷ es) s = run es (step e s)
