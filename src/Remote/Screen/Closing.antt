-- ===== src/Remote/Screen/Closing.antt =====
-- A view whose dialog is closed.
use net_conductor.Base.{ℕ, ◌+◌, ◌≡◌, refl, false, List, [], ◌∷◌, arith}
use net_conductor.Base.Text.{Text}
use net_conductor.Remote.Protocol.{Ratio, Input}
use net_conductor.Remote.Screen.{
  Effect, moved, sent, asked_frame, shown, reported, Phase, connecting, asking, pausing, ended,
  Screen, report, send, on_move, next_frame, show_frame, end_loop, Event, pointer_moved,
  pointer_pressed, key_pressed, blurred, wheeled, input_failed, link_ready, frame_came, pause_over,
  call_failed, dialog_closed, while_connecting, while_asking, while_pausing, advance, step, run,
}

abbrev draws : Effect → ℕ
draws (moved now x y) = 0
draws (sent i) = 0
draws asked_frame = 1
draws (shown t) = 1
draws (reported e) = 1

-- How many frames were asked for and shown, and errors shown.
abbrev pub drawn : List Effect → ℕ
drawn [] = 0
drawn (e ∷ es) = draws e + drawn es

record IsStill (n : ℕ) (s : Screen) : Type 0 where
  gone : s.active ≡ false
  same : drawn s.log ≡ n

next_frame-IsStill : (n : ℕ) (s : Screen) → IsStill n s → IsStill n (next_frame s)
unfolding next_frame
next_frame-IsStill n s v = ground arith

show_frame-IsStill : (n : ℕ) (t : Text) (s : Screen) → IsStill n s → IsStill n (show_frame t s)
unfolding show_frame
show_frame-IsStill n t s v = ground arith

report-IsStill : (n : ℕ) (e : Text) (s : Screen) → IsStill n s → IsStill n (report e s)
unfolding report
report-IsStill n e s v = ground arith

end_loop-IsStill : (n : ℕ) (e : Text) (s : Screen) → IsStill n s → IsStill n (end_loop e s)
unfolding end_loop
end_loop-IsStill n e s v =
    report-IsStill n e (record s { phase = ended }) (record { gone = v.gone; same = v.same })

on_move-IsStill :
    (n now : ℕ) (x y : Ratio) (s : Screen) → IsStill n s → IsStill n (on_move now x y s)
unfolding on_move
on_move-IsStill n now x y s v = ground arith

send-IsStill : (n : ℕ) (i : Input) (s : Screen) → IsStill n s → IsStill n (send i s)
unfolding send
send-IsStill n i s v = ground arith

advance-IsStill :
    (n : ℕ) (p : Phase) (e : Event) (s : Screen) → IsStill n s → IsStill n (advance p e s)
unfolding advance while_connecting while_asking while_pausing
advance-IsStill n connecting link_ready s v = next_frame-IsStill n s v
advance-IsStill n connecting (call_failed e) s v = end_loop-IsStill n e s v
advance-IsStill n asking (frame_came t) s v = show_frame-IsStill n t s v
advance-IsStill n asking (call_failed e) s v = end_loop-IsStill n e s v
advance-IsStill n pausing pause_over s v = next_frame-IsStill n s v
advance-IsStill n connecting e s v = v
advance-IsStill n asking e s v = v
advance-IsStill n pausing e s v = v
advance-IsStill n ended e s v = v

step-IsStill : (n : ℕ) (e : Event) (s : Screen) → IsStill n s → IsStill n (step e s)
unfolding step
step-IsStill n (pointer_moved now x y) s v = on_move-IsStill n now x y s v
step-IsStill n (pointer_pressed b down) s v = send-IsStill n _ s v
step-IsStill n (key_pressed code down) s v = send-IsStill n _ s v
step-IsStill n blurred s v = send-IsStill n _ s v
step-IsStill n (wheeled down) s v = send-IsStill n _ s v
step-IsStill n (input_failed e) s v = report-IsStill n e s v
step-IsStill n dialog_closed s v = record { gone = refl; same = v.same }
step-IsStill n e s v = advance-IsStill n s.phase e s v

run-IsStill : (n : ℕ) (es : List Event) (s : Screen) → IsStill n s → IsStill n (run es s)
unfolding run
run-IsStill n [] s v = v
run-IsStill n (e ∷ es) s v = run-IsStill n es (step e s) (step-IsStill n e s v)

-- From any state of the view, once the dialog is closed: whatever follows, also the answer to the
-- frame that is out, no frame is asked for or shown and no error is shown.
pub closed-still :
    (es : List Event) (s : Screen) → drawn (run es (step dialog_closed s)).log ≡ drawn s.log
unfolding step
closed-still es s =
    let v : IsStill (drawn s.log) (run es (step dialog_closed s)) =
      run-IsStill (drawn s.log) es (step dialog_closed s) (record { gone = refl; same = refl }) in
    v.same
