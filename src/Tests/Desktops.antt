-- ===== src/Tests/Desktops.antt =====
-- The job loop of desktop/remote-desktop.cjs at concrete inputs.
use net_conductor.Base.{◌+◌, ◌≡◌, refl, true, false, none, List, [], ◌∷◌, length, All}
use net_conductor.Base.Text.{codes}
use net_conductor.Remote.Protocol.{key}
use net_conductor.Desktop.Input.{
  input, ensure_helper, send_input, step, line, accepted, screen_locked, on_lock, timed_out,
}
use net_conductor.Desktop.Input.Settled.{settled, waits, issued, limit_of}
use net_conductor.Desktop.Input.Mailbox.{Call, give, happen}
use net_conductor.Desktop.Jobs.{
  Reply, press, session_start, on_job, perform, Turn, job_came, happened, while_asking, advance,
  turn, turns,
}
use net_conductor.Desktop.Jobs.Answers.{open_jobs, IsClear, input_settled_once, jobs-answered}
use net_conductor.Desktop.Jobs.Locked.{activity, locked-quiet}

-- A key is pressed.
abbrev press_key : Turn
press_key = job_came (codes "j1") (press (key (codes "a") true)) false 5000

-- The helper takes the key.
abbrev pressed : List Turn
pressed = press_key ∷ happened (line 1 accepted) ∷ []

-- The screen is locked while the helper holds the key.
abbrev locked_late : List Turn
locked_late = press_key ∷ happened screen_locked ∷ []

input_settled_once_example :
    let d = (turns pressed session_start).desk in
    (settled 1 d.log + waits 1 d.pending ≡ issued 1 d.inputs) × (d.timers ≡ limit_of d.pending)
input_settled_once_example = input_settled_once pressed 1

jobs-answered_example :
    let s = turns pressed session_start in
    (length s.replies + open_jobs s.phase ≡ s.taken)
    × All (λ (r : Reply). IsClear r.result r.error) s.replies
jobs-answered_example = jobs-answered pressed

late-locked : (turns locked_late session_start).desk.locked ≡ true
unfolding turns turn advance while_asking on_job perform input ensure_helper send_input step on_lock
late-locked = refl

locked-quiet_example :
    ((turns locked_late session_start).desk.helper ≡ none)
    × (activity (turn press_key (turns locked_late session_start)).desk.log
        ≡ activity (turns locked_late session_start).desk.log)
locked-quiet_example = locked-quiet locked_late press_key late-locked

-- An input, one that finds the helper busy, a line of the helper, and the end of a third input's
-- time.
abbrev given : List Call
given =
    give (key (codes "a") true) 5000
    ∷ give (key (codes "a") false) 5010
    ∷ happen (line 1 accepted)
    ∷ give (key (codes "b") true) 5020
    ∷ happen (timed_out 3)
    ∷ []
