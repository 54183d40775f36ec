-- ===== src/Desktop/Input/Counting.antt =====
-- No event of desktop/remote-desktop.cjs lowers the number of inputs given out.
use net_conductor.Base.{ℕ, suc, ◌≤◌, ◌≡◌, Option, arith}
use net_conductor.Base.Text.{Text}
use net_conductor.Remote.Protocol.{Input, release}
use net_conductor.Desktop.Input.{
  Desk, reject_at, reject_pending, resolve_at, resolve_pending, ensure_helper, send_input, input,
  Line, on_line, on_gone, on_timeout, on_lock, on_unlock, release_idle, reset_tooltip, on_tick,
  stop, Event, line, broke, exited, timed_out, screen_locked, screen_unlocked, ticked, quit, step,
}

reject_at-grows : (o : Option ℕ) (e : Text) (s : Desk) → s.inputs ≤ (reject_at o e s).inputs
unfolding reject_at
reject_at-grows o e s = ground arith

resolve_at-grows : (o : Option ℕ) (s : Desk) → s.inputs ≤ (resolve_at o s).inputs
unfolding resolve_at
resolve_at-grows o s = ground arith

pub input-grows : (i : Input) (now : ℕ) (s : Desk) → (input i now s).inputs ≡ suc s.inputs
unfolding input ensure_helper send_input
input-grows i now s = ground arith

on_line-grows : (c : ℕ) (l : Line) (s : Desk) → s.inputs ≤ (on_line c l s).inputs
unfolding on_line reject_pending resolve_pending
on_line-grows c l s = ground (arith, resolve_at-grows s.pending s, reject_at-grows s.pending)

on_gone-grows : (c : ℕ) (e : Text) (s : Desk) → s.inputs ≤ (on_gone c e s).inputs
unfolding on_gone reject_pending
on_gone-grows c e s = ground (arith, reject_at-grows s.pending e s)

on_timeout-grows : (n : ℕ) (s : Desk) → s.inputs ≤ (on_timeout n s).inputs
unfolding on_timeout
on_timeout-grows n s = ground arith

on_tick-grows : (now : ℕ) (s : Desk) → s.inputs ≤ (on_tick now s).inputs
unfolding on_tick reset_tooltip release_idle
on_tick-grows now s = ground (arith, input-grows release now s)

pub step-grows : (e : Event) (s : Desk) → s.inputs ≤ (step e s).inputs
unfolding step on_lock on_unlock stop
step-grows (line c l) s = on_line-grows c l s
step-grows (broke c) s = on_gone-grows c _ s
step-grows (exited c) s = on_gone-grows c _ s
step-grows (timed_out n) s = on_timeout-grows n s
step-grows screen_locked s = omega arith
step-grows screen_unlocked s = omega arith
step-grows (ticked now) s = on_tick-grows now s
step-grows quit s = omega arith
