-- ===== src/Desktop/Input.antt =====
-- The input helper of desktop/remote-desktop.cjs: a child process that takes one line at a time.
-- Processes and inputs are numbered in the order in which they start; times are milliseconds.
pub mod Settled
pub mod Counting
pub mod Mailbox
use net_conductor.Base.{
  ℕ, zero, suc, ◌+◌, ◌-◌, Bool, true, false, ◌||◌, ◌&&◌, not, Option, none, some, List, [], ◌∷◌,
  ltb, ◌==◌, if◌then◌else◌,
}
use net_conductor.Base.Text.{Text, codes}
use net_conductor.Remote.Protocol.{Input, release}

pub data Effect : Type 0 where
  spawned : ℕ → Effect
  wrote : ℕ → Input → Effect
  ended : ℕ → Effect
  killed : ℕ → Effect
  resolved : ℕ → Effect
  rejected : ℕ → Text → Effect
  tooltip : Text → Effect

-- The variables of `start`. `pending` is the number of the input that waits for its reply;
-- `timers` are the inputs whose time limit is armed; `children` and `inputs` count what was
-- started. `log` has the newest effect at its head.
pub record Desk : Type 0 where
  pub stopped : Bool
  pub locked : Bool
  pub helper : Option ℕ
  pub pending : Option ℕ
  pub last_input : ℕ
  pub last_frame : ℕ
  pub timers : List ℕ
  pub children : ℕ
  pub inputs : ℕ
  pub ticking : Bool
  pub log : List Effect

abbrev pub start : Desk
start = record {
  stopped = false;
  locked = false;
  helper = none;
  pending = none;
  last_input = 0;
  last_frame = 0;
  timers = [];
  children = 0;
  inputs = 0;
  ticking = true;
  log = [];
}

abbrev pub idle_tooltip : Text
idle_tooltip = codes "Net Conductor · 后台组网持续运行"

-- `clearTimeout`
unfoldable pub disarm : ℕ → List ℕ → List ℕ
disarm h [] = []
disarm h (t ∷ ts) = if t == h then ts else t ∷ disarm h ts

-- `pending?.reject(Error(e)); pending = null`, where `reject` clears the time limit
unfoldable pub reject_at : Option ℕ → Text → Desk → Desk
reject_at none e s = s
reject_at (some p) e s = record s {
  pending = none;
  timers = disarm p s.timers;
  log = rejected p e ∷ s.log;
}

unfoldable pub reject_pending : Text → Desk → Desk
unfolding reject_at
reject_pending e s = reject_at s.pending e s

unfoldable pub resolve_at : Option ℕ → Desk → Desk
resolve_at none s = s
resolve_at (some p) s = record s {
  pending = none;
  timers = disarm p s.timers;
  log = resolved p ∷ s.log;
}

unfoldable pub resolve_pending : Desk → Desk
unfolding resolve_at
resolve_pending s = resolve_at s.pending s

-- `if (!helper) { helper = spawn(…) … }`
unfoldable pub ensure_helper : Desk → Desk
ensure_helper s = elim s.helper [
  | some c ↦ s
  | none ↦ record s {
    helper = some (suc s.children);
    children = suc s.children;
    log = spawned (suc s.children) ∷ s.log;
  }
]

abbrev pub child_of : Option ℕ → ℕ
child_of none = 0
child_of (some c) = c

-- What `input` does once there is a helper; `n` is the number of this input.
unfoldable pub send_input : Option ℕ → ℕ → Input → ℕ → Desk → Desk
send_input (some p) n i now s = record s {
  inputs = n;
  log = rejected n (codes "Input busy") ∷ s.log;
}
send_input none n i now s = record s {
  inputs = n;
  timers = n ∷ s.timers;
  pending = some n;
  last_input = now;
  log = wrote (child_of s.helper) i ∷ s.log;
}

unfoldable pub input : Input → ℕ → Desk → Desk
unfolding ensure_helper send_input
input i now s = send_input s.pending (suc s.inputs) i now (ensure_helper s)

-- A line of a helper, after `JSON.parse`.
pub data Line : Type 0 where
  accepted : Line
  refused : Text → Line
  garbage : Line

abbrev pub is_helper : ℕ → Option ℕ → Bool
is_helper c none = false
is_helper c (some d) = d == c

unfoldable pub on_line : ℕ → Line → Desk → Desk
on_line c l s = if not (is_helper c s.helper) then s else elim l [
  | accepted ↦ resolve_pending s
  | refused e ↦ reject_pending e s
  | garbage ↦ reject_pending (codes "Invalid input reply") s
]

-- `helper.on("error", …)` and `helper.on("exit", …)`
unfoldable pub on_gone : ℕ → Text → Desk → Desk
on_gone c e s =
    if not (is_helper c s.helper) then s else record (reject_pending e s) { helper = none }

unfoldable pub is_armed : ℕ → List ℕ → Bool
is_armed h [] = false
is_armed h (t ∷ ts) = t == h || is_armed h ts

abbrev pub kill : Option ℕ → List Effect → List Effect
kill none log = log
kill (some c) log = killed c ∷ log

abbrev pub end : Option ℕ → List Effect → List Effect
end none log = log
end (some c) log = ended c ∷ log

-- The time limit of input `n`: `pending = null; helper?.kill(); helper = null; reject(…)`.
unfoldable pub on_timeout : ℕ → Desk → Desk
unfolding is_armed
on_timeout n s =
    if is_armed n s.timers
    then record s {
      timers = disarm n s.timers;
      pending = none;
      helper = none;
      log = rejected n (codes "Input timeout") ∷ kill s.helper s.log;
    }
    else s

unfoldable pub on_lock : Desk → Desk
on_lock s = record s { locked = true; helper = none; log = end s.helper s.log }

unfoldable pub on_unlock : Desk → Desk
on_unlock s = record s { locked = false }

abbrev pub is_some : Option ℕ → Bool
is_some none = false
is_some (some n) = true

unfoldable pub release_idle : ℕ → Desk → Desk
release_idle now s =
    if is_some s.helper && (not (is_some s.pending) && ltb 3000 (now - s.last_input))
    then input release now s
    else s

unfoldable pub reset_tooltip : ℕ → Desk → Desk
reset_tooltip now s =
    if ltb 4000 (now - s.last_frame) then record s { log = tooltip idle_tooltip ∷ s.log } else s

-- The interval of two seconds. A clock that ran back makes the differences 0, which are below the
-- limits as the negative numbers are.
unfoldable pub on_tick : ℕ → Desk → Desk
on_tick now s = if s.ticking then reset_tooltip now (release_idle now s) else s

-- The function that `start` returns.
unfoldable pub stop : Desk → Desk
stop s = record s { stopped = true; ticking = false; log = end s.helper s.log }

pub data Event : Type 0 where
  line : ℕ → Line → Event
  broke exited : ℕ → Event
  timed_out : ℕ → Event
  screen_locked screen_unlocked : Event
  ticked : ℕ → Event
  quit : Event

unfoldable pub step : Event → Desk → Desk
step (line c l) s = on_line c l s
step (broke c) s = on_gone c (codes "Input helper unavailable") s
step (exited c) s = on_gone c (codes "Input helper stopped") s
step (timed_out n) s = on_timeout n s
step screen_locked s = on_lock s
step screen_unlocked s = on_unlock s
step (ticked now) s = on_tick now s
step quit s = stop s
