-- ===== src/Desktop/Jobs.antt =====
-- The job loop of desktop/remote-desktop.cjs: a job is asked for, done, and answered. The local
-- agent's HTTP interface, the screen capturer and the lock test of the system are the environment:
-- what they answer comes with the events.
pub mod Answers
pub mod Waiting
pub mod Locked
use net_conductor.Base.{
  ℕ, zero, suc, Bool, true, false, ◌||◌, not, Option, none, some, List, [], ◌∷◌, ◌==◌,
  if◌then◌else◌,
}
use net_conductor.Base.Text.{Text, codes, text_eq}
use net_conductor.Base.Decimal.{decimal}
use net_conductor.Remote.Base64.{Bytes, encode}
use net_conductor.Remote.Protocol.{Input}
use net_conductor.Desktop.Input.{
  Effect, spawned, wrote, ended, killed, resolved, rejected, tooltip, Desk, start, input, Event,
  step,
}

-- A source of the capturer, with the JPEG image that its thumbnail encodes to.
pub record Source : Type 0 where
  pub display_id : Text
  pub is_empty : Bool
  pub jpeg : Bytes
  pub width : ℕ
  pub height : ℕ

pub data Result : Type 0 where
  image : Text → ℕ → ℕ → Result
  ok : Result

pub record Reply : Type 0 where
  pub id : Text
  pub result : Option Result
  pub error : Text

pub data Op : Type 0 where
  frame : Op
  press : Input → Op
  unknown : Text → Op

-- Where the loop stands.
pub data Phase : Type 0 where
  asking : Phase
  capturing : Text → Phase
  awaiting : Text → ℕ → Phase
  replying : Phase
  resting : Phase
  finished : Phase

pub record Session : Type 0 where
  pub desk : Desk
  pub phase : Phase
  pub taken : ℕ
  pub replies : List Reply

abbrev pub session_start : Session
session_start = record { desk = start; phase = asking; taken = 0; replies = [] }

abbrev pub is_blank : Text → Bool
is_blank [] = true
is_blank (c ∷ t) = false

-- `while (!stopped)`
unfoldable pub next_turn : Session → Session
next_turn s = record s { phase = if s.desk.stopped then finished else asking }

-- `await api("reply", { id: job.id, result, error })`
unfoldable pub reply : Text → Option Result → Text → Session → Session
reply id result error s = record s {
  phase = replying;
  replies = (record { id = id; result = result; error = error }) ∷ s.replies;
}

abbrev pub locked_text : Text
locked_text = codes "Windows 已锁屏，请在本机解锁"

unfoldable pub perform : Text → Op → ℕ → Session → Session
unfolding reply
perform id frame now s = record s { phase = capturing id }
perform id (press i) now s = record s {
  desk = input i now s.desk;
  phase = awaiting id (suc s.desk.inputs);
}
perform id (unknown op) now s = reply id none (codes "Unknown desktop operation") s

-- The answer of `api("next", {})`; `idle_locked` is what `powerMonitor` reports.
unfoldable pub on_job : Text → Op → Bool → ℕ → Session → Session
unfolding next_turn perform reply
on_job id op idle_locked now s =
    if is_blank id
    then next_turn s
    else (if s.desk.locked || idle_locked
        then reply id none locked_text (record s { taken = suc s.taken })
        else perform id op now (record s { taken = suc s.taken }))

-- `sources.find((s) => s.display_id === String(primary.id))`
unfoldable pub find_source : Text → List Source → Option Source
find_source d [] = none
find_source d (s ∷ ss) = if text_eq s.display_id d then some s else find_source d ss

abbrev pub no_capture : Text
no_capture = codes "无法捕获当前 Windows 桌面"

abbrev pub viewed_tooltip : Text
viewed_tooltip = codes "Net Conductor · 管理员正在查看远程桌面"

unfoldable pub use_source : Text → Option Source → ℕ → Session → Session
unfolding reply
use_source id none now s = reply id none no_capture s
use_source id (some c) now s =
    if c.is_empty
    then reply id none no_capture s
    else reply id (some (image (encode c.jpeg) c.width c.height)) [] (record s {
      desk = record s.desk { last_frame = now; log = tooltip viewed_tooltip ∷ s.desk.log };
    })

-- What became of input `n`, once it is settled: `some none` when it was accepted.
unfoldable pub outcome : ℕ → List Effect → Option (Option Text)
outcome n [] = none
outcome n (spawned c ∷ es) = outcome n es
outcome n (wrote c i ∷ es) = outcome n es
outcome n (ended c ∷ es) = outcome n es
outcome n (killed c ∷ es) = outcome n es
outcome n (resolved m ∷ es) = if m == n then some none else outcome n es
outcome n (rejected m e ∷ es) = if m == n then some (some e) else outcome n es
outcome n (tooltip t ∷ es) = outcome n es

-- `await input(…)` goes on once the input is settled.
unfoldable pub go_on : Text → Option (Option Text) → Session → Session
unfolding reply
go_on id none s = s
go_on id (some none) s = reply id (some ok) [] s
go_on id (some (some e)) s = reply id none e s

-- The answers that the loop waits for, and the events of the input helper.
pub data Turn : Type 0 where
  job_came : Text → Op → Bool → ℕ → Turn
  api_failed : Turn
  captured : ℕ → List Source → ℕ → Turn
  capture_failed : Text → Turn
  input_settled : Turn
  reply_sent : Turn
  rested : Turn
  happened : Event → Turn

unfoldable pub while_asking : Turn → Session → Session
unfolding on_job
while_asking (job_came id op idle_locked now) s = on_job id op idle_locked now s
while_asking api_failed s = record s { phase = resting }
while_asking t s = s

unfoldable pub while_capturing : Text → Turn → Session → Session
unfolding use_source reply
while_capturing id (captured primary sources now) s =
    use_source id (find_source (decimal primary) sources) now s
while_capturing id (capture_failed e) s = reply id none e s
while_capturing id t s = s

unfoldable pub while_awaiting : Text → ℕ → Turn → Session → Session
unfolding go_on
while_awaiting id n input_settled s = go_on id (outcome n s.desk.log) s
while_awaiting id n t s = s

unfoldable pub while_replying : Turn → Session → Session
unfolding next_turn
while_replying reply_sent s = next_turn s
while_replying api_failed s = record s { phase = resting }
while_replying t s = s

unfoldable pub while_resting : Turn → Session → Session
unfolding next_turn
while_resting rested s = next_turn s
while_resting t s = s

unfoldable pub advance : Phase → Turn → Session → Session
unfolding while_asking while_capturing while_awaiting while_replying while_resting
advance asking t s = while_asking t s
advance (capturing id) t s = while_capturing id t s
advance (awaiting id n) t s = while_awaiting id n t s
advance replying t s = while_replying t s
advance resting t s = while_resting t s
advance finished t s = s

unfoldable pub turn : Turn → Session → Session
unfolding advance
turn (happened e) s = record s { desk = step e s.desk }
turn (job_came id op idle_locked now) s = advance s.phase (job_came id op idle_locked now) s
turn api_failed s = advance s.phase api_failed s
turn (captured p ss now) s = advance s.phase (captured p ss now) s
turn (capture_failed e) s = advance s.phase (capture_failed e) s
turn input_settled s = advance s.phase input_settled s
turn reply_sent s = advance s.phase reply_sent s
turn rested s = advance s.phase rested s

unfoldable pub turns : List Turn → Session → Session
turns [] s = s
turns (t ∷ ts) s = turns ts (turn t s)
