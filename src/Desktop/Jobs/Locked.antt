-- ===== src/Desktop/Jobs/Locked.antt =====
-- While the screen is locked, no helper lives and nothing is written to one.
use net_conductor.Base.{
  ℕ, ◌+◌, ◌-◌, ◌≡◌, ◌≢◌, refl, sym, ◌∙◌, Bool, true, false, ◌||◌, ◌&&◌, not, Option, none, some,
  List, [], ◌∷◌, ltb, arith, if_both,
}
use net_conductor.Base.Text.{Text}
use net_conductor.Base.Decimal.{decimal}
use net_conductor.Remote.Protocol.{Input, release}
use net_conductor.Desktop.Input.{
  Effect, spawned, wrote, ended, killed, resolved, rejected, tooltip, Desk, reject_at,
  reject_pending, resolve_at, resolve_pending, ensure_helper, send_input, input, Line, accepted,
  refused, garbage, is_helper, on_line, on_gone, is_armed, kill, end, on_timeout, on_lock,
  on_unlock, is_some, release_idle, reset_tooltip, on_tick, stop, Event, line, broke, exited,
  timed_out, screen_locked, screen_unlocked, ticked, quit, step,
}
use net_conductor.Desktop.Jobs.{
  Source, Op, frame, press, unknown, Phase, asking, capturing, awaiting, replying, resting,
  finished, Session, session_start, is_blank, next_turn, reply, perform, on_job, find_source,
  use_source, outcome, go_on, Turn, job_came, captured, input_settled, reply_sent, rested, happened,
  while_asking, while_capturing, while_awaiting, while_replying, while_resting, advance, turn,
  turns,
}

abbrev presses : Effect → ℕ
presses (spawned c) = 1
presses (wrote c i) = 1
presses (ended c) = 0
presses (killed c) = 0
presses (resolved n) = 0
presses (rejected n e) = 0
presses (tooltip t) = 0

-- How many helpers were started and lines written to them.
abbrev pub activity : List Effect → ℕ
activity [] = 0
activity (e ∷ es) = presses e + activity es

-- From `s` to `s'`: locked, nothing is started or written, and there is still no helper.
record Rests (s s' : Desk) : Type 0 where
  idle : s.locked ≡ true → s.helper ≡ none → activity s'.log ≡ activity s.log
  gone : s.helper ≡ none → s.locked ≡ true → s'.helper ≡ none
  same : s'.locked ≡ s.locked

Rests-refl : (s : Desk) → Rests s s
Rests-refl s = record { idle = λ a b. refl; gone = λ a b. a; same = refl }

reject_at-Rests : (o : Option ℕ) (e : Text) (s : Desk) → Rests s (reject_at o e s)
unfolding reject_at
reject_at-Rests o e s = ground arith

resolve_at-Rests : (o : Option ℕ) (s : Desk) → Rests s (resolve_at o s)
unfolding resolve_at
resolve_at-Rests o s = ground arith

on_line-Rests : (c : ℕ) (l : Line) (s : Desk) → Rests s (on_line c l s)
unfolding on_line resolve_pending reject_pending
on_line-Rests c accepted s =
    if_both (Rests s) (not (is_helper c s.helper)) s _ (λ q. Rests-refl s)
      (λ q. resolve_at-Rests s.pending s)
on_line-Rests c (refused e) s =
    if_both (Rests s) (not (is_helper c s.helper)) s _ (λ q. Rests-refl s)
      (λ q. reject_at-Rests s.pending e s)
on_line-Rests c garbage s =
    if_both (Rests s) (not (is_helper c s.helper)) s _ (λ q. Rests-refl s)
      (λ q. reject_at-Rests s.pending _ s)

on_gone-Rests : (c : ℕ) (e : Text) (s : Desk) → Rests s (on_gone c e s)
unfolding on_gone reject_pending
on_gone-Rests c e s =
    if_both (Rests s) (not (is_helper c s.helper)) s _ (λ q. Rests-refl s)
      (λ q.
        let w = reject_at-Rests s.pending e s in
        record { idle = w.idle; gone = λ a b. refl; same = w.same })

activity-kill : (h : Option ℕ) (log : List Effect) → activity (kill h log) ≡ activity log
activity-kill h log = ground arith

activity-end : (h : Option ℕ) (log : List Effect) → activity (end h log) ≡ activity log
activity-end h log = ground arith

on_timeout-Rests : (n : ℕ) (s : Desk) → Rests s (on_timeout n s)
unfolding on_timeout
on_timeout-Rests n s =
    if_both (Rests s) (is_armed n s.timers) _ s
      (λ q. record {
        idle = λ a b. omega (arith, activity-kill s.helper s.log);
        gone = λ a b. refl;
        same = refl;
      })
      (λ q. Rests-refl s)

no_helper : (b : Bool) (h : Option ℕ) → h ≡ none → (is_some h && b) ≢ true
no_helper b none e q = ground arith
no_helper b (some c) e q = ground arith

input-locked : (i : Input) (now : ℕ) (s : Desk) → (input i now s).locked ≡ s.locked
unfolding input ensure_helper send_input
input-locked i now s = ground arith

release_idle-Rests : (now : ℕ) (s : Desk) → Rests s (release_idle now s)
unfolding release_idle
release_idle-Rests now s =
    if_both (Rests s)
      (is_some s.helper && (not (is_some s.pending) && ltb 3000 (now - s.last_input))) _ s
      (λ q. record {
        idle = λ a b. elim (no_helper _ s.helper b q) [ ];
        gone = λ b a. elim (no_helper _ s.helper b q) [ ];
        same = input-locked release now s;
      })
      (λ q. Rests-refl s)

on_tick-Rests : (now : ℕ) (s : Desk) → Rests s (on_tick now s)
unfolding on_tick reset_tooltip
on_tick-Rests now s =
    if_both (Rests s) s.ticking _ s
      (λ q.
        let w = release_idle-Rests now s in
        if_both (Rests s) (ltb 4000 (now - (release_idle now s).last_frame)) _ _
          (λ z. record { idle = λ a b. omega (arith, w.idle a b); gone = w.gone; same = w.same })
          (λ z. w))
      (λ q. Rests-refl s)

-- A session in which a locked desk has no helper, and no activity in a turn from it.
record IsQuiet (s : Desk) (s' : Desk) : Type 0 where
  idle : s.locked ≡ true → s.helper ≡ none → activity s'.log ≡ activity s.log
  kept : (s.locked ≡ true → s.helper ≡ none) → s'.locked ≡ true → s'.helper ≡ none

Rests-IsQuiet : {s s' : Desk} → Rests s s' → IsQuiet s s'
Rests-IsQuiet r = record { idle = r.idle; kept = λ f b. let a = sym r.same ∙ b in r.gone (f a) a }

step-IsQuiet : (e : Event) (s : Desk) → IsQuiet s (step e s)
unfolding step on_lock on_unlock stop
step-IsQuiet (line c l) s = Rests-IsQuiet (on_line-Rests c l s)
step-IsQuiet (broke c) s = Rests-IsQuiet (on_gone-Rests c _ s)
step-IsQuiet (exited c) s = Rests-IsQuiet (on_gone-Rests c _ s)
step-IsQuiet (timed_out n) s = Rests-IsQuiet (on_timeout-Rests n s)
step-IsQuiet screen_locked s = record {
  idle = λ a b. activity-end s.helper s.log;
  kept = λ f b. refl;
}
step-IsQuiet screen_unlocked s = record { idle = λ a b. refl; kept = λ f b. cc }
step-IsQuiet (ticked now) s = Rests-IsQuiet (on_tick-Rests now s)
step-IsQuiet quit s = record { idle = λ a b. activity-end s.helper s.log; kept = λ f b. f b }

perform-IsQuiet :
    (id : Text) (op : Op) (now : ℕ) (s : Session)
    → s.desk.locked ≡ false
    → IsQuiet s.desk (perform id op now s).desk
unfolding perform reply
perform-IsQuiet id frame now s u = Rests-IsQuiet (Rests-refl s.desk)
perform-IsQuiet id (press i) now s u = record {
  idle = λ a b. cc;
  kept = λ f b. elim (false_true (sym u ∙ sym (input-locked i now s.desk) ∙ b)) [ ];
}
  where
    false_true : false ≢ true
    false_true q = cc
perform-IsQuiet id (unknown op) now s u = Rests-IsQuiet (Rests-refl s.desk)

on_job-IsQuiet :
    (id : Text) (op : Op) (b : Bool) (now : ℕ) (s : Session)
    → IsQuiet s.desk (on_job id op b now s).desk
unfolding on_job next_turn reply
on_job-IsQuiet id op b now s =
    let quiet = Rests-IsQuiet (Rests-refl s.desk) in
    if_both (λ (r : Session). IsQuiet s.desk r.desk) (is_blank id) (next_turn s) _ (λ w. quiet)
      (λ w.
        if_both (λ (r : Session). IsQuiet s.desk r.desk) (s.desk.locked || b) _ _ (λ z. quiet)
          (λ z. perform-IsQuiet id op now _ (unlocked s.desk.locked b z)))
  where
    unlocked : (l b : Bool) → (l || b) ≡ false → l ≡ false
    unlocked l b z = ground arith

use_source-IsQuiet :
    (id : Text) (o : Option Source) (now : ℕ) (s : Session)
    → IsQuiet s.desk (use_source id o now s).desk
unfolding use_source reply
use_source-IsQuiet id none now s = Rests-IsQuiet (Rests-refl s.desk)
use_source-IsQuiet id (some c) now s =
    if_both (λ (r : Session). IsQuiet s.desk r.desk) c.is_empty _ _
      (λ w. Rests-IsQuiet (Rests-refl s.desk))
      (λ w. record { idle = λ a b. omega arith; kept = λ f b. f b })

go_on-IsQuiet :
    (id : Text) (o : Option (Option Text)) (s : Session) → IsQuiet s.desk (go_on id o s).desk
unfolding go_on reply
go_on-IsQuiet id none s = Rests-IsQuiet (Rests-refl s.desk)
go_on-IsQuiet id (some none) s = Rests-IsQuiet (Rests-refl s.desk)
go_on-IsQuiet id (some (some e)) s = Rests-IsQuiet (Rests-refl s.desk)

advance-IsQuiet : (p : Phase) (t : Turn) (s : Session) → IsQuiet s.desk (advance p t s).desk
unfolding advance while_asking while_capturing while_awaiting while_replying while_resting next_turn
    reply
advance-IsQuiet asking (job_came id op b now) s = on_job-IsQuiet id op b now s
advance-IsQuiet (capturing id) (captured p ss now) s =
    use_source-IsQuiet id (find_source (decimal p) ss) now s
advance-IsQuiet (awaiting id n) input_settled s = go_on-IsQuiet id (outcome n s.desk.log) s
advance-IsQuiet replying reply_sent s = Rests-IsQuiet (Rests-refl s.desk)
advance-IsQuiet resting rested s = Rests-IsQuiet (Rests-refl s.desk)
advance-IsQuiet (capturing id) t s = Rests-IsQuiet (Rests-refl s.desk)
advance-IsQuiet (awaiting id n) t s = Rests-IsQuiet (Rests-refl s.desk)
advance-IsQuiet asking t s = Rests-IsQuiet (Rests-refl s.desk)
advance-IsQuiet replying t s = Rests-IsQuiet (Rests-refl s.desk)
advance-IsQuiet resting t s = Rests-IsQuiet (Rests-refl s.desk)
advance-IsQuiet finished t s = Rests-IsQuiet (Rests-refl s.desk)

turn-IsQuiet : (t : Turn) (s : Session) → IsQuiet s.desk (turn t s).desk
unfolding turn
turn-IsQuiet (happened e) s = step-IsQuiet e s.desk
turn-IsQuiet t s = advance-IsQuiet s.phase t s

turns-quiet :
    (ts : List Turn) (s : Session)
    → (s.desk.locked ≡ true → s.desk.helper ≡ none)
    → (turns ts s).desk.locked ≡ true
    → (turns ts s).desk.helper ≡ none
unfolding turns
turns-quiet [] s f = f
turns-quiet (t ∷ ts) s f = turns-quiet ts (turn t s) ((turn-IsQuiet t s).kept f)

-- After any sequence of turns, if the screen is locked, then there is no helper, and whatever
-- happens next starts none and writes no line to one.
pub locked-quiet :
    (ts : List Turn) (t : Turn)
    → (turns ts session_start).desk.locked ≡ true
    → ((turns ts session_start).desk.helper ≡ none)
      × (activity (turn t (turns ts session_start)).desk.log
          ≡ activity (turns ts session_start).desk.log)
locked-quiet ts t l =
    let s = turns ts session_start in
    let gone = turns-quiet ts session_start (λ q. refl) l in (gone, (turn-IsQuiet t s).idle l gone)
