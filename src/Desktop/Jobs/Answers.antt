-- ===== src/Desktop/Jobs/Answers.antt =====
-- Every job that the loop takes is answered once, and the inputs of the jobs are settled once.
use net_conductor.Base.{
  ℕ, suc, ◌+◌, ◌≡◌, refl, ap, ◌∙◌, ◌≤◌, Bool, ◌||◌, Option, none, some, List, [], ◌∷◌, arith,
  if_both, length, All,
}
use net_conductor.Base.Text.{Text}
use net_conductor.Base.Decimal.{decimal}
use net_conductor.Desktop.Input.{tooltip}
use net_conductor.Desktop.Input.Counting.{input-grows, step-grows}
use net_conductor.Desktop.Input.Settled.{
  IsSound, settled, waits, issued, limit_of, start-IsSound, input-IsSound, step-IsSound,
}
use net_conductor.Desktop.Jobs.{
  Source, Result, Reply, Op, frame, press, unknown, Phase, asking, capturing, awaiting, replying,
  resting, finished, Session, session_start, is_blank, next_turn, reply, perform, on_job,
  find_source, use_source, viewed_tooltip, outcome, go_on, Turn, job_came, api_failed, captured,
  capture_failed, input_settled, reply_sent, rested, happened, while_asking, while_capturing,
  while_awaiting, while_replying, while_resting, advance, turn, turns,
}

-- The jobs that wait for their answer.
abbrev pub open_jobs : Phase → ℕ
open_jobs asking = 0
open_jobs (capturing id) = 1
open_jobs (awaiting id n) = 1
open_jobs replying = 0
open_jobs resting = 0
open_jobs finished = 0

-- The input that a phase waits for has been given out.
abbrev pub IsGiven : Phase → ℕ → Type 0
IsGiven (awaiting id n) k = issued n k ≡ 1
IsGiven asking k = Unit
IsGiven (capturing id) k = Unit
IsGiven replying k = Unit
IsGiven resting k = Unit
IsGiven finished k = Unit

-- An answer carries no error beside its result.
abbrev pub IsClear : Option Result → Text → Type 0
IsClear none e = Unit
IsClear (some r) e = e ≡ []

pub record IsAccounted (s : Session) : Type 0 where
  pub sound : IsSound s.desk
  pub answered : length s.replies + open_jobs s.phase ≡ s.taken
  pub given : IsGiven s.phase s.desk.inputs
  pub clear : All (λ (r : Reply). IsClear r.result r.error) s.replies

next_turn-IsAccounted :
    (s : Session) → open_jobs s.phase ≡ 0 → IsAccounted s → IsAccounted (next_turn s)
unfolding next_turn
next_turn-IsAccounted s q v =
    if_both (λ p. IsAccounted (record s { phase = p })) s.desk.stopped finished asking
      (λ w. record {
        sound = v.sound;
        answered = omega (arith, q, v.answered);
        given = tt;
        clear = v.clear;
      })
      (λ w. record {
        sound = v.sound;
        answered = omega (arith, q, v.answered);
        given = tt;
        clear = v.clear;
      })

-- An answer closes the open job.
reply-IsAccounted :
    (id : Text) (r : Option Result) (e : Text) (s : Session)
    → IsSound s.desk
    → suc (length s.replies) ≡ s.taken
    → IsClear r e
    → All (λ (r : Reply). IsClear r.result r.error) s.replies
    → IsAccounted (reply id r e s)
unfolding reply
reply-IsAccounted id r e s v n c h = record {
  sound = v;
  answered = omega (arith, n);
  given = tt;
  clear = (c, h);
}

input-waits : (k : ℕ) → issued (suc k) (suc k) ≡ 1
input-waits k = ground arith

perform-IsAccounted :
    (id : Text) (op : Op) (now : ℕ) (s : Session)
    → suc (length s.replies) ≡ s.taken
    → IsSound s.desk
    → All (λ (r : Reply). IsClear r.result r.error) s.replies
    → IsAccounted (perform id op now s)
unfolding perform
perform-IsAccounted id frame now s n v h = record {
  sound = v;
  answered = omega (arith, n);
  given = tt;
  clear = h;
}
perform-IsAccounted id (press i) now s n v h = record {
  sound = input-IsSound i now s.desk v;
  answered = omega (arith, n);
  given = ap (issued (suc s.desk.inputs)) (input-grows i now s.desk) ∙ input-waits s.desk.inputs;
  clear = h;
}
perform-IsAccounted id (unknown op) now s n v h = reply-IsAccounted id none _ s v n tt h

on_job-IsAccounted :
    (id : Text) (op : Op) (b : Bool) (now : ℕ) (s : Session)
    → open_jobs s.phase ≡ 0
    → IsAccounted s
    → IsAccounted (on_job id op b now s)
unfolding on_job
on_job-IsAccounted id op b now s q v =
    if_both IsAccounted (is_blank id) (next_turn s) _ (λ w. next_turn-IsAccounted s q v)
      (λ w.
        if_both IsAccounted (s.desk.locked || b) _ _
          (λ z.
            reply-IsAccounted id none _ (record s { taken = suc s.taken }) v.sound
              (omega (arith, q, v.answered)) tt v.clear)
          (λ z.
            perform-IsAccounted id op now (record s { taken = suc s.taken })
              (omega (arith, q, v.answered)) v.sound v.clear))

use_source-IsAccounted :
    (id : Text) (o : Option Source) (now : ℕ) (s : Session)
    → open_jobs s.phase ≡ 1
    → IsAccounted s
    → IsAccounted (use_source id o now s)
unfolding use_source
use_source-IsAccounted id none now s q v =
    reply-IsAccounted id none _ s v.sound (omega (arith, q, v.answered)) tt v.clear
use_source-IsAccounted id (some c) now s q v =
    if_both IsAccounted c.is_empty _ _
      (λ w. reply-IsAccounted id none _ s v.sound (omega (arith, q, v.answered)) tt v.clear)
      (λ w.
        reply-IsAccounted id (some _) []
          (record s {
            desk = record s.desk { last_frame = now; log = tooltip viewed_tooltip ∷ s.desk.log };
          })
          (record { counted = λ k. omega (arith, v.sound.counted k); armed = v.sound.armed })
          (omega (arith, q, v.answered)) refl v.clear)

go_on-IsAccounted :
    (id : Text) (o : Option (Option Text)) (s : Session)
    → open_jobs s.phase ≡ 1
    → IsAccounted s
    → IsAccounted (go_on id o s)
unfolding go_on
go_on-IsAccounted id none s q v = v
go_on-IsAccounted id (some none) s q v =
    reply-IsAccounted id (some _) [] s v.sound (omega (arith, q, v.answered)) refl v.clear
go_on-IsAccounted id (some (some e)) s q v =
    reply-IsAccounted id none e s v.sound (omega (arith, q, v.answered)) tt v.clear

rest-IsAccounted :
    (s : Session)
    → open_jobs s.phase ≡ 0
    → IsAccounted s
    → IsAccounted (record s { phase = resting })
rest-IsAccounted s q v = record {
  sound = v.sound;
  answered = omega (arith, q, v.answered);
  given = tt;
  clear = v.clear;
}

advance-IsAccounted :
    (p : Phase) (t : Turn) (s : Session) → s.phase ≡ p → IsAccounted s → IsAccounted (advance p t s)
unfolding advance while_asking while_capturing while_awaiting while_replying while_resting
advance-IsAccounted asking (job_came id op b now) s q v =
    on_job-IsAccounted id op b now s (ap open_jobs q) v
advance-IsAccounted asking api_failed s q v = rest-IsAccounted s (ap open_jobs q) v
advance-IsAccounted (capturing id) (captured p ss now) s q v =
    use_source-IsAccounted id (find_source (decimal p) ss) now s (ap open_jobs q) v
advance-IsAccounted (capturing id) (capture_failed e) s q v =
    reply-IsAccounted id none e s v.sound (omega (arith, ap open_jobs q, v.answered)) tt v.clear
advance-IsAccounted (awaiting id n) input_settled s q v =
    go_on-IsAccounted id (outcome n s.desk.log) s (ap open_jobs q) v
advance-IsAccounted replying reply_sent s q v = next_turn-IsAccounted s (ap open_jobs q) v
advance-IsAccounted replying api_failed s q v = rest-IsAccounted s (ap open_jobs q) v
advance-IsAccounted resting rested s q v = next_turn-IsAccounted s (ap open_jobs q) v
advance-IsAccounted asking t s q v = v
advance-IsAccounted (capturing id) t s q v = v
advance-IsAccounted (awaiting id n) t s q v = v
advance-IsAccounted replying t s q v = v
advance-IsAccounted resting t s q v = v
advance-IsAccounted finished t s q v = v

issued-grows : (k : ℕ) {m n : ℕ} → m ≤ n → issued k m ≡ 1 → issued k n ≡ 1
issued-grows k h q = ground arith

IsGiven-grows : (p : Phase) {m n : ℕ} → m ≤ n → IsGiven p m → IsGiven p n
IsGiven-grows (awaiting id k) h g = issued-grows k h g
IsGiven-grows p h g = tt

turn-IsAccounted : (t : Turn) (s : Session) → IsAccounted s → IsAccounted (turn t s)
unfolding turn
turn-IsAccounted (happened e) s v = record {
  sound = step-IsSound e s.desk v.sound;
  answered = v.answered;
  given = IsGiven-grows s.phase (step-grows e s.desk) v.given;
  clear = v.clear;
}
turn-IsAccounted t s v = advance-IsAccounted s.phase t s refl v

pub turns-IsAccounted : (ts : List Turn) (s : Session) → IsAccounted s → IsAccounted (turns ts s)
unfolding turns
turns-IsAccounted [] s v = v
turns-IsAccounted (t ∷ ts) s v = turns-IsAccounted ts (turn t s) (turn-IsAccounted t s v)

pub session_start-IsAccounted : IsAccounted session_start
session_start-IsAccounted = record {
  sound = start-IsSound;
  answered = refl;
  given = tt;
  clear = tt;
}

-- After any sequence of jobs, captures, replies and failures of helpers, time limits, locks and
-- ticks: the promise of input k is settled once or waits for its reply, never both, if k was
-- given out (1 ≤ k ≤ inputs), and neither otherwise; and the armed time limits are that of the
-- waiting input, if there is one, and no other.
pub input_settled_once :
    (ts : List Turn) (k : ℕ)
    → let d = (turns ts session_start).desk in
      (settled k d.log + waits k d.pending ≡ issued k d.inputs) × (d.timers ≡ limit_of d.pending)
input_settled_once ts k =
    let v = turns-IsAccounted ts session_start session_start-IsAccounted in
    (v.sound.counted k, v.sound.armed)

-- After any sequence of jobs, captures, replies and failures of helpers, time limits, locks and
-- ticks, the answers sent and the job in progress, if there is one, are as many as the jobs taken;
-- and an answer that carries a result has an empty error.
pub jobs-answered :
    (ts : List Turn)
    → let s = turns ts session_start in
      (length s.replies + open_jobs s.phase ≡ s.taken)
      × All (λ (r : Reply). IsClear r.result r.error) s.replies
jobs-answered ts =
    let v = turns-IsAccounted ts session_start session_start-IsAccounted in (v.answered, v.clear)
