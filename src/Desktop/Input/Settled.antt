-- ===== src/Desktop/Input/Settled.antt =====
-- The account of the inputs: which are settled, which waits, and whose time limit is armed.
use mathlib.Core.Path.{subst}
use net_conductor.Base.{
  ℕ, suc, ◌+◌, ◌-◌, ◌≡◌, refl, sym, ap, ◌∙◌, true, ◌&&◌, not, Option, none, some, List, [], ◌∷◌,
  ltb, leb, ◌==◌, if◌then◌else◌, arith, if_both,
}
use net_conductor.Base.Text.{Text, codes}
use net_conductor.Remote.Protocol.{Input, release}
use net_conductor.Desktop.Input.{
  Effect, spawned, wrote, ended, killed, resolved, rejected, tooltip, Desk, start, disarm,
  reject_at, resolve_at, reject_pending, resolve_pending, ensure_helper, send_input, input, Line,
  accepted, refused, garbage, is_helper, on_line, on_gone, is_armed, kill, end, on_timeout, on_lock,
  on_unlock, release_idle, reset_tooltip, on_tick, stop, Event, line, broke, exited, timed_out,
  screen_locked, screen_unlocked, ticked, quit, step,
}

abbrev settles : ℕ → Effect → ℕ
settles k (spawned c) = 0
settles k (wrote c i) = 0
settles k (ended c) = 0
settles k (killed c) = 0
settles k (resolved n) = if n == k then 1 else 0
settles k (rejected n e) = if n == k then 1 else 0
settles k (tooltip t) = 0

-- How often the promise of input `k` was settled.
abbrev pub settled : ℕ → List Effect → ℕ
settled k [] = 0
settled k (e ∷ es) = settles k e + settled k es

abbrev pub waits : ℕ → Option ℕ → ℕ
waits k none = 0
waits k (some p) = if p == k then 1 else 0

abbrev pub issued : ℕ → ℕ → ℕ
issued k n = if ltb 0 k && leb k n then 1 else 0

abbrev pub limit_of : Option ℕ → List ℕ
limit_of none = []
limit_of (some p) = p ∷ []

pub record IsSound (s : Desk) : Type 0 where
  pub counted : (k : ℕ) → settled k s.log + waits k s.pending ≡ issued k s.inputs
  pub armed : s.timers ≡ limit_of s.pending

pub start-IsSound : IsSound start
start-IsSound = record { counted = λ k. ground arith; armed = refl }

-- What leaves the account alone.
record Keeps (s s' : Desk) : Type 0 where
  inputs_same : s'.inputs ≡ s.inputs
  pending_same : s'.pending ≡ s.pending
  timers_same : s'.timers ≡ s.timers
  settled_same : (k : ℕ) → settled k s'.log ≡ settled k s.log

Keeps-IsSound : {s s' : Desk} → Keeps s s' → IsSound s → IsSound s'
Keeps-IsSound h v = record {
  counted = λ k. rw (h.settled_same k, h.pending_same, h.inputs_same) (v.counted k);
  armed = h.timers_same ∙ v.armed ∙ ap limit_of (sym h.pending_same);
}

disarm-limit : (p : ℕ) → disarm p (limit_of (some p)) ≡ []
unfolding disarm
disarm-limit p = ground arith

-- The waiting input settled by an effect.
settle-IsSound :
    (s : Desk) (p : ℕ) (e : Effect)
    → s.pending ≡ some p
    → ((k : ℕ) → settles k e ≡ waits k (some p))
    → IsSound s
    → IsSound (record s { pending = none; timers = disarm p s.timers; log = e ∷ s.log })
settle-IsSound s p e there one v = record {
  counted = λ k. omega (arith, one k, v.counted k, ap (waits k) there);
  armed = ap (disarm p) (v.armed ∙ ap limit_of there) ∙ disarm-limit p;
}

reject_at-IsSound :
    (o : Option ℕ) (e : Text) (s : Desk) → s.pending ≡ o → IsSound s → IsSound (reject_at o e s)
unfolding reject_at
reject_at-IsSound none e s there v = v
reject_at-IsSound (some p) e s there v = settle-IsSound s p (rejected p e) there (λ k. refl) v

reject_pending-IsSound : (e : Text) (s : Desk) → IsSound s → IsSound (reject_pending e s)
unfolding reject_pending
reject_pending-IsSound e s v = reject_at-IsSound s.pending e s refl v

resolve_at-IsSound :
    (o : Option ℕ) (s : Desk) → s.pending ≡ o → IsSound s → IsSound (resolve_at o s)
unfolding resolve_at
resolve_at-IsSound none s there v = v
resolve_at-IsSound (some p) s there v = settle-IsSound s p (resolved p) there (λ k. refl) v

resolve_pending-IsSound : (s : Desk) → IsSound s → IsSound (resolve_pending s)
unfolding resolve_pending
resolve_pending-IsSound s v = resolve_at-IsSound s.pending s refl v

ensure_helper-Keeps : (s : Desk) → Keeps s (ensure_helper s)
unfolding ensure_helper
ensure_helper-Keeps s = ground arith

issued-suc : (k n : ℕ) → issued k (suc n) ≡ issued k n + (if suc n == k then 1 else 0)
issued-suc k n = ground arith

-- Busy, the new input is rejected; otherwise it waits, with its time limit.
send_input-IsSound :
    (o : Option ℕ) (i : Input) (now : ℕ) (s : Desk)
    → s.pending ≡ o
    → IsSound s
    → IsSound (send_input o (suc s.inputs) i now s)
unfolding send_input
send_input-IsSound none i now s there v = record {
  counted = λ k. omega (arith, issued-suc k s.inputs, v.counted k, ap (waits k) there);
  armed = ap (λ ts. suc s.inputs ∷ ts) (v.armed ∙ ap limit_of there);
}
send_input-IsSound (some p) i now s there v = record {
  counted = λ k. omega (arith, issued-suc k s.inputs, v.counted k);
  armed = v.armed;
}

pub input-IsSound : (i : Input) (now : ℕ) (s : Desk) → IsSound s → IsSound (input i now s)
unfolding input
input-IsSound i now s v =
    let h = ensure_helper-Keeps s in
    subst (λ n. IsSound (send_input s.pending (suc n) i now (ensure_helper s))) h.inputs_same
      (send_input-IsSound s.pending i now (ensure_helper s) h.pending_same (Keeps-IsSound h v))

on_line-IsSound : (c : ℕ) (l : Line) (s : Desk) → IsSound s → IsSound (on_line c l s)
unfolding on_line
on_line-IsSound c accepted s v =
    if_both IsSound (not (is_helper c s.helper)) s _ (λ q. v) (λ q. resolve_pending-IsSound s v)
on_line-IsSound c (refused e) s v =
    if_both IsSound (not (is_helper c s.helper)) s _ (λ q. v) (λ q. reject_pending-IsSound e s v)
on_line-IsSound c garbage s v =
    if_both IsSound (not (is_helper c s.helper)) s _ (λ q. v) (λ q. reject_pending-IsSound _ s v)

on_gone-IsSound : (c : ℕ) (e : Text) (s : Desk) → IsSound s → IsSound (on_gone c e s)
unfolding on_gone
on_gone-IsSound c e s v =
    if_both IsSound (not (is_helper c s.helper)) s _ (λ q. v)
      (λ q. let w = reject_pending-IsSound e s v in record { counted = w.counted; armed = w.armed })

settled-kill : (k : ℕ) (h : Option ℕ) (log : List Effect) → settled k (kill h log) ≡ settled k log
settled-kill k none log = refl
settled-kill k (some c) log = omega arith

settled-end : (k : ℕ) (h : Option ℕ) (log : List Effect) → settled k (end h log) ≡ settled k log
settled-end k none log = refl
settled-end k (some c) log = omega arith

-- An armed time limit is that of the waiting input.
pub armed_waits : (n : ℕ) (o : Option ℕ) → is_armed n (limit_of o) ≡ true → o ≡ some n
unfolding is_armed
armed_waits n none e = cc
armed_waits n (some p) e = ground arith

on_timeout-IsSound : (n : ℕ) (s : Desk) → IsSound s → IsSound (on_timeout n s)
unfolding on_timeout
on_timeout-IsSound n s v =
    if_both IsSound (is_armed n s.timers) _ s
      (λ q.
        let there = armed_waits n s.pending (sym (ap (is_armed n) v.armed) ∙ q) in
        let w = settle-IsSound s n (rejected n (codes "Input timeout")) there (λ k. refl) v in
        record {
          counted = λ k. omega (arith, settled-kill k s.helper s.log, w.counted k);
          armed = w.armed;
        })
      (λ q. v)

on_tick-IsSound : (now : ℕ) (s : Desk) → IsSound s → IsSound (on_tick now s)
unfolding on_tick release_idle reset_tooltip
on_tick-IsSound now s v =
    if_both IsSound s.ticking _ s
      (λ q.
        tooltip-IsSound (release_idle now s)
          (if_both IsSound _ (input release now s) s (λ w. input-IsSound release now s v) (λ w. v)))
      (λ q. v)
  where
    tooltip-IsSound : (r : Desk) → IsSound r → IsSound (reset_tooltip now r)
    tooltip-IsSound r w =
        if_both IsSound (ltb 4000 (now - r.last_frame)) _ r
          (λ q. record { counted = λ k. omega (arith, w.counted k); armed = w.armed }) (λ q. w)

pub step-IsSound : (e : Event) (s : Desk) → IsSound s → IsSound (step e s)
unfolding step on_lock on_unlock stop
step-IsSound (line c l) s v = on_line-IsSound c l s v
step-IsSound (broke c) s v = on_gone-IsSound c _ s v
step-IsSound (exited c) s v = on_gone-IsSound c _ s v
step-IsSound (timed_out n) s v = on_timeout-IsSound n s v
step-IsSound screen_locked s v = record {
  counted = λ k. omega (arith, settled-end k s.helper s.log, v.counted k);
  armed = v.armed;
}
step-IsSound screen_unlocked s v = record { counted = v.counted; armed = v.armed }
step-IsSound (ticked now) s v = on_tick-IsSound now s v
step-IsSound quit s v = record {
  counted = λ k. omega (arith, settled-end k s.helper s.log, v.counted k);
  armed = v.armed;
}
