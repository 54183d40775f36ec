-- ===== src/Console/Dialogs/Submit/Once.antt =====
-- No form has two requests on their way.
use net_conductor.Base.{
  ℕ, suc, ◌+◌, ◌≤◌, ◌<◌, ◌≡◌, refl, true, ◌&&◌, not, ◌==◌, List, [], ◌∷◌, if◌then◌else◌, arith,
  if_both, ==_iff, ==_refl,
}
use net_conductor.Base.Text.{Text}
use net_conductor.Console.Dialogs.Submit.{
  Forms, start, has, without, open_modal, submit, enable, succeed, fail, finish, Event,
  modal_called, submitted, succeeded, failed, refreshed, dismissed, step, run,
}

abbrev pub count : ℕ → List ℕ → ℕ
count k [] = 0
count k (j ∷ js) = (if j == k then 1 else 0) + count k js

-- How many handlers of form `k` are at work.
abbrev pub working : ℕ → Forms → ℕ
working k s = count k s.sent + count k s.refreshing

-- The form that is shown has a handler at work at most while its button is disabled; the earlier
-- ones have one at most, and the later ones none.
pub record IsSound (s : Forms) : Type 0 where
  pub current : working s.shown s ≤ (if s.disabled then 1 else 0)
  pub earlier : (k : ℕ) → working k s ≤ 1
  pub later : (k : ℕ) → s.shown < k → working k s ≡ 0

count-without :
    (j k : ℕ) (js : List ℕ)
    → has k js ≡ true
    → count j (without k js) + (if k == j then 1 else 0) ≡ count j js
unfolding without
count-without j k [] h = cc
count-without j k (i ∷ js) h = ground (arith, count-without j k js)

start-IsSound : IsSound start
start-IsSound = record { current = omega arith; earlier = λ k. omega arith; later = λ k h. refl }

open_modal-IsSound : (s : Forms) → IsSound s → IsSound (open_modal s)
unfolding open_modal
open_modal-IsSound s v = record {
  current = omega (arith, v.later (suc s.shown));
  earlier = v.earlier;
  later = λ k h. v.later k (omega arith);
}

submit-IsSound : (s : Forms) → IsSound s → IsSound (submit s)
unfolding submit
submit-IsSound s v =
    if_both IsSound (s.is_open && not s.disabled) _ s
      (λ q. record {
        current = ground (arith, v.current);
        earlier = λ k. ground (arith, v.current, v.earlier k);
        later = λ k h. ground (arith, v.later k h);
      })
      (λ q. v)

-- A request that comes to an end is one less at work.
ended :
    (j k : ℕ) (js : List ℕ)
    → has k js ≡ true
    → (if k == j then 1 else 0) + count j (without k js) ≡ count j js
ended j k js h = omega (arith, count-without j k js h)

ended_own : (k : ℕ) (js : List ℕ) → has k js ≡ true → 1 + count k (without k js) ≡ count k js
ended_own k js h = rw (==_refl k) at (ended k k js h)

succeed-IsSound : (k : ℕ) (s : Forms) → IsSound s → IsSound (succeed k s)
unfolding succeed
succeed-IsSound k s v =
    if_both IsSound (has k s.sent) _ s
      (λ q. record {
        current = omega (arith, v.current, ended s.shown k s.sent q);
        earlier = λ j. omega (arith, v.earlier j, ended j k s.sent q);
        later = λ j h. omega (arith, v.later j h, ended j k s.sent q);
      })
      (λ q. v)

enable-IsSound : (k : ℕ) (s : Forms) → working k s ≡ 0 → IsSound s → IsSound (enable k s)
unfolding enable
enable-IsSound k s none_left v =
    if_both IsSound (s.shown == k) _ s
      (λ q. record {
        current = rw ((==_iff s.shown k).0 q, none_left) (omega arith);
        earlier = v.earlier;
        later = v.later;
      })
      (λ q. v)

fail-IsSound : (k : ℕ) (e : Text) (s : Forms) → IsSound s → IsSound (fail k e s)
unfolding fail
fail-IsSound k e s v =
    if_both IsSound (has k s.sent) _ s
      (λ q.
        enable-IsSound k (record s { error = e; sent = without k s.sent })
          (omega (arith, v.earlier k, ended_own k s.sent q))
          (record {
            current = omega (arith, v.current, ended s.shown k s.sent q);
            earlier = λ j. omega (arith, v.earlier j, ended j k s.sent q);
            later = λ j h. omega (arith, v.later j h, ended j k s.sent q);
          }))
      (λ q. v)

finish-IsSound : (k : ℕ) (s : Forms) → IsSound s → IsSound (finish k s)
unfolding finish
finish-IsSound k s v =
    if_both IsSound (has k s.refreshing) _ s
      (λ q.
        enable-IsSound k (record s { refreshing = without k s.refreshing; saved = suc s.saved })
          (omega (arith, v.earlier k, ended_own k s.refreshing q))
          (record {
            current = omega (arith, v.current, ended s.shown k s.refreshing q);
            earlier = λ j. omega (arith, v.earlier j, ended j k s.refreshing q);
            later = λ j h. omega (arith, v.later j h, ended j k s.refreshing q);
          }))
      (λ q. v)

step-IsSound : (e : Event) (s : Forms) → IsSound s → IsSound (step e s)
unfolding step
step-IsSound modal_called s v = open_modal-IsSound s v
step-IsSound submitted s v = submit-IsSound s v
step-IsSound (succeeded k) s v = succeed-IsSound k s v
step-IsSound (failed k e) s v = fail-IsSound k e s v
step-IsSound (refreshed k) s v = finish-IsSound k s v
step-IsSound dismissed s v = record { current = v.current; earlier = v.earlier; later = v.later }

run-IsSound : (es : List Event) (s : Forms) → IsSound s → IsSound (run es s)
unfolding run
run-IsSound [] s v = v
run-IsSound (e ∷ es) s v = run-IsSound es (step e s) (step-IsSound e s v)

-- After any calls of `modal`, submits, dismissals, answers and refreshes: a form has one handler of
-- its submit at work at most, with its request out or waiting for `refresh`, and the form that is
-- shown has none while its button is enabled. So no form sends a request twice before the first is
-- answered.
pub submitted_once :
    (es : List Event) (k : ℕ)
    → (working k (run es start) ≤ 1)
      × (working (run es start).shown (run es start) ≤ (if (run es start).disabled then 1 else 0))
submitted_once es k = let v = run-IsSound es start start-IsSound in (v.earlier k, v.current)
