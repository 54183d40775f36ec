-- ===== src/Console/Terminal/Own.antt =====
-- Each session with its own terminal and its own device.
use mathlib.Core.Path.{subst}
use net_conductor.Base.{
  ℕ, ◌≡◌, refl, ap, sym, ◌∙◌, true, false, ◌==◌, ==_iff, Option, none, some, List, [], ◌∷◌, All,
  if_both, Bool-cases, inl, inr,
}
use net_conductor.Base.Text.{Text}
use net_conductor.Base.Table.{Table, get, put, get-put}
use net_conductor.Console.Terminal.{
  Ready, connecting, connected, closing, closed, sent_size, sent_typed, wrote, wrote_notice,
  Console, start, close_dialog, open_ssh, Event, ssh_clicked, close_clicked, cancelled,
  socket_opened, socket_message, socket_failed, socket_closed, typed, resized, step, run, on_open,
  on_message, on_closed, on_failed, on_typed, on_resized, with_term, set_ready, state_of, is_open,
  is_term,
}
use net_conductor.Console.Terminal.Closing.{
  is_live, IsOwn, IsSound, not_live, set_ready-IsSound, note-IsSound, with_term-IsSound, all_closed,
  some_injective, close_socket-log, close_dialog-IsSound, cancel-IsSound,
}

only_new :
    (s k : ℕ) (m : Table Ready)
    → ((j : ℕ) → is_live (get j m) ≡ false)
    → is_live (get k (put s connecting m)) ≡ true
    → ◌≡◌ {A = Option ℕ} (some s) (some k)
only_new s k m none_live live = elim (Bool-cases (s == k)) [
  | inl q ↦ ap some ((==_iff s k).0 q)
  | inr q ↦
      let e = rw (get-put s k connecting m, q) at live in
      elim (not_live (sym (none_live k) ∙ e)) [ ]
]

open_ssh-IsSound : (c : Console) → IsSound c → IsSound (open_ssh c)
unfolding open_ssh close_dialog
open_ssh-IsSound c v = record {
  sockets = λ k live.
      let e =
        only_new (close_dialog c).opened k (close_dialog c).ready
          (λ j. all_closed c.socket c j refl v) live in
      (e, e);
  own = subst (All IsOwn) (sym (close_socket-log c.socket c)) v.own;
}

-- The terminal of a live socket is its own.
owner :
    (k t : ℕ) (o : Option Ready) (c : Console)
    → IsSound c
    → get k c.ready ≡ o
    → is_live o ≡ true
    → c.term ≡ some t
    → k ≡ t
owner k t o c v e live q = some_injective (sym (v.sockets k (ap is_live e ∙ live)).0 ∙ q)

on_open-IsSound :
    (o : Option Ready) (k : ℕ) (c : Console)
    → get k c.ready ≡ o
    → IsSound c
    → IsSound (on_open o k c)
on_open-IsSound (some connecting) k c e v =
    with_term-IsSound (sent_size k) c.term (set_ready k connected c)
      (set_ready-IsSound k connected c v (λ l. ap is_live e))
      (λ t q. owner k t (some connecting) c v e refl q)
on_open-IsSound (some connected) k c e v = v
on_open-IsSound (some closing) k c e v = v
on_open-IsSound (some closed) k c e v = v
on_open-IsSound none k c e v = v

on_message-IsSound :
    (o : Option Ready) (k : ℕ) (x : Text) (c : Console)
    → get k c.ready ≡ o
    → IsSound c
    → IsSound (on_message o k x c)
on_message-IsSound (some connected) k x c e v =
    with_term-IsSound (λ t. wrote k t x) c.term c v (λ t q. owner k t (some connected) c v e refl q)
on_message-IsSound (some connecting) k x c e v = v
on_message-IsSound (some closing) k x c e v = v
on_message-IsSound (some closed) k x c e v = v
on_message-IsSound none k x c e v = v

-- The end of a socket, with its notice.
ended-IsSound :
    (k : ℕ) (c : Console)
    → IsSound c
    → IsSound (with_term (wrote_notice k) c.term (set_ready k closed c))
ended-IsSound k c v =
    with_term-IsSound (wrote_notice k) c.term (set_ready k closed c)
      (set_ready-IsSound k closed c v (λ l. elim (not_live l) [ ])) (λ t q. tt)

on_closed-IsSound : (o : Option Ready) (k : ℕ) (c : Console) → IsSound c → IsSound (on_closed o k c)
on_closed-IsSound (some connecting) k c v = ended-IsSound k c v
on_closed-IsSound (some connected) k c v = ended-IsSound k c v
on_closed-IsSound (some closing) k c v = ended-IsSound k c v
on_closed-IsSound (some closed) k c v = v
on_closed-IsSound none k c v = v

noticed-IsSound : (k : ℕ) (c : Console) → IsSound c → IsSound (with_term (wrote_notice k) c.term c)
noticed-IsSound k c v = with_term-IsSound (wrote_notice k) c.term c v (λ t q. tt)

on_failed-IsSound : (o : Option Ready) (k : ℕ) (c : Console) → IsSound c → IsSound (on_failed o k c)
on_failed-IsSound (some connecting) k c v = noticed-IsSound k c v
on_failed-IsSound (some connected) k c v = noticed-IsSound k c v
on_failed-IsSound (some closing) k c v = noticed-IsSound k c v
on_failed-IsSound (some closed) k c v = v
on_failed-IsSound none k c v = v

open_is_live : (o : Option Ready) → is_open o ≡ true → is_live o ≡ true
open_is_live (some connecting) h = cc
open_is_live (some connected) h = refl
open_is_live (some closing) h = cc
open_is_live (some closed) h = cc
open_is_live none h = cc

on_typed-IsSound : (k : ℕ) (x : Text) (c : Console) → IsSound c → IsSound (on_typed k x c)
on_typed-IsSound k x c v =
    if_both IsSound (is_term k c.term) _ _
      (λ q.
        if_both IsSound (is_open (state_of k c)) _ _ (λ r. note-IsSound (sent_typed k k x) c v refl)
          (λ r. v))
      (λ q. v)

on_resized-IsSound :
    (k : ℕ) (o : Option ℕ) (c : Console) → c.term ≡ o → IsSound c → IsSound (on_resized k o c)
on_resized-IsSound k none c e v = v
on_resized-IsSound k (some t) c e v =
    if_both IsSound (is_open (state_of k c)) _ _
      (λ r.
        note-IsSound (sent_size k t) c v
          (owner k t (state_of k c) c v refl (open_is_live (state_of k c) r) e))
      (λ r. v)

step-IsSound : (e : Event) (c : Console) → IsSound c → IsSound (step e c)
unfolding step
step-IsSound ssh_clicked c v = open_ssh-IsSound c v
step-IsSound close_clicked c v = close_dialog-IsSound c v
step-IsSound cancelled c v = cancel-IsSound c v
step-IsSound (socket_opened k) c v = on_open-IsSound (state_of k c) k c refl v
step-IsSound (socket_message k x) c v = on_message-IsSound (state_of k c) k x c refl v
step-IsSound (socket_failed k) c v = on_failed-IsSound (state_of k c) k c v
step-IsSound (socket_closed k) c v = on_closed-IsSound (state_of k c) k c v
step-IsSound (typed k x) c v = on_typed-IsSound k x c v
step-IsSound (resized k) c v = on_resized-IsSound k c.term c refl v

run-IsSound : (es : List Event) (c : Console) → IsSound c → IsSound (run es c)
unfolding run
run-IsSound [] c v = v
run-IsSound (e ∷ es) c v = run-IsSound es (step e c) (step-IsSound e c v)

start-IsSound : IsSound start
unfolding get
start-IsSound = record { sockets = λ k live. elim (not_live live) [ ]; own = tt }

-- After any clicks, cancels, sockets' events, typing and resizing from the start: what was typed on
-- a terminal, and its size, went only to the device of its own session, every terminal showed only
-- what its own device sent, up to the notices of an end; and there is one socket at most that is
-- neither closed nor being closed.
pub sessions-IsOwn :
    (es : List Event)
    → All IsOwn (run es start).log
      × ((j k : ℕ)
          → is_live (get j (run es start).ready) ≡ true
          → is_live (get k (run es start).ready) ≡ true
          → j ≡ k)
sessions-IsOwn es =
    let v = run-IsSound es start start-IsSound in
    (v.own, λ j k p q. some_injective (sym (v.sockets j p).0 ∙ (v.sockets k q).0))
