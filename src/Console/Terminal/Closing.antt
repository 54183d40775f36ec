-- ===== src/Console/Terminal/Closing.antt =====
-- What holds of the sockets, and what closing the shared one leaves.
use mathlib.Core.Path.{subst}
use net_conductor.Base.{
  ℕ, ◌≡◌, ◌≢◌, refl, ap, sym, ◌∙◌, Bool, true, false, ◌==◌, ==_iff, Option, none, some, All,
  Bool-cases, inl, inr,
}
use net_conductor.Base.Table.{Table, get, put, get-put}
use net_conductor.Console.Terminal.{
  Ready, connecting, connected, closing, closed, Effect, sent_size, sent_typed, wrote, wrote_notice,
  Console, close_socket, close_dialog, cancel, closed_by, with_term, note, set_ready, state_of,
}

-- A socket that is neither closed nor being closed.
abbrev pub is_live : Option Ready → Bool
is_live (some connecting) = true
is_live (some connected) = true
is_live (some closing) = false
is_live (some closed) = false
is_live none = false

-- What was typed on a terminal, and its size, go to the device of its session, and a terminal shows
-- what the device of its session sent; the notices are exempt.
abbrev pub IsOwn : Effect → Type 0
IsOwn (sent_size k t) = k ≡ t
IsOwn (sent_typed k t x) = k ≡ t
IsOwn (wrote k t x) = k ≡ t
IsOwn (wrote_notice k t) = Unit

-- A live socket is the one of the shared terminal.
pub record IsSound (c : Console) : Type 0 where
  pub sockets : (k : ℕ) → is_live (get k c.ready) ≡ true → (c.term ≡ some k) × (c.socket ≡ some k)
  pub own : All IsOwn c.log

none_some : (k : ℕ) → ◌≢◌ {A = Option ℕ} none (some k)
none_some k e = cc

no_live : (o : Option Ready) → (is_live o ≡ true → ⊥) → is_live o ≡ false
no_live o f = elim (Bool-cases (is_live o)) [ inl q ↦ elim (f q) [ ] | inr q ↦ q ]

pub not_live : false ≢ true
not_live e = cc

-- A socket that is live after an update of one was so before, if the update keeps what is not live.
live-put :
    (k j : ℕ) (r : Ready) (m : Table Ready)
    → (is_live (some r) ≡ true → is_live (get k m) ≡ true)
    → is_live (get j (put k r m)) ≡ true
    → is_live (get j m) ≡ true
live-put k j r m h live = elim (Bool-cases (k == j)) [
  | inl q ↦
      let e = rw (get-put k j r m, q) at live in
      subst (λ i. is_live (get i m) ≡ true) ((==_iff k j).0 q) (h e)
  | inr q ↦ rw (get-put k j r m, q) at live
]

pub set_ready-IsSound :
    (k : ℕ) (r : Ready) (c : Console)
    → IsSound c
    → (is_live (some r) ≡ true → is_live (get k c.ready) ≡ true)
    → IsSound (set_ready k r c)
set_ready-IsSound k r c v h = record {
  sockets = λ j live. v.sockets j (live-put k j r c.ready h live);
  own = v.own;
}

pub note-IsSound : (e : Effect) (c : Console) → IsSound c → IsOwn e → IsSound (note e c)
note-IsSound e c v h = record { sockets = v.sockets; own = (h, v.own) }

pub with_term-IsSound :
    (f : ℕ → Effect) (o : Option ℕ) (c : Console)
    → IsSound c
    → ((t : ℕ) → o ≡ some t → IsOwn (f t))
    → IsSound (with_term f o c)
with_term-IsSound f none c v h = v
with_term-IsSound f (some t) c v h = note-IsSound (f t) c v (h t refl)

put_closing :
    (s k : ℕ) (m : Table Ready)
    → (is_live (get k m) ≡ true → s ≡ k)
    → is_live (get k (put s closing m)) ≡ false
put_closing s k m only = elim (Bool-cases (s == k)) [
  | inl q ↦ rw (get-put s k closing m, q) refl
  | inr q ↦
      rw (get-put s k closing m, q)
        (no_live (get k m) (λ l. not_live (sym q ∙ (==_iff s k).1 (only l))))
]

-- A socket that is closing already was not live.
still_closed :
    (o : Option Ready) (s k : ℕ) (m : Table Ready)
    → is_live o ≡ false
    → get s m ≡ o
    → (is_live (get k m) ≡ true → s ≡ k)
    → is_live (get k m) ≡ false
still_closed o s k m h e only =
    no_live (get k m)
      (λ q. not_live (sym h ∙ ap is_live (sym e) ∙ ap (λ i. is_live (get i m)) (only q) ∙ q))

pub some_injective : {m n : ℕ} → some m ≡ some n → m ≡ n
some_injective e = cc

closed-live :
    (o : Option Ready) (s k : ℕ) (c : Console)
    → get s c.ready ≡ o
    → (is_live (get k c.ready) ≡ true → s ≡ k)
    → is_live (get k (closed_by o s c).ready) ≡ false
closed-live (some connecting) s k c e only = put_closing s k c.ready only
closed-live (some connected) s k c e only = put_closing s k c.ready only
closed-live (some closing) s k c e only = still_closed (some closing) s k c.ready refl e only
closed-live (some closed) s k c e only = still_closed (some closed) s k c.ready refl e only
closed-live none s k c e only = still_closed none s k c.ready refl e only

-- `close()` on the shared socket leaves no live one.
pub all_closed :
    (o : Option ℕ) (c : Console) (k : ℕ)
    → c.socket ≡ o
    → IsSound c
    → is_live (get k (close_socket o c).ready) ≡ false
unfolding close_socket
all_closed none c k e v = no_live (get k c.ready) (λ q. none_some k (sym e ∙ (v.sockets k q).1))
all_closed (some s) c k e v =
    closed-live (get s c.ready) s k c refl (λ q. some_injective (sym e ∙ (v.sockets k q).1))

closed_by-log : (o : Option Ready) (k : ℕ) (c : Console) → (closed_by o k c).log ≡ c.log
closed_by-log (some connecting) k c = refl
closed_by-log (some connected) k c = refl
closed_by-log (some closing) k c = refl
closed_by-log (some closed) k c = refl
closed_by-log none k c = refl

pub close_socket-log : (o : Option ℕ) (c : Console) → (close_socket o c).log ≡ c.log
unfolding close_socket
close_socket-log none c = refl
close_socket-log (some k) c = closed_by-log (state_of k c) k c

pub close_dialog-IsSound : (c : Console) → IsSound c → IsSound (close_dialog c)
unfolding close_dialog
close_dialog-IsSound c v = record {
  sockets = λ k live. elim (not_live (sym (all_closed c.socket c k refl v) ∙ live)) [ ];
  own = subst (All IsOwn) (sym (close_socket-log c.socket c)) v.own;
}

pub cancel-IsSound : (c : Console) → IsSound c → IsSound (cancel c)
unfolding cancel
cancel-IsSound c v = record {
  sockets = λ k live. elim (not_live (sym (all_closed c.socket c k refl v) ∙ live)) [ ];
  own = subst (All IsOwn) (sym (close_socket-log c.socket c)) v.own;
}
