-- ===== src/Remote/Link/Settled/Closing.antt =====
-- `useRelay`, `close` and `fail` keep the account of calls; closing settles what is pending.
use net_conductor.Base.{ℕ, ◌+◌, ◌≡◌, refl, true, false, List, [], ◌∷◌, All, arith, if_both}
use net_conductor.Base.Text.{Text}
use net_conductor.Base.Table.{Table, keys}
use net_conductor.Remote.Link.State.{
  rejected, Call, Link, disarm, use_relay, reject_all, shut_down, close, fail,
}
use net_conductor.Remote.Link.Settled.{settled, copies, IsOwn, IsSound, Keeps, Keeps-IsSound}

pub use_relay-Keeps : (l : Link) → Keeps l (use_relay l)
unfolding use_relay
use_relay-Keeps l = ground arith

settled-reject_all :
    (k : ℕ) (e : Text) (m : Table Call) (l : Link)
    → All IsOwn m
    → settled k (reject_all e m l).log ≡ settled k l.log + copies k m
unfolding reject_all
settled-reject_all k e [] l h = omega arith
settled-reject_all k e ((j, c) ∷ m) l ((p, t), h) = ground (
  arith,
  settled-reject_all k e m
      (record l { timers = disarm c.timer l.timers; log = rejected c.promise e ∷ l.log }) h,
)

disarm_head : (j : ℕ) (ts : List ℕ) → disarm j (j ∷ ts) ≡ ts
unfolding disarm
disarm_head j ts = ground arith

timers-reject_all :
    (e : Text) (m : Table Call) (l : Link)
    → All IsOwn m
    → l.timers ≡ keys m
    → (reject_all e m l).timers ≡ []
unfolding reject_all
timers-reject_all e [] l h armed = armed
timers-reject_all e ((j, c) ∷ m) l ((p, t), h) armed =
    timers-reject_all e m
      (record l { timers = disarm c.timer l.timers; log = rejected c.promise e ∷ l.log }) h
      (rw (t, armed) (disarm_head j (keys m)))

seq-reject_all : (e : Text) (m : Table Call) (l : Link) → (reject_all e m l).seq ≡ l.seq
unfolding reject_all
seq-reject_all e [] l = refl
seq-reject_all e ((j, c) ∷ m) l = seq-reject_all e m _

-- The flags that `close` sets before it rejects the calls.
abbrev pub silenced : Link → Link
silenced l = record l { closed = true; fallback = false; keepalive = false; stats = false }

pub shut_down-IsSound : (e : Text) (l : Link) → IsSound l → IsSound (shut_down e l)
unfolding shut_down
shut_down-IsSound e l v = record {
  counted = λ k.
      rw
        (
          seq-reject_all e l.pending (silenced l),
          settled-reject_all k e l.pending (silenced l) v.owned,
        )
        (omega (arith, v.counted k));
  owned = tt;
  armed = timers-reject_all e l.pending (silenced l) v.owned v.armed;
  quiet = λ q. refl;
}

pub close-IsSound : (e : Text) (l : Link) → IsSound l → IsSound (close e l)
unfolding close
close-IsSound e l v =
    if_both IsSound l.closed l (shut_down e l) (λ q. v) (λ q. shut_down-IsSound e l v)

-- A status line or a decision of `ready` does not touch the account.
pub fail-IsSound : (e : Text) (l : Link) → IsSound l → IsSound (fail e l)
unfolding fail
fail-IsSound e l v =
    if_both IsSound l.closed l _ (λ q. v)
      λ q. close-IsSound e _ (
        Keeps-IsSound
          (record {
            seq_same = refl;
            pending_same = refl;
            timers_same = refl;
            closed_same = refl;
            settled_same = λ k. omega arith;
          })
          v)

closed-reject_all : (e : Text) (m : Table Call) (l : Link) → (reject_all e m l).closed ≡ l.closed
unfolding reject_all
closed-reject_all e [] l = refl
closed-reject_all e ((k, c) ∷ m) l = closed-reject_all e m _

pub close-closed : (e : Text) (l : Link) → (close e l).closed ≡ true
unfolding close shut_down
close-closed e l = ground (arith, closed-reject_all e l.pending (silenced l))

pub fail-closed : (e : Text) (l : Link) → (fail e l).closed ≡ true
unfolding fail
fail-closed e l =
    if_both (λ (r : Link). r.closed ≡ true) l.closed l _ (λ q. q) (λ q. close-closed e _)
