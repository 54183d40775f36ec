-- ===== src/Remote/Link/Settled.antt =====
-- Every call that got a number is pending or settled, once: the invariant of `pending`, its timers
-- and the promises of `call`, under all events.
pub mod Closing
pub mod Receiving
pub mod Calling
pub mod Run
use net_conductor.Base.{
  ℕ, zero, suc, ◌+◌, ◌≤◌, ◌<◌, ◌≡◌, ◌≢◌, refl, sym, ap, ◌∙◌, ◌⊎◌, inl, inr, Bool, true, false, ◌||◌,
  ◌&&◌, not, Option, none, some, List, [], ◌∷◌, ◌++◌, ltb, leb, ◌==◌, if◌then◌else◌, length, All,
  arith, Bool-cases, Option-cases,
}
use net_conductor.Base.Text.{Text}
use net_conductor.Base.Table.{Table, get, put, erase, keys, Fresh-get, put_new}
use net_conductor.Remote.Protocol.{Message, chunk, result, event, Request}
use net_conductor.Remote.Link.State.{
  Effect, status, delivered, resolved, rejected, refused, sent_direct, sent_relay, sent_offer,
  sent_ping, closed_socket, closed_peer, Call, Part, Link, start, note, disarm, use_relay,
  reject_all, close, fail,
}

abbrev pub settles : ℕ → Effect → ℕ
settles k (status s) = 0
settles k (delivered t d) = 0
settles k (resolved id v) = if id == k then 1 else 0
settles k (rejected id e) = if id == k then 1 else 0
settles k (refused r e) = 0
settles k (sent_direct id r) = 0
settles k (sent_relay id r) = 0
settles k sent_offer = 0
settles k sent_ping = 0
settles k closed_socket = 0
settles k closed_peer = 0

-- How often the promise of call `k` was settled.
abbrev pub settled : ℕ → List Effect → ℕ
settled k [] = 0
settled k (e ∷ es) = settles k e + settled k es

-- How many entries of `pending` have the key `k`.
abbrev pub copies : ℕ → Table Call → ℕ
copies k [] = 0
copies k ((j, c) ∷ m) = (if j == k then 1 else 0) + copies k m

abbrev pub issued : ℕ → ℕ → ℕ
issued k n = if ltb 0 k && leb k n then 1 else 0

-- An entry settles the promise of its key and holds the timer of its key.
abbrev pub IsOwn : ℕ × Call → Type 0
IsOwn (k, c) = (c.promise ≡ k) × (c.timer ≡ k)

pub record IsSound (l : Link) : Type 0 where
  pub counted : (k : ℕ) → settled k l.log + copies k l.pending ≡ issued k l.seq
  pub owned : All IsOwn l.pending
  pub armed : l.timers ≡ keys l.pending
  pub quiet : l.closed ≡ true → l.pending ≡ []

pub start-IsSound : IsSound start
start-IsSound = record { counted = λ k. ground arith; owned = tt; armed = refl; quiet = λ e. refl }

-- What the other operations leave alone.
pub record Keeps (l l' : Link) : Type 0 where
  pub seq_same : l'.seq ≡ l.seq
  pub pending_same : l'.pending ≡ l.pending
  pub timers_same : l'.timers ≡ l.timers
  pub closed_same : l'.closed ≡ l.closed
  pub settled_same : (k : ℕ) → settled k l'.log ≡ settled k l.log

pub Keeps-IsSound : {l l' : Link} → Keeps l l' → IsSound l → IsSound l'
Keeps-IsSound {l} {l'} s v = record {
  counted = λ k. rw (s.settled_same k, s.pending_same, s.seq_same) (v.counted k);
  owned = rw (s.pending_same) v.owned;
  armed = s.timers_same ∙ v.armed ∙ ap keys (sym s.pending_same);
  quiet = λ e. s.pending_same ∙ v.quiet (sym s.closed_same ∙ e);
}

-- An effect that settles nothing.
pub note-Keeps : (e : Effect) (l : Link) → ((k : ℕ) → settles k e ≡ 0) → Keeps l (note e l)
note-Keeps e l h = record {
  seq_same = refl;
  pending_same = refl;
  timers_same = refl;
  closed_same = refl;
  settled_same = λ k. omega (arith, h k);
}

-- Removing an entry.
copies-erase :
    (id k : ℕ) (m : Table Call) {c : Call}
    → get id m ≡ some c
    → copies k (erase id m) + (if id == k then 1 else 0) ≡ copies k m
unfolding get erase
copies-erase id k [] e = cc
copies-erase id k ((j, c) ∷ m) {c = d} e = ground (arith, copies-erase id k m {c = d})

owned-erase : (id : ℕ) (m : Table Call) → All IsOwn m → All IsOwn (erase id m)
unfolding erase
owned-erase id [] h = tt
owned-erase id ((j, c) ∷ m) (p, h) = ground (arith, owned-erase id m h)

pub owned-get :
    (id : ℕ) (m : Table Call) {c : Call} → All IsOwn m → get id m ≡ some c → IsOwn (id, c)
unfolding get
owned-get id [] h e = cc
owned-get id ((j, c) ∷ m) {c = d} (p, h) e = ground (arith, owned-get id m {c = d} h)

disarm-keys : (id : ℕ) (m : Table Call) → disarm id (keys m) ≡ keys (erase id m)
unfolding disarm erase
disarm-keys id [] = refl
disarm-keys id ((j, c) ∷ m) = ground (arith, disarm-keys id m)

erase-nil : (id : ℕ) (m : Table Call) → m ≡ [] → erase id m ≡ []
unfolding erase
erase-nil id [] e = refl
erase-nil id ((j, c) ∷ m) e = cc

-- Settling one pending call, by whatever effect settles its promise alone.
pub settle-IsSound :
    (l : Link) (id t : ℕ) (c : Call) (e : Effect)
    → t ≡ id
    → get id l.pending ≡ some c
    → ((k : ℕ) → settles k e ≡ (if id == k then 1 else 0))
    → IsSound l
    → IsSound
        (record l { timers = disarm t l.timers; pending = erase id l.pending; log = e ∷ l.log })
settle-IsSound l id t c e same there one v = record {
  counted = λ k. omega (arith, copies-erase id k l.pending there, one k, v.counted k);
  owned = owned-erase id l.pending v.owned;
  armed = rw same (ap (disarm id) v.armed ∙ disarm-keys id l.pending);
  quiet = λ shut. erase-nil id l.pending (v.quiet shut);
}
