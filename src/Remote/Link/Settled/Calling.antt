-- ===== src/Remote/Link/Settled/Calling.antt =====
-- `call` and its time limit keep the account of calls.
use net_conductor.Base.{
  ℕ, suc, ◌+◌, ◌≡◌, refl, sym, ap, ◌∙◌, ◌⊎◌, inl, inr, Bool, true, false, ◌&&◌, not, none, some,
  List, [], ◌∷◌, ◌++◌, ◌==◌, if◌then◌else◌, All-append, arith, if_both, Option-cases,
}
use net_conductor.Base.Text.{Text}
use net_conductor.Base.Table.{Table, get, keys, put_new, get-put}
use net_conductor.Remote.Protocol.{Request}
use net_conductor.Remote.Link.State.{
  rejected, refused, sent_direct, sent_relay, Ready, undecided, opened, broken, Channel, connecting,
  open_now, closing, shut, Call, Link, is_open, use_relay, session_closed,
}
use net_conductor.Remote.Link.Calls.{
  bad_state, not_sent, register, unregister, send_relay, send_direct, transmit, issue, resume_with,
  resume, is_armed, expire, call, timed_out,
}
use net_conductor.Remote.Link.Settled.{
  copies, issued, IsOwn, IsSound, Keeps, note-Keeps, Keeps-IsSound, settle-IsSound,
}
use net_conductor.Remote.Link.Settled.Closing.{use_relay-Keeps}

get_of_copies : (k : ℕ) (m : Table Call) → copies k m ≡ 0 → get k m ≡ none
unfolding get
get_of_copies k [] h = refl
get_of_copies k ((j, c) ∷ m) h = ground (arith, get_of_copies k m)

copies-append :
    (k : ℕ) (m : Table Call) (j : ℕ) (c : Call)
    → copies k (m ++ (j, c) ∷ []) ≡ copies k m + (if j == k then 1 else 0)
copies-append k [] j c = omega arith
copies-append k ((i, d) ∷ m) j c = omega (arith, copies-append k m j c)

keys-append : (m : Table Call) (j : ℕ) (c : Call) → keys (m ++ (j, c) ∷ []) ≡ keys m ++ j ∷ []
keys-append [] j c = refl
keys-append ((i, d) ∷ m) j c = ap (i ∷◌) (keys-append m j c)

issued-suc : (k n : ℕ) → issued k (suc n) ≡ issued k n + (if suc n == k then 1 else 0)
issued-suc k n = ground arith

-- The number of a new call is in no entry.
get-next : (l : Link) → IsSound l → get (suc l.seq) l.pending ≡ none
get-next l v = get_of_copies (suc l.seq) l.pending (ground (arith, v.counted (suc l.seq)))

abbrev own : ℕ → Call
own id = record { promise = id; timer = id }

register-IsSound : (l : Link) → l.closed ≡ false → IsSound l → IsSound (register (suc l.seq) l)
unfolding register
register-IsSound l live v =
    rw (put_new (suc l.seq) (own (suc l.seq)) l.pending (get-next l v)) (record {
      counted = λ k. omega (
        arith,
        copies-append k l.pending (suc l.seq) (own (suc l.seq)),
        issued-suc k l.seq,
        v.counted k,
      );
      owned = All-append IsOwn l.pending _ v.owned ((refl, refl), tt);
      armed = ap (λ ts. ts ++ suc l.seq ∷ []) v.armed ∙ sym (keys-append l.pending (suc l.seq) _);
      quiet = λ q. cc;
    })

get-register : (id : ℕ) (l : Link) → get id (register id l).pending ≡ some (own id)
unfolding register
get-register id l = rw get-put (ground arith)

unregister-IsSound :
    (id : ℕ) (e : Text) (l : Link)
    → get id l.pending ≡ some (own id)
    → IsSound l
    → IsSound (unregister id e l)
unfolding unregister
unregister-IsSound id e l there v =
    settle-IsSound l id id (own id) (rejected id e) refl there (λ k. refl) v

send_relay-IsSound :
    (id : ℕ) (r : Request) (s : Channel) (l : Link)
    → l.socket ≡ s
    → get id l.pending ≡ some (own id)
    → IsSound l
    → IsSound (send_relay id r l)
unfolding send_relay
send_relay-IsSound id r connecting l e there v =
    rw (e, send_relay) (unregister-IsSound id bad_state l there v)
send_relay-IsSound id r open_now l e there v =
    rw (e, send_relay) (Keeps-IsSound (note-Keeps (sent_relay id r) l (λ k. refl)) v)
send_relay-IsSound id r closing l e there v = rw (e, send_relay) v
send_relay-IsSound id r shut l e there v = rw (e, send_relay) v

transmit-IsSound :
    (id : ℕ) (r : Request) (l : Link)
    → get id l.pending ≡ some (own id)
    → IsSound l
    → IsSound (transmit id r l)
unfolding transmit send_direct
transmit-IsSound id r l there v =
    if_both IsSound (not l.relay && is_open l.channel) _ _
      (λ q.
        if_both IsSound l.channel_full _ _ (λ p. unregister-IsSound id not_sent l there v)
          (λ p. Keeps-IsSound (note-Keeps (sent_direct id r) l (λ k. refl)) v))
      (λ q.
        send_relay-IsSound id r (use_relay l).socket (use_relay l) refl
          (rw (use_relay-Keeps l).pending_same there) (Keeps-IsSound (use_relay-Keeps l) v))

pub issue-IsSound : (r : Request) (l : Link) → IsSound l → IsSound (issue r l)
unfolding issue
issue-IsSound r l v =
    if_both IsSound l.closed _ _
      (λ q. Keeps-IsSound (note-Keeps (refused r session_closed) l (λ k. refl)) v)
      (λ live.
        transmit-IsSound (suc l.seq) r (register (suc l.seq) l) (get-register (suc l.seq) l)
          (register-IsSound l live v))

with_waiting-Keeps : (rs : List Request) (l : Link) → Keeps l (record l { waiting = rs })
with_waiting-Keeps rs l = record {
  seq_same = refl;
  pending_same = refl;
  timers_same = refl;
  closed_same = refl;
  settled_same = λ k. refl;
}

pub call-IsSound : (r : Request) (l : Link) → IsSound l → IsSound (call r l)
unfolding call
call-IsSound r l v = Keeps-IsSound (with_waiting-Keeps _ l) v

Ready-cases : (s : Ready) → (s ≡ undecided) ⊎ (s ≡ opened) ⊎ ((e : Text) × (s ≡ broken e))
Ready-cases undecided = inl refl
Ready-cases opened = inr (inl refl)
Ready-cases (broken e) = inr (inr (e, refl))

resume_with-IsSound : (rs : List Request) (l : Link) → IsSound l → IsSound (resume_with rs l)
unfolding resume_with
resume_with-IsSound [] l v = v
resume_with-IsSound (r ∷ rs) l v = elim (Ready-cases l.ready) [
  | inl e ↦ rw (e, resume_with) v
  | inr (inl e) ↦
      rw (e, resume_with) (issue-IsSound r _ (Keeps-IsSound (with_waiting-Keeps rs l) v))
  | inr (inr (x, e)) ↦
      rw (e, resume_with)
        (Keeps-IsSound (note-Keeps (refused r x) (record l { waiting = rs }) (λ k. refl))
          (Keeps-IsSound (with_waiting-Keeps rs l) v))
]

pub resume-IsSound : (l : Link) → IsSound l → IsSound (resume l)
unfolding resume
resume-IsSound l v = resume_with-IsSound l.waiting l v

is_armed-keys : (id : ℕ) (m : Table Call) → get id m ≡ none → is_armed id (keys m) ≡ false
unfolding get is_armed
is_armed-keys id [] h = refl
is_armed-keys id ((j, c) ∷ m) h = ground (arith, is_armed-keys id m)

pub expire-IsSound : (id : ℕ) (l : Link) → IsSound l → IsSound (expire id l)
unfolding expire
expire-IsSound id l v =
    if_both IsSound (is_armed id l.timers) _ _
      (λ q. elim (Option-cases (get id l.pending)) [
        | inl missing ↦
            absurd (clash (ap (is_armed id) v.armed ∙ is_armed-keys id l.pending missing) q)
        | inr (c, there) ↦ settle-IsSound l id id c (rejected id timed_out) refl there (λ k. refl) v
      ])
      (λ q. v)
  where
    clash : {b : Bool} → b ≡ false → b ≡ true → ⊥
    clash p q = cc
