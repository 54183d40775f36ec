-- ===== src/Remote/Link/Calls.antt =====
-- `Link.call`: the request waits for `ready`, takes a number and a time limit, and goes over the
-- data channel or, where that is not open, over the socket.
use net_conductor.Base.{
  ℕ, suc, Bool, false, ◌||◌, ◌&&◌, not, List, [], ◌∷◌, ◌++◌, ◌==◌, if◌then◌else◌,
}
use net_conductor.Base.Text.{Text, codes}
use net_conductor.Base.Table.{put, erase}
use net_conductor.Remote.Protocol.{Request}
use net_conductor.Remote.Link.State.{
  rejected, refused, sent_direct, sent_relay, undecided, opened, broken, connecting, open_now,
  closing, shut, Link, note, is_open, disarm, use_relay, session_closed,
}

abbrev pub timed_out : Text
timed_out = codes "操作超时"

abbrev pub not_sent : Text
not_sent = codes "OperationError"

abbrev pub bad_state : Text
bad_state = codes "InvalidStateError"

-- The call up to `await this.ready`.
unfoldable pub call : Request → Link → Link
call r l = record l { waiting = l.waiting ++ r ∷ [] }

-- `const timer = setTimeout(…, 30000); this.pending.set(id, { resolve, reject, timer })`
unfoldable pub register : ℕ → Link → Link
register id l = record l {
  seq = id;
  timers = l.timers ++ id ∷ [];
  pending = put id (record { promise = id; timer = id }) l.pending;
}

-- The `catch` of the send.
unfoldable pub unregister : ℕ → Text → Link → Link
unregister id e l = record l {
  timers = disarm id l.timers;
  pending = erase id l.pending;
  log = rejected id e ∷ l.log;
}

-- `this.ws.send(…)`: it throws while connecting, and drops the text once the socket closes.
unfoldable pub send_relay : ℕ → Request → Link → Link
send_relay id r l = elim l.socket [
  | connecting ↦ unregister id bad_state l
  | open_now ↦ note (sent_relay id r) l
  | closing ↦ l
  | shut ↦ l
]

unfoldable pub send_direct : ℕ → Request → Link → Link
send_direct id r l = if l.channel_full then unregister id not_sent l else note (sent_direct id r) l

unfoldable pub transmit : ℕ → Request → Link → Link
transmit id r l =
    if not l.relay && is_open l.channel then send_direct id r l else send_relay id r (use_relay l)

-- The call after `await this.ready`.
unfoldable pub issue : Request → Link → Link
issue r l =
    if l.closed
    then note (refused r session_closed) l
    else transmit (suc l.seq) r (register (suc l.seq) l)

-- The oldest call that awaits `ready` goes on, once that is decided.
unfoldable pub resume_with : List Request → Link → Link
resume_with [] l = l
resume_with (r ∷ rs) l = elim l.ready [
  | undecided ↦ l
  | opened ↦ issue r (record l { waiting = rs })
  | broken e ↦ note (refused r e) (record l { waiting = rs })
]

unfoldable pub resume : Link → Link
unfolding resume_with
resume l = resume_with l.waiting l

unfoldable pub is_armed : ℕ → List ℕ → Bool
is_armed h [] = false
is_armed h (t ∷ ts) = t == h || is_armed h ts

-- The time limit of a call passes: `this.pending.delete(id); reject(Error("操作超时"))`.
unfoldable pub expire : ℕ → Link → Link
unfolding is_armed
expire id l =
    if is_armed id l.timers
    then record l {
      timers = disarm id l.timers;
      pending = erase id l.pending;
      log = rejected id timed_out ∷ l.log;
    }
    else l
