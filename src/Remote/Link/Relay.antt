-- ===== src/Remote/Link/Relay.antt =====
-- A link that was switched to the relay: what the operations of `Link` leave as it is.
pub mod Run
use net_conductor.Base.{
  ℕ, zero, suc, ◌+◌, ◌≡◌, refl, inl, inr, Bool, true, false, ◌&&◌, Option, none, some, List, [],
  ◌∷◌, if◌then◌else◌, arith, if_both, Option-cases,
}
use net_conductor.Base.Text.{Text}
use net_conductor.Base.Table.{Table, get, erase}
use net_conductor.Remote.Base64.{Bytes, decode}
use net_conductor.Remote.Protocol.{Message, chunk, result, event, Request, Reply}
use net_conductor.Remote.Link.State.{
  Effect, status, delivered, resolved, rejected, refused, sent_direct, sent_relay, sent_offer,
  sent_ping, closed_socket, closed_peer, Channel, connecting, open_now, closing, shut, Part, Link,
  Call, use_relay, reject_all, shut_down, close, fail, session_closed,
}
use net_conductor.Remote.Link.Receive.{
  Next, finished, Outcome, done, thrown, out_of_fuel, part_of, begin_part, on_result, finish_part,
  add_chunk, on_chunk, receive_step, receive, receive_all, bad_json, too_large, sized, grown,
  grown_part, over_limit, fill, zeros,
}
use net_conductor.Remote.Link.Calls.{
  call, register, unregister, send_relay, send_direct, transmit, issue, resume_with, resume,
  is_armed, expire,
}
use net_conductor.Remote.Link.Events.{
  Signal, answer, relayed, failure, unknown, garbage, Report, Event, channel_changed,
  channel_filled, peer_lost, direct_text, socket_opened, negotiated, socket_text, socket_closed,
  socket_failed, fallback_due, keepalive_due, stats_due, reported, called, resumed, expired,
  left_page, on_channel_open, on_channel, on_socket_open, on_negotiated, on_fallback, on_keepalive,
  on_stats, show_report, show_reports, on_reports_at, on_reports, on_direct, catch, on_signal, step,
  run, lost, unreachable,
}
use net_conductor.Remote.Link.Termination.{Next-cases}

abbrev directly : Effect → ℕ
directly (status s) = 0
directly (delivered t d) = 0
directly (resolved id v) = 0
directly (rejected id e) = 0
directly (refused r e) = 0
directly (sent_direct id r) = 1
directly (sent_relay id r) = 0
directly sent_offer = 0
directly sent_ping = 0
directly closed_socket = 0
directly closed_peer = 0

-- How many calls were sent over the data channel.
abbrev pub directs : List Effect → ℕ
directs [] = 0
directs (e ∷ es) = directly e + directs es

-- A relayed link with `n` calls sent over the data channel before.
pub record IsRelayed (n : ℕ) (l : Link) : Type 0 where
  pub relayed : l.relay ≡ true
  pub counted : directs l.log ≡ n

pub use_relay-IsRelayed : (n : ℕ) (l : Link) → IsRelayed n l → IsRelayed n (use_relay l)
unfolding use_relay
use_relay-IsRelayed n l v = ground arith

reject_all-IsRelayed :
    (n : ℕ) (e : Text) (m : Table Call) (l : Link) → IsRelayed n l → IsRelayed n (reject_all e m l)
unfolding reject_all
reject_all-IsRelayed n e [] l v = v
reject_all-IsRelayed n e ((k, c) ∷ m) l v =
    reject_all-IsRelayed n e m _
      (record { relayed = v.relayed; counted = omega (arith, v.counted) })

shut_down-IsRelayed : (n : ℕ) (e : Text) (l : Link) → IsRelayed n l → IsRelayed n (shut_down e l)
unfolding shut_down
shut_down-IsRelayed n e l v =
    let w =
      reject_all-IsRelayed n e l.pending
        (record l { closed = true; fallback = false; keepalive = false; stats = false })
        (record { relayed = v.relayed; counted = v.counted }) in
    record { relayed = w.relayed; counted = omega (arith, w.counted) }

pub close-IsRelayed : (n : ℕ) (e : Text) (l : Link) → IsRelayed n l → IsRelayed n (close e l)
unfolding close
close-IsRelayed n e l v =
    if_both (IsRelayed n) l.closed l (shut_down e l) (λ q. v) (λ q. shut_down-IsRelayed n e l v)

pub fail-IsRelayed : (n : ℕ) (e : Text) (l : Link) → IsRelayed n l → IsRelayed n (fail e l)
unfolding fail
fail-IsRelayed n e l v =
    if_both (IsRelayed n) l.closed l _ (λ q. v)
      (λ q.
        close-IsRelayed n e _ (record { relayed = v.relayed; counted = omega (arith, v.counted) }))

on_result-IsRelayed :
    (n id : ℕ) (ok : Bool) (r : Reply) (x : Text) (l : Link)
    → IsRelayed n l
    → IsRelayed n (on_result (result id ok r x) l)
unfolding on_result
on_result-IsRelayed n id ok r x l v = ground arith

begin_part-IsRelayed : (n c : ℕ) (l : Link) → IsRelayed n l → IsRelayed n (begin_part c l)
unfolding begin_part
begin_part-IsRelayed n c l v = ground arith

module _ (parse : Bytes → Option Message) where
  finish_part-IsRelayed :
      (n c : ℕ) (p : Part) (l : Link) → IsRelayed n l → IsRelayed n (finish_part parse c p l).0
  unfolding finish_part
  finish_part-IsRelayed n c p l v = elim (Option-cases (fill p.buffers (zeros p.size) 0)) [
    | inl bad ↦ rw (bad, finish_part) (record { relayed = v.relayed; counted = v.counted })
    | inr (whole, made) ↦ elim (Option-cases (parse whole)) [
      | inl bad ↦
          rw (made, finish_part)
            (rw (bad, finish_part) (record { relayed = v.relayed; counted = v.counted }))
      | inr (m, read) ↦
          rw (made, finish_part)
            (rw (read, finish_part) (record { relayed = v.relayed; counted = v.counted }))
    ]
  ]

  add_chunk-IsRelayed :
      (n c : ℕ) (p : Part) (b : Bytes) (last : Bool) (l : Link)
      → IsRelayed n l
      → IsRelayed n (add_chunk parse c p b last l).0
  unfolding add_chunk
  add_chunk-IsRelayed n c p b last l v =
      let more : IsRelayed n (grown c p b l) = record {
        relayed = v.relayed;
        counted = v.counted;
      } in
      if_both (λ (r : Link × Next). IsRelayed n r.0) (over_limit p b (sized c p b l))
        (fail too_large (sized c p b l), finished)
        (if last
          then finish_part parse c (grown_part p b) (grown c p b l)
          else (grown c p b l, finished))
        (λ q.
          fail-IsRelayed n too_large (sized c p b l)
            (record { relayed = v.relayed; counted = v.counted }))
        (λ q.
          if_both (λ (r : Link × Next). IsRelayed n r.0) last
            (finish_part parse c (grown_part p b) (grown c p b l)) (grown c p b l, finished)
            (λ w. finish_part-IsRelayed n c (grown_part p b) (grown c p b l) more) (λ w. more))

  receive_step-IsRelayed :
      (n : ℕ) (m : Message) (l : Link) → IsRelayed n l → IsRelayed n (receive_step parse m l).0
  unfolding receive_step on_chunk
  receive_step-IsRelayed n (chunk c d last) l v = elim (Option-cases (decode d)) [
    | inl bad ↦ rw (bad, on_chunk) (begin_part-IsRelayed n c l v)
    | inr (b, good) ↦
        rw (good, on_chunk)
          (add_chunk-IsRelayed n c (part_of (get c l.parts)) b last (begin_part c l)
            (begin_part-IsRelayed n c l v))
  ]
  receive_step-IsRelayed n (result id ok r x) l v = on_result-IsRelayed n id ok r x l v
  receive_step-IsRelayed n (event t d) l v = record {
    relayed = v.relayed;
    counted = omega (arith, v.counted);
  }

  receive-IsRelayed :
      (n fuel : ℕ) (m : Message) (l : Link) → IsRelayed n l → IsRelayed n (receive parse fuel m l).0
  unfolding receive
  receive-IsRelayed n zero m l v = v
  receive-IsRelayed n (suc fuel) m l v = elim (Next-cases (receive_step parse m l).1) [
    | inl e ↦ rw (e, receive) (receive_step-IsRelayed n m l v)
    | inr (inl (x, e)) ↦ rw (e, receive) (receive_step-IsRelayed n m l v)
    | inr (inr (m', e)) ↦
        rw (e, receive)
          (receive-IsRelayed n fuel m' (receive_step parse m l).0 (receive_step-IsRelayed n m l v))
  ]

  pub receive_all-IsRelayed :
      (n : ℕ) (m : Message) (l : Link) → IsRelayed n l → IsRelayed n (receive_all parse m l).0
  unfolding receive_all
  receive_all-IsRelayed n m l v = receive-IsRelayed n _ m l v
