-- ===== src/Remote/Link/Closed.antt =====
-- What a link still does once it is closed.
use net_conductor.Base.{
  ℕ, zero, suc, ◌+◌, ◌≡◌, inl, inr, Bool, true, false, ◌&&◌, Option, none, some, List, [], ◌∷◌,
  if◌then◌else◌, arith, if_both, Option-cases,
}
use net_conductor.Base.Text.{Text}
use net_conductor.Base.Table.{get}
use net_conductor.Remote.Base64.{Bytes, decode}
use net_conductor.Remote.Protocol.{Message, chunk, result, event, Request}
use net_conductor.Remote.Link.State.{
  Effect, status, delivered, resolved, rejected, refused, sent_direct, sent_relay, sent_offer,
  sent_ping, closed_socket, closed_peer, Channel, connecting, open_now, closing, shut, Part, Link,
  use_relay, close, fail, session_closed,
}
use net_conductor.Remote.Link.Receive.{
  Next, finished, Outcome, done, thrown, out_of_fuel, part_of, begin_part, on_result, finish_part,
  add_chunk, on_chunk, receive_step, receive, receive_all, bad_json, too_large, sized, grown,
  grown_part, over_limit,
}
use net_conductor.Remote.Link.Calls.{call, issue, resume_with, resume, is_armed, expire}
use net_conductor.Remote.Link.Events.{
  Signal, answer, relayed, failure, unknown, garbage, Report, Event, channel_changed,
  channel_filled, peer_lost, direct_text, socket_opened, negotiated, socket_text, socket_closed,
  socket_failed, fallback_due, keepalive_due, stats_due, reported, called, resumed, expired,
  left_page, on_channel, on_socket_open, on_negotiated, on_fallback, on_keepalive, on_stats,
  show_report, show_reports, on_reports_at, on_reports, on_direct, catch, on_signal, step, run,
  lost, unreachable,
}
use net_conductor.Remote.Link.Termination.{Next-cases}

-- An effect on the network or on a call that has a number. The others write a status line, pass a
-- message to the page, or refuse a call that has no number.
abbrev acts : Effect → ℕ
acts (status s) = 0
acts (delivered t d) = 0
acts (resolved id v) = 1
acts (rejected id e) = 1
acts (refused r e) = 0
acts (sent_direct id r) = 1
acts (sent_relay id r) = 1
acts sent_offer = 1
acts sent_ping = 1
acts closed_socket = 1
acts closed_peer = 1

abbrev pub activity : List Effect → ℕ
activity [] = 0
activity (e ∷ es) = acts e + activity es

abbrev pub has_ended : Channel → Bool
has_ended connecting = false
has_ended open_now = false
has_ended closing = true
has_ended shut = true

-- A closed link whose log shows `n` acts and which has given out `s` numbers.
pub record IsShut (n s : ℕ) (l : Link) : Type 0 where
  pub is_closed : l.closed ≡ true
  pub no_channel : l.channel ≡ shut
  pub no_socket : has_ended l.socket ≡ true
  pub no_calls : l.pending ≡ []
  pub no_limits : l.timers ≡ []
  pub no_ping : l.keepalive ≡ false
  pub acted : activity l.log ≡ n
  pub numbered : l.seq ≡ s

module _ {n s : ℕ} where
  fail-IsShut : (e : Text) (l : Link) → IsShut n s l → IsShut n s (fail e l)
  unfolding fail
  fail-IsShut e l v = ground arith

  close-IsShut : (e : Text) (l : Link) → IsShut n s l → IsShut n s (close e l)
  unfolding close
  close-IsShut e l v = ground arith

  use_relay-IsShut : (l : Link) → IsShut n s l → IsShut n s (use_relay l)
  unfolding use_relay
  use_relay-IsShut l v = ground arith

  with_parts-IsShut :
      (l : Link) (m : List (ℕ × Part)) → IsShut n s l → IsShut n s (record l { parts = m })
  with_parts-IsShut l m v = ground arith

  on_channel-IsShut : (c : Channel) (l : Link) → IsShut n s l → IsShut n s (on_channel c l)
  unfolding on_channel
  on_channel-IsShut c l v = ground arith

  on_socket_open-IsShut : (l : Link) → IsShut n s l → IsShut n s (on_socket_open l)
  unfolding on_socket_open
  on_socket_open-IsShut l v = ground arith

  on_negotiated-IsShut :
      (e : Option Text) (l : Link) → IsShut n s l → IsShut n s (on_negotiated e l)
  unfolding on_negotiated
  on_negotiated-IsShut none l v = ground arith
  on_negotiated-IsShut (some e) l v = fail-IsShut e l v

  on_fallback-IsShut : (l : Link) → IsShut n s l → IsShut n s (on_fallback l)
  unfolding on_fallback use_relay
  on_fallback-IsShut l v = ground arith

  on_keepalive-IsShut : (l : Link) → IsShut n s l → IsShut n s (on_keepalive l)
  unfolding on_keepalive
  on_keepalive-IsShut l v = ground arith

  on_stats-IsShut : (l : Link) → IsShut n s l → IsShut n s (on_stats l)
  unfolding on_stats
  on_stats-IsShut l v = ground arith

  show_reports-IsShut :
      (rs : List Report) (l : Link) → IsShut n s l → IsShut n s (show_reports rs l)
  unfolding show_reports
  show_reports-IsShut [] l v = v
  show_reports-IsShut (r ∷ rs) l v = show_reports-IsShut rs (show_report r l) (
      if_both (IsShut n s) (r.candidate_pair && (r.succeeded && r.nominated)) _ l
        (λ q. ground arith) (λ q. v))

  on_reports_at-IsShut :
      (k : ℕ) (rs : List Report) (l : Link) → IsShut n s l → IsShut n s (on_reports_at k rs l)
  unfolding on_reports_at
  on_reports_at-IsShut zero rs l v = v
  on_reports_at-IsShut (suc k) rs l v =
      show_reports-IsShut rs (record l { polls = k }) (ground arith)

  resume_with-IsShut : (rs : List Request) (l : Link) → IsShut n s l → IsShut n s (resume_with rs l)
  unfolding resume_with issue
  resume_with-IsShut [] l v = v
  resume_with-IsShut (r ∷ rs) l v = ground arith

  expire-IsShut : (id : ℕ) (l : Link) → IsShut n s l → IsShut n s (expire id l)
  unfolding expire
  expire-IsShut id l v = let e : is_armed id l.timers ≡ false = rw v.no_limits in rw e v

  on_result-IsShut : (m : Message) (l : Link) → IsShut n s l → IsShut n s (on_result m l)
  unfolding on_result get
  on_result-IsShut (result id ok r x) l v =
      let e : get id l.pending ≡ none = rw v.no_calls in rw (e, on_result) v
  on_result-IsShut (chunk c d last) l v = v
  on_result-IsShut (event t d) l v = v

module _ {n s : ℕ} (parse : Bytes → Option Message) where
  finish_part-IsShut :
      (c : ℕ) (p : Part) (l : Link) → IsShut n s l → IsShut n s (finish_part parse c p l).0
  unfolding finish_part
  finish_part-IsShut c p l v = ground arith

  add_chunk-IsShut :
      (c : ℕ) (p : Part) (b : Bytes) (last : Bool) (l : Link)
      → IsShut n s l
      → IsShut n s (add_chunk parse c p b last l).0
  unfolding add_chunk
  add_chunk-IsShut c p b last l v =
      if_both (λ (r : Link × Next). IsShut n s r.0) (over_limit p b (sized c p b l))
        (fail too_large (sized c p b l), finished)
        (if last
          then finish_part parse c (grown_part p b) (grown c p b l)
          else (grown c p b l, finished))
        (λ q. fail-IsShut too_large (sized c p b l) (with_parts-IsShut l (sized c p b l).parts v))
        (λ q.
          if_both (λ (r : Link × Next). IsShut n s r.0) last
            (finish_part parse c (grown_part p b) (grown c p b l)) (grown c p b l, finished)
            (λ w.
              finish_part-IsShut c (grown_part p b) (grown c p b l)
                (with_parts-IsShut l (grown c p b l).parts v))
            (λ w. with_parts-IsShut l (grown c p b l).parts v))

  begin_part-IsShut : (c : ℕ) (l : Link) → IsShut n s l → IsShut n s (begin_part c l)
  unfolding begin_part
  begin_part-IsShut c l v = ground arith

  receive_step-IsShut :
      (m : Message) (l : Link) → IsShut n s l → IsShut n s (receive_step parse m l).0
  unfolding receive_step on_chunk
  receive_step-IsShut (chunk c d last) l v = elim (Option-cases (decode d)) [
    | inl bad ↦ rw (bad, on_chunk) (begin_part-IsShut c l v)
    | inr (b, good) ↦
        rw (good, on_chunk)
          (add_chunk-IsShut c (part_of (get c l.parts)) b last (begin_part c l)
            (begin_part-IsShut c l v))
  ]
  receive_step-IsShut (result id ok r x) l v = on_result-IsShut (result id ok r x) l v
  receive_step-IsShut (event t d) l v = ground arith

  receive-IsShut :
      (fuel : ℕ) (m : Message) (l : Link) → IsShut n s l → IsShut n s (receive parse fuel m l).0
  unfolding receive
  receive-IsShut zero m l v = v
  receive-IsShut (suc fuel) m l v = elim (Next-cases (receive_step parse m l).1) [
    | inl e ↦ rw (e, receive) (receive_step-IsShut m l v)
    | inr (inl (x, e)) ↦ rw (e, receive) (receive_step-IsShut m l v)
    | inr (inr (m', e)) ↦
        rw (e, receive)
          (receive-IsShut fuel m' (receive_step parse m l).0 (receive_step-IsShut m l v))
  ]

  receive_all-IsShut :
      (m : Message) (l : Link) → IsShut n s l → IsShut n s (receive_all parse m l).0
  unfolding receive_all
  receive_all-IsShut m l v = receive-IsShut _ m l v

  catch-IsShut : (r : Link × Outcome) → IsShut n s r.0 → IsShut n s (catch parse r)
  catch-IsShut (l, done) v = v
  catch-IsShut (l, thrown e) v = fail-IsShut e l v
  catch-IsShut (l, out_of_fuel) v = v

  on_signal-IsShut : (g : Signal) (l : Link) → IsShut n s l → IsShut n s (on_signal parse g l)
  unfolding on_signal
  on_signal-IsShut (answer none) l v = v
  on_signal-IsShut (answer (some e)) l v =
      if_both (IsShut n s) l.closed l (fail e l) (λ q. v) (λ q. fail-IsShut e l v)
  on_signal-IsShut (relayed m) l v = catch-IsShut (receive_all parse m l) (receive_all-IsShut m l v)
  on_signal-IsShut (failure e) l v = fail-IsShut e l v
  on_signal-IsShut unknown l v = v
  on_signal-IsShut garbage l v = fail-IsShut bad_json l v

  step-IsShut : (e : Event) (l : Link) → IsShut n s l → IsShut n s (step parse e l)
  unfolding step on_direct on_reports call resume
  step-IsShut (channel_changed c) l v = on_channel-IsShut c l v
  step-IsShut (channel_filled b) l v = ground arith
  step-IsShut peer_lost l v = use_relay-IsShut l v
  step-IsShut (direct_text none) l v = v
  step-IsShut (direct_text (some m)) l v = receive_all-IsShut m l v
  step-IsShut socket_opened l v = on_socket_open-IsShut l v
  step-IsShut (negotiated e) l v = on_negotiated-IsShut e l v
  step-IsShut (socket_text g) l v = on_signal-IsShut g l v
  step-IsShut socket_closed l v = fail-IsShut lost (record l { socket = shut }) (ground arith)
  step-IsShut socket_failed l v = fail-IsShut unreachable l v
  step-IsShut fallback_due l v = on_fallback-IsShut l v
  step-IsShut keepalive_due l v = on_keepalive-IsShut l v
  step-IsShut stats_due l v = on_stats-IsShut l v
  step-IsShut (reported rs) l v = on_reports_at-IsShut l.polls rs l v
  step-IsShut (called r) l v = ground arith
  step-IsShut resumed l v = resume_with-IsShut l.waiting l v
  step-IsShut (expired id) l v = expire-IsShut id l v
  step-IsShut left_page l v = close-IsShut session_closed l v

  pub run-IsShut : (es : List Event) (l : Link) → IsShut n s l → IsShut n s (run parse es l)
  unfolding run
  run-IsShut [] l v = v
  run-IsShut (e ∷ es) l v = run-IsShut es (step parse e l) (step-IsShut e l v)
