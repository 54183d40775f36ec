-- ===== src/Remote/Link/Relay/Run.antt =====
-- A relayed link stays so, and sends nothing over the data channel.
use net_conductor.Base.{
  ℕ, zero, suc, ◌≡◌, ◌≢◌, not, refl, Bool, true, ◌&&◌, Option, none, some, List, [], ◌∷◌, arith,
  if_both,
}
use net_conductor.Remote.Base64.{Bytes}
use net_conductor.Remote.Protocol.{Message, Request}
use net_conductor.Remote.Link.State.{Channel, shut, Link, is_open, use_relay, fail, session_closed}
use net_conductor.Remote.Link.Receive.{Outcome, done, thrown, out_of_fuel, receive_all, bad_json}
use net_conductor.Remote.Link.Calls.{
  call, register, unregister, send_relay, send_direct, transmit, issue, resume_with, resume, expire,
}
use net_conductor.Remote.Link.Events.{
  Signal, answer, relayed, failure, unknown, garbage, Report, Event, channel_changed,
  channel_filled, peer_lost, direct_text, socket_opened, negotiated, socket_text, socket_closed,
  socket_failed, fallback_due, keepalive_due, stats_due, reported, called, resumed, expired,
  left_page, on_channel_open, on_channel, on_socket_open, on_negotiated, on_fallback, on_keepalive,
  on_stats, show_report, show_reports, on_reports_at, on_reports, on_direct, catch, on_signal, step,
  run, lost, unreachable,
}
use net_conductor.Remote.Link.Relay.{
  directs, IsRelayed, use_relay-IsRelayed, close-IsRelayed, fail-IsRelayed, receive_all-IsRelayed,
}

on_channel-IsRelayed :
    (n : ℕ) (c : Channel) (l : Link) → IsRelayed n l → IsRelayed n (on_channel c l)
unfolding on_channel on_channel_open
on_channel-IsRelayed n c l v = ground arith

on_socket_open-IsRelayed : (n : ℕ) (l : Link) → IsRelayed n l → IsRelayed n (on_socket_open l)
unfolding on_socket_open
on_socket_open-IsRelayed n l v = ground arith

on_negotiated-IsRelayed : (n : ℕ) (l : Link) → IsRelayed n l → IsRelayed n (on_negotiated none l)
unfolding on_negotiated
on_negotiated-IsRelayed n l v = ground arith

on_fallback-IsRelayed : (n : ℕ) (l : Link) → IsRelayed n l → IsRelayed n (on_fallback l)
unfolding on_fallback use_relay
on_fallback-IsRelayed n l v = ground arith

on_keepalive-IsRelayed : (n : ℕ) (l : Link) → IsRelayed n l → IsRelayed n (on_keepalive l)
unfolding on_keepalive
on_keepalive-IsRelayed n l v = ground arith

on_stats-IsRelayed : (n : ℕ) (l : Link) → IsRelayed n l → IsRelayed n (on_stats l)
unfolding on_stats
on_stats-IsRelayed n l v = ground arith

show_report-IsRelayed :
    (n : ℕ) (r : Report) (l : Link) → IsRelayed n l → IsRelayed n (show_report r l)
unfolding show_report
show_report-IsRelayed n r l v =
    if_both (IsRelayed n) (r.candidate_pair && (r.succeeded && r.nominated)) _ l
      (λ q. record { relayed = v.relayed; counted = omega (arith, v.counted) }) (λ q. v)

show_reports-IsRelayed :
    (n : ℕ) (rs : List Report) (l : Link) → IsRelayed n l → IsRelayed n (show_reports rs l)
unfolding show_reports
show_reports-IsRelayed n [] l v = v
show_reports-IsRelayed n (r ∷ rs) l v =
    show_reports-IsRelayed n rs (show_report r l) (show_report-IsRelayed n r l v)

on_reports_at-IsRelayed :
    (n k : ℕ) (rs : List Report) (l : Link) → IsRelayed n l → IsRelayed n (on_reports_at k rs l)
unfolding on_reports_at
on_reports_at-IsRelayed n zero rs l v = v
on_reports_at-IsRelayed n (suc k) rs l v =
    show_reports-IsRelayed n rs (record l { polls = k })
      (record { relayed = v.relayed; counted = v.counted })

send_relay-IsRelayed :
    (n id : ℕ) (r : Request) (l : Link) → IsRelayed n l → IsRelayed n (send_relay id r l)
unfolding send_relay unregister
send_relay-IsRelayed n id r l v = ground arith

transmit-IsRelayed :
    (n id : ℕ) (r : Request) (l : Link) → IsRelayed n l → IsRelayed n (transmit id r l)
unfolding transmit
transmit-IsRelayed n id r l v =
    if_both (IsRelayed n) (not l.relay && is_open l.channel) (send_direct id r l)
      (send_relay id r (use_relay l))
      (λ q. elim (not_direct l.relay (is_open l.channel) v.relayed q) [ ])
      (λ q. send_relay-IsRelayed n id r (use_relay l) (use_relay-IsRelayed n l v))
  where
    not_direct : (a b : Bool) → a ≡ true → (not a && b) ≢ true
    not_direct a b h q = ground arith

issue-IsRelayed : (n : ℕ) (r : Request) (l : Link) → IsRelayed n l → IsRelayed n (issue r l)
unfolding issue register
issue-IsRelayed n r l v =
    if_both (IsRelayed n) l.closed _ (transmit (suc l.seq) r (register (suc l.seq) l))
      (λ q. record { relayed = v.relayed; counted = omega (arith, v.counted) })
      (λ q.
        transmit-IsRelayed n (suc l.seq) r (register (suc l.seq) l)
          (record { relayed = v.relayed; counted = v.counted }))

resume_with-IsRelayed :
    (n : ℕ) (rs : List Request) (l : Link) → IsRelayed n l → IsRelayed n (resume_with rs l)
unfolding resume_with
resume_with-IsRelayed n [] l v = v
resume_with-IsRelayed n (r ∷ rs) l v = ground (
  arith,
  issue-IsRelayed n r (record l { waiting = rs })
      (record { relayed = v.relayed; counted = v.counted }),
)

expire-IsRelayed : (n id : ℕ) (l : Link) → IsRelayed n l → IsRelayed n (expire id l)
unfolding expire
expire-IsRelayed n id l v = ground arith

module _ (parse : Bytes → Option Message) where
  catch-IsRelayed : (n : ℕ) (r : Link × Outcome) → IsRelayed n r.0 → IsRelayed n (catch parse r)
  catch-IsRelayed n (l, done) v = v
  catch-IsRelayed n (l, thrown e) v = fail-IsRelayed n e l v
  catch-IsRelayed n (l, out_of_fuel) v = v

  on_signal-IsRelayed :
      (n : ℕ) (g : Signal) (l : Link) → IsRelayed n l → IsRelayed n (on_signal parse g l)
  unfolding on_signal
  on_signal-IsRelayed n (answer none) l v = v
  on_signal-IsRelayed n (answer (some e)) l v =
      if_both (IsRelayed n) l.closed l (fail e l) (λ q. v) (λ q. fail-IsRelayed n e l v)
  on_signal-IsRelayed n (relayed m) l v =
      catch-IsRelayed n (receive_all parse m l) (receive_all-IsRelayed parse n m l v)
  on_signal-IsRelayed n (failure e) l v = fail-IsRelayed n e l v
  on_signal-IsRelayed n unknown l v = v
  on_signal-IsRelayed n garbage l v = fail-IsRelayed n bad_json l v

  step-IsRelayed : (n : ℕ) (e : Event) (l : Link) → IsRelayed n l → IsRelayed n (step parse e l)
  unfolding step on_direct on_reports call resume on_negotiated
  step-IsRelayed n (channel_changed c) l v = on_channel-IsRelayed n c l v
  step-IsRelayed n (channel_filled b) l v = record { relayed = v.relayed; counted = v.counted }
  step-IsRelayed n peer_lost l v = use_relay-IsRelayed n l v
  step-IsRelayed n (direct_text none) l v = v
  step-IsRelayed n (direct_text (some m)) l v = receive_all-IsRelayed parse n m l v
  step-IsRelayed n socket_opened l v = on_socket_open-IsRelayed n l v
  step-IsRelayed n (negotiated none) l v = on_negotiated-IsRelayed n l v
  step-IsRelayed n (negotiated (some e)) l v = fail-IsRelayed n e l v
  step-IsRelayed n (socket_text g) l v = on_signal-IsRelayed n g l v
  step-IsRelayed n socket_closed l v =
      fail-IsRelayed n lost (record l { socket = shut })
        (record { relayed = v.relayed; counted = v.counted })
  step-IsRelayed n socket_failed l v = fail-IsRelayed n unreachable l v
  step-IsRelayed n fallback_due l v = on_fallback-IsRelayed n l v
  step-IsRelayed n keepalive_due l v = on_keepalive-IsRelayed n l v
  step-IsRelayed n stats_due l v = on_stats-IsRelayed n l v
  step-IsRelayed n (reported rs) l v = on_reports_at-IsRelayed n l.polls rs l v
  step-IsRelayed n (called r) l v = record { relayed = v.relayed; counted = v.counted }
  step-IsRelayed n resumed l v = resume_with-IsRelayed n l.waiting l v
  step-IsRelayed n (expired id) l v = expire-IsRelayed n id l v
  step-IsRelayed n left_page l v = close-IsRelayed n session_closed l v

  run-IsRelayed :
      (n : ℕ) (es : List Event) (l : Link) → IsRelayed n l → IsRelayed n (run parse es l)
  unfolding run
  run-IsRelayed n [] l v = v
  run-IsRelayed n (e ∷ es) l v = run-IsRelayed n es (step parse e l) (step-IsRelayed n e l v)

  -- From any state of the link in which `relay` is set, whatever events follow, also the opening of
  -- the data channel: `relay` stays set, and no call is sent over the data channel.
  pub relay-final :
      (es : List Event) (l : Link)
      → l.relay ≡ true
      → ((run parse es l).relay ≡ true) × (directs (run parse es l).log ≡ directs l.log)
  relay-final es l q =
      let v : IsRelayed (directs l.log) (run parse es l) =
        run-IsRelayed (directs l.log) es l (record { relayed = q; counted = refl }) in
      (v.relayed, v.counted)
