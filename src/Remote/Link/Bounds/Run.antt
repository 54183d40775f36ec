-- ===== src/Remote/Link/Bounds/Run.antt =====
-- The bound over whole sessions, and what it leaves open.
use net_conductor.Base.{
  ℕ, zero, suc, ◌≡◌, refl, sym, ◌∙◌, false, ◌&&◌, Option, none, some, List, [], ◌∷◌, arith, if_both,
}
use net_conductor.Remote.Base64.{Bytes}
use net_conductor.Remote.Protocol.{Message, Request}
use net_conductor.Remote.Link.State.{Channel, shut, Link, start, use_relay, session_closed}
use net_conductor.Remote.Link.Receive.{Outcome, done, thrown, out_of_fuel, receive_all, bad_json}
use net_conductor.Remote.Link.Calls.{
  call, register, unregister, send_relay, send_direct, transmit, issue, resume_with, resume, expire,
}
use net_conductor.Remote.Link.Events.{
  Signal, answer, relayed, failure, unknown, garbage, Report, Event, channel_changed,
  channel_filled, peer_lost, direct_text, socket_opened, negotiated, socket_text, socket_closed,
  socket_failed, fallback_due, keepalive_due, stats_due, reported, called, resumed, expired,
  left_page, on_channel, on_channel_open, on_socket_open, on_negotiated, on_fallback, on_keepalive,
  on_stats, show_report, show_reports, on_reports_at, on_reports, on_direct, catch, on_signal, step,
  run, lost, unreachable,
}
use net_conductor.Remote.Link.Settled.Closing.{close-closed}
use net_conductor.Remote.Link.Bounds.{
  Holds, IsBounded, clash, fail-IsBounded, receive_all-IsBounded,
}

-- What leaves the parts and the flag `closed` alone.
record Leaves (l l' : Link) : Type 0 where
  parts_same : l'.parts ≡ l.parts
  closed_same : l'.closed ≡ l.closed

Leaves-IsBounded : {l l' : Link} → Leaves l l' → IsBounded l → IsBounded l'
Leaves-IsBounded s v live = rw s.parts_same (v (sym s.closed_same ∙ live))

use_relay-Leaves : (l : Link) → Leaves l (use_relay l)
unfolding use_relay
use_relay-Leaves l = ground arith

on_channel-Leaves : (c : Channel) (l : Link) → Leaves l (on_channel c l)
unfolding on_channel on_channel_open
on_channel-Leaves c l = ground arith

on_socket_open-Leaves : (l : Link) → Leaves l (on_socket_open l)
unfolding on_socket_open
on_socket_open-Leaves l = ground arith

on_negotiated-Leaves : (l : Link) → Leaves l (on_negotiated none l)
unfolding on_negotiated
on_negotiated-Leaves l = ground arith

on_fallback-Leaves : (l : Link) → Leaves l (on_fallback l)
unfolding on_fallback use_relay
on_fallback-Leaves l = ground arith

on_keepalive-Leaves : (l : Link) → Leaves l (on_keepalive l)
unfolding on_keepalive
on_keepalive-Leaves l = ground arith

on_stats-Leaves : (l : Link) → Leaves l (on_stats l)
unfolding on_stats
on_stats-Leaves l = ground arith

show_reports-Leaves : (rs : List Report) (l : Link) → Leaves l (show_reports rs l)
unfolding show_reports show_report
show_reports-Leaves [] l = record { parts_same = refl; closed_same = refl }
show_reports-Leaves (r ∷ rs) l =
    let rest = show_reports-Leaves rs (show_report r l) in
    let first : Leaves l (show_report r l) =
      if_both (Leaves l) (r.candidate_pair && (r.succeeded && r.nominated)) _ l
        (λ q. record { parts_same = refl; closed_same = refl })
        (λ q. record { parts_same = refl; closed_same = refl }) in
    record {
      parts_same = rest.parts_same ∙ first.parts_same;
      closed_same = rest.closed_same ∙ first.closed_same;
    }

on_reports_at-Leaves : (k : ℕ) (rs : List Report) (l : Link) → Leaves l (on_reports_at k rs l)
unfolding on_reports_at
on_reports_at-Leaves zero rs l = record { parts_same = refl; closed_same = refl }
on_reports_at-Leaves (suc k) rs l =
    let rest = show_reports-Leaves rs (record l { polls = k }) in
    record { parts_same = rest.parts_same; closed_same = rest.closed_same }

transmit-Leaves : (id : ℕ) (r : Request) (l : Link) → Leaves l (transmit id r l)
unfolding transmit send_direct send_relay unregister use_relay
transmit-Leaves id r l = ground arith

issue-Leaves : (r : Request) (l : Link) → Leaves l (issue r l)
unfolding issue register
issue-Leaves r l = ground (arith, transmit-Leaves (suc l.seq) r (register (suc l.seq) l))

resume_with-Leaves : (rs : List Request) (l : Link) → Leaves l (resume_with rs l)
unfolding resume_with
resume_with-Leaves [] l = record { parts_same = refl; closed_same = refl }
resume_with-Leaves (r ∷ rs) l = ground (arith, issue-Leaves r (record l { waiting = rs }))

expire-Leaves : (id : ℕ) (l : Link) → Leaves l (expire id l)
unfolding expire
expire-Leaves id l = ground arith

module _ (parse : Bytes → Option Message) where
  catch-IsBounded : (r : Link × Outcome) → IsBounded r.0 → IsBounded (catch parse r)
  catch-IsBounded (l, done) v = v
  catch-IsBounded (l, thrown e) v = fail-IsBounded e l
  catch-IsBounded (l, out_of_fuel) v = v

  on_signal-IsBounded : (g : Signal) (l : Link) → IsBounded l → IsBounded (on_signal parse g l)
  unfolding on_signal
  on_signal-IsBounded (answer none) l v = v
  on_signal-IsBounded (answer (some e)) l v =
      if_both IsBounded l.closed l _ (λ q. v) (λ q. fail-IsBounded e l)
  on_signal-IsBounded (relayed m) l v =
      catch-IsBounded (receive_all parse m l) (receive_all-IsBounded parse m l v)
  on_signal-IsBounded (failure e) l v = fail-IsBounded e l
  on_signal-IsBounded unknown l v = v
  on_signal-IsBounded garbage l v = fail-IsBounded bad_json l

  step-IsBounded : (e : Event) (l : Link) → IsBounded l → IsBounded (step parse e l)
  unfolding step on_direct on_reports call resume on_negotiated
  step-IsBounded (channel_changed c) l v = Leaves-IsBounded (on_channel-Leaves c l) v
  step-IsBounded (channel_filled b) l v = v
  step-IsBounded peer_lost l v = Leaves-IsBounded (use_relay-Leaves l) v
  step-IsBounded (direct_text none) l v = v
  step-IsBounded (direct_text (some m)) l v = receive_all-IsBounded parse m l v
  step-IsBounded socket_opened l v = Leaves-IsBounded (on_socket_open-Leaves l) v
  step-IsBounded (negotiated none) l v = Leaves-IsBounded (on_negotiated-Leaves l) v
  step-IsBounded (negotiated (some e)) l v = fail-IsBounded e l
  step-IsBounded (socket_text g) l v = on_signal-IsBounded g l v
  step-IsBounded socket_closed l v = fail-IsBounded lost (record l { socket = shut })
  step-IsBounded socket_failed l v = fail-IsBounded unreachable l
  step-IsBounded fallback_due l v = Leaves-IsBounded (on_fallback-Leaves l) v
  step-IsBounded keepalive_due l v = Leaves-IsBounded (on_keepalive-Leaves l) v
  step-IsBounded stats_due l v = Leaves-IsBounded (on_stats-Leaves l) v
  step-IsBounded (reported rs) l v = Leaves-IsBounded (on_reports_at-Leaves l.polls rs l) v
  step-IsBounded (called r) l v = v
  step-IsBounded resumed l v = Leaves-IsBounded (resume_with-Leaves l.waiting l) v
  step-IsBounded (expired id) l v = Leaves-IsBounded (expire-Leaves id l) v
  step-IsBounded left_page l v = λ live. elim (clash (close-closed session_closed l) live) [ ]

  run-IsBounded : (es : List Event) (l : Link) → IsBounded l → IsBounded (run parse es l)
  unfolding run
  run-IsBounded [] l v = v
  run-IsBounded (e ∷ es) l v = run-IsBounded es (step parse e l) (step-IsBounded e l v)

  -- After any sequence of events that leaves the link open, the size field of every unfinished
  -- part is the length of its buffers and at most 4 MiB, and all sizes together are at most 16 MiB.
  pub parts-bounded :
      (es : List Event) → (run parse es start).closed ≡ false → Holds (run parse es start).parts
  parts-bounded es live =
      run-IsBounded es start (λ q. record { measured = tt; bounded = omega arith }) live
