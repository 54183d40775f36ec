-- ===== src/Remote/Link/Settled/Run.antt =====
-- The account of calls over whole sessions.
use net_conductor.Base.{
  ℕ, zero, suc, ◌+◌, ◌≤◌, ◌<◌, ◌≡◌, refl, ap, ◌∙◌, true, ◌&&◌, Option, none, some, List, [], ◌∷◌,
  arith, if_both,
}
use net_conductor.Base.Table.{keys}
use net_conductor.Remote.Base64.{Bytes}
use net_conductor.Remote.Protocol.{Message}
use net_conductor.Remote.Link.State.{Channel, shut, Link, start, use_relay, fail, session_closed}
use net_conductor.Remote.Link.Receive.{Outcome, done, thrown, out_of_fuel, bad_json, receive_all}
use net_conductor.Remote.Link.Events.{
  Signal, answer, relayed, failure, unknown, garbage, Report, Event, channel_changed,
  channel_filled, peer_lost, direct_text, socket_opened, negotiated, socket_text, socket_closed,
  socket_failed, fallback_due, keepalive_due, stats_due, reported, called, resumed, expired,
  left_page, on_channel, on_channel_open, on_socket_open, on_negotiated, on_fallback, on_keepalive,
  on_stats, show_report, show_reports, on_reports_at, on_reports, on_direct, catch, on_signal, step,
  run, lost, unreachable,
}
use net_conductor.Remote.Link.Settled.{
  settled, copies, issued, IsSound, start-IsSound, Keeps, note-Keeps, Keeps-IsSound,
}
use net_conductor.Remote.Link.Settled.Closing.{use_relay-Keeps, close-IsSound, fail-IsSound}
use net_conductor.Remote.Link.Settled.Receiving.{receive_all-IsSound}
use net_conductor.Remote.Link.Settled.Calling.{call-IsSound, resume-IsSound, expire-IsSound}

Keeps-refl : (l : Link) → Keeps l l
Keeps-refl l = record {
  seq_same = refl;
  pending_same = refl;
  timers_same = refl;
  closed_same = refl;
  settled_same = λ k. refl;
}

on_channel-Keeps : (c : Channel) (l : Link) → Keeps l (on_channel c l)
unfolding on_channel on_channel_open
on_channel-Keeps c l = ground arith

on_socket_open-Keeps : (l : Link) → Keeps l (on_socket_open l)
unfolding on_socket_open
on_socket_open-Keeps l = ground arith

on_negotiated-Keeps : (l : Link) → Keeps l (on_negotiated none l)
unfolding on_negotiated
on_negotiated-Keeps l = ground arith

on_fallback-Keeps : (l : Link) → Keeps l (on_fallback l)
unfolding on_fallback use_relay
on_fallback-Keeps l = ground arith

on_keepalive-Keeps : (l : Link) → Keeps l (on_keepalive l)
unfolding on_keepalive
on_keepalive-Keeps l = ground arith

on_stats-Keeps : (l : Link) → Keeps l (on_stats l)
unfolding on_stats
on_stats-Keeps l = ground arith

show_report-Keeps : (r : Report) (l : Link) → Keeps l (show_report r l)
unfolding show_report
show_report-Keeps r l =
    if_both (Keeps l) (r.candidate_pair && (r.succeeded && r.nominated)) _ l
      (λ q. note-Keeps _ l (λ k. refl)) (λ q. Keeps-refl l)

show_reports-IsSound : (rs : List Report) (l : Link) → IsSound l → IsSound (show_reports rs l)
unfolding show_reports
show_reports-IsSound [] l v = v
show_reports-IsSound (r ∷ rs) l v =
    show_reports-IsSound rs (show_report r l) (Keeps-IsSound (show_report-Keeps r l) v)

on_reports_at-IsSound :
    (n : ℕ) (rs : List Report) (l : Link) → IsSound l → IsSound (on_reports_at n rs l)
unfolding on_reports_at
on_reports_at-IsSound zero rs l v = v
on_reports_at-IsSound (suc n) rs l v =
    show_reports-IsSound rs (record l { polls = n })
      (record { counted = v.counted; owned = v.owned; armed = v.armed; quiet = v.quiet })

module _ (parse : Bytes → Option Message) where
  catch-IsSound : (r : Link × Outcome) → IsSound r.0 → IsSound (catch parse r)
  catch-IsSound (l, done) v = v
  catch-IsSound (l, thrown e) v = fail-IsSound e l v
  catch-IsSound (l, out_of_fuel) v = v

  on_signal-IsSound : (s : Signal) (l : Link) → IsSound l → IsSound (on_signal parse s l)
  unfolding on_signal
  on_signal-IsSound (answer none) l v = v
  on_signal-IsSound (answer (some e)) l v =
      if_both IsSound l.closed l (fail e l) (λ q. v) (λ q. fail-IsSound e l v)
  on_signal-IsSound (relayed m) l v =
      catch-IsSound (receive_all parse m l) (receive_all-IsSound parse m l v)
  on_signal-IsSound (failure e) l v = fail-IsSound e l v
  on_signal-IsSound unknown l v = v
  on_signal-IsSound garbage l v = fail-IsSound bad_json l v

  -- Every event of the network, the timers and the page keeps the account.
  pub step-IsSound : (e : Event) (l : Link) → IsSound l → IsSound (step parse e l)
  unfolding step on_direct on_negotiated on_reports
  step-IsSound (channel_changed c) l v = Keeps-IsSound (on_channel-Keeps c l) v
  step-IsSound (channel_filled b) l v = record {
    counted = v.counted;
    owned = v.owned;
    armed = v.armed;
    quiet = v.quiet;
  }
  step-IsSound peer_lost l v = Keeps-IsSound (use_relay-Keeps l) v
  step-IsSound (direct_text none) l v = v
  step-IsSound (direct_text (some m)) l v = receive_all-IsSound parse m l v
  step-IsSound socket_opened l v = Keeps-IsSound (on_socket_open-Keeps l) v
  step-IsSound (negotiated none) l v = Keeps-IsSound (on_negotiated-Keeps l) v
  step-IsSound (negotiated (some e)) l v = fail-IsSound e l v
  step-IsSound (socket_text s) l v = on_signal-IsSound s l v
  step-IsSound socket_closed l v =
      fail-IsSound lost (record l { socket = shut })
        (record { counted = v.counted; owned = v.owned; armed = v.armed; quiet = v.quiet })
  step-IsSound socket_failed l v = fail-IsSound unreachable l v
  step-IsSound fallback_due l v = Keeps-IsSound (on_fallback-Keeps l) v
  step-IsSound keepalive_due l v = Keeps-IsSound (on_keepalive-Keeps l) v
  step-IsSound stats_due l v = Keeps-IsSound (on_stats-Keeps l) v
  step-IsSound (reported rs) l v = on_reports_at-IsSound l.polls rs l v
  step-IsSound (called r) l v = call-IsSound r l v
  step-IsSound resumed l v = resume-IsSound l v
  step-IsSound (expired id) l v = expire-IsSound id l v
  step-IsSound left_page l v = close-IsSound session_closed l v

  pub run-IsSound : (es : List Event) (l : Link) → IsSound l → IsSound (run parse es l)
  unfolding run
  run-IsSound [] l v = v
  run-IsSound (e ∷ es) l v = run-IsSound es (step parse e l) (step-IsSound e l v)

  -- After any sequence of events, for every number k: how often the promise of call k was
  -- resolved or rejected and how many entries of `pending` have the key k make one together if k
  -- was given to a call (1 ≤ k ≤ seq), and none otherwise.
  pub settled_once :
      (es : List Event) (k : ℕ)
      → settled k (run parse es start).log + copies k (run parse es start).pending
        ≡ issued k (run parse es start).seq
  settled_once es k = (run-IsSound es start start-IsSound).counted k

  -- After any sequence of events that leaves the link closed, by whatever cause, no call is
  -- pending, no time limit is armed, and the call with the number k, for each k that was given
  -- out, was resolved or rejected exactly once.
  pub closed-settled :
      (es : List Event) (k : ℕ)
      → (run parse es start).closed ≡ true
      → 0 < k
      → k ≤ (run parse es start).seq
      → ((run parse es start).pending ≡ [])
        × ((run parse es start).timers ≡ [])
        × (settled k (run parse es start).log ≡ 1)
  closed-settled es k q pos le =
      all_settled (run parse es start) (run-IsSound es start start-IsSound) k q pos le
    where
      all_settled :
          (l : Link)
          → IsSound l
          → (k : ℕ) → l.closed ≡ true
          → 0 < k
          → k ≤ l.seq
          → (l.pending ≡ []) × (l.timers ≡ []) × (settled k l.log ≡ 1)
      all_settled l v k q pos le = (
        v.quiet q,
        v.armed ∙ ap keys (v.quiet q),
        ground (arith, v.counted k, ap (copies k) (v.quiet q)),
      )
