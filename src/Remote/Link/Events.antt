-- ===== src/Remote/Link/Events.antt =====
-- The handlers that the constructor of `Link` installs, as one step function over the events that
-- the network, the timers and the page cause.
use net_conductor.Base.{
  ℕ, zero, suc, ◌+◌, ◌/◌, Bool, true, false, ◌||◌, ◌&&◌, not, Option, none, some, List, [], ◌∷◌,
  ◌++◌, if◌then◌else◌,
}
use net_conductor.Base.Text.{Text, codes}
use net_conductor.Base.Decimal.{decimal}
use net_conductor.Remote.Base64.{Bytes}
use net_conductor.Remote.Protocol.{Message, Request}
use net_conductor.Remote.Link.State.{
  status, sent_offer, sent_ping, opened, Channel, connecting, open_now, shut, Link, note,
  settle_ready, is_open, use_relay, close, fail, session_closed,
}
use net_conductor.Remote.Link.Receive.{Outcome, done, thrown, out_of_fuel, bad_json, receive_all}
use net_conductor.Remote.Link.Calls.{call, resume, expire}

-- A text on the socket, after `JSON.parse`; `answer e` is the answer with the exception, if any,
-- of `setRemoteDescription`.
pub data Signal : Type 0 where
  answer : Option Text → Signal
  relayed : Message → Signal
  failure : Text → Signal
  unknown : Signal
  garbage : Signal

-- What `getStats` reports of a connection; the round trip is in microseconds.
pub record Report : Type 0 where
  pub candidate_pair : Bool
  pub succeeded : Bool
  pub nominated : Bool
  pub protocol : Option Text
  pub round_trip : ℕ

pub data Event : Type 0 where
  channel_changed : Channel → Event
  channel_filled : Bool → Event
  peer_lost : Event
  direct_text : Option Message → Event
  socket_opened : Event
  negotiated : Option Text → Event
  socket_text : Signal → Event
  socket_closed socket_failed : Event
  fallback_due keepalive_due stats_due : Event
  reported : List Report → Event
  called : Request → Event
  resumed : Event
  expired : ℕ → Event
  left_page : Event

abbrev pub lost : Text
lost = codes "连接已关闭，设备可能离线或客户端需要升级"

abbrev pub unreachable : Text
unreachable = codes "无法建立远程会话，请检查设备状态和登录权限"

-- `dc.onopen`
unfoldable pub on_channel_open : Link → Link
on_channel_open l =
    if l.relay
    then l
    else record l { ready = settle_ready l.ready opened; log = status (codes "P2P 直连") ∷ l.log }

-- A channel that is shut stays so.
unfoldable pub on_channel : Channel → Link → Link
on_channel c l = elim l.channel [
  | shut ↦ l
  | other ↦
      if is_open c then on_channel_open (record l { channel = c }) else record l { channel = c }
]

-- The socket opens once; one that was closed before never does.
unfoldable pub on_socket_open : Link → Link
on_socket_open l = elim l.socket [ connecting ↦ record l { socket = open_now } | other ↦ l ]

-- `ws.onopen` after its two awaits: the offer goes out and the fallback timer starts.
unfoldable pub on_negotiated : Option Text → Link → Link
on_negotiated (some e) l = fail e l
on_negotiated none l = if l.closed then l else record l {
  offered = true;
  fallback = true;
  log = if is_open l.socket then sent_offer ∷ l.log else l.log;
}

unfoldable pub on_fallback : Link → Link
on_fallback l =
    if l.fallback
    then (if is_open l.channel
        then record l { fallback = false }
        else use_relay (record l { fallback = false }))
    else l

unfoldable pub on_keepalive : Link → Link
on_keepalive l = if l.keepalive && is_open l.socket then note sent_ping l else l

unfoldable pub on_stats : Link → Link
on_stats l = if l.stats && not (l.relay || l.closed) then record l { polls = suc l.polls } else l

abbrev pub protocol_of : Option Text → Text
protocol_of none = codes "UDP"
protocol_of (some p) = p

unfoldable pub show_report : Report → Link → Link
show_report r l =
    if r.candidate_pair && (r.succeeded && r.nominated)
    then note
        (status (
          codes "P2P 直连 · "
          ++ (protocol_of r.protocol
              ++ (codes " · " ++ (decimal ((r.round_trip + 500) / 1000) ++ codes " ms")))))
        l
    else l

unfoldable pub show_reports : List Report → Link → Link
unfolding show_report
show_reports [] l = l
show_reports (r ∷ rs) l = show_reports rs (show_report r l)

unfoldable pub on_reports_at : ℕ → List Report → Link → Link
on_reports_at zero rs l = l
on_reports_at (suc n) rs l = show_reports rs (record l { polls = n })

unfoldable pub on_reports : List Report → Link → Link
unfolding on_reports_at
on_reports rs l = on_reports_at l.polls rs l

module _ (parse : Bytes → Option Message) where
  -- `dc.onmessage`: an exception is not caught.
  unfoldable pub on_direct : Option Message → Link → Link
  on_direct none l = l
  on_direct (some m) l = (receive_all parse m l).0

  abbrev pub catch : Link × Outcome → Link
  catch (l, done) = l
  catch (l, out_of_fuel) = l
  catch (l, thrown e) = fail e l

  -- `ws.onmessage`: an exception ends the session.
  unfoldable pub on_signal : Signal → Link → Link
  on_signal (answer none) l = l
  on_signal (answer (some e)) l = if l.closed then l else fail e l
  on_signal (relayed m) l = catch (receive_all parse m l)
  on_signal (failure e) l = fail e l
  on_signal unknown l = l
  on_signal garbage l = fail bad_json l

  unfoldable pub step : Event → Link → Link
  step (channel_changed c) l = on_channel c l
  step (channel_filled b) l = record l { channel_full = b }
  step peer_lost l = use_relay l
  step (direct_text m) l = on_direct m l
  step socket_opened l = on_socket_open l
  step (negotiated e) l = on_negotiated e l
  step (socket_text s) l = on_signal s l
  step socket_closed l = fail lost (record l { socket = shut })
  step socket_failed l = fail unreachable l
  step fallback_due l = on_fallback l
  step keepalive_due l = on_keepalive l
  step stats_due l = on_stats l
  step (reported rs) l = on_reports rs l
  step (called r) l = call r l
  step resumed l = resume l
  step (expired id) l = expire id l
  step left_page l = close session_closed l

  unfoldable pub run : List Event → Link → Link
  run [] l = l
  run (e ∷ es) l = run es (step e l)
