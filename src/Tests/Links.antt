-- ===== src/Tests/Links.antt =====
-- The link of web/static/remote-ui.js at concrete inputs. Every text that is read is an event here
-- that carries the text.
use net_conductor.Base.{
  ℕ, zero, suc, ◌≡◌, ◌≢◌, refl, true, false, Option, none, some, List, [], ◌∷◌, ◌+◌, arith, length,
  All,
}
use net_conductor.Base.Table.{get, put}
use net_conductor.Base.Text.{codes}
use net_conductor.Remote.Base64.{Bytes, decode, encode}
use net_conductor.Remote.Base64.RoundTrip.{IsByte, decode-encode}
use net_conductor.Remote.Protocol.{Message, chunk, event, list}
use net_conductor.Remote.Sender.{send}
use net_conductor.Remote.Link.State.{
  Link, start, open_now, close, shut_down, reject_all, disarm, use_relay,
}
use net_conductor.Remote.Link.Receive.{
  zeros, receive_all, receive, receive_step, out_of_fuel, fill, on_chunk, begin_part, add_chunk,
}
use net_conductor.Remote.Link.Calls.{
  call, resume, resume_with, issue, register, transmit, send_direct,
}
use net_conductor.Remote.Link.Events.{
  Event, socket_opened, negotiated, peer_lost, on_socket_open, on_negotiated, channel_changed,
  called, resumed, left_page, direct_text, relayed, socket_text, on_channel, on_channel_open,
  on_direct, step, run,
}
use net_conductor.Remote.Link.Termination.{Shrinks, length-zeros, receive_all-ends}
use net_conductor.Remote.Link.Settled.{settled, copies, issued}
use net_conductor.Remote.Link.Settled.Run.{settled_once, closed-settled}
use net_conductor.Remote.Link.Holding.{HasRoom}
use net_conductor.Remote.Link.Arrival.{direct_events, relay_events, run-send}
use net_conductor.Remote.Link.Bounds.{Holds}
use net_conductor.Remote.Link.Bounds.Run.{parts-bounded}
use net_conductor.Remote.Link.Bounds.Count.{bad_chunks, parts-unlimited}
use net_conductor.Remote.Link.Relay.{directs}
use net_conductor.Remote.Link.Relay.Run.{relay-final}
use net_conductor.Remote.Link.Assembly.{fill-zeros}

abbrev read_event : Bytes → Option Message
read_event b = some (event (codes "update") b)

read_event-Shrinks : Shrinks read_event
read_event-Shrinks b c d last e = elim (other e) [ ]
  where
    other : some (event (codes "update") b) ≢ some (chunk c d last)
    other q = cc

abbrev long_text : Bytes
long_text = zeros 50000

zeros-IsByte : (n : ℕ) → All IsByte (zeros n)
unfolding zeros
zeros-IsByte zero = tt
zeros-IsByte (suc n) = (omega arith, zeros-IsByte n)

start-HasRoom : HasRoom 7 start
unfolding get
start-HasRoom = record { new_part = refl; few_parts = omega arith }

run-send_example :
    (run read_event (direct_events (send read_event 7 long_text)) start
      ≡ step read_event (direct_text (some (event (codes "update") long_text))) start)
    × (run read_event (relay_events (send read_event 7 long_text)) start
        ≡ step read_event (socket_text (relayed (event (codes "update") long_text))) start)
run-send_example =
    run-send read_event read_event-Shrinks 7 long_text (event (codes "update") long_text) start
      start-HasRoom (zeros-IsByte 50000) (omega (arith, length-zeros 50000)) refl

-- A call over the data channel, and the page left before its result.
abbrev abandoned : List Event
abandoned = channel_changed open_now ∷ called (list (codes "/")) ∷ resumed ∷ left_page ∷ []

abandoned-closed : (run read_event abandoned start).closed ≡ true
unfolding run step on_channel on_channel_open call resume resume_with issue register transmit
    send_direct close shut_down reject_all disarm put
abandoned-closed = refl

abandoned-seq : (run read_event abandoned start).seq ≡ 1
unfolding run step on_channel on_channel_open call resume resume_with issue register transmit
    send_direct close shut_down reject_all disarm put
abandoned-seq = refl

closed-settled_example :
    ((run read_event abandoned start).pending ≡ [])
    × ((run read_event abandoned start).timers ≡ [])
    × (settled 1 (run read_event abandoned start).log ≡ 1)
closed-settled_example =
    closed-settled read_event abandoned 1 abandoned-closed (omega arith)
      (omega (arith, abandoned-seq))

settled_once_example :
    settled 1 (run read_event abandoned start).log
      + copies 1 (run read_event abandoned start).pending
    ≡ issued 1 (run read_event abandoned start).seq
settled_once_example = settled_once read_event abandoned 1

-- The page with the call still out.
abbrev calling : Link
calling = run read_event (channel_changed open_now ∷ called (list (codes "/")) ∷ resumed ∷ []) start

-- A chunk that does not end its message.
abbrev begun : List Event
begun = direct_text (some (chunk 7 (codes "AAAA") false)) ∷ []

begun-open : (run read_event begun start).closed ≡ false
unfolding run step on_direct receive_all receive receive_step on_chunk begin_part add_chunk decode
    get put
begun-open = refl

parts-bounded_example : Holds (run read_event begun start).parts
parts-bounded_example = parts-bounded read_event begun begun-open

bad-decode : decode (codes "!") ≡ none
unfolding decode
bad-decode = refl

parts-unlimited_example :
    (length (run read_event (bad_chunks (codes "!") 0 9) start).parts ≡ 9)
    × ((run read_event (bad_chunks (codes "!") 0 9) start).closed ≡ false)
parts-unlimited_example = parts-unlimited read_event (codes "!") bad-decode 9

receive_all-ends_example :
    (receive_all read_event (chunk 7 (codes "AAAA") true) start).1 ≢ out_of_fuel
receive_all-ends_example =
    receive_all-ends read_event read_event-Shrinks (chunk 7 (codes "AAAA") true) start

fill-zeros_example : fill ((1 ∷ 2 ∷ []) ∷ (3 ∷ []) ∷ []) (zeros 3) 0 ≡ some (1 ∷ 2 ∷ 3 ∷ [])
fill-zeros_example = fill-zeros ((1 ∷ 2 ∷ []) ∷ (3 ∷ []) ∷ [])

decode-encode_example : decode (encode (0 ∷ 255 ∷ 7 ∷ 128 ∷ [])) ≡ some (0 ∷ 255 ∷ 7 ∷ 128 ∷ [])
decode-encode_example =
    decode-encode (0 ∷ 255 ∷ 7 ∷ 128 ∷ [])
      (omega arith, (omega arith, (omega arith, (omega arith, tt))))

-- The link is relayed, and the data channel opens late.
abbrev relayed_link : Link
relayed_link = run read_event (socket_opened ∷ negotiated none ∷ peer_lost ∷ []) start

relayed_link-relay : relayed_link.relay ≡ true
unfolding run step on_socket_open on_negotiated use_relay
relayed_link-relay = refl

relay-final_example :
    ((run read_event abandoned relayed_link).relay ≡ true)
    × (directs (run read_event abandoned relayed_link).log ≡ directs relayed_link.log)
relay-final_example = relay-final read_event abandoned relayed_link relayed_link-relay
