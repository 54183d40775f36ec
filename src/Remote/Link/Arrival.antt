-- ===== src/Remote/Link/Arrival.antt =====
-- A message that `Session.send` cut into chunks, as the events of the link that receives it.
use net_conductor.Base.{
  ℕ, ◌≤◌, ◌≡◌, refl, ◌∙◌, inl, inr, Option, none, some, List, [], ◌∷◌, ltb, length, All, arith,
  Bool-cases,
}
use net_conductor.Remote.Base64.{Bytes}
use net_conductor.Remote.Base64.RoundTrip.{IsByte}
use net_conductor.Remote.Protocol.{Message}
use net_conductor.Remote.Link.State.{Link}
use net_conductor.Remote.Link.Receive.{receive_all, max_size}
use net_conductor.Remote.Link.Events.{
  Signal, relayed, garbage, Event, direct_text, socket_text, on_direct, catch, on_signal, step, run,
}
use net_conductor.Remote.Link.Termination.{Shrinks}
use net_conductor.Remote.Link.Holding.{HasRoom}
use net_conductor.Remote.Link.Delivery.{deliver, deliver_pieces}
use net_conductor.Remote.Sender.{send, send_pieces, somes, whole_limit}

-- The texts of one `send` over the data channel, and over the socket.
abbrev pub direct_events : List (Option Message) → List Event
direct_events [] = []
direct_events (m ∷ ms) = direct_text m ∷ direct_events ms

abbrev pub signal_of : Option Message → Signal
signal_of none = garbage
signal_of (some m) = relayed m

abbrev pub relay_events : List (Option Message) → List Event
relay_events [] = []
relay_events (m ∷ ms) = socket_text (signal_of m) ∷ relay_events ms

module _ (parse : Bytes → Option Message) where
  run-direct :
      (ms : List Message) (l : Link)
      → run parse (direct_events (somes ms)) l ≡ deliver parse (λ r. r.0) ms l
  unfolding run step on_direct
  run-direct [] l = refl
  run-direct (m ∷ ms) l = run-direct ms (receive_all parse m l).0

  run-relay :
      (ms : List Message) (l : Link)
      → run parse (relay_events (somes ms)) l ≡ deliver parse (catch parse) ms l
  unfolding run step on_signal
  run-relay [] l = refl
  run-relay (m ∷ ms) l = run-relay ms (catch parse (receive_all parse m l))

  -- Let the JSON text of a chunk always be longer than the base64 text that it carries, let `b`
  -- be a sequence of bytes that reads as the message m, at most 4 MiB long, and let the link have
  -- less than four unfinished parts and none with the number c. Then the texts that `Session.send`
  -- makes of `b` under the number c, arriving one after the other, leave the link as one text with
  -- the message m would, both over the data channel and over the socket.
  pub run-send :
      Shrinks parse
      → (c : ℕ) (b : Bytes) (m : Message) (l : Link) → HasRoom c l
      → All IsByte b
      → length b ≤ max_size
      → parse b ≡ some m
      → (run parse (direct_events (send parse c b)) l ≡ step parse (direct_text (some m)) l)
        × (run parse (relay_events (send parse c b)) l ≡ step parse (socket_text (relayed m)) l)
  unfolding send run step on_direct on_signal
  run-send shrinks c b m l room bytes fits e = elim (Bool-cases (ltb whole_limit (length b))) [
    | inl long ↦ rw long (
      run-direct (send_pieces (length b) c b) l
          ∙ deliver_pieces parse shrinks (λ r. r.0) (λ l. refl) c l room b m (ground arith) bytes
              fits e,
      run-relay (send_pieces (length b) c b) l
          ∙ deliver_pieces parse shrinks (catch parse) (λ l. refl) c l room b m (ground arith) bytes
              fits e,
    )
    | inr short ↦ rw short (rw e (refl, refl))
  ]
