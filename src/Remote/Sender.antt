-- ===== src/Remote/Sender.antt =====
-- How a device cuts a long message: `Session.send` of internal/remote/session.go. A message is the
-- text `b` that `json.Marshal` gives; `id` is the time in nanoseconds.
use net_conductor.Base.{
  ℕ, zero, suc, true, false, Option, some, List, [], ◌∷◌, ltb, leb, if◌then◌else◌, length, take,
  drop,
}
use net_conductor.Remote.Base64.{Bytes, encode}
use net_conductor.Remote.Protocol.{Message, chunk}

abbrev pub piece_size : ℕ
piece_size = 24000

abbrev pub whole_limit : ℕ
whole_limit = 40000

-- The loop over `pos`, by what is left of `b` from there: it ends with the piece that reaches the
-- end of `b`. Each round takes at least one byte, so as many rounds as bytes are enough.
unfoldable pub send_pieces : ℕ → ℕ → Bytes → List Message
send_pieces zero id b = []
send_pieces (suc rounds) id [] = []
send_pieces (suc rounds) id (x ∷ b) = elim (leb (length (x ∷ b)) piece_size) [
  | true ↦ chunk id (encode (x ∷ b)) true ∷ []
  | false ↦
      chunk id (encode (take piece_size (x ∷ b))) false
      ∷ send_pieces rounds id (drop piece_size (x ∷ b))
]

abbrev pub somes : List Message → List (Option Message)
somes [] = []
somes (m ∷ ms) = some m ∷ somes ms

-- The messages that reach the page for one `send`: pieces of a long text, or the text as it is.
unfoldable pub send : (Bytes → Option Message) → ℕ → Bytes → List (Option Message)
send parse id b =
    if ltb whole_limit (length b) then somes (send_pieces (length b) id b) else parse b ∷ []
