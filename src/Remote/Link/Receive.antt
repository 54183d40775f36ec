-- ===== src/Remote/Link/Receive.antt =====
-- `Link.receive`: chunks are put together, a result settles its call, and any other message goes
-- to the page. What `JSON.parse(new TextDecoder().decode(all))` makes of a byte sequence is the
-- parameter `parse`, `none` being its exception.
use net_conductor.Base.{
  ℕ, suc, zero, ◌+◌, ◌*◌, Bool, ◌||◌, Option, none, some, List, [], ◌∷◌, ◌++◌, take, drop, ltb, leb,
  if◌then◌else◌, length,
}
use net_conductor.Base.Text.{Text, codes}
use net_conductor.Base.Table.{Table, get, put, erase}
use net_conductor.Remote.Base64.{Bytes, decode}
use net_conductor.Remote.Protocol.{Message, chunk, result, event}
use net_conductor.Remote.Link.State.{delivered, resolved, rejected, Part, Link, note, disarm, fail}

abbrev pub max_size : ℕ
max_size = 4 * 1024 * 1024

abbrev pub max_parts : ℕ
max_parts = 4

abbrev pub too_large : Text
too_large = codes "远程响应过大"

abbrev pub bad_base64 : Text
bad_base64 = codes "InvalidCharacterError"

abbrev pub bad_json : Text
bad_json = codes "SyntaxError"

abbrev pub bad_range : Text
bad_range = codes "RangeError"

-- `new Uint8Array(n)`
unfoldable pub zeros : ℕ → Bytes
zeros zero = []
zeros (suc n) = 0 ∷ zeros n

-- `all.set(b, offset)`, which throws where `b` runs past the end
unfoldable pub set_bytes : Bytes → Bytes → ℕ → Option Bytes
set_bytes all b offset =
    if leb (offset + length b) (length all)
    then some (take offset all ++ (b ++ drop (offset + length b) all))
    else none

-- `for (const b of part.buffers) { all.set(b, offset); offset += b.length; }`
unfoldable pub fill : List Bytes → Bytes → ℕ → Option Bytes
fill [] all offset = some all
fill (b ∷ bs) all offset = elim (set_bytes all b offset) [
  | none ↦ none
  | some next ↦ fill bs next (offset + length b)
]

-- What a message leaves to do: nothing, an exception to throw, or a message to receive in turn.
pub data Next : Type 0 where
  finished : Next
  throws : Text → Next
  again : Message → Next

pub data Outcome : Type 0 where
  done : Outcome
  thrown : Text → Outcome
  out_of_fuel : Outcome

abbrev pub empty_part : Part
empty_part = record { buffers = []; size = 0 }

abbrev pub part_of : Option Part → Part
part_of none = empty_part
part_of (some p) = p

-- `if (!part) { part = { buffers: [], size: 0 }; this.parts.set(m.chunk, part); }`
unfoldable pub begin_part : ℕ → Link → Link
begin_part c l = elim (get c l.parts) [
  | none ↦ record l { parts = put c empty_part l.parts }
  | some p ↦ l
]

-- `m.ok ? p.resolve(m.result) : p.reject(Error(m.error))`, after the entry is removed
unfoldable pub on_result : Message → Link → Link
on_result (chunk c d last) l = l
on_result (event t d) l = l
on_result (result id ok v e) l = elim (get id l.pending) [
  | none ↦ l
  | some p ↦ record l {
    timers = disarm p.timer l.timers;
    pending = erase id l.pending;
    log = (if ok then resolved p.promise v else rejected p.promise e) ∷ l.log;
  }
]

-- The bytes that the parts hold, by their size fields, and those of a chunk.
abbrev pub stored : Table Part → ℕ
stored [] = 0
stored ((c, p) ∷ m) = p.size + stored m

abbrev pub payload_of : Option Bytes → ℕ
payload_of none = 0
payload_of (some b) = length b

abbrev pub payload : Message → ℕ
payload (chunk c d last) = payload_of (decode d)
payload (result id ok v e) = 0
payload (event t d) = 0

-- `part.size += b.length`
abbrev pub sized_part : Part → Bytes → Part
sized_part p b = record p { size = p.size + length b }

abbrev pub sized : ℕ → Part → Bytes → Link → Link
sized c p b l = record l { parts = put c (sized_part p b) l.parts }

-- `part.size > 4 * 1024 * 1024 || this.parts.size > 4`, with the new size in the table
abbrev pub over_limit : Part → Bytes → Link → Bool
over_limit p b l = ltb max_size (p.size + length b) || ltb max_parts (length l.parts)

-- `part.buffers.push(b)`
abbrev pub grown_part : Part → Bytes → Part
grown_part p b = record { buffers = p.buffers ++ b ∷ []; size = p.size + length b }

abbrev pub grown : ℕ → Part → Bytes → Link → Link
grown c p b l = record l { parts = put c (grown_part p b) l.parts }

module _ (parse : Bytes → Option Message) where
  -- The last chunk: the part is removed, put together and read.
  unfoldable pub finish_part : ℕ → Part → Link → Link × Next
  finish_part c p l = elim (fill p.buffers (zeros p.size) 0) [
    | none ↦ (record l { parts = erase c l.parts }, throws bad_range)
    | some all ↦ elim (parse all) [
      | none ↦ (record l { parts = erase c l.parts }, throws bad_json)
      | some m ↦ (record l { parts = erase c l.parts }, again m)
    ]
  ]

  -- A decoded chunk `b` of the part `p`, which stands in the table.
  unfoldable pub add_chunk : ℕ → Part → Bytes → Bool → Link → Link × Next
  add_chunk c p b last l =
      if over_limit p b (sized c p b l)
      then (fail too_large (sized c p b l), finished)
      else if last
      then finish_part c (grown_part p b) (grown c p b l)
      else (grown c p b l, finished)

  unfoldable pub on_chunk : ℕ → Text → Bool → Link → Link × Next
  unfolding begin_part
  on_chunk c d last l = elim (decode d) [
    | none ↦ (begin_part c l, throws bad_base64)
    | some b ↦ add_chunk c (part_of (get c l.parts)) b last (begin_part c l)
  ]

  -- One call of `receive`, up to its call of itself.
  unfoldable pub receive_step : Message → Link → Link × Next
  receive_step (chunk c d last) l = on_chunk c d last l
  receive_step (result id ok v e) l = (on_result (result id ok v e) l, finished)
  receive_step (event t d) l = (note (delivered t d) l, finished)

  -- `receive`. A message that was put together may be a chunk again.
  unfoldable pub receive : ℕ → Message → Link → Link × Outcome
  receive zero m l = (l, out_of_fuel)
  receive (suc fuel) m l = elim (receive_step m l).1 [
    | finished ↦ ((receive_step m l).0, done)
    | throws e ↦ ((receive_step m l).0, thrown e)
    | again m' ↦ receive fuel m' (receive_step m l).0
  ]

  -- `receive` with fuel for every message that the stored bytes can hold.
  unfoldable pub receive_all : Message → Link → Link × Outcome
  receive_all m l = receive (suc (suc (stored l.parts + payload m))) m l
