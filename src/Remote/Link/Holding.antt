-- ===== src/Remote/Link/Holding.antt =====
-- A link that holds the first pieces of one message, and what one more chunk does to it.
use net_conductor.Base.{
  ℕ, ◌+◌, ◌≤◌, ◌<◌, ◌≡◌, sym, ap, ◌∙◌, Bool, true, false, Option, none, some, List, [], ◌∷◌, ◌++◌,
  append-nil, flatten, flatten-append, length, length-append, All, arith,
}
use net_conductor.Base.Table.{Table, get, put, put-put, get-put_self, erase-put_new, length-put_new}
use net_conductor.Remote.Base64.{Bytes, encode}
use net_conductor.Remote.Base64.RoundTrip.{IsByte, decode-encode}
use net_conductor.Remote.Protocol.{Message, chunk}
use net_conductor.Remote.Link.State.{Part, Link}
use net_conductor.Remote.Link.Receive.{
  finished, again, begin_part, finish_part, add_chunk, on_chunk, receive_step, max_size, max_parts,
  sized, grown, grown_part, over_limit, sized_part,
}
use net_conductor.Remote.Link.Assembly.{fill-zeros}

-- A part whose size is that of its buffers.
abbrev pub part : List Bytes → Part
part bs = record { buffers = bs; size = length (flatten bs) }

abbrev pub holding : ℕ → List Bytes → Link → Link
holding c bs l = record l { parts = put c (part bs) l.parts }

pub flatten-concat : (bs : List Bytes) (b : Bytes) → flatten (bs ++ b ∷ []) ≡ flatten bs ++ b
flatten-concat bs b = rw (flatten-append bs (b ∷ []), append-nil b)

pub length-flatten-concat :
    (bs : List Bytes) (b : Bytes) → length (flatten (bs ++ b ∷ [])) ≡ length (flatten bs) + length b
length-flatten-concat bs b =
    rw (flatten-append bs (b ∷ []), append-nil b) (length-append (flatten bs) b)

-- Where the number is new and there is room for it.
pub record HasRoom (c : ℕ) (l : Link) : Type 0 where
  pub new_part : get c l.parts ≡ none
  pub few_parts : length l.parts < max_parts

module _ (parse : Bytes → Option Message) (c : ℕ) (l : Link) (room : HasRoom c l) where
  grown-holding :
      (bs : List Bytes) (b : Bytes)
      → grown c (part bs) b (holding c bs l) ≡ holding c (bs ++ b ∷ []) l
  grown-holding bs b =
      rw (put-put c (grown_part (part bs) b) (part bs) l.parts, length-flatten-concat bs b)

  within_limit :
      (bs : List Bytes) (b : Bytes)
      → length (flatten bs) + length b ≤ max_size
      → over_limit (part bs) b (sized c (part bs) b (holding c bs l)) ≡ false
  within_limit bs b h = ground (
    arith,
    put-put c (sized_part (part bs) b) (part bs) l.parts,
    length-put_new c (sized_part (part bs) b) l.parts room.new_part,
    room.few_parts,
  )

  get-holding : (bs : List Bytes) → get c (holding c bs l).parts ≡ some (part bs)
  get-holding bs = get-put_self c (part bs) l.parts

  begin_part-holding : (bs : List Bytes) → begin_part c (holding c bs l) ≡ holding c bs l
  unfolding begin_part
  begin_part-holding bs = rw (get-holding bs, begin_part)

  -- The first chunk meets an empty part.
  on_chunk-new :
      (b : Bytes) (last : Bool)
      → All IsByte b
      → on_chunk parse c (encode b) last l ≡ add_chunk parse c (part []) b last (holding c [] l)
  unfolding on_chunk begin_part
  on_chunk-new b last h = rw (decode-encode b h, on_chunk) (rw (room.new_part, begin_part))

  on_chunk-old :
      (bs : List Bytes) (b : Bytes) (last : Bool)
      → All IsByte b
      → on_chunk parse c (encode b) last (holding c bs l)
        ≡ add_chunk parse c (part bs) b last (holding c bs l)
  unfolding on_chunk
  on_chunk-old bs b last h =
      rw (decode-encode b h, on_chunk) (rw (get-holding bs, begin_part-holding bs))

  add_chunk-more :
      (bs : List Bytes) (b : Bytes)
      → length (flatten bs) + length b ≤ max_size
      → add_chunk parse c (part bs) b false (holding c bs l)
        ≡ (holding c (bs ++ b ∷ []) l, finished)
  unfolding add_chunk
  add_chunk-more bs b h = rw (within_limit bs b h, grown-holding bs b)

  finish_part-holding :
      (bs : List Bytes) (m : Message)
      → parse (flatten bs) ≡ some m
      → finish_part parse c (part bs) (holding c bs l) ≡ (l, again m)
  unfolding finish_part
  finish_part-holding bs m e =
      rw (fill-zeros bs, finish_part)
        (rw (e, finish_part)
          (ap (λ (t : Table Part). (record l { parts = t }, again m))
            (erase-put_new c (part bs) l.parts room.new_part)))

  add_chunk-last :
      (bs : List Bytes) (b : Bytes) (m : Message)
      → length (flatten bs) + length b ≤ max_size
      → parse (flatten (bs ++ b ∷ [])) ≡ some m
      → add_chunk parse c (part bs) b true (holding c bs l) ≡ (l, again m)
  unfolding add_chunk
  add_chunk-last bs b m h e =
      rw (within_limit bs b h, grown-holding bs b, ← length-flatten-concat bs b)
        (finish_part-holding (bs ++ b ∷ []) m e)

  pub step-more :
      (bs : List Bytes) (b : Bytes)
      → All IsByte b
      → length (flatten bs) + length b ≤ max_size
      → receive_step parse (chunk c (encode b) false) (holding c bs l)
        ≡ (holding c (bs ++ b ∷ []) l, finished)
  unfolding receive_step
  step-more bs b bytes h = on_chunk-old bs b false bytes ∙ add_chunk-more bs b h

  pub step-last :
      (bs : List Bytes) (b : Bytes) (m : Message)
      → All IsByte b
      → length (flatten bs) + length b ≤ max_size
      → parse (flatten (bs ++ b ∷ [])) ≡ some m
      → receive_step parse (chunk c (encode b) true) (holding c bs l) ≡ (l, again m)
  unfolding receive_step
  step-last bs b m bytes h e = on_chunk-old bs b true bytes ∙ add_chunk-last bs b m h e

  pub step-new :
      (b : Bytes) (last : Bool)
      → All IsByte b
      → receive_step parse (chunk c (encode b) last) l
        ≡ receive_step parse (chunk c (encode b) last) (holding c [] l)
  unfolding receive_step
  step-new b last bytes = on_chunk-new b last bytes ∙ sym (on_chunk-old [] b last bytes)
