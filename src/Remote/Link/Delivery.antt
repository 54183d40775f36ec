-- ===== src/Remote/Link/Delivery.antt =====
-- A long message that a device cuts into chunks arrives as if it had come in one piece.
use net_conductor.Base.{
  ℕ, zero, suc, ◌+◌, ◌≤◌, ◌<◌, ◌≡◌, refl, ap, ◌∙◌, inl, inr, Bool, true, false, Option, some, List,
  [], ◌∷◌, ◌++◌, append_assoc, take, drop, flatten, leb, length, length-drop, length-take,
  take-append-drop, All, All-take, All-drop, arith, Bool-cases,
}
use net_conductor.Remote.Base64.{Bytes, encode}
use net_conductor.Remote.Base64.RoundTrip.{IsByte}
use net_conductor.Remote.Protocol.{Message, chunk}
use net_conductor.Remote.Link.State.{Link}
use net_conductor.Remote.Link.Receive.{
  Next, finished, again, Outcome, done, receive_step, receive_all, max_size,
}
use net_conductor.Remote.Link.Termination.{Shrinks, receive-finished, receive_all-again}
use net_conductor.Remote.Sender.{send_pieces, piece_size}
use net_conductor.Remote.Link.Holding.{
  holding, flatten-concat, length-flatten-concat, HasRoom, step-more, step-last, step-new,
}

receive_all-finished :
    (parse : Bytes → Option Message) (m : Message) (l l' : Link)
    → receive_step parse m l ≡ (l', finished)
    → receive_all parse m l ≡ (l', done)
unfolding receive_all
receive_all-finished parse m l l' e =
    receive-finished parse _ m l (ap (λ (r : Link × Next). r.1) e)
    ∙ ap (λ (r : Link × Next). (r.0, done)) e

-- A sequence of messages through one handler, `f` being what it does with the outcome.
abbrev pub deliver : (Bytes → Option Message) → (Link × Outcome → Link) → List Message → Link → Link
deliver parse f [] l = l
deliver parse f (m ∷ ms) l = deliver parse f ms (f (receive_all parse m l))

send_pieces-last :
    (n c : ℕ) (b : Bytes)
    → 0 < length b
    → length b ≤ piece_size
    → send_pieces (suc n) c b ≡ chunk c (encode b) true ∷ []
unfolding send_pieces
send_pieces-last n c [] h k = absurd (omega arith)
send_pieces-last n c (x ∷ b) h k = ground arith

send_pieces-more :
    (n c : ℕ) (b : Bytes)
    → piece_size < length b
    → send_pieces (suc n) c b
      ≡ chunk c (encode (take piece_size b)) false ∷ send_pieces n c (drop piece_size b)
unfolding send_pieces
send_pieces-more n c [] h = absurd (omega arith)
send_pieces-more n c (x ∷ b) h =
    let t : leb (length (x ∷ b)) piece_size ≡ false = ground arith in rw (t, send_pieces)

-- The numbers of one round.
long_of_leb : (b : Bytes) → leb (length b) piece_size ≡ false → piece_size < length b
long_of_leb b t = ground arith

front_fits :
    (bs : List Bytes) (b : Bytes)
    → piece_size < length b
    → length (flatten bs) + length b ≤ max_size
    → length (flatten bs) + length (take piece_size b) ≤ max_size
front_fits bs b long fits = omega (arith, length-take piece_size b)

back_pos : (b : Bytes) → piece_size < length b → 0 < length (drop piece_size b)
back_pos b long = omega (arith, length-drop piece_size b)

back_le :
    (n : ℕ) (b : Bytes) → piece_size < length b → length b ≤ suc n → length (drop piece_size b) ≤ n
back_le n b long enough = omega (arith, length-drop piece_size b)

back_fits :
    (bs : List Bytes) (b : Bytes)
    → piece_size < length b
    → length (flatten bs) + length b ≤ max_size
    → length (flatten (bs ++ take piece_size b ∷ [])) + length (drop piece_size b) ≤ max_size
back_fits bs b long fits = omega (
  arith,
  length-flatten-concat bs (take piece_size b),
  length-take piece_size b,
  length-drop piece_size b,
)

module _ (parse : Bytes → Option Message) (shrinks : Shrinks parse) (f : Link × Outcome → Link)
    (passes : (l : Link) → f (l, done) ≡ l) (c : ℕ) (l : Link) (room : HasRoom c l) where
  receive_all-last :
      (b : Bytes) (m : Message) (l' : Link)
      → receive_step parse (chunk c (encode b) true) l' ≡ (l, again m)
      → receive_all parse (chunk c (encode b) true) l' ≡ receive_all parse m l
  receive_all-last b m l' e =
      receive_all-again parse shrinks (chunk c (encode b) true) m l'
        (ap (λ (r : Link × Next). r.1) e)
      ∙ ap (λ (r : Link × Next). receive_all parse m r.0) e

  -- `l'` behaves like the link that holds `bs`.
  abbrev Holds : List Bytes → Link → Type 0
  Holds bs l' =
      (b : Bytes) (last : Bool)
      → All IsByte b
      → receive_step parse (chunk c (encode b) last) l'
        ≡ receive_step parse (chunk c (encode b) last) (holding c bs l)

  deliver_rest :
      (n : ℕ) (bs : List Bytes) (b : Bytes) (m : Message) (l' : Link)
      → Holds bs l'
      → 0 < length b
      → length b ≤ n
      → All IsByte b
      → length (flatten bs) + length b ≤ max_size
      → parse (flatten bs ++ b) ≡ some m
      → deliver parse f (send_pieces n c b) l' ≡ f (receive_all parse m l)
  deliver_rest zero bs b m l' same pos enough bytes fits e = absurd (omega arith)
  deliver_rest (suc n) bs b m l' same pos enough bytes fits e =
      elim (Bool-cases (leb (length b) piece_size)) [
        | inl t ↦ rw (send_pieces-last n c b pos (ground arith)) (
            ap f (
              receive_all-last b m l' (
                same b true bytes
                ∙ step-last parse c l room bs b m bytes fits (rw (flatten-concat bs b) e))))
        | inr t ↦
            let front = take piece_size b in
            let back = drop piece_size b in
            let long : piece_size < length b = long_of_leb b t in
            let next = holding c (bs ++ front ∷ []) l in
            ap (λ (ms : List Message). deliver parse f ms l') (send_pieces-more n c b long)
            ∙ ap (deliver parse f (send_pieces n c back)) (
                ap f (
                  receive_all-finished parse (chunk c (encode front) false) l' next (
                    same front false (All-take IsByte piece_size b bytes)
                    ∙ step-more parse c l room bs front (All-take IsByte piece_size b bytes)
                        (front_fits bs b long fits)))
                ∙ passes next)
            ∙ deliver_rest n (bs ++ front ∷ []) back m next (λ b' last h. refl) (back_pos b long)
                (back_le n b long enough) (All-drop IsByte piece_size b bytes)
                (back_fits bs b long fits)
                (rw
                  (
                    flatten-concat bs front,
                    append_assoc (flatten bs) front back,
                    take-append-drop piece_size b,
                  )
                  e)
      ]

  pub deliver_pieces :
      (b : Bytes) (m : Message)
      → 0 < length b
      → All IsByte b
      → length b ≤ max_size
      → parse b ≡ some m
      → deliver parse f (send_pieces (length b) c b) l ≡ f (receive_all parse m l)
  deliver_pieces b m pos bytes fits e =
      deliver_rest (length b) [] b m l (λ b' last h. step-new parse c l room b' last h) pos
        (omega arith) bytes (omega arith) e
