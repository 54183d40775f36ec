-- ===== src/Remote/Link/Termination.antt =====
-- `receive` calls itself on what it put together; here is why that ends.
use net_conductor.Base.{
  ℕ, zero, suc, ◌+◌, ◌≤◌, ◌<◌, ◌≡◌, ◌≢◌, refl, ap, ◌∙◌, ◌⊎◌, inl, inr, Bool, Option, some, List, [],
  ◌∷◌, ◌++◌, take, drop, length, length-append, length-take, length-drop, arith, Option-cases,
}
use net_conductor.Base.Text.{Text}
use net_conductor.Base.Table.{Table, get, put, erase}
use net_conductor.Remote.Base64.{Bytes, decode}
use net_conductor.Remote.Base64.RoundTrip.{length-decode}
use net_conductor.Remote.Protocol.{Message, chunk, result, event}
use net_conductor.Remote.Link.State.{Part, Link}
use net_conductor.Remote.Link.Receive.{
  zeros, set_bytes, fill, Next, finished, throws, again, done, out_of_fuel, empty_part, part_of,
  begin_part, stored, payload_of, payload, finish_part, add_chunk, on_chunk, receive_step, receive,
  receive_all, grown, grown_part,
}

pub stored-put :
    (c : ℕ) (p : Part) (m : Table Part)
    → stored (put c p m) + (part_of (get c m)).size ≡ stored m + p.size
unfolding put get
stored-put c p [] = omega arith
stored-put c p ((k, q) ∷ m) = ground (arith, stored-put c p m)

pub stored-erase :
    (c : ℕ) (m : Table Part) → stored (erase c m) + (part_of (get c m)).size ≡ stored m
unfolding erase get
stored-erase c [] = omega arith
stored-erase c ((k, q) ∷ m) = ground (arith, stored-erase c m)

get-put_self : (c : ℕ) (p : Part) (m : Table Part) → get c (put c p m) ≡ some p
unfolding get put
get-put_self c p [] = ground arith
get-put_self c p ((k, q) ∷ m) = ground (arith, get-put_self c p m)

pub length-zeros : (n : ℕ) → length (zeros n) ≡ n
unfolding zeros
length-zeros zero = refl
length-zeros (suc n) = ap suc (length-zeros n)

length-set_bytes :
    (all b : Bytes) (i : ℕ) (next : Bytes)
    → set_bytes all b i ≡ some next
    → length next ≡ length all
unfolding set_bytes
length-set_bytes all b i next e = ground (
  arith,
  length-append (take i all) (b ++ drop (i + length b) all),
  length-append b (drop (i + length b) all),
  length-take i all,
  length-drop (i + length b) all,
)

length-fill :
    (bs : List Bytes) (all : Bytes) (i : ℕ) (whole : Bytes)
    → fill bs all i ≡ some whole
    → length whole ≡ length all
unfolding fill
length-fill [] all i whole e = ground arith
length-fill (b ∷ bs) all i whole e = elim (Option-cases (set_bytes all b i)) [
  | inl stop ↦ ground arith
  | inr (next, go) ↦
      ground (arith, length-set_bytes all b i next go, length-fill bs next (i + length b) whole)
]

-- The JSON text of a chunk message is longer than the base64 text that it carries.
abbrev pub Shrinks : (Bytes → Option Message) → Type 0
Shrinks parse =
    (b : Bytes) (c : ℕ) (d : Text) (last : Bool)
    → parse b ≡ some (chunk c d last)
    → length d < length b

-- How many calls are left, at most.
abbrev weight : Message → Link → ℕ
weight (chunk c d last) l = suc (stored l.parts + payload_of (decode d))
weight (result id ok v e) l = 0
weight (event t d) l = 0

part_of-begin_part :
    (c : ℕ) (l : Link) → get c (begin_part c l).parts ≡ some (part_of (get c l.parts))
unfolding begin_part
part_of-begin_part c l = elim (Option-cases (get c l.parts)) [
  | inl none_there ↦ ground (arith, get-put_self c empty_part l.parts)
  | inr (p, there) ↦ ground arith
]

stored-begin_part : (c : ℕ) (l : Link) → stored (begin_part c l).parts ≡ stored l.parts
unfolding begin_part
stored-begin_part c l = elim (Option-cases (get c l.parts)) [
  | inl none_there ↦ ground (arith, stored-put c empty_part l.parts)
  | inr (p, there) ↦ ground arith
]

pub Next-cases :
    (n : Next) → (n ≡ finished) ⊎ ((e : Text) × (n ≡ throws e)) ⊎ ((m : Message) × (n ≡ again m))
Next-cases finished = inl refl
Next-cases (throws e) = inr (inl (e, refl))
Next-cases (again m) = inr (inr (m, refl))

pub receive-finished :
    (parse : Bytes → Option Message) (fuel : ℕ) (m : Message) (l : Link)
    → (receive_step parse m l).1 ≡ finished
    → receive parse (suc fuel) m l ≡ ((receive_step parse m l).0, done)
unfolding receive
receive-finished parse fuel m l e = rw (e, receive)

pub receive-again :
    (parse : Bytes → Option Message) (fuel : ℕ) (m m' : Message) (l : Link)
    → (receive_step parse m l).1 ≡ again m'
    → receive parse (suc fuel) m l ≡ receive parse fuel m' (receive_step parse m l).0
unfolding receive
receive-again parse fuel m m' l e = rw (e, receive)

module _ (parse : Bytes → Option Message) (shrinks : Shrinks parse) where
  weight-falls :
      (b : Bytes) (m : Message) (l : Link) (n : ℕ)
      → parse b ≡ some m
      → stored l.parts + length b ≤ n
      → weight m l < suc n
  weight-falls b (chunk c d last) l n e h = elim (Option-cases (decode d)) [
    | inl bad ↦ ground (arith, shrinks b c d last e)
    | inr (v, good) ↦ ground (arith, length-decode d v good, shrinks b c d last e)
  ]
  weight-falls b (result id ok v x) l n e h = omega arith
  weight-falls b (event t d) l n e h = omega arith

  finish_part-falls :
      (c : ℕ) (p : Part) (l : Link) (m : Message)
      → get c l.parts ≡ some p
      → (finish_part parse c p l).1 ≡ again m
      → weight m (finish_part parse c p l).0 < suc (stored l.parts)
  unfolding finish_part
  finish_part-falls c p l m there e = elim (Option-cases (fill p.buffers (zeros p.size) 0)) [
    | inl bad ↦ ground arith
    | inr (whole, made) ↦ elim (Option-cases (parse whole)) [
      | inl bad ↦ ground arith
      | inr (m', read) ↦ ground (
        arith,
        weight-falls whole m' (record l { parts = erase c l.parts }) (stored l.parts) read,
        length-fill p.buffers (zeros p.size) 0 whole made,
        length-zeros p.size,
        stored-erase c l.parts,
      )
    ]
  ]

  add_chunk-falls :
      (c : ℕ) (p : Part) (b : Bytes) (last : Bool) (l : Link) (m : Message)
      → get c l.parts ≡ some p
      → (add_chunk parse c p b last l).1 ≡ again m
      → weight m (add_chunk parse c p b last l).0 < suc (stored l.parts + length b)
  unfolding add_chunk
  add_chunk-falls c p b last l m there e = ground (
    arith,
    finish_part-falls c (grown_part p b) (grown c p b l) m
        (get-put_self c (grown_part p b) l.parts),
    stored-put c (grown_part p b) l.parts,
  )

  receive_step-falls :
      (m : Message) (l : Link) (m' : Message)
      → (receive_step parse m l).1 ≡ again m'
      → weight m' (receive_step parse m l).0 < weight m l
  unfolding receive_step on_chunk
  receive_step-falls (chunk c d last) l m' e = elim (Option-cases (decode d)) [
    | inl bad ↦ ground arith
    | inr (b, good) ↦ ground (
      arith,
      add_chunk-falls c (part_of (get c l.parts)) b last (begin_part c l) m'
          (part_of-begin_part c l),
      stored-begin_part c l,
    )
  ]
  receive_step-falls (result id ok v x) l m' e = cc
  receive_step-falls (event t d) l m' e = cc

  receive-ends :
      (fuel : ℕ) (m : Message) (l : Link)
      → weight m l < fuel
      → (receive parse fuel m l).1 ≢ out_of_fuel
  unfolding receive
  receive-ends zero m l h = elim h [ ]
  receive-ends (suc fuel) m l h = elim (Next-cases (receive_step parse m l).1) [
    | inl e ↦ rw (e, receive) (λ q. cc)
    | inr (inl (x, e)) ↦ rw (e, receive) (λ q. cc)
    | inr (inr (m', e)) ↦
        rw (e, receive)
          (receive-ends fuel m' (receive_step parse m l).0
            (omega (arith, receive_step-falls m l m' e)))
  ]

  -- Any two amounts of fuel above the weight give the same.
  receive_fuel :
      (f g : ℕ) (m : Message) (l : Link)
      → weight m l < f
      → weight m l < g
      → receive parse f m l ≡ receive parse g m l
  unfolding receive
  receive_fuel zero g m l h k = elim h [ ]
  receive_fuel (suc f) zero m l h k = elim k [ ]
  receive_fuel (suc f) (suc g) m l h k = elim (Next-cases (receive_step parse m l).1) [
    | inl e ↦ rw (e, receive)
    | inr (inl (x, e)) ↦ rw (e, receive)
    | inr (inr (m', e)) ↦
        rw (e, receive)
          (receive_fuel f g m' (receive_step parse m l).0
            (omega (arith, receive_step-falls m l m' e))
            (omega (arith, receive_step-falls m l m' e)))
  ]

  weight-lt-fuel : (m : Message) (l : Link) → weight m l < suc (suc (stored l.parts + payload m))
  weight-lt-fuel (chunk c d last) l = omega arith
  weight-lt-fuel (result id ok v x) l = omega arith
  weight-lt-fuel (event t d) l = omega arith

  -- If the JSON text of a chunk is always longer than the base64 text that it carries, then
  -- `receive` returns on every message and in every state of the link, however often a message
  -- that was put together is a chunk again.
  pub receive_all-ends : (m : Message) (l : Link) → (receive_all parse m l).1 ≢ out_of_fuel
  unfolding receive_all
  receive_all-ends m l = receive-ends _ m l (weight-lt-fuel m l)

  pub receive_all-again :
      (m m' : Message) (l : Link)
      → (receive_step parse m l).1 ≡ again m'
      → receive_all parse m l ≡ receive_all parse m' (receive_step parse m l).0
  unfolding receive_all
  receive_all-again m m' l e =
      receive-again parse (suc (stored l.parts + payload m)) m m' l e
      ∙ receive_fuel (suc (stored l.parts + payload m))
          (suc (suc (stored (receive_step parse m l).0.parts + payload m'))) m'
          (receive_step parse m l).0
          (omega (arith, receive_step-falls m l m' e, weight-lt-fuel m l))
          (weight-lt-fuel m' (receive_step parse m l).0)
