-- ===== src/Remote/Link/Bounds.antt =====
-- How much of unfinished messages an open link holds.
pub mod Run
pub mod Count
use net_conductor.Base.{
  ℕ, zero, suc, ◌+◌, ◌*◌, ◌≤◌, ◌<◌, ◌≡◌, refl, ap, ◌∙◌, ◌⊎◌, inl, inr, Bool, true, false, ◌||◌,
  Option, none, some, List, [], ◌∷◌, ◌++◌, flatten, flatten-append, append-nil, ltb, if◌then◌else◌,
  length, length-append, All, arith, if_both, Bool-cases, Option-cases,
}
use net_conductor.Base.Text.{Text}
use net_conductor.Base.Table.{Table, get, put, erase}
use net_conductor.Remote.Base64.{Bytes, decode}
use net_conductor.Remote.Protocol.{Message, chunk, result, event}
use net_conductor.Remote.Link.State.{Part, Link, note, reject_all, shut_down, close, fail}
use net_conductor.Remote.Link.Receive.{
  fill, zeros, Next, finished, throws, again, Outcome, empty_part, part_of, begin_part, on_result,
  stored, finish_part, add_chunk, on_chunk, receive_step, receive, receive_all, max_size, max_parts,
  too_large, bad_range, bad_json, bad_base64, sized, grown, sized_part, grown_part, over_limit,
}
use net_conductor.Remote.Link.Termination.{Next-cases, stored-put, stored-erase}
use net_conductor.Remote.Link.Settled.Closing.{fail-closed}
use net_conductor.Remote.Link.Assembly.{fill-zeros}

-- The size field of a part counts its buffers, and keeps the limit.
abbrev pub IsMeasured : ℕ × Part → Type 0
IsMeasured (c, p) = (p.size ≡ length (flatten p.buffers)) × (p.size ≤ max_size)

pub record Holds (m : Table Part) : Type 0 where
  pub measured : All IsMeasured m
  pub bounded : stored m ≤ max_parts * max_size

abbrev pub IsBounded : Link → Type 0
IsBounded l = l.closed ≡ false → Holds l.parts

IsMeasured-put :
    (c : ℕ) (p : Part) (m : Table Part)
    → IsMeasured (c, p)
    → All IsMeasured m
    → All IsMeasured (put c p m)
unfolding put
IsMeasured-put c p [] h v = (h, tt)
IsMeasured-put c p ((k, q) ∷ m) h (w, v) = ground (arith, IsMeasured-put c p m h v)

IsMeasured-erase : (c : ℕ) (m : Table Part) → All IsMeasured m → All IsMeasured (erase c m)
unfolding erase
IsMeasured-erase c [] v = tt
IsMeasured-erase c ((k, q) ∷ m) (w, v) = ground (arith, IsMeasured-erase c m v)

IsMeasured-get : (c : ℕ) (m : Table Part) → All IsMeasured m → IsMeasured (c, part_of (get c m))
unfolding get
IsMeasured-get c [] v = omega arith
IsMeasured-get c ((k, q) ∷ m) (w, v) = ground (arith, IsMeasured-get c m v)

stored-le : (m : Table Part) → All IsMeasured m → stored m ≤ length m * max_size
stored-le [] v = omega arith
stored-le ((k, q) ∷ m) (w, v) = omega (arith, stored-le m v)

length-put_same : (c : ℕ) (p q : Part) (m : Table Part) → length (put c p m) ≡ length (put c q m)
unfolding put
length-put_same c p q [] = refl
length-put_same c p q ((k, r) ∷ m) = ground (arith, length-put_same c p q m)

Holds-erase : (c : ℕ) (m : Table Part) → Holds m → Holds (erase c m)
Holds-erase c m v = record {
  measured = IsMeasured-erase c m v.measured;
  bounded = omega (arith, stored-erase c m, v.bounded);
}

begin_part-Holds : (c : ℕ) (l : Link) → Holds l.parts → Holds (begin_part c l).parts
unfolding begin_part
begin_part-Holds c l v = elim (Option-cases (get c l.parts)) [
  | inl missing ↦
      rw (missing, begin_part)
        (record {
          measured = IsMeasured-put c empty_part l.parts (omega arith) v.measured;
          bounded = ground (arith, stored-put c empty_part l.parts, v.bounded);
        })
  | inr (p, there) ↦ rw (there, begin_part) v
]

grown-Holds :
    (c : ℕ) (p : Part) (b : Bytes) (m : Table Part)
    → IsMeasured (c, p)
    → All IsMeasured m
    → p.size + length b ≤ max_size
    → length (put c (sized_part p b) m) ≤ max_parts
    → Holds (put c (grown_part p b) m)
grown-Holds c p b m fits v small few =
    let all =
      IsMeasured-put c (grown_part p b) m
        (
          rw (flatten-append p.buffers (b ∷ []), append-nil b)
              (omega (arith, length-append {0} (flatten p.buffers) b)),
          small,
        )
        v in
    record {
      measured = all;
      bounded = grind (
        arith,
        stored-le (put c (grown_part p b) m) all,
        length-put_same c (grown_part p b) (sized_part p b) m,
      );
    }

clash : {b : Bool} → b ≡ true → b ≡ false → ⊥
clash p q = cc

pub fail-IsBounded : (e : Text) (l : Link) → IsBounded (fail e l)
fail-IsBounded e l live = elim (clash (fail-closed e l) live) [ ]

parts-on_result : (m : Message) (l : Link) → (on_result m l).parts ≡ l.parts
unfolding on_result
parts-on_result (chunk c d last) l = refl
parts-on_result (result id ok r x) l = ground arith
parts-on_result (event t d) l = refl

-- A chunk within the limits finds at most four parts and leaves its own at most 4 MiB long.
within :
    (c : ℕ) (p : Part) (b : Bytes) (l : Link)
    → over_limit p b (sized c p b l) ≡ false
    → (p.size + length b ≤ max_size) × (length (put c (sized_part p b) l.parts) ≤ max_parts)
within c p b l h = ground arith

module _ (parse : Bytes → Option Message) where
  finish_part-Holds :
      (c : ℕ) (p : Part) (l : Link) → Holds l.parts → IsBounded (finish_part parse c p l).0
  unfolding finish_part
  finish_part-Holds c p l v = elim (Option-cases (fill p.buffers (zeros p.size) 0)) [
    | inl bad ↦ rw (bad, finish_part) (λ live. Holds-erase c l.parts v)
    | inr (whole, made) ↦ elim (Option-cases (parse whole)) [
      | inl bad ↦ rw (made, finish_part) (rw (bad, finish_part) (λ live. Holds-erase c l.parts v))
      | inr (m, read) ↦
          rw (made, finish_part) (rw (read, finish_part) (λ live. Holds-erase c l.parts v))
    ]
  ]

  add_chunk-IsBounded :
      (c : ℕ) (p : Part) (b : Bytes) (last : Bool) (l : Link)
      → IsMeasured (c, p)
      → Holds l.parts
      → IsBounded (add_chunk parse c p b last l).0
  unfolding add_chunk
  add_chunk-IsBounded c p b last l own v =
      if_both (λ (r : Link × Next). IsBounded r.0) (over_limit p b (sized c p b l))
        (fail too_large (sized c p b l), finished)
        (if last
          then finish_part parse c (grown_part p b) (grown c p b l)
          else (grown c p b l, finished))
        (λ q. fail-IsBounded too_large (sized c p b l))
        (λ q.
          if_both (λ (r : Link × Next). IsBounded r.0) last
            (finish_part parse c (grown_part p b) (grown c p b l)) (grown c p b l, finished)
            (λ w. finish_part-Holds c (grown_part p b) (grown c p b l) (kept q)) (λ w live. kept q))
    where
      kept : over_limit p b (sized c p b l) ≡ false → Holds (put c (grown_part p b) l.parts)
      kept q = grown-Holds c p b l.parts own v.measured (within c p b l q).0 (within c p b l q).1

  receive_step-IsBounded :
      (m : Message) (l : Link) → Holds l.parts → IsBounded (receive_step parse m l).0
  unfolding receive_step on_chunk
  receive_step-IsBounded (chunk c d last) l v = elim (Option-cases (decode d)) [
    | inl bad ↦ rw (bad, on_chunk) (λ live. begin_part-Holds c l v)
    | inr (b, good) ↦
        rw (good, on_chunk)
          (add_chunk-IsBounded c (part_of (get c l.parts)) b last (begin_part c l)
            (IsMeasured-get c l.parts v.measured) (begin_part-Holds c l v))
  ]
  receive_step-IsBounded (result id ok r x) l v =
      λ live. rw (parts-on_result (result id ok r x) l) v
  receive_step-IsBounded (event t d) l v = λ live. v

  -- A link that is closed stays so.
  finish_part-closed : (c : ℕ) (p : Part) (l : Link) → (finish_part parse c p l).0.closed ≡ l.closed
  unfolding finish_part
  finish_part-closed c p l = ground arith

  begin_part-closed : (c : ℕ) (l : Link) → (begin_part c l).closed ≡ l.closed
  unfolding begin_part
  begin_part-closed c l = ground arith

  add_chunk-closed :
      (c : ℕ) (p : Part) (b : Bytes) (last : Bool) (l : Link)
      → l.closed ≡ true
      → (add_chunk parse c p b last l).0.closed ≡ true
  unfolding add_chunk
  add_chunk-closed c p b last l q = ground (
    arith,
    fail-closed too_large (sized c p b l),
    finish_part-closed c (grown_part p b) (grown c p b l),
  )

  receive_step-closed :
      (m : Message) (l : Link) → l.closed ≡ true → (receive_step parse m l).0.closed ≡ true
  unfolding receive_step on_chunk on_result
  receive_step-closed (chunk c d last) l q = elim (Option-cases (decode d)) [
    | inl bad ↦ rw (bad, on_chunk) (begin_part-closed c l ∙ q)
    | inr (b, good) ↦
        rw (good, on_chunk)
          (add_chunk-closed c (part_of (get c l.parts)) b last (begin_part c l)
            (begin_part-closed c l ∙ q))
  ]
  receive_step-closed (result id ok r x) l q = ground arith
  receive_step-closed (event t d) l q = q

  step-IsBounded : (m : Message) (l : Link) → IsBounded l → IsBounded (receive_step parse m l).0
  step-IsBounded m l v = elim (Bool-cases l.closed) [
    | inl shut ↦ vacuous (receive_step parse m l).0 (receive_step-closed m l shut)
    | inr live ↦ receive_step-IsBounded m l (v live)
  ]
    where
      vacuous : (k : Link) → k.closed ≡ true → IsBounded k
      vacuous k q live = elim (clash q live) [ ]

  receive-IsBounded :
      (fuel : ℕ) (m : Message) (l : Link) → IsBounded l → IsBounded (receive parse fuel m l).0
  unfolding receive
  receive-IsBounded zero m l v = v
  receive-IsBounded (suc fuel) m l v = elim (Next-cases (receive_step parse m l).1) [
    | inl e ↦ rw (e, receive) (step-IsBounded m l v)
    | inr (inl (x, e)) ↦ rw (e, receive) (step-IsBounded m l v)
    | inr (inr (m', e)) ↦
        rw (e, receive)
          (receive-IsBounded fuel m' (receive_step parse m l).0 (step-IsBounded m l v))
  ]

  pub receive_all-IsBounded :
      (m : Message) (l : Link) → IsBounded l → IsBounded (receive_all parse m l).0
  unfolding receive_all
  receive_all-IsBounded m l v = receive-IsBounded _ m l v
