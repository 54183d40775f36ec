-- ===== src/Remote/Link/Settled/Receiving.antt =====
-- `receive` keeps the account of calls, and a result settles its call and no other.
use net_conductor.Base.{
  ℕ, zero, suc, ◌≡◌, refl, inl, inr, Bool, true, false, ◌==◌, Option, none, some, List, ◌∷◌,
  if◌then◌else◌, if_both, Option-cases,
}
use net_conductor.Base.Text.{Text}
use net_conductor.Base.Table.{get, erase}
use net_conductor.Remote.Base64.{Bytes, decode}
use net_conductor.Remote.Protocol.{Message, chunk, result, event, Reply}
use net_conductor.Remote.Link.State.{delivered, resolved, rejected, Call, Part, Link, disarm, fail}
use net_conductor.Remote.Link.Receive.{
  fill, zeros, Next, finished, part_of, begin_part, on_result, finish_part, add_chunk, on_chunk,
  receive_step, receive, receive_all, too_large, sized, grown, grown_part, over_limit,
}
use net_conductor.Remote.Link.Termination.{Next-cases}
use net_conductor.Remote.Link.Settled.{
  settles, IsSound, note-Keeps, Keeps-IsSound, settle-IsSound, owned-get,
}
use net_conductor.Remote.Link.Settled.Closing.{fail-IsSound}

-- A change of the parts alone.
with_parts-IsSound : (l : Link) (m : List (ℕ × Part)) → IsSound l → IsSound (record l { parts = m })
with_parts-IsSound l m v = record {
  counted = v.counted;
  owned = v.owned;
  armed = v.armed;
  quiet = v.quiet;
}

settles_result :
    (ok : Bool) (promise : ℕ) (r : Reply) (x : Text) {id : ℕ}
    → promise ≡ id
    → (k : ℕ)
    → settles k (if ok then resolved promise r else rejected promise x) ≡ (if id == k then 1 else 0)
settles_result true promise r x e k = rw e
settles_result false promise r x e k = rw e

on_result-IsSound :
    (id : ℕ) (ok : Bool) (r : Reply) (x : Text) (l : Link)
    → IsSound l
    → IsSound (on_result (result id ok r x) l)
unfolding on_result
on_result-IsSound id ok r x l v = go (get id l.pending) refl
  where
    go :
        (o : Option Call)
        → get id l.pending ≡ o
        → IsSound (elim o [
          | none ↦ l
          | some p ↦ record l {
            timers = disarm p.timer l.timers;
            pending = erase id l.pending;
            log = (if ok then resolved p.promise r else rejected p.promise x) ∷ l.log;
          }
        ])
    go none there = v
    go (some c) there =
        settle-IsSound l id c.timer c _ (owned-get id l.pending v.owned there).1 there
          (settles_result ok c.promise r x (owned-get id l.pending v.owned there).0) v

module _ (parse : Bytes → Option Message) where
  finish_part-IsSound :
      (c : ℕ) (p : Part) (l : Link) → IsSound l → IsSound (finish_part parse c p l).0
  unfolding finish_part
  finish_part-IsSound c p l v = elim (Option-cases (fill p.buffers (zeros p.size) 0)) [
    | inl bad ↦ rw (bad, finish_part) (with_parts-IsSound l (erase c l.parts) v)
    | inr (whole, made) ↦ elim (Option-cases (parse whole)) [
      | inl bad ↦
          rw (made, finish_part) (rw (bad, finish_part) (with_parts-IsSound l (erase c l.parts) v))
      | inr (m, read) ↦
          rw (made, finish_part) (rw (read, finish_part) (with_parts-IsSound l (erase c l.parts) v))
    ]
  ]

  add_chunk-IsSound :
      (c : ℕ) (p : Part) (b : Bytes) (last : Bool) (l : Link)
      → IsSound l
      → IsSound (add_chunk parse c p b last l).0
  unfolding add_chunk
  add_chunk-IsSound c p b last l v =
      if_both (λ (r : Link × Next). IsSound r.0) (over_limit p b (sized c p b l))
        (fail too_large (sized c p b l), finished)
        (if last
          then finish_part parse c (grown_part p b) (grown c p b l)
          else (grown c p b l, finished))
        (λ q. fail-IsSound too_large (sized c p b l) (with_parts-IsSound l (sized c p b l).parts v))
        (λ q.
          if_both (λ (r : Link × Next). IsSound r.0) last
            (finish_part parse c (grown_part p b) (grown c p b l)) (grown c p b l, finished)
            (λ w.
              finish_part-IsSound c (grown_part p b) (grown c p b l)
                (with_parts-IsSound l (grown c p b l).parts v))
            (λ w. with_parts-IsSound l (grown c p b l).parts v))

  begin_part-IsSound : (c : ℕ) (l : Link) → IsSound l → IsSound (begin_part c l)
  unfolding begin_part
  begin_part-IsSound c l v = elim (Option-cases (get c l.parts)) [
    | inl missing ↦ rw (missing, begin_part) (with_parts-IsSound l _ v)
    | inr (p, there) ↦ rw (there, begin_part) v
  ]

  receive_step-IsSound : (m : Message) (l : Link) → IsSound l → IsSound (receive_step parse m l).0
  unfolding receive_step on_chunk
  receive_step-IsSound (chunk c d last) l v = elim (Option-cases (decode d)) [
    | inl bad ↦ rw (bad, on_chunk) (begin_part-IsSound c l v)
    | inr (b, good) ↦
        rw (good, on_chunk)
          (add_chunk-IsSound c (part_of (get c l.parts)) b last (begin_part c l)
            (begin_part-IsSound c l v))
  ]
  receive_step-IsSound (result id ok r x) l v = on_result-IsSound id ok r x l v
  receive_step-IsSound (event t d) l v = Keeps-IsSound (note-Keeps (delivered t d) l (λ k. refl)) v

  receive-IsSound :
      (fuel : ℕ) (m : Message) (l : Link) → IsSound l → IsSound (receive parse fuel m l).0
  unfolding receive
  receive-IsSound zero m l v = v
  receive-IsSound (suc fuel) m l v = elim (Next-cases (receive_step parse m l).1) [
    | inl e ↦ rw (e, receive) (receive_step-IsSound m l v)
    | inr (inl (x, e)) ↦ rw (e, receive) (receive_step-IsSound m l v)
    | inr (inr (m', e)) ↦
        rw (e, receive)
          (receive-IsSound fuel m' (receive_step parse m l).0 (receive_step-IsSound m l v))
  ]

  pub receive_all-IsSound : (m : Message) (l : Link) → IsSound l → IsSound (receive_all parse m l).0
  unfolding receive_all
  receive_all-IsSound m l v = receive-IsSound _ m l v
