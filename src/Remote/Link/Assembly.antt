-- ===== src/Remote/Link/Assembly.antt =====
-- Putting the buffers of a part together: the loop over `all.set` gives their concatenation.
use net_conductor.Base.{
  ℕ, zero, suc, ◌+◌, ◌≡◌, refl, sym, ap, ◌∙◌, true, some, List, [], ◌∷◌, ◌++◌, append_assoc, drop,
  flatten, leb, length, length-append, take-append, drop-append, drop-add, arith,
}
use net_conductor.Remote.Base64.{Bytes}
use net_conductor.Remote.Link.Receive.{zeros, set_bytes, fill}
use net_conductor.Remote.Link.Termination.{length-zeros}

zeros-add : (n m : ℕ) → zeros (n + m) ≡ zeros n ++ zeros m
unfolding zeros
zeros-add zero m = ap zeros (omega arith)
zeros-add (suc n) m =
    let next : suc n + m ≡ suc (n + m) = omega arith in ap zeros next ∙ ap (0 ∷◌) (zeros-add n m)

drop-zeros : (b : Bytes) (n : ℕ) → drop (length b) (zeros (length b + n)) ≡ zeros n
drop-zeros b n =
    rw zeros-add (rw (length-zeros (length b)) at (drop-append (zeros (length b)) (zeros n)))

set_bytes_lem :
    (front b : Bytes) (n : ℕ)
    → set_bytes (front ++ zeros (length b + n)) b (length front) ≡ some ((front ++ b) ++ zeros n)
unfolding set_bytes
set_bytes_lem front b n =
    let back = zeros (length b + n) in
    let fits : leb (length front + length b) (length (front ++ back)) ≡ true =
      ground (arith, length-append front back, length-zeros (length b + n)) in
    rw (fits, take-append front back, drop-add (length front) (length b) (front ++ back))
      (rw (drop-append front back, drop-zeros b n) (ap some (sym (append_assoc front b (zeros n)))))

fill_from :
    (bs : List Bytes) (front : Bytes)
    → fill bs (front ++ zeros (length (flatten bs))) (length front) ≡ some (front ++ flatten bs)
unfolding fill zeros
fill_from [] front = refl
fill_from (b ∷ bs) front = rw (length-append b (flatten bs)) (
    rw (set_bytes_lem front b (length (flatten bs)), fill)
      (rw (← length-append front b)
        (fill_from bs (front ++ b) ∙ ap some (append_assoc front b (flatten bs)))))

-- Filling an array of zeros, which has the size of all buffers together, with the buffers one after
-- the other makes their concatenation of it, and no `set` throws.
pub fill-zeros : (bs : List Bytes) → fill bs (zeros (length (flatten bs))) 0 ≡ some (flatten bs)
fill-zeros bs = fill_from bs []
