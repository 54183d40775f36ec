-- ===== src/Remote/Link/Bounds/Count.antt =====
-- The number of unfinished parts is checked only once a chunk has been decoded, so chunks that are
-- no base64 text add parts without end while they come over the data channel.
use net_conductor.Base.{
  ℕ, zero, suc, ◌+◌, ◌≤◌, ◌≡◌, refl, ap, ◌∙◌, false, Option, none, some, List, [], ◌∷◌, length,
  arith,
}
use net_conductor.Base.Text.{Text}
use net_conductor.Base.Table.{get, put, get-put, length-put_new}
use net_conductor.Remote.Base64.{Bytes, decode}
use net_conductor.Remote.Protocol.{Message, chunk}
use net_conductor.Remote.Link.State.{Link, start}
use net_conductor.Remote.Link.Receive.{
  Next, throws, bad_base64, empty_part, begin_part, on_chunk, receive_step, receive, receive_all,
}
use net_conductor.Remote.Link.Events.{Event, direct_text, on_direct, step, run}

-- `n` chunks with the numbers k, k + 1, … and the text `d`.
abbrev pub bad_chunks : Text → ℕ → ℕ → List Event
bad_chunks d k zero = []
bad_chunks d k (suc n) = direct_text (some (chunk k d false)) ∷ bad_chunks d (suc k) n

module _ (parse : Bytes → Option Message) (d : Text) (bad : decode d ≡ none) where
  on_bad_chunk :
      (k : ℕ) (l : Link)
      → get k l.parts ≡ none
      → on_chunk parse k d false l
        ≡ (record l { parts = put k empty_part l.parts }, throws bad_base64)
  unfolding on_chunk begin_part
  on_bad_chunk k l new = rw (bad, on_chunk) (rw (new, begin_part))

  receive-bad :
      (k fuel : ℕ) (l : Link)
      → get k l.parts ≡ none
      → (receive parse (suc fuel) (chunk k d false) l).0
        ≡ record l { parts = put k empty_part l.parts }
  unfolding receive receive_step
  receive-bad k fuel l new =
      rw (on_bad_chunk k l new, receive) (ap (λ (r : Link × Next). r.0) (on_bad_chunk k l new))

  step-bad :
      (k : ℕ) (l : Link)
      → get k l.parts ≡ none
      → step parse (direct_text (some (chunk k d false))) l
        ≡ record l { parts = put k empty_part l.parts }
  unfolding step on_direct receive_all
  step-bad k l new = receive-bad k _ l new

  abbrev Above : ℕ → Link → Type 0
  Above k l = (j : ℕ) → k ≤ j → get j l.parts ≡ none

  run-bad_chunks :
      (n k : ℕ) (l : Link)
      → Above k l
      → (length (run parse (bad_chunks d k n) l).parts ≡ length l.parts + n)
        × ((run parse (bad_chunks d k n) l).closed ≡ l.closed)
  unfolding run
  run-bad_chunks zero k l new = (omega arith, refl)
  run-bad_chunks (suc n) k l new =
      let next = record l { parts = put k empty_part l.parts } in
      let above : Above (suc k) next =
        λ j le. rw (get-put k j empty_part l.parts) (ground (arith, new j)) in
      let one = step-bad k l (new k (omega arith)) in
      let rest = run-bad_chunks n (suc k) next above in
      let grows : length next.parts ≡ length l.parts + 1 =
        length-put_new k empty_part l.parts (new k (omega arith)) in
      (
        ap (λ (x : Link). length (run parse (bad_chunks d (suc k) n) x).parts) one
            ∙ rest.0
            ∙ omega (arith, grows),
        ap (λ (x : Link). (run parse (bad_chunks d (suc k) n) x).closed) one ∙ rest.1,
      )

  -- Let `d` be no base64 text. For every number n, n chunks with distinct numbers and the text
  -- `d`, sent over the data channel of a new link, leave it open with n unfinished parts, also
  -- where n is above the limit of four.
  pub parts-unlimited :
      (n : ℕ)
      → (length (run parse (bad_chunks d 0 n) start).parts ≡ n)
        × ((run parse (bad_chunks d 0 n) start).closed ≡ false)
  unfolding get
  parts-unlimited n =
      let all = run-bad_chunks n 0 start (λ j le. refl) in (all.0 ∙ omega arith, all.1)
