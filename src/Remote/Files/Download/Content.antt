-- ===== src/Remote/Files/Download/Content.antt =====
-- What a download saves of a file that stays as it is.
use native.Mathlib.Nat.{sub-zero}
use net_conductor.Base.{
  ℕ, zero, suc, ◌+◌, ◌-◌, ◌*◌, ◌/◌, ◌≤◌, ◌<◌, ◌≡◌, refl, sym, ap, ◌∙◌, inl, inr, Bool, true, false,
  List, [], ◌∷◌, ◌++◌, ltb, ltb→lt, le→ltb_false, min, length, take, drop, drop-add, drop-all,
  flatten, flatten-append, append-nil, append_assoc, take-append-drop, length-take, length-drop,
  All, All-take, All-drop, arith, Bool-cases,
}
use net_conductor.Base.Text.{Text}
use net_conductor.Remote.Base64.{Bytes, encode}
use net_conductor.Remote.Base64.RoundTrip.{IsByte, decode-encode}
use net_conductor.Remote.Protocol.{Entry, piece, Request, read}
use net_conductor.Remote.Files.Download.{
  max_file, Answer, replied, Turn, End, saved, download_loop, download,
}

abbrev pub read_size : ℕ
read_size = 24000

-- The operation "read" of internal/remote/session.go: `ReadAt` fills a buffer of 24000 bytes, and
-- reports the end of the file where it could not.
unfoldable pub serve_read : Bytes → ℕ → Answer
serve_read content offset =
    let b = take read_size (drop offset content) in
    replied (piece (encode b) (ltb (length b) read_size))

-- The answers to `n` calls that follow the file from `offset` on, the dialog staying open.
abbrev pub turns : ℕ → Bytes → ℕ → List Turn
turns zero content offset = []
turns (suc n) content offset =
    record { answer = serve_read content offset; active = true }
    ∷ turns n content (offset + read_size)

-- The requests for them.
abbrev pub reads : ℕ → Text → ℕ → List Request
reads zero path offset = []
reads (suc n) path offset = read path offset ∷ reads n path (offset + read_size)

-- The rounds for what is left of a file: one for each full piece, and one that meets the end.
abbrev pub rounds : ℕ → ℕ
rounds size = suc (size / read_size)

abbrev with_read : Text → ℕ → List Request × End → List Request × End
with_read path offset r = (read path offset ∷ r.0, r.1)

loop-end :
    (path : Text) (b : Bytes) (ts : List Turn) (parts : List Bytes) (offset : ℕ)
    → All IsByte b
    → offset + length b ≤ max_file
    → download_loop path
        (record { answer = replied (piece (encode b) true); active = true } ∷ ts)
        true
        parts
        offset
      ≡ (read path offset ∷ [], saved (parts ++ b ∷ []))
unfolding download_loop
loop-end path b ts parts offset bytes small =
    rw (decode-encode b bytes, download_loop) (rw (le→ltb_false max_file (offset + length b) small))

pub loop-more :
    (path : Text) (b : Bytes) (ts : List Turn) (parts : List Bytes) (offset : ℕ)
    → All IsByte b
    → offset + length b ≤ max_file
    → download_loop path
        (record { answer = replied (piece (encode b) false); active = true } ∷ ts)
        true
        parts
        offset
      ≡ (
        read path offset ∷ (download_loop path ts true (parts ++ b ∷ []) (offset + length b)).0,
        (download_loop path ts true (parts ++ b ∷ []) (offset + length b)).1,
      )
unfolding download_loop
loop-more path b ts parts offset bytes small =
    rw (decode-encode b bytes, download_loop) (rw (le→ltb_false max_file (offset + length b) small))

-- The piece at an offset, and what follows it.
abbrev pub piece_at : Bytes → ℕ → Bytes
piece_at content offset = take read_size (drop offset content)

pub length-piece_at :
    (content : Bytes) (offset : ℕ)
    → length (piece_at content offset) ≡ min read_size (length content - offset)
length-piece_at content offset =
    length-take read_size (drop offset content) ∙ ap (min read_size) (length-drop offset content)

pub bytes-piece_at :
    (content : Bytes) (offset : ℕ) → All IsByte content → All IsByte (piece_at content offset)
bytes-piece_at content offset h = All-take IsByte read_size _ (All-drop IsByte offset content h)

flatten-piece_at :
    (content : Bytes) (offset : ℕ) (parts : List Bytes)
    → flatten parts ++ drop offset content ≡ content
    → flatten (parts ++ piece_at content offset ∷ []) ++ drop (offset + read_size) content ≡ content
flatten-piece_at content offset parts whole =
    ap (λ (s : Bytes). s ++ drop (offset + read_size) content)
      (flatten-append parts (piece_at content offset ∷ [])
        ∙ ap (flatten parts ++◌) (append-nil (piece_at content offset)))
    ∙ append_assoc (flatten parts) (piece_at content offset) (drop (offset + read_size) content)
    ∙ ap (λ (s : Bytes). flatten parts ++ (piece_at content offset ++ s))
        (drop-add offset read_size content)
    ∙ ap (flatten parts ++◌) (take-append-drop read_size (drop offset content))
    ∙ whole

pub serve_read-piece :
    (content : Bytes) (offset : ℕ) (eof : Bool)
    → ltb (length (piece_at content offset)) read_size ≡ eof
    → serve_read content offset ≡ replied (piece (encode (piece_at content offset)) eof)
unfolding serve_read
serve_read-piece content offset eof e =
    ap (λ x. replied (piece (encode (piece_at content offset)) x)) e

-- The numbers of one round.
last_round :
    (content : Bytes) (offset : ℕ)
    → ltb (length (piece_at content offset)) read_size ≡ true
    → (length content ≤ offset + read_size) × ((length content - offset) / read_size ≡ 0)
last_round content offset h =
    let small = ltb→lt _ read_size h in
    (omega (arith, length-piece_at content offset), omega (arith, length-piece_at content offset))

full_round :
    (content : Bytes) (offset : ℕ)
    → ltb (length (piece_at content offset)) read_size ≡ false
    → (offset + length (piece_at content offset) ≡ offset + read_size)
      × (offset + read_size ≤ length content)
      × ((length content - offset) / read_size ≡ rounds (length content - (offset + read_size)))
full_round content offset h =
    let large : read_size ≤ length (piece_at content offset) = ground arith in
    (
      omega (arith, length-piece_at content offset),
      omega (arith, length-piece_at content offset),
      omega (arith, length-piece_at content offset),
    )

pub piece_fits :
    (content : Bytes) (offset : ℕ)
    → length content ≤ max_file
    → offset ≤ length content
    → offset + length (piece_at content offset) ≤ max_file
piece_fits content offset small le = omega (arith, length-piece_at content offset)

loop_saves :
    (n : ℕ) (path : Text) (content : Bytes) (offset : ℕ) (parts : List Bytes)
    → All IsByte content
    → length content ≤ max_file
    → offset ≤ length content
    → flatten parts ++ drop offset content ≡ content
    → length content - offset < n * read_size
    → (ps : List Bytes) × (download_loop path (turns n content offset) true parts offset
        ≡ (reads (rounds (length content - offset)) path offset, saved ps))
      × (flatten ps ≡ content)
loop_saves zero path content offset parts bytes small le whole enough = absurd (omega arith)
loop_saves (suc n) path content offset parts bytes small le whole enough =
    let b = piece_at content offset in
    let bs = bytes-piece_at content offset bytes in
    let fits = piece_fits content offset small le in
    let go = λ (a : Answer).
      download_loop path
        (record { answer = a; active = true } ∷ turns n content (offset + read_size)) true parts
        offset in
    let joined = flatten-piece_at content offset parts whole in
    elim (Bool-cases (ltb (length b) read_size)) [
      | inl short ↦ (
        parts ++ b ∷ [],
        ap go (serve_read-piece content offset true short)
            ∙ loop-end path b (turns n content (offset + read_size)) parts offset bs fits
            ∙ ap
                (λ (k : ℕ).
                  (read path offset ∷ reads k path (offset + read_size), saved (parts ++ b ∷ [])))
                (sym (last_round content offset short).1),
        sym (append-nil _)
            ∙ ap (flatten (parts ++ b ∷ []) ++◌)
                (sym (drop-all (offset + read_size) content (last_round content offset short).0))
            ∙ joined,
      )
      | inr full ↦
          let numbers = full_round content offset full in
          let rest =
            loop_saves n path content (offset + read_size) (parts ++ b ∷ []) bytes small numbers.1
              joined (omega arith) in
          (
            rest.0,
            ap go (serve_read-piece content offset false full)
                ∙ loop-more path b (turns n content (offset + read_size)) parts offset bs fits
                ∙ ap
                    (λ (k : ℕ). with_read path offset (
                      download_loop path (turns n content (offset + read_size)) true
                        (parts ++ b ∷ []) k))
                    numbers.0
                ∙ ap (with_read path offset) rest.1
                ∙ ap
                    (λ (k : ℕ).
                      (read path offset ∷ reads k path (offset + read_size), saved rest.0))
                    (sym numbers.2),
            rest.2,
          )
    ]

-- Let the listing give the size of the file, at most 128 MiB, let the file stay as it is, and let
-- the dialog stay open. A device that answers each read with the next 24000 bytes and reports the
-- end where it has less then makes the download save the file byte by byte, after one read for
-- each full piece and one more.
pub download-saves :
    (path : Text) (e : Entry) (content : Bytes)
    → All IsByte content
    → e.size ≡ length content
    → length content ≤ max_file
    → (ps : List Bytes) × (download path e (turns (rounds (length content)) content 0) true
        ≡ (reads (rounds (length content)) path 0, saved ps))
      × (flatten ps ≡ content)
unfolding download
download-saves path e content bytes size small =
    rw (size, le→ltb_false max_file (length content) small)
      (rw sub-zero at (
        loop_saves (rounds (length content)) path content 0 [] bytes small (omega arith) refl
          (omega arith)))
