-- ===== src/Remote/Files/Download/Broken.antt =====
-- A download that breaks off: the device answers some reads, and then one with an error.
use net_conductor.Base.{
  ℕ, zero, suc, ◌+◌, ◌*◌, ◌≤◌, ◌≡◌, refl, ap, ◌∙◌, true, false, List, [], ◌∷◌, ◌++◌, le→ltb_false,
  length, All, arith,
}
use net_conductor.Base.Text.{Text}
use net_conductor.Remote.Base64.{Bytes}
use net_conductor.Remote.Base64.RoundTrip.{IsByte}
use net_conductor.Remote.Protocol.{Entry}
use net_conductor.Remote.Files.Download.{
  max_file, Answer, failed, Turn, thrown, download_loop, download,
}
use net_conductor.Remote.Files.Download.Content.{
  read_size, turns, reads, loop-more, piece_at, length-piece_at, bytes-piece_at, serve_read-piece,
  piece_fits,
}

-- The answers to `k` reads of a file, and then an error.
abbrev pub broken_after : ℕ → Bytes → Text → List Turn → List Turn
broken_after k content t ts = turns k content 0 ++ record { answer = failed t; active = true } ∷ ts

full_piece :
    (content : Bytes) (offset k : ℕ)
    → offset + suc k * read_size ≤ length content
    → length (piece_at content offset) ≡ read_size
full_piece content offset k h = omega (arith, length-piece_at content offset)

loop_breaks :
    (k : ℕ) (path t : Text) (content : Bytes) (ts : List Turn) (offset : ℕ) (parts : List Bytes)
    → All IsByte content
    → length content ≤ max_file
    → offset + k * read_size ≤ length content
    → download_loop path
        (turns k content offset ++ record { answer = failed t; active = true } ∷ ts)
        true
        parts
        offset
      ≡ (reads (suc k) path offset, thrown t)
unfolding download_loop
loop_breaks zero path t content ts offset parts bytes small h = refl
loop_breaks (suc k) path t content ts offset parts bytes small h =
    let b = piece_at content offset in
    let n = full_piece content offset k h in
    let rest =
      turns k content (offset + read_size) ++ record { answer = failed t; active = true } ∷ ts in
    ap
      (λ (a : Answer).
        download_loop path (record { answer = a; active = true } ∷ rest) true parts offset)
      (serve_read-piece content offset false (le→ltb_false (length b) read_size (omega arith)))
    ∙ loop-more path b rest parts offset (bytes-piece_at content offset bytes)
        (piece_fits content offset small (omega arith))
    ∙ rw n (
        rw
          (loop_breaks k path t content ts (offset + read_size) (parts ++ b ∷ []) bytes small
            (omega arith))
          refl)

-- Let a file of at most 128 MB be read in pieces, and let the device answer the first `k` reads with
-- full pieces of it and the next one with an error, the dialog staying open. Then the download makes
-- these k + 1 requests and no other, whatever would be answered later; it reports the device's error,
-- and saves nothing.
pub download-broken :
    (k : ℕ) (path t : Text) (e : Entry) (content : Bytes) (ts : List Turn)
    → All IsByte content
    → e.size ≡ length content
    → length content ≤ max_file
    → k * read_size ≤ length content
    → download path e (broken_after k content t ts) true ≡ (reads (suc k) path 0, thrown t)
unfolding download
download-broken k path t e content ts bytes same small h =
    rw (le→ltb_false max_file e.size (omega (arith, same)))
      (loop_breaks k path t content ts 0 [] bytes small (omega arith))
