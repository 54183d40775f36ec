-- ===== src/Tests/Transfers.antt =====
-- The file transfers of web/static/remote-ui.js at concrete inputs.
use net_conductor.Base.{
  sym, ap, zero, suc, length, ℕ, ◌≡◌, refl, true, false, List, [], ◌∷◌, arith, All, flatten,
}
use net_conductor.Base.Text.{Text, codes}
use net_conductor.Remote.Base64.{Bytes}
use net_conductor.Remote.Base64.RoundTrip.{IsByte}
use net_conductor.Remote.Protocol.{Entry, value}
use net_conductor.Base.{Bool, leb}
use net_conductor.Remote.Files.Paths.{join, parent, is_refused, has_separator, or_root, strip_slash}
use net_conductor.Remote.Files.Paths.Laws.{parent-join}
use net_conductor.Remote.Files.Download.{replied, failed, Turn, download, saved}
use net_conductor.Remote.Files.Download.{thrown}
use net_conductor.Remote.Files.Download.Broken.{broken_after, download-broken}
use net_conductor.Remote.Files.Download.Content.{turns, reads, rounds, download-saves}
use net_conductor.Remote.Files.Upload.Content.{accepted}

abbrev path : Text
path = codes "/tmp/a"

abbrev content : Bytes
content = 104 ∷ 105 ∷ 10 ∷ []

content-IsByte : All IsByte content
content-IsByte = (omega arith, (omega arith, (omega arith, tt)))

abbrev entry : Entry
entry = record { name = codes "a"; directory = false; size = 3 }

download-saves_example :
    (ps : List Bytes) × (download path entry (turns (rounds 3) content 0) true
      ≡ (reads (rounds 3) path 0, saved ps))
    × (flatten ps ≡ content)
download-saves_example = download-saves path entry content content-IsByte refl (omega arith)

-- The creation succeeds and the only write fails.
abbrev cut_off : List Turn
cut_off =
    record { answer = replied (value (codes "null")); active = true }
    ∷ record { answer = failed (codes "disk full"); active = true }
    ∷ []

abbrev complete : List Turn
complete = accepted 2 (value (codes "null"))

name-accepted : is_refused (codes "b") ≡ false
unfolding is_refused has_separator
name-accepted = refl

parent-join_example : parent (join path (codes "b")) ≡ or_root (strip_slash path)
parent-join_example = parent-join path (codes "b") (λ q. cc) name-accepted

-- A file of 30000 times the same byte, whose second piece the device cannot read.
abbrev copies : ℕ → Bytes
copies zero = []
copies (suc n) = 7 ∷ copies n

length-copies : (n : ℕ) → length (copies n) ≡ n
length-copies zero = refl
length-copies (suc n) = ap suc (length-copies n)

copies-IsByte : (n : ℕ) → All IsByte (copies n)
copies-IsByte zero = tt
copies-IsByte (suc n) = (omega arith, copies-IsByte n)

abbrev large_entry : Entry
large_entry = record { name = codes "b"; directory = false; size = 30000 }

download-broken_example :
    download path large_entry (broken_after 1 (copies 30000) (codes "input/output error") []) true
    ≡ (reads 2 path 0, thrown (codes "input/output error"))
download-broken_example =
    download-broken 1 path (codes "input/output error") large_entry (copies 30000) []
      (copies-IsByte 30000) (sym (length-copies 30000)) (omega (arith, length-copies 30000))
      (omega (arith, length-copies 30000))

-- A comparison of names by their lengths.
abbrev shorter : Text → Text → Bool
shorter a b = leb (length a) (length b)

abbrev home_entries : List Entry
home_entries =
    record { name = codes "<b>.txt"; directory = false; size = 3 }
    ∷ record { name = codes "src"; directory = true; size = 0 }
    ∷ record { name = codes "a"; directory = false; size = 70000 }
    ∷ []
