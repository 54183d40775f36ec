-- ===== src/Console/Version.antt =====
-- `canRemote` of web/static/app.js: whether a device's client is recent enough for files and the
pub mod Release
-- desktop, with the language's `Number` for the parts of the version.
use net_conductor.Base.{
  ℕ, zero, suc, ◌+◌, ◌*◌, ◌-◌, ◌^◌, ◌≡◌, refl, Bool, true, false, ◌&&◌, ◌||◌, ◌==◌, not, Option,
  none, some, List, [], ◌∷◌, ◌++◌, ltb, leb, if◌then◌else◌, reverse,
}
use net_conductor.Base.Text.{Text, codes, text_eq}
use net_conductor.Console.Number.{Numeral, nan, infinite, scaled, number_of}
use net_conductor.Console.State.{Device, is_blank, or_else}

-- `s.split(".")` without the text before the first dot, and that text.
unfoldable pub split : Text → Text × List Text
split [] = ([], [])
split (c ∷ s) = let (p, ps) = split s in if c == b'.' then ([], p ∷ ps) else (c ∷ p, ps)

-- `x > 0`: what is at most half of the least positive number, 2^(-1074), is rounded to zero.
unfoldable pub is_positive : Numeral → Bool
is_positive nan = false
is_positive (infinite neg) = not neg
is_positive (scaled neg m true e) = not neg && ltb 0 m
is_positive (scaled neg m false e) = not neg && ltb (10 ^ e) (m * 2 ^ 1075)

-- `x >= 2`: what is at least half way from the number below, 2 - 2^(-52), is rounded to two.
unfoldable pub at_least_two : Numeral → Bool
at_least_two nan = false
at_least_two (infinite neg) = not neg
at_least_two (scaled neg m true e) = not neg && leb 2 (m * 10 ^ e)
at_least_two (scaled neg m false e) = not neg && leb ((2 ^ 54 - 1) * 10 ^ e) (m * 2 ^ 53)

-- A version without a dot has no minor number: `undefined >= 2` does not hold.
abbrev minor_at_least_two : List Text → Bool
minor_at_least_two [] = false
minor_at_least_two (p ∷ ps) = at_least_two (number_of p)

abbrev recent : Text × List Text → Bool
recent (p, ps) = is_positive (number_of p) || minor_at_least_two ps

unfoldable pub version_allows : Text → Bool
unfolding split number_of is_positive at_least_two
version_allows v = recent (split v)

-- `canRemote(d)`
unfoldable pub can_remote : Option Device → Bool
unfolding version_allows
can_remote none = version_allows (codes "0.0")
can_remote (some d) =
    text_eq d.id (codes "cloud") || version_allows (or_else d.agent_version (codes "0.0"))

-- What the buttons "ssh", "files" and "desktop" open: a terminal of `openSSH`, or a window of
-- `openRemote`.
pub data Opened : Type 0 where
  terminal : Opened
  window : Opened

-- The end of `action(name, id)`, with `device(id)`.
unfoldable pub opens : Text → Option Device → Option Opened
unfolding can_remote
opens name d =
    if text_eq name (codes "ssh") && not (can_remote d)
    then some terminal
    else if text_eq name (codes "ssh")
        || (text_eq name (codes "files") || text_eq name (codes "desktop"))
    then some window
    else none

version_test : version_allows (codes "0.2.0") ≡ true
unfolding version_allows
version_test = refl

old_test : version_allows (codes "0.1.9") ≡ false
unfolding version_allows
old_test = refl

odd_test : version_allows (codes " 0 .0x2") ≡ true
unfolding version_allows
odd_test = refl
