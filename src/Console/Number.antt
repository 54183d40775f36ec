-- ===== src/Console/Number.antt =====
-- The language's `Number` of a text, as a numeral that is not yet rounded.
pub mod Digits
use net_conductor.Base.{
  ℕ, suc, ◌+◌, ◌*◌, ◌-◌, Bool, true, false, ◌&&◌, ◌||◌, ◌==◌, not, Option, none, some, List, [],
  ◌∷◌, ltb, leb, if◌then◌else◌, reverse, length,
}
use net_conductor.Base.Text.{Text, codes, text_eq}
use net_conductor.Console.State.{is_blank}

-- The white space and line ends of the language.
abbrev pub is_space : ℕ → Bool
is_space c =
    (leb 9 c && leb c 13)
    || c == 32
    || c == 160
    || c == 5760
    || (leb 8192 c && leb c 8202)
    || c == 8232
    || c == 8233
    || c == 8239
    || c == 8287
    || c == 12288
    || c == 65279

abbrev pub drop_spaces : Text → Text
drop_spaces [] = []
drop_spaces (c ∷ s) = let rest = drop_spaces s in if is_space c then rest else c ∷ s

abbrev pub trim : Text → Text
trim s = reverse (drop_spaces (reverse (drop_spaces s)))

-- The value of a digit in some radix.
abbrev pub digit_value : ℕ → Option ℕ
digit_value c =
    if leb b'0' c && leb c b'9'
    then some (c - b'0')
    else if leb b'a' c && leb c b'f'
    then some (c - 87)
    else if leb b'A' c && leb c b'F'
    then some (c - 55)
    else none

-- Reads digits as far as they go.
unfoldable pub read_digits : ℕ → ℕ → Text → ℕ × Text
read_digits radix acc [] = (acc, [])
read_digits radix acc (c ∷ s) = elim (digit_value c) [
  | some d ↦
      let rest = read_digits radix (acc * radix + d) s in if ltb d radix then rest else (acc, c ∷ s)
  | none ↦ (acc, c ∷ s)
]

-- A number before it is rounded: `scaled neg m up e` is m · 10^e or m · 10^(-e), with its sign.
pub data Numeral : Type 0 where
  nan : Numeral
  infinite : Bool → Numeral
  scaled : Bool → ℕ → Bool → ℕ → Numeral

-- Digits up to the end of the text, one at least.
unfoldable pub whole : ℕ → Text → Option ℕ
unfolding read_digits
whole radix [] = none
whole radix (c ∷ s) = elim (digit_value c) [
  | some d ↦
      let (n, rest) = read_digits radix 0 (c ∷ s) in
      if ltb d radix && is_blank rest then some n else none
  | none ↦ none
]

abbrev pub signed : Text → Bool × Text
signed [] = (false, [])
signed (c ∷ s) = if c == b'-' then (true, s) else if c == b'+' then (false, s) else (false, c ∷ s)

-- m · 10^e or m · 10^(-e), over 10^f.
abbrev shifted : Bool → ℕ → ℕ → Bool → ℕ → Numeral
shifted neg m f up e =
    if not up
    then scaled neg m false (e + f)
    else if leb f e
    then scaled neg m true (e - f)
    else scaled neg m false (f - e)

abbrev exponent : Bool → ℕ → ℕ → Bool × Text → Numeral
exponent neg m f (down, s) = elim (whole 10 s) [
  | some e ↦ shifted neg m f (not down) e
  | none ↦ nan
]

-- What follows the digits, `f` of which stand behind the dot: nothing, or an exponent.
abbrev after_digits : Bool → ℕ → ℕ → Text → Numeral
after_digits neg m f [] = shifted neg m f true 0
after_digits neg m f (c ∷ s) = if c == b'e' || c == b'E' then exponent neg m f (signed s) else nan

abbrev pub is_digit : ℕ → Bool
is_digit c = leb b'0' c && leb c b'9'

abbrev pub starts_with_digit : Text → Bool
starts_with_digit [] = false
starts_with_digit (c ∷ s) = is_digit c

-- The digits behind a dot, after those before it, of which there may be none.
abbrev after_whole : Bool → Bool → ℕ × Text → Numeral
after_whole neg some_digits (m, []) = if some_digits then after_digits neg m 0 [] else nan
after_whole neg some_digits (m, c ∷ s) =
    if c == b'.'
    then (if some_digits || starts_with_digit s
        then after_digits neg (read_digits 10 m s).0 (length s - length (read_digits 10 m s).1)
            (read_digits 10 m s).1
        else nan)
    else if some_digits
    then after_digits neg m 0 (c ∷ s)
    else nan

abbrev pub unsigned : Bool × Text → Numeral
unsigned (neg, s) =
    if text_eq s (codes "Infinity")
    then infinite neg
    else after_whole neg (starts_with_digit s) (read_digits 10 0 s)

abbrev or_nan : Option ℕ → Numeral
or_nan none = nan
or_nan (some n) = scaled false n true 0

-- The radix that a letter after "0" asks for.
abbrev pub radix_of : ℕ → Option ℕ
radix_of c =
    if c == b'x' || c == b'X'
    then some 16
    else if c == b'o' || c == b'O'
    then some 8
    else if c == b'b' || c == b'B'
    then some 2
    else none

-- A number without white space around it.
unfoldable pub literal_of : Text → Numeral
unfolding whole read_digits
literal_of [] = scaled false 0 true 0
literal_of (c ∷ []) = unsigned (signed (c ∷ []))
literal_of (c ∷ x ∷ s) = elim (radix_of x) [
  | some r ↦ if c == b'0' then or_nan (whole r s) else unsigned (signed (c ∷ x ∷ s))
  | none ↦ unsigned (signed (c ∷ x ∷ s))
]

-- `Number(s)`
unfoldable pub number_of : Text → Numeral
unfolding literal_of
number_of s = literal_of (trim s)
