-- ===== src/Console/Markup/Reading.antt =====
-- What a browser reads where `esc` wrote a text: in an attribute up to the quote, or between tags
-- up to the next "<".
use mathlib.Core.Path.{subst}
use net_conductor.Base.{
  ℕ, zero, suc, ◌≤◌, ◌<◌, ◌≡◌, refl, ap, ◌∙◌, Bool, true, false, ◌||◌, ◌⊎◌, sym, ==_iff, ==_refl,
  Option, none, some, List, [], ◌∷◌, ◌++◌, ◌==◌, if◌then◌else◌, arith, length, length-append,
  append_assoc, Bool-cases, inl, inr,
}
use net_conductor.Base.Text.{Text, codes}
use net_conductor.Console.Markup.{replacement, esc}

unfoldable strip_prefix : Text → Text → Option Text
strip_prefix [] s = some s
strip_prefix (p ∷ ps) [] = none
strip_prefix (p ∷ ps) (c ∷ s) = if p == c then strip_prefix ps s else none

-- The first of some names that a text begins with, as its character, and what follows it.
unfoldable named : List (Text × ℕ) → Text → Option (ℕ × Text)
unfolding strip_prefix
named [] s = none
named ((n, c) ∷ ns) s = elim (strip_prefix n s) [ some r ↦ some (c, r) | none ↦ named ns s ]

-- The character references of HTML that `esc` writes, after their ampersand.
abbrev references : List (Text × ℕ)
references =
    (codes "amp;", b'&')
    ∷ (codes "lt;", b'<')
    ∷ (codes "gt;", b'>')
    ∷ (codes "quot;", b'"')
    ∷ (codes "#39;", b'\'')
    ∷ []

abbrev before : ℕ → Option (Text × Text) → Option (Text × Text)
before c none = none
before c (some (s, r)) = some (c ∷ s, r)

-- Reads up to the character `stop`, with the references decoded; each round takes a character.
unfoldable read_rounds : ℕ → ℕ → Text → Option (Text × Text)
read_rounds zero stop s = none
read_rounds (suc n) stop [] = none
read_rounds (suc n) stop (c ∷ s) =
    if c == stop
    then some ([], s)
    else if c == b'&'
    then elim (named references s) [
      | some (d, r) ↦ before d (read_rounds n stop r)
      | none ↦ before c (read_rounds n stop s)
    ]
    else before c (read_rounds n stop s)

unfoldable pub read_until : ℕ → Text → Option (Text × Text)
unfolding read_rounds named strip_prefix
read_until stop s = read_rounds (length s) stop s

-- The characters that end an attribute or a text.
abbrev pub is_stop : ℕ → Bool
is_stop c = c == b'<' || (c == b'"' || c == b'\'')

-- A character is replaced by a reference to it, or it stays and stops nothing.
abbrev Standing : Text → ℕ → Type 0
Standing s c =
    ((t : Text) × (replacement c ++ s ≡ b'&' ∷ t) × (named references t ≡ some (c, s)))
    ⊎ ((replacement c ++ s ≡ c ∷ s) × ((c == b'&') ≡ false) × (is_stop c ≡ false))

replaced : (s : Text) (c d : ℕ) → (c == d) ≡ true → Standing s d → Standing s c
replaced s c d q v = subst (Standing s) (sym ((==_iff c d).0 q)) v

replacement-cases : (s : Text) (c : ℕ) → Standing s c
unfolding replacement named strip_prefix
replacement-cases s c = elim (Bool-cases (c == b'&')) [
  | inl q ↦ replaced s c b'&' q (inl (_, refl, refl))
  | inr amp ↦ elim (Bool-cases (c == b'<')) [
    | inl q ↦ replaced s c b'<' q (inl (_, refl, refl))
    | inr lt ↦ elim (Bool-cases (c == b'>')) [
      | inl q ↦ replaced s c b'>' q (inl (_, refl, refl))
      | inr gt ↦ elim (Bool-cases (c == b'"')) [
        | inl q ↦ replaced s c b'"' q (inl (_, refl, refl))
        | inr quot ↦ elim (Bool-cases (c == b'\'')) [
          | inl q ↦ replaced s c b'\'' q (inl (_, refl, refl))
          | inr apos ↦ inr (rw (amp, lt, gt, quot, apos) refl, amp, rw (lt, quot, apos) refl)
        ]
      ]
    ]
  ]
]

-- What ends a text is no ampersand, and equals no character that stays.
stop_amp : (stop : ℕ) → is_stop stop ≡ true → (b'&' == stop) ≡ false
stop_amp stop h = ground arith

stop_other : (c stop : ℕ) → is_stop stop ≡ true → is_stop c ≡ false → (c == stop) ≡ false
stop_other c stop h o = ground arith

-- One character comes back from its replacement.
read_replacement :
    (n c stop : ℕ) (s : Text)
    → is_stop stop ≡ true
    → read_rounds (suc n) stop (replacement c ++ s) ≡ before c (read_rounds n stop s)
unfolding read_rounds
read_replacement n c stop s h = elim (replacement-cases s c) [
  | inl (t, e, f) ↦ ap (read_rounds (suc n) stop) e ∙ rw (stop_amp stop h, f) refl
  | inr (e, amp, other) ↦ ap (read_rounds (suc n) stop) e ∙ rw (stop_other c stop h other, amp) refl
]

read_esc :
    (s : Text) (n stop : ℕ) (r : Text)
    → is_stop stop ≡ true
    → length s < n
    → read_rounds n stop (esc s ++ stop ∷ r) ≡ some (s, r)
unfolding esc read_rounds
read_esc s zero stop r h k = elim (none_left (length s) k) [ ]
  where
    none_left : (m : ℕ) → ¬ (m < 0)
    none_left m k = omega arith
read_esc [] (suc n) stop r h k = rw (==_refl stop) refl
read_esc (c ∷ s) (suc n) stop r h k =
    ap (read_rounds (suc n) stop) (append_assoc (replacement c) (esc s) (stop ∷ r))
    ∙ read_replacement n c stop (esc s ++ stop ∷ r) h
    ∙ ap (before c) (read_esc s n stop r h (omega arith))

length-replacement : (c : ℕ) → 1 ≤ length (replacement c)
unfolding replacement
length-replacement c = ground arith

length-esc : (s : Text) → length s ≤ length (esc s)
unfolding esc
length-esc [] = omega arith
length-esc (c ∷ s) =
    omega (arith, length-append (replacement c) (esc s), length-replacement c, length-esc s)

-- Let `stop` be the character that ends a text or an attribute: "<" or a quote of either kind.
-- Whatever text is written there with `esc`, with `stop` and anything else behind it, the browser
-- reads that text, ends it at this `stop`, and goes on with what stands behind it.
pub escaped-read :
    (stop : ℕ) (s r : Text)
    → is_stop stop ≡ true
    → read_until stop (esc s ++ stop ∷ r) ≡ some (s, r)
unfolding read_until
escaped-read stop s r h =
    read_esc s (length (esc s ++ stop ∷ r)) stop r h
      (omega (arith, length-append (esc s) (stop ∷ r), length-esc s))
