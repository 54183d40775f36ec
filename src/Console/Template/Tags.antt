-- ===== src/Console/Template/Tags.antt =====
-- A reader of markup: where it stands in a text, and which characters make up the tags.
use net_conductor.Base.{
  ℕ, zero, suc, ◌+◌, ◌/◌, ◌%◌, ltb, lt→ltb, ◌≡◌, refl, ap, ◌∙◌, Bool, true, false, ◌&&◌, ◌||◌, not,
  [], ◌∷◌, ◌++◌, ◌==◌, if◌then◌else◌, arith, Bool-cases, inl, inr, and_both,
}
use net_conductor.Base.Text.{Text}
use net_conductor.Base.Decimal.{digits, decimal}
use net_conductor.Console.Markup.{replacement, esc}

-- Where a reader of markup stands: in a text, in a tag, or in a quoted attribute of a tag.
pub data Mode : Type 0 where
  in_text : Mode
  in_tag : Mode
  in_double : Mode
  in_single : Mode

abbrev pub is_tag : Mode → Bool
is_tag in_text = false
is_tag in_tag = true
is_tag in_double = false
is_tag in_single = false

unfoldable pub advance : Mode → ℕ → Mode
advance in_text c = if c == b'<' then in_tag else in_text
advance in_tag c =
    if c == b'>'
    then in_text
    else if c == b'"'
    then in_double
    else if c == b'\''
    then in_single
    else in_tag
advance in_double c = if c == b'"' then in_tag else in_double
advance in_single c = if c == b'\'' then in_tag else in_single

-- Whether a character is a part of the tags: of a tag outside its attributes' values, a bracket, or
-- a quote around a value.
unfoldable pub is_mark : Mode → ℕ → Bool
is_mark in_text c = c == b'<'
is_mark in_tag c = true
is_mark in_double c = c == b'"'
is_mark in_single c = c == b'\''

unfoldable pub mode_after : Mode → Text → Mode
unfolding advance
mode_after m [] = m
mode_after m (c ∷ s) = mode_after (advance m c) s

-- The tags of a text, without the values of their attributes and the texts between them.
unfoldable pub tags : Mode → Text → Text
unfolding advance is_mark
tags m [] = []
tags m (c ∷ s) = if is_mark m c then c ∷ tags (advance m c) s else tags (advance m c) s

-- A text without the characters that the markup is made of.
abbrev pub is_plain_char : ℕ → Bool
is_plain_char c = not (c == b'<' || (c == b'>' || (c == b'"' || c == b'\'')))

abbrev pub is_plain : Text → Bool
is_plain [] = true
is_plain (c ∷ s) = is_plain_char c && is_plain s

tags-append : (m : Mode) (s t : Text) → tags m (s ++ t) ≡ tags m s ++ tags (mode_after m s) t
unfolding tags mode_after
tags-append m [] t = refl
tags-append m (c ∷ s) t = elim (Bool-cases (is_mark m c)) [
  | inl q ↦ rw q (ap (λ r. c ∷ r) (tags-append (advance m c) s t))
  | inr q ↦ rw q (tags-append (advance m c) s t)
]

mode_after-append : (m : Mode) (s t : Text) → mode_after m (s ++ t) ≡ mode_after (mode_after m s) t
unfolding mode_after
mode_after-append m [] t = refl
mode_after-append m (c ∷ s) t = mode_after-append (advance m c) s t

-- Outside a tag, a plain text does nothing.
plain-advance :
    (m : Mode) (c : ℕ)
    → is_tag m ≡ false
    → is_plain_char c ≡ true
    → (advance m c ≡ m) × (is_mark m c ≡ false)
unfolding advance is_mark
plain-advance m c out p = ground arith

plain-tags :
    (m : Mode) (s : Text)
    → is_tag m ≡ false
    → is_plain s ≡ true
    → (mode_after m s ≡ m) × (tags m s ≡ [])
unfolding mode_after tags
plain-tags m [] out p = (refl, refl)
plain-tags m (c ∷ s) out p =
    let (h, hs) = and_both (is_plain_char c) (is_plain s) p in
    let (a, k) = plain-advance m c out h in
    let (r, t) = plain-tags m s out hs in (ap (λ n. mode_after n s) a ∙ r, rw (k, a) t)

-- Two texts that a reader in mode `m` leaves in mode `n`, with the same tags.
pub record IsSame (m n : Mode) (s t : Text) : Type 0 where
  pub first_end : mode_after m s ≡ n
  pub second_end : mode_after m t ≡ n
  pub same_tags : tags m s ≡ tags m t

pub raw-IsSame : (m n : Mode) (s : Text) → mode_after m s ≡ n → IsSame m n s s
raw-IsSame m n s e = record { first_end = e; second_end = e; same_tags = refl }

pub append-IsSame :
    (m k n : Mode) (s t s' t' : Text)
    → IsSame m k s t
    → IsSame k n s' t'
    → IsSame m n (s ++ s') (t ++ t')
append-IsSame m k n s t s' t' p q = record {
  first_end = mode_after-append m s s' ∙ ap (λ r. mode_after r s') p.first_end ∙ q.first_end;
  second_end = mode_after-append m t t' ∙ ap (λ r. mode_after r t') p.second_end ∙ q.second_end;
  same_tags =
      rw
        (
          tags-append m s s',
          tags-append m t t',
          p.first_end,
          p.second_end,
          p.same_tags,
          q.same_tags,
        )
        refl;
}

-- Outside a tag, a plain text is as good as none.
pub plain-IsSame : (m : Mode) (s : Text) → is_tag m ≡ false → is_plain s ≡ true → IsSame m m s []
unfolding mode_after tags
plain-IsSame m s out p =
    let (e, t) = plain-tags m s out p in record { first_end = e; second_end = refl; same_tags = t }

pub is_plain-append :
    (s t : Text) → is_plain s ≡ true → is_plain t ≡ true → is_plain (s ++ t) ≡ true
is_plain-append [] t p q = q
is_plain-append (c ∷ s) t p q =
    let (h, hs) = and_both (is_plain_char c) (is_plain s) p in rw (h, is_plain-append s t hs q) refl

digit-plain : (n : ℕ) → ltb n 10 ≡ true → is_plain_char (b'0' + n) ≡ true
digit-plain n h = ground arith

mod_ten : (n : ℕ) → ltb (n % 10) 10 ≡ true
mod_ten n = lt→ltb (n % 10) 10 (omega arith)

digits-plain : (f n : ℕ) → is_plain (digits f n) ≡ true
unfolding digits
digits-plain zero n = refl
digits-plain (suc f) n = elim (Bool-cases (ltb n 10)) [
  | inl q ↦ rw (q, digit-plain n q) refl
  | inr q ↦ rw q (
      is_plain-append (digits f (n / 10)) _ (digits-plain f (n / 10))
        (rw (digit-plain (n % 10) (mod_ten n)) refl))
]

pub decimal-plain : (n : ℕ) → is_plain (decimal n) ≡ true
unfolding decimal
decimal-plain n = digits-plain (suc n) n

replacement-plain : (c : ℕ) → is_plain (replacement c) ≡ true
unfolding replacement
replacement-plain c = ground arith

pub esc-plain : (s : Text) → is_plain (esc s) ≡ true
unfolding esc
esc-plain [] = refl
esc-plain (c ∷ s) = is_plain-append (replacement c) (esc s) (replacement-plain c) (esc-plain s)
