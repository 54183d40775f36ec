-- ===== src/Console/Number/Digits.antt =====
-- The texts of whole numbers are read as these numbers.
use mathlib.Core.Path.{subst}
use net_conductor.Base.{
  ℕ, zero, suc, ◌+◌, ◌*◌, ◌-◌, ◌/◌, ◌%◌, ◌<◌, ◌≡◌, refl, ap, sym, ◌∙◌, true, false, ◌==◌, none, [],
  ◌∷◌, ◌++◌, ltb, reverse, Bool-cases, inl, inr, arith, All, All-append, All-reverse,
  reverse-reverse, if_both, lt→ltb,
}
use net_conductor.Base.Text.{Text}
use net_conductor.Base.Decimal.{decimal, digits}
use net_conductor.Console.Number.{
  is_space, drop_spaces, trim, read_digits, scaled, signed, unsigned, is_digit, literal_of,
  number_of, radix_of,
}

abbrev pub IsDigits : Text → Type 0
IsDigits = All (λ c. is_digit c ≡ true)

digit-cases : (n : ℕ) → ltb n 10 ≡ true → is_digit (b'0' + n) ≡ true
digit-cases n h = ground arith

digits-IsDigits : (f n : ℕ) → IsDigits (digits f n)
unfolding digits
digits-IsDigits zero n = tt
digits-IsDigits (suc f) n =
    if_both IsDigits (ltb n 10) _ _ (λ q. (digit-cases n q, tt))
      (λ q.
        All-append (λ c. is_digit c ≡ true) (digits f (n / 10)) ((b'0' + n % 10) ∷ [])
          (digits-IsDigits f (n / 10)) last)
  where
    last : IsDigits ((b'0' + n % 10) ∷ [])
    last = (digit-cases (n % 10) (lt→ltb (n % 10) 10 (omega arith)), tt)

-- The number that digits write, behind `acc`.
abbrev value : ℕ → Text → ℕ
value acc [] = acc
value acc (c ∷ s) = value (acc * 10 + (c - b'0')) s

value-snoc : (acc c : ℕ) (s : Text) → value acc (s ++ c ∷ []) ≡ value acc s * 10 + (c - b'0')
value-snoc acc c [] = refl
value-snoc acc c (d ∷ s) = value-snoc (acc * 10 + (d - b'0')) c s

value-digits : (f n : ℕ) → n < f → value 0 (digits f n) ≡ n
unfolding digits
value-digits zero n k = omega arith
value-digits (suc f) n k = elim (Bool-cases (ltb n 10)) [
  | inl q ↦ rw q (omega arith)
  | inr q ↦
      rw
        (
          q,
          value-snoc 0 (b'0' + n % 10) (digits f (n / 10)),
          value-digits f (n / 10) (tenth n f k q),
        )
        (omega arith)
]
  where
    tenth : (n f : ℕ) → n < suc f → ltb n 10 ≡ false → n / 10 < f
    tenth n f k q = ground arith

digit_small : (c : ℕ) → is_digit c ≡ true → ltb (c - b'0') 10 ≡ true
digit_small c h = ground arith

read-IsDigits : (acc : ℕ) (s : Text) → IsDigits s → read_digits 10 acc s ≡ (value acc s, [])
unfolding read_digits
read-IsDigits acc [] h = refl
read-IsDigits acc (c ∷ s) (h, hs) =
    rw (h, digit_small c h, read_digits) (read-IsDigits (acc * 10 + (c - b'0')) s hs)

pub digit_not :
    (c : ℕ)
    → is_digit c ≡ true
    → ((c == b'.') ≡ false)
      × (is_space c ≡ false)
      × (radix_of c ≡ none)
      × ((c == b'-') ≡ false)
      × ((c == b'+') ≡ false)
      × ((c == b'I') ≡ false)
digit_not c h = ground arith

digits-drop : (s : Text) → IsDigits s → drop_spaces s ≡ s
digits-drop [] h = refl
digits-drop (c ∷ s) (h, hs) = rw (digit_not c h).1 refl

digits-trim : (s : Text) → IsDigits s → trim s ≡ s
digits-trim s h =
    ap (λ t. reverse (drop_spaces (reverse t))) (digits-drop s h)
    ∙ ap reverse (digits-drop (reverse s) (All-reverse (λ c. is_digit c ≡ true) s h))
    ∙ reverse-reverse s

unsigned-digits :
    (c : ℕ) (s : Text)
    → IsDigits (c ∷ s)
    → unsigned (signed (c ∷ s)) ≡ scaled false (value 0 (c ∷ s)) true 0
unfolding read_digits
unsigned-digits c s (h, hs) =
    let (dot, space, radix, minus, plus, letter) = digit_not c h in
    rw (minus, plus, letter, h, read-IsDigits 0 (c ∷ s) (h, hs)) refl

-- A text of digits is read as the number that they write.
number-digits :
    (c : ℕ) (s : Text)
    → IsDigits (c ∷ s)
    → number_of (c ∷ s) ≡ scaled false (value 0 (c ∷ s)) true 0
unfolding number_of literal_of
number-digits c [] h = ap literal_of (digits-trim (c ∷ []) h) ∙ unsigned-digits c [] h
number-digits c (x ∷ s) (h, (hx, hs)) =
    ap literal_of (digits-trim (c ∷ x ∷ s) (h, (hx, hs)))
    ∙ rw ((digit_not x hx).2, literal_of) (unsigned-digits c (x ∷ s) (h, (hx, hs)))

abbrev pub Nonempty : Text → Type 0
Nonempty t = (c : ℕ) × (s : Text) × (t ≡ c ∷ s)

snoc-Nonempty : (s : Text) (c : ℕ) → Nonempty (s ++ c ∷ [])
snoc-Nonempty [] c = (c, [], refl)
snoc-Nonempty (d ∷ s) c = (d, s ++ c ∷ [], refl)

pub decimal-Nonempty : (n : ℕ) → Nonempty (decimal n)
unfolding decimal digits
decimal-Nonempty n =
    if_both Nonempty (ltb n 10) _ _ (λ q. snoc-Nonempty [] (b'0' + n))
      (λ q. snoc-Nonempty (digits n (n / 10)) (b'0' + n % 10))

pub decimal-IsDigits : (n : ℕ) → IsDigits (decimal n)
unfolding decimal
decimal-IsDigits n = digits-IsDigits (suc n) n

-- A number of a version, as `number_of` reads it.
pub number-decimal : (n : ℕ) → number_of (decimal n) ≡ scaled false n true 0
unfolding decimal
number-decimal n =
    let (c, s, e) = decimal-Nonempty n in
    ap number_of e
    ∙ number-digits c s (subst IsDigits e (decimal-IsDigits n))
    ∙ ap (λ k. scaled false k true 0) (ap (value 0) (sym e) ∙ value-digits (suc n) n (omega arith))
