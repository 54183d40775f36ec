-- ===== src/Console/Format/Plain.antt =====
-- The numbers and times that the pages show are plain texts.
use net_conductor.Base.{
  ℕ, zero, suc, ◌+◌, ◌-◌, ◌/◌, ◌%◌, ◌^◌, ltb, length, if_both, ◌≡◌, refl, true, ◌||◌, ◌∷◌, ◌++◌,
  Bool-cases, inl, inr,
}
use net_conductor.Base.Text.{Text, codes}
use net_conductor.Base.Decimal.{decimal}
use net_conductor.Console.Template.Tags.{is_plain, is_plain-append, decimal-plain}
use net_conductor.Console.State.{is_blank}
use net_conductor.Console.Policy.{starts_with}
use net_conductor.Console.Format.{Host, date, bytes, to_fixed, rounded, zeros}

-- What the host makes of a date, or of a plain text in capitals, is plain.
pub record IsPlainHost (host : Host) : Type 0 where
  pub locale_plain : (s : Text) → is_plain (host.locale_date s) ≡ true
  pub upper_plain : (s : Text) → is_plain s ≡ true → is_plain (host.upper s) ≡ true
  pub clock_plain : is_plain host.clock ≡ true

pub date-plain : (host : Host) (s : Text) → IsPlainHost host → is_plain (date host s) ≡ true
unfolding date
date-plain host s h = elim (Bool-cases (is_blank s || starts_with (codes "0001") s)) [
  | inl q ↦ rw q refl
  | inr q ↦ rw q (h.locale_plain s)
]

zeros-plain : (n : ℕ) → is_plain (zeros n) ≡ true
zeros-plain zero = refl
zeros-plain (suc n) = zeros-plain n

to_fixed-plain : (f n d : ℕ) → is_plain (to_fixed f n d) ≡ true
unfolding to_fixed
to_fixed-plain f n d =
    let k = rounded f n d in
    let rest = decimal (k % 10 ^ f) in
    is_plain-append (decimal (k / 10 ^ f)) (b'.' ∷ zeros (f - length rest) ++ rest)
      (decimal-plain (k / 10 ^ f))
      (is_plain-append (zeros (f - length rest)) rest (zeros-plain (f - length rest))
        (decimal-plain (k % 10 ^ f)))

pub bytes-plain : (n : ℕ) → is_plain (bytes n) ≡ true
unfolding bytes
bytes-plain n =
    if_both (λ s. is_plain s ≡ true) (ltb 1073741824 n) _ _
      (λ q.
        is_plain-append (to_fixed 2 n 1073741824) (codes " GB") (to_fixed-plain 2 n 1073741824)
          refl)
      (λ q.
        if_both (λ s. is_plain s ≡ true) (ltb 1048576 n) _ _
          (λ r.
            is_plain-append (to_fixed 1 n 1048576) (codes " MB") (to_fixed-plain 1 n 1048576) refl)
          (λ r.
            is_plain-append (decimal ((n + 512) / 1024)) (codes " KB")
              (decimal-plain ((n + 512) / 1024)) refl))
