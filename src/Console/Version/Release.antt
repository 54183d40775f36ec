-- ===== src/Console/Version/Release.antt =====
-- The versions that releases have: numbers with dots between them.
use net_conductor.Base.{
  ℕ, ◌*◌, ◌^◌, ◌≡◌, refl, Bool, true, ◌||◌, ◌==◌, some, [], ◌∷◌, ◌++◌, ltb, leb, arith, append-nil,
}
use net_conductor.Base.Text.{Text, codes, text_eq}
use net_conductor.Base.Decimal.{decimal}
use net_conductor.Console.State.{Device, or_else}
use net_conductor.Console.Number.Digits.{
  IsDigits, digit_not, decimal-Nonempty, decimal-IsDigits, number-decimal,
}
use net_conductor.Console.Version.{split, is_positive, at_least_two, version_allows, can_remote}

-- What may follow a number of a version: nothing, or a dot and anything.
abbrev pub is_rest : Text → Bool
is_rest [] = true
is_rest (c ∷ s) = c == b'.'

split-rest : (s : Text) → is_rest s ≡ true → (split s).0 ≡ []
unfolding split
split-rest [] h = refl
split-rest (c ∷ s) h = rw h refl

split-digits : (s t : Text) → IsDigits s → split (s ++ t) ≡ (s ++ (split t).0, (split t).1)
unfolding split
split-digits [] t h = refl
split-digits (c ∷ s) t (h, hs) = rw ((digit_not c h).0, split-digits s t hs) refl

-- An empty version is "0.0"; one that starts with a number is not empty.
version-or_else : (n : ℕ) (t u : Text) → or_else (decimal n ++ t) u ≡ decimal n ++ t
version-or_else n t u = let (c, s, e) = decimal-Nonempty n in rw e refl

split-version :
    (a b : ℕ) (rest : Text)
    → is_rest rest ≡ true
    → split (decimal a ++ b'.' ∷ (decimal b ++ rest)) ≡ (decimal a, decimal b ∷ (split rest).1)
unfolding split
split-version a b rest h =
    rw
      (
        split-digits (decimal a) (b'.' ∷ (decimal b ++ rest)) (decimal-IsDigits a),
        split-digits (decimal b) rest (decimal-IsDigits b),
        split-rest rest h,
        append-nil (decimal a),
        append-nil (decimal b),
      )
      refl

times_one : (b : ℕ) → b * 10 ^ 0 ≡ b
times_one b = omega arith

-- A device whose client has the version "a.b" or "a.b." and anything, with numbers a and b, is
-- allowed exactly if it is the server itself, or a is positive, or b is at least 2.
pub release-allowed :
    (d : Device) (a b : ℕ) (rest : Text)
    → d.agent_version ≡ decimal a ++ b'.' ∷ (decimal b ++ rest)
    → is_rest rest ≡ true
    → can_remote (some d) ≡ (text_eq d.id (codes "cloud") || (ltb 0 a || leb 2 b))
unfolding can_remote version_allows is_positive at_least_two
release-allowed d a b rest e h =
    rw
      (
        e,
        version-or_else a (b'.' ∷ (decimal b ++ rest)) (codes "0.0"),
        split-version a b rest h,
        number-decimal a,
        number-decimal b,
        times_one b,
      )
      refl
