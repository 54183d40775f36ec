-- ===== src/Remote/Files/Paths/Laws.antt =====
-- A name that the check accepts names an entry of the current directory.
use net_conductor.Base.{ℕ, ◌≡◌, ◌≢◌, refl, ap, Bool, true, false, ◌||◌, [], ◌∷◌, ◌++◌, All, arith}
use net_conductor.Base.Text.{Text}
use net_conductor.Remote.Files.Paths.{
  slash, strip_slash, join, is_last_name, cut_last, or_root, parent, has_separator, is_refused,
}

abbrev HasNoSlash : Text → Type 0
HasNoSlash = All (λ c. c ≢ slash)

no_slash : (n : Text) → has_separator n ≡ false → HasNoSlash n
unfolding has_separator
no_slash [] h = tt
no_slash (c ∷ n) h = ground (arith, no_slash n)

is_last_name_lem :
    (begun : Bool) (c : ℕ) (n : Text) → HasNoSlash (c ∷ n) → is_last_name begun (c ∷ n) ≡ true
unfolding is_last_name
is_last_name_lem begun c [] (p, h) = ground arith
is_last_name_lem begun c (d ∷ n) (p, h) = ground (arith, is_last_name_lem true d n h)

-- A text with a slash before its last character is no single name.
is_last_name-slash :
    (begun : Bool) (p : Text) (d : ℕ) (n : Text) → is_last_name begun (p ++ slash ∷ d ∷ n) ≡ false
unfolding is_last_name
is_last_name-slash begun [] d n = ground arith
is_last_name-slash begun (c ∷ []) d n = ground arith
is_last_name-slash begun (c ∷ e ∷ p) d n = ground (arith, is_last_name-slash true (e ∷ p) d n)

cut_last-join :
    (p : Text) (c : ℕ) (n : Text) → HasNoSlash (c ∷ n) → cut_last (p ++ slash ∷ c ∷ n) ≡ p
unfolding cut_last
cut_last-join [] c n h = ground (arith, is_last_name_lem false c n h)
cut_last-join (d ∷ p) c n h = ground (arith, is_last_name-slash false p c n, cut_last-join p c n h)

first_false : (a b : Bool) → (a || b) ≡ false → a ≡ false
first_false true b e = cc
first_false false b e = refl

-- For every directory and every name that is not empty and that the check for a new name accepts:
-- the directory above the joined path is the current one, without a slash at its end, or "/".
pub parent-join :
    (current : Text) (n : Text)
    → n ≢ []
    → is_refused n ≡ false
    → parent (join current n) ≡ or_root (strip_slash current)
unfolding parent join is_refused
parent-join current [] given ok = absurd (given refl)
parent-join current (c ∷ n) given ok = ap or_root (
    cut_last-join (strip_slash current) c n
      (no_slash (c ∷ n) (first_false (has_separator (c ∷ n)) _ ok)))
