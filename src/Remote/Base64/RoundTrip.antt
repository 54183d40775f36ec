-- ===== src/Remote/Base64/RoundTrip.antt =====
-- What `decode` gives back of an encoded sequence, and how long its results are.
use net_conductor.Base.{
  ℕ, suc, ◌*◌, ◌%◌, ◌≤◌, ◌<◌, ◌≡◌, ◌≢◌, refl, sym, ap, ◌∙◌, false, Option, some, none, List, [],
  ◌∷◌, ◌++◌, map, append_assoc, append-nil, length, Option-cases, inl, inr, All, arith,
}
use net_conductor.Base.Text.{Text}
use net_conductor.Remote.Base64.{
  Bytes, pad, char_of, value_of, sextets, padding, btoa, is_space, remove_spaces, drop_padding,
  values, bytes_of, unpadded, atob, from_chars, decode, append_chars, encode, ◌>>=◌,
}

abbrev pub IsByte : ℕ → Type 0
IsByte n = n < 256

abbrev IsSextet : ℕ → Type 0
IsSextet n = n < 64

value_of-char_of : (n : ℕ) → n < 64 → value_of (char_of n) ≡ some n
unfolding value_of char_of
value_of-char_of n h = ground arith

char_of-ne-pad : (n : ℕ) → n < 64 → char_of n ≢ pad
unfolding char_of
char_of-ne-pad n h = ground arith

is_space-char_of : (n : ℕ) → n < 64 → is_space (char_of n) ≡ false
unfolding char_of is_space
is_space-char_of n h = ground arith

sextets-IsSextet : (b : Bytes) → All IsByte b → All IsSextet (sextets b)
unfolding sextets
sextets-IsSextet [] h = tt
sextets-IsSextet (x ∷ []) h = omega arith
sextets-IsSextet (x ∷ y ∷ []) h = omega arith
sextets-IsSextet (x ∷ y ∷ z ∷ s) (p, (q, (r, h))) =
    (omega arith, (omega arith, (omega arith, (omega arith, sextets-IsSextet s h))))

bytes_of-sextets : (b : Bytes) → All IsByte b → bytes_of (sextets b) ≡ some b
unfolding sextets bytes_of
bytes_of-sextets [] h = refl
bytes_of-sextets (x ∷ []) h = ground arith
bytes_of-sextets (x ∷ y ∷ []) h = ground arith
bytes_of-sextets (x ∷ y ∷ z ∷ s) (p, (q, (r, h))) = ground (arith, bytes_of-sextets s h)

values-map-char_of : (v : List ℕ) → All IsSextet v → values (map char_of v) ≡ some v
unfolding values
values-map-char_of [] h = refl
values-map-char_of (n ∷ v) (p, h) = rw (value_of-char_of n p, values-map-char_of v h)

-- What the encoder writes holds no space and, before the padding, no `=`.
remove_spaces-map-char_of :
    (v : List ℕ) (p : Text)
    → All IsSextet v
    → remove_spaces (map char_of v ++ p) ≡ map char_of v ++ remove_spaces p
unfolding remove_spaces
remove_spaces-map-char_of [] p h = refl
remove_spaces-map-char_of (n ∷ v) p (q, h) =
    rw (is_space-char_of n q, remove_spaces-map-char_of v p h)

abbrev IsUnpadded : Text → Type 0
IsUnpadded = All (λ c. c ≢ pad)

map-char_of-IsUnpadded : (v : List ℕ) → All IsSextet v → IsUnpadded (map char_of v)
map-char_of-IsUnpadded [] h = tt
map-char_of-IsUnpadded (n ∷ v) (p, h) = (char_of-ne-pad n p, map-char_of-IsUnpadded v h)

drop_padding-none : (s : Text) → IsUnpadded s → drop_padding s ≡ s
unfolding drop_padding
drop_padding-none [] h = refl
drop_padding-none (c ∷ []) h = ground arith
drop_padding-none (c ∷ d ∷ []) h = ground arith
drop_padding-none (c ∷ d ∷ e ∷ s) (p, h) = ap (c ∷◌) (drop_padding-none (d ∷ e ∷ s) h)

drop_padding-one : (s : Text) → IsUnpadded s → drop_padding (s ++ pad ∷ []) ≡ s
unfolding drop_padding
drop_padding-one [] h = refl
drop_padding-one (c ∷ []) h = ground arith
drop_padding-one (c ∷ d ∷ []) (p, h) = ap (c ∷◌) (drop_padding-one (d ∷ []) h)
drop_padding-one (c ∷ d ∷ e ∷ s) (p, h) = ap (c ∷◌) (drop_padding-one (d ∷ e ∷ s) h)

drop_padding_two : (s : Text) → IsUnpadded s → drop_padding (s ++ pad ∷ pad ∷ []) ≡ s
unfolding drop_padding
drop_padding_two [] h = refl
drop_padding_two (c ∷ []) (p, h) = ap (c ∷◌) (drop_padding_two [] h)
drop_padding_two (c ∷ d ∷ []) (p, h) = ap (c ∷◌) (drop_padding_two (d ∷ []) h)
drop_padding_two (c ∷ d ∷ e ∷ s) (p, h) = ap (c ∷◌) (drop_padding_two (d ∷ e ∷ s) h)

remove_spaces-padding : (b : Bytes) → remove_spaces (padding b) ≡ padding b
unfolding remove_spaces padding is_space
remove_spaces-padding [] = refl
remove_spaces-padding (x ∷ []) = refl
remove_spaces-padding (x ∷ y ∷ []) = refl
remove_spaces-padding (x ∷ y ∷ z ∷ s) = remove_spaces-padding s

drop_padding-padding : (b : Bytes) (s : Text) → IsUnpadded s → drop_padding (s ++ padding b) ≡ s
unfolding padding
drop_padding-padding [] s h = rw append-nil (drop_padding-none s h)
drop_padding-padding (x ∷ []) s h = drop_padding_two s h
drop_padding-padding (x ∷ y ∷ []) s h = drop_padding-one s h
drop_padding-padding (x ∷ y ∷ z ∷ b) s h = drop_padding-padding b s h

length-btoa : (b : Bytes) → length (map char_of (sextets b) ++ padding b) % 4 ≡ 0
unfolding sextets padding
length-btoa [] = refl
length-btoa (x ∷ []) = refl
length-btoa (x ∷ y ∷ []) = refl
length-btoa (x ∷ y ∷ z ∷ b) = omega (arith, length-btoa b)

unpadded-btoa :
    (b : Bytes)
    → All IsByte b
    → unpadded (map char_of (sextets b) ++ padding b) ≡ map char_of (sextets b)
unfolding unpadded
unpadded-btoa b h =
    rw (length-btoa b) (drop_padding-padding b _ (map-char_of-IsUnpadded _ (sextets-IsSextet b h)))

atob-btoa : (b : Bytes) → All IsByte b → atob (btoa b) ≡ some b
unfolding atob btoa
atob-btoa b h =
    rw
      (
        remove_spaces-map-char_of (sextets b) (padding b) (sextets-IsSextet b h),
        remove_spaces-padding b,
        unpadded-btoa b h,
        values-map-char_of (sextets b) (sextets-IsSextet b h),
      )
      (bytes_of-sextets b h)

from_chars_lem : (b : Bytes) → All IsByte b → from_chars b ≡ b
from_chars_lem [] h = refl
from_chars_lem (x ∷ b) (p, h) = ground (arith, from_chars_lem b h)

append_chars_lem : (s : Text) (b : Bytes) → append_chars s b ≡ s ++ b
unfolding append_chars
append_chars_lem s [] = sym (append-nil s)
append_chars_lem s (n ∷ b) = append_chars_lem (s ++ n ∷ []) b ∙ append_assoc s (n ∷ []) b

-- Every byte sequence comes back from its encoding.
pub decode-encode : (b : Bytes) → All IsByte b → decode (encode b) ≡ some b
unfolding decode encode
decode-encode b h = rw (append_chars_lem [] b, atob-btoa b h) (ap some (from_chars_lem b h))

length-bytes_of : (v : List ℕ) (b : Bytes) → bytes_of v ≡ some b → length b * 4 ≤ length v * 3
unfolding bytes_of
length-bytes_of [] b e = ground arith
length-bytes_of (x ∷ []) b e = ground arith
length-bytes_of (x ∷ y ∷ []) b e = ground arith
length-bytes_of (x ∷ y ∷ z ∷ []) b e = ground arith
length-bytes_of (x ∷ y ∷ z ∷ w ∷ v) b e = elim (Option-cases (bytes_of v)) [
  | inl stop ↦ ground arith
  | inr (r, go) ↦ ground (arith, length-bytes_of v r go)
]

length-values : (s : Text) (v : List ℕ) → values s ≡ some v → length v ≡ length s
unfolding values
length-values [] v e = ground arith
length-values (c ∷ s) v e = elim (Option-cases (values s)) [
  | inl stop ↦ ground arith
  | inr (r, go) ↦ ground (arith, length-values s r go)
]

length-drop_padding : (s : Text) → length (drop_padding s) ≤ length s
unfolding drop_padding
length-drop_padding [] = omega arith
length-drop_padding (c ∷ []) = ground arith
length-drop_padding (c ∷ d ∷ []) = ground arith
length-drop_padding (c ∷ d ∷ e ∷ s) = omega (arith, length-drop_padding (d ∷ e ∷ s))

length-remove_spaces : (s : Text) → length (remove_spaces s) ≤ length s
unfolding remove_spaces
length-remove_spaces [] = omega arith
length-remove_spaces (c ∷ s) = ground (arith, length-remove_spaces s)

length-unpadded : (s : Text) → length (unpadded s) ≤ length s
unfolding unpadded
length-unpadded s = ground (arith, length-drop_padding s)

length-from_chars : (s : Text) → length (from_chars s) ≡ length s
length-from_chars [] = refl
length-from_chars (c ∷ s) = ap suc (length-from_chars s)

-- A decoded sequence is at most three quarters of its text.
pub length-decode : (s : Text) (b : Bytes) → decode s ≡ some b → length b * 4 ≤ length s * 3
unfolding decode atob
length-decode s b e = go (values (unpadded (remove_spaces s))) refl e
  where
    go :
        (o : Option (List ℕ))
        → values (unpadded (remove_spaces s)) ≡ o
        → ((o >>= bytes_of) >>= λ t. some (from_chars t)) ≡ some b
        → length b * 4 ≤ length s * 3
    go none ev eb = cc
    go (some v) ev eb = elim (Option-cases (bytes_of v)) [
      | inl stop ↦ ground arith
      | inr (t, made) ↦ ground (
        arith,
        length-bytes_of v t made,
        length-values (unpadded (remove_spaces s)) v ev,
        length-unpadded (remove_spaces s),
        length-remove_spaces s,
        length-from_chars t,
      )
    ]
