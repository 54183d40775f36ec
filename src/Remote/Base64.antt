-- ===== src/Remote/Base64.antt =====
-- `decode` and `encode` of web/static/remote-ui.js, over the language's `atob` and `btoa`
-- (the forgiving base64 of the HTML standard), which are written out.
pub mod RoundTrip
use net_conductor.Base.{
  ℕ, ◌+◌, ◌-◌, ◌*◌, ◌/◌, ◌%◌, Bool, ◌||◌, ◌&&◌, Option, none, some, List, [], ◌∷◌, ◌++◌, map, ltb,
  leb, ◌==◌, if◌then◌else◌, length,
}
use net_conductor.Base.Text.{Text}

abbrev pub Bytes : Type 0
Bytes = List ℕ

abbrev pub pad : ℕ
pad = b'='

-- The alphabet, as a function of a six-bit value.
char_of : ℕ → ℕ
char_of n =
    if ltb n 26
    then b'A' + n
    else if ltb n 52
    then b'a' + (n - 26)
    else if ltb n 62
    then b'0' + (n - 52)
    else if n == 62
    then b'+'
    else b'/'

value_of : ℕ → Option ℕ
value_of c =
    if leb b'A' c && leb c b'Z'
    then some (c - b'A')
    else if leb b'a' c && leb c b'z'
    then some (c - b'a' + 26)
    else if leb b'0' c && leb c b'9'
    then some (c - b'0' + 52)
    else if c == b'+'
    then some 62
    else if c == b'/'
    then some 63
    else none

-- The six-bit values of a byte sequence, the last one filled up with zero bits.
sextets : Bytes → List ℕ
sextets [] = []
sextets (a ∷ []) = (a / 4) ∷ (a % 4 * 16) ∷ []
sextets (a ∷ b ∷ []) = (a / 4) ∷ (a % 4 * 16 + b / 16) ∷ (b % 16 * 4) ∷ []
sextets (a ∷ b ∷ c ∷ s) =
    (a / 4) ∷ (a % 4 * 16 + b / 16) ∷ (b % 16 * 4 + c / 64) ∷ (c % 64) ∷ sextets s

padding : Bytes → Text
padding [] = []
padding (a ∷ []) = pad ∷ pad ∷ []
padding (a ∷ b ∷ []) = pad ∷ []
padding (a ∷ b ∷ c ∷ s) = padding s

-- `btoa` on a string of bytes
btoa : Text → Text
unfolding char_of sextets padding
btoa s = map char_of (sextets s) ++ padding s

is_space : ℕ → Bool
is_space c = c == 9 || c == 10 || c == 12 || c == 13 || c == 32

remove_spaces : Text → Text
remove_spaces [] = []
remove_spaces (c ∷ s) = if is_space c then remove_spaces s else c ∷ remove_spaces s

-- One or two `=` at the end are dropped.
drop_padding : Text → Text
drop_padding [] = []
drop_padding (c ∷ []) = if c == pad then [] else c ∷ []
drop_padding (c ∷ d ∷ []) = if d == pad then (if c == pad then [] else c ∷ []) else c ∷ d ∷ []
drop_padding (c ∷ d ∷ e ∷ s) = c ∷ drop_padding (d ∷ e ∷ s)

infixl 5 ◌>>=◌
abbrev ◌>>=◌ {ℓ κ} : {A : Type ℓ} {B : Type κ} → Option A → (A → Option B) → Option B
none >>= f = none
some a >>= f = f a

values : Text → Option (List ℕ)
values [] = some []
values (c ∷ s) = do some ((← value_of c) ∷ (← values s))

-- Whole bytes out of six-bit values; a single value left over is an error.
bytes_of : List ℕ → Option Bytes
bytes_of [] = some []
bytes_of (a ∷ []) = none
bytes_of (a ∷ b ∷ []) = some ((a * 4 + b / 16) ∷ [])
bytes_of (a ∷ b ∷ c ∷ []) = some ((a * 4 + b / 16) ∷ (b % 16 * 16 + c / 4) ∷ [])
bytes_of (a ∷ b ∷ c ∷ d ∷ s) = do
  rest ← bytes_of s
  some ((a * 4 + b / 16) ∷ (b % 16 * 16 + c / 4) ∷ (c % 4 * 64 + d) ∷ rest)

unpadded : Text → Text
unfolding drop_padding
unpadded s = if length s % 4 == 0 then drop_padding s else s

-- `atob`; `none` is its exception
atob : Text → Option Text
unfolding is_space remove_spaces unpadded value_of values bytes_of
atob s = do v ← values (unpadded (remove_spaces s)); bytes_of v

-- `Uint8Array.from(atob(s), (c) => c.charCodeAt(0))`
abbrev from_chars : Text → Bytes
from_chars [] = []
from_chars (c ∷ s) = (c % 256) ∷ from_chars s

unfoldable pub decode : Text → Option Bytes
unfolding atob
decode s = do t ← atob s; some (from_chars t)

-- the loop of `encode`: `s += String.fromCharCode(n)`
append_chars : Text → Bytes → Text
append_chars s [] = s
append_chars s (n ∷ b) = append_chars (s ++ n ∷ []) b

unfoldable pub encode : Bytes → Text
unfolding append_chars btoa
encode b = btoa (append_chars [] b)
