-- ===== src/Console/Format.antt =====
-- How web/static/app.js writes numbers of bytes and times.
pub mod Plain
use net_conductor.Base.{
  ℕ, zero, suc, ◌+◌, ◌*◌, ◌/◌, ◌%◌, ◌^◌, ◌-◌, ◌≡◌, refl, Bool, ◌||◌, List, [], ◌∷◌, ◌++◌, length,
  ltb, if◌then◌else◌,
}
use net_conductor.Base.Text.{Text, codes}
use net_conductor.Base.Decimal.{decimal}
use net_conductor.Console.State.{is_blank}
use net_conductor.Console.Policy.{starts_with}

-- What the browser's locale data decides: `new Date(s).toLocaleString("zh-CN", { hour12: false })`,
-- `new Date(1000 * n).toISOString()` for a time in seconds, the clock's
-- `toLocaleTimeString("zh-CN", { hour12: false })`, and `s.toUpperCase()`.
pub record Host : Type 0 where
  pub locale_date : Text → Text
  pub iso_date : ℕ → Text
  pub clock : Text
  pub upper : Text → Text

-- `x.toFixed(f)` for x = n / d: the multiple of 10^(-f) next to x, the greater of two.
unfoldable pub rounded : ℕ → ℕ → ℕ → ℕ
rounded f n d = (2 * n * 10 ^ f + d) / (2 * d)

abbrev pub zeros : ℕ → Text
zeros zero = []
zeros (suc n) = b'0' ∷ zeros n

-- At least `f` digits.
abbrev padded : ℕ → Text → Text
padded f s = zeros (f - length s) ++ s

unfoldable pub to_fixed : ℕ → ℕ → ℕ → Text
unfolding rounded
to_fixed f n d =
    let k = rounded f n d in decimal (k / 10 ^ f) ++ b'.' ∷ padded f (decimal (k % 10 ^ f))

-- `bytes(n)`
unfoldable pub bytes : ℕ → Text
unfolding to_fixed
bytes n =
    if ltb 1073741824 n
    then to_fixed 2 n 1073741824 ++ codes " GB"
    else if ltb 1048576 n
    then to_fixed 1 n 1048576 ++ codes " MB"
    else decimal ((n + 512) / 1024) ++ codes " KB"

-- `date(s)`
unfoldable pub date : Host → Text → Text
date host s =
    if is_blank s || starts_with (codes "0001") s then codes "尚无记录" else host.locale_date s

bytes_test : bytes 1288490189 ≡ codes "1.20 GB"
unfolding bytes decimal
bytes_test = refl
