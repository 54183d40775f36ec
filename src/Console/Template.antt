-- ===== src/Console/Template.antt =====
-- The template strings of web/static/app.js, as data: literal markup, values inserted through
-- `esc` (`${esc(x)}`) or bare (`${x}`), numbers, the choice between two templates (`${b ? … :
-- …}`), a template in another one, and the rows of a `.map(…).join(…)`.
pub mod Tags
pub mod Flow
pub mod Inert
pub mod Safe
use Prim.Native.String.{String}
use net_conductor.Base.{ℕ, Bool, List, [], ◌∷◌, ◌++◌, if◌then◌else◌}
use net_conductor.Base.Text.{Text, codes}
use net_conductor.Base.Decimal.{decimal}
use net_conductor.Console.Markup.{esc}

infixr 66 ◌⨾◌
mutual
  pub data Piece : Type 0 where
    raw : Text → Piece
    escaped : Text → Piece
    bare : Text → Piece
    choice : Bool → Template → Template → Piece
    number : ℕ → Piece
    nested : Template → Piece
    each : Rows → Piece

  pub data Template : Type 0 where
    end : Template
    ◌⨾◌ : Piece → Template → Template

  pub data Rows : Type 0 where
    no_rows : Rows
    row : Template → Rows → Rows

abbrev pub lit : String → Piece
lit s = raw (codes s)

-- `${b ? …}` with a literal for either case.
abbrev pub literal : String → Template
literal s = lit s ⨾ end

-- The text that a template makes.
unfoldable mutual
  pub show_piece : Piece → Text
  show_piece (raw s) = s
  show_piece (escaped s) = esc s
  show_piece (bare s) = s
  show_piece (number n) = decimal n
  show_piece (choice b x y) = if b then show x else show y
  show_piece (nested x) = show x
  show_piece (each rs) = show_rows rs

  pub show : Template → Text
  show end = []
  show (p ⨾ t) = show_piece p ++ show t

  pub show_rows : Rows → Text
  show_rows no_rows = []
  show_rows (row t rs) = show t ++ show_rows rs

-- `xs.map(f).join("")`
abbrev pub rows {ℓ} : {A : Type ℓ} → (A → Template) → List A → Rows
rows f [] = no_rows
rows f (x ∷ xs) = row (f x) (rows f xs)

-- `xs.map(f).join(sep)`
abbrev pub rows_after {ℓ} : {A : Type ℓ} → Template → (A → Template) → List A → Rows
rows_after sep f [] = no_rows
rows_after sep f (x ∷ xs) = row sep (row (f x) (rows_after sep f xs))

abbrev pub joined {ℓ} : {A : Type ℓ} → Template → (A → Template) → List A → Rows
joined sep f [] = no_rows
joined sep f (x ∷ xs) = row (f x) (rows_after sep f xs)
