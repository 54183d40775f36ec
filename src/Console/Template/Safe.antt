-- ===== src/Console/Template/Safe.antt =====
-- Templates that start and end in a text, and lists of them.
use net_conductor.Base.{◌≡◌, refl, true, some, List, [], ◌∷◌, All}
use net_conductor.Console.Template.{Template, Rows, row, rows, rows_after, joined, show}
use net_conductor.Console.Template.Flow.{blank, flow, flow_rows, is_clean, is_clean_rows}
use net_conductor.Console.Template.Inert.{template-inert}
use net_conductor.Console.Template.Tags.{in_text, mode_after, tags}

-- A template that starts and ends in a text, with clean values.
abbrev pub IsSafe : Template → Type 0
IsSafe t = (flow in_text t ≡ some in_text) × (is_clean t ≡ true)

abbrev pub IsSafeRows : Rows → Type 0
IsSafeRows rs = (flow_rows in_text rs ≡ some in_text) × (is_clean_rows rs ≡ true)

pub row-IsSafeRows : (t : Template) (rs : Rows) → IsSafe t → IsSafeRows rs → IsSafeRows (row t rs)
unfolding flow_rows is_clean_rows
row-IsSafeRows t rs (f, c) (fs, cs) = (rw f fs, rw c cs)

module _ {ℓ} {A : Type ℓ} (f : A → Template) where
  pub rows-IsSafeRows : (xs : List A) → All (λ x. IsSafe (f x)) xs → IsSafeRows (rows f xs)
  unfolding flow_rows is_clean_rows
  rows-IsSafeRows [] h = (refl, refl)
  rows-IsSafeRows (x ∷ xs) (h, hs) = row-IsSafeRows (f x) (rows f xs) h (rows-IsSafeRows xs hs)

  rows_after-IsSafeRows :
      (sep : Template) (xs : List A)
      → IsSafe sep
      → All (λ x. IsSafe (f x)) xs
      → IsSafeRows (rows_after sep f xs)
  unfolding flow_rows is_clean_rows
  rows_after-IsSafeRows sep [] k h = (refl, refl)
  rows_after-IsSafeRows sep (x ∷ xs) k (h, hs) =
      row-IsSafeRows sep (row (f x) (rows_after sep f xs)) k
        (row-IsSafeRows (f x) (rows_after sep f xs) h (rows_after-IsSafeRows sep xs k hs))

  pub joined-IsSafeRows :
      (sep : Template) (xs : List A)
      → IsSafe sep
      → All (λ x. IsSafe (f x)) xs
      → IsSafeRows (joined sep f xs)
  unfolding flow_rows is_clean_rows
  joined-IsSafeRows sep [] k h = (refl, refl)
  joined-IsSafeRows sep (x ∷ xs) k (h, hs) =
      row-IsSafeRows (f x) (rows_after sep f xs) h (rows_after-IsSafeRows sep xs k hs)

-- The text of a template makes no markup but the template's own.
abbrev pub IsInert : Template → Type 0
IsInert t =
    (mode_after in_text (show t) ≡ in_text)
    × (tags in_text (show t) ≡ tags in_text (show (blank t)))

pub safe-IsInert : (t : Template) → IsSafe t → IsInert t
safe-IsInert t (f, c) = template-inert in_text in_text t f c
