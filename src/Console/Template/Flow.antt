-- ===== src/Console/Template/Flow.antt =====
-- Where a template leaves a reader of markup, whatever its values are.
use net_conductor.Base.{
  ℕ, zero, suc, ◌≡◌, refl, ap, sym, ◌∙◌, ==_iff, Bool, true, false, ◌&&◌, Option, none, some, [],
  ◌==◌, if◌then◌else◌,
}
use net_conductor.Console.Template.{
  Piece, Template, Rows, raw, escaped, bare, number, choice, nested, each, end, ◌⨾◌, no_rows, row,
}
use net_conductor.Console.Template.Tags.{
  Mode, in_text, in_tag, in_double, in_single, is_tag, mode_after, is_plain,
}

-- A template without the values: each of them is replaced by the empty text.
unfoldable mutual
  pub blank_piece : Piece → Piece
  blank_piece (raw s) = raw s
  blank_piece (escaped s) = escaped []
  blank_piece (bare s) = bare []
  blank_piece (number n) = bare []
  blank_piece (choice b x y) = choice b (blank x) (blank y)
  blank_piece (nested x) = nested (blank x)
  blank_piece (each rs) = each (blank_rows rs)

  pub blank : Template → Template
  blank end = end
  blank (p ⨾ t) = blank_piece p ⨾ blank t

  pub blank_rows : Rows → Rows
  blank_rows no_rows = no_rows
  blank_rows (row t rs) = row (blank t) (blank_rows rs)

abbrev pub mode_number : Mode → ℕ
mode_number in_text = 0
mode_number in_tag = 1
mode_number in_double = 2
mode_number in_single = 3

abbrev numbered : ℕ → Mode
numbered zero = in_text
numbered (suc zero) = in_tag
numbered (suc (suc zero)) = in_double
numbered (suc (suc (suc n))) = in_single

numbered-mode_number : (m : Mode) → numbered (mode_number m) ≡ m
numbered-mode_number in_text = refl
numbered-mode_number in_tag = refl
numbered-mode_number in_double = refl
numbered-mode_number in_single = refl

pub same_mode : (m n : Mode) → (mode_number m == mode_number n) ≡ true → m ≡ n
same_mode m n h =
    sym (numbered-mode_number m)
    ∙ ap numbered ((==_iff (mode_number m) (mode_number n)).0 h)
    ∙ numbered-mode_number n

-- Both branches of a choice end in the same mode.
abbrev pub agree : Option Mode → Option Mode → Option Mode
agree none n = none
agree (some m) none = none
agree (some m) (some n) = if mode_number m == mode_number n then some m else none

-- A row ends in the mode in which the next one starts.
abbrev pub stays : Mode → Option Mode → Bool
stays m none = false
stays m (some n) = mode_number m == mode_number n

abbrev pub outside : Mode → Option Mode
outside m = if is_tag m then none else some m

abbrev pub and_then : Option Mode → (Mode → Option Mode) → Option Mode
and_then none f = none
and_then (some m) f = f m

abbrev pub guarded : Bool → Option Mode → Option Mode
guarded false o = none
guarded true o = o

-- Where a reader that starts in a mode gets to, whatever the values are: `none` if it depends on
-- them, or if a value stands in a tag outside of quotes.
unfoldable mutual
  unfolding mode_after

  pub flow_piece : Mode → Piece → Option Mode
  flow_piece m (raw s) = some (mode_after m s)
  flow_piece m (escaped s) = outside m
  flow_piece m (bare s) = outside m
  flow_piece m (number n) = outside m
  flow_piece m (choice b x y) = agree (flow m x) (flow m y)
  flow_piece m (nested x) = flow m x
  flow_piece m (each rs) = flow_rows m rs

  pub flow : Mode → Template → Option Mode
  flow m end = some m
  flow m (p ⨾ t) = and_then (flow_piece m p) (λ n. flow n t)

  pub flow_rows : Mode → Rows → Option Mode
  flow_rows m no_rows = some m
  flow_rows m (row t rs) = guarded (stays m (flow m t)) (flow_rows m rs)

-- Every value that is inserted bare is a plain text.
unfoldable mutual
  pub is_clean_piece : Piece → Bool
  is_clean_piece (raw s) = true
  is_clean_piece (escaped s) = true
  is_clean_piece (bare s) = is_plain s
  is_clean_piece (number n) = true
  is_clean_piece (choice b x y) = is_clean x && is_clean y
  is_clean_piece (nested x) = is_clean x
  is_clean_piece (each rs) = is_clean_rows rs

  pub is_clean : Template → Bool
  is_clean end = true
  is_clean (p ⨾ t) = is_clean_piece p && is_clean t

  pub is_clean_rows : Rows → Bool
  is_clean_rows no_rows = true
  is_clean_rows (row t rs) = is_clean t && is_clean_rows rs
