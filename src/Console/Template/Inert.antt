-- ===== src/Console/Template/Inert.antt =====
-- What a template's values can do to the markup around them: nothing, where they stand in a text or
-- between quotes.
use mathlib.Core.Path.{subst}
use net_conductor.Base.{
  ◌≡◌, refl, ap, sym, ◌∙◌, Bool, true, false, Option, none, some, [], ◌==◌, Bool-cases, inl, inr,
  and_both,
}
use net_conductor.Base.Text.{Text}
use net_conductor.Base.Decimal.{decimal}
use net_conductor.Console.Markup.{esc}
use net_conductor.Console.Template.{
  Piece, Template, Rows, raw, escaped, bare, number, choice, nested, each, end, ◌⨾◌, no_rows, row,
  show, show_piece, show_rows,
}
use net_conductor.Console.Template.Flow.{
  blank, blank_piece, blank_rows, mode_number, agree, stays, outside, and_then, guarded, same_mode,
  flow, flow_piece, flow_rows, is_clean, is_clean_piece, is_clean_rows,
}
use net_conductor.Console.Template.Tags.{
  Mode, in_text, in_tag, in_double, in_single, is_tag, mode_after, tags, is_plain, IsSame,
  raw-IsSame, append-IsSame, plain-IsSame, esc-plain, decimal-plain,
}

outside_is : (m n : Mode) → outside m ≡ some n → (is_tag m ≡ false) × (m ≡ n)
outside_is in_text n f = (refl, cc)
outside_is in_tag n f = cc
outside_is in_double n f = (refl, cc)
outside_is in_single n f = (refl, cc)

outside-IsSame : (m n : Mode) (s : Text) → is_plain s ≡ true → outside m ≡ some n → IsSame m n s []
outside-IsSame m n s p f =
    let (out, e) = outside_is m n f in subst (λ k. IsSame m k s []) e (plain-IsSame m s out p)

agree-both : (o p : Option Mode) (n : Mode) → agree o p ≡ some n → (o ≡ some n) × (p ≡ some n)
agree-both none p n h = cc
agree-both (some k) none n h = cc
agree-both (some k) (some l) n h = elim (Bool-cases (mode_number k == mode_number l)) [
  | inl q ↦ let e = rw q at h in (e, ap some (sym (same_mode k l q)) ∙ e)
  | inr q ↦ let e = rw q at h in cc
]

stays_is : (m : Mode) (o : Option Mode) → stays m o ≡ true → o ≡ some m
stays_is m none h = cc
stays_is m (some n) h = ap some (sym (same_mode m n h))

guard_some :
    (b : Bool) (o : Option Mode) (n : Mode) → guarded b o ≡ some n → (b ≡ true) × (o ≡ some n)
guard_some true o n f = (refl, f)
guard_some false o n f = cc

then_some :
    (o : Option Mode) (g : Mode → Option Mode) (n : Mode)
    → and_then o g ≡ some n
    → (k : Mode) × (o ≡ some k) × (g k ≡ some n)
then_some none g n f = cc
then_some (some k) g n f = (k, refl, f)

mutual
  unfolding show_piece flow_piece is_clean_piece blank_piece esc

  piece-IsSame :
      (m n : Mode) (p : Piece)
      → flow_piece m p ≡ some n
      → is_clean_piece p ≡ true
      → IsSame m n (show_piece p) (show_piece (blank_piece p))
  piece-IsSame m n (raw s) f c = raw-IsSame m n s cc
  piece-IsSame m n (escaped s) f c = outside-IsSame m n (esc s) (esc-plain s) f
  piece-IsSame m n (bare s) f c = outside-IsSame m n s c f
  piece-IsSame m n (number k) f c = outside-IsSame m n (decimal k) (decimal-plain k) f
  piece-IsSame m n (choice true x y) f c =
      let (fx, fy) = agree-both (flow m x) (flow m y) n f in
      template-IsSame m n x fx (and_both (is_clean x) (is_clean y) c).0
  piece-IsSame m n (choice false x y) f c =
      let (fx, fy) = agree-both (flow m x) (flow m y) n f in
      template-IsSame m n y fy (and_both (is_clean x) (is_clean y) c).1
  piece-IsSame m n (nested x) f c = template-IsSame m n x f c
  piece-IsSame m n (each rs) f c = rows-IsSame m n rs f c

  template-IsSame :
      (m n : Mode) (t : Template)
      → flow m t ≡ some n
      → is_clean t ≡ true
      → IsSame m n (show t) (show (blank t))
  template-IsSame m n end f c = raw-IsSame m n [] cc
  template-IsSame m n (p ⨾ t) f c =
      let (cp, ct) = and_both (is_clean_piece p) (is_clean t) c in
      let (k, q, e) = then_some (flow_piece m p) (λ k. flow k t) n f in
      append-IsSame m k n _ _ _ _ (piece-IsSame m k p q cp) (template-IsSame k n t e ct)

  rows-IsSame :
      (m n : Mode) (rs : Rows)
      → flow_rows m rs ≡ some n
      → is_clean_rows rs ≡ true
      → IsSame m n (show_rows rs) (show_rows (blank_rows rs))
  rows-IsSame m n no_rows f c = raw-IsSame m n [] cc
  rows-IsSame m n (row t rs) f c =
      let (ct, cs) = and_both (is_clean t) (is_clean_rows rs) c in
      let (q, e) = guard_some (stays m (flow m t)) (flow_rows m rs) n f in
      append-IsSame m m n _ _ _ _ (template-IsSame m m t (stays_is m (flow m t) q) ct)
        (rows-IsSame m n rs e cs)

-- Let a template have no value in a tag outside of quotes, and no choice whose branches leave a
-- reader of the markup in different modes; and let its bare values be free of brackets and quotes.
-- Then the text that it makes leaves the reader in the mode that the template's own markup does, and
-- has the tags, with their attributes' names, of the template without any of its values.
pub template-inert :
    (m n : Mode) (t : Template)
    → flow m t ≡ some n
    → is_clean t ≡ true
    → (mode_after m (show t) ≡ n) × (tags m (show t) ≡ tags m (show (blank t)))
template-inert m n t f c = let v = template-IsSame m n t f c in (v.first_end, v.same_tags)
