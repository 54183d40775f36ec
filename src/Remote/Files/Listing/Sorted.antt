-- ===== src/Remote/Files/Listing/Sorted.antt =====
-- The order of a listing.
use mathlib.Core.List.{Perm}
use mathlib.Core.List.Perm
use net_conductor.Base.{
  ◌≡◌, refl, Bool, true, false, List, [], ◌∷◌, if◌then◌else◌, All, map-All, Bool-cases, inl, inr,
}
use net_conductor.Base.Text.{Text}
use net_conductor.Remote.Protocol.{Entry}
use net_conductor.Remote.Files.Listing.{same_kind, comes_first, insert, sort}

-- Every entry comes before those behind it.
abbrev pub IsSorted : (Text → Text → Bool) → List Entry → Type 0
IsSorted le [] = Unit
IsSorted le (x ∷ xs) = All (λ y. comes_first le x y ≡ true) xs × IsSorted le xs

insert-Perm :
    (le : Text → Text → Bool) (x : Entry) (ys : List Entry) → Perm (insert le x ys) (x ∷ ys)
unfolding insert
insert-Perm le x [] = Perm.refl (x ∷ [])
insert-Perm le x (y ∷ ys) = elim (Bool-cases (comes_first le x y)) [
  | inl q ↦ rw q (Perm.refl (x ∷ y ∷ ys))
  | inr q ↦ rw q (Perm.trans (Perm.cons y (insert-Perm le x ys)) (Perm.swap x y ys))
]

pub sort-Perm : (le : Text → Text → Bool) (xs : List Entry) → Perm (sort le xs) xs
unfolding sort
sort-Perm le [] = Perm.refl []
sort-Perm le (x ∷ xs) = Perm.trans (insert-Perm le x (sort le xs)) (Perm.cons x (sort-Perm le xs))

kinds_total :
    (x y l m : Bool)
    → (l ≡ false → m ≡ true)
    → (if same_kind x y then l else x) ≡ false
    → (if same_kind y x then m else y) ≡ true
kinds_total true true l m f h = f h
kinds_total true false l m f h = cc
kinds_total false true l m f h = refl
kinds_total false false l m f h = f h

kinds_carry :
    (x y z l m n : Bool)
    → (l ≡ true → m ≡ true → n ≡ true)
    → (if same_kind x y then l else x) ≡ true
    → (if same_kind y z then m else y) ≡ true
    → (if same_kind x z then n else x) ≡ true
kinds_carry true true true l m n f h k = f h k
kinds_carry true true false l m n f h k = refl
kinds_carry true false true l m n f h k = cc
kinds_carry true false false l m n f h k = refl
kinds_carry false true z l m n f h k = cc
kinds_carry false false true l m n f h k = cc
kinds_carry false false false l m n f h k = f h k

-- `localeCompare` orders the names: one of two comes first, and the order carries over.
module _ (le : Text → Text → Bool) (total : (a b : Text) → le a b ≡ false → le b a ≡ true)
    (carries : (a b c : Text) → le a b ≡ true → le b c ≡ true → le a c ≡ true) where
  first_total : (a b : Entry) → comes_first le a b ≡ false → comes_first le b a ≡ true
  first_total a b h =
      kinds_total a.directory b.directory (le a.name b.name) (le b.name a.name)
        (total a.name b.name) h

  first_carries :
      (a b c : Entry)
      → comes_first le a b ≡ true
      → comes_first le b c ≡ true
      → comes_first le a c ≡ true
  first_carries a b c h k =
      kinds_carry a.directory b.directory c.directory (le a.name b.name) (le b.name c.name)
        (le a.name c.name) (carries a.name b.name c.name) h k

  -- An entry that comes before `x` and `ys` comes before what `insert` makes of them.
  insert-All :
      (a x : Entry) (ys : List Entry)
      → comes_first le a x ≡ true
      → All (λ y. comes_first le a y ≡ true) ys
      → All (λ y. comes_first le a y ≡ true) (insert le x ys)
  unfolding insert
  insert-All a x [] h hs = (h, tt)
  insert-All a x (y ∷ ys) h (k, ks) = elim (Bool-cases (comes_first le x y)) [
    | inl q ↦ rw q (h, (k, ks))
    | inr q ↦ rw q (k, insert-All a x ys h ks)
  ]

  insert-IsSorted : (x : Entry) (ys : List Entry) → IsSorted le ys → IsSorted le (insert le x ys)
  unfolding insert
  insert-IsSorted x [] v = (tt, tt)
  insert-IsSorted x (y ∷ ys) (h, v) = elim (Bool-cases (comes_first le x y)) [
    | inl q ↦ rw q ((q, map-All (λ z k. first_carries x y z q k) ys h), (h, v))
    | inr q ↦ rw q (insert-All y x ys (first_total x y q) h, insert-IsSorted x ys v)
  ]

  pub sort-IsSorted : (xs : List Entry) → IsSorted le (sort le xs)
  unfolding sort
  sort-IsSorted [] = tt
  sort-IsSorted (x ∷ xs) = insert-IsSorted x (sort le xs) (sort-IsSorted xs)
