-- ===== src/Base/Table.antt =====
-- `Map` with number keys: an association list in insertion order. `set` on a key that is there
-- keeps its place, as in the language.
use mathlib.Core.Path.{◌≡◌, refl, ◌∙◌}
use mathlib.Core.Option.{Option, none, some}
use mathlib.Core.List.{List, [], ◌∷◌, ◌++◌}
use mathlib.Core.Logic.{◌≢◌}
use Prim.Native.Nat.{ℕ, ◌+◌}
use native.Mathlib.Omega.{arith}
use net_conductor.Base.Tests.{◌==◌, if◌then◌else◌}
use net_conductor.Base.Lists.{length, length-append}

abbrev pub Table {ℓ} : Type ℓ → Type ℓ
Table V = List (ℕ × V)

module _ {ℓ} {V : Type ℓ} where
  -- `m.get(k)`
  unfoldable pub get : ℕ → Table V → Option V
  get k [] = none
  get k ((j, v) ∷ m) = if j == k then some v else get k m

  -- `m.set(k, v)`
  unfoldable pub put : ℕ → V → Table V → Table V
  put k v [] = (k, v) ∷ []
  put k v ((j, w) ∷ m) = if j == k then (k, v) ∷ m else (j, w) ∷ put k v m

  -- `m.delete(k)`
  unfoldable pub erase : ℕ → Table V → Table V
  erase k [] = []
  erase k ((j, w) ∷ m) = if j == k then m else (j, w) ∷ erase k m

  abbrev pub keys : Table V → List ℕ
  keys [] = []
  keys ((k, v) ∷ m) = k ∷ keys m

  abbrev pub values : Table V → List V
  values [] = []
  values ((k, v) ∷ m) = v ∷ values m

  -- No key stands twice.
  abbrev pub Fresh : ℕ → Table V → Type 0
  Fresh k [] = Unit
  Fresh k ((j, v) ∷ m) = (j ≢ k) × Fresh k m

  abbrev pub IsTable : Table V → Type 0
  IsTable [] = Unit
  IsTable ((k, v) ∷ m) = Fresh k m × IsTable m

  pub get-put :
      (k j : ℕ) (v : V) (m : Table V) → get j (put k v m) ≡ (if k == j then some v else get j m)
  unfolding get put
  get-put k j v [] = refl
  get-put k j v ((i, w) ∷ m) = ground (arith, get-put k j v m)

  pub get_of_Fresh : (k : ℕ) (m : Table V) → Fresh k m → get k m ≡ none
  unfolding get
  get_of_Fresh k [] h = refl
  get_of_Fresh k ((j, v) ∷ m) (n, h) = ground (arith, get_of_Fresh k m h)

  pub Fresh-get : (k : ℕ) (m : Table V) → get k m ≡ none → Fresh k m
  unfolding get
  Fresh-get k [] h = tt
  Fresh-get k ((j, v) ∷ m) h = ground (arith, Fresh-get k m)

  pub put_new : (k : ℕ) (v : V) (m : Table V) → get k m ≡ none → put k v m ≡ m ++ (k, v) ∷ []
  unfolding get put
  put_new k v [] h = refl
  put_new k v ((j, w) ∷ m) h = ground (arith, put_new k v m)

  pub erase_new : (k : ℕ) (m : Table V) → get k m ≡ none → erase k m ≡ m
  unfolding get erase
  erase_new k [] h = refl
  erase_new k ((j, w) ∷ m) h = ground (arith, erase_new k m)

  pub erase-put : (k : ℕ) (v : V) (m : Table V) → erase k (put k v m) ≡ erase k m
  unfolding erase put
  erase-put k v [] = ground arith
  erase-put k v ((j, w) ∷ m) = ground (arith, erase-put k v m)

  pub Fresh-put : (j k : ℕ) (v : V) (m : Table V) → j ≢ k → Fresh k m → Fresh k (put j v m)
  unfolding put
  Fresh-put j k v [] n h = (n, tt)
  Fresh-put j k v ((i, w) ∷ m) n h = ground (arith, Fresh-put j k v m)

  pub IsTable-put : (k : ℕ) (v : V) (m : Table V) → IsTable m → IsTable (put k v m)
  unfolding put
  IsTable-put k v [] h = (tt, tt)
  IsTable-put k v ((i, w) ∷ m) h = ground (arith, IsTable-put k v m, Fresh-put k i v m)

  pub Fresh-erase : (j k : ℕ) (m : Table V) → Fresh k m → Fresh k (erase j m)
  unfolding erase
  Fresh-erase j k [] h = tt
  Fresh-erase j k ((i, w) ∷ m) h = ground (arith, Fresh-erase j k m)

  pub IsTable-erase : (k : ℕ) (m : Table V) → IsTable m → IsTable (erase k m)
  unfolding erase
  IsTable-erase k [] h = tt
  IsTable-erase k ((i, w) ∷ m) h = ground (arith, IsTable-erase k m, Fresh-erase k i m)

  pub Fresh-erase_self : (k : ℕ) (m : Table V) → IsTable m → Fresh k (erase k m)
  unfolding erase
  Fresh-erase_self k [] h = tt
  Fresh-erase_self k ((i, w) ∷ m) h = ground (arith, Fresh-erase_self k m)

  pub put-put : (k : ℕ) (v w : V) (m : Table V) → put k v (put k w m) ≡ put k v m
  unfolding put
  put-put k v w [] = ground arith
  put-put k v w ((j, u) ∷ m) = ground (arith, put-put k v w m)

  pub get-put_self : (k : ℕ) (v : V) (m : Table V) → get k (put k v m) ≡ some v
  get-put_self k v m = rw get-put (ground arith)

  pub erase-put_new : (k : ℕ) (v : V) (m : Table V) → get k m ≡ none → erase k (put k v m) ≡ m
  erase-put_new k v m h = erase-put k v m ∙ erase_new k m h

  pub length-put_new :
      (k : ℕ) (v : V) (m : Table V) → get k m ≡ none → length (put k v m) ≡ length m + 1
  length-put_new k v m h = rw (put_new k v m h) (length-append m ((k, v) ∷ []))
