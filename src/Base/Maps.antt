-- ===== src/Base/Maps.antt =====
-- Go's map with string keys, as an association list. The program never relies on the order of a
-- range over such a map.
use Prim.Native.String.{String}
use mathlib.Core.Path.{◌≡◌, refl}
use mathlib.Core.Bool.{false}
use mathlib.Core.Option.{Option, none, some}
use mathlib.Core.List.{List, [], ◌∷◌}
use native.Mathlib.Omega.{arith}
use text.Mathlib.Text.{◌==◌}
use text.Mathlib.TextEquality.{eq_iff}
use mathlib.Core.Logic.{◌≢◌, inl, inr}
use text.Mathlib.TextPositions.{eq_refl}
use woongkie_talkie.Base.Tests.{if◌then◌else◌, Bool-cases}
use woongkie_talkie.Base.Lists.{All}

pub eq_comm-false : (a b : String) → (a == b) ≡ false → (b == a) ≡ false
eq_comm-false a b e = elim (Bool-cases (b == a)) [
  | inl same ↦ cc (e, eq_refl b, (eq_iff b a).0 same)
  | inr other ↦ other
]

pub eq-false : (a b : String) → a ≢ b → (a == b) ≡ false
eq-false a b h = elim (Bool-cases (a == b)) [
  | inl same ↦ absurd (h ((eq_iff a b).0 same))
  | inr differ ↦ differ
]

abbrev pub Assoc {ℓ} : Type ℓ → Type ℓ
Assoc V = List (String × V)

module _ {ℓ} {V : Type ℓ} where
  unfoldable pub lookup : String → Assoc V → Option V
  lookup k [] = none
  lookup k ((j, v) ∷ m) = if j == k then some v else lookup k m

  -- delete(m, k)
  unfoldable pub remove : String → Assoc V → Assoc V
  remove k [] = []
  remove k ((j, v) ∷ m) = let rest = remove k m in if j == k then rest else (j, v) ∷ rest

  -- m[k] = v
  unfoldable pub insert : String → V → Assoc V → Assoc V
  insert k v m = (k, v) ∷ remove k m

  pub lookup-remove :
      (k j : String) (m : Assoc V) → lookup j (remove k m) ≡ (if k == j then none else lookup j m)
  unfolding lookup remove
  lookup-remove k j [] = ground arith
  lookup-remove k j ((i, v) ∷ m) =
      ground (arith, lookup-remove k j m, eq_iff i k, eq_iff i j, eq_iff k j)

  pub lookup-insert :
      (k j : String) (v : V) (m : Assoc V)
      → lookup j (insert k v m) ≡ (if k == j then some v else lookup j m)
  unfolding lookup insert
  lookup-insert k j v m = ground (arith, lookup-remove k j m)

  -- A key that is there is not one that is missing.
  pub other_key :
      (k j : String) (v : V) (m : Assoc V)
      → lookup k m ≡ none
      → lookup j m ≡ some v
      → (k == j) ≡ false
  other_key k j v m missing there = elim (Bool-cases (k == j)) [
    | inl same ↦ cc (missing, there, (eq_iff k j).0 same)
    | inr other ↦ other
  ]

  -- What a removal leaves was there, under another key.
  pub lookup_of_remove :
      (k j : String) (v : V) (m : Assoc V)
      → lookup j (remove k m) ≡ some v
      → ((k == j) ≡ false) × (lookup j m ≡ some v)
  lookup_of_remove k j v m e = ground (arith, e, lookup-remove k j m)

  pub remove_absent : (k : String) (m : Assoc V) → lookup k m ≡ none → remove k m ≡ m
  unfolding lookup remove
  remove_absent k [] e = refl
  remove_absent k ((j, v) ∷ m) e = ground (arith, remove_absent k m)

  pub lookup_head : (k : String) (v : V) (m : Assoc V) → lookup k ((k, v) ∷ m) ≡ some v
  unfolding lookup
  lookup_head k v m = ground (arith, eq_refl k)

  pub remove_head : (k : String) (v : V) (m : Assoc V) → remove k ((k, v) ∷ m) ≡ remove k m
  unfolding remove
  remove_head k v m = ground (arith, eq_refl k)

module _ {ℓ} {V : Type ℓ} where
  -- No key stands twice.
  abbrev pub DistinctKeys : Assoc V → Type ℓ
  DistinctKeys [] = Unit {ℓ}
  DistinctKeys ((k, v) ∷ m) = (lookup k m ≡ none) × DistinctKeys m

  pub DistinctKeys-remove : (k : String) (m : Assoc V) → DistinctKeys m → DistinctKeys (remove k m)
  unfolding remove
  DistinctKeys-remove k [] d = tt
  DistinctKeys-remove k ((j, v) ∷ m) (a, d) = elim (Bool-cases (j == k)) [
    | inl same ↦ rw same (DistinctKeys-remove k m d)
    | inr other ↦ rw other (ground (arith, lookup-remove k j m, a), DistinctKeys-remove k m d)
  ]

  pub DistinctKeys-insert :
      (k : String) (v : V) (m : Assoc V) → DistinctKeys m → DistinctKeys (insert k v m)
  unfolding insert
  DistinctKeys-insert k v m d =
      (ground (arith, lookup-remove k k m, eq_refl k), DistinctKeys-remove k m d)

module _ {ℓ κ} {V : Type ℓ} (P : String × V → Type κ) where
  pub All-remove : (k : String) (m : Assoc V) → All P m → All P (remove k m)
  unfolding remove
  All-remove k [] h = tt
  All-remove k ((j, v) ∷ m) h = ground (arith, All-remove k m h.1)

  pub lookup-All : (k : String) (v : V) (m : Assoc V) → All P m → lookup k m ≡ some v → P (k, v)
  unfolding lookup
  lookup-All k v [] h e = cc
  lookup-All k v ((j, w) ∷ m) h e = ground (arith, eq_iff j k, lookup-All k v m h.1, h.0)

  -- What is left after a removal is under other keys.
  pub All-remove_ne {ι} :
      (Q : String × V → Type ι) (k : String) (m : Assoc V)
      → ((j : String) (v : V) → P (j, v) → (j == k) ≡ false → Q (j, v))
      → All P m
      → All Q (remove k m)
  unfolding remove
  All-remove_ne Q k [] f h = tt
  All-remove_ne Q k ((j, v) ∷ m) f h = elim (Bool-cases (j == k)) [
    | inl same ↦ rw same (All-remove_ne Q k m f h.1)
    | inr other ↦ rw other (f j v h.0 other, All-remove_ne Q k m f h.1)
  ]
