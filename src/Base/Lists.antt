-- ===== src/Base/Lists.antt =====
-- Lists measured by native numbers, filtered and searched by Boolean tests.
use Prim.Native.Nat.{ℕ, zero, suc, ◌+◌, ◌-◌, ◌≤◌, min}
use mathlib.Core.Path.{◌≡◌, refl, ap, subst}
use mathlib.Core.Bool.{Bool, true, false, ◌&&◌, ◌||◌}
use mathlib.Core.List.{List, [], ◌∷◌, ◌++◌}
use mathlib.Core.Option.{Option, none, some}
use native.Mathlib.Omega.{arith}
use mathlib.Core.Logic.{inl, inr}
use woongkie_talkie.Base.Tests.{eqb, eqb_iff, Bool-cases, if◌then◌else◌}

module _ {ℓ} {A : Type ℓ} where
  abbrev pub length : List A → ℕ
  length [] = 0
  length (x ∷ xs) = suc (length xs)

  abbrev pub take : ℕ → List A → List A
  take zero xs = []
  take (suc n) [] = []
  take (suc n) (x ∷ xs) = x ∷ take n xs

  abbrev pub drop : ℕ → List A → List A
  drop zero xs = xs
  drop (suc n) [] = []
  drop (suc n) (x ∷ xs) = drop n xs

  pub length-append : (xs ys : List A) → length (xs ++ ys) ≡ length xs + length ys
  length-append [] ys = omega arith
  length-append (x ∷ xs) ys = omega (arith, length-append xs ys)

  pub length-take : (n : ℕ) (xs : List A) → length (take n xs) ≡ min n (length xs)
  length-take zero xs = omega arith
  length-take (suc n) [] = omega arith
  length-take (suc n) (x ∷ xs) = omega (arith, length-take n xs)

  pub length-drop : (n : ℕ) (xs : List A) → length (drop n xs) ≡ length xs - n
  length-drop zero xs = omega arith
  length-drop (suc n) [] = omega arith
  length-drop (suc n) (x ∷ xs) = omega (arith, length-drop n xs)

  -- The elements that pass the test, in order.
  abbrev pub keep : (A → Bool) → List A → List A
  keep p [] = []
  keep p (x ∷ xs) = if p x then x ∷ keep p xs else keep p xs

  abbrev pub any : (A → Bool) → List A → Bool
  any p [] = false
  any p (x ∷ xs) = p x || any p xs

  abbrev pub find : (A → Bool) → List A → Option A
  find p [] = none
  find p (x ∷ xs) = if p x then some x else find p xs

  pub length-keep-le : (p : A → Bool) (xs : List A) → length (keep p xs) ≤ length xs
  length-keep-le p [] = omega arith
  length-keep-le p (x ∷ xs) = ground (arith, length-keep-le p xs)

  pub keep_all : (xs : List A) → keep (λ _. true) xs ≡ xs
  keep_all [] = refl
  keep_all (x ∷ xs) = ap (◌∷◌ x) (keep_all xs)

  pub keep-append : (p : A → Bool) (xs ys : List A) → keep p (xs ++ ys) ≡ keep p xs ++ keep p ys
  keep-append p [] ys = refl
  keep-append p (x ∷ xs) ys = ground (arith, keep-append p xs ys)

module _ {ℓ κ} {A : Type ℓ} where
  -- A predicate by recursion, which the tactics read and build.
  abbrev pub All : (A → Type κ) → List A → Type κ
  All P [] = Unit
  All P (x ∷ xs) = P x × All P xs

module _ {ℓ κ} {A : Type ℓ} (P : A → Type κ) where
  pub All-append : (xs ys : List A) → All P xs → All P ys → All P (xs ++ ys)
  All-append [] ys hx hy = hy
  All-append (x ∷ xs) ys hx hy = (hx.0, All-append xs ys hx.1 hy)

  pub All-keep : (p : A → Bool) (xs : List A) → All P xs → All P (keep p xs)
  All-keep p [] h = tt
  All-keep p (x ∷ xs) h = ground (arith, All-keep p xs h.1)

-- Is the number in the list?
abbrev pub elem : ℕ → List ℕ → Bool
elem i [] = false
elem i (j ∷ js) = eqb j i || elem i js

-- No number stands twice in the list.
abbrev pub Distinct : List ℕ → Type 0
Distinct [] = Unit {0}
Distinct (i ∷ is) = (elem i is ≡ false) × Distinct is

pub elem-append : (i : ℕ) (xs ys : List ℕ) → elem i (xs ++ ys) ≡ elem i xs || elem i ys
elem-append i [] ys = refl
elem-append i (j ∷ xs) ys = ground (arith, elem-append i xs ys)

pub elem-keep : (p : ℕ → Bool) (i : ℕ) (xs : List ℕ) → elem i (keep p xs) ≡ elem i xs && p i
elem-keep p i [] = refl
elem-keep p i (j ∷ xs) = ground (arith, elem-keep p i xs)

-- Two tests that agree on the elements of a list keep the same of them.
pub keep_congr :
    (p q : ℕ → Bool) (xs : List ℕ)
    → ((i : ℕ) → elem i xs ≡ true → p i ≡ q i)
    → keep p xs ≡ keep q xs
keep_congr p q [] h = refl
keep_congr p q (x ∷ xs) h =
    ground (arith, h x (ground arith), keep_congr p q xs (λ i e. h i (ground arith)))

pub keep_none :
    (p : ℕ → Bool) (xs : List ℕ) → ((i : ℕ) → elem i xs ≡ true → p i ≡ false) → keep p xs ≡ []
keep_none p [] h = refl
keep_none p (x ∷ xs) h =
    ground (arith, h x (ground arith), keep_none p xs (λ i e. h i (ground arith)))

pub Distinct-keep : (p : ℕ → Bool) (xs : List ℕ) → Distinct xs → Distinct (keep p xs)
Distinct-keep p [] h = tt
Distinct-keep p (j ∷ xs) h = ground (arith, Distinct-keep p xs h.1, elem-keep p j xs)

module _ {κ} (P : ℕ → Type κ) where
  pub All-of_elem : (xs : List ℕ) → ((i : ℕ) → elem i xs ≡ true → P i) → All P xs
  All-of_elem [] h = tt
  All-of_elem (x ∷ xs) h = (h x (ground arith), All-of_elem xs (λ i e. h i (ground arith)))

  pub elem-All : (xs : List ℕ) (i : ℕ) → All P xs → elem i xs ≡ true → P i
  elem-All [] i h e = cc
  elem-All (x ∷ xs) i h e = elim (Bool-cases (eqb x i)) [
    | inl same ↦ subst P ((eqb_iff x i).0 same) h.0
    | inr other ↦ elem-All xs i h.1 (ground arith)
  ]
