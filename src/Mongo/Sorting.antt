-- ===== src/Mongo/Sorting.antt =====
-- Sorting by insertion: the pages of the collection in memory.
use Prim.Native.Nat.{min}
use mathlib.Core.List.Perm
use mathlib.Core.List.{Perm}
use woongkie_talkie.Base.{
  ℕ, zero, suc, ◌-◌, length-drop, ◌≡◌, refl, sym, ap, subst, ◌∙◌, Bool, true, false, List, [], ◌∷◌,
  ◌++◌, if◌then◌else◌, leb, length, take, drop, length-take, All, arith, Bool-cases, inl, inr,
}
use woongkie_talkie.Mongo.{
  Direction, ascending, descending, InOrder, Ordered, IsPage, IsSlice, at_most,
}

abbrev is_in_order : Direction → ℕ → ℕ → Bool
is_in_order ascending m n = leb m n
is_in_order descending m n = leb n m

is_in_order-InOrder : (dir : Direction) (m n : ℕ) → is_in_order dir m n ≡ true → InOrder dir m n
is_in_order-InOrder ascending m n e = ground (arith, e)
is_in_order-InOrder descending m n e = ground (arith, e)

InOrder-other : (dir : Direction) (m n : ℕ) → is_in_order dir m n ≡ false → InOrder dir n m
InOrder-other ascending m n e = ground (arith, e)
InOrder-other descending m n e = ground (arith, e)

InOrder-trans : (dir : Direction) (l m n : ℕ) → InOrder dir l m → InOrder dir m n → InOrder dir l n
InOrder-trans ascending l m n a b = omega (arith, a, b)
InOrder-trans descending l m n a b = omega (arith, a, b)

module _ {Doc : Type 0} (key : Doc → ℕ) (dir : Direction) where
  abbrev put : Doc → List Doc → List Doc
  put d [] = d ∷ []
  put d (e ∷ es) = if is_in_order dir (key d) (key e) then d ∷ e ∷ es else e ∷ put d es

  abbrev pub sort : List Doc → List Doc
  sort [] = []
  sort (d ∷ ds) = put d (sort ds)

  abbrev After : Doc → Doc → Type 0
  After d e = InOrder dir (key d) (key e)

  put-Perm : (d : Doc) (es : List Doc) → Perm (put d es) (d ∷ es)
  put-Perm d [] = Perm.refl (d ∷ [])
  put-Perm d (e ∷ es) = elim (Bool-cases (is_in_order dir (key d) (key e))) [
    | inl first ↦ rw first (Perm.refl (d ∷ e ∷ es))
    | inr later ↦ rw later (Perm.trans (Perm.cons e (put-Perm d es)) (Perm.swap d e es))
  ]

  sort-Perm : (ds : List Doc) → Perm (sort ds) ds
  sort-Perm [] = Perm.refl []
  sort-Perm (d ∷ ds) = Perm.trans (put-Perm d (sort ds)) (Perm.cons d (sort-Perm ds))

  All-put : (P : Doc → Type 0) (d : Doc) (es : List Doc) → P d → All P es → All P (put d es)
  All-put P d [] h a = (h, tt)
  All-put P d (e ∷ es) h a = ground (arith, h, a, All-put P d es h a.1)

  All-After : (d e : Doc) (es : List Doc) → After d e → All (After e) es → All (After d) es
  All-After d e [] h a = tt
  All-After d e (x ∷ es) h (ex, a) =
      (InOrder-trans dir (key d) (key e) (key x) h ex, All-After d e es h a)

  Ordered-put : (d : Doc) (es : List Doc) → Ordered key dir es → Ordered key dir (put d es)
  Ordered-put d [] o = (tt, tt)
  Ordered-put d (e ∷ es) (a, o) = elim (Bool-cases (is_in_order dir (key d) (key e))) [
    | inl first ↦
        let h = is_in_order-InOrder dir (key d) (key e) first in
        rw first ((h, All-After d e es h a), (a, o))
    | inr later ↦
        rw later
          (All-put (After e) d es (InOrder-other dir (key d) (key e) later) a, Ordered-put d es o)
  ]

  Ordered-sort : (ds : List Doc) → Ordered key dir (sort ds)
  Ordered-sort [] = tt
  Ordered-sort (d ∷ ds) = Ordered-put d (sort ds) (Ordered-sort ds)

  length-put : (d : Doc) (es : List Doc) → length (put d es) ≡ suc (length es)
  length-put d [] = refl
  length-put d (e ∷ es) = ground (arith, length-put d es)

  length-sort : (ds : List Doc) → length (sort ds) ≡ length ds
  length-sort [] = refl
  length-sort (d ∷ ds) = omega (arith, length-put d (sort ds), length-sort ds)

  take-drop : (n : ℕ) (ds : List Doc) → take n ds ++ drop n ds ≡ ds
  take-drop zero ds = refl
  take-drop (suc n) [] = refl
  take-drop (suc n) (d ∷ ds) = ap (◌∷◌ d) (take-drop n ds)

  -- The first `limit` of them, or all if the limit is 0.
  abbrev pub limited : ℕ → List Doc → List Doc
  limited limit ds = take (at_most limit (length ds)) ds

  length-limited :
      (limit n : ℕ) (ds : List Doc) → length ds ≡ n → length (limited limit ds) ≡ at_most limit n
  length-limited limit n ds e = length-take (at_most limit (length ds)) ds ∙ rw e (ground arith)

  pub limited-IsPage :
      (limit : ℕ) (all : List Doc) → IsPage key dir limit all (limited limit (sort all))
  limited-IsPage limit all =
      let sorted = sort all in
      let cut = at_most limit (length sorted) in
      let whole = sym (take-drop cut sorted) in
      record {
        rest = drop cut sorted;
        same = subst (λ ds. Perm ds all) whole (sort-Perm all);
        ordered = subst (Ordered key dir) whole (Ordered-sort all);
        size = length-limited limit (length all) sorted (length-sort all);
      }

  pub drop-IsSlice :
      (skip limit : ℕ) (all : List Doc)
      → IsSlice key dir skip limit all (limited limit (drop skip (sort all)))
  drop-IsSlice skip limit all =
      let sorted = sort all in
      let tail = drop skip sorted in
      let cut = at_most limit (length tail) in
      let whole : sorted ≡ take skip sorted ++ (take cut tail ++ drop cut tail) =
        sym (take-drop skip sorted) ∙ ap (◌++◌ (take skip sorted)) (sym (take-drop cut tail)) in
      record {
        before = take skip sorted;
        rest = drop cut tail;
        same = subst (λ ds. Perm ds all) whole (sort-Perm all);
        ordered = subst (Ordered key dir) whole (Ordered-sort all);
        skipped = length-take skip sorted ∙ ap (min skip) (length-sort all);
        size =
            length-limited limit (length all - skip) tail
              (length-drop skip sorted ∙ ap (λ n. n - skip) (length-sort all));
      }
