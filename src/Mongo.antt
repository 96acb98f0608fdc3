-- ===== src/Mongo.antt =====
-- What the code of pkg/mongoDB relies on of the MongoDB driver: a collection as an interface. A
-- filter is the test that its document stands for, an update the function on a document. `docs` are
-- the documents in natural order. Any call may fail; a write that fails may or may not have
-- happened, and a failed deletion of many documents may have deleted some of them. A limit of 0 is
-- no limit.
pub mod Sorting
pub mod Memory
pub mod Laws
use woongkie_talkie.Base.{
  ℕ, ◌-◌, String, Bool, true, false, List, [], ◌∷◌, ◌++◌, Option, none, some, if◌then◌else◌, ◌≡◌,
  ◌⊎◌, ◌==◌, length, keep, find, any, not, Result, ok, err, ◌≤◌, All, eqb,
}
use Prim.Native.Nat.{min}
use mathlib.Core.List.{Perm}
use mathlib.Core.Option.{map}

-- The errors that the code tells apart.
pub data Fault : Type 0 where
  no_documents duplicate_key failure : Fault

abbrev pub Reply : Type 0 → Type 0
Reply A = Result Fault A

module _ {Doc : Type 0} where
  -- The first document that passes is replaced.
  abbrev pub update_first : (Doc → Bool) → (Doc → Doc) → List Doc → List Doc
  update_first p f [] = []
  update_first p f (d ∷ ds) = if p d then f d ∷ ds else d ∷ update_first p f ds

  abbrev pub delete_first : (Doc → Bool) → List Doc → List Doc
  delete_first p [] = []
  delete_first p (d ∷ ds) = if p d then ds else d ∷ delete_first p ds

  abbrev pub found : Option Doc → Reply Doc
  found none = err no_documents
  found (some d) = ok d

  -- How many documents of the list an operation on one document matched.
  abbrev pub matched : (Doc → Bool) → List Doc → ℕ
  matched p ds = if any p ds then 1 else 0

-- A document's id, how an insert sets it, and which documents a unique index keeps apart.
pub record Schema (Doc : Type 0) : Type 0 where
  pub id_of : Doc → String
  pub with_id : String → Doc → Doc
  pub conflicts : Doc → Doc → Bool

-- A write turned `old` into `new` and answered `n`, or it failed and did one or nothing.
abbrev pub Wrote :
    {A : Type 0} {Doc : Type 0} → List Doc → List Doc → A → Reply A → List Doc → Type 0
Wrote old new n reply now =
    ((reply ≡ ok n) × (now ≡ new)) ⊎ ((reply ≡ err failure) × ((now ≡ old) ⊎ (now ≡ new)))

-- Some documents that pass are left out, and none else.
abbrev pub Thinned : {Doc : Type 0} → (Doc → Bool) → List Doc → List Doc → Type 0
Thinned p [] now = now ≡ []
Thinned p (d ∷ old) now =
    ((rest : List _) × (now ≡ d ∷ rest) × Thinned p old rest) ⊎ ((p d ≡ true) × Thinned p old now)

-- A DeleteMany deleted all that pass, or it failed and deleted some of them, perhaps none or all.
abbrev pub DeletedMany : {Doc : Type 0} → (Doc → Bool) → List Doc → Reply ℕ → List Doc → Type 0
DeletedMany p old reply now =
    ((reply ≡ ok (length (keep p old))) × (now ≡ keep (λ d. not (p d)) old))
    ⊎ ((reply ≡ err failure) × Thinned p old now)

-- An inserted document has a new id and clashes with no other.
abbrev pub IsAdded : {Doc : Type 0} → Schema Doc → Doc → List Doc → String → List Doc → Type 0
IsAdded schema d old id now =
    (find (λ e. schema.id_of e == id) old ≡ none)
    × (any (schema.conflicts d) old ≡ false)
    × (now ≡ old ++ schema.with_id id d ∷ [])

-- An insert added the document, refused it for a clash, or failed and did one or nothing.
pub data Inserted {Doc : Type 0} (schema : Schema Doc) (d : Doc) (old : List Doc)
    (reply : Reply String) (now : List Doc) : Type 0 where
  added :
      (id : String) → reply ≡ ok id → IsAdded schema d old id now → Inserted schema d old reply now
  refused :
      reply ≡ err duplicate_key
      → any (schema.conflicts d) old ≡ true
      → now ≡ old
      → Inserted schema d old reply now
  failed_before : reply ≡ err failure → now ≡ old → Inserted schema d old reply now
  failed_after :
      (id : String)
      → reply ≡ err failure
      → IsAdded schema d old id now
      → Inserted schema d old reply now

-- An insert of a document with an id added it, or failed and did one or nothing.
abbrev pub Kept : {Doc : Type 0} → Schema Doc → Doc → List Doc → Reply String → List Doc → Type 0
Kept schema d old reply now =
    ((reply ≡ ok (schema.id_of d)) × (now ≡ old ++ d ∷ []))
    ⊎ ((f : Fault) × (reply ≡ err f) × ((now ≡ old) ⊎ (now ≡ old ++ d ∷ [])))

pub data Direction : Type 0 where
  ascending descending : Direction

abbrev pub InOrder : Direction → ℕ → ℕ → Type 0
InOrder ascending m n = m ≤ n
InOrder descending m n = n ≤ m

-- How many of n documents SetLimit leaves: with 0 there is no limit.
abbrev pub at_most : ℕ → ℕ → ℕ
at_most limit n = if eqb limit 0 then n else min limit n

module _ {Doc : Type 0} (key : Doc → ℕ) (dir : Direction) where
  abbrev pub Ordered : List Doc → Type 0
  Ordered [] = Unit {0}
  Ordered (d ∷ ds) = All (λ e. InOrder dir (key d) (key e)) ds × Ordered ds

  -- What a sorted search with a limit gives: `page` are the first of all that pass, `rest` the
  -- others.
  pub record IsPage (limit : ℕ) (all page : List Doc) : Type 0 where
    pub rest : List Doc
    pub same : Perm (page ++ rest) all
    pub ordered : Ordered (page ++ rest)
    pub size : length page ≡ at_most limit (length all)

  -- What a sorted search that skips gives: `before` are skipped.
  pub record IsSlice (skip limit : ℕ) (all page : List Doc) : Type 0 where
    pub before : List Doc
    pub rest : List Doc
    pub same : Perm (before ++ (page ++ rest)) all
    pub ordered : Ordered (before ++ (page ++ rest))
    pub skipped : length before ≡ min skip (length all)
    pub size : length page ≡ at_most limit (length all - skip)

-- FindOneAndUpdate, which returns the new document.
abbrev pub FoundAndUpdated :
    {Doc : Type 0} → (Doc → Bool) → (Doc → Doc) → List Doc → Reply Doc → List Doc → Type 0
FoundAndUpdated p f old reply now =
    ((reply ≡ found (map f (find p old))) × (now ≡ update_first p f old))
    ⊎ ((reply ≡ err failure) × ((now ≡ old) ⊎ (now ≡ update_first p f old)))

pub record Collection (Doc : Type 0) (schema : Schema Doc) : Type 1 where
  pub State : Type 0
  pub docs : State → List Doc
  pub find_one : (Doc → Bool) → State → Reply Doc
  pub count : (Doc → Bool) → State → Reply ℕ
  pub find_all : (Doc → Bool) → State → Reply (List Doc)
  pub find_sorted : (Doc → Bool) → (Doc → ℕ) → Direction → ℕ → State → Reply (List Doc)
  pub find_slice : (Doc → ℕ) → Direction → ℕ → ℕ → State → Reply (List Doc)
  pub find_one_and_update : (Doc → Bool) → (Doc → Doc) → State → Reply Doc × State
  pub insert_one : Doc → State → Reply String × State
  -- InsertOne of a document that carries its id.
  pub insert_with_id : Doc → State → Reply String × State
  pub update_one : (Doc → Bool) → (Doc → Doc) → State → Reply ℕ × State
  pub delete_one : (Doc → Bool) → State → Reply ℕ × State
  pub delete_many : (Doc → Bool) → State → Reply ℕ × State
  pub find_one_lem :
      (p : Doc → Bool) (s : State)
      → (find_one p s ≡ err failure) ⊎ (find_one p s ≡ found (find p (docs s)))
  pub count_lem :
      (p : Doc → Bool) (s : State)
      → (count p s ≡ err failure) ⊎ (count p s ≡ ok (length (keep p (docs s))))
  pub find_all_lem :
      (p : Doc → Bool) (s : State)
      → (find_all p s ≡ err failure) ⊎ (find_all p s ≡ ok (keep p (docs s)))
  pub find_sorted_lem :
      (p : Doc → Bool) (key : Doc → ℕ) (dir : Direction) (limit : ℕ) (s : State)
      → (find_sorted p key dir limit s ≡ err failure)
        ⊎ ((page : List Doc) × (find_sorted p key dir limit s ≡ ok page)
            × IsPage key dir limit (keep p (docs s)) page)
  pub find_slice_lem :
      (key : Doc → ℕ) (dir : Direction) (skip limit : ℕ) (s : State)
      → (find_slice key dir skip limit s ≡ err failure)
        ⊎ ((page : List Doc) × (find_slice key dir skip limit s ≡ ok page)
            × IsSlice key dir skip limit (docs s) page)
  pub find_one_and_update_lem :
      (p : Doc → Bool) (f : Doc → Doc) (s : State)
      → FoundAndUpdated p f
          (docs s)
          (find_one_and_update p f s).0
          (docs (find_one_and_update p f s).1)
  pub insert_one_lem :
      (d : Doc) (s : State)
      → Inserted schema d (docs s) (insert_one d s).0 (docs (insert_one d s).1)
  pub insert_with_id_lem :
      (d : Doc) (s : State)
      → Kept schema d (docs s) (insert_with_id d s).0 (docs (insert_with_id d s).1)
  pub update_one_lem :
      (p : Doc → Bool) (f : Doc → Doc) (s : State)
      → Wrote
          (docs s)
          (update_first p f (docs s))
          (matched p (docs s))
          (update_one p f s).0
          (docs (update_one p f s).1)
  pub delete_one_lem :
      (p : Doc → Bool) (s : State)
      → Wrote
          (docs s)
          (delete_first p (docs s))
          (matched p (docs s))
          (delete_one p s).0
          (docs (delete_one p s).1)
  pub delete_many_lem :
      (p : Doc → Bool) (s : State)
      → DeletedMany p (docs s) (delete_many p s).0 (docs (delete_many p s).1)
