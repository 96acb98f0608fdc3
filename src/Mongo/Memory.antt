-- ===== src/Mongo/Memory.antt =====
-- A collection in memory that never fails: the interface can be met.
use woongkie_talkie.Base.{
  String, Bool, true, false, List, [], ◌∷◌, ◌++◌, Option, none, some, if◌then◌else◌, inl, inr, refl,
  ◌==◌, length, keep, find, any, not, drop, ok, err, Bool-cases, Option-cases,
}
use woongkie_talkie.Mongo.Sorting.{sort, limited, limited-IsPage, drop-IsSlice}
use mathlib.Core.Option
use woongkie_talkie.Mongo.{
  duplicate_key, Reply, update_first, delete_first, found, matched, Schema, Collection, Inserted,
  Kept, added, refused, failed_before, failure,
}

abbrev is_none {ℓ} : {A : Type ℓ} → Option A → Bool
is_none none = true
is_none (some a) = false

-- `new_id` proposes an id; an insert fails if it is taken.
module _ {Doc : Type 0} (schema : Schema Doc) (new_id : List Doc → String) where
  abbrev insert : Doc → List Doc → Reply String × List Doc
  insert d ds =
      if any (schema.conflicts d) ds
      then (err duplicate_key, ds)
      else if is_none (find (λ e. schema.id_of e == new_id ds) ds)
      then (ok (new_id ds), ds ++ schema.with_id (new_id ds) d ∷ [])
      else (err failure, ds)

  pub insert_lem : (d : Doc) (s : List Doc) → Inserted schema d s (insert d s).0 (insert d s).1
  insert_lem d s = elim (Bool-cases (any (schema.conflicts d) s)) [
    | inl clash ↦ rw clash (refused refl clash refl)
    | inr free ↦ elim (Option-cases (find (λ e. schema.id_of e == new_id s) s)) [
      | inl fresh ↦ rw (free, fresh) (added (new_id s) refl (fresh, free, refl))
      | inr (e, taken) ↦ rw (free, taken) (failed_before refl refl)
    ]
  ]

  abbrev insert_kept : Doc → List Doc → Reply String × List Doc
  insert_kept d ds =
      if any (λ e. schema.id_of e == schema.id_of d) ds
      then (err duplicate_key, ds)
      else (ok (schema.id_of d), ds ++ d ∷ [])

  pub insert_kept-Kept :
      (d : Doc) (s : List Doc) → Kept schema d s (insert_kept d s).0 (insert_kept d s).1
  insert_kept-Kept d s = elim (Bool-cases (any (λ e. schema.id_of e == schema.id_of d) s)) [
    | inl taken ↦ rw taken (inr (duplicate_key, refl, inl refl))
    | inr free ↦ rw free (inl (refl, refl))
  ]

  abbrev pub memory : Collection Doc schema
  memory = record {
    State = List Doc;
    docs = λ s. s;
    find_one = λ p s. found (find p s);
    count = λ p s. ok (length (keep p s));
    find_all = λ p s. ok (keep p s);
    find_sorted = λ p key dir limit s. ok (limited key dir limit (sort key dir (keep p s)));
    find_slice = λ key dir skip limit s. ok (limited key dir limit (drop skip (sort key dir s)));
    find_one_and_update = λ p f s. (found (Option.map f (find p s)), update_first p f s);
    insert_one = insert;
    insert_with_id = insert_kept;
    update_one = λ p f s. (ok (matched p s), update_first p f s);
    delete_one = λ p s. (ok (matched p s), delete_first p s);
    delete_many = λ p s. (ok (length (keep p s)), keep (λ d. not (p d)) s);
    find_one_lem = λ p s. inr refl;
    count_lem = λ p s. inr refl;
    find_all_lem = λ p s. inr refl;
    find_sorted_lem = λ p key dir limit s. inr (
      limited key dir limit (sort key dir (keep p s)),
      refl,
      limited-IsPage key dir limit (keep p s),
    );
    find_slice_lem = λ key dir skip limit s. inr (
      limited key dir limit (drop skip (sort key dir s)),
      refl,
      drop-IsSlice key dir skip limit s,
    );
    find_one_and_update_lem = λ p f s. inl (refl, refl);
    insert_one_lem = insert_lem;
    insert_with_id_lem = insert_kept-Kept;
    update_one_lem = λ p f s. inl (refl, refl);
    delete_one_lem = λ p s. inl (refl, refl);
    delete_many_lem = λ p s. inl (refl, refl);
  }
