-- ===== src/Mongo/Laws.antt =====
-- What a write leaves of a property of all documents.
use woongkie_talkie.Base.{
  Bool, true, List, [], ◌∷◌, some, ◌≡◌, inl, inr, refl, ap, subst, find, All, All-append, arith,
  Bool-cases, String,
}
use woongkie_talkie.Mongo.{
  Reply, Schema, update_first, delete_first, Wrote, Inserted, added, refused, failed_before,
  failed_after,
}

module _ {Doc : Type 0} (P : Doc → Type 0) where
  pub All-update_first :
      (p : Doc → Bool) (f : Doc → Doc) (ds : List Doc)
      → ((d : Doc) → p d ≡ true → P d → P (f d))
      → All P ds
      → All P (update_first p f ds)
  All-update_first p f [] h a = tt
  All-update_first p f (d ∷ ds) h (pd, a) = elim (Bool-cases (p d)) [
    | inl hit ↦ rw hit (h d hit pd, a)
    | inr miss ↦ rw miss (pd, All-update_first p f ds h a)
  ]

  -- Only the document that a search finds is replaced.
  pub All-update_found :
      (p : Doc → Bool) (f : Doc → Doc) (ds : List Doc) (d : Doc)
      → find p ds ≡ some d
      → P (f d)
      → All P ds
      → All P (update_first p f ds)
  All-update_found p f [] d e h a = tt
  All-update_found p f (x ∷ ds) d e h (px, a) = elim (Bool-cases (p x)) [
    | inl hit ↦ let same : x ≡ d = ground (arith, hit, e) in rw (hit, same) (h, a)
    | inr miss ↦ rw miss (px, All-update_found p f ds d (rw miss at e) h a)
  ]

  pub All-delete_first : (p : Doc → Bool) (ds : List Doc) → All P ds → All P (delete_first p ds)
  All-delete_first p [] a = tt
  All-delete_first p (d ∷ ds) (pd, a) = elim (Bool-cases (p d)) [
    | inl hit ↦ rw hit a
    | inr miss ↦ rw miss (pd, All-delete_first p ds a)
  ]

  pub find-All : (p : Doc → Bool) (ds : List Doc) (d : Doc) → find p ds ≡ some d → All P ds → P d
  find-All p [] d e a = cc
  find-All p (x ∷ ds) d e (px, a) = elim (Bool-cases (p x)) [
    | inl hit ↦ subst P (ground (arith, hit, e)) px
    | inr miss ↦ find-All p ds d (rw miss at e) a
  ]

  -- Whether the write happened or not, the property holds.
  pub Wrote-All :
      {A : Type 0} (old new now : List Doc) (n : A) (r : Reply A)
      → Wrote old new n r now
      → All P old
      → All P new
      → All P now
  Wrote-All old new now n r (inl (e, w)) a b = rw w b
  Wrote-All old new now n r (inr (e, inl w)) a b = rw w a
  Wrote-All old new now n r (inr (e, inr w)) a b = rw w b

  pub Inserted-All :
      (schema : Schema Doc) (d : Doc) (old now : List Doc) (r : Reply String)
      → Inserted schema d old r now
      → ((id : String) → P (schema.with_id id d))
      → All P old
      → All P now
  Inserted-All schema d old now r (added id e w) h a = rw w.2 (All-append P old _ a (h id, tt))
  Inserted-All schema d old now r (refused e clash w) h a = rw w a
  Inserted-All schema d old now r (failed_before e w) h a = rw w a
  Inserted-All schema d old now r (failed_after id e w) h a =
      rw w.2 (All-append P old _ a (h id, tt))

module _ {Doc : Type 0} (p : Doc → Bool) where
  pub find-p : (ds : List Doc) (d : Doc) → find p ds ≡ some d → p d ≡ true
  find-p [] d e = cc
  find-p (x ∷ ds) d e = elim (Bool-cases (p x)) [
    | inl hit ↦ subst (λ y. p y ≡ true) (ground (arith, hit, e)) hit
    | inr miss ↦ find-p ds d (rw miss at e)
  ]

  -- Two updates of the document that a filter finds, where the first leaves it fitting.
  pub update_first-update_first :
      (f g : Doc → Doc) (ds : List Doc)
      → ((d : Doc) → p (f d) ≡ p d)
      → update_first p g (update_first p f ds) ≡ update_first p (λ d. g (f d)) ds
  update_first-update_first f g [] h = refl
  update_first-update_first f g (d ∷ ds) h = elim (Bool-cases (p d)) [
    | inl hit ↦ rw hit (rw (h d, hit))
    | inr miss ↦ rw miss (rw miss (ap (◌∷◌ d) (update_first-update_first f g ds h)))
  ]

  pub delete_first-update_first :
      (f : Doc → Doc) (ds : List Doc)
      → ((d : Doc) → p (f d) ≡ p d)
      → delete_first p (update_first p f ds) ≡ delete_first p ds
  delete_first-update_first f [] h = refl
  delete_first-update_first f (d ∷ ds) h = elim (Bool-cases (p d)) [
    | inl hit ↦ rw hit (rw (h d, hit))
    | inr miss ↦ rw miss (rw miss (ap (◌∷◌ d) (delete_first-update_first f ds h)))
  ]
