-- ===== src/Base/Collection/Keyed.antt =====
-- A collection as an association list, which meets what `Collection` asks of the server.
use sanmitra_backend.Base.{
  ◌≡◌, refl, ap, String, Bool, true, false, Option, none, some, List, [], ◌∷◌, Bool-cases,
  Option-cases, inl, inr, arith, if◌then◌else◌,
}
use sanmitra_backend.Base.Equality.{◌==◌, string_eq, equal_self}
use sanmitra_backend.Base.Collection.{Collection}

abbrev pub Keyed : Type 0 → Type 0
Keyed D = List (String × D)

module _ {D : Type 0} where
  abbrev pub find_key : String → Keyed D → Option D
  find_key k [] = none
  find_key k ((j, d) ∷ docs) = if j == k then some d else find_key k docs

  abbrev pub set_key : String → (D → D) → Keyed D → Keyed D
  set_key k set [] = []
  set_key k set ((j, d) ∷ docs) = if j == k then (j, set d) ∷ docs else (j, d) ∷ set_key k set docs

  -- The contents, where a document matches.
  abbrev pub update_key : String → (D → D) → Keyed D → Keyed D × Bool
  update_key k set docs = elim (find_key k docs) [
    | none ↦ (docs, false)
    | some d ↦ (set_key k set docs, true)
  ]

  abbrev pub upsert_key : String → D → (D → D) → Keyed D → Keyed D
  upsert_key k new set docs = elim (find_key k docs) [
    | none ↦ (k, set new) ∷ docs
    | some d ↦ set_key k set docs
  ]

  abbrev change : (D → D) → Option D → Option D
  change set none = none
  change set (some d) = some (set d)

  pub find_key-set_key :
      (k : String) (set : D → D) (docs : Keyed D) (d : D)
      → find_key k docs ≡ some d
      → find_key k (set_key k set docs) ≡ some (set d)
  find_key-set_key k set [] d h = cc
  find_key-set_key k set ((j, e) ∷ docs) d h = elim (Bool-cases (j == k)) [
    | inl same ↦ rw (same, same) (ap (change set) (rw same at h))
    | inr other ↦ rw (other, other) (find_key-set_key k set docs d (rw other at h))
  ]

  find_key-other :
      (k i : String) (set : D → D) (docs : Keyed D)
      → (i == k) ≡ false
      → find_key i (set_key k set docs) ≡ find_key i docs
  find_key-other k i set [] h = refl
  find_key-other k i set ((j, e) ∷ docs) h = elim (Bool-cases (j == k)) [
    | inl same ↦
        rw same (
          ground (arith, string_eq.equal_iff j k, string_eq.equal_iff i k, string_eq.equal_iff j i))
    | inr other ↦ rw other (ground (arith, find_key-other k i set docs h))
  ]

  pub update_key-other :
      (k i : String) (set : D → D) (docs : Keyed D)
      → (i == k) ≡ false
      → find_key i (update_key k set docs).0 ≡ find_key i docs
  update_key-other k i set docs h = elim (Option-cases (find_key k docs)) [
    | inl e ↦ rw (update_key, e) refl
    | inr (d, e) ↦ rw (update_key, e) (find_key-other k i set docs h)
  ]

  pub upsert_key-other :
      (k i : String) (new : D) (set : D → D) (docs : Keyed D)
      → (i == k) ≡ false
      → find_key i (upsert_key k new set docs) ≡ find_key i docs
  upsert_key-other k i new set docs h = elim (Option-cases (find_key k docs)) [
    | inl e ↦ rw (upsert_key, e) (ground (arith, string_eq.equal_iff k i, string_eq.equal_iff i k))
    | inr (d, e) ↦ rw (upsert_key, e) (find_key-other k i set docs h)
  ]

  -- What the collection of documents offers.
  unfoldable pub keyed : Collection (Keyed D) D
  keyed = record {
    find_one = find_key;
    update_one = update_key;
    upsert_one = upsert_key;
    update_found = λ k set docs d h.
        (set_key k set docs, rw (update_key, h) refl, find_key-set_key k set docs d h);
    update_missing = λ k set docs h. rw (update_key, h) refl;
    update_other = update_key-other;
    upsert_found = λ k new set docs d h. rw (upsert_key, h) (find_key-set_key k set docs d h);
    upsert_missing = λ k new set docs h. rw (upsert_key, h) (rw (equal_self k) refl);
    upsert_other = upsert_key-other;
  }
