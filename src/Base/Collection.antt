-- ===== src/Base/Collection.antt =====
-- What the source uses of a MongoDB collection with a unique key: `find_one`, `update_one` with
-- `$set`, and `update_one` with `upsert=True` and `$setOnInsert`, as the server documents them.
-- `Docs` is the collection's contents and `D` a document.
pub mod Keyed
use sanmitra_backend.Base.{◌≡◌, String, Bool, true, false, Option, none, some}
use sanmitra_backend.Base.Equality.{◌==◌, string_eq}

pub record Collection (Docs D : Type 0) : Type 0 where
  pub find_one : String → Docs → Option D
  -- The new contents, and whether a document matched.
  pub update_one : String → (D → D) → Docs → Docs × Bool
  -- The document that `$setOnInsert` starts, and the `$set` that follows in both cases.
  pub upsert_one : String → D → (D → D) → Docs → Docs
  pub update_found :
      (k : String) (set : D → D) (docs : Docs) (d : D)
      → find_one k docs ≡ some d
      → (docs' : Docs) × (update_one k set docs ≡ (docs', true)) × (find_one k docs' ≡ some (set d))
  pub update_missing :
      (k : String) (set : D → D) (docs : Docs)
      → find_one k docs ≡ none
      → update_one k set docs ≡ (docs, false)
  pub update_other :
      (k j : String) (set : D → D) (docs : Docs)
      → (j == k) ≡ false
      → find_one j (update_one k set docs).0 ≡ find_one j docs
  pub upsert_found :
      (k : String) (new : D) (set : D → D) (docs : Docs) (d : D)
      → find_one k docs ≡ some d
      → find_one k (upsert_one k new set docs) ≡ some (set d)
  pub upsert_missing :
      (k : String) (new : D) (set : D → D) (docs : Docs)
      → find_one k docs ≡ none
      → find_one k (upsert_one k new set docs) ≡ some (set new)
  pub upsert_other :
      (k j : String) (new : D) (set : D → D) (docs : Docs)
      → (j == k) ≡ false
      → find_one j (upsert_one k new set docs) ≡ find_one j docs
