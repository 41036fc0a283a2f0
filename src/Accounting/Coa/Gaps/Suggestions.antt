-- ===== src/Accounting/Coa/Gaps/Suggestions.antt =====
-- What the gaps suggest.
use sanmitra_backend.Base.{
  ℕ, ◌≡◌, refl, subst, ◌*◌, ◌+◌, String, Bool, true, false, not, Option, none, some, List, [], ◌∷◌,
  map, keep, All, find, length, ltb, if◌then◌else◌, arith, Bool-cases, Option-cases, inl, inr,
}
use sanmitra_backend.Base.Text.{Casing}
use sanmitra_backend.Base.Equality.{◌==◌, contains, nat_eq, string_eq}
use sanmitra_backend.Accounting.Entities.{
  Scope, scope_eq, SourceSystem, Account, CoaSourceAccount, Tables,
}
use sanmitra_backend.Accounting.Coa.Gaps.{
  Suggestion, Scored, better, tokenize, best_match, has_code, normalize_key, gap_of, suggestion_of,
  token_similarity, suggest_canonical_account, get_coa_mapping_gaps,
}

-- Whether an account of the list has an id.
abbrev pub offers : List Account → ℕ → Bool
offers accounts i = contains (map (λ a. a.id) accounts) i

-- No suggestion, or one of an account of the list.
abbrev pub names_one : List Account → Option Suggestion → Bool
names_one accounts none = true
names_one accounts (some s) = offers accounts s.canonical_account_id

found_offered :
    (q : Account → Bool) (accounts : List Account) (a : Account)
    → find q accounts ≡ some a
    → offers accounts a.id ≡ true
found_offered q [] a h = ground arith
found_offered q (x ∷ accounts) a h = elim (Bool-cases (q x)) [
  | inl hit ↦
      let first : some x ≡ some a = rw hit at h in
      let same : x ≡ a = cc in subst (λ z. offers (x ∷ accounts) z.id ≡ true) same (ground arith)
  | inr miss ↦ ground (arith, found_offered q accounts a (rw miss at h))
]

module _ (python : Casing) (is_alnum : ℕ → Bool) (confidence : ℕ → ℕ → ℕ) (all : List Account) where
  abbrev known : Option Account → Bool
  known none = true
  known (some a) = offers all a.id

  better-known :
      (a : Account) (xs ys : List String) (best : Scored)
      → offers all a.id ≡ true
      → known best.account ≡ true
      → known (better a xs ys best).account ≡ true
  better-known a xs ys best h k =
      elim (Bool-cases (
        ltb (best.overlap * (length xs + length (keep (λ y. not (contains xs y)) ys)))
          (length (keep (λ y. contains xs y) ys) * best.union))) [
            | inl higher ↦ rw higher h
            | inr lower ↦ rw lower k
          ]

  step_known :
      (silent : Bool) (a : Account) (xs ys : List String) (best : Scored)
      → offers all a.id ≡ true
      → known best.account ≡ true
      → known (if silent then best else better a xs ys best).account ≡ true
  step_known true a xs ys best h k = k
  step_known false a xs ys best h k = better-known a xs ys best h k

  best_match-known :
      (tokens : List String) (accounts : List Account) (best : Scored)
      → All (λ a. offers all a.id ≡ true) accounts
      → known best.account ≡ true
      → known (best_match python is_alnum confidence tokens accounts best).account ≡ true
  best_match-known tokens [] best h k = k
  best_match-known tokens (a ∷ accounts) best (p, h) k =
      best_match-known tokens accounts _ h
        (step_known _ a tokens (tokenize python is_alnum confidence a.name) best p k)

  start_known :
      (silent : Bool) (tokens : List String)
      → All (λ a. offers all a.id ≡ true) all
      → known
          (if silent
            then (record { account = none; overlap = 0; union = 1 })
            else best_match python is_alnum confidence tokens all
                (record { account = none; overlap = 0; union = 1 })).account
        ≡ true
  start_known true tokens h = refl
  start_known false tokens h = best_match-known tokens all _ h refl

  accepted :
      (low : Bool) (best : Option Account) (rate : ℕ)
      → known best ≡ true
      → names_one all (elim best [
        | none ↦ none
        | some a ↦ if low then none else some (suggestion_of rate token_similarity a)
      ])
        ≡ true
  accepted low none rate h = refl
  accepted true (some a) rate h = refl
  accepted false (some a) rate h = h

  suggestion_known :
      (source_code source_name : String)
      → All (λ a. offers all a.id ≡ true) all
      → names_one all
          (suggest_canonical_account python is_alnum confidence source_code source_name all)
        ≡ true
  unfolding suggest_canonical_account
  suggestion_known source_code source_name h =
      elim (Option-cases (find (has_code python is_alnum confidence source_code) all)) [
        | inr (a, hit) ↦ rw (suggest_canonical_account, hit) (found_offered _ all a hit)
        | inl none_coded ↦
            elim (Option-cases (
              find
                (λ a.
                  normalize_key python is_alnum confidence a.name
                  == normalize_key python is_alnum confidence source_name)
                all)) [
                  | inr (a, hit) ↦
                      rw (suggest_canonical_account, none_coded, hit) (found_offered _ all a hit)
                  | inl none_named ↦
                      rw (suggest_canonical_account, none_coded, none_named)
                        (accepted _ _ _ (start_known _ _ h))
                ]
      ]

offers-longer :
    (x : Account) (accounts rows : List Account)
    → All (λ a. offers accounts a.id ≡ true) rows
    → All (λ a. offers (x ∷ accounts) a.id ≡ true) rows
offers-longer x accounts [] h = tt
offers-longer x accounts (a ∷ rows) (p, h) = (ground arith, offers-longer x accounts rows h)

offers_own : (accounts : List Account) → All (λ a. offers accounts a.id ≡ true) accounts
offers_own [] = tt
offers_own (a ∷ accounts) = (ground arith, offers-longer a accounts accounts (offers_own accounts))

module _ (python : Casing) (is_alnum : ℕ → Bool) (confidence : ℕ → ℕ → ℕ) where
  gaps_known :
      (accounts : List Account) (rows : List CoaSourceAccount)
      → All
          (λ g. names_one accounts g.suggestion ≡ true)
          (map (gap_of python is_alnum confidence accounts) rows)
  gaps_known accounts [] = tt
  gaps_known accounts (r ∷ rows) = (
    suggestion_known python is_alnum confidence accounts r.source_account_code r.source_account_name
        (offers_own accounts),
    gaps_known accounts rows,
  )

  -- Whatever the tables hold, each gap that `get_coa_mapping_gaps` lists has no suggestion or
  -- suggests the id of an account in the scope of the request.
  pub get_coa_mapping_gaps_local :
      (scope : Scope) (system : SourceSystem) (t : Tables)
      → All
          (λ g. names_one (keep (λ a. a.scope == scope) t.accounts) g.suggestion ≡ true)
          (get_coa_mapping_gaps python is_alnum confidence scope system t)
  unfolding get_coa_mapping_gaps
  get_coa_mapping_gaps_local scope system t = gaps_known (keep (λ a. a.scope == scope) t.accounts) _
