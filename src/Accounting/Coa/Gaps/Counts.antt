-- ===== src/Accounting/Coa/Gaps/Counts.antt =====
-- The gaps are the sources in use that have no active mapping.
use sanmitra_backend.Base.{
  ◌&&◌, nat_beq, sym, subst, ◌∙◌, nat_beq_iff, String, any, Option, ◌||◌, ap, ℕ, ◌+◌, ◌≡◌, refl,
  Bool, true, not, List, [], ◌∷◌, map, keep, All, length, length-map, arith, Bool-cases, inl, inr,
}
use sanmitra_backend.Base.Text.{Casing}
use sanmitra_backend.Base.Equality.{◌==◌, contains, add, nat_eq, string_eq}
use sanmitra_backend.Accounting.Entities.{
  AccountType, CoaMapping, Account, Scope, scope_eq, SourceSystem, CoaSourceAccount, active, Tables,
}
use sanmitra_backend.Accounting.Journal.Invariant.{Distinct}
use sanmitra_backend.Accounting.Table.Laws.{Distinct-keep}
use sanmitra_backend.Accounting.Coa.Systems.{system_eq, status_eq}
use sanmitra_backend.Accounting.Coa.Mappings.{
  in_use, mappings_of, ids_with, get_coa_onboarding_status,
}
use sanmitra_backend.Accounting.Coa.Mappings.Counts.{
  length-le, ids_with-Distinct, ids_with-within, chosen_within,
}
use sanmitra_backend.Accounting.Coa.Gaps.{Gap, gap_of, get_coa_mapping_gaps}

module _ (ids : List ℕ) where
  abbrev in_ids : CoaSourceAccount → Bool
  in_ids r = contains ids r.id

  kept_within :
      (rows : List CoaSourceAccount)
      → All (λ i. contains ids i ≡ true) (map (λ r. r.id) (keep in_ids rows))
  kept_within [] = tt
  kept_within (r ∷ rows) = elim (Bool-cases (in_ids r)) [
    | inl good ↦ rw good (good, kept_within rows)
    | inr bad ↦ rw bad (kept_within rows)
  ]

  -- An id of the rows that is among the ids is kept.
  contains-kept :
      (i : ℕ) (rows : List CoaSourceAccount)
      → contains ids i ≡ true
      → contains (map (λ r. r.id) rows) i ≡ true
      → contains (map (λ r. r.id) (keep in_ids rows)) i ≡ true
  contains-kept i [] h k = k
  contains-kept i (r ∷ rows) h k = elim (Bool-cases (in_ids r)) [
    | inl good ↦ rw good (ground (arith, contains-kept i rows))
    | inr bad ↦ rw bad (contains-kept i rows h (ground arith))
  ]

  kept_inside :
      (rows : List CoaSourceAccount) (xs : List ℕ)
      → All (λ i. contains ids i ≡ true) xs
      → All (λ i. contains (map (λ r. r.id) rows) i ≡ true) xs
      → All (λ i. contains (map (λ r. r.id) (keep in_ids rows)) i ≡ true) xs
  kept_inside rows [] h k = tt
  kept_inside rows (x ∷ xs) (p, h) (q, k) = (contains-kept x rows p q, kept_inside rows xs h k)

  length-split :
      (rows : List CoaSourceAccount)
      → length (keep in_ids rows) + length (keep (λ r. not (in_ids r)) rows) ≡ length rows
  length-split [] = refl
  length-split (r ∷ rows) = elim (Bool-cases (in_ids r)) [
    | inl good ↦ rw good (omega (arith, length-split rows))
    | inr bad ↦ rw bad (omega (arith, length-split rows))
  ]

longer_within :
    (xs ys : List ℕ)
    → All (λ i. contains (ys) i ≡ true) xs
    → (y : ℕ) → All (λ i. contains (y ∷ ys) i ≡ true) xs
longer_within [] ys h y = tt
longer_within (x ∷ xs) ys (p, h) y = (ground arith, longer_within xs ys h y)

self_within : (xs : List ℕ) → All (λ i. contains xs i ≡ true) xs
self_within [] = tt
self_within (x ∷ xs) = (ground arith, longer_within xs xs (self_within xs) x)

-- A source account of the product in use that has no active mapping, as the tables say it.
abbrev pub uncovered : Scope → SourceSystem → Tables → CoaSourceAccount → Bool
uncovered scope system t r =
    r.scope == scope
    && r.source_system == system
    && r.is_active
    && not (
        any (λ m. m.scope == scope && nat_beq m.source_account_id r.id && m.status == active)
          t.mappings)

-- The columns of a source account that a gap shows.
abbrev pub Heading : Type 0
Heading = SourceSystem × String × String × Option AccountType

abbrev pub gap_heading : Gap → Heading
gap_heading g =
    (g.source_system, g.source_account_code, g.source_account_name, g.source_account_type)

abbrev pub source_heading : CoaSourceAccount → Heading
source_heading r =
    (r.source_system, r.source_account_code, r.source_account_name, r.source_account_type)

contains-add : (i j : ℕ) (xs : List ℕ) → contains (add xs j) i ≡ (nat_beq i j || contains xs i)
contains-add i j xs = elim (Bool-cases (contains xs j)) [
  | inl old ↦ elim (Bool-cases (nat_beq i j)) [
    | inl same ↦
        let e : i ≡ j = (nat_beq_iff i j).0 same in
        rw (old, same) (subst (λ k. contains xs k ≡ true) (sym e) old)
    | inr other ↦ rw (old, other) refl
  ]
  | inr new ↦ rw new (ground arith)
]

module _ (scope : Scope) (ids : List ℕ) where
  contains-ids_with :
      (i : ℕ) (ms : List CoaMapping)
      → contains ids i ≡ true
      → contains
          (ids_with active (keep (λ m. m.scope == scope && contains ids m.source_account_id) ms))
          i
        ≡ any (λ m. m.scope == scope && nat_beq m.source_account_id i && m.status == active) ms
  contains-ids_with i [] h = refl
  contains-ids_with i (m ∷ ms) h =
      let rest = contains-ids_with i ms h in
      let kept = keep (λ m. m.scope == scope && contains ids m.source_account_id) ms in
      let own : nat_beq i m.source_account_id ≡ true → contains ids m.source_account_id ≡ true =
        λ e. subst (λ k. contains ids k ≡ true) ((nat_beq_iff i m.source_account_id).0 e) h in
      elim (Bool-cases (m.scope == scope && contains ids m.source_account_id)) [
        | inl chosen ↦ elim (Bool-cases (m.status == active)) [
          | inl counts ↦
              rw (chosen, counts, contains-add i m.source_account_id (ids_with active kept), rest)
                (ground arith)
          | inr other ↦ rw (chosen, other, rest) (ground arith)
        ]
        | inr left_out ↦ rw (left_out, rest) (ground (arith, own))
      ]

  keep-uncovered :
      (system : SourceSystem) (t : Tables) (rows : List CoaSourceAccount)
      → All (λ i. contains ids i ≡ true) (map (λ r. r.id) (keep (in_use scope system) rows))
      → keep
          (λ r. not (
            contains
              (ids_with active
                (keep (λ m. m.scope == scope && contains ids m.source_account_id) t.mappings))
              r.id))
          (keep (in_use scope system) rows)
        ≡ keep (uncovered scope system t) rows
  keep-uncovered system t [] h = refl
  keep-uncovered system t (r ∷ rows) h = elim (Bool-cases (in_use scope system r)) [
    | inl used ↦
        let (own, h') = step used in
        let rest = keep-uncovered system t rows h' in
        let same = contains-ids_with r.id t.mappings own in rw (used, same, rest) (ground arith)
    | inr unused ↦ rw unused (keep-uncovered system t rows (rw unused at h) ∙ ground arith)
  ]
    where
      step :
          in_use scope system r ≡ true
          → (contains ids r.id ≡ true)
            × All (λ i. contains ids i ≡ true) (map (λ r. r.id) (keep (in_use scope system) rows))
      step used = rw used at h

module _ (python : Casing) (is_alnum : ℕ → Bool) (confidence : ℕ → ℕ → ℕ) where
  gap_of-heading :
      (accounts : List Account) (rows : List CoaSourceAccount)
      → map gap_heading (map (gap_of python is_alnum confidence accounts) rows)
        ≡ map source_heading rows
  gap_of-heading accounts [] = refl
  gap_of-heading accounts (r ∷ rows) =
      ap (λ hs. source_heading r ∷ hs) (gap_of-heading accounts rows)

  gaps_counted :
      (scope : Scope) (system : SourceSystem) (t : Tables)
      → Distinct (map (λ r. r.id) t.source_accounts)
      → length (get_coa_mapping_gaps python is_alnum confidence scope system t)
          + (get_coa_onboarding_status scope system t).mapped_active
        ≡ (get_coa_onboarding_status scope system t).total_source_accounts
  unfolding get_coa_mapping_gaps get_coa_onboarding_status
  gaps_counted scope system t d =
      let sources = keep (in_use scope system) t.source_accounts in
      let ids = map (λ r. r.id) sources in
      let rows = mappings_of scope sources t in
      let on = ids_with active rows in
      let one = ids_with-Distinct active rows in
      let within = ids_with-within active ids rows (chosen_within scope ids t.mappings) in
      let kept = map (λ r. r.id) (keep (λ r. contains on r.id) sources) in
      let fewer = length-le on kept one (kept_inside on sources on (self_within on) within) in
      let more =
        length-le kept on
          (Distinct-keep (λ (r : CoaSourceAccount). r.id) (λ r. contains on r.id) sources
            (Distinct-keep (λ (r : CoaSourceAccount). r.id) (in_use scope system) t.source_accounts
              d))
          (kept_within on sources) in
      omega (
        arith,
        fewer,
        more,
        length-split on sources,
        length-map (λ (r : CoaSourceAccount). r.id) (keep (λ r. contains on r.id) sources),
        length-map (gap_of python is_alnum confidence (keep (λ a. a.scope == scope) t.accounts))
            (keep (λ r. not (contains on r.id)) sources),
      )

  -- `get_coa_mapping_gaps` lists the product, code, name and type of exactly the source accounts of
  -- the product in use that no active mapping of the scope names, in the table's order. Where the
  -- source accounts have distinct primary keys, the number of gaps and the number of accounts that
  -- `get_coa_onboarding_status` counts as actively mapped add up to its total.
  pub get_coa_mapping_gaps_complete :
      (scope : Scope) (system : SourceSystem) (t : Tables)
      → Distinct (map (λ r. r.id) t.source_accounts)
      → (map gap_heading (get_coa_mapping_gaps python is_alnum confidence scope system t)
          ≡ map source_heading (keep (uncovered scope system t) t.source_accounts))
        × (length (get_coa_mapping_gaps python is_alnum confidence scope system t)
              + (get_coa_onboarding_status scope system t).mapped_active
            ≡ (get_coa_onboarding_status scope system t).total_source_accounts)
  unfolding get_coa_mapping_gaps
  get_coa_mapping_gaps_complete scope system t d =
      let ids = map (λ r. r.id) (keep (in_use scope system) t.source_accounts) in
      (
        gap_of-heading (keep (λ a. a.scope == scope) t.accounts) _
            ∙ ap (map source_heading)
                (keep-uncovered scope ids system t t.source_accounts (self_within ids)),
        gaps_counted scope system t d,
      )
