-- ===== src/Accounting/Reports/Columns.antt =====
-- The columns of the grouped query add up to the totals of the entries: each line counts once.
use mathlib.Core.Path.{fun_ext}
use sanmitra_backend.Base.{
  ℕ, ◌≡◌, refl, sym, ap, subst, ◌∙◌, Bool, true, false, ◌&&◌, List, [], ◌∷◌, map, All, All-weaken,
  any, nat_beq, arith, Bool-cases, inl, inr,
}
use sanmitra_backend.Base.Sums.{sum_of, when, sum_of-swap, sum_of-eq_on, sum_of-zero}
use sanmitra_backend.Base.Equality.{◌==◌, contains, nat_eq}
use sanmitra_backend.Accounting.Entities.{
  Scope, scope_eq, Account, JournalEntry, JournalLine, Tables,
}
use sanmitra_backend.Accounting.Journal.Invariant.{Distinct, Placed, IsConsistent}
use sanmitra_backend.Accounting.Reports.{joins, column}

sum_of-when {ℓ} :
    {A : Type ℓ} (b : Bool) (f : A → ℕ) (xs : List A)
    → when b (sum_of f xs) ≡ sum_of (λ x. when b (f x)) xs
sum_of-when true f xs = refl
sum_of-when false f xs = sym (sum_of-zero xs)

All-both {ℓ κ μ} :
    {A : Type ℓ} (P : A → Type κ) (Q : A → Type μ) (xs : List A)
    → All P xs
    → All Q xs
    → All (λ x. P x × Q x) xs
All-both P Q [] h k = tt
All-both P Q (x ∷ xs) (p, h) (q, k) = ((p, q), All-both P Q xs h k)

pub All-of {ℓ κ} : {A : Type ℓ} {P : A → Type κ} → ((x : A) → P x) → (xs : List A) → All P xs
All-of f [] = tt
All-of f (x ∷ xs) = (f x, All-of f xs)

-- Rows with a primary key and a scope.
module _ {A : Type 0} (id : A → ℕ) (scope_of : A → Scope) (scope : Scope) (k : ℕ) where
  listed_id :
      (rows : List A)
      → any (λ a. nat_beq (id a) k && scope_of a == scope) rows ≡ true
      → contains (map id rows) k ≡ true
  listed_id [] h = cc
  listed_id (a ∷ rows) h = ground (arith, listed_id rows)

  absent_row :
      (n : ℕ) (rows : List A)
      → contains (map id rows) k ≡ false
      → sum_of (λ a. when (scope_of a == scope && nat_beq k (id a)) n) rows ≡ 0
  absent_row n [] h = refl
  absent_row n (a ∷ rows) h = ground (arith, absent_row n rows)

  -- One row of the scope carries a listed id.
  one_row :
      (n : ℕ) (rows : List A)
      → Distinct (map id rows)
      → any (λ a. nat_beq (id a) k && scope_of a == scope) rows ≡ true
      → sum_of (λ a. when (scope_of a == scope && nat_beq k (id a)) n) rows ≡ n
  one_row n [] d h = cc
  one_row n (a ∷ rows) (fresh, d) h = ground (
    arith,
    one_row n rows d,
    absent_row n rows,
    listed_id rows,
    λ (e : k ≡ id a). ap (contains (map id rows)) e,
  )

  guarded_row :
      (n : ℕ) (b : Bool) (rows : List A)
      → sum_of (λ a. when (scope_of a == scope) (when (b && nat_beq k (id a)) n)) rows
        ≡ when b (sum_of (λ a. when (scope_of a == scope && nat_beq k (id a)) n) rows)
  guarded_row n b [] = ground arith
  guarded_row n b (a ∷ rows) = ground (arith, guarded_row n b rows)

  no_row :
      (rows : List A)
      → contains (map id rows) k ≡ false
      → All (λ a. k ≡ id a → scope_of a ≡ scope) rows
  no_row [] h = tt
  no_row (a ∷ rows) h = ((λ same. absurd (ground arith)), no_row rows (ground arith))

  -- The scope of the row that carries a listed id.
  row_scope :
      (rows : List A)
      → Distinct (map id rows)
      → any (λ a. nat_beq (id a) k && scope_of a == scope) rows ≡ true
      → All (λ a. k ≡ id a → scope_of a ≡ scope) rows
  row_scope [] d h = tt
  row_scope (a ∷ rows) (fresh, d) h = (
    (λ same. ground (
      arith,
      listed_id rows,
      ap (contains (map id rows)) same,
      scope_eq.equal_iff (scope_of a) scope,
    )),
    elim (Bool-cases (nat_beq (id a) k)) [
      | inl same ↦ no_row rows (ground (arith, λ (e : k ≡ id a). ap (contains (map id rows)) e))
      | inr other ↦ row_scope rows d (ground arith)
    ],
  )

scopes_agree :
    (es : List JournalEntry) (rows : List Account) (ls : List JournalLine)
    → Distinct (map (λ e. e.id) es)
    → All (Placed es rows) ls
    → All (λ e. All (λ l. l.journal_id ≡ e.id → e.scope ≡ l.scope) ls) es
scopes_agree es rows [] d p = All-of (λ e. tt) es
scopes_agree es rows (l ∷ ls) d (p, ps) =
    All-both _ _ es (row_scope (λ e. e.id) (λ e. e.scope) l.scope l.journal_id es d p.entry)
      (scopes_agree es rows ls d ps)

module _ (amount : JournalLine → ℕ) (total : JournalEntry → ℕ) (scope : Scope) (on_date : ℕ → Bool)
    (t : Tables) (valid : IsConsistent t)
    (stored : All
      (λ e. sum_of (λ l. when (nat_beq l.journal_id e.id) (amount l)) t.lines ≡ total e)
      t.entries) where
  abbrev cell : Account → JournalEntry → JournalLine → ℕ
  cell a e l = when (a.scope == scope) (when (joins scope on_date e l a) (amount l))

  abbrev entry_cell : JournalEntry → JournalLine → ℕ
  entry_cell e l =
      when
        (e.scope == scope && on_date e.entry_date && l.scope == scope && nat_beq l.journal_id e.id)
        (amount l)

  by_account :
      sum_of (λ a. when (a.scope == scope) (column amount scope on_date t a)) t.accounts
      ≡ sum_of (λ e. sum_of (λ l. sum_of (λ a. cell a e l) t.accounts) t.lines) t.entries
  unfolding column
  by_account =
      ap (λ f. sum_of f t.accounts)
        (fun_ext (λ a.
          sum_of-when (a.scope == scope) _ t.entries
          ∙ ap (λ f. sum_of f t.entries) (fun_ext (λ e. sum_of-when (a.scope == scope) _ t.lines))))
      ∙ sum_of-swap (λ a e. sum_of (cell a e) t.lines) t.accounts t.entries
      ∙ ap (λ f. sum_of f t.entries)
          (fun_ext (λ e. sum_of-swap (λ a l. cell a e l) t.accounts t.lines))

  by_line :
      (e : JournalEntry) (l : JournalLine)
      → Placed t.entries t.accounts l
      → sum_of (λ a. cell a e l) t.accounts ≡ entry_cell e l
  by_line e l p = ground (
    arith,
    guarded_row (λ a. a.id) (λ a. a.scope) scope l.account_id (amount l)
        (e.scope == scope && on_date e.entry_date && l.scope == scope && nat_beq l.journal_id e.id)
        t.accounts,
    one_row (λ a. a.id) (λ a. a.scope) scope l.account_id (amount l) t.accounts valid.account_ids,
    scope_eq.equal_iff l.scope scope,
    λ (s : l.scope ≡ scope).
        subst (λ s. any (λ a. nat_beq a.id l.account_id && a.scope == s) t.accounts ≡ true) s
          p.account,
  )

  by_entry :
      (e : JournalEntry) (ls : List JournalLine)
      → All (λ l. l.journal_id ≡ e.id → e.scope ≡ l.scope) ls
      → sum_of (entry_cell e) ls
        ≡ when
            (e.scope == scope && on_date e.entry_date)
            (sum_of (λ l. when (nat_beq l.journal_id e.id) (amount l)) ls)
  by_entry e [] h = ground arith
  by_entry e (l ∷ ls) (p, h) =
      ground (arith, by_entry e ls h, p, λ (s : e.scope ≡ l.scope). ap (λ x. x == scope) s)

  -- Over the accounts of a scope, a column of the grouped query adds up to the totals of the
  -- scope's entries on the dates in question.
  pub columns_total :
      sum_of (λ a. when (a.scope == scope) (column amount scope on_date t a)) t.accounts
      ≡ sum_of (λ e. when (e.scope == scope && on_date e.entry_date) (total e)) t.entries
  columns_total =
      by_account
      ∙ ap (λ f. sum_of f t.entries)
          (fun_ext (λ e.
            sum_of-eq_on _ (entry_cell e) t.lines
              (All-weaken (λ l p. by_line e l p) t.lines valid.placed)))
      ∙ sum_of-eq_on _ _ t.entries (
          All-weaken
            (λ e (agree, whole).
              by_entry e t.lines agree ∙ ap (when (e.scope == scope && on_date e.entry_date)) whole)
            t.entries
            (All-both _ _ t.entries
              (scopes_agree t.entries t.accounts t.lines valid.entry_ids valid.placed) stored))
