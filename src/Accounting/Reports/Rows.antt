-- ===== src/Accounting/Reports/Rows.antt =====
-- Sums over the rows of the grouped query: the order of the rows and the accounts without a pair
-- do not matter.
use sanmitra_backend.Base.{
  ℕ, ◌≡◌, refl, ◌∙◌, Bool, false, ◌&&◌, List, [], ◌∷◌, map, any, All, All-weaken, true, arith,
  Bool-cases, inl, inr,
}
use sanmitra_backend.Base.Sums.{sum_of, when, sum_of-perm, sum_of-keep, sum_of-eq_on, sum_of-zero}
use sanmitra_backend.Base.Equality.{◌==◌}
use sanmitra_backend.Accounting.Entities.{
  Scope, scope_eq, Account, JournalEntry, JournalLine, Tables,
}
use sanmitra_backend.Accounting.Store.{Database}
use sanmitra_backend.Accounting.Reports.{
  Row, Filters, selected, dated, joins, column, has_pair, row_of, gl_sums_by_account,
}
use sanmitra_backend.Accounting.Reports.Columns.{All-of}

sum_of-map {ℓ κ} :
    {A : Type ℓ} {B : Type κ} (g : B → ℕ) (f : A → B) (xs : List A)
    → sum_of g (map f xs) ≡ sum_of (λ x. g (f x)) xs
sum_of-map g f [] = refl
sum_of-map g f (x ∷ xs) = omega (arith, sum_of-map g f xs)

no_cell :
    (amount : JournalLine → ℕ) (scope : Scope) (on_date : ℕ → Bool) (a : Account) (e : JournalEntry)
    (ls : List JournalLine)
    → any (λ l. joins scope on_date e l a) ls ≡ false
    → sum_of (λ l. when (joins scope on_date e l a) (amount l)) ls ≡ 0
no_cell amount scope on_date a e [] h = refl
no_cell amount scope on_date a e (l ∷ ls) h = ground (arith, no_cell amount scope on_date a e ls)

no_cells :
    (amount : JournalLine → ℕ) (scope : Scope) (on_date : ℕ → Bool) (a : Account)
    (ls : List JournalLine) (es : List JournalEntry)
    → any (λ e. any (λ l. joins scope on_date e l a) ls) es ≡ false
    → sum_of (λ e. sum_of (λ l. when (joins scope on_date e l a) (amount l)) ls) es ≡ 0
no_cells amount scope on_date a ls [] h = refl
no_cells amount scope on_date a ls (e ∷ es) h =
    ground (arith, no_cell amount scope on_date a e ls, no_cells amount scope on_date a ls es)

column-no_pair :
    (amount : JournalLine → ℕ) (scope : Scope) (on_date : ℕ → Bool) (t : Tables) (a : Account)
    → has_pair scope on_date t a ≡ false
    → column amount scope on_date t a ≡ 0
unfolding column has_pair
column-no_pair amount scope on_date t a h = no_cells amount scope on_date a t.lines t.entries h

module _ (db : Database) (scope : Scope) (f : Filters) (t : Tables) where
  abbrev pub debit_column : Account → ℕ
  debit_column = column (λ l. l.debit) scope (dated f) t

  abbrev pub credit_column : Account → ℕ
  credit_column = column (λ l. l.credit) scope (dated f) t

  weight_kept :
      (w : Account → ℕ → ℕ → ℕ) (none_counts : (a : Account) → w a 0 0 ≡ 0) (a : Account)
      → when
          (a.scope == scope && selected f a && has_pair scope (dated f) t a)
          (w a (debit_column a) (credit_column a))
        ≡ when (a.scope == scope && selected f a) (w a (debit_column a) (credit_column a))
  weight_kept w none_counts a = elim (Bool-cases (has_pair scope (dated f) t a)) [
    | inl paired ↦ rw paired (ground arith)
    | inr no_pair ↦
        rw
          (
            no_pair,
            column-no_pair (λ l. l.debit) scope (dated f) t a no_pair,
            column-no_pair (λ l. l.credit) scope (dated f) t a no_pair,
          )
          (ground (arith, none_counts a))
  ]

  -- A sum over the rows is the sum over the selected accounts of the scope.
  pub sum_of-gl_sums_by_account :
      (w : Account → ℕ → ℕ → ℕ)
      → ((a : Account) → w a 0 0 ≡ 0)
      → sum_of (λ r. w r.account r.debit_total r.credit_total) (gl_sums_by_account db scope f t)
        ≡ sum_of
            (λ a. when (a.scope == scope && selected f a) (w a (debit_column a) (credit_column a)))
            t.accounts
  unfolding gl_sums_by_account
  sum_of-gl_sums_by_account w none_counts =
      sum_of-map _ (row_of scope (dated f) t) _
      ∙ sum_of-perm _ (db.order_by_name-perm _)
      ∙ sum_of-keep _ _ t.accounts
      ∙ sum_of-eq_on _ _ t.accounts (All-of (weight_kept w none_counts) t.accounts)

  none_counted :
      (bad : Account → Bool) (rows : List Row)
      → sum_of (λ r. when (bad r.account) 1) rows ≡ 0
      → All (λ r. bad r.account ≡ false) rows
  none_counted bad [] h = tt
  none_counted bad (r ∷ rows) h = (ground (arith, h), none_counted bad rows (omega (arith, h)))

  -- The rows are of selected accounts of the table only.
  pub rows_stored :
      (bad : Account → Bool)
      → All (λ a. selected f a ≡ true → bad a ≡ false) t.accounts
      → All (λ r. bad r.account ≡ false) (gl_sums_by_account db scope f t)
  unfolding gl_sums_by_account
  rows_stored bad good = none_counted bad _ (
      sum_of-map _ (row_of scope (dated f) t) _
      ∙ sum_of-perm _ (db.order_by_name-perm _)
      ∙ sum_of-keep _ _ t.accounts
      ∙ sum_of-eq_on _ (λ a. 0) t.accounts
          (All-weaken (λ a (g : selected f a ≡ true → bad a ≡ false). ground (arith, g)) t.accounts
            good)
      ∙ sum_of-zero t.accounts)

  -- The rows are of selected accounts only.
  pub rows_selected :
      (bad : Account → Bool)
      → ((a : Account) → selected f a ≡ true → bad a ≡ false)
      → All (λ r. bad r.account ≡ false) (gl_sums_by_account db scope f t)
  rows_selected bad good = rows_stored bad (All-of good t.accounts)
