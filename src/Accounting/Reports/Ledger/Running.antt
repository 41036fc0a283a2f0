-- ===== src/Accounting/Reports/Ledger/Running.antt =====
-- The running balances of a ledger, and how they end.
use sanmitra_backend.Base.{
  ℕ, ◌+◌, ◌≡◌, refl, ◌∙◌, true, ◌&&◌, List, [], ◌∷◌, map, ok, any, nat_beq, arith,
}
use sanmitra_backend.Base.Int.{ℤ, pos, ◌+ℤ◌, sub_ℕ}
use sanmitra_backend.Base.Sums.{sum_of, when, sum_of-append, sum_of-perm}
use sanmitra_backend.Base.Equality.{◌==◌, nat_eq}
use sanmitra_backend.Accounting.Entities.{
  Scope, scope_eq, Account, JournalEntry, JournalLine, Tables,
}
use sanmitra_backend.Accounting.Store.{Database}
use sanmitra_backend.Accounting.Journal.Invariant.{Distinct}
use sanmitra_backend.Accounting.Table.Unique.{scalar_one_or_none_unique}
use sanmitra_backend.Accounting.Reports.{joins, column}
use sanmitra_backend.Accounting.Reports.Ledger.{
  LedgerLine, account_found, entry_lines, ledger_rows, ledger_lines, get_ledger_lines,
}

-- Every line's balance is all debits less all credits so far, from totals `d` and `c` on.
abbrev pub IsRunning : ℕ → ℕ → List LedgerLine → Type 0
IsRunning d c [] = Unit
IsRunning d c (l ∷ ls) =
    (l.running_balance ≡ sub_ℕ (d + l.debit) (c + l.credit))
    × IsRunning (d + l.debit) (c + l.credit) ls

pub next_balance : (d c x y : ℕ) → sub_ℕ d c +ℤ sub_ℕ x y ≡ sub_ℕ (d + x) (c + y)
unfolding ◌+ℤ◌
next_balance d c x y = ground arith

ledger_lines-IsRunning :
    (d c : ℕ) (rows : List (JournalEntry × JournalLine))
    → IsRunning d c (ledger_lines (sub_ℕ d c) rows)
unfolding ledger_lines
ledger_lines-IsRunning d c [] = tt
ledger_lines-IsRunning d c ((e, l) ∷ rows) =
    rw (next_balance d c l.debit l.credit)
      (refl, ledger_lines-IsRunning (d + l.debit) (c + l.credit) rows)

-- The columns of the rows.
sum_of-ledger_lines :
    (running : ℤ) (rows : List (JournalEntry × JournalLine))
    → (sum_of (λ l. l.debit) (ledger_lines running rows) ≡ sum_of (λ (e, l). l.debit) rows)
      × (sum_of (λ l. l.credit) (ledger_lines running rows) ≡ sum_of (λ (e, l). l.credit) rows)
unfolding ledger_lines
sum_of-ledger_lines running [] = (refl, refl)
sum_of-ledger_lines running ((e, l) ∷ rows) =
    let (a, b) = sum_of-ledger_lines (running +ℤ sub_ℕ l.debit l.credit) rows in
    (omega (arith, a), omega (arith, b))

module _ (amount : JournalLine → ℕ) (scope : Scope) (a : Account) where
  sum_of-entry_lines :
      (e : JournalEntry) (ls : List JournalLine)
      → sum_of (λ (e, l). amount l) (entry_lines scope a e ls)
        ≡ sum_of (λ l. when (joins scope (λ date. true) e l a) (amount l)) ls
  sum_of-entry_lines e [] = refl
  sum_of-entry_lines e (l ∷ ls) = ground (arith, sum_of-entry_lines e ls)

  sum_of-ledger_rows :
      (ls : List JournalLine) (es : List JournalEntry)
      → sum_of (λ (e, l). amount l) (ledger_rows scope a ls es)
        ≡ sum_of (λ e. sum_of (λ l. when (joins scope (λ date. true) e l a) (amount l)) ls) es
  sum_of-ledger_rows ls [] = refl
  sum_of-ledger_rows ls (e ∷ es) =
      sum_of-append (λ (e, l). amount l) (entry_lines scope a e ls) (ledger_rows scope a ls es)
      ∙ omega (arith, sum_of-entry_lines e ls, sum_of-ledger_rows ls es)

-- For an account of the scope, on tables whose accounts have distinct ids, the ledger is returned:
-- it is that account's, each line's running balance is all debits less all credits up to it, and
-- the lines' debits and credits add up to the account's two columns in the trial balance's query
-- over all dates.
pub get_ledger_lines-IsRunning :
    (db : Database) (scope : Scope) (account_id : ℕ) (t : Tables)
    → Distinct (map (λ a. a.id) t.accounts)
    → any (λ a. nat_beq a.id account_id && a.scope == scope) t.accounts ≡ true
    → (a : Account) × (lines : List LedgerLine) × (get_ledger_lines db scope account_id t
        ≡ ok (a, lines))
      × (a.id ≡ account_id)
      × (a.scope ≡ scope)
      × IsRunning 0 0 lines
      × (sum_of (λ l. l.debit) lines ≡ column (λ l. l.debit) scope (λ date. true) t a)
      × (sum_of (λ l. l.credit) lines ≡ column (λ l. l.credit) scope (λ date. true) t a)
unfolding get_ledger_lines account_found column
get_ledger_lines-IsRunning db scope account_id t d h =
    let (a, found, same_id, same_scope) =
      scalar_one_or_none_unique (λ a. a.id) account_id (λ a. a.scope == scope) t.accounts d h in
    let rows = ledger_rows scope a t.lines t.entries in
    let (debits, credits) = sum_of-ledger_lines (pos 0) (db.order_ledger rows) in
    (
      a,
      ledger_lines (pos 0) (db.order_ledger rows),
      rw found refl,
      same_id,
      (scope_eq.equal_iff a.scope scope).0 same_scope,
      ledger_lines-IsRunning 0 0 (db.order_ledger rows),
      debits
          ∙ sum_of-perm _ (db.order_ledger-perm rows)
          ∙ sum_of-ledger_rows (λ l. l.debit) scope a t.lines t.entries,
      credits
          ∙ sum_of-perm _ (db.order_ledger-perm rows)
          ∙ sum_of-ledger_rows (λ l. l.credit) scope a t.lines t.entries,
    )
