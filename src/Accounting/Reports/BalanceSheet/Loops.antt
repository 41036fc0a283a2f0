-- ===== src/Accounting/Reports/BalanceSheet/Loops.antt =====
-- What the loops of the balance sheet add up, for rows below the 28 digits.
use sanmitra_backend.Base.{ℕ, zero, suc, ◌+◌, ◌<◌, ◌≡◌, refl, ap, List, [], ◌∷◌, arith, ok}
use sanmitra_backend.Base.Int.{ℤ, pos, negsuc, pos_part, neg_part, sub_ℕ, ◌+ℤ◌, ◌-ℤ◌, int_laws}
use sanmitra_backend.Base.Sums.{sum_of}
use sanmitra_backend.Accounting.Decimal.{precision_limit, quantize_signed}
use sanmitra_backend.Accounting.Entities.{
  Account, AccountType, asset, liability, equity, income, expense,
}
use sanmitra_backend.Accounting.Reports.{Row}
use sanmitra_backend.Accounting.Reports.TrialBalance.Balanced.{
  quantize_cents-below, difference-below,
}
use sanmitra_backend.Accounting.Reports.BalanceSheet.{
  net_balance, profit_at, profit_totals, net_profit_from_rows, Sheet, place_at, place, sheet_rows,
  add_earnings, quantize_totals,
}

-- From `z` to `z'` by `p` up and `m` down.
abbrev pub Moves : ℤ → ℤ → ℕ → ℕ → Type 0
Moves z z' p m = z' +ℤ pos m ≡ z +ℤ pos p

-- What a row adds to and takes from each total.
abbrev pub asset_in : AccountType → ℕ → ℕ → ℕ
asset_in asset d c = d
asset_in _ d c = 0

abbrev pub asset_out : AccountType → ℕ → ℕ → ℕ
asset_out asset d c = c
asset_out _ d c = 0

abbrev pub liability_in : AccountType → ℕ → ℕ → ℕ
liability_in liability d c = c
liability_in _ d c = 0

abbrev pub liability_out : AccountType → ℕ → ℕ → ℕ
liability_out liability d c = d
liability_out _ d c = 0

abbrev pub equity_in : AccountType → ℕ → ℕ → ℕ
equity_in equity d c = c
equity_in income d c = c
equity_in expense d c = d
equity_in _ d c = 0

abbrev pub equity_out : AccountType → ℕ → ℕ → ℕ
equity_out equity d c = d
equity_out income d c = d
equity_out expense d c = c
equity_out _ d c = 0

abbrev pub income_in : AccountType → ℕ → ℕ → ℕ
income_in income d c = c
income_in _ d c = 0

abbrev pub income_out : AccountType → ℕ → ℕ → ℕ
income_out income d c = d
income_out _ d c = 0

abbrev pub expense_in : AccountType → ℕ → ℕ → ℕ
expense_in expense d c = d
expense_in _ d c = 0

abbrev pub expense_out : AccountType → ℕ → ℕ → ℕ
expense_out expense d c = c
expense_out _ d c = 0

abbrev pub over_rows : (AccountType → ℕ → ℕ → ℕ) → List Row → ℕ
over_rows w rows = sum_of (λ r. w r.account.account_type r.debit_total r.credit_total) rows

abbrev balance_of : AccountType → ℕ → ℕ → ℤ
balance_of asset d c = sub_ℕ d c
balance_of expense d c = sub_ℕ d c
balance_of _ d c = sub_ℕ c d

net_balance-below :
    (k : AccountType) (d c : ℕ)
    → d < precision_limit
    → c < precision_limit
    → net_balance k d c ≡ ok (balance_of k d c)
unfolding net_balance
net_balance-below asset d c h g = difference-below d c h g
net_balance-below expense d c h g = difference-below d c h g
net_balance-below _ d c h g = difference-below c d g h

sub_ℕ_parts : (a b : ℕ) → pos_part (sub_ℕ a b) + b ≡ neg_part (sub_ℕ a b) + a
sub_ℕ_parts a b = ground arith

-- One row.
place_at-Moves :
    (k : AccountType) (a : Account) (d c : ℕ) (s : Sheet)
    → let s' = place_at k a (balance_of k d c) s in
      Moves s.total_assets s'.total_assets (asset_in k d c) (asset_out k d c)
      × Moves s.total_liabilities s'.total_liabilities (liability_in k d c) (liability_out k d c)
      × Moves s.total_equity s'.total_equity (equity_in k d c) (equity_out k d c)
place_at-Moves asset a d c s = omega (int_laws, sub_ℕ_parts d c)
place_at-Moves expense a d c s = omega (int_laws, sub_ℕ_parts d c)
place_at-Moves _ a d c s = omega (int_laws, sub_ℕ_parts c d)

Moves-trans : (x y z : ℤ) (p q m n : ℕ) → Moves x y p m → Moves y z q n → Moves x z (p + q) (m + n)
Moves-trans x y z p q m n h k =
    let a = ap pos_part h in
    let b = ap neg_part h in let c = ap pos_part k in let d = ap neg_part k in omega int_laws

pub sheet_rows-below :
    (rows : List Row) (s : Sheet)
    → sum_of (λ r. r.debit_total) rows < precision_limit
    → sum_of (λ r. r.credit_total) rows < precision_limit
    → (s' : Sheet) × (sheet_rows rows s ≡ ok s')
      × Moves s.total_assets s'.total_assets (over_rows asset_in rows) (over_rows asset_out rows)
      × Moves s.total_liabilities s'.total_liabilities
          (over_rows liability_in rows)
          (over_rows liability_out rows)
      × Moves s.total_equity s'.total_equity (over_rows equity_in rows) (over_rows equity_out rows)
unfolding sheet_rows
sheet_rows-below [] s h g = (s, refl, refl, refl, refl)
sheet_rows-below (r ∷ rows) s h g =
    let k = r.account.account_type in
    let d = r.debit_total in
    let c = r.credit_total in
    let (a₁, l₁, e₁) = place_at-Moves k r.account d c s in
    let s₁ = place r.account (balance_of k d c) s in
    let (s', run, a₂, l₂, e₂) = sheet_rows-below rows s₁ (omega arith) (omega arith) in
    (
      s',
      rw (quantize_cents-below d (omega arith)) (
          rw (quantize_cents-below c (omega arith))
            (rw (net_balance-below k d c (omega arith) (omega arith)) run)),
      Moves-trans _ _ _ _ _ _ _ a₁ a₂,
      Moves-trans _ _ _ _ _ _ _ l₁ l₂,
      Moves-trans _ _ _ _ _ _ _ e₁ e₂,
    )

profit_at-Moves :
    (k : AccountType) (d c : ℕ) (i x : ℤ)
    → d < precision_limit
    → c < precision_limit
    → (i' : ℤ) × (x' : ℤ) × (profit_at k d c i x ≡ ok (i', x'))
      × Moves i i' (income_in k d c) (income_out k d c)
      × Moves x x' (expense_in k d c) (expense_out k d c)
unfolding profit_at
profit_at-Moves income d c i x h g =
    (i +ℤ sub_ℕ c d, x, rw (difference-below c d g h), omega (int_laws, sub_ℕ_parts c d), refl)
profit_at-Moves expense d c i x h g =
    (i, x +ℤ sub_ℕ d c, rw (difference-below d c h g), refl, omega (int_laws, sub_ℕ_parts d c))
profit_at-Moves _ d c i x h g = (i, x, refl, refl, refl)

pub profit_totals-below :
    (rows : List Row) (i x : ℤ)
    → sum_of (λ r. r.debit_total) rows < precision_limit
    → sum_of (λ r. r.credit_total) rows < precision_limit
    → (i' : ℤ) × (x' : ℤ) × (profit_totals rows i x ≡ ok (i', x'))
      × Moves i i' (over_rows income_in rows) (over_rows income_out rows)
      × Moves x x' (over_rows expense_in rows) (over_rows expense_out rows)
unfolding profit_totals
profit_totals-below [] i x h g = (i, x, refl, refl, refl)
profit_totals-below (r ∷ rows) i x h g =
    let d = r.debit_total in
    let c = r.credit_total in
    let (i₁, x₁, step, a₁, b₁) =
      profit_at-Moves r.account.account_type d c i x (omega arith) (omega arith) in
    let (i₂, x₂, run, a₂, b₂) = profit_totals-below rows i₁ x₁ (omega arith) (omega arith) in
    (
      i₂,
      x₂,
      rw (quantize_cents-below d (omega arith))
          (rw (quantize_cents-below c (omega arith)) (rw step run)),
      Moves-trans _ _ _ _ _ _ _ a₁ a₂,
      Moves-trans _ _ _ _ _ _ _ b₁ b₂,
    )

-- A total that starts at zero and stays below the 28 digits is its own quantisation.
pub quantize_signed-below :
    (z : ℤ) (p m : ℕ)
    → Moves (pos 0) z p m
    → p < precision_limit
    → m < precision_limit
    → quantize_signed z ≡ ok z
unfolding quantize_signed
quantize_signed-below (pos n) p m h a b =
    let small : n < precision_limit = omega (int_laws, ap pos_part h, ap neg_part h) in ground arith
quantize_signed-below (negsuc n) p m h a b =
    let small : suc n < precision_limit = omega (int_laws, ap pos_part h, ap neg_part h) in
    ground arith

pub net_profit-below :
    (rows : List Row)
    → sum_of (λ r. r.debit_total) rows < precision_limit
    → sum_of (λ r. r.credit_total) rows < precision_limit
    → over_rows income_in rows + over_rows expense_out rows < precision_limit
    → over_rows income_out rows + over_rows expense_in rows < precision_limit
    → (z : ℤ) × (net_profit_from_rows rows ≡ ok z)
      × Moves
          (pos 0)
          z
          (over_rows income_in rows + over_rows expense_out rows)
          (over_rows income_out rows + over_rows expense_in rows)
unfolding net_profit_from_rows
net_profit-below rows h g a b =
    let (i, x, run, mi, mx) = profit_totals-below rows (pos 0) (pos 0) h g in
    let moved : Moves (pos 0) (i -ℤ x) (over_rows income_in rows + over_rows expense_out rows)
        (over_rows income_out rows + over_rows expense_in rows) =
      omega (int_laws, ap pos_part mi, ap neg_part mi, ap pos_part mx, ap neg_part mx) in
    (i -ℤ x, rw run (quantize_signed-below (i -ℤ x) _ _ moved a b), moved)

pub add_earnings-Moves :
    (z : ℤ) (s : Sheet)
    → ((add_earnings z s).total_equity ≡ s.total_equity +ℤ z)
      × ((add_earnings z s).total_assets ≡ s.total_assets)
      × ((add_earnings z s).total_liabilities ≡ s.total_liabilities)
add_earnings-Moves (pos zero) s = (omega int_laws, refl, refl)
add_earnings-Moves (pos (suc n)) s = ground arith
add_earnings-Moves (negsuc n) s = ground arith

-- The totals of a sheet whose sums are the two halves of balanced books.
pub close_sheet :
    (s : Sheet) (z : ℤ) (total ai ao li lo ei eo zi zo : ℕ)
    → Moves (pos 0) s.total_assets ai ao
    → Moves (pos 0) s.total_liabilities li lo
    → Moves (pos 0) s.total_equity ei eo
    → Moves (pos 0) z zi zo
    → ai + lo + eo + zo ≡ total
    → ao + li + ei + zi ≡ total
    → total < precision_limit
    → let s' = add_earnings z s in
      (quantize_totals s' ≡ ok s') × (s'.total_assets ≡ s'.total_liabilities +ℤ s'.total_equity)
unfolding quantize_totals
close_sheet s z total ai ao li lo ei eo zi zo a l e m dr cr h =
    let s' = add_earnings z s in
    let (te, ta, tl) = add_earnings-Moves z s in
    let a' : Moves (pos 0) s'.total_assets ai ao = rw ta a in
    let l' : Moves (pos 0) s'.total_liabilities li lo = rw tl l in
    let e' : Moves (pos 0) s'.total_equity (ei + zi) (eo + zo) =
      rw te (omega (int_laws, ap pos_part e, ap neg_part e, ap pos_part m, ap neg_part m)) in
    (
      rw (quantize_signed-below s'.total_assets ai ao a' (omega arith) (omega arith)) (
          rw (quantize_signed-below s'.total_liabilities li lo l' (omega arith) (omega arith))
            (rw (quantize_signed-below s'.total_equity _ _ e' (omega arith) (omega arith)))),
      omega (
        int_laws,
        ap pos_part a',
        ap neg_part a',
        ap pos_part l',
        ap neg_part l',
        ap pos_part e',
        ap neg_part e',
      ),
    )
