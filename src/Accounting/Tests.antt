-- ===== src/Accounting/Tests.antt =====
-- The accounting engine at concrete inputs, and its theorems there.
mod Reading
use mathlib.Core.List.Perm
use sanmitra_backend.Base.{
  ℕ, suc, ◌<◌, ◌≡◌, ◌↔◌, ◌⊎◌, refl, ap, String, true, false, not, Option, none, some, List, [], ◌∷◌,
  map, ok, err, arith,
}
use sanmitra_backend.Base.Int.{ℤ, ◌+ℤ◌, ◌-ℤ◌, sub_ℕ}
use sanmitra_backend.Base.Text.{is_empty, strip}
use sanmitra_backend.Base.Sums.{sum_of}
use sanmitra_backend.Base.Equality.{contains, nat_eq, string_eq}
use sanmitra_backend.Accounting.Errors.{integrity}
use sanmitra_backend.Accounting.Decimal.{Amount, quantize, quantize_cents}
use sanmitra_backend.Accounting.Lines.{
  LineIn, Line, validate_journal_lines, validate_source_journal_lines, strip_key,
}
use sanmitra_backend.Accounting.Lines.Spec.{IsPosting}
use sanmitra_backend.Accounting.Lines.Laws.{
  validate_journal_lines_iff, validate_source_journal_lines_iff,
}
use sanmitra_backend.Accounting.Entities.{
  Scope, scope_beq, scope_eq, Account, Tables, JournalEntry, asset, income, real, nominal,
}
use sanmitra_backend.Accounting.Store.{
  Database, entry_fits, insert_account, insert_entry, insert_line, scalar_one_or_none,
}
use sanmitra_backend.Accounting.Journal.{
  JournalPostRequest, post_journal_entry, available_account_ids, has_missing, entries_with_key,
}
use sanmitra_backend.Accounting.Journal.Invariant.{IsConsistent}
use sanmitra_backend.Accounting.Journal.Posting.{Replays, Posts, post_journal_entry_sound}
use sanmitra_backend.Accounting.Journal.Preserves.{post_journal_entry-IsConsistent}
use sanmitra_backend.Accounting.Journal.Idempotency.{post_journal_entry_replay, empty_key_conflict}
use sanmitra_backend.Accounting.Journal.Total.{post_journal_entry_accepts}
use sanmitra_backend.Accounting.Journal.Isolation.{
  entries_of, lines_of, post_journal_entry-isolated,
}
use sanmitra_backend.Accounting.Reports.{gl_sums_by_account, as_of_filter}
use sanmitra_backend.Accounting.Reports.TrialBalance.{get_trial_balance}
use sanmitra_backend.Accounting.Reports.TrialBalance.Balanced.{
  trial_line, booked_total, get_trial_balance_balanced,
}
use sanmitra_backend.Accounting.Reports.Receipts.{cash_filter, get_receipts_payments}
use sanmitra_backend.Accounting.Reports.Receipts.Totals.{
  receipt_line, cash_total, get_receipts_payments_totals,
}
use sanmitra_backend.Accounting.Accounts.{AccountCreateRequest, account_row, create_account}
use sanmitra_backend.Accounting.Accounts.Creation.{Created, with_account, create_account_sound}
use sanmitra_backend.Accounting.Reports.ProfitLoss.{ProfitLine, profit_filter, get_profit_loss}
use sanmitra_backend.Accounting.Reports.ProfitLoss.Agreement.{get_profit_loss_agrees}
use sanmitra_backend.Accounting.Reports.BalanceSheet.{
  Sheet, get_balance_sheet, net_profit_from_rows,
}
use sanmitra_backend.Accounting.Reports.BalanceSheet.Equation.{get_balance_sheet_balances}

-- A database that numbers rows above all that it holds, and lists accounts as they stand.
abbrev pub fresh_id : List ℕ → ℕ
fresh_id ids = suc (sum_of (λ n. n) ids)

contains-above : (ids : List ℕ) (n : ℕ) → sum_of (λ m. m) ids < n → contains ids n ≡ false
contains-above [] n h = refl
contains-above (m ∷ ids) n h = ground (arith, contains-above ids n (omega arith))

pub fresh_id_lem : (ids : List ℕ) → contains ids (fresh_id ids) ≡ false
fresh_id_lem ids = contains-above ids (fresh_id ids) (omega arith)

abbrev pub db : Database
db = record {
  next_id = fresh_id;
  next_id_fresh = fresh_id_lem;
  order_by_name = λ rows. rows;
  order_by_name-perm = λ rows. Perm.refl rows;
  order_by_code = λ rows. rows;
  order_joined = λ rows. rows;
  order_joined-perm = λ rows. Perm.refl rows;
  order_ledger = λ rows. rows;
  order_ledger-perm = λ rows. Perm.refl rows;
  order_by_code-perm = λ rows. Perm.refl rows;
}

abbrev pub temple : Scope
temple = record { app_key = "mandirmitra"; tenant_id = "t1"; accounting_entity_id = "primary" }

abbrev society : Scope
society = record { app_key = "gruhamitra"; tenant_id = "t1"; accounting_entity_id = "primary" }

abbrev pub cash : Account
cash = record {
  id = 1;
  scope = temple;
  code = some "1000";
  name = "Cash in Hand";
  account_type = asset;
  classification = real;
  is_cash_bank = true;
  is_receivable = false;
  is_payable = false;
}

abbrev pub donations : Account
donations = record {
  id = 2;
  scope = temple;
  code = some "4000";
  name = "Donations";
  account_type = income;
  classification = nominal;
  is_cash_bank = false;
  is_receivable = false;
  is_payable = false;
}

abbrev pub book : Tables
book = record {
  accounts = cash ∷ donations ∷ [];
  entries = [];
  lines = [];
  source_accounts = [];
  mappings = [];
}

-- 250.005 and 0, three places and none.
abbrev pub gift : Amount
gift = record { units = 250005; places = 3 }

abbrev pub nil : Amount
nil = record { units = 0; places = 0 }

abbrev gift_lines : List (LineIn ℕ)
gift_lines =
    record { key = 1; debit = gift; credit = nil }
    ∷ record { key = 2; debit = nil; credit = gift }
    ∷ []

abbrev gift_rows : List (Line ℕ)
gift_rows =
    record { key = 1; debit = 25001; credit = 0 }
    ∷ record { key = 2; debit = 0; credit = 25001 }
    ∷ []

gift_rounds_up : validate_journal_lines gift_lines ≡ ok (25001, 25001, gift_rows)
unfolding validate_journal_lines quantize quantize_cents
gift_rounds_up = refl

validate_journal_lines_iff_example :
    (validate_journal_lines gift_lines ≡ ok (25001, 25001, gift_rows))
    ↔ IsPosting (λ _. true) gift_lines 25001 25001 gift_rows
validate_journal_lines_iff_example = validate_journal_lines_iff gift_lines 25001 25001 gift_rows

gift_lines-IsPosting : IsPosting (λ _. true) gift_lines 25001 25001 gift_rows
unfolding validate_journal_lines quantize quantize_cents
gift_lines-IsPosting = (validate_journal_lines_iff gift_lines 25001 25001 gift_rows).0 refl

abbrev coded_lines : List (LineIn String)
coded_lines =
    record { key = " C1 "; debit = gift; credit = nil }
    ∷ record { key = "D1"; debit = nil; credit = gift }
    ∷ []

abbrev coded_rows : List (Line String)
coded_rows =
    record { key = "C1"; debit = 25001; credit = 0 }
    ∷ record { key = "D1"; debit = 0; credit = 25001 }
    ∷ []

codes_are_stripped : validate_source_journal_lines coded_lines ≡ ok (25001, 25001, coded_rows)
unfolding validate_source_journal_lines quantize quantize_cents strip
codes_are_stripped = refl

validate_source_journal_lines_iff_example :
    (validate_source_journal_lines coded_lines ≡ ok (25001, 25001, coded_rows))
    ↔ IsPosting (λ code. not (is_empty code)) (map strip_key coded_lines) 25001 25001 coded_rows
validate_source_journal_lines_iff_example =
    validate_source_journal_lines_iff coded_lines 25001 25001 coded_rows

abbrev pub gift_request : JournalPostRequest
gift_request = record {
  entry_date = 20;
  description = some "gift";
  reference = none;
  lines = gift_lines;
}

abbrev pub gift_entry : Option String → JournalEntry
gift_entry key = record {
  id = 1;
  scope = temple;
  entry_date = 20;
  description = some "gift";
  reference = none;
  idempotency_key = key;
  total_debit = 25001;
  total_credit = 25001;
  created_by = "u1";
}

abbrev pub gift_book : Option String → Tables
gift_book key = record book {
  entries = gift_entry key ∷ [];
  lines =
      record { id = 1; scope = temple; journal_id = 1; account_id = 1; debit = 25001; credit = 0 }
      ∷ record { id = 2; scope = temple; journal_id = 1; account_id = 2; debit = 0; credit = 25001 }
      ∷ [];
}

pub posted :
    post_journal_entry db temple "u1" gift_request (some "k1") book
    ≡ ok (gift_entry (some "k1"), true, gift_book (some "k1"))
unfolding post_journal_entry validate_journal_lines quantize quantize_cents scalar_one_or_none
    insert_entry insert_line scope_beq
posted = refl

pub book-IsConsistent : IsConsistent book
unfolding entries_with_key
book-IsConsistent = record {
  account_ids = (refl, (refl, tt));
  entry_ids = tt;
  keys = λ s k. omega arith;
  booked = tt;
  placed = tt;
}

post_journal_entry-IsConsistent_example : IsConsistent (gift_book (some "k1"))
post_journal_entry-IsConsistent_example =
    post_journal_entry-IsConsistent db temple "u1" gift_request (some "k1") book book-IsConsistent
      posted

post_journal_entry_sound_example :
    Replays db temple "u1" gift_request
      (some "k1")
      book
      (gift_entry (some "k1"))
      true
      (gift_book (some "k1"))
    ⊎ Posts db temple "u1" gift_request
        (some "k1")
        book
        (gift_entry (some "k1"))
        true
        (gift_book (some "k1"))
post_journal_entry_sound_example =
    post_journal_entry_sound db temple "u1" gift_request (some "k1") book posted

post_journal_entry_replay_example :
    post_journal_entry db temple "u2" gift_request (some "k1") (gift_book (some "k1"))
    ≡ ok (gift_entry (some "k1"), false, gift_book (some "k1"))
post_journal_entry_replay_example =
    post_journal_entry_replay db temple "u1" gift_request "k1" refl book "u2" gift_request posted
      gift_lines-IsPosting

empty_key_conflict_example :
    post_journal_entry db temple "u1" gift_request (some "") (gift_book (some "")) ≡ err integrity
unfolding available_account_ids has_missing entry_fits scope_beq
empty_key_conflict_example =
    empty_key_conflict db temple "u1" gift_request (gift_book (some "")) refl gift_lines-IsPosting
      refl refl

post_journal_entry_accepts_example :
    (e : JournalEntry) × (t' : Tables) × (post_journal_entry db temple "u1" gift_request none book
      ≡ ok (e, true, t'))
unfolding available_account_ids has_missing entry_fits scope_beq
post_journal_entry_accepts_example =
    post_journal_entry_accepts db temple "u1" gift_request none book gift_lines-IsPosting refl refl
      refl

post_journal_entry-isolated_example :
    (entries_of society (gift_book (some "k1")) ≡ entries_of society book)
    × (lines_of society (gift_book (some "k1")) ≡ lines_of society book)
    × (cash ∷ donations ∷ [] ≡ cash ∷ donations ∷ [])
    × (book.source_accounts ≡ book.source_accounts)
    × (book.mappings ≡ book.mappings)
post_journal_entry-isolated_example =
    post_journal_entry-isolated db temple "u1" gift_request (some "k1") book posted society (λ same.
      ground (arith, ap (λ s. s.app_key) same, string_eq.equal_iff "gruhamitra" "mandirmitra"))

get_trial_balance_balanced_example :
    get_trial_balance db temple 30 (gift_book (some "k1"))
    ≡ ok (
      map trial_line (gl_sums_by_account db temple (as_of_filter 30 none) (gift_book (some "k1"))),
      booked_total temple 30 (gift_book (some "k1")),
      booked_total temple 30 (gift_book (some "k1")),
    )
unfolding scope_beq
get_trial_balance_balanced_example =
    get_trial_balance_balanced db temple 30 (gift_book (some "k1"))
      post_journal_entry-IsConsistent_example (omega arith)

get_balance_sheet_balances_example :
    (s : Sheet) × (get_balance_sheet db temple 30 (gift_book (some "k1")) ≡ ok s)
    × (s.total_assets ≡ s.total_liabilities +ℤ s.total_equity)
unfolding scope_beq
get_balance_sheet_balances_example =
    get_balance_sheet_balances db temple 30 (gift_book (some "k1"))
      post_journal_entry-IsConsistent_example (omega arith)

get_receipts_payments_totals_example :
    get_receipts_payments db temple 0 30 (gift_book (some "k1"))
    ≡ ok (
      map receipt_line (gl_sums_by_account db temple (cash_filter 0 30) (gift_book (some "k1"))),
      cash_total (λ l. l.debit) temple 0 30 (gift_book (some "k1")),
      cash_total (λ l. l.credit) temple 0 30 (gift_book (some "k1")),
      sub_ℕ
          (cash_total (λ l. l.debit) temple 0 30 (gift_book (some "k1")))
          (cash_total (λ l. l.credit) temple 0 30 (gift_book (some "k1"))),
    )
unfolding scope_beq
get_receipts_payments_totals_example =
    get_receipts_payments_totals db temple 0 30 (gift_book (some "k1"))
      post_journal_entry-IsConsistent_example (omega arith)

get_profit_loss_agrees_example :
    (lines : List ProfitLine) × (i : ℤ) × (x : ℤ) × (get_profit_loss db temple 0 30
        (gift_book (some "k1"))
      ≡ ok (lines, i, x, i -ℤ x))
    × (net_profit_from_rows
          (gl_sums_by_account db temple (profit_filter 0 30) (gift_book (some "k1")))
        ≡ ok (i -ℤ x))
unfolding scope_beq
get_profit_loss_agrees_example =
    get_profit_loss_agrees db temple 0 30 (gift_book (some "k1"))
      post_journal_entry-IsConsistent_example (omega arith)

abbrev bank_request : AccountCreateRequest
bank_request = record {
  code = some "1010";
  name = "Bank";
  account_type = asset;
  classification = real;
  is_cash_bank = true;
  is_receivable = false;
  is_payable = false;
}

abbrev bank : Account
bank = record (account_row temple bank_request) { id = fresh_id (1 ∷ 2 ∷ []) }

bank_created : create_account db temple bank_request book ≡ ok (bank, with_account book bank)
unfolding create_account insert_account scope_beq
bank_created = refl

create_account_sound_example : Created temple bank_request book bank (with_account book bank)
create_account_sound_example =
    create_account_sound db temple bank_request book bank (with_account book bank) book-IsConsistent
      bank_created
