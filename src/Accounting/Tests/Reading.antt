-- ===== src/Accounting/Tests/Reading.antt =====
-- Ledgers, open items, lists and the chart of accounts at concrete inputs, with their theorems
-- there.
use sanmitra_backend.Base.{
  ◌+◌, ◌≡◌, refl, true, false, none, some, List, [], ◌∷◌, map, ok, keep, length, All, arith,
}
use sanmitra_backend.Base.Text.{strip}
use sanmitra_backend.Base.Int.{sub_ℕ}
use sanmitra_backend.Base.Sums.{sum_of}
use sanmitra_backend.Base.Equality.{◌==◌}
use sanmitra_backend.Accounting.Entities.{
  scope_eq, scope_beq, Account, JournalEntry, JournalLine, Tables, liability, personal,
}
use sanmitra_backend.Accounting.Store.{account_check, scalar_one_or_none}
use sanmitra_backend.Accounting.Journal.{entries_with_key}
use sanmitra_backend.Accounting.Journal.Invariant.{IsConsistent}
use sanmitra_backend.Accounting.Journal.Preserves.{post_journal_entry-IsConsistent}
use sanmitra_backend.Accounting.Tests.{
  gift_entry, db, temple, book, cash, donations, gift_book, gift_request, posted, book-IsConsistent,
}
use sanmitra_backend.Accounting.Table.{update_row}
use sanmitra_backend.Accounting.Accounts.{update_account_name}
use sanmitra_backend.Accounting.Accounts.Rename.{Renamed, update_account_name_sound}
use sanmitra_backend.Accounting.Accounts.Defaults.{
  Initialized, default_housing_chart_of_accounts, existing_codes,
  initialize_default_chart_of_accounts,
}
use sanmitra_backend.Accounting.Accounts.Defaults.Complete.{
  taken, with_accounts, initialize_default_chart_of_accounts_completes,
}
use sanmitra_backend.Accounting.Listing.{list_journal_entries, get_journal_entry_detail}
use mathlib.Core.List.{Perm}
use sanmitra_backend.Base.{keep, All, nat_beq}
use sanmitra_backend.Accounting.Listing.Pages.{asked, pages, list_journal_entries_pages}
use sanmitra_backend.Accounting.Listing.Pages.Order.{Falls}
use sanmitra_backend.Accounting.Listing.Detail.{get_journal_entry_detail_balanced}
use sanmitra_backend.Accounting.Reports.{column, gl_sums_by_account}
use sanmitra_backend.Accounting.Reports.Ledger.{LedgerLine, get_ledger_lines}
use sanmitra_backend.Accounting.Reports.Ledger.Running.{IsRunning, get_ledger_lines-IsRunning}
use sanmitra_backend.Accounting.Reports.OpenItems.{
  get_accounts_receivable, get_accounts_payable, receivable_filter, payable_filter,
}
use sanmitra_backend.Accounting.Reports.OpenItems.Totals.{
  side_line, open_total, get_accounts_receivable_total, get_accounts_payable_total,
}

gift_book-IsConsistent : IsConsistent (gift_book (some "k1"))
gift_book-IsConsistent =
    post_journal_entry-IsConsistent db temple "u1" gift_request (some "k1") book book-IsConsistent
      posted

get_ledger_lines-IsRunning_example :
    (a : Account) × (lines : List LedgerLine) × (get_ledger_lines db temple 1 (gift_book none)
      ≡ ok (a, lines))
    × (a.id ≡ 1)
    × (a.scope ≡ temple)
    × IsRunning 0 0 lines
    × (sum_of (λ l. l.debit) lines ≡ column (λ l. l.debit) temple (λ date. true) (gift_book none) a)
    × (sum_of (λ l. l.credit) lines
        ≡ column (λ l. l.credit) temple (λ date. true) (gift_book none) a)
unfolding scope_beq
get_ledger_lines-IsRunning_example =
    get_ledger_lines-IsRunning db temple 1 (gift_book none) (refl, (refl, tt)) refl

get_journal_entry_detail_balanced_example :
    (e : JournalEntry) × (ls : List JournalLine) × (get_journal_entry_detail temple 1
        (gift_book (some "k1"))
      ≡ ok (e, ls))
    × (e.id ≡ 1)
    × (e.scope ≡ temple)
    × (sum_of (λ l. l.debit) ls ≡ e.total_debit)
    × (sum_of (λ l. l.credit) ls ≡ e.total_credit)
    × (e.total_debit ≡ e.total_credit)
unfolding scope_beq
get_journal_entry_detail_balanced_example =
    get_journal_entry_detail_balanced temple 1 (gift_book (some "k1")) gift_book-IsConsistent refl

-- Three entries on two days, and one of another society's scope.
abbrev three_entries : Tables
three_entries = record (gift_book none) {
  entries =
      gift_entry none
      ∷ record (gift_entry none) { id = 2 }
      ∷ record (gift_entry none) { id = 3; entry_date = (gift_entry none).entry_date + 1 }
      ∷ record (gift_entry none) { id = 4; scope = record temple { tenant_id = "t2" } }
      ∷ [];
}

recent_first :
    map (λ r. r.0.id) (list_journal_entries temple none none 9 0 three_entries) ≡ 3 ∷ 2 ∷ 1 ∷ []
unfolding list_journal_entries scope_beq
recent_first = refl

list_journal_entries_pages_example :
    Falls (map (λ r. r.0) (pages temple none none three_entries (2 ∷ 2 ∷ []) 0))
    × Perm
        (map (λ r. r.0) (pages temple none none three_entries (2 ∷ 2 ∷ []) 0))
        (keep (asked temple none none) three_entries.entries)
    × All
        (λ (e, ls). ls ≡ keep (λ l. nat_beq l.journal_id e.id) three_entries.lines)
        (pages temple none none three_entries (2 ∷ 2 ∷ []) 0)
list_journal_entries_pages_example =
    list_journal_entries_pages temple none none three_entries (2 ∷ 2 ∷ [])
      (refl, (refl, (refl, (refl, tt)))) (omega arith)

-- The same entry, on a receivable and a payable account.
abbrev dues : Account
dues = record cash {
  name = "Member Dues Receivable";
  classification = personal;
  is_cash_bank = false;
  is_receivable = true;
}

abbrev bills : Account
bills = record donations {
  name = "Accounts Payable";
  account_type = liability;
  classification = personal;
  is_payable = true;
}

abbrev dues_book : Tables
dues_book = record (gift_book (some "k1")) { accounts = dues ∷ bills ∷ [] }

dues_book-IsConsistent : IsConsistent dues_book
unfolding scope_beq entries_with_key
dues_book-IsConsistent =
    let v = gift_book-IsConsistent in
    record {
      account_ids = v.account_ids;
      entry_ids = v.entry_ids;
      keys = v.keys;
      booked = v.booked;
      placed =
          (record { entry = refl; account = refl }, (record { entry = refl; account = refl }, tt));
    }

get_accounts_receivable_total_example :
    get_accounts_receivable db temple 30 dues_book
    ≡ ok (
      map (side_line true) (gl_sums_by_account db temple (receivable_filter 30) dues_book),
      sub_ℕ
          (open_total (λ a. a.is_receivable) (λ l. l.debit) temple 30 dues_book)
          (open_total (λ a. a.is_receivable) (λ l. l.credit) temple 30 dues_book),
    )
unfolding scope_beq account_check
get_accounts_receivable_total_example =
    get_accounts_receivable_total db temple 30 dues_book dues_book-IsConsistent (refl, (refl, tt))
      (omega arith)

get_accounts_payable_total_example :
    get_accounts_payable db temple 30 dues_book
    ≡ ok (
      map (side_line false) (gl_sums_by_account db temple (payable_filter 30) dues_book),
      sub_ℕ
          (open_total (λ a. a.is_payable) (λ l. l.credit) temple 30 dues_book)
          (open_total (λ a. a.is_payable) (λ l. l.debit) temple 30 dues_book),
    )
unfolding scope_beq account_check
get_accounts_payable_total_example =
    get_accounts_payable_total db temple 30 dues_book dues_book-IsConsistent (refl, (refl, tt))
      (omega arith)

abbrev hundi : Account
hundi = record donations { name = "Hundi" }

abbrev renamed_book : Tables
renamed_book = record book { accounts = cash ∷ hundi ∷ [] }

hundi_renamed : update_account_name temple "4000" " Hundi " book ≡ ok (hundi, renamed_book)
unfolding update_account_name scalar_one_or_none scope_beq update_row strip
hundi_renamed = refl

update_account_name_sound_example : Renamed temple "4000" " Hundi " book hundi renamed_book
update_account_name_sound_example =
    update_account_name_sound temple "4000" " Hundi " book hundi renamed_book book-IsConsistent
      hundi_renamed

initialize_default_chart_of_accounts_completes_example :
    (r : Initialized) × (t' : Tables) × (initialize_default_chart_of_accounts db temple book
      ≡ ok (r, t'))
    × All (λ i. taken temple i.code t'.accounts ≡ true) default_housing_chart_of_accounts
    × (r.total_accounts ≡ r.accounts_created + length (keep (λ a. a.scope == temple) book.accounts))
    × (t' ≡ with_accounts book t'.accounts)
    × IsConsistent t'
    × (initialize_default_chart_of_accounts db temple t'
        ≡ ok (
          record {
            accounts_created = 0;
            accounts_existing = length (existing_codes temple t'.accounts);
            total_accounts = r.total_accounts;
          },
          t',
        ))
initialize_default_chart_of_accounts_completes_example =
    initialize_default_chart_of_accounts_completes db temple book refl book-IsConsistent
