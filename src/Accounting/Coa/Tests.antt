-- ===== src/Accounting/Coa/Tests.antt =====
-- The mapping of the charts of accounts at concrete inputs, and its theorems there.
use sanmitra_backend.Base.{
  Bool, ◌&&◌, ◌||◌, leb, ◌+◌, ◌≤◌, keep, length, ℕ, ◌≡◌, refl, arith, String, true, none, some,
  List, [], ◌∷◌, map, ok,
}
use sanmitra_backend.Base.{All}
use sanmitra_backend.Base.Equality.{◌==◌}
use sanmitra_backend.Base.Text.{strip}
use sanmitra_backend.Base.Text.Ascii.{ascii}
use sanmitra_backend.Accounting.Lines.{Line, validate_journal_lines, validate_source_journal_lines}
use sanmitra_backend.Accounting.Decimal.{quantize, quantize_cents}
use sanmitra_backend.Accounting.Entities.{
  scope_beq, scope_eq, CoaSourceAccount, CoaMapping, Tables, JournalEntry, mandir_mitra, active,
  draft,
}
use sanmitra_backend.Accounting.Store.{insert_entry, insert_line, scalar_one_or_none}
use sanmitra_backend.Accounting.Journal.{
  JournalPostRequest, post_journal_entry, entries_with_key, available_account_ids,
}
use sanmitra_backend.Accounting.Journal.Invariant.{IsConsistent}
use sanmitra_backend.Accounting.Tests.{db, temple, book, donations, gift, nil}
use sanmitra_backend.Accounting.Table.{find_last, update_row}
use sanmitra_backend.Accounting.Coa.Rows.{save_mapping}
use sanmitra_backend.Accounting.Coa.Sources.{
  CoaSourceAccountIn, SourceView, find_source, upsert_source_accounts,
}
use sanmitra_backend.Accounting.Coa.Sources.Refinement.{
  Holds, assign_all, stripped, listing, upsert_source_accounts-refines,
}
use sanmitra_backend.Accounting.Coa.Mappings.{
  in_use, get_coa_onboarding_status, CoaMappingIn, upsert_coa_mappings,
}
use sanmitra_backend.Accounting.Coa.Mappings.Invariant.{
  IsMapped, with_mappings, upsert_coa_mappings-IsMapped,
}
use sanmitra_backend.Accounting.Coa.Mappings.Counts.{get_coa_onboarding_status_total}
use sanmitra_backend.Accounting.Coa.Gaps.{
  suggestion_of, suggest_canonical_account, token_similarity, get_coa_mapping_gaps,
}
use sanmitra_backend.Accounting.Coa.Gaps.Suggestions.{names_one, get_coa_mapping_gaps_local}
use sanmitra_backend.Accounting.Coa.Gaps.Counts.{
  gap_heading, source_heading, uncovered, get_coa_mapping_gaps_complete,
}
use sanmitra_backend.Accounting.Coa.Posting.{
  source_idempotency_key, line_source, line_mapping, SourceJournalPostRequest, Resolved,
  post_source_journal_entry,
}
use sanmitra_backend.Accounting.Coa.Posting.Sound.{StandsFor, post_source_journal_entry-refines}

-- Two source accounts, mapped to the canonical accounts; the second waits for approval.
abbrev till : CoaSourceAccount
till = record {
  id = 1;
  scope = temple;
  source_system = mandir_mitra;
  source_account_code = "C1";
  source_account_name = "Till";
  source_account_type = none;
  is_active = true;
}

abbrev offerings : CoaSourceAccount
offerings = record till { id = 2; source_account_code = "D1"; source_account_name = "Offerings" }

abbrev mapping : ℕ → ℕ → CoaMapping
mapping source canonical = record {
  id = source;
  scope = temple;
  source_account_id = source;
  canonical_account_id = canonical;
  status = active;
  notes = none;
  mapped_by = "u1";
  mapped_at = 7;
}

abbrev coa_book : Tables
coa_book = record book {
  source_accounts = till ∷ offerings ∷ [];
  mappings = mapping 1 1 ∷ mapping 2 2 ∷ [];
}

abbrev hundi : CoaSourceAccountIn
hundi = record {
  source_system = mandir_mitra;
  source_account_code = " C1 ";
  source_account_name = "Hundi";
  source_account_type = none;
}

upsert_source_accounts-refines_example :
    (views : List SourceView) × (t' : Tables) × (upsert_source_accounts db temple
        (hundi ∷ [])
        coa_book
      ≡ ok (views, t'))
    × Holds coa_book t' (assign_all temple (map stripped (hundi ∷ [])) (listing coa_book))
unfolding strip
upsert_source_accounts-refines_example =
    upsert_source_accounts-refines db temple (hundi ∷ []) coa_book (refl, (refl, tt))
      ((refl, refl, refl, refl, refl), tt)

-- The offerings' mapping is set back to a draft.
abbrev redraft : CoaMappingIn
redraft = record {
  source_system = mandir_mitra;
  source_account_code = "D1";
  canonical_account_id = 2;
  status = draft;
  notes = none;
}

abbrev redrafted : CoaMapping
redrafted = record (mapping 2 2) { status = draft; mapped_by = "u2"; mapped_at = 9 }

abbrev redrafted_book : Tables
redrafted_book = record coa_book { mappings = mapping 1 1 ∷ redrafted ∷ [] }

redraft_result :
    upsert_coa_mappings db temple "u2" 9 (redraft ∷ []) coa_book
    ≡ ok ((redrafted, offerings, donations) ∷ [], redrafted_book)
unfolding upsert_coa_mappings strip scope_beq find_source find_last update_row save_mapping
    available_account_ids
redraft_result = refl

coa_book-IsMapped : IsMapped coa_book
unfolding scope_beq
coa_book-IsMapped = record {
  ids = (refl, (refl, tt));
  linked = (
    record { source = refl; canonical = refl },
    (record { source = refl; canonical = refl }, tt),
  );
}

upsert_coa_mappings-IsMapped_example :
    IsMapped redrafted_book × (redrafted_book ≡ with_mappings coa_book redrafted_book.mappings)
upsert_coa_mappings-IsMapped_example =
    upsert_coa_mappings-IsMapped db temple "u2" 9 (redraft ∷ []) coa_book redrafted_book
      ((redrafted, offerings, donations) ∷ []) coa_book-IsMapped redraft_result

-- Two keys that differ in their last character only.
abbrev first_key : String
first_key =
    "0123456789012345678901234567890123456789012345678901234567890123456789012345678901234567890123456789receipt-000000001"

abbrev second_key : String
second_key =
    "0123456789012345678901234567890123456789012345678901234567890123456789012345678901234567890123456789receipt-000000002"

abbrev coded_gift : SourceJournalPostRequest
coded_gift = record {
  source_system = mandir_mitra;
  entry_date = 20;
  description = some "gift";
  reference = none;
  lines =
      record { key = " C1 "; debit = gift; credit = nil }
      ∷ record { key = "D1"; debit = nil; credit = gift }
      ∷ [];
}

abbrev coded_entry : JournalEntry
coded_entry = record {
  id = 1;
  scope = temple;
  entry_date = 20;
  description = some "gift";
  reference = none;
  idempotency_key = some "mandir_mitra:k1";
  total_debit = 25001;
  total_credit = 25001;
  created_by = "u1";
}

abbrev coded_book : Tables
coded_book = record coa_book {
  entries = coded_entry ∷ [];
  lines =
      record { id = 1; scope = temple; journal_id = 1; account_id = 1; debit = 25001; credit = 0 }
      ∷ record { id = 2; scope = temple; journal_id = 1; account_id = 2; debit = 0; credit = 25001 }
      ∷ [];
}

abbrev resolved_gift : List Resolved
resolved_gift =
    record { source_account_code = "C1"; canonical_account_id = 1; debit = 25001; credit = 0 }
    ∷ record { source_account_code = "D1"; canonical_account_id = 2; debit = 0; credit = 25001 }
    ∷ []

coded_gift_posted :
    post_source_journal_entry db temple "u1" coded_gift (some "k1") coa_book
    ≡ ok (coded_entry, true, resolved_gift, coded_book)
unfolding post_source_journal_entry post_journal_entry line_source line_mapping find_last quantize
    quantize_cents strip scalar_one_or_none insert_entry insert_line scope_beq
    validate_source_journal_lines validate_journal_lines
coded_gift_posted = refl

coa_book-IsConsistent : IsConsistent coa_book
unfolding entries_with_key
coa_book-IsConsistent = record {
  account_ids = (refl, (refl, tt));
  entry_ids = tt;
  keys = λ s k. omega arith;
  booked = tt;
  placed = tt;
}

post_source_journal_entry-refines_example :
    (td : ℕ) × (tc : ℕ) × (ls : List (Line String)) × (validate_source_journal_lines
        coded_gift.lines
      ≡ ok (td, tc, ls))
    × (request : JournalPostRequest) × StandsFor temple coa_book coded_gift ls resolved_gift request
    × (post_journal_entry db temple "u1" request
          (source_idempotency_key mandir_mitra (some "k1"))
          coa_book
        ≡ ok (coded_entry, true, coded_book))
    × IsConsistent coded_book
post_source_journal_entry-refines_example =
    post_source_journal_entry-refines db temple "u1" coded_gift (some "k1") coa_book
      coa_book-IsConsistent coded_gift_posted

abbrev approved_book : Tables
approved_book = record coa_book {
  mappings =
      mapping 1 1 ∷ record redrafted { status = active; mapped_by = "u3"; mapped_at = 11 } ∷ [];
}

get_coa_onboarding_status_total_example :
    let s = get_coa_onboarding_status temple mandir_mitra redrafted_book in
    (s.mapped_active + s.mapped_draft ≤ s.total_source_accounts)
    × (s.mapped_active + s.mapped_draft + s.unmapped ≡ s.total_source_accounts)
    × (s.total_source_accounts
        ≡ length (keep (in_use temple mandir_mitra) redrafted_book.source_accounts))
get_coa_onboarding_status_total_example =
    get_coa_onboarding_status_total temple mandir_mitra redrafted_book

-- Letters and digits of ASCII only, and one confidence for all.
abbrev is_alnum : ℕ → Bool
is_alnum c = leb 97 c && leb c 122 || leb 48 c && leb c 57

abbrev half : ℕ → ℕ → ℕ
half overlap union = 50

-- The offerings are the gap.
gaps_of_draft :
    map
      (λ g. g.source_account_code)
      (get_coa_mapping_gaps ascii is_alnum half temple mandir_mitra redrafted_book)
    ≡ "D1" ∷ []
unfolding get_coa_mapping_gaps suggest_canonical_account scope_beq strip ascii
gaps_of_draft = refl

-- The article does not count, so the one word of each name is the same.
donations_found :
    suggest_canonical_account ascii is_alnum half "D1" " the-Donations" (donations ∷ [])
    ≡ some (suggestion_of 50 token_similarity donations)
unfolding suggest_canonical_account strip ascii
donations_found = refl

get_coa_mapping_gaps_complete_example :
    (map gap_heading (get_coa_mapping_gaps ascii is_alnum half temple mandir_mitra redrafted_book)
      ≡ map source_heading
          (keep (uncovered temple mandir_mitra redrafted_book) redrafted_book.source_accounts))
    × (length (get_coa_mapping_gaps ascii is_alnum half temple mandir_mitra redrafted_book)
          + (get_coa_onboarding_status temple mandir_mitra redrafted_book).mapped_active
        ≡ (get_coa_onboarding_status temple mandir_mitra redrafted_book).total_source_accounts)
get_coa_mapping_gaps_complete_example =
    get_coa_mapping_gaps_complete ascii is_alnum half temple mandir_mitra redrafted_book
      (refl, (refl, tt))

get_coa_mapping_gaps_local_example :
    All
      (λ g. names_one (keep (λ a. a.scope == temple) redrafted_book.accounts) g.suggestion ≡ true)
      (get_coa_mapping_gaps ascii is_alnum half temple mandir_mitra redrafted_book)
get_coa_mapping_gaps_local_example =
    get_coa_mapping_gaps_local ascii is_alnum half temple mandir_mitra redrafted_book
