-- ===== src/Accounting/Entities.antt =====
-- The tables of app/accounting/models/entities.py. Timestamps that the database fills in
-- (created_at, updated_at) are left out: no query of the service reads them. A date is a day
-- number, and an amount a number of hundredths.
use sanmitra_backend.Base.{ℕ, String, ◌≡◌, ◌↔◌, Bool, true, ◌&&◌, Option, List, arith}
use sanmitra_backend.Base.Equality.{Eq, ◌==◌, string_eq}

-- The three columns that `_accounting_scope` compares.
pub record Scope : Type 0 where
  pub app_key : String
  pub tenant_id : String
  pub accounting_entity_id : String

unfoldable pub scope_beq : Scope → Scope → Bool
scope_beq s r =
    s.app_key == r.app_key
    && s.tenant_id == r.tenant_id
    && s.accounting_entity_id == r.accounting_entity_id

pub scope_beq_iff : (s r : Scope) → (scope_beq s r ≡ true) ↔ (s ≡ r)
unfolding scope_beq
scope_beq_iff s r = ground (
  arith,
  string_eq.equal_iff s.app_key r.app_key,
  string_eq.equal_iff s.tenant_id r.tenant_id,
  string_eq.equal_iff s.accounting_entity_id r.accounting_entity_id,
)

instance abbrev pub scope_eq : Eq Scope
scope_eq = record { equal = scope_beq; equal_iff = scope_beq_iff }

pub data AccountType : Type 0 where
  asset liability equity income expense : AccountType

pub data Classification : Type 0 where
  personal real nominal : Classification

pub data SourceSystem : Type 0 where
  ghar_mitra mandir_mitra mitra_books legal_mitra invest_mitra : SourceSystem

pub data MappingStatus : Type 0 where
  active draft inactive : MappingStatus

pub record Account : Type 0 where
  pub id : ℕ
  pub scope : Scope
  pub code : Option String
  pub name : String
  pub account_type : AccountType
  pub classification : Classification
  pub is_cash_bank : Bool
  pub is_receivable : Bool
  pub is_payable : Bool

pub record JournalEntry : Type 0 where
  pub id : ℕ
  pub scope : Scope
  pub entry_date : ℕ
  pub description : Option String
  pub reference : Option String
  pub idempotency_key : Option String
  pub total_debit : ℕ
  pub total_credit : ℕ
  pub created_by : String

pub record JournalLine : Type 0 where
  pub id : ℕ
  pub scope : Scope
  pub journal_id : ℕ
  pub account_id : ℕ
  pub debit : ℕ
  pub credit : ℕ

pub record CoaSourceAccount : Type 0 where
  pub id : ℕ
  pub scope : Scope
  pub source_system : SourceSystem
  pub source_account_code : String
  pub source_account_name : String
  pub source_account_type : Option AccountType
  pub is_active : Bool

pub record CoaMapping : Type 0 where
  pub id : ℕ
  pub scope : Scope
  pub source_account_id : ℕ
  pub canonical_account_id : ℕ
  pub status : MappingStatus
  pub notes : Option String
  pub mapped_by : String
  pub mapped_at : ℕ

pub record Tables : Type 0 where
  pub accounts : List Account
  pub entries : List JournalEntry
  pub lines : List JournalLine
  pub source_accounts : List CoaSourceAccount
  pub mappings : List CoaMapping
