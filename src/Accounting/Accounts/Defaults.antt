-- ===== src/Accounting/Accounts/Defaults.antt =====
-- `initialize_default_chart_of_accounts` of app/accounting/service.py.
pub mod Complete
use sanmitra_backend.Base.{
  ℕ, suc, ◌≡◌, String, Bool, true, false, Option, none, some, List, [], ◌∷◌, map, ok, ◌>>=◌, keep,
  length, if◌then◌else◌,
}
use sanmitra_backend.Base.Equality.{◌==◌, contains, add, string_eq}
use sanmitra_backend.Accounting.Errors.{Outcome}
use sanmitra_backend.Accounting.Entities.{
  Scope, scope_eq, Account, AccountType, asset, liability, equity, income, expense, Classification,
  personal, real, nominal, Tables,
}
use sanmitra_backend.Accounting.Store.{Database, insert_account}
use sanmitra_backend.Accounting.Accounts.{AccountCreateRequest, account_row}

-- The flag that `_default_account` is called with, of the three it takes.
pub data Flag : Type 0 where
  ordinary cash_bank receivable payable : Flag

abbrev pub is_cash_bank_flag : Flag → Bool
is_cash_bank_flag cash_bank = true
is_cash_bank_flag _ = false

abbrev pub is_receivable_flag : Flag → Bool
is_receivable_flag receivable = true
is_receivable_flag _ = false

abbrev pub is_payable_flag : Flag → Bool
is_payable_flag payable = true
is_payable_flag _ = false

-- An item of the chart.
pub record DefaultAccount : Type 0 where
  pub code : String
  pub name : String
  pub account_type : AccountType
  pub classification : Classification
  pub is_cash_bank : Bool
  pub is_receivable : Bool
  pub is_payable : Bool

-- `_default_account`
abbrev pub default_account : String → String → AccountType → Classification → Flag → DefaultAccount
default_account code name account_type classification flag = record {
  code = code;
  name = name;
  account_type = account_type;
  classification = classification;
  is_cash_bank = is_cash_bank_flag flag;
  is_receivable = is_receivable_flag flag;
  is_payable = is_payable_flag flag;
}

-- `DEFAULT_HOUSING_CHART_OF_ACCOUNTS`
unfoldable pub default_housing_chart_of_accounts : List DefaultAccount
default_housing_chart_of_accounts =
    default_account "1000" "Cash in Hand" asset real cash_bank
    ∷ default_account "1010" "Bank Account" asset real cash_bank
    ∷ default_account "1020" "Savings Bank Account" asset real cash_bank
    ∷ default_account "1030" "Fixed Deposits" asset real ordinary
    ∷ default_account "1040" "Accrued Interest Receivable" asset personal receivable
    ∷ default_account "1100" "Member Dues Receivable" asset personal receivable
    ∷ default_account "1110" "Late Fee Receivable" asset personal receivable
    ∷ default_account "1120" "Other Receivables" asset personal receivable
    ∷ default_account "1200" "Members' Advance" asset personal ordinary
    ∷ default_account "1210" "Advance to Vendors" asset personal ordinary
    ∷ default_account "1220" "Prepaid Expenses" asset real ordinary
    ∷ default_account "1230" "Security Deposits Paid" asset real ordinary
    ∷ default_account "1300" "Furniture and Fixtures" asset real ordinary
    ∷ default_account "1310" "Office Equipment" asset real ordinary
    ∷ default_account "1320" "Common Area Equipment" asset real ordinary
    ∷ default_account "2000" "Maintenance Fund" liability personal ordinary
    ∷ default_account "2010" "Advance from Members" liability personal ordinary
    ∷ default_account "2020" "Security Deposits Received" liability personal ordinary
    ∷ default_account "2100" "Accounts Payable" liability personal payable
    ∷ default_account "2110" "Expense Payable" liability personal payable
    ∷ default_account "2120" "Statutory Dues Payable" liability personal payable
    ∷ default_account "2130" "TDS Payable" liability personal payable
    ∷ default_account "3000" "Corpus Fund" equity nominal ordinary
    ∷ default_account "3010" "Sinking Fund" equity nominal ordinary
    ∷ default_account "3020" "Reserve Fund" equity nominal ordinary
    ∷ default_account "3030" "Repair and Replacement Fund" equity nominal ordinary
    ∷ default_account "3040" "Building Fund" equity nominal ordinary
    ∷ default_account "3050" "Opening Balance Equity" equity nominal ordinary
    ∷ default_account "4000" "Member Dues Income" income nominal ordinary
    ∷ default_account "4010" "Late Fee Income" income nominal ordinary
    ∷ default_account "4020" "Parking Charges Income" income nominal ordinary
    ∷ default_account "4030" "Facility Booking Income" income nominal ordinary
    ∷ default_account "4040" "Interest Income" income nominal ordinary
    ∷ default_account "4050" "Water Charges Income" income nominal ordinary
    ∷ default_account "4060" "Transfer Fee Income" income nominal ordinary
    ∷ default_account "4070" "Miscellaneous Income" income nominal ordinary
    ∷ default_account "5000" "Repairs and Maintenance Expense" expense nominal ordinary
    ∷ default_account "5010" "Utilities Expense" expense nominal ordinary
    ∷ default_account "5020" "Security Expense" expense nominal ordinary
    ∷ default_account "5030" "Housekeeping Expense" expense nominal ordinary
    ∷ default_account "5040" "Lift Maintenance Expense" expense nominal ordinary
    ∷ default_account "5050" "Common Area Electricity Expense" expense nominal ordinary
    ∷ default_account "5060" "Water Supply Expense" expense nominal ordinary
    ∷ default_account "5070" "Insurance Expense" expense nominal ordinary
    ∷ default_account "5080" "Administrative Expense" expense nominal ordinary
    ∷ default_account "5090" "Bank Charges" expense nominal ordinary
    ∷ default_account "5100" "Legal and Professional Fees" expense nominal ordinary
    ∷ default_account "5110" "Garden Maintenance Expense" expense nominal ordinary
    ∷ default_account "5120" "Pest Control Expense" expense nominal ordinary
    ∷ []

-- `existing_codes`, of the rows whose code is not NULL.
abbrev pub with_code : Option String → List String → List String
with_code none codes = codes
with_code (some code) codes = add codes code

abbrev pub existing_codes : Scope → List Account → List String
existing_codes scope [] = []
existing_codes scope (a ∷ rows) =
    let rest = existing_codes scope rows in if a.scope == scope then with_code a.code rest else rest

-- The arguments of `Account`.
abbrev pub default_request : DefaultAccount → AccountCreateRequest
default_request i = record {
  code = some i.code;
  name = i.name;
  account_type = i.account_type;
  classification = i.classification;
  is_cash_bank = i.is_cash_bank;
  is_receivable = i.is_receivable;
  is_payable = i.is_payable;
}

-- The loop over the chart; how many accounts were added.
pub add_missing :
    Database → Scope → List String → List DefaultAccount → Tables → Outcome (ℕ × Tables)
add_missing db scope existing [] t = ok (0, t)
add_missing db scope existing (i ∷ items) t = elim (contains existing i.code) [
  | true ↦ add_missing db scope existing items t
  | false ↦ do
    (a, t') ← insert_account db (account_row scope (default_request i)) t
    (n, t'') ← add_missing db scope existing items t'
    ok (suc n, t'')
]

pub record Initialized : Type 0 where
  pub accounts_created : ℕ
  pub accounts_existing : ℕ
  pub total_accounts : ℕ

unfoldable pub initialize_default_chart_of_accounts :
    Database → Scope → Tables → Outcome (Initialized × Tables)
unfolding add_missing
initialize_default_chart_of_accounts db scope t = do
  (n, t') ←
      add_missing db scope (existing_codes scope t.accounts) default_housing_chart_of_accounts t
  ok (
    record {
      accounts_created = n;
      accounts_existing = length (existing_codes scope t.accounts);
      total_accounts = length (keep (λ a. a.scope == scope) t'.accounts);
    },
    t',
  )
