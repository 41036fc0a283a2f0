-- ===== src/Accounting/Accounts.antt =====
-- `create_account`, `list_accounts` and `update_account_name` of app/accounting/service.py.
pub mod Creation
pub mod Defaults
pub mod Rename
use sanmitra_backend.Base.{
  ℕ, ◌≡◌, String, Bool, true, false, not, ◌&&◌, Option, none, some, List, ok, err, ◌>>=◌, ◌>>◌,
  raise_if, keep,
}
use sanmitra_backend.Base.Text.{strip}
use sanmitra_backend.Base.Equality.{◌==◌}
use sanmitra_backend.Accounting.Errors.{Outcome, not_found, account_code, data_error}
use sanmitra_backend.Accounting.Entities.{
  Scope, scope_eq, Account, AccountType, Classification, Tables,
}
use sanmitra_backend.Accounting.Store.{Database, insert_account, fits, same_key, scalar_one_or_none}
use sanmitra_backend.Accounting.Table.{update_row}

-- The arguments of `create_account` that describe the account.
pub record AccountCreateRequest : Type 0 where
  pub code : Option String
  pub name : String
  pub account_type : AccountType
  pub classification : Classification
  pub is_cash_bank : Bool
  pub is_receivable : Bool
  pub is_payable : Bool

abbrev pub account_row : Scope → AccountCreateRequest → Account
account_row scope payload = record {
  id = 0;
  scope = scope;
  code = payload.code;
  name = payload.name;
  account_type = payload.account_type;
  classification = payload.classification;
  is_cash_bank = payload.is_cash_bank;
  is_receivable = payload.is_receivable;
  is_payable = payload.is_payable;
}

unfoldable pub create_account :
    Database → Scope → AccountCreateRequest → Tables → Outcome (Account × Tables)
create_account db scope payload t = insert_account db (account_row scope payload) t

unfoldable pub list_accounts : Database → Scope → Tables → List Account
list_accounts db scope t = db.order_by_name (keep (λ a. a.scope == scope) t.accounts)

pub code_found : Option Account → Outcome Account
code_found none = err (not_found account_code)
code_found (some a) = ok a

abbrev pub rename : String → Account → Account
rename name a = record a { name = strip name }

-- The account as it is after the `refresh`.
unfoldable pub update_account_name : Scope → String → String → Tables → Outcome (Account × Tables)
unfolding code_found
update_account_name scope code name t = do
  row ← scalar_one_or_none (keep (λ a. a.scope == scope && same_key a.code (some code)) t.accounts)
  a ← code_found row
  raise_if (not (fits 200 (strip name))) data_error
  ok (rename name a, record t { accounts = update_row (λ a. a.id) a.id (rename name) t.accounts })
