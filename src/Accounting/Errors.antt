-- ===== src/Accounting/Errors.antt =====
-- The exceptions of the accounting service: its own two classes, with one constructor for each
-- message (a message that lists codes or ids is taken without its list), `InvalidOperation` of
-- Python's decimal module, and those of the database layer.
use sanmitra_backend.Base.{Result}

-- The messages of AccountingValidationError.
pub data Reason : Type 0 where
  too_few_lines missing_code empty_line two_sided_line one_sided_entry single_account : Reason
  zero_total unbalanced : Reason
  empty_source_code empty_source_name empty_codes no_mappings unmapped_codes : Reason

-- The messages of AccountingNotFoundError.
pub data Missing : Type 0 where
  account accounts account_code account_id source_codes source_keys no_source_accounts journal :
      Missing

pub data Error : Type 0 where
  validation : Reason → Error
  not_found : Missing → Error
  invalid_operation multiple_results integrity data_error : Error

abbrev pub Outcome {ℓ} : Type ℓ → Type ℓ
Outcome A = Result Error A
