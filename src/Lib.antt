-- ===== src/Lib.antt =====
-- SanMitra unified backend: one FastAPI application that serves several products (temples,
-- housing societies, legal, investments) with a shared accounting engine on PostgreSQL.
--
-- The development models the core whose correctness the products share.
--
-- Base: names of the libraries, Boolean tests, lists, sums, integers, texts and results. `strip`
--   is Python's `str.strip`.
--   Collection: what the source uses of a MongoDB collection, an interface that Collection/Keyed
--     implements. `str.lower` is a parameter too (`Casing`), which leaves lower-case ASCII alone.
-- Tenants: app/core/tenants and app/accounting/context.py.
--   Access: `resolve_tenant_id`, `resolve_app_key` and `resolve_accounting_context`: the guards that
--     an accounting request passes before the engine runs. The token's claims and the context
--     variables of the middleware are arguments; settings are a parameter.
--   Lifecycle: the tenants' documents with the cache of their statuses, `ensure_tenant_exists`,
--     `set_tenant_status` and `ensure_tenant_is_active`. A call reads the clock once.
--     Lifecycle/Requests has sequences of calls, Lifecycle/Lockout who is kept out.
-- Auth: the refresh tokens of app/core/auth.
--   Tokens: `_issue_tokens_for_user`, `rotate_refresh_token` and `logout_refresh_token` with what
--     they call. Signed tokens, their digest and MongoDB's `_id`s are a parameter (`Site`).
--     Tokens/Steps has what any calls leave of the records; the server's removal of expired
--     records is not modelled.
--   Mobile: `_normalize_mobile`. Which characters `\d` matches is a parameter (`Digits`).
--   Otp: `send_mobile_otp` and `verify_mobile_otp`. Otp/Codes has the two functions, Otp/Login the
--     users of app/core/users/service.py and what follows a right code, Otp/Guard the limit on
--     wrong codes, Otp/Attempts the calls that keep it, Otp/Counter and Otp/Guesses the wrong codes
--     that are counted. The delivery of a code is an argument, the newest document of a query a
--     parameter (`Newest`). Settings are natural numbers.
-- Accounting: app/accounting.
--   Errors: the exceptions of the service, one constructor for each message.
--   Decimal: `_q` and the validator of amounts. Money is a number of hundredths; `_q` raises
--     beyond the 28 digits of Python's decimal context (10 ^ 28 hundredths), and so does the model.
--     Sums of hundredths are kept exact; Python's are exact below the same limit.
--   Entities, Store: the tables of models/entities.py, and their column types, CHECK and UNIQUE
--     constraints and foreign keys, tested when a row is flushed. How PostgreSQL numbers rows and
--     orders texts is a parameter (`Database`): a new primary key is unused, and ORDER BY permutes
--     the rows.
--   Lines: `validate_journal_lines` and `validate_source_journal_lines`, with an independent
--     description of the valid requests in Lines/Spec.
--   Journal: `post_journal_entry`. An exception leaves the tables as they were, since the session
--     is closed without a commit. Journal/Invariant says what holds of the tables; its other
--     children prove what a posting does.
--   Table: the row that a dictionary keeps for a key, and a row saved under its primary key.
--   Accounts: `create_account`, `list_accounts`, `update_account_name` and, in Accounts/Defaults,
--     `initialize_default_chart_of_accounts` with its chart.
--   Listing: `list_journal_entries`, with its ORDER BY as a sort by day and key, and
--     `get_journal_entry_detail`.
--   Coa: the mapping of the products' own charts of accounts to the canonical accounts:
--     Rows has the constraints of its two tables, Sources `upsert_source_accounts` and
--     `list_source_accounts`, Mappings `upsert_coa_mappings`, `list_coa_mappings`,
--     `approve_coa_mappings` and `get_coa_onboarding_status`, Posting `_source_idempotency_key` and
--     `post_source_journal_entry`, Gaps `suggest_canonical_account` and `get_coa_mapping_gaps`, with
--     `str.isalnum` and the rounding of a confidence as parameters. A batch's rows are flushed one after another here, and all at
--     the commit in the source.
--   Reports: `_gl_sums_by_account`, with `get_trial_balance`, `get_balance_sheet`,
--     `get_receipts_payments`, `get_profit_loss`, `get_accounts_receivable` and
--     `get_accounts_payable` on it, and `get_ledger_lines`. A date is a day number.
-- Every loop runs over a list, so no fuel is needed.
--
-- Requests run one after another: transactions that interleave are not modelled, and neither are
-- HTTP, JSON, e-mail, `list_tenants`, the logins that check a password or a Google token, and the
-- modules of the single products.
pub mod Base
pub mod Tenants
pub mod Accounting
pub mod Auth
