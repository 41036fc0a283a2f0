-- ===== src/Accounting/Accounts/Defaults/Complete.antt =====
-- The default chart of accounts is always completed, and once only.
use sanmitra_backend.Base.{
  ℕ, suc, ◌+◌, ◌≡◌, refl, sym, ap, ◌∙◌, String, Bool, true, false, not, ◌&&◌, ◌||◌, Option, none,
  some, List, [], ◌∷◌, ◌++◌, map, ok, keep, any, all, All, All-weaken, length, arith, Bool-cases,
  inl, inr,
}
use sanmitra_backend.Base.Equality.{◌==◌, contains, string_eq, nat_eq, equal_self}
use sanmitra_backend.Accounting.Entities.{Scope, scope_eq, Account, Tables}
use sanmitra_backend.Accounting.Store.{
  Database, insert_account, account_fits, account_check, fits, same_key,
}
use sanmitra_backend.Accounting.Journal.Invariant.{IsConsistent}
use sanmitra_backend.Accounting.Accounts.{account_row}
use sanmitra_backend.Accounting.Accounts.Creation.{with_account, with_account-IsConsistent}
use sanmitra_backend.Accounting.Accounts.Defaults.{
  DefaultAccount, default_request, default_housing_chart_of_accounts, existing_codes, with_code,
  add_missing, Initialized, initialize_default_chart_of_accounts,
}

-- Whether a scope has an account with a code.
abbrev pub taken : Scope → String → List Account → Bool
taken scope code rows = any (λ a. a.scope == scope && same_key a.code (some code)) rows

contains-with_code :
    (code : String) (o : Option String) (codes : List String)
    → contains (with_code o codes) code ≡ (same_key o (some code) || contains codes code)
contains-with_code code none codes = refl
contains-with_code code (some c) codes = elim (Bool-cases (contains codes c)) [
  | inl old ↦ elim (Bool-cases (c == code)) [
    | inl same ↦
        let e : c ≡ code = (string_eq.equal_iff c code).0 same in rw (old, same) (rw e at old)
    | inr other ↦ rw (old, other) refl
  ]
  | inr new ↦ rw new (ground (arith, string_eq.equal_iff c code, string_eq.equal_iff code c))
]

existing_codes-taken :
    (scope : Scope) (code : String) (rows : List Account)
    → contains (existing_codes scope rows) code ≡ taken scope code rows
existing_codes-taken scope code [] = refl
existing_codes-taken scope code (a ∷ rows) = elim (Bool-cases (a.scope == scope)) [
  | inl inside ↦ rw inside (
      contains-with_code code a.code (existing_codes scope rows)
      ∙ ap (λ b. same_key a.code (some code) || b) (existing_codes-taken scope code rows))
  | inr outside ↦ rw outside (existing_codes-taken scope code rows)
]

any-append_one {ℓ} :
    {A : Type ℓ} (p : A → Bool) (xs : List A) (x : A) → any p (xs ++ x ∷ []) ≡ (any p xs || p x)
any-append_one p [] x = ground arith
any-append_one p (y ∷ xs) x = ground (arith, any-append_one p xs x)

abbrev pub with_accounts : Tables → List Account → Tables
with_accounts t rows = record t { accounts = rows }

-- What the constraints ask of an item of the chart, in the scope.
record Good (scope : Scope) (i : DefaultAccount) : Type 0 where
  fits : account_fits (account_row scope (default_request i)) ≡ true
  flags : account_check (account_row scope (default_request i)) ≡ true

-- Codes that occur once.
abbrev AllNew : List DefaultAccount → Type 0
AllNew [] = Unit
AllNew (i ∷ items) = All (λ j. (i.code == j.code) ≡ false) items × AllNew items

module _ (db : Database) (scope : Scope) where
  abbrev new_account : DefaultAccount → Tables → Account
  new_account i t = record (account_row scope (default_request i)) {
    id = db.next_id (map (λ a. a.id) t.accounts);
  }

  insert_default :
      (i : DefaultAccount) (t : Tables)
      → Good scope i
      → taken scope i.code t.accounts ≡ false
      → insert_account db (account_row scope (default_request i)) t
        ≡ ok (new_account i t, with_account t (new_account i t))
  unfolding insert_account
  insert_default i t good free = rw (good.fits, good.flags, free) refl

  -- The accounts after an insertion.
  taken-with_account :
      (i : DefaultAccount) (t : Tables) (code : String)
      → taken scope code (with_account t (new_account i t)).accounts
        ≡ (taken scope code t.accounts || (i.code == code))
  taken-with_account i t code =
      any-append_one _ t.accounts (new_account i t)
      ∙ ap (λ b. taken scope code t.accounts || b) (rw (equal_self scope) refl)

  -- What the loop leaves.
  record Grown (t t' : Tables) (n : ℕ) : Type 0 where
    kept :
        (code : String) → taken scope code t.accounts ≡ true → taken scope code t'.accounts ≡ true
    rest : t' ≡ with_accounts t t'.accounts
    count :
        length (keep (λ a. a.scope == scope) t'.accounts)
        ≡ n + length (keep (λ a. a.scope == scope) t.accounts)
    consistent : IsConsistent t → IsConsistent t'

  insert_default-Grown :
      (i : DefaultAccount) (t : Tables) → Grown t (with_account t (new_account i t)) 1
  insert_default-Grown i t = record {
    kept = λ code h. taken-with_account i t code ∙ rw h refl;
    rest = refl;
    count = keep_one t.accounts;
    consistent =
        with_account-IsConsistent t (new_account i t)
          (db.next_id_fresh (map (λ a. a.id) t.accounts));
  }
    where
      keep_one :
          (rows : List Account)
          → length (keep (λ a. a.scope == scope) (rows ++ new_account i t ∷ []))
            ≡ 1 + length (keep (λ a. a.scope == scope) rows)
      keep_one [] = rw (equal_self scope) refl
      keep_one (a ∷ rows) = ground (arith, keep_one rows)

  Grown-trans : {t t₁ t' : Tables} {n : ℕ} → Grown t t₁ 1 → Grown t₁ t' n → Grown t t' (suc n)
  Grown-trans {t} {t₁} {t'} {n} first later = record {
    kept = λ code h. later.kept code (first.kept code h);
    rest = later.rest ∙ ap (λ u. with_accounts u t'.accounts) first.rest;
    count = omega (arith, first.count, later.count);
    consistent = λ valid. later.consistent (first.consistent valid);
  }

  -- The codes after it are as free as before.
  still_free :
      (i : DefaultAccount) (existing : List String) (t : Tables) (items : List DefaultAccount)
      → All (λ j. (i.code == j.code) ≡ false) items
      → All (λ j. contains existing j.code ≡ taken scope j.code t.accounts) items
      → All
          (λ j.
            contains existing j.code
            ≡ taken scope j.code (with_account t (new_account i t)).accounts)
          items
  still_free i existing t [] new h = tt
  still_free i existing t (j ∷ items) (other, new) (e, h) = (
    e ∙ sym (taken-with_account i t j.code ∙ rw other (ground arith)),
    still_free i existing t items new h,
  )

  Grown-same : (t : Tables) → Grown t t 0
  Grown-same t = record {
    kept = λ code h. h;
    rest = refl;
    count = omega arith;
    consistent = λ v. v;
  }

  add_missing-Grown :
      (existing : List String) (items : List DefaultAccount) (t : Tables)
      → All (Good scope) items
      → AllNew items
      → All (λ i. contains existing i.code ≡ taken scope i.code t.accounts) items
      → (n : ℕ) × (t' : Tables) × (add_missing db scope existing items t ≡ ok (n, t'))
        × Grown t t' n
        × All (λ i. taken scope i.code t'.accounts ≡ true) items
  unfolding add_missing
  add_missing-Grown existing [] t g d h = (0, t, refl, Grown-same t, tt)
  add_missing-Grown existing (i ∷ items) t (good, g) (new, d) (e, h) =
      elim (Bool-cases (contains existing i.code)) [
        | inl there ↦
            let (n, t', done, grown, all) = add_missing-Grown existing items t g d h in
            (n, t', rw (add_missing, there) done, grown, (grown.kept i.code (sym e ∙ there), all))
        | inr free ↦
            let t₁ = with_account t (new_account i t) in
            let (n, t', done, grown, all) =
              add_missing-Grown existing items t₁ g d (still_free i existing t items new h) in
            (
              suc n,
              t',
              rw (add_missing, free, insert_default i t good (sym e ∙ free), done) refl,
              Grown-trans (insert_default-Grown i t) grown,
              (
                grown.kept i.code
                    (taken-with_account i t i.code ∙ rw (equal_self i.code) (ground arith)),
                all,
              ),
            )
      ]

  add_missing-nothing :
      (existing : List String) (items : List DefaultAccount) (t : Tables)
      → All (λ i. contains existing i.code ≡ true) items
      → add_missing db scope existing items t ≡ ok (0, t)
  unfolding add_missing
  add_missing-nothing existing [] t h = refl
  add_missing-nothing existing (i ∷ items) t (there, h) =
      rw (add_missing, there) (add_missing-nothing existing items t h)

-- The columns of the scope hold it.
abbrev pub fits_scope : Scope → Bool
fits_scope scope =
    fits 50 scope.app_key && fits 64 scope.tenant_id && fits 100 scope.accounting_entity_id

-- What is tested of an item of the chart, the scope apart.
abbrev item_fits : DefaultAccount → Bool
item_fits i =
    fits 30 i.code
    && fits 200 i.name
    && not (i.is_receivable && i.is_payable)
    && account_check (
        account_row (record { app_key = ""; tenant_id = ""; accounting_entity_id = "" })
          (default_request i))

item-Good :
    (scope : Scope) (i : DefaultAccount)
    → fits_scope scope ≡ true
    → item_fits i ≡ true
    → Good scope i
unfolding account_fits account_check
item-Good scope i h g = record { fits = ground arith; flags = ground arith }

items-Good :
    (scope : Scope) (items : List DefaultAccount)
    → fits_scope scope ≡ true
    → all item_fits items ≡ true
    → All (Good scope) items
items-Good scope [] h g = tt
items-Good scope (i ∷ items) h g =
    (item-Good scope i h (ground arith), items-Good scope items h (ground arith))

abbrev all_new : List DefaultAccount → Bool
all_new [] = true
all_new (i ∷ items) = all (λ j. not (i.code == j.code)) items && all_new items

items-new :
    (i : DefaultAccount) (items : List DefaultAccount)
    → all (λ j. not (i.code == j.code)) items ≡ true
    → All (λ j. (i.code == j.code) ≡ false) items
items-new i [] h = tt
items-new i (j ∷ items) h = (ground arith, items-new i items (ground arith))

items-AllNew : (items : List DefaultAccount) → all_new items ≡ true → AllNew items
items-AllNew [] h = tt
items-AllNew (i ∷ items) h = (items-new i items (ground arith), items-AllNew items (ground arith))

chart_fits : all item_fits default_housing_chart_of_accounts ≡ true
unfolding default_housing_chart_of_accounts account_check
chart_fits = refl

chart_new : all_new default_housing_chart_of_accounts ≡ true
unfolding default_housing_chart_of_accounts
chart_new = refl

free_as_listed :
    (scope : Scope) (t : Tables) (items : List DefaultAccount)
    → All
        (λ i. contains (existing_codes scope t.accounts) i.code ≡ taken scope i.code t.accounts)
        items
free_as_listed scope t [] = tt
free_as_listed scope t (i ∷ items) =
    (existing_codes-taken scope i.code t.accounts, free_as_listed scope t items)

-- For a scope that its columns can hold, on consistent tables, the default chart of accounts is
-- always completed: afterwards the scope has every code of the chart, its accounts are as many as
-- before and the created ones, no other table has changed, and the tables are consistent. A second
-- call creates nothing, changes nothing and reports the same total.
pub initialize_default_chart_of_accounts_completes :
    (db : Database) (scope : Scope) (t : Tables)
    → fits_scope scope ≡ true
    → IsConsistent t
    → (r : Initialized) × (t' : Tables) × (initialize_default_chart_of_accounts db scope t
        ≡ ok (r, t'))
      × All (λ i. taken scope i.code t'.accounts ≡ true) default_housing_chart_of_accounts
      × (r.total_accounts ≡ r.accounts_created + length (keep (λ a. a.scope == scope) t.accounts))
      × (t' ≡ with_accounts t t'.accounts)
      × IsConsistent t'
      × (initialize_default_chart_of_accounts db scope t'
          ≡ ok (
            record {
              accounts_created = 0;
              accounts_existing = length (existing_codes scope t'.accounts);
              total_accounts = r.total_accounts;
            },
            t',
          ))
unfolding initialize_default_chart_of_accounts
initialize_default_chart_of_accounts_completes db scope t h valid =
    let chart = default_housing_chart_of_accounts in
    let (n, t', done, grown, complete) =
      add_missing-Grown db scope (existing_codes scope t.accounts) chart t
        (items-Good scope chart h chart_fits) (items-AllNew chart chart_new)
        (free_as_listed scope t chart) in
    (
      record {
        accounts_created = n;
        accounts_existing = length (existing_codes scope t.accounts);
        total_accounts = length (keep (λ a. a.scope == scope) t'.accounts);
      },
      t',
      rw done refl,
      complete,
      grown.count,
      grown.rest,
      grown.consistent valid,
      rw
          (add_missing-nothing db scope (existing_codes scope t'.accounts) chart t' (
            All-weaken (λ i found. existing_codes-taken scope i.code t'.accounts ∙ found) chart
              complete))
          refl,
    )
