-- ===== src/Accounting/Accounts/Creation.antt =====
-- A new account keeps the invariant of the tables.
use mathlib.Core.List.{map-append}
use sanmitra_backend.Base.{
  ℕ, ◌≡◌, refl, subst, sym, true, false, not, Bool, ◌&&◌, [], ◌∷◌, ◌++◌, map, All-weaken, any, ok,
  arith, raise_if-eq-ok,
}
use sanmitra_backend.Base.Equality.{◌==◌, contains, nat_eq}
use sanmitra_backend.Accounting.Errors.{Outcome, integrity, data_error}
use sanmitra_backend.Accounting.Entities.{Scope, scope_eq, Account, Tables}
use sanmitra_backend.Accounting.Store.{
  Database, insert_account, account_fits, account_check, same_key,
}
use sanmitra_backend.Accounting.Journal.{entries_with_key}
use sanmitra_backend.Accounting.Journal.Invariant.{Distinct, IsConsistent}
use sanmitra_backend.Accounting.Journal.Preserves.{Distinct-append_one, any-append_left}
use sanmitra_backend.Accounting.Accounts.{AccountCreateRequest, account_row, create_account}

abbrev pub with_account : Tables → Account → Tables
with_account t a = record t { accounts = t.accounts ++ a ∷ [] }

pub with_account-IsConsistent :
    (t : Tables) (a : Account)
    → contains (map (λ a. a.id) t.accounts) a.id ≡ false
    → IsConsistent t
    → IsConsistent (with_account t a)
unfolding entries_with_key
with_account-IsConsistent t a fresh valid = record {
  account_ids =
      subst Distinct (sym (map-append (λ a. a.id) t.accounts (a ∷ [])))
        (Distinct-append_one (map (λ a. a.id) t.accounts) a.id valid.account_ids fresh);
  entry_ids = valid.entry_ids;
  keys = valid.keys;
  booked = valid.booked;
  placed =
      All-weaken
        (λ l p. record {
          entry = p.entry;
          account = any-append_left _ t.accounts (a ∷ []) p.account;
        })
        t.lines valid.placed;
}

-- What an account that was created is.
pub record Created (scope : Scope) (payload : AccountCreateRequest) (t : Tables) (a : Account)
    (t' : Tables) : Type 0 where
  pub row : a ≡ record (account_row scope payload) { id = a.id }
  pub tables : t' ≡ with_account t a
  pub fresh : contains (map (λ a. a.id) t.accounts) a.id ≡ false
  pub flags : account_check a ≡ true
  pub unused : any (λ b. b.scope == scope && same_key b.code payload.code) t.accounts ≡ false
  pub consistent : IsConsistent t'

ok-injective : {p q : Account × Tables} → ◌≡◌ {A = Outcome (Account × Tables)} (ok p) (ok q) → p ≡ q
ok-injective h = cc

not-false : (b : Bool) → not b ≡ false → b ≡ true
not-false b h = ground arith

created :
    (scope : Scope) (payload : AccountCreateRequest) (t : Tables) (id : ℕ)
    → contains (map (λ a. a.id) t.accounts) id ≡ false
    → account_check (account_row scope payload) ≡ true
    → any (λ b. b.scope == scope && same_key b.code payload.code) t.accounts ≡ false
    → IsConsistent t
    → let a = record (account_row scope payload) { id = id } in
      Created scope payload t a (with_account t a)
unfolding account_check
created scope payload t id fresh flags unused valid = record {
  row = refl;
  tables = refl;
  fresh = fresh;
  flags = flags;
  unused = unused;
  consistent = with_account-IsConsistent t _ fresh valid;
}

-- On consistent tables, an account that `create_account` returns has the request's data and a
-- fresh id, meets the CHECK constraints, and its code was unused in the scope; the tables get this
-- account and nothing else, and stay consistent.
pub create_account_sound :
    (db : Database) (scope : Scope) (payload : AccountCreateRequest) (t : Tables) (a : Account)
    (t' : Tables)
    → IsConsistent t
    → create_account db scope payload t ≡ ok (a, t')
    → Created scope payload t a t'
unfolding create_account insert_account account_check
create_account_sound db scope payload t a t' valid h =
    let row = account_row scope payload in
    let (f, h₁) = raise_if-eq-ok (not (account_fits row)) data_error _ h in
    let (c, h₂) = raise_if-eq-ok (not (account_check row)) integrity _ h₁ in
    let (u, h₃) =
      raise_if-eq-ok (any (λ b. b.scope == scope && same_key b.code payload.code) t.accounts)
        integrity _ h₂ in
    let new = record row { id = db.next_id (map (λ a. a.id) t.accounts) } in
    subst (λ p. Created scope payload t p.0 p.1) (ok-injective h₃)
      (created scope payload t new.id (db.next_id_fresh (map (λ a. a.id) t.accounts))
        (not-false (account_check row) c) u valid)
