-- ===== src/Accounting/Accounts/Rename.antt =====
-- A rename changes one name and nothing else.
use sanmitra_backend.Base.{
  ℕ, ◌≡◌, refl, sym, ap, subst, ◌∙◌, String, Bool, true, not, ◌&&◌, Option, some, List, [], ◌∷◌,
  map, ok, keep, any, All-weaken, arith, >>=-eq-ok, raise_if-eq-ok,
}
use sanmitra_backend.Base.Text.{strip}
use sanmitra_backend.Base.Equality.{◌==◌}
use sanmitra_backend.Accounting.Errors.{Outcome, data_error}
use sanmitra_backend.Accounting.Entities.{Scope, scope_eq, Account, Tables}
use sanmitra_backend.Accounting.Store.{fits, same_key, scalar_one_or_none}
use sanmitra_backend.Accounting.Journal.{entries_with_key}
use sanmitra_backend.Accounting.Journal.Invariant.{Distinct, IsConsistent}
use sanmitra_backend.Accounting.Table.{update_row}
use sanmitra_backend.Accounting.Table.Unique.{scalar_one_or_none-holds}
use sanmitra_backend.Accounting.Accounts.{code_found, rename, update_account_name}

module _ {A B : Type 0} (id : A → ℕ) (k : ℕ) (set : A → A) (f : A → B)
    (keeps : (x : A) → f (set x) ≡ f x) where
  -- A write that a view does not see.
  map-update_row : (xs : List A) → map f (update_row id k set xs) ≡ map f xs
  unfolding update_row
  map-update_row [] = refl
  map-update_row (x ∷ xs) = ground (arith, keeps x, map-update_row xs)

module _ {A : Type 0} (id : A → ℕ) (k : ℕ) (set : A → A) (p : A → Bool)
    (keeps : (x : A) → p (set x) ≡ p x) where
  any-update_row : (xs : List A) → any p (update_row id k set xs) ≡ any p xs
  unfolding update_row
  any-update_row [] = refl
  any-update_row (x ∷ xs) = ground (arith, keeps x, any-update_row xs)

-- An account but for its name.
abbrev pub unnamed : Account → Account
unnamed a = record a { name = "" }

-- What a rename does.
pub record Renamed (scope : Scope) (code name : String) (t : Tables) (a : Account) (t' : Tables)
    : Type 0 where
  pub in_scope : a.scope ≡ scope
  pub coded : same_key a.code (some code) ≡ true
  pub named : a.name ≡ strip name
  pub others : map unnamed t'.accounts ≡ map unnamed t.accounts
  pub stored : t'.accounts ≡ update_row (λ b. b.id) a.id (rename name) t.accounts
  pub rest : t' ≡ record t { accounts = t'.accounts }
  pub consistent : IsConsistent t'

module _ (t : Tables) (k : ℕ) (name : String) where
  abbrev renamed : Tables
  renamed = record t { accounts = update_row (λ a. a.id) k (rename name) t.accounts }

  renamed-IsConsistent : IsConsistent t → IsConsistent renamed
  unfolding entries_with_key
  renamed-IsConsistent valid = record {
    account_ids =
        subst Distinct
          (sym (map-update_row (λ a. a.id) k (rename name) (λ a. a.id) (λ a. refl) t.accounts))
          valid.account_ids;
    entry_ids = valid.entry_ids;
    keys = valid.keys;
    booked = valid.booked;
    placed =
        All-weaken
          (λ l p. record {
            entry = p.entry;
            account =
                any-update_row (λ a. a.id) k (rename name) _ (λ a. refl) t.accounts ∙ p.account;
          })
          t.lines valid.placed;
  }

code_found-some : (o : Option Account) (a : Account) → code_found o ≡ ok a → o ≡ some a
unfolding code_found
code_found-some o a h = ground arith

ok-injective : {p q : Account × Tables} → ◌≡◌ {A = Outcome (Account × Tables)} (ok p) (ok q) → p ≡ q
ok-injective h = cc

-- On consistent tables, the account that `update_account_name` returns is one of the scope with
-- the code, under the stripped name; it is stored so, every account keeps all but its name, no
-- other table changes, and the tables stay consistent.
pub update_account_name_sound :
    (scope : Scope) (code name : String) (t : Tables) (a : Account) (t' : Tables)
    → IsConsistent t
    → update_account_name scope code name t ≡ ok (a, t')
    → Renamed scope code name t a t'
unfolding update_account_name
update_account_name_sound scope code name t a t' valid h =
    let p = λ (b : Account). b.scope == scope && same_key b.code (some code) in
    let (row, at_row, h₁) = >>=-eq-ok (scalar_one_or_none (keep p t.accounts)) _ h in
    let (b, at_b, h₂) = >>=-eq-ok (code_found row) _ h₁ in
    let (short, h₃) = raise_if-eq-ok (not (fits 200 (strip name))) data_error _ h₂ in
    let good =
      scalar_one_or_none-holds p t.accounts b (at_row ∙ ap ok (code_found-some row b at_b)) in
    subst (λ p. Renamed scope code name t p.0 p.1) (ok-injective h₃)
      (record {
        in_scope = ground (arith, scope_eq.equal_iff b.scope scope, good);
        coded = ground (arith, good);
        named = refl;
        others = map-update_row (λ a. a.id) b.id (rename name) unnamed (λ a. refl) t.accounts;
        stored = refl;
        rest = refl;
        consistent = renamed-IsConsistent t b.id name valid;
      })
