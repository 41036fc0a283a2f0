-- ===== src/Accounting/Journal/Preserves.antt =====
-- A posting keeps the invariant of the accounting tables.
use mathlib.Core.List.{map-append}
use sanmitra_backend.Base.{
  ℕ, ◌≡◌, ◌≢◌, refl, ap, ◌<◌, ◌≤◌, inl, inr, String, Bool, true, false, ◌&&◌, Option, none, some,
  List, [], ◌∷◌, ◌++◌, map, All, All-append, All-weaken, any, nat_beq, length, keep, ok, arith,
  Bool-cases,
}
use sanmitra_backend.Base.Sums.{sum_of, when, sum_of-append}
use sanmitra_backend.Base.Equality.{◌==◌, contains, nat_eq, string_eq, equal_self}
use sanmitra_backend.Accounting.Lines.{Line}
use sanmitra_backend.Accounting.Lines.Spec.{IsPosting}
use sanmitra_backend.Accounting.Lines.Laws.{IsPosting-positive}
use sanmitra_backend.Accounting.Entities.{
  Scope, scope_eq, Account, JournalEntry, JournalLine, Tables,
}
use sanmitra_backend.Accounting.Store.{Database, same_key}
use sanmitra_backend.Accounting.Journal.{
  JournalPostRequest, entries_with_key, available_account_ids, has_missing, post_journal_entry,
}
use sanmitra_backend.Accounting.Journal.Invariant.{
  Distinct, debits_of, credits_of, Booked, Placed, IsConsistent,
}
use sanmitra_backend.Accounting.Journal.Inserts.{AllStore}
use sanmitra_backend.Accounting.Journal.Posting.{Adds, with_entry, post_journal_entry_sound}

contains-append_one :
    (xs : List ℕ) (x y : ℕ) → contains xs y ≡ false → x ≢ y → contains (xs ++ x ∷ []) y ≡ false
contains-append_one [] x y h ne = ground arith
contains-append_one (z ∷ xs) x y h ne = ground (arith, contains-append_one xs x y)

pub Distinct-append_one :
    (xs : List ℕ) (x : ℕ) → Distinct xs → contains xs x ≡ false → Distinct (xs ++ x ∷ [])
Distinct-append_one [] x d h = (refl, tt)
Distinct-append_one (y ∷ xs) x (n, d) h =
    (contains-append_one xs x y n (ground arith), Distinct-append_one xs x d (ground arith))

module _ {ℓ} {A : Type ℓ} (p : A → Bool) where
  pub any-append_left : (xs ys : List A) → any p xs ≡ true → any p (xs ++ ys) ≡ true
  any-append_left [] ys h = cc
  any-append_left (x ∷ xs) ys h = ground (arith, any-append_left xs ys)

  any-append_one : (xs : List A) (x : A) → p x ≡ true → any p (xs ++ x ∷ []) ≡ true
  any-append_one [] x h = ground arith
  any-append_one (y ∷ xs) x h = ground (arith, any-append_one xs x h)

  keep-append_one : (xs : List A) (x : A) → p x ≡ false → keep p (xs ++ x ∷ []) ≡ keep p xs
  keep-append_one [] x h = ground arith
  keep-append_one (y ∷ xs) x h = ground (arith, keep-append_one xs x h)

  keep-append_only :
      (q : A → Bool) (xs : List A) (x : A)
      → any q xs ≡ false
      → ((y : A) → p y ≡ true → q y ≡ true)
      → length (keep p (xs ++ x ∷ [])) ≤ 1
  keep-append_only q [] x h imp = ground arith
  keep-append_only q (y ∷ xs) x h imp =
      ground (arith, imp y, keep-append_only q xs x (ground arith) imp)

-- The lines of a posting count for its entry and for no other.
module _ (e : JournalEntry) where
  debits_of-own :
      (new : List JournalLine) (ls : List (Line ℕ))
      → AllStore e new ls
      → debits_of e.id new ≡ sum_of (λ l. l.debit) ls
  debits_of-own [] [] s = refl
  debits_of-own (row ∷ new) (l ∷ ls) (s, ss) =
      ground (arith, debits_of-own new ls ss, s.journal, s.debit)
  debits_of-own [] (l ∷ ls) s = absurd s
  debits_of-own (row ∷ new) [] s = absurd s

  credits_of-own :
      (new : List JournalLine) (ls : List (Line ℕ))
      → AllStore e new ls
      → credits_of e.id new ≡ sum_of (λ l. l.credit) ls
  credits_of-own [] [] s = refl
  credits_of-own (row ∷ new) (l ∷ ls) (s, ss) =
      ground (arith, credits_of-own new ls ss, s.journal, s.credit)
  credits_of-own [] (l ∷ ls) s = absurd s
  credits_of-own (row ∷ new) [] s = absurd s

  of_other :
      (id : ℕ) (new : List JournalLine) (ls : List (Line ℕ))
      → id ≢ e.id
      → AllStore e new ls
      → (debits_of id new ≡ 0) × (credits_of id new ≡ 0)
  of_other id [] [] ne s = (refl, refl)
  of_other id (row ∷ new) (l ∷ ls) ne (s, ss) = ground (arith, of_other id new ls ne ss, s.journal)
  of_other id [] (l ∷ ls) ne s = absurd s
  of_other id (row ∷ new) [] ne s = absurd s

-- No stored line names an entry that is not stored.
any-entry_id :
    (es : List JournalEntry) (l : JournalLine)
    → any (λ e. nat_beq e.id l.journal_id && e.scope == l.scope) es ≡ true
    → contains (map (λ e. e.id) es) l.journal_id ≡ true
any-entry_id [] l h = cc
any-entry_id (e ∷ es) l h = ground (arith, any-entry_id es l)

of_fresh :
    (es : List JournalEntry) (rows : List Account) (id : ℕ) (ls : List JournalLine)
    → contains (map (λ e. e.id) es) id ≡ false
    → All (Placed es rows) ls
    → (debits_of id ls ≡ 0) × (credits_of id ls ≡ 0)
of_fresh es rows id [] h p = (refl, refl)
of_fresh es rows id (l ∷ ls) h (p, ps) =
    let inside : contains (map (λ e. e.id) es) l.journal_id ≡ true = any-entry_id es l p.entry in
    let apart : l.journal_id ≢ id =
      λ same. ground (arith, ap (contains (map (λ e. e.id) es)) same) in
    ground (arith, of_fresh es rows id ls h ps)

pub any-account :
    (scope : Scope) (rows : List Account) (k : ℕ)
    → contains (map (λ a. a.id) (keep (λ a. a.scope == scope) rows)) k ≡ true
    → any (λ a. nat_beq a.id k && a.scope == scope) rows ≡ true
any-account scope [] k h = cc
any-account scope (a ∷ rows) k h = ground (arith, any-account scope rows k)

Placed-new :
    (scope : Scope) (es : List JournalEntry) (rows : List Account) (e : JournalEntry)
    (new : List JournalLine) (ls : List (Line ℕ))
    → e.scope ≡ scope
    → AllStore e new ls
    → has_missing (map (λ a. a.id) (keep (λ a. a.scope == scope) rows)) ls ≡ false
    → All (Placed (es ++ e ∷ []) rows) new
unfolding has_missing
Placed-new scope es rows e [] [] own s h = tt
Placed-new scope es rows e (row ∷ new) (l ∷ ls) own (s, ss) h = (
  record {
    entry =
        any-append_one (λ o. nat_beq o.id row.journal_id && o.scope == row.scope) es e
          (rw (s.journal, s.scope) (ground (arith, equal_self e.scope)));
    account = rw (s.account, s.scope, own) (any-account scope rows l.key (ground arith));
  },
  Placed-new scope es rows e new ls own ss (ground arith),
)
Placed-new scope es rows e [] (l ∷ ls) own s h = absurd s
Placed-new scope es rows e (row ∷ new) [] own s h = absurd s

Booked-append :
    (lines : List JournalLine) (new : List JournalLine) (ls : List (Line ℕ)) (e : JournalEntry)
    (es : List JournalEntry)
    → AllStore e new ls
    → contains (map (λ o. o.id) es) e.id ≡ false
    → All (Booked lines) es
    → All (Booked (lines ++ new)) es
Booked-append lines new ls e [] s f b = tt
Booked-append lines new ls e (o ∷ es) s f (b, bs) =
    let (d, c) = of_other e o.id new ls (ground arith) s in
    (
      record {
        debits = omega (
          arith,
          sum_of-append (λ l. when (nat_beq l.journal_id o.id) l.debit) lines new,
          d,
          b.debits,
        );
        credits = omega (
          arith,
          sum_of-append (λ l. when (nat_beq l.journal_id o.id) l.credit) lines new,
          c,
          b.credits,
        );
        balanced = b.balanced;
        positive = b.positive;
      },
      Booked-append lines new ls e es s (ground arith) bs,
    )

same_key_trans :
    (a b k : Option String) → same_key a k ≡ true → same_key b k ≡ true → same_key a b ≡ true
same_key_trans (some a) (some b) (some k) h g =
    ground (arith, string_eq.equal_iff a k, string_eq.equal_iff b k, string_eq.equal_iff a b)
same_key_trans _ none none h g = cc
same_key_trans none _ _ h g = cc
same_key_trans _ none _ h g = cc
same_key_trans (some a) (some b) none h g = cc

module _ (db : Database) (scope : Scope) (created_by : String) (payload : JournalPostRequest)
    (key : Option String) (t : Tables) (valid : IsConsistent t) where
  module _ (td tc : ℕ) (ls : List (Line ℕ)) (e : JournalEntry) (new : List JournalLine)
      (adds : Adds db scope created_by payload key t td tc ls e new) where
    fresh_entry : contains (map (λ o. o.id) t.entries) e.id ≡ false
    fresh_entry = rw (ap (λ x. x.id) adds.row) (db.next_id_fresh (map (λ o. o.id) t.entries))

    keys_kept :
        (s : Scope) (k : Option String) → length (entries_with_key s k (with_entry t e new)) ≤ 1
    unfolding entries_with_key
    keys_kept s k = elim (Bool-cases (e.scope == s && same_key e.idempotency_key k)) [
      | inl mine ↦
          keep-append_only (λ o. o.scope == s && same_key o.idempotency_key k)
            (λ o. o.scope == scope && same_key o.idempotency_key key) t.entries e adds.new_key
            (λ o h. ground (
              arith,
              ap (λ x. x.scope) adds.row,
              ap (λ x. x.idempotency_key) adds.row,
              scope_eq.equal_iff e.scope s,
              scope_eq.equal_iff o.scope s,
              scope_eq.equal_iff o.scope scope,
              same_key_trans o.idempotency_key e.idempotency_key k,
            ))
      | inr other ↦
          rw (keep-append_one (λ o. o.scope == s && same_key o.idempotency_key k) t.entries e other)
            (valid.keys s k)
    ]

    entry-Booked : IsPosting (λ _. true) payload.lines td tc ls → 0 < td → Booked (t.lines ++ new) e
    entry-Booked p positive =
        let (d, c) = of_fresh t.entries t.accounts e.id t.lines fresh_entry valid.placed in
        let debit : e.total_debit ≡ td = ap (λ x. x.total_debit) adds.row in
        let credit : e.total_credit ≡ tc = ap (λ x. x.total_credit) adds.row in
        record {
          debits = omega (
            arith,
            sum_of-append (λ l. when (nat_beq l.journal_id e.id) l.debit) t.lines new,
            d,
            debits_of-own e new ls adds.stored,
            p.debits,
          );
          credits = omega (
            arith,
            sum_of-append (λ l. when (nat_beq l.journal_id e.id) l.credit) t.lines new,
            c,
            credits_of-own e new ls adds.stored,
            p.credits,
          );
          balanced = omega (arith, p.balanced);
          positive = omega arith;
        }

    with_entry-IsConsistent :
        IsPosting (λ _. true) payload.lines td tc ls → 0 < td → IsConsistent (with_entry t e new)
    with_entry-IsConsistent p positive = record {
      account_ids = valid.account_ids;
      entry_ids =
          rw (map-append (λ o. o.id) t.entries (e ∷ []))
            (Distinct-append_one (map (λ o. o.id) t.entries) e.id valid.entry_ids fresh_entry);
      keys = keys_kept;
      booked =
          All-append _ t.entries (e ∷ [])
            (Booked-append t.lines new ls e t.entries adds.stored fresh_entry valid.booked)
            (entry-Booked p positive, tt);
      placed =
          All-append _ t.lines new
            (All-weaken
              (λ l q. record {
                entry =
                    any-append_left (λ o. nat_beq o.id l.journal_id && o.scope == l.scope) t.entries
                      (e ∷ []) q.entry;
                account = q.account;
              })
              t.lines valid.placed)
            (Placed-new scope t.entries t.accounts e new ls (ap (λ x. x.scope) adds.row) adds.stored
              (unfold available_account_ids in adds.found));
    }

  -- Posting a journal entry keeps the tables consistent: whichever way the request succeeds, each
  -- entry of the tables is balanced by its own lines, the primary keys of accounts and entries and
  -- the idempotency keys stay unique, and each line stands in the scope of its entry and of its
  -- account.
  pub post_journal_entry-IsConsistent :
      {e : JournalEntry} {created : Bool} {t' : Tables}
      → post_journal_entry db scope created_by payload key t ≡ ok (e, created, t')
      → IsConsistent t'
  post_journal_entry-IsConsistent {e} h =
      elim (post_journal_entry_sound db scope created_by payload key t h) [
        | inl (old, same, found) ↦ rw same valid
        | inr p ↦ rw p.result (
            with_entry-IsConsistent p.td p.tc p.ls e p.new p.adds p.valid
              (IsPosting-positive p.valid))
      ]
