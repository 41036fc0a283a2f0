-- ===== src/Accounting/Listing/Pages.antt =====
-- Pages of the journal follow one another without gaps and without repetition.
pub mod Order
use mathlib.Core.List.{map-append, Perm}
use sanmitra_backend.Base.{
  ℕ, zero, suc, ◌+◌, ◌≤◌, ◌≡◌, refl, sym, subst, ap, ◌∙◌, Bool, true, false, ◌&&◌, Option, none,
  some, List, [], ◌∷◌, ◌++◌, map, keep, All, All-weaken, length, nat_beq, leb, arith, Bool-cases,
  inl, inr, if◌then◌else◌,
}
use sanmitra_backend.Base.Equality.{contains, nat_eq, ◌==◌}
use sanmitra_backend.Accounting.Entities.{Scope, scope_eq, JournalEntry, JournalLine, Tables}
use sanmitra_backend.Accounting.Journal.Invariant.{Distinct}
use sanmitra_backend.Accounting.Listing.{
  take, drop, before, order_by_recent, entry_with_lines, listed_between, list_journal_entries,
}
use sanmitra_backend.Accounting.Listing.Pages.Order.{
  Falls, order_by_recent-Falls, order_by_recent-length, order_by_recent-perm,
}
use sanmitra_backend.Accounting.Table.Laws.{Distinct-keep}

take-then : {A : Type 0} (n m : ℕ) (xs : List A) → take n xs ++ take m (drop n xs) ≡ take (n + m) xs
take-then zero m xs = let e : 0 + m ≡ m = omega arith in rw e refl
take-then (suc n) zero [] = let e : suc n + 0 ≡ suc n = omega arith in rw e refl
take-then (suc n) (suc m) [] = let e : suc n + suc m ≡ suc (n + suc m) = omega arith in rw e refl
take-then (suc n) m (x ∷ xs) =
    let e : suc n + m ≡ suc (n + m) = omega arith in rw e (ap (λ ys. x ∷ ys) (take-then n m xs))

drop-add : {A : Type 0} (k n : ℕ) (xs : List A) → drop n (drop k xs) ≡ drop (k + n) xs
drop-add zero n xs = let e : 0 + n ≡ n = omega arith in rw e refl
drop-add (suc k) zero [] = let e : suc k + 0 ≡ suc k = omega arith in rw e refl
drop-add (suc k) (suc n) [] = let e : suc k + suc n ≡ suc (k + suc n) = omega arith in rw e refl
drop-add (suc k) n (x ∷ xs) =
    let e : suc k + n ≡ suc (k + n) = omega arith in rw e (drop-add k n xs)

take-all : {A : Type 0} (n : ℕ) (xs : List A) → length xs ≤ n → take n xs ≡ xs
take-all zero [] h = refl
take-all zero (x ∷ xs) h = absurd (omega (arith, h))
take-all (suc n) [] h = refl
take-all (suc n) (x ∷ xs) h = ap (λ ys. x ∷ ys) (take-all n xs (omega (arith, h)))

abbrev pub total : List ℕ → ℕ
total [] = 0
total (n ∷ ns) = n + total ns

length-keep : {A : Type 0} (q : A → Bool) (xs : List A) → length (keep q xs) ≤ length xs
length-keep q [] = omega arith
length-keep q (x ∷ xs) = elim (Bool-cases (q x)) [
  | inl good ↦ rw good (omega (arith, length-keep q xs))
  | inr bad ↦ rw bad (omega (arith, length-keep q xs))
]

own_lines :
    (t : Tables) (es : List JournalEntry)
    → All
        (λ (e, ls). ls ≡ keep (λ l. nat_beq l.journal_id e.id) t.lines)
        (map (entry_with_lines t) es)
own_lines t [] = tt
own_lines t (e ∷ es) = (refl, own_lines t es)

listed-entries :
    (t : Tables) (es : List JournalEntry) → map (λ r. r.0) (map (entry_with_lines t) es) ≡ es
listed-entries t [] = refl
listed-entries t (e ∷ es) = ap (λ xs. e ∷ xs) (listed-entries t es)

-- The entries that a request asks for.
abbrev pub asked : Scope → Option ℕ → Option ℕ → JournalEntry → Bool
asked scope from_date to_date e =
    e.scope == scope
    && elim from_date [ none ↦ true | some d ↦ leb d e.entry_date ]
    && elim to_date [ none ↦ true | some d ↦ leb e.entry_date d ]

listed_asked :
    (scope : Scope) (from_date to_date : Option ℕ) (e : JournalEntry)
    → listed_between scope from_date to_date e ≡ asked scope from_date to_date e
listed_asked scope none none e = refl
listed_asked scope none (some b) e = refl
listed_asked scope (some a) none e = refl
listed_asked scope (some a) (some b) e = refl

keep-asked :
    (scope : Scope) (from_date to_date : Option ℕ) (es : List JournalEntry)
    → keep (listed_between scope from_date to_date) es ≡ keep (asked scope from_date to_date) es
keep-asked scope from_date to_date [] = refl
keep-asked scope from_date to_date (e ∷ es) =
    rw (listed_asked scope from_date to_date e, keep-asked scope from_date to_date es) refl

module _ (scope : Scope) (from_date to_date : Option ℕ) (t : Tables) where
  -- Pages of some sizes, one after another.
  abbrev pub pages : List ℕ → ℕ → List (JournalEntry × List JournalLine)
  pages [] offset = []
  pages (n ∷ ns) offset =
      list_journal_entries scope from_date to_date n offset t ++ pages ns (offset + n)

  abbrev rows : List JournalEntry
  rows = order_by_recent (keep (listed_between scope from_date to_date) t.entries)

  pages-join :
      (sizes : List ℕ) (offset : ℕ)
      → pages sizes offset ≡ map (entry_with_lines t) (take (total sizes) (drop offset rows))
  unfolding list_journal_entries
  pages-join [] offset = refl
  pages-join (n ∷ ns) offset =
      ap (λ xs. map (entry_with_lines t) (take n (drop offset rows)) ++ xs)
        (pages-join ns (offset + n))
      ∙ sym (
          map-append (entry_with_lines t) (take n (drop offset rows))
            (take (total ns) (drop (offset + n) rows)))
      ∙ ap (map (entry_with_lines t))
          (rw (← drop-add offset n rows) (take-then n (total ns) (drop offset rows)))

  -- Where entries have distinct primary keys, pages of any sizes that are together as large as the
  -- journal, each starting where the one before ends, show exactly the entries of the scope
  -- between the days asked for, each once, the latest day first and on a day the highest key
  -- first, and with each entry the lines that carry its key.
  pub list_journal_entries_pages :
      (sizes : List ℕ)
      → Distinct (map (λ e. e.id) t.entries)
      → length t.entries ≤ total sizes
      → Falls (map (λ r. r.0) (pages sizes 0))
        × Perm (map (λ r. r.0) (pages sizes 0)) (keep (asked scope from_date to_date) t.entries)
        × All (λ (e, ls). ls ≡ keep (λ l. nat_beq l.journal_id e.id) t.lines) (pages sizes 0)
  list_journal_entries_pages sizes d large =
      let chosen = keep (listed_between scope from_date to_date) t.entries in
      let few = length-keep (listed_between scope from_date to_date) t.entries in
      let whole : take (total sizes) rows ≡ rows =
        take-all (total sizes) rows (omega (arith, few, large, order_by_recent-length chosen)) in
      let shown : pages sizes 0 ≡ map (entry_with_lines t) rows =
        pages-join sizes 0 ∙ ap (map (entry_with_lines t)) whole in
      let entries : map (λ r. r.0) (pages sizes 0) ≡ rows =
        ap (map (λ r. r.0)) shown ∙ listed-entries t rows in
      (
        subst Falls (sym entries) (
            order_by_recent-Falls chosen
              (Distinct-keep (λ e. e.id) (listed_between scope from_date to_date) t.entries d)),
        subst (λ es. Perm es (keep (asked scope from_date to_date) t.entries)) (sym entries)
            (subst (Perm rows) (keep-asked scope from_date to_date t.entries)
              (order_by_recent-perm chosen)),
        subst (All (λ (e, ls). ls ≡ keep (λ l. nat_beq l.journal_id e.id) t.lines)) (sym shown)
            (own_lines t rows),
      )
