-- ===== src/Accounting/Lines/Laws.antt =====
-- The validators accept exactly the valid requests.
use mathlib.Core.List.{append_assoc, append-nil}
use sanmitra_backend.Base.{
  ℕ, ◌+◌, ◌≡◌, refl, sym, ap, ◌∙◌, ◌<◌, ◌≤◌, ◌↔◌, inl, inr, String, Bool, true, not, List, [], ◌∷◌,
  ◌++◌, length, All, map, ok, arith, Bool-cases, >>=-eq-ok, raise_if-eq-ok, ltb,
}
use sanmitra_backend.Base.Sums.{sum_of}
use sanmitra_backend.Base.Text.{is_empty}
use sanmitra_backend.Base.Equality.{Eq, ◌==◌, equal_self, nat_eq, string_eq}
use sanmitra_backend.Accounting.Decimal.{Amount, quantize, quantize_cents, precision_limit}
use sanmitra_backend.Accounting.Lines.{
  LineIn, Line, Totals, tally, check_line, check_totals, no_totals, scan, validate_lines,
  validate_journal_lines, validate_source_journal_lines, strip_key,
}
use sanmitra_backend.Accounting.Lines.Spec.{RoundsTo, Fits, AllFit, SpansTwo, IsPosting}

quantize-eq-ok : (a : Amount) (n : ℕ) → (quantize a ≡ ok n) ↔ RoundsTo a n
unfolding quantize
quantize-eq-ok a n = ground arith

module _ {K : Type 0} (key_given : K → Bool) where
  check_line_sound :
      (line : LineIn K) (l : Line K) → check_line key_given line ≡ ok l → Fits key_given line l
  unfolding check_line
  check_line_sound line l h =
      let (d, qd, h₁) = >>=-eq-ok (quantize line.debit) _ h in
      let (c, qc, h₂) = >>=-eq-ok (quantize line.credit) _ h₁ in
      ground (arith, (quantize-eq-ok line.debit d).0 qd, (quantize-eq-ok line.credit c).0 qc)

  check_line_complete :
      (line : LineIn K) (l : Line K) → Fits key_given line l → check_line key_given line ≡ ok l
  unfolding check_line
  check_line_complete line l f =
      rw ((quantize-eq-ok line.debit l.debit).1 f.debit)
        (rw ((quantize-eq-ok line.credit l.credit).1 f.credit) (ground arith))

module _ {K : Type 0} ⦃e : Eq K⦄ where
  -- The loop's variables after lines that pass.
  tally_all : List (Line K) → Totals K → Totals K
  tally_all [] t = t
  tally_all (l ∷ ls) t = tally_all ls (tally l t)

  module _ (key_given : K → Bool) where
    scan_sound :
        (lines : List (LineIn K)) (t : Totals K) {t' : Totals K}
        → scan key_given lines t ≡ ok t'
        → (ls : List (Line K)) × AllFit key_given lines ls × (t' ≡ tally_all ls t)
    unfolding scan tally_all
    scan_sound [] t h = ([], tt, cc)
    scan_sound (line ∷ lines) t h =
        let (l, passed, later) = >>=-eq-ok (check_line key_given line) _ h in
        let (ls, fit, same) = scan_sound lines (tally l t) later in
        (l ∷ ls, (check_line_sound key_given line l passed, fit), same)

    scan_complete :
        (lines : List (LineIn K)) (ls : List (Line K)) (t : Totals K)
        → AllFit key_given lines ls
        → scan key_given lines t ≡ ok (tally_all ls t)
    unfolding scan tally_all
    scan_complete [] [] t f = refl
    scan_complete (line ∷ lines) (l ∷ ls) t (f, fs) =
        rw (check_line_complete key_given line l f) (scan_complete lines ls (tally l t) fs)
    scan_complete [] (l ∷ ls) t f = absurd f
    scan_complete (line ∷ lines) [] t f = absurd f

  tally_all-total_debit :
      (ls : List (Line K)) (t : Totals K)
      → (tally_all ls t).total_debit ≡ t.total_debit + sum_of (λ l. l.debit) ls
  unfolding tally_all
  tally_all-total_debit [] t = omega arith
  tally_all-total_debit (l ∷ ls) t = omega (arith, tally_all-total_debit ls (tally l t))

  tally_all-total_credit :
      (ls : List (Line K)) (t : Totals K)
      → (tally_all ls t).total_credit ≡ t.total_credit + sum_of (λ l. l.credit) ls
  unfolding tally_all
  tally_all-total_credit [] t = omega arith
  tally_all-total_credit (l ∷ ls) t = omega (arith, tally_all-total_credit ls (tally l t))

  tally_all-normalized :
      (ls : List (Line K)) (t : Totals K) → (tally_all ls t).normalized ≡ t.normalized ++ ls
  unfolding tally_all
  tally_all-normalized [] t = sym (append-nil _)
  tally_all-normalized (l ∷ ls) t =
      tally_all-normalized ls (tally l t) ∙ append_assoc t.normalized (l ∷ []) ls

  -- The counters are zero exactly while the sums are.
  abbrev Counted : Totals K → Type 0
  Counted t =
      ((t.debit_lines ≡ 0) ↔ (t.total_debit ≡ 0)) × ((t.credit_lines ≡ 0) ↔ (t.total_credit ≡ 0))

  tally_all-Counted : (ls : List (Line K)) (t : Totals K) → Counted t → Counted (tally_all ls t)
  unfolding tally_all
  tally_all-Counted [] t h = h
  tally_all-Counted (l ∷ ls) t h = tally_all-Counted ls (tally l t) (ground arith, ground arith)

  length-le-tally_all :
      (ls : List (Line K)) (t : Totals K) → length t.keys ≤ length (tally_all ls t).keys
  unfolding tally_all
  length-le-tally_all [] t = omega arith
  length-le-tally_all (l ∷ ls) t = ground (arith, length-le-tally_all ls (tally l t))

  one_key :
      (k : K) (ls : List (Line K)) (t : Totals K)
      → t.keys ≡ k ∷ []
      → All (λ m. m.key ≡ k) ls
      → (tally_all ls t).keys ≡ k ∷ []
  unfolding tally_all
  one_key k [] t only same = only
  one_key k (l ∷ ls) t only (here, later) =
      one_key k ls (tally l t) (ground (arith, equal_self k, ap (λ x. x == k) here)) later

  two_keys :
      (k : K) (ls : List (Line K)) (t : Totals K)
      → t.keys ≡ k ∷ []
      → ¬ All (λ m. m.key ≡ k) ls
      → 2 ≤ length (tally_all ls t).keys
  unfolding tally_all
  two_keys k [] t only differ = absurd (differ tt)
  two_keys k (l ∷ ls) t only differ = elim (Bool-cases (l.key == k)) [
    | inl same ↦
        two_keys k ls (tally l t) (ground arith)
          (λ later. differ ((e.equal_iff l.key k).0 same, later))
    | inr other ↦ ground (arith, length-le-tally_all ls (tally l t))
  ]

module _ {K : Type 0} where
  check_totals_sound :
      (t : Totals K) (td tc : ℕ) (ns : List (Line K))
      → check_totals t ≡ ok (td, tc, ns)
      → (td ≡ t.total_debit)
        × (tc ≡ t.total_credit)
        × (ns ≡ t.normalized)
        × (2 ≤ length t.keys)
        × (td ≡ tc)
        × (td < precision_limit)
  unfolding check_totals quantize_cents
  check_totals_sound t td tc ns h = ground arith

  check_totals_complete :
      (t : Totals K)
      → ¬ (t.debit_lines ≡ 0)
      → ¬ (t.credit_lines ≡ 0)
      → 2 ≤ length t.keys
      → 0 < t.total_debit
      → t.total_debit ≡ t.total_credit
      → t.total_debit < precision_limit
      → check_totals t ≡ ok (t.total_debit, t.total_credit, t.normalized)
  unfolding check_totals quantize_cents
  check_totals_complete t a b c d e f = ground arith

  enough_lines :
      (key_given : K → Bool) (lines : List (LineIn K)) (ls : List (Line K))
      → AllFit key_given lines ls
      → SpansTwo ls
      → 2 ≤ length lines
  enough_lines key_given [] [] f s = absurd s
  enough_lines key_given (line ∷ []) (l ∷ []) f s = absurd (s tt)
  enough_lines key_given (line ∷ more ∷ lines) ls f s = omega arith
  enough_lines key_given [] (l ∷ ls) f s = absurd f
  enough_lines key_given (line ∷ []) [] f s = absurd f
  enough_lines key_given (line ∷ []) (l ∷ m ∷ ls) f s = absurd f.1

  some_side :
      (key_given : K → Bool) (lines : List (LineIn K)) (ls : List (Line K))
      → AllFit key_given lines ls
      → SpansTwo ls
      → 0 < sum_of (λ l. l.debit) ls + sum_of (λ l. l.credit) ls
  some_side key_given [] [] f s = absurd s
  some_side key_given (line ∷ lines) (l ∷ ls) (f, fs) s = ground (arith, f.one_sided)
  some_side key_given [] (l ∷ ls) f s = absurd f
  some_side key_given (line ∷ lines) [] f s = absurd f

  pub IsPosting-positive :
      {key_given : K → Bool} {lines : List (LineIn K)} {td tc : ℕ} {ls : List (Line K)}
      → IsPosting key_given lines td tc ls
      → 0 < td
  IsPosting-positive {key_given} {lines} {ls} p =
      omega (arith, some_side key_given lines ls p.fit p.spans_two, p.debits, p.credits, p.balanced)

module _ {K : Type 0} ⦃e : Eq K⦄ (key_given : K → Bool) where
  SpansTwo-keys : (ls : List (Line K)) → SpansTwo ls ↔ (2 ≤ length (tally_all ls no_totals).keys)
  unfolding tally_all
  SpansTwo-keys [] = (λ s. absurd s, λ h. absurd (omega arith))
  SpansTwo-keys (l ∷ ls) = (
    λ s. two_keys l.key ls (tally l no_totals) refl s,
    λ h same. absurd (omega (arith, ap length (one_key l.key ls (tally l no_totals) refl same))),
  )

  -- The tests after the loop, on the variables that lines `ls` leave.
  IsPosting-check_totals :
      (lines : List (LineIn K)) (td tc : ℕ) (ls ns : List (Line K))
      → AllFit key_given lines ls
      → check_totals (tally_all ls no_totals) ≡ ok (td, tc, ns)
      → IsPosting key_given lines td tc ns
  IsPosting-check_totals lines td tc ls ns fit h =
      let (d, c, n, two, balanced, bounded) = check_totals_sound _ td tc ns h in
      let listed : ns ≡ ls = n ∙ tally_all-normalized ls no_totals in
      rw listed (record {
        fit = fit;
        spans_two = (SpansTwo-keys ls).1 two;
        debits = omega (arith, d, tally_all-total_debit ls no_totals);
        credits = omega (arith, c, tally_all-total_credit ls no_totals);
        balanced = balanced;
        bounded = bounded;
      })

  validate_lines_sound :
      (lines : List (LineIn K)) (td tc : ℕ) (ns : List (Line K))
      → validate_lines key_given lines ≡ ok (td, tc, ns)
      → IsPosting key_given lines td tc ns
  unfolding validate_lines
  validate_lines_sound lines td tc ns h =
      let (_, h₁) = raise_if-eq-ok (ltb (length lines) 2) _ _ h in
      let (t, scanned, h₂) = >>=-eq-ok (scan key_given lines no_totals) _ h₁ in
      let (ls, fit, same) = scan_sound key_given lines no_totals scanned in
      IsPosting-check_totals lines td tc ls ns fit (sym (ap check_totals same) ∙ h₂)

  validate_lines_complete :
      (lines : List (LineIn K)) (td tc : ℕ) (ns : List (Line K))
      → IsPosting key_given lines td tc ns
      → validate_lines key_given lines ≡ ok (td, tc, ns)
  unfolding validate_lines
  validate_lines_complete lines td tc ns p =
      let t = tally_all ns no_totals in
      let d : t.total_debit ≡ td = omega (arith, tally_all-total_debit ns no_totals, p.debits) in
      let c : t.total_credit ≡ tc = omega (arith, tally_all-total_credit ns no_totals, p.credits) in
      let counted : Counted t = tally_all-Counted ns no_totals (ground arith) in
      let positive : 0 < td + tc =
        omega (arith, some_side key_given lines ns p.fit p.spans_two, p.debits, p.credits) in
      let checked : check_totals t ≡ ok (t.total_debit, t.total_credit, t.normalized) =
        check_totals_complete t (λ z. omega (arith, counted.0.0 z, p.balanced))
          (λ z. omega (arith, counted.1.0 z, p.balanced)) ((SpansTwo-keys ns).0 p.spans_two)
          (omega (arith, p.balanced)) (omega (arith, p.balanced)) (omega (arith, p.bounded)) in
      rw (scan_complete key_given lines ns no_totals p.fit) (
        ground (
          arith,
          enough_lines key_given lines ns p.fit p.spans_two,
          checked,
          tally_all-normalized ns no_totals,
        ))

-- `validate_journal_lines` returns the totals and the lines in hundredths exactly for the requests
-- whose lines, rounded half up, are each one-sided, use at least two accounts and balance below
-- 10 ^ 28 hundredths; any other request raises.
pub validate_journal_lines_iff :
    (lines : List (LineIn ℕ)) (td tc : ℕ) (ns : List (Line ℕ))
    → (validate_journal_lines lines ≡ ok (td, tc, ns)) ↔ IsPosting (λ _. true) lines td tc ns
unfolding validate_journal_lines
validate_journal_lines_iff lines td tc ns = (
  validate_lines_sound (λ _. true) lines td tc ns,
  validate_lines_complete (λ _. true) lines td tc ns,
)

-- `validate_source_journal_lines` returns the totals and the lines in hundredths exactly for the
-- requests whose lines have a source account code that is not blank and, with codes stripped and
-- amounts rounded half up, are each one-sided, use at least two codes and balance below 10 ^ 28
-- hundredths; any other request raises.
pub validate_source_journal_lines_iff :
    (lines : List (LineIn String)) (td tc : ℕ) (ns : List (Line String))
    → (validate_source_journal_lines lines ≡ ok (td, tc, ns))
      ↔ IsPosting (λ code. not (is_empty code)) (map strip_key lines) td tc ns
unfolding validate_source_journal_lines
validate_source_journal_lines_iff lines td tc ns = (
  validate_lines_sound _ (map strip_key lines) td tc ns,
  validate_lines_complete _ (map strip_key lines) td tc ns,
)
