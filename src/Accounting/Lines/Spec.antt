-- ===== src/Accounting/Lines/Spec.antt =====
-- What a valid journal request is, without the loop: an independent description of the results of
-- `validate_journal_lines` and `validate_source_journal_lines`.
use sanmitra_backend.Base.{ℕ, ◌≡◌, ◌<◌, ◌⊎◌, Bool, true, List, [], ◌∷◌, All}
use sanmitra_backend.Base.Sums.{sum_of}
use sanmitra_backend.Accounting.Decimal.{Amount, round_half_up, precision_limit}
use sanmitra_backend.Accounting.Lines.{LineIn, Line}

-- An amount in hundredths, rounded half up, that fits the 28 digits.
abbrev pub RoundsTo : Amount → ℕ → Type 0
RoundsTo a n = (n ≡ round_half_up a) × (n < precision_limit)

-- Exactly one side of the line is positive.
abbrev pub OneSided : {K : Type 0} → Line K → Type 0
OneSided l = ((0 < l.debit) × (l.credit ≡ 0)) ⊎ ((l.debit ≡ 0) × (0 < l.credit))

module _ {K : Type 0} where
  pub record Fits (key_given : K → Bool) (line : LineIn K) (l : Line K) : Type 0 where
    pub same_key : l.key ≡ line.key
    pub given : key_given line.key ≡ true
    pub debit : RoundsTo line.debit l.debit
    pub credit : RoundsTo line.credit l.credit
    pub one_sided : OneSided l

  abbrev pub AllFit : (K → Bool) → List (LineIn K) → List (Line K) → Type 0
  AllFit given [] [] = Unit
  AllFit given (line ∷ lines) (l ∷ ls) = Fits given line l × AllFit given lines ls
  AllFit given _ _ = ⊥

  -- At least two different keys occur.
  abbrev pub SpansTwo : List (Line K) → Type 0
  SpansTwo [] = ⊥
  SpansTwo (l ∷ ls) = ¬ All (λ m. m.key ≡ l.key) ls

  -- The lines that pass, and what is returned for them.
  pub record IsPosting (key_given : K → Bool) (lines : List (LineIn K))
      (total_debit total_credit : ℕ) (normalized : List (Line K)) : Type 0 where
    pub fit : AllFit key_given lines normalized
    pub spans_two : SpansTwo normalized
    pub debits : total_debit ≡ sum_of (λ l. l.debit) normalized
    pub credits : total_credit ≡ sum_of (λ l. l.credit) normalized
    pub balanced : total_debit ≡ total_credit
    pub bounded : total_debit < precision_limit
