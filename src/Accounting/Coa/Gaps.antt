-- ===== src/Accounting/Coa/Gaps.antt =====
-- `suggest_canonical_account` and `get_coa_mapping_gaps` of app/accounting/service.py. Rows come in
-- the table's order. A quotient of two sizes is compared as a fraction, as doubles compare for
-- sizes below 2 ^ 26; the rounded `0.5 + score * 0.4` is the parameter `confidence`, in hundredths,
-- and `str.isalnum` the parameter `is_alnum`.
pub mod Counts
pub mod Suggestions
use Prim.Native.Char.{code}
use Prim.Native.String.{[] as nil, ◌∷◌ as cons}
use sanmitra_backend.Base.{
  ℕ, ◌+◌, ◌*◌, String, Bool, true, false, not, ◌&&◌, ◌||◌, Option, none, some, List, [], ◌∷◌, map,
  keep, find, length, ltb, leb, nat_beq, if◌then◌else◌,
}
use sanmitra_backend.Base.Text.{is_empty, strip, Casing, text_length}
use sanmitra_backend.Base.Equality.{◌==◌, contains, add, nat_eq, string_eq}
use sanmitra_backend.Accounting.Entities.{
  Scope, scope_eq, Account, AccountType, SourceSystem, CoaSourceAccount, active, Tables,
}
use sanmitra_backend.Accounting.Coa.Mappings.{in_use, mappings_of, ids_with}

pub data Reason : Type 0 where
  exact_code_match exact_name_match token_similarity : Reason

pub record Suggestion : Type 0 where
  pub canonical_account_id : ℕ
  pub canonical_account_name : String
  pub confidence : ℕ
  pub reason : Reason

pub record Gap : Type 0 where
  pub source_system : SourceSystem
  pub source_account_code : String
  pub source_account_name : String
  pub source_account_type : Option AccountType
  pub suggestion : Option Suggestion

abbrev pub suggestion_of : ℕ → Reason → Account → Suggestion
suggestion_of confidence reason a = record {
  canonical_account_id = a.id;
  canonical_account_name = a.name;
  confidence = confidence;
  reason = reason;
}

-- `[a-zA-Z0-9]`
abbrev pub is_word : ℕ → Bool
is_word c = leb 97 c && leb c 122 || leb 65 c && leb c 90 || leb 48 c && leb c 57

abbrev pub stop_words : List String
stop_words = "the" ∷ "and" ∷ "for" ∷ "with" ∷ "account" ∷ "ac" ∷ "a" ∷ "an" ∷ []

-- The test of the set comprehension.
abbrev pub add_token : String → List String → List String
add_token w ws = if ltb 2 (text_length w) && not (contains stop_words w) then add ws w else ws

-- The run of word characters that a text starts with, and the tokens after it.
abbrev pub runs : String → String × List String
runs nil = (nil, [])
runs (cons c s) =
    let (w, ws) = runs s in if is_word (code c) then (cons c w, ws) else (nil, add_token w ws)

-- An account and its score, as the sizes of two sets.
pub record Scored : Type 0 where
  pub account : Option Account
  pub overlap : ℕ
  pub union : ℕ

-- `if overlap > best_score`
abbrev pub better : Account → List String → List String → Scored → Scored
better a xs ys best =
    let overlap = length (keep (λ y. contains xs y) ys) in
    let union = length xs + length (keep (λ y. not (contains xs y)) ys) in
    if ltb (best.overlap * union) (overlap * best.union)
    then record { account = some a; overlap = overlap; union = union }
    else best

module _ (python : Casing) (is_alnum : ℕ → Bool) (confidence : ℕ → ℕ → ℕ) where
  -- The characters of a text that `isalnum` accepts.
  abbrev pub alnum_text : String → String
  alnum_text nil = nil
  alnum_text (cons c s) = if is_alnum (code c) then cons c (alnum_text s) else alnum_text s

  -- `_normalize_key`
  abbrev pub normalize_key : String → String
  normalize_key value = alnum_text (python.lower (strip value))

  -- `_tokenize`, a list without repetition.
  abbrev pub tokenize : String → List String
  tokenize value = let (w, ws) = runs (python.lower value) in add_token w ws

  abbrev pub has_code : String → Account → Bool
  has_code source_code a = elim a.code [
    | none ↦ false
    | some c ↦ not (is_empty c) && python.lower (strip c) == python.lower (strip source_code)
  ]

  -- The loop over the accounts.
  abbrev pub best_match : List String → List Account → Scored → Scored
  best_match tokens [] best = best
  best_match tokens (a ∷ accounts) best = best_match tokens accounts (
      if nat_beq (length (tokenize a.name)) 0 then best else better a tokens (tokenize a.name) best)

  abbrev pub similar : String → List Account → Option Suggestion
  similar source_name accounts =
      let tokens = tokenize source_name in
      let best =
        if nat_beq (length tokens) 0
        then record { account = none; overlap = 0; union = 1 }
        else best_match tokens accounts (record { account = none; overlap = 0; union = 1 }) in
      elim best.account [
        | none ↦ none
        | some a ↦
            if ltb (best.overlap * 5) (best.union * 2)
            then none
            else some (suggestion_of (confidence best.overlap best.union) token_similarity a)
      ]

  unfoldable pub suggest_canonical_account : String → String → List Account → Option Suggestion
  suggest_canonical_account source_code source_name accounts =
      elim (find (has_code source_code) accounts) [
        | some a ↦ some (suggestion_of 99 exact_code_match a)
        | none ↦ elim (find (λ a. normalize_key a.name == normalize_key source_name) accounts) [
          | some a ↦ some (suggestion_of 90 exact_name_match a)
          | none ↦ similar source_name accounts
        ]
      ]

  abbrev pub gap_of : List Account → CoaSourceAccount → Gap
  gap_of accounts r = record {
    source_system = r.source_system;
    source_account_code = r.source_account_code;
    source_account_name = r.source_account_name;
    source_account_type = r.source_account_type;
    suggestion = suggest_canonical_account r.source_account_code r.source_account_name accounts;
  }

  unfoldable pub get_coa_mapping_gaps : Scope → SourceSystem → Tables → List Gap
  get_coa_mapping_gaps scope system t =
      let sources = keep (in_use scope system) t.source_accounts in
      let mapped = ids_with active (mappings_of scope sources t) in
      map (gap_of (keep (λ a. a.scope == scope) t.accounts))
        (keep (λ r. not (contains mapped r.id)) sources)
