-- ===== src/Auth/Otp/Counter.antt =====
-- The counter of wrong codes of one document, after the writes of the services.
use sanmitra_backend.Base.{
  ℕ, ◌+◌, ◌≡◌, ◌≢◌, refl, sym, ap, subst, ◌∙◌, Bool, true, false, Option, none, some, List, [], ◌∷◌,
  ◌++◌, map, leb, nat_beq, nat_beq_iff, all, find, if◌then◌else◌, arith, Bool-cases, inl, inr,
}
use sanmitra_backend.Base.Equality.{contains, nat_eq, string_eq}
use sanmitra_backend.Accounting.Table.{update_row}
use sanmitra_backend.Auth.Otp.{Otp, count_failure}
use sanmitra_backend.Auth.Otp.Guard.{guarded, determines, count_failure-id}

-- The document with an id, and its counter.
abbrev pub find_doc : ℕ → Option (List Otp) → Option Otp
find_doc i none = none
find_doc i (some rows) = find (λ x. nat_beq x.id i) rows

abbrev pub failures : Option Otp → ℕ
failures none = 0
failures (some x) = x.attempts

abbrev pub one_if : Bool → ℕ
one_if b = if b then 1 else 0

abbrev changed : (Otp → Otp) → Option Otp → Option Otp
changed set none = none
changed set (some x) = some (set x)

-- A document after a write to the rows with an id.
find-update_row :
    (k i : ℕ) (set : Otp → Otp)
    → ((r : Otp) → (set r).id ≡ r.id)
    → (rows : List Otp)
    → find (λ x. nat_beq x.id i) (update_row (λ x. x.id) k set rows) ≡ (
        if nat_beq k i
        then changed set (find (λ x. nat_beq x.id i) rows)
        else find (λ x. nat_beq x.id i) rows)
unfolding update_row
find-update_row k i set keeps [] = ground arith
find-update_row k i set keeps (r ∷ rows) = elim (Bool-cases (nat_beq r.id k)) [
  | inl hit ↦
      let own : nat_beq (set r).id i ≡ nat_beq r.id i = ap (λ n. nat_beq n i) (keeps r) in
      rw (hit, own, find-update_row k i set keeps rows) (ground arith)
  | inr miss ↦ rw (miss, find-update_row k i set keeps rows) (ground arith)
]

-- A write that keeps the counters.
pub failures-kept :
    (k i : ℕ) (set : Otp → Otp) (rows : List Otp)
    → ((r : Otp) → (set r).id ≡ r.id)
    → ((r : Otp) → (set r).attempts ≡ r.attempts)
    → failures (find_doc i (some (update_row (λ x. x.id) k set rows)))
      ≡ failures (find_doc i (some rows))
failures-kept k i set rows keeps same =
    ap failures (find-update_row k i set keeps rows) ∙ go (nat_beq k i) (find_doc i (some rows))
  where
    go : (b : Bool) (d : Option Otp) → failures (if b then changed set d else d) ≡ failures d
    go true none = refl
    go true (some r) = same r
    go false d = refl

find-agree :
    (x : Otp) (rows : List Otp) (r : Otp)
    → determines rows x ≡ true
    → find_doc x.id (some rows) ≡ some r
    → r.attempts ≡ x.attempts
find-agree x [] r h g = ground arith
find-agree x (y ∷ rows) r h g = elim (Bool-cases (nat_beq y.id x.id)) [
  | inl hit ↦
      let first : some y ≡ some r = rw hit at g in
      let same : y ≡ r = cc in ap (λ z. z.attempts) (sym same) ∙ ground arith
  | inr miss ↦ find-agree x rows r (ground arith) (rw miss at g)
]

find-there :
    (i : ℕ) (rows : List Otp)
    → contains (map (λ x. x.id) rows) i ≡ true
    → find_doc i (some rows) ≢ none
find-there i [] h = ground arith
find-there i (y ∷ rows) h = elim (Bool-cases (nat_beq y.id i)) [
  | inl hit ↦ rw hit (λ e. ground arith)
  | inr miss ↦ rw miss (find-there i rows (ground arith))
]

count_failure-attempts :
    (wall attempts limit : ℕ) (r : Otp) → (count_failure wall attempts limit r).attempts ≡ attempts
count_failure-attempts wall attempts limit r = elim (Bool-cases (leb limit attempts)) [
  | inl last ↦ rw last refl
  | inr more ↦ rw more refl
]

counted_there :
    (wall limit : ℕ) (x : Otp) (d : Option Otp)
    → d ≢ none
    → ((r : Otp) → d ≡ some r → r.attempts ≡ x.attempts)
    → failures (changed (count_failure wall (x.attempts + 1) limit) d) ≡ failures d + 1
counted_there wall limit x none h same = absurd (h refl)
counted_there wall limit x (some r) h same =
    omega (arith, count_failure-attempts wall (x.attempts + 1) limit r, same r refl)

-- A wrong code is counted against its document.
pub failures-counted :
    (wall limit i : ℕ) (x : Otp) (rows : List Otp)
    → determines rows x ≡ true
    → contains (map (λ r. r.id) rows) x.id ≡ true
    → failures (
        find_doc i
          (some (update_row (λ r. r.id) x.id (count_failure wall (x.attempts + 1) limit) rows)))
      ≡ failures (find_doc i (some rows)) + one_if (nat_beq x.id i)
failures-counted wall limit i x rows h there =
    let set = count_failure wall (x.attempts + 1) limit in
    let found =
      ap failures
        (find-update_row x.id i set (count_failure-id wall (x.attempts + 1) limit) rows) in
    elim (Bool-cases (nat_beq x.id i)) [
      | inl hit ↦
          let own : find_doc x.id (some rows) ≡ find_doc i (some rows) =
            ap (λ k. find_doc k (some rows)) ((nat_beq_iff x.id i).0 hit) in
          let up =
            counted_there wall limit x (find_doc x.id (some rows)) (find-there x.id rows there)
              (λ r. find-agree x rows r h) in
          rw hit (rw hit at found ∙ (rw own at up))
      | inr miss ↦ rw miss (rw miss at found ∙ omega arith)
    ]

pub find-append :
    (i : ℕ) (rows : List Otp) (x : Otp)
    → x.attempts ≡ 0
    → failures (find_doc i (some (rows ++ x ∷ []))) ≡ failures (find_doc i (some rows))
find-append i [] x fresh = elim (Bool-cases (nat_beq x.id i)) [
  | inl hit ↦ rw hit fresh
  | inr miss ↦ rw miss refl
]
find-append i (y ∷ rows) x fresh = elim (Bool-cases (nat_beq y.id i)) [
  | inl hit ↦ rw hit refl
  | inr miss ↦ rw miss (find-append i rows x fresh)
]

pub find-guarded :
    (i : ℕ) (rows : List Otp) (x : Otp)
    → all guarded rows ≡ true
    → find_doc i (some rows) ≡ some x
    → guarded x ≡ true
find-guarded i [] x h g = ground arith
find-guarded i (y ∷ rows) x h g = elim (Bool-cases (nat_beq y.id i)) [
  | inl hit ↦
      let first : some y ≡ some x = rw hit at g in
      let same : y ≡ x = cc in subst (λ z. guarded z ≡ true) same (ground arith)
  | inr miss ↦ find-guarded i rows x (ground arith) (rw miss at g)
]

-- A row's id is an id of the rows.
ids_longer :
    (y : Otp) (rows ys : List Otp)
    → all (λ x. contains (map (λ r. r.id) rows) x.id) ys ≡ true
    → all (λ x. contains (map (λ r. r.id) (y ∷ rows)) x.id) ys ≡ true
ids_longer y rows [] h = refl
ids_longer y rows (x ∷ ys) h = ground (arith, ids_longer y rows ys)

pub own_ids : (rows : List Otp) → all (λ x. contains (map (λ r. r.id) rows) x.id) rows ≡ true
own_ids [] = refl
own_ids (y ∷ rows) = ground (arith, ids_longer y rows rows (own_ids rows))
