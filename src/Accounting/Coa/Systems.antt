-- ===== src/Accounting/Coa/Systems.antt =====
-- The products that post under their own account codes, and the states of a mapping, compared as
-- the texts of their columns.
use sanmitra_backend.Base.{ℕ, ◌≡◌, ◌↔◌, String, Bool, true, nat_beq, arith}
use sanmitra_backend.Base.Equality.{Eq}
use sanmitra_backend.Accounting.Entities.{
  SourceSystem, ghar_mitra, mandir_mitra, mitra_books, legal_mitra, invest_mitra, MappingStatus,
  active, draft, inactive,
}

abbrev pub system_name : SourceSystem → String
system_name ghar_mitra = "ghar_mitra"
system_name mandir_mitra = "mandir_mitra"
system_name mitra_books = "mitra_books"
system_name legal_mitra = "legal_mitra"
system_name invest_mitra = "invest_mitra"

abbrev system_code : SourceSystem → ℕ
system_code ghar_mitra = 0
system_code mandir_mitra = 1
system_code mitra_books = 2
system_code legal_mitra = 3
system_code invest_mitra = 4

abbrev pub system_beq : SourceSystem → SourceSystem → Bool
system_beq a b = nat_beq (system_code a) (system_code b)

pub system_beq_iff : (a b : SourceSystem) → (system_beq a b ≡ true) ↔ (a ≡ b)
system_beq_iff a b = ground arith

instance abbrev pub system_eq : Eq SourceSystem
system_eq = record { equal = system_beq; equal_iff = system_beq_iff }

abbrev status_code : MappingStatus → ℕ
status_code active = 0
status_code draft = 1
status_code inactive = 2

abbrev pub status_beq : MappingStatus → MappingStatus → Bool
status_beq a b = nat_beq (status_code a) (status_code b)

pub status_beq_iff : (a b : MappingStatus) → (status_beq a b ≡ true) ↔ (a ≡ b)
status_beq_iff a b = ground arith

instance abbrev pub status_eq : Eq MappingStatus
status_eq = record { equal = status_beq; equal_iff = status_beq_iff }
