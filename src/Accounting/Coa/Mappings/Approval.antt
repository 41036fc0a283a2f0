-- ===== src/Accounting/Coa/Mappings/Approval.antt =====
-- What an approval leaves to approve.
use sanmitra_backend.Base.{
  ℕ, String, Bool, not, ◌&&◌, Option, List, map, keep, any, nat_beq, if◌then◌else◌,
}
use sanmitra_backend.Base.Equality.{◌==◌, nat_eq, string_eq}
use sanmitra_backend.Accounting.Entities.{
  Scope, scope_eq, SourceSystem, CoaSourceAccount, CoaMapping, active, Tables,
}
use sanmitra_backend.Accounting.Coa.Systems.{system_eq, status_eq}
use sanmitra_backend.Accounting.Coa.Mappings.{in_use, code_in, approve_row, mappings_of}
use sanmitra_backend.Accounting.Coa.Mappings.Invariant.{with_mappings}

module _ (by : String) (now : ℕ) where
  -- Whether a row is one of the drafts of `ms`.
  abbrev marked : List CoaMapping → CoaMapping → Bool
  marked ms x = any (λ m. not (m.status == active) && nat_beq x.id m.id) ms

  abbrev mark : List CoaMapping → CoaMapping → CoaMapping
  mark ms x = if marked ms x then approve_row by now x else x

module _ (scope : Scope) (system : SourceSystem) (by later_by : String)
    (source_account_codes codes : Option (List String)) (now later : ℕ) (t : Tables) where
  abbrev chosen : List CoaSourceAccount
  chosen =
      keep (λ r. in_use scope system r && code_in codes r.source_account_code) t.source_accounts

  abbrev drafts : List CoaMapping
  drafts = mappings_of scope chosen t

  abbrev settled : Tables
  settled = with_mappings t (map (mark by now drafts) t.mappings)
