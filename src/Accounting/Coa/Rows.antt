-- ===== src/Accounting/Coa/Rows.antt =====
-- Rows of coa_source_accounts and coa_mappings that are added or saved, with the constraints of
-- app/accounting/models/entities.py tested at the flush.
use sanmitra_backend.Base.{
  ℕ, String, Bool, not, ◌&&◌, [], ◌∷◌, ◌++◌, map, ok, ◌>>◌, raise_if, any, nat_beq,
}
use sanmitra_backend.Base.Equality.{◌==◌, contains, nat_eq, string_eq}
use sanmitra_backend.Accounting.Errors.{Outcome, integrity, data_error}
use sanmitra_backend.Accounting.Entities.{
  Scope, scope_eq, SourceSystem, CoaSourceAccount, CoaMapping, Tables,
}
use sanmitra_backend.Accounting.Store.{Database, fits}
use sanmitra_backend.Accounting.Table.{update_row}
use sanmitra_backend.Accounting.Coa.Systems.{system_eq}

-- The scope columns.
abbrev pub scope_fits : Scope → Bool
scope_fits s = fits 50 s.app_key && fits 64 s.tenant_id && fits 100 s.accounting_entity_id

-- The column types of `CoaSourceAccount`.
unfoldable pub source_fits : CoaSourceAccount → Bool
source_fits r =
    scope_fits r.scope && fits 50 r.source_account_code && fits 200 r.source_account_name

-- The key of its UNIQUE constraint.
abbrev pub has_code : Scope → SourceSystem → String → CoaSourceAccount → Bool
has_code scope system code r =
    r.scope == scope && r.source_system == system && r.source_account_code == code

unfoldable pub insert_source :
    Database → CoaSourceAccount → Tables → Outcome (CoaSourceAccount × Tables)
unfolding source_fits
insert_source db row t = do
  raise_if (not (source_fits row)) data_error
  raise_if (any (has_code row.scope row.source_system row.source_account_code) t.source_accounts)
      integrity
  let r = record row { id = db.next_id (map (λ r. r.id) t.source_accounts) }
  ok (r, record t { source_accounts = t.source_accounts ++ r ∷ [] })

-- An `UPDATE` of the row that was read.
unfoldable pub save_source :
    CoaSourceAccount → (CoaSourceAccount → CoaSourceAccount) → Tables → Outcome Tables
unfolding source_fits
save_source row set t = do
  raise_if (not (source_fits (set row))) data_error
  ok (record t { source_accounts = update_row (λ r. r.id) row.id set t.source_accounts })

-- The column types of `CoaMapping`.
unfoldable pub mapping_fits : CoaMapping → Bool
mapping_fits m = scope_fits m.scope && fits 120 m.mapped_by

-- Its UNIQUE constraint's key.
abbrev pub maps_source : Scope → ℕ → CoaMapping → Bool
maps_source scope source_id m = m.scope == scope && nat_beq m.source_account_id source_id

-- Its foreign keys.
abbrev pub refers : Tables → CoaMapping → Bool
refers t m =
    contains (map (λ r. r.id) t.source_accounts) m.source_account_id
    && contains (map (λ a. a.id) t.accounts) m.canonical_account_id

unfoldable pub insert_mapping : Database → CoaMapping → Tables → Outcome (CoaMapping × Tables)
unfolding mapping_fits
insert_mapping db row t = do
  raise_if (not (mapping_fits row)) data_error
  raise_if (any (maps_source row.scope row.source_account_id) t.mappings) integrity
  raise_if (not (refers t row)) integrity
  let m = record row { id = db.next_id (map (λ m. m.id) t.mappings) }
  ok (m, record t { mappings = t.mappings ++ m ∷ [] })

unfoldable pub save_mapping : CoaMapping → (CoaMapping → CoaMapping) → Tables → Outcome Tables
unfolding mapping_fits
save_mapping row set t = do
  raise_if (not (mapping_fits (set row))) data_error
  raise_if (not (refers t (set row))) integrity
  ok (record t { mappings = update_row (λ m. m.id) row.id set t.mappings })
