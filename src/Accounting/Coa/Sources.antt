-- ===== src/Accounting/Coa/Sources.antt =====
-- `upsert_source_accounts` and `list_source_accounts` of app/accounting/service.py.
-- A batch's keys are looked up before its rows are added; since added rows join the dictionary,
-- a lookup is one in the rows as they stand.
pub mod Refinement
use sanmitra_backend.Base.{
  ℕ, ◌≡◌, String, Bool, true, false, not, ◌&&◌, ◌||◌, Option, none, some, List, [], ◌∷◌, ◌++◌, map,
  ok, ◌>>=◌, ◌>>◌, raise_if, keep, any, nat_beq,
}
use sanmitra_backend.Base.Text.{is_empty, strip}
use sanmitra_backend.Base.Equality.{◌==◌, contains, nat_eq, string_eq}
use sanmitra_backend.Accounting.Errors.{Outcome, validation, empty_source_code, empty_source_name}
use sanmitra_backend.Accounting.Entities.{
  Scope, scope_eq, AccountType, SourceSystem, CoaSourceAccount, CoaMapping, MappingStatus, active,
  Tables,
}
use sanmitra_backend.Accounting.Store.{Database}
use sanmitra_backend.Accounting.Table.{find_last}
use sanmitra_backend.Accounting.Coa.Systems.{system_eq, status_eq}
use sanmitra_backend.Accounting.Coa.Rows.{has_code, insert_source, save_source}

-- An item of the request, and its normalised form.
pub record CoaSourceAccountIn : Type 0 where
  pub source_system : SourceSystem
  pub source_account_code : String
  pub source_account_name : String
  pub source_account_type : Option AccountType

-- The body of the first loop.
pub normalize_source : CoaSourceAccountIn → Outcome CoaSourceAccountIn
normalize_source item = do
  let code = strip item.source_account_code
  let name = strip item.source_account_name
  raise_if (is_empty code) (validation empty_source_code)
  raise_if (is_empty name) (validation empty_source_name)
  ok (record item { source_account_code = code; source_account_name = name })

pub normalize_sources : List CoaSourceAccountIn → Outcome (List CoaSourceAccountIn)
unfolding normalize_source
normalize_sources [] = ok []
normalize_sources (i ∷ items) = do n ← normalize_source i; ns ← normalize_sources items; ok (n ∷ ns)

-- `existing_by_key.get(key)`
unfoldable pub find_source : Scope → SourceSystem → String → Tables → Option CoaSourceAccount
find_source scope system code t = find_last (has_code scope system code) t.source_accounts

abbrev pub source_row : Scope → CoaSourceAccountIn → CoaSourceAccount
source_row scope item = record {
  id = 0;
  scope = scope;
  source_system = item.source_system;
  source_account_code = item.source_account_code;
  source_account_name = item.source_account_name;
  source_account_type = item.source_account_type;
  is_active = true;
}

abbrev pub rename_source : CoaSourceAccountIn → CoaSourceAccount → CoaSourceAccount
rename_source item r = record r {
  source_account_name = item.source_account_name;
  source_account_type = item.source_account_type;
  is_active = true;
}

-- The `if existing is None` of the second loop; the touched row's id.
pub put_source :
    Database → Scope → CoaSourceAccountIn → Option CoaSourceAccount → Tables → Outcome (ℕ × Tables)
put_source db scope item none t = do
  (r, t') ← insert_source db (source_row scope item) t
  ok (r.id, t')
put_source db scope item (some r) t = do t' ← save_source r (rename_source item) t; ok (r.id, t')

-- The second loop: `touched_accounts`, as ids.
pub put_sources : Database → Scope → List CoaSourceAccountIn → Tables → Outcome (List ℕ × Tables)
unfolding put_source
put_sources db scope [] t = ok ([], t)
put_sources db scope (i ∷ items) t = do
  (id, t') ← put_source db scope i (find_source scope i.source_system i.source_account_code t) t
  (ids, t'') ← put_sources db scope items t'
  ok (id ∷ ids, t'')

pub record SourceView : Type 0 where
  pub source : CoaSourceAccount
  pub mapped : Bool

-- `source_account.id in mapped_ids`: the active mappings of the scope.
abbrev pub is_mapped : Scope → Tables → ℕ → Bool
is_mapped scope t id =
    any (λ m. m.scope == scope && m.status == active && nat_beq m.source_account_id id) t.mappings

abbrev pub source_view : Scope → Tables → CoaSourceAccount → SourceView
source_view scope t r = record { source = r; mapped = is_mapped scope t r.id }

-- `refresh` of the touched rows.
pub refreshed : Tables → List ℕ → List CoaSourceAccount
refreshed t [] = []
refreshed t (id ∷ ids) = keep (λ r. nat_beq r.id id) t.source_accounts ++ refreshed t ids

unfoldable pub upsert_source_accounts :
    Database → Scope → List CoaSourceAccountIn → Tables → Outcome (List SourceView × Tables)
unfolding normalize_sources put_sources refreshed
upsert_source_accounts db scope items t = do
  normalized ← normalize_sources items
  (ids, t') ← put_sources db scope normalized t
  ok (map (source_view scope t') (refreshed t' ids), t')

-- `if source_system:`
abbrev pub of_system : Option SourceSystem → SourceSystem → Bool
of_system none s = true
of_system (some k) s = s == k

unfoldable pub list_source_accounts :
    Database → Scope → Option SourceSystem → Tables → List SourceView
list_source_accounts db scope system t = map (source_view scope t) (
    db.order_by_code
      (keep (λ r. r.scope == scope && of_system system r.source_system) t.source_accounts))
