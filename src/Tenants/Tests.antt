-- ===== src/Tenants/Tests.antt =====
-- Tenants at concrete inputs, and the theorems there.
use sanmitra_backend.Base.{
  ◌≡◌, ◌↔◌, ◌⊎◌, refl, String, true, false, none, some, List, [], ◌∷◌, ok, err, arith,
}
use sanmitra_backend.Base.Text.{is_empty, strip}
use sanmitra_backend.Base.Text.Ascii.{ascii}
use sanmitra_backend.Base.Equality.{string_eq}
use sanmitra_backend.Base.Collection.Keyed.{Keyed, keyed}
use sanmitra_backend.Tenants.Access.{
  User, Settings, AccountingContext, override_not_allowed_403, resolve_tenant_id, token_tenant,
  header_tenant, resolve_app_key, resolve_accounting_context,
}
use sanmitra_backend.Tenants.Access.Laws.{
  resolve_tenant_id_iff, Admitted, resolve_accounting_context_sound,
}
use sanmitra_backend.Tenants.Lifecycle.{
  Tenant, State, inactive_403, set_tenant_status, serialize_tenant, set_status,
  ensure_tenant_exists, ensure_tenant_is_active,
}
use sanmitra_backend.Tenants.Lifecycle.Requests.{Request, check, ensure, read, change, serve_all}
use sanmitra_backend.Tenants.Lifecycle.Lockout.{
  set_tenant_status_blocks, ensure_tenant_exists_lets_in,
}

abbrev clerk : User
clerk = record {
  tenant_id = some " t1 ";
  role = some "tenant_admin";
  app_key = some "MandirMitra";
  sub = some "u7";
  email = none;
}

abbrev settings : Settings
settings = record {
  allowed_app_keys = "mandirmitra" ∷ "gruhamitra" ∷ "mitrabooks" ∷ [];
  default_app_key = "mandirmitra";
}

other_tenant : resolve_tenant_id clerk (some "t2") none ≡ err override_not_allowed_403
unfolding resolve_tenant_id strip
other_tenant = refl

old_name : resolve_app_key ascii settings (some " GharMitra") ≡ "gruhamitra"
unfolding resolve_app_key strip ascii
old_name = refl

resolve_tenant_id_iff_example : (resolve_tenant_id clerk (some "t1") none ≡ ok "t1") ↔ (
    ("t1" ≡ token_tenant clerk)
    × (is_empty "t1" ≡ false)
    × ((is_empty (header_tenant (some "t1") none) ≡ true)
        ⊎ (header_tenant (some "t1") none ≡ token_tenant clerk)))
resolve_tenant_id_iff_example = resolve_tenant_id_iff clerk (some "t1") none "t1" refl

abbrev clerk_context : AccountingContext
clerk_context = record {
  app_key = "mandirmitra";
  tenant_id = "t1";
  accounting_entity_id = "primary";
  user_id = "u7";
}

clerk_passes :
    resolve_accounting_context ascii settings clerk none none none none "mandirmitra"
    ≡ ok clerk_context
unfolding resolve_accounting_context strip ascii
clerk_passes = refl

resolve_accounting_context_sound_example : Admitted clerk clerk_context
resolve_accounting_context_sound_example =
    resolve_accounting_context_sound ascii settings clerk none none none none "mandirmitra"
      clerk_context clerk_passes

abbrev tenant : String → String → Tenant
tenant id status = record {
  tenant_id = id;
  display_name = none;
  status = some status;
  created_at = some 1;
  updated_at = none;
  updated_by = none;
}

abbrev start : State (Keyed Tenant)
start = record {
  docs = some (("t1", tenant "t1" "active") ∷ ("t2", tenant "t2" "active") ∷ []);
  cache = λ k. none;
}

abbrev later : List Request
later =
    check (some "t1") 4 6
    ∷ check (some "t2") 4 7
    ∷ ensure "t3" (some "Three") "admin" 5 8
    ∷ change "t2" "inactive" "admin" 6 9
    ∷ read "t1"
    ∷ []

t1_changed :
    (set_tenant_status ascii keyed "t1" " Inactive" "admin" 3 5 start).0
    ≡ ok (serialize_tenant (set_status 3 "admin" "inactive" (tenant "t1" "active")))
unfolding set_tenant_status strip ascii keyed
t1_changed = refl

set_tenant_status_blocks_example :
    (ensure_tenant_is_active ascii keyed (some "t1") 9 40 (
      serve_all ascii keyed later
        (set_tenant_status ascii keyed "t1" " Inactive" "admin" 3 5 start).1)).0
    ≡ err inactive_403
unfolding strip ascii
set_tenant_status_blocks_example =
    set_tenant_status_blocks ascii keyed "t1" " Inactive" "admin" 3 5 start _ later 9 40 refl
      t1_changed (refl, (refl, (refl, (refl, (refl, tt)))))

abbrev closed : State (Keyed Tenant)
closed = record { docs = some (("t1", tenant "t1" "inactive") ∷ []); cache = λ k. none }

abbrev reopened : State (Keyed Tenant)
reopened = (ensure_tenant_exists ascii keyed "t1" none "system" 3 5 closed).1

ensure_tenant_exists_lets_in_example :
    ((ensure_tenant_is_active ascii keyed (some "t1") 4 9 reopened).0 ≡ ok tt)
    × (docs : Keyed Tenant) × (reopened.docs ≡ some docs)
    × (d : Tenant) × (keyed.find_one (strip "t1") docs ≡ some d)
    × (d.status ≡ some "inactive")
unfolding strip keyed
ensure_tenant_exists_lets_in_example =
    ensure_tenant_exists_lets_in ascii keyed "t1" none "system" 3 5 closed _
      (tenant "t1" "inactive") 4 9 refl refl refl (omega arith)
