-- ===== src/Tenants.antt =====
-- Tenants: who may act for which tenant (Access), and whether a tenant is active (Lifecycle).
pub mod Access
pub mod Lifecycle
mod Tests
