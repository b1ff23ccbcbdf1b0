-- ===== src/Permission.antt =====
-- From one whitelist entry to the namespace and role that it grants
-- (operator/internal/controller/reconciliation_configmap.go, reconciliation_helpers.go).
pub mod Dn
pub mod Parse
pub mod LongestFirst
pub mod Prefixes
pub mod RoleName
