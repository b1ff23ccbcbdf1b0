-- ===== src/Tests.antt =====
-- Runs of the definitions on concrete inputs, and the theorems at inputs that meet their hypotheses.
mod Permission
mod Namespaces
mod RoleBindings
mod ServiceAccounts
mod Whitelist
mod NetworkPolicy
mod Provider
mod Reconcile
mod Lab
mod Network
mod Rules
