-- ===== src/Lib.antt =====
-- Verification of the permission binder operator, a Kubernetes operator in Go that reads a whitelist
-- of LDAP group names from a ConfigMap and keeps namespaces, role bindings, ServiceAccounts and
-- NetworkPolicies in line with it (operator/internal/controller).
--
-- The parts and where they are modelled:
-- - Permission: from a whitelist line to a namespace, a role and a group
--   (reconciliation_configmap.go: extractCNFromDN, parsePermissionString,
--   parsePermissionStringWithPrefixes; reconciliation_helpers.go: the role in the name of a role
--   binding; ldap_helper.go: ParseCN).
-- - Ownership: isOwnedBy and canTakeOwnership of reconciliation_cleanup.go, the gate that every
--   write to an existing object passes.
-- - Cluster: the Kubernetes client, the objects and the metrics; Cluster/Memory is a cluster in memory.
-- - Stamp: the edits of annotations and labels that the writers share.
-- - Namespaces, RoleBindings: ensureNamespace, validateClusterRoleExists and createRoleBinding of
--   reconciliation_rolebindings.go.
-- - Cleanup: cleanupManagedResources and reconcileAllManagedResources of reconciliation_cleanup.go.
-- - ServiceAccounts: service_account_helper.go.
-- - Whitelist: processConfigMap of reconciliation_configmap.go, which calls Permission, Namespaces,
--   RoleBindings and ServiceAccounts line by line.
-- - Reconcile: the main loop, Reconcile of reconciliation_main.go, with the hash of the role mapping;
--   it calls Cleanup and Whitelist, and Reconcile/Network joins NetworkPolicy/Run to it.
-- - Watch: the event filters of predicates.go and controller_setup.go.
-- - NetworkPolicy, the files of operator/internal/controller/networkpolicy: Run is the block of
--   Reconcile (reconciliation_main.go) that calls Batch (reconciliation_batch.go), Removed
--   (reconciliation_cleanup.go) and Periodic (reconciliation_periodic.go) one after the other, with the
--   warning of reconciliation_validation.go. Batch calls Single (reconciliation_single.go) for a
--   namespace, whose files are chosen by Plan from Sources (templates and backups:
--   network_policy_template_simple.go, network_policy_backup_simple.go, git_credentials.go), cleaned by
--   Clean, and written through Disk (git_file_operations.go) and Kustomization
--   (network_policy_kustomization_simple.go). Periodic compares with Drift (network_policy_drift.go).
--   Status and Provider are network_policy_status.go and network_policy_utils.go, Policies the
--   settings, Git the record of the Git operations and the provider, and Json decoded objects.
-- - Prelude, GoString, GoMap, GoSort, GoPath: shared names, the operations of Go's strings, sort and
--   path/filepath packages, and Go maps.
-- - Tests: runs on concrete inputs, and the theorems at inputs that meet their hypotheses.
--
-- How the code is modelled:
-- - A function of the operator becomes a function with a lower-case name made from the Go name; a
--   long function is cut where its branches and loops are. State is passed explicitly: `System` holds
--   the state of the cluster, of any type, and the metrics that were incremented, the latest first.
-- - The Kubernetes client is a record of functions, `Client`. A theorem that relies on the API server
--   takes `KindLaws`, the documented behaviour of reads and writes, and says where a write is taken to
--   succeed. Writes to one kind are taken not to change another where a theorem says so.
-- - Go strings are valid UTF-8 texts. A Go map is an association list in the order in which `range`
--   meets its entries, so that a theorem for all lists is one for all orders; a nil map is `none`.
-- - The clock is an argument, one reading for a call. Error values are constructors by the call that
--   failed. Log lines, contexts and pauses are left out.
-- - SHA-256, regular expressions, JSON and YAML, the parsing of times and of URLs are functions of the
--   caller, and so are the calls of the os package, with the laws of a file system in `DiskLaws`.
-- - The settings of the NetworkPolicy part are those at the start of the run, and a PermissionBinder
--   that a status writer fetches anew gives its status entries only. A removal of the clone that the
--   source defers comes at the end. Times are counted in seconds, and a read interval is not negative.
-- - A sort by text is one by insertion: the order of elements with the same text is that of the list,
--   which Go leaves open.
--
-- Bounds: the sort by length makes as many rounds as there are elements, which orders the whole
-- list; the batches take as many rounds as there are namespaces, and every round takes one away; the
-- writers with retries have three attempts, as in the source. All other loops are over lists.
--
-- Not modelled: git_api.go, git_cli.go and git_security.go, whose operations are the record `Git`;
-- the LDAP server; the gauges of metrics.go (of the metrics only the increments on the way are kept,
-- and the main loop does not pass on those of the NetworkPolicy part); the entry point and the
-- generated code.
pub mod Prelude
pub mod GoString
pub mod GoMap
pub mod GoSort
pub mod GoPath
pub mod Permission
pub mod Ownership
pub mod Cluster
pub mod Stamp
pub mod Namespaces
pub mod RoleBindings
pub mod Tests
pub mod Cleanup
pub mod ServiceAccounts
pub mod Whitelist
pub mod NetworkPolicy
pub mod Watch
pub mod Reconcile
