-- ===== src/Stamp.antt =====
-- The edits of annotations and labels that `ensureNamespace`, `createRoleBinding` and the SAFE-MODE
-- cleanup make (operator/internal/controller/reconciliation_rolebindings.go,
-- reconciliation_cleanup.go).
pub mod Laws
use permission_binder_operat.Prelude.{
  String, Bool, true, false, not, ◌||◌, Option, none, some, [], ◌==◌, if◌then◌else◌,
}
use permission_binder_operat.GoMap.{GoMap, value, insert, delete}
use permission_binder_operat.Ownership.{
  annotation_orphaned_at, annotation_orphaned_by, orphaned_by_deletion, NilMap,
}

-- `if m == nil { m = make(map[string]string) }`
abbrev pub or_empty : NilMap → GoMap String
or_empty none = []
or_empty (some m) = m

-- A map, and the flag `needsUpdate`.
abbrev pub Draft : Type 0
Draft = GoMap String × Bool

-- `if m[key] != want { m[key] = want; needsUpdate = true }`
unfoldable pub stamp : String → String → Draft → Draft
stamp key want (m, changed) =
    if value key m == want then (m, changed) else (insert key want m, true)

-- `if m[key] == "" { m[key] = want; needsUpdate = true }`
unfoldable pub stamp_missing : String → String → Draft → Draft
stamp_missing key want (m, changed) =
    if value key m == "" then (insert key want m, true) else (m, changed)

-- The adoption: an object marked as orphaned loses both markers.
unfoldable pub unorphan : Draft → Draft
unorphan (m, changed) =
    if value annotation_orphaned_at m == ""
    then (m, changed)
    else (delete annotation_orphaned_by (delete annotation_orphaned_at m), true)

-- The markers that SAFE-MODE cleanup sets.
unfoldable pub mark_orphaned : String → NilMap → NilMap
mark_orphaned now a = some (
    insert annotation_orphaned_by orphaned_by_deletion
      (insert annotation_orphaned_at now (or_empty a)))
