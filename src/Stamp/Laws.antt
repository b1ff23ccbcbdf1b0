-- ===== src/Stamp/Laws.antt =====
-- The values that the edits leave, key by key, and when they change nothing.
use permission_binder_operat.Prelude.{
  String, false, ◌&&◌, ◌≡◌, ◌≢◌, none, some, [], ◌==◌, eq_refl, eq_iff, if◌then◌else◌, arith,
}
use permission_binder_operat.GoMap.{value, insert, delete}
use permission_binder_operat.GoMap.Laws.{value-insert, value-delete, value-nil}
use permission_binder_operat.Ownership.{
  annotation_orphaned_at, annotation_orphaned_by, orphaned_by_deletion, NilMap, read,
}
use permission_binder_operat.Stamp.{Draft, stamp, stamp_missing, unorphan, mark_orphaned}

pub value-stamp :
    (k j v : String) (d : Draft) → value j (stamp k v d).0 ≡ (if k == j then v else value j d.0)
unfolding stamp
value-stamp k j v (m, c) = ground (arith, value-insert k j v m, eq_iff (value k m) v, eq_iff k j)

pub value-stamp_missing :
    (k j v : String) (d : Draft)
    → value j (stamp_missing k v d).0 ≡ (if k == j && (value k d.0 == "") then v else value j d.0)
unfolding stamp_missing
value-stamp_missing k j v (m, c) = ground (arith, value-insert k j v m, eq_iff k j)

pub value-unorphan :
    (j : String) (d : Draft)
    → value j (unorphan d).0 ≡ (
        if value annotation_orphaned_at d.0 == ""
        then value j d.0
        else if annotation_orphaned_at == j
        then ""
        else if annotation_orphaned_by == j
        then ""
        else value j d.0)
unfolding unorphan
value-unorphan j (m, c) = ground (
  arith,
  value-delete annotation_orphaned_at j m,
  value-delete annotation_orphaned_by j (delete annotation_orphaned_at m),
)

pub ruleset stamp_laws = (value-stamp, value-stamp_missing, value-unorphan)

-- An edit that finds the value there leaves the draft as it is.
pub stamp-kept : (k v : String) (d : Draft) → value k d.0 ≡ v → stamp k v d ≡ d
unfolding stamp
stamp-kept k v (m, c) h = ground (arith, eq_iff (value k m) v)

pub stamp_missing-kept : (k v : String) (d : Draft) → value k d.0 ≢ "" → stamp_missing k v d ≡ d
unfolding stamp_missing
stamp_missing-kept k v (m, c) h = ground (arith, eq_iff (value k m) "")

pub unorphan-kept : (d : Draft) → value annotation_orphaned_at d.0 ≡ "" → unorphan d ≡ d
unfolding unorphan
unorphan-kept (m, c) h = ground (arith, eq_iff (value annotation_orphaned_at m) "")

-- After the check for a missing value there is one.
pub stamp_missing-filled :
    (k v : String) (d : Draft) → v ≢ "" → value k (stamp_missing k v d).0 ≢ ""
unfolding stamp_missing
stamp_missing-filled k v (m, c) h =
    ground (arith, eq_iff (value k m) "", value-insert k k v m, eq_refl k)

-- The markers of the cleanup are read back, and everything else is as before.
pub read-mark_orphaned :
    (j now : String) (a : NilMap)
    → read j (mark_orphaned now a) ≡ (
        if annotation_orphaned_by == j
        then orphaned_by_deletion
        else if annotation_orphaned_at == j
        then now
        else read j a)
unfolding mark_orphaned
read-mark_orphaned j now none = ground (
  arith,
  value-insert annotation_orphaned_by j orphaned_by_deletion (insert annotation_orphaned_at now []),
  value-insert annotation_orphaned_at j now [],
  value-nil j,
)
read-mark_orphaned j now (some m) = ground (
  arith,
  value-insert annotation_orphaned_by j orphaned_by_deletion (insert annotation_orphaned_at now m),
  value-insert annotation_orphaned_at j now m,
)

-- An edit that leaves the flag down has found everything in place.
pub stamp-false :
    (k v : String) (d : Draft)
    → (stamp k v d).1 ≡ false
    → (value k d.0 ≡ v) × (d.1 ≡ false) × (stamp k v d ≡ d)
unfolding stamp
stamp-false k v (m, c) h = ground (arith, eq_iff (value k m) v)

pub stamp_missing-false :
    (k v : String) (d : Draft)
    → (stamp_missing k v d).1 ≡ false
    → (value k d.0 ≢ "") × (d.1 ≡ false) × (stamp_missing k v d ≡ d)
unfolding stamp_missing
stamp_missing-false k v (m, c) h = ground (arith, eq_iff (value k m) "")

pub unorphan-false :
    (d : Draft)
    → (unorphan d).1 ≡ false
    → (value annotation_orphaned_at d.0 ≡ "") × (d.1 ≡ false) × (unorphan d ≡ d)
unfolding unorphan
unorphan-false (m, c) h = ground (arith, eq_iff (value annotation_orphaned_at m) "")
