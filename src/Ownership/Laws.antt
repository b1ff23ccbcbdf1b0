-- ===== src/Ownership/Laws.antt =====
-- What ownership and the gate of the write paths promise of one another.
use permission_binder_operat.Prelude.{
  String, true, ◌≡◌, refl, ◌≢◌, ◌⊎◌, ◌↔◌, none, some, eq_iff, arith,
}
use permission_binder_operat.GoMap.{GoMap, value}
use permission_binder_operat.Ownership.{
  annotation_created_at, annotation_permission_binder, annotation_permission_binder_namespace,
  annotation_orphaned_at, NilMap, read, Owner, is_owned_by, can_take_ownership,
}

-- The owner named by the annotations, whatever its namespace.
abbrev pub Names : NilMap → Owner → Type 0
Names a o = read annotation_permission_binder a ≡ o.name

-- The gate opens exactly for objects that are unclaimed, owned, or marked as orphaned.
pub can_take_ownership_iff :
    (a : NilMap) (o : Owner)
    → (can_take_ownership a o ≡ true) ↔ (
        (read annotation_permission_binder a ≡ "")
        ⊎ (is_owned_by a o ≡ true)
        ⊎ (read annotation_orphaned_at a ≢ ""))
unfolding can_take_ownership
can_take_ownership_iff none o = ground arith
can_take_ownership_iff (some m) o = ground (
  arith,
  eq_iff (value annotation_permission_binder m) "",
  eq_iff (value annotation_orphaned_at m) "",
)

-- An object that carries both annotations and no orphan marker can be taken by one owner only.
pub exclusive :
    (a : NilMap) (o p : Owner)
    → read annotation_permission_binder a ≢ ""
    → read annotation_permission_binder_namespace a ≢ ""
    → read annotation_orphaned_at a ≡ ""
    → can_take_ownership a o ≡ true
    → can_take_ownership a p ≡ true
    → o ≡ p
unfolding can_take_ownership is_owned_by
exclusive none o p named placed held h k = absurd (ground arith)
exclusive (some m) o p named placed held h k = ground (
  arith,
  eq_iff (value annotation_permission_binder m) "",
  eq_iff (value annotation_permission_binder_namespace m) "",
  eq_iff (value annotation_orphaned_at m) "",
  eq_iff (value annotation_permission_binder m) o.name,
  eq_iff (value annotation_permission_binder m) p.name,
  eq_iff (value annotation_permission_binder_namespace m) o.namespace,
  eq_iff (value annotation_permission_binder_namespace m) p.namespace,
)

-- What is owned can be taken.
pub can_take_of_owned :
    (a : NilMap) (o : Owner) → is_owned_by a o ≡ true → can_take_ownership a o ≡ true
unfolding can_take_ownership
can_take_of_owned none o h = ground arith
can_take_of_owned (some m) o h = ground arith

pub is_owned_by-stamp :
    (m : GoMap String) (owner : Owner)
    → value annotation_permission_binder m ≡ owner.name
    → value annotation_permission_binder_namespace m ≡ owner.namespace
    → is_owned_by (some m) owner ≡ true
unfolding is_owned_by
is_owned_by-stamp m owner e f = ground (
  arith,
  eq_iff (value annotation_permission_binder m) owner.name,
  eq_iff (value annotation_permission_binder_namespace m) owner.namespace,
)

pub is_owned_by-read :
    (a : NilMap) (owner : Owner)
    → read annotation_permission_binder a ≡ owner.name
    → read annotation_permission_binder_namespace a ≡ owner.namespace
    → read annotation_created_at a ≢ ""
    → is_owned_by a owner ≡ true
is_owned_by-read none owner e f c = absurd (c refl)
is_owned_by-read (some m) owner e f c = is_owned_by-stamp m owner e f
