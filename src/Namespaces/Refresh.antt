-- ===== src/Namespaces/Refresh.antt =====
-- The edits of an existing namespace: it ends up owned, labelled and not orphaned, and a second
-- round finds nothing to change.
use permission_binder_operat.Prelude.{
  String, true, false, ◌≡◌, refl, sym, ◌∙◌, ap, ◌≢◌, none, some, eq_iff, arith,
}
use permission_binder_operat.GoMap.{GoMap, value, lookup}
use permission_binder_operat.GoMap.Laws.{value-nil}
use permission_binder_operat.Ownership.{
  annotation_managed_by, annotation_created_at, annotation_permission_binder,
  annotation_permission_binder_namespace, annotation_orphaned_at, label_managed_by, Owner, NilMap,
  read, is_owned_by,
}
use permission_binder_operat.Ownership.Laws.{is_owned_by-stamp, is_owned_by-read}
use permission_binder_operat.Stamp.{Draft, or_empty}
use permission_binder_operat.Stamp.Laws.{
  stamp_laws, stamp-false, stamp_missing-false, unorphan-false, stamp-kept, stamp_missing-kept,
  stamp_missing-filled, unorphan-kept,
}
use permission_binder_operat.Cluster.{Namespace, StoredNamespace}
use permission_binder_operat.Namespaces.{
  new_namespace, refresh_annotations, refresh_labels, refresh,
}

module _ (managed_by now : String) (owner : Owner) (d : Draft) where
  abbrev edited : GoMap String
  edited = (refresh_annotations managed_by now owner d).0

  value_managed : value annotation_managed_by edited ≡ managed_by
  unfolding refresh_annotations
  value_managed = simp stamp_laws

  value_binder : value annotation_permission_binder edited ≡ owner.name
  unfolding refresh_annotations
  value_binder = simp stamp_laws

  value_binder_namespace : value annotation_permission_binder_namespace edited ≡ owner.namespace
  unfolding refresh_annotations
  value_binder_namespace = simp stamp_laws

  value_orphaned : value annotation_orphaned_at edited ≡ ""
  unfolding refresh_annotations
  value_orphaned = simp stamp_laws (ground (arith, eq_iff (value annotation_orphaned_at d.0) ""))

  value_created : now ≢ "" → value annotation_created_at edited ≢ ""
  unfolding refresh_annotations
  value_created h = stamp_missing-filled annotation_created_at now _ h

-- A draft on which every check passes is left as it is.
refresh_annotations-kept :
    (managed_by now : String) (owner : Owner) (d : Draft)
    → value annotation_orphaned_at d.0 ≡ ""
    → value annotation_managed_by d.0 ≡ managed_by
    → value annotation_permission_binder d.0 ≡ owner.name
    → value annotation_permission_binder_namespace d.0 ≡ owner.namespace
    → value annotation_created_at d.0 ≢ ""
    → refresh_annotations managed_by now owner d ≡ d
unfolding refresh_annotations
refresh_annotations-kept managed_by now owner d o m b n c =
    rw
      (
        unorphan-kept d o,
        stamp-kept _ _ d m,
        stamp-kept _ _ d b,
        stamp-kept _ _ d n,
        stamp_missing-kept _ _ d c,
      )
      refl

-- What `ensureNamespace` makes of a namespace.
pub record IsManaged (managed_by : String) (owner : Owner) (ns : Namespace) : Type 0 where
  pub owned : is_owned_by ns.annotations owner ≡ true
  pub named : read annotation_permission_binder ns.annotations ≡ owner.name
  pub placed : read annotation_permission_binder_namespace ns.annotations ≡ owner.namespace
  pub marked : read annotation_managed_by ns.annotations ≡ managed_by
  pub labelled : read label_managed_by ns.labels ≡ managed_by
  pub adopted : read annotation_orphaned_at ns.annotations ≡ ""
  pub dated : read annotation_created_at ns.annotations ≢ ""

pub refresh-IsManaged :
    (managed_by now : String) (owner : Owner) (ns : Namespace)
    → now ≢ ""
    → IsManaged managed_by owner (refresh managed_by now owner ns).0
unfolding refresh refresh_labels
refresh-IsManaged managed_by now owner ns h =
    let d : Draft = (or_empty ns.annotations, false) in
    record {
      owned =
          is_owned_by-stamp _ owner (value_binder managed_by now owner d)
            (value_binder_namespace managed_by now owner d);
      named = value_binder managed_by now owner d;
      placed = value_binder_namespace managed_by now owner d;
      marked = value_managed managed_by now owner d;
      labelled = simp stamp_laws;
      adopted = value_orphaned managed_by now owner d;
      dated = value_created managed_by now owner d h;
    }

pub new_namespace-IsManaged :
    (managed_by now : String) (owner : Owner) (n : String)
    → now ≢ ""
    → IsManaged managed_by owner (new_namespace managed_by now owner n)
unfolding new_namespace value lookup
new_namespace-IsManaged managed_by now owner n h = record {
  owned = is_owned_by-stamp _ owner refl refl;
  named = refl;
  placed = refl;
  marked = refl;
  labelled = refl;
  adopted = refl;
  dated = h;
}

annotations_false :
    (managed_by now : String) (owner : Owner) (d : Draft)
    → (refresh_annotations managed_by now owner d).1 ≡ false
    → (refresh_annotations managed_by now owner d ≡ d) × (value annotation_created_at d.0 ≢ "")
unfolding refresh_annotations
annotations_false managed_by now owner d h =
    let (dated, f₁, e₁) = stamp_missing-false _ _ _ h in
    let (_, f₂, e₂) = stamp-false _ _ _ f₁ in
    let (_, f₃, e₃) = stamp-false _ _ _ f₂ in
    let (_, f₄, e₄) = stamp-false _ _ _ f₃ in
    let (_, _, e₅) = unorphan-false d f₄ in
    let kept = e₂ ∙ e₃ ∙ e₄ ∙ e₅ in (e₁ ∙ kept, rw kept at dated)

read-or_empty : (k : String) (a : NilMap) → value k (or_empty a) ≡ read k a
read-or_empty k none = value-nil k
read-or_empty k (some m) = refl

-- A nil map has no creation time.
IsManaged-of_values :
    (managed_by : String) (owner : Owner) (ns : Namespace)
    → read annotation_orphaned_at ns.annotations ≡ ""
    → read annotation_managed_by ns.annotations ≡ managed_by
    → read annotation_permission_binder ns.annotations ≡ owner.name
    → read annotation_permission_binder_namespace ns.annotations ≡ owner.namespace
    → read label_managed_by ns.labels ≡ managed_by
    → read annotation_created_at ns.annotations ≢ ""
    → IsManaged managed_by owner ns
IsManaged-of_values managed_by owner ns o m b n l c = record {
  owned = is_owned_by-read ns.annotations owner b n c;
  named = b;
  placed = n;
  marked = m;
  labelled = l;
  adopted = o;
  dated = c;
}

-- A namespace that needs no update is managed already.
pub refresh-false-IsManaged :
    (managed_by now : String) (owner : Owner) (ns : Namespace)
    → (refresh managed_by now owner ns).1 ≡ false
    → IsManaged managed_by owner ns
unfolding refresh refresh_labels
refresh-false-IsManaged managed_by now owner ns h =
    let d : Draft = (or_empty ns.annotations, false) in
    let (labelled, down, _) =
      stamp-false label_managed_by managed_by
        (or_empty ns.labels, (refresh_annotations managed_by now owner d).1) h in
    let (kept, dated) = annotations_false managed_by now owner d down in
    let there = λ (k : String).
      sym (read-or_empty k ns.annotations) ∙ ap (λ (x : Draft). value k x.0) (sym kept) in
    IsManaged-of_values managed_by owner ns
      (there annotation_orphaned_at ∙ value_orphaned managed_by now owner d)
      (there annotation_managed_by ∙ value_managed managed_by now owner d)
      (there annotation_permission_binder ∙ value_binder managed_by now owner d)
      (there annotation_permission_binder_namespace ∙ value_binder_namespace managed_by now owner d)
      (sym (read-or_empty label_managed_by ns.labels) ∙ labelled)
      (rw (read-or_empty annotation_created_at ns.annotations) at dated)

-- A managed namespace needs no update.
pub IsManaged-refresh :
    (managed_by now : String) (owner : Owner) (ns : Namespace)
    → IsManaged managed_by owner ns
    → (refresh managed_by now owner ns).1 ≡ false
unfolding refresh refresh_labels
IsManaged-refresh managed_by now owner ns m =
    let d : Draft = (or_empty ns.annotations, false) in
    let here = λ (k : String). read-or_empty k ns.annotations in
    let kept =
      refresh_annotations-kept managed_by now owner d (here _ ∙ m.adopted) (here _ ∙ m.marked)
        (here _ ∙ m.named) (here _ ∙ m.placed) (rw (here annotation_created_at) m.dated) in
    rw
      (
        kept,
        stamp-kept label_managed_by managed_by (or_empty ns.labels, false)
            (read-or_empty label_managed_by ns.labels ∙ m.labelled),
      )
      refl

-- What the server fills in does not matter.
pub IsManaged-stored :
    (managed_by : String) (owner : Owner) (a b : Namespace)
    → StoredNamespace a b
    → IsManaged managed_by owner a
    → IsManaged managed_by owner b
IsManaged-stored managed_by owner a b (_, noted, labelled) m = record {
  owned = rw (← noted) m.owned;
  named = rw (← noted) m.named;
  placed = rw (← noted) m.placed;
  marked = rw (← noted) m.marked;
  labelled = sym labelled ∙ m.labelled;
  adopted = rw (← noted) m.adopted;
  dated = rw (← noted) m.dated;
}
