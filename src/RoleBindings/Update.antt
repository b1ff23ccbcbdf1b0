-- ===== src/RoleBindings/Update.antt =====
-- When a role binding is left as it is, and what it holds after an update.
use permission_binder_operat.Prelude.{
  String, true, false, ◌≡◌, refl, sym, ◌∙◌, ap, ◌≢◌, ◌↔◌, none, some, List, [], ◌∷◌, map, eq_iff,
  arith, Bool-cases, inl, inr, is_some,
}
use permission_binder_operat.GoMap.{value, insert, lookup}
use permission_binder_operat.GoMap.Laws.{map_laws}
use permission_binder_operat.Ownership.{
  annotation_managed_by, annotation_created_at, annotation_permission_binder,
  annotation_permission_binder_namespace, annotation_role, annotation_orphaned_at, label_managed_by,
  NilMap, Owner, read, is_owned_by,
}
use permission_binder_operat.Ownership.Laws.{is_owned_by-stamp, is_owned_by-read}
use permission_binder_operat.Stamp.{or_empty}
use permission_binder_operat.Stamp.Laws.{stamp_laws, stamp_missing-filled}
use permission_binder_operat.Cluster.{RoleRef, Subject, RoleBinding, bare, StoredBinding}
use permission_binder_operat.RoleBindings.{
  Grant, group_subject, cluster_role_ref, desired_binding, same_role_ref, same_subject,
  same_subjects, is_stamped, needs_update, restamp, overwrite,
}

-- The annotations and labels as wanted.
pub record IsStamped (managed_by : String) (owner : Owner) (role : String)
    (annotations labels : NilMap) : Type 0 where
  pub owned : is_owned_by annotations owner ≡ true
  pub named : read annotation_permission_binder annotations ≡ owner.name
  pub placed : read annotation_permission_binder_namespace annotations ≡ owner.namespace
  pub marked : read annotation_managed_by annotations ≡ managed_by
  pub noted : read annotation_role annotations ≡ role
  pub labelled : read label_managed_by labels ≡ managed_by
  pub adopted : read annotation_orphaned_at annotations ≡ ""
  pub dated : read annotation_created_at annotations ≢ ""

-- The role binding grants the cluster role to the group, and to nothing else.
pub record IsGranted (managed_by : String) (owner : Owner) (grant : Grant) (rb : RoleBinding)
    : Type 0 where
  pub role : rb.role_ref ≡ cluster_role_ref grant.cluster_role
  pub subject : map bare rb.subjects ≡ group_subject grant.group ∷ []
  pub stamped : IsStamped managed_by owner grant.role rb.annotations rb.labels

pub same_role_ref_sound : (a b : RoleRef) → same_role_ref a b ≡ true → a ≡ b
unfolding same_role_ref
same_role_ref_sound a b h =
    ground (arith, eq_iff a.api_group b.api_group, eq_iff a.kind b.kind, eq_iff a.name b.name)

same_subject_sound : (a b : Subject) → same_subject a b ≡ true → a ≡ b
unfolding same_subject
same_subject_sound a b h = ground (
  arith,
  eq_iff a.api_group b.api_group,
  eq_iff a.kind b.kind,
  eq_iff a.name b.name,
  eq_iff a.namespace b.namespace,
)

same_subjects_sound : (xs ys : List Subject) → same_subjects xs ys ≡ true → xs ≡ ys
unfolding same_subjects
same_subjects_sound [] [] h = refl
same_subjects_sound [] (b ∷ ys) h = absurd (ground arith)
same_subjects_sound (a ∷ xs) [] h = absurd (ground arith)
same_subjects_sound (a ∷ xs) (b ∷ ys) h =
    ground (arith, same_subject_sound a b, same_subjects_sound xs ys)

is_stamped_sound :
    (managed_by : String) (owner : Owner) (grant : Grant) (rb : RoleBinding)
    → is_stamped managed_by owner grant rb ≡ true
    → IsStamped managed_by owner grant.role rb.annotations rb.labels
unfolding is_stamped
is_stamped_sound managed_by owner grant rb h =
    let named : read annotation_permission_binder rb.annotations ≡ owner.name =
      ground (arith, eq_iff (read annotation_permission_binder rb.annotations) owner.name) in
    let placed : read annotation_permission_binder_namespace rb.annotations ≡ owner.namespace =
      ground (
        arith,
        eq_iff (read annotation_permission_binder_namespace rb.annotations) owner.namespace,
      ) in
    let dated : read annotation_created_at rb.annotations ≢ "" =
      ground (arith, eq_iff (read annotation_created_at rb.annotations) "") in
    record {
      owned = is_owned_by-read rb.annotations owner named placed dated;
      named = named;
      placed = placed;
      marked = ground (arith, eq_iff (read annotation_managed_by rb.annotations) managed_by);
      noted = ground (arith, eq_iff (read annotation_role rb.annotations) grant.role);
      labelled = ground (arith, eq_iff (read label_managed_by rb.labels) managed_by);
      adopted = ground (arith, eq_iff (read annotation_orphaned_at rb.annotations) "");
      dated = dated;
    }

labelled_of_stamped :
    (managed_by : String) (owner : Owner) (grant : Grant) (rb : RoleBinding)
    → is_stamped managed_by owner grant rb ≡ true
    → is_some rb.labels ≡ true
unfolding is_stamped
labelled_of_stamped managed_by owner grant rb h = ground arith

some_of_dated : (a : NilMap) → read annotation_created_at a ≢ "" → is_some a ≡ true
some_of_dated none h = absurd (h refl)
some_of_dated (some m) h = refl

is_stamped_complete :
    (managed_by : String) (owner : Owner) (grant : Grant) (rb : RoleBinding)
    → IsStamped managed_by owner grant.role rb.annotations rb.labels
    → is_some rb.labels ≡ true
    → is_stamped managed_by owner grant rb ≡ true
unfolding is_stamped
is_stamped_complete managed_by owner grant rb s l = ground (
  arith,
  l,
  some_of_dated rb.annotations s.dated,
  eq_iff (read annotation_managed_by rb.annotations) managed_by,
  eq_iff (read annotation_permission_binder rb.annotations) owner.name,
  eq_iff (read annotation_permission_binder_namespace rb.annotations) owner.namespace,
  eq_iff (read annotation_role rb.annotations) grant.role,
  eq_iff (read annotation_created_at rb.annotations) "",
  eq_iff (read label_managed_by rb.labels) managed_by,
  eq_iff (read annotation_orphaned_at rb.annotations) "",
)

same_role_ref_complete : (a b : RoleRef) → a ≡ b → same_role_ref a b ≡ true
unfolding same_role_ref
same_role_ref_complete a b h =
    rw h
      (ground (arith, eq_iff b.api_group b.api_group, eq_iff b.kind b.kind, eq_iff b.name b.name))

same_subjects_complete :
    (b : Subject) (xs : List Subject) → xs ≡ b ∷ [] → same_subjects xs (b ∷ []) ≡ true
unfolding same_subjects same_subject
same_subjects_complete b xs h = rw h (
    ground (
      arith,
      eq_iff b.api_group b.api_group,
      eq_iff b.kind b.kind,
      eq_iff b.name b.name,
      eq_iff b.namespace b.namespace,
    ))

-- An existing role binding is left as it is exactly if its role and its subjects are the wanted ones
-- to the letter, its labels are not nil, and its annotations and labels are as wanted.
pub needs_update_iff :
    (managed_by : String) (owner : Owner) (grant : Grant) (rb : RoleBinding)
    → (needs_update managed_by owner grant rb ≡ false) ↔ (
        (rb.role_ref ≡ cluster_role_ref grant.cluster_role)
        × (rb.subjects ≡ group_subject grant.group ∷ [])
        × (is_some rb.labels ≡ true)
        × IsStamped managed_by owner grant.role rb.annotations rb.labels)
unfolding needs_update
needs_update_iff managed_by owner grant rb = (
  λ h. (
    same_role_ref_sound _ _ (ground arith),
    same_subjects_sound _ _ (ground arith),
    labelled_of_stamped managed_by owner grant rb (ground arith),
    is_stamped_sound managed_by owner grant rb (ground arith),
  ),
  λ (r, s, l, st).
      rw
        (
          same_role_ref_complete _ _ r,
          same_subjects_complete _ _ s,
          is_stamped_complete managed_by owner grant rb st l,
        )
        refl,
)

pub needs_update_of_role :
    (managed_by : String) (owner : Owner) (grant : Grant) (rb : RoleBinding)
    → rb.role_ref ≢ cluster_role_ref grant.cluster_role
    → needs_update managed_by owner grant rb ≡ true
needs_update_of_role managed_by owner grant rb h =
    elim (Bool-cases (needs_update managed_by owner grant rb)) [
      | inl stale ↦ stale
      | inr quiet ↦ absurd (h ((needs_update_iff managed_by owner grant rb).0 quiet).0)
    ]

-- The API server fills in the group of a stored subject, and such a role binding is written again
-- each time.
pub needs_update_of_stored_group :
    (managed_by : String) (owner : Owner) (grant : Grant) (rb : RoleBinding) (s : Subject)
    (rest : List Subject)
    → rb.subjects ≡ s ∷ rest
    → s.api_group ≢ ""
    → needs_update managed_by owner grant rb ≡ true
unfolding needs_update same_subjects same_subject
needs_update_of_stored_group managed_by owner grant rb s rest e h =
    rw e (ground (arith, eq_iff s.api_group ""))

module _ (managed_by now : String) (owner : Owner) (grant : Grant) (clock : now ≢ "") where
  restamp-IsStamped :
      (annotations labels : NilMap)
      → IsStamped managed_by owner grant.role
          (some (restamp managed_by now owner grant.role annotations))
          (some (insert label_managed_by managed_by (or_empty labels)))
  unfolding restamp
  restamp-IsStamped annotations labels = record {
    owned = is_owned_by-stamp _ owner (simp (stamp_laws, map_laws)) (simp (stamp_laws, map_laws));
    named = simp (stamp_laws, map_laws);
    placed = simp (stamp_laws, map_laws);
    marked = simp (stamp_laws, map_laws);
    noted = simp (stamp_laws, map_laws);
    labelled = simp map_laws;
    adopted =
        simp (stamp_laws, map_laws)
          (ground (arith, eq_iff (value annotation_orphaned_at (or_empty annotations)) ""));
    dated = stamp_missing-filled annotation_created_at now _ clock;
  }

  pub overwrite-IsGranted :
      (rb : RoleBinding)
      → IsGranted managed_by owner grant (overwrite managed_by now owner grant rb)
  unfolding overwrite
  overwrite-IsGranted rb = record {
    role = refl;
    subject = refl;
    stamped = restamp-IsStamped rb.annotations rb.labels;
  }

  pub desired-IsGranted :
      IsGranted managed_by owner grant (desired_binding managed_by now owner grant)
  unfolding desired_binding value lookup
  desired-IsGranted = record {
    role = refl;
    subject = refl;
    stamped = record {
      owned = is_owned_by-stamp _ owner refl refl;
      named = refl;
      placed = refl;
      marked = refl;
      noted = refl;
      labelled = refl;
      adopted = refl;
      dated = clock;
    };
  }

-- A role binding that is left as it is grants what is wanted.
pub needs_update-false-IsGranted :
    (managed_by : String) (owner : Owner) (grant : Grant) (rb : RoleBinding)
    → needs_update managed_by owner grant rb ≡ false
    → IsGranted managed_by owner grant rb
needs_update-false-IsGranted managed_by owner grant rb h =
    let (r, s, _, st) = (needs_update_iff managed_by owner grant rb).0 h in
    record { role = r; subject = ap (map bare) s; stamped = st }

-- What the server fills in does not matter.
pub IsGranted-stored :
    (managed_by : String) (owner : Owner) (grant : Grant) (a b : RoleBinding)
    → StoredBinding a b
    → IsGranted managed_by owner grant a
    → IsGranted managed_by owner grant b
IsGranted-stored managed_by owner grant a b (_, _, e, f, r, s) g = record {
  role = sym r ∙ g.role;
  subject = sym s ∙ g.subject;
  stamped = rw e at (rw f at g.stamped);
}
