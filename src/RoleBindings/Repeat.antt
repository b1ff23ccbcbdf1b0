-- ===== src/RoleBindings/Repeat.antt =====
-- What a second call of `createRoleBinding` does behind one that has succeeded.
use permission_binder_operat.Prelude.{
  String, Bool, true, false, ◌≡◌, refl, sym, ◌∙◌, ap, ◌≢◌, ◌⊎◌, inl, inr, none, some, [], ◌∷◌,
  Result, ok, arith, Bool-cases, is_some, eq_iff,
}
use permission_binder_operat.Ownership.{
  Owner, NilMap, read, label_managed_by, annotation_orphaned_at,
}
use permission_binder_operat.Ownership.Laws.{can_take_of_owned}
use permission_binder_operat.Cluster.{
  RoleBinding, found, KindLaws, StoredBinding, Client, System, OpError, update_failed,
}
use permission_binder_operat.RoleBindings.{
  Grant, group_subject, needs_update, overwrite, written, count_adoption, bind_fetched,
  create_role_binding, validate_cluster_role_exists,
}
use permission_binder_operat.RoleBindings.Update.{IsGranted, needs_update_iff}
use permission_binder_operat.RoleBindings.Gate.{
  key_of, validate-world, bind_existing_quiet, bind_existing_update, bind_found, validated,
  create_role_binding_lem,
}
use permission_binder_operat.RoleBindings.Outcome.{create_role_binding_outcome}

not_both : {b : Bool} → b ≡ false → b ≡ true → ⊥
not_both h k = ground arith

labels_there :
    {managed_by : String} (labels : NilMap)
    → managed_by ≢ ""
    → read label_managed_by labels ≡ managed_by
    → is_some labels ≡ true
labels_there none marker h = absurd (marker (sym h))
labels_there (some m) marker h = refl

-- The role binding `rb` holds the subject as it was written and `a` is the answer of a call that wrote
-- nothing, or it does not and `a` is the answer of a call that has written it over again.
abbrev pub Repeated :
    {W : Type 0}
    → Client W
    → String
    → String
    → Owner
    → Grant
    → RoleBinding
    → System W
    → Result OpError Bool × System W
    → Type 0
Repeated client managed_by now owner grant rb s a =
    ((rb.subjects ≡ group_subject grant.group ∷ []) × (a ≡ (ok true, s)))
    ⊎ ((rb.subjects ≢ group_subject grant.group ∷ [])
        × (a
            ≡ written client update_failed s
                (client.role_bindings.update (overwrite managed_by now owner grant rb) s.world)))

module _ {W : Type 0} (client : Client W)
    (laws : KindLaws key_of StoredBinding client.role_bindings) (managed_by now : String)
    (owner : Owner) (grant : Grant) where
  abbrev target : String × String
  target = (grant.namespace, grant.name)

  abbrev bind : System W → Result OpError Bool × System W
  bind s =
      bind_fetched client managed_by now owner grant (client.role_bindings.get target s.world) s

  not_adopted :
      (rb : RoleBinding) (s : System W)
      → read annotation_orphaned_at rb.annotations ≡ ""
      → count_adoption client managed_by now owner grant rb s ≡ s
  unfolding count_adoption
  not_adopted rb s h = ground (arith, eq_iff (read annotation_orphaned_at rb.annotations) "")

  granted-needs_update :
      (rb : RoleBinding)
      → managed_by ≢ ""
      → IsGranted managed_by owner grant rb
      → rb.subjects ≡ group_subject grant.group ∷ []
      → needs_update managed_by owner grant rb ≡ false
  granted-needs_update rb marker granted subjects = (needs_update_iff managed_by owner grant rb).1 (
    granted.role,
    subjects,
    labels_there rb.labels marker granted.stamped.labelled,
    granted.stamped,
  )

  -- What a call does where the binding is granted already.
  again :
      (s : System W) (rb : RoleBinding)
      → managed_by ≢ ""
      → client.role_bindings.get target s.world ≡ found rb
      → IsGranted managed_by owner grant rb
      → Repeated client managed_by now owner grant rb s (bind s)
  again s rb marker e granted =
      let free = can_take_of_owned rb.annotations owner granted.stamped.owned in
      let here = bind_found client laws managed_by now owner grant s rb e in
      elim (Bool-cases (needs_update managed_by owner grant rb)) [
        | inr quiet ↦ inl (
          ((needs_update_iff managed_by owner grant rb).0 quiet).1,
          here ∙ bind_existing_quiet client laws managed_by now owner grant rb s free quiet,
        )
        | inl stale ↦ inr (
          λ same. absurd (not_both (granted-needs_update rb marker granted same) stale),
          here
              ∙ bind_existing_update client laws managed_by now owner grant rb s free stale
              ∙ ap
                  (λ (t : System W).
                    written client update_failed t (
                      client.role_bindings.update (overwrite managed_by now owner grant rb)
                        s.world))
                  (not_adopted rb s granted.stamped.adopted),
        )
      ]

  -- Behind a call that has answered "managed", with a marker and a reading of the clock that are not
  -- empty: if the subject is stored as it was written, a second call changes nothing in the cluster, and
  -- if the server has filled anything in there, it updates the role binding once more.
  pub create_role_binding_again :
      (s : System W)
      → now ≢ ""
      → managed_by ≢ ""
      → (create_role_binding client managed_by now owner grant s).0 ≡ ok true
      → (rb : RoleBinding) × (client.role_bindings.get
            (grant.namespace, grant.name)
            (create_role_binding client managed_by now owner grant s).1.world
          ≡ found rb)
        × Repeated client managed_by now owner grant rb
            (validate_cluster_role_exists client grant.cluster_role
              (create_role_binding client managed_by now owner grant s).1).1
            (create_role_binding client managed_by now owner grant
              (create_role_binding client managed_by now owner grant s).1)
  create_role_binding_again s clock marker h =
      let after = (create_role_binding client managed_by now owner grant s).1 in
      let (rb, e, granted) =
        create_role_binding_outcome client laws managed_by now owner grant clock s true h in
      let checked = validated client laws managed_by now owner grant after in
      (
        rb,
        e,
        rw (create_role_binding_lem client laws managed_by now owner grant after) (
            again checked rb marker
              (ap (λ (w : W). client.role_bindings.get target w)
                  (validate-world client grant.cluster_role after)
                ∙ e)
              granted),
      )
