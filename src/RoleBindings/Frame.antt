-- ===== src/RoleBindings/Frame.antt =====
-- What the writes to role bindings keep, `createRoleBinding` keeps.
use permission_binder_operat.Prelude.{String, inl, inr, Bool-cases, subst, sym}
use permission_binder_operat.Ownership.{Owner, can_take_ownership}
use permission_binder_operat.Cluster.{RoleBinding, Fetch-cases, Client, System}
use permission_binder_operat.RoleBindings.{
  Grant, desired_binding, overwrite, needs_update, bind_existing, bind_fetched, create_role_binding,
  validate_cluster_role_exists,
}
use permission_binder_operat.RoleBindings.Gate.{written-world, validate-world}

module _ {W : Type 0} (client : Client W) (managed_by now : String) (owner : Owner) (P : W → Type 0)
    (create : (rb : RoleBinding) (w : W) → P w → P (client.role_bindings.create rb w).1)
    (update : (rb : RoleBinding) (w : W) → P w → P (client.role_bindings.update rb w).1) where
  bind_existing-keeps :
      (grant : Grant) (rb : RoleBinding) (s : System W)
      → P s.world
      → P (bind_existing client managed_by now owner grant rb s).1.world
  unfolding bind_existing
  bind_existing-keeps grant rb s p = elim (Bool-cases (can_take_ownership rb.annotations owner)) [
    | inr shut ↦ rw shut p
    | inl free ↦ elim (Bool-cases (needs_update managed_by owner grant rb)) [
      | inr quiet ↦ rw (free, quiet) p
      | inl stale ↦
          rw (free, stale, written-world)
            (update (overwrite managed_by now owner grant rb) s.world p)
    ]
  ]

  bind_fetched-keeps :
      (grant : Grant) (s : System W)
      → P s.world
      → P
          (bind_fetched client managed_by now owner grant
            (client.role_bindings.get (grant.namespace, grant.name) s.world)
            s).1.world
  unfolding bind_fetched
  bind_fetched-keeps grant s p =
      elim (Fetch-cases (client.role_bindings.get (grant.namespace, grant.name) s.world)) [
        | inl (rb, e) ↦ rw e (bind_existing-keeps grant rb s p)
        | inr (inl e) ↦
            rw (e, written-world) (create (desired_binding managed_by now owner grant) s.world p)
        | inr (inr e) ↦ rw e p
      ]

  pub create_role_binding-keeps :
      (grant : Grant) (s : System W)
      → P s.world
      → P (create_role_binding client managed_by now owner grant s).1.world
  unfolding create_role_binding
  create_role_binding-keeps grant s p =
      bind_fetched-keeps grant (validate_cluster_role_exists client grant.cluster_role s).1
        (subst P (sym (validate-world client grant.cluster_role s)) p)
