-- ===== src/Whitelist/Gate.antt =====
-- A whole run of `processConfigMap` leaves alone what other PermissionBinders have a live claim on.
use permission_binder_operat.Prelude.{String, false, ◌≡◌, ◌∙◌}
use permission_binder_operat.GoMap.{GoMap}
use permission_binder_operat.Ownership.{Owner, can_take_ownership}
use permission_binder_operat.Cluster.{
  Namespace, RoleBinding, ServiceAccount, found, KindLaws, StoredNamespace, StoredBinding, Client,
  System,
}
use permission_binder_operat.Namespaces.Gate.{ensure_namespace-foreign}
use permission_binder_operat.Namespaces.Frame.{ensure_namespace-keeps}
use permission_binder_operat.RoleBindings.Gate.{key_of, create_role_binding-foreign}
use permission_binder_operat.RoleBindings.Frame.{create_role_binding-keeps}
use permission_binder_operat.ServiceAccounts.Gate.{
  Apart, process_service_accounts-foreign, process_service_accounts-keeps,
}
use permission_binder_operat.Whitelist.{Spec, setting, process_config_map}
use permission_binder_operat.Whitelist.Steps.{process_config_map-keeps}

-- The operations on the namespaces and those on the other kinds do not meet.
pub record NamespacesApart {W : Type 0} (client : Client W) : Type 0 where
  pub binding-namespace_create :
      (ns : Namespace) (w : W) (k : String × String)
      → client.role_bindings.get k (client.namespaces.create ns w).1 ≡ client.role_bindings.get k w
  pub binding-namespace_update :
      (ns : Namespace) (w : W) (k : String × String)
      → client.role_bindings.get k (client.namespaces.update ns w).1 ≡ client.role_bindings.get k w
  pub namespace-binding_create :
      (rb : RoleBinding) (w : W) (k : String)
      → client.namespaces.get k (client.role_bindings.create rb w).1 ≡ client.namespaces.get k w
  pub namespace-binding_update :
      (rb : RoleBinding) (w : W) (k : String)
      → client.namespaces.get k (client.role_bindings.update rb w).1 ≡ client.namespaces.get k w
  pub namespace-binding_remove :
      (rb : RoleBinding) (w : W) (k : String)
      → client.namespaces.get k (client.role_bindings.remove rb w).1 ≡ client.namespaces.get k w
  pub namespace-account_create :
      (sa : ServiceAccount) (w : W) (k : String)
      → client.namespaces.get k (client.service_accounts.create sa w).1 ≡ client.namespaces.get k w

module _ {W : Type 0} (client : Client W) (apart : NamespacesApart client) (managed_by now : String)
    (owner : Owner) (spec : Spec) where
  -- No role binding that another PermissionBinder has a live claim on is changed by a run, whatever
  -- the ConfigMap holds and whether or not the calls succeed.
  pub process_config_map-bindings :
      KindLaws key_of StoredBinding client.role_bindings
      → Apart client
      → (entries : GoMap String) (s : System W) (k : String × String) (rb : RoleBinding)
      → client.role_bindings.get k s.world ≡ found rb
      → can_take_ownership rb.annotations owner ≡ false
      → client.role_bindings.get k
          (process_config_map client managed_by now owner spec entries s).1.world
        ≡ found rb
  process_config_map-bindings laws split entries s k rb e shut =
      process_config_map-keeps client managed_by now owner spec
        (λ (w : W). client.role_bindings.get k w ≡ found rb)
        (λ n t p.
          ensure_namespace-keeps client managed_by now owner
            (λ (w : W). client.role_bindings.get k w ≡ found rb)
            (λ ns w q. apart.binding-namespace_create ns w k ∙ q)
            (λ ns w q. apart.binding-namespace_update ns w k ∙ q) n t p)
        (λ grant. Unit {0})
        (λ grant t good p.
          create_role_binding-foreign client laws managed_by now owner grant k t rb p shut)
        (λ n mapping t p.
          process_service_accounts-foreign client laws (setting client managed_by now owner spec n)
            split mapping t k rb p shut)
        (λ grant. tt) entries s e

  -- No namespace that another PermissionBinder has a live claim on is changed by a run, whatever the
  -- ConfigMap holds and whether or not the calls succeed.
  pub process_config_map-namespaces :
      KindLaws (λ (ns : Namespace). ns.name) StoredNamespace client.namespaces
      → (entries : GoMap String) (s : System W) (n : String) (ns : Namespace)
      → client.namespaces.get n s.world ≡ found ns
      → can_take_ownership ns.annotations owner ≡ false
      → client.namespaces.get n
          (process_config_map client managed_by now owner spec entries s).1.world
        ≡ found ns
  process_config_map-namespaces laws entries s n ns e shut =
      let P : W → Type 0 = λ w. client.namespaces.get n w ≡ found ns in
      process_config_map-keeps client managed_by now owner spec P
        (λ m t p. ensure_namespace-foreign client laws managed_by now owner m n t ns p shut)
        (λ grant. Unit {0})
        (λ grant t good p.
          create_role_binding-keeps client managed_by now owner P
            (λ rb w q. apart.namespace-binding_create rb w n ∙ q)
            (λ rb w q. apart.namespace-binding_update rb w n ∙ q) grant t p)
        (λ m mapping t p.
          process_service_accounts-keeps client (setting client managed_by now owner spec m) P
            (λ sa w q. apart.namespace-account_create sa w n ∙ q)
            (λ rb w q. apart.namespace-binding_create rb w n ∙ q)
            (λ rb w q. apart.namespace-binding_update rb w n ∙ q)
            (λ rb w q. apart.namespace-binding_remove rb w n ∙ q) mapping t p)
        (λ grant. tt) entries s e
