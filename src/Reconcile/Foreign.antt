-- ===== src/Reconcile/Foreign.antt =====
-- No run of `Reconcile` changes a role binding that another PermissionBinder has a live claim on.
use permission_binder_operat.Prelude.{
  String, Bool, true, false, not, ◌&&◌, ◌≡◌, refl, sym, ◌∙◌, ap, subst, inl, inr, List, length,
  arith, Result, ok, err, Bool-cases, if◌then◌else◌, ◌==◌, not_true,
}
use permission_binder_operat.Ownership.{Owner, is_owned_by, can_take_ownership}
use permission_binder_operat.Ownership.Laws.{can_take_of_owned}
use permission_binder_operat.Cluster.{
  RoleBinding, Fetch, found, not_found, failed, Fetch-cases, KindLaws, Honest, StoredBinding,
  System, OpError,
}
use permission_binder_operat.RoleBindings.Gate.{key_of}
use permission_binder_operat.ServiceAccounts.Gate.{Apart}
use permission_binder_operat.Cleanup.SafeMode.{cleanup_managed_resources-foreign}
use permission_binder_operat.Cleanup.Obsolete.{reconcile_all_managed_resources-spares}
use permission_binder_operat.Whitelist.{ConfigMapResult, contains_string}
use permission_binder_operat.Whitelist.Gate.{NamespacesApart, process_config_map-bindings}
use permission_binder_operat.Watch.{reconciles_namespace}
use permission_binder_operat.Reconcile.Hash.{has_role_mapping_changed}
use permission_binder_operat.Reconcile.Message.{success_message}
use permission_binder_operat.Reconcile.{
  PermissionBinder, ConfigMap, Setup, Next, finalizer, owner_of, finalize, status_changed,
  write_status, process, still_changed, config_map_fetched, fetched_again, swept, sweep,
  reconcile_live, binder_fetched, reconcile,
}
use permission_binder_operat.Reconcile.Idle.{binder_live, binder_deleted}
use permission_binder_operat.Reconcile.Deleted.{answer_write-world}

-- What the run relies on: the laws of the role bindings, a PermissionBinder is found under its own
-- key, and what is not a write to a role binding does not change one.
pub record Reliable {W : Type 0} (env : Setup W) : Type 0 where
  pub laws : KindLaws key_of StoredBinding env.client.role_bindings
  pub namespaces : NamespacesApart env.client
  pub accounts : Apart env.client
  pub keyed :
      (k : String × String) (w : W) (pb : PermissionBinder)
      → env.binders.get k w ≡ found pb
      → (pb.namespace, pb.name) ≡ k
  pub binder-update :
      (pb : PermissionBinder) (w : W) (k : String × String)
      → env.client.role_bindings.get k (env.binders.update pb w).1
        ≡ env.client.role_bindings.get k w
  pub binder-status :
      (pb : PermissionBinder) (w : W) (k : String × String)
      → env.client.role_bindings.get k (env.binders.update_status pb w).1
        ≡ env.client.role_bindings.get k w
  pub network-apart :
      (pb : PermissionBinder) (names : List String) (w : W) (k : String × String)
      → env.client.role_bindings.get k (env.network pb names w).1 ≡ env.client.role_bindings.get k w

clash : {b : Bool} → b ≡ true → b ≡ false → ⊥
clash h k = ground arith

module _ {W : Type 0} (env : Setup W) (rely : Reliable env) (k : String × String) (rb : RoleBinding)
    (owner : Owner) (foreign : can_take_ownership rb.annotations owner ≡ false) where
  abbrev Safe : W → Type 0
  Safe w = env.client.role_bindings.get k w ≡ found rb

  not_owned : is_owned_by rb.annotations owner ≡ false
  not_owned = not_true _ (λ h. absurd (clash (can_take_of_owned rb.annotations owner h) foreign))

  finalize-Safe :
      (pb : PermissionBinder) (s : System W)
      → owner_of pb ≡ owner
      → Honest key_of env.client.role_bindings s.world
      → Safe s.world
      → Safe (finalize env pb s).1.world
  unfolding finalize
  finalize-Safe pb s mine honest h = elim (Bool-cases (contains_string finalizer pb.finalizers)) [
    | inr unmarked ↦ rw unmarked h
    | inl marked ↦
        rw (marked, answer_write-world)
          (rely.binder-update _ _ k
            ∙ cleanup_managed_resources-foreign env.client rely.laws
                rely.namespaces.binding-namespace_update env.managed_by env.now (owner_of pb)
                s.world honest k rb h (ap (is_owned_by rb.annotations) mine ∙ not_owned))
  ]

  write_status-Safe :
      (pb : PermissionBinder) (result : ConfigMapResult) (version hash : String) (s : System W)
      → Safe s.world
      → Safe (write_status env pb result version hash s).1.world
  unfolding write_status
  write_status-Safe pb result version hash s h =
      elim (Bool-cases (
        status_changed pb.status result version hash (
          success_message (length result.processed_role_bindings)
            (length result.processed_service_accounts)))) [
              | inr same ↦ rw same h
              | inl other ↦ rw (other, answer_write-world) (rely.binder-status _ s.world k ∙ h)
            ]

  network-Safe :
      (b : Bool) (pb : PermissionBinder) (names : List String) (w : W)
      → Safe w
      → Safe (if b then env.network pb names w else (pb, w)).1
  network-Safe true pb names w h = rely.network-apart pb names w k ∙ h
  network-Safe false pb names w h = h

  process-Safe :
      (pb : PermissionBinder) (config_map : ConfigMap) (changed : Bool) (hash : String)
      (s : System W)
      → owner_of pb ≡ owner
      → Safe s.world
      → Safe (process env pb config_map changed hash s).1.world
  unfolding process
  process-Safe pb config_map changed hash s mine h = write_status-Safe _ _ _ _ _ (
      network-Safe pb.network_policy_enabled pb _ _ (
        process_config_map-bindings env.client rely.namespaces env.managed_by env.now (owner_of pb)
          pb.spec rely.laws rely.accounts config_map.entries s k rb h
          (ap (can_take_ownership rb.annotations) mine ∙ foreign)))

  map_fetched-Safe :
      (pb : PermissionBinder) (changed : Bool) (hash : String) (r : Fetch ConfigMap) (s : System W)
      → owner_of pb ≡ owner
      → Safe s.world
      → Safe (config_map_fetched env pb changed hash r s).1.world
  unfolding config_map_fetched
  map_fetched-Safe pb changed hash (not_found) s mine h = h
  map_fetched-Safe pb changed hash (failed) s mine h = h
  map_fetched-Safe pb changed hash (found config_map) s mine h =
      elim (Bool-cases (
        pb.status.last_config_map_version == config_map.resource_version
        && not (still_changed env pb changed))) [
          | inl same ↦ rw same h
          | inr other ↦
              rw other (process-Safe pb config_map (still_changed env pb changed) hash s mine h)
        ]

  owner-keyed :
      (namespace name : String) (w : W) (pb : PermissionBinder)
      → env.binders.get (namespace, name) w ≡ found pb
      → record { name = name; namespace = namespace } ≡ owner
      → owner_of pb ≡ owner
  owner-keyed namespace name w pb e mine =
      ap (λ (q : String × String). record { name = q.1; namespace = q.0 })
        (rely.keyed (namespace, name) w pb e)
      ∙ mine

  module _ (namespace name : String)
      (mine : record { name = name; namespace = namespace } ≡ owner) where
    again-Safe :
        (changed : Bool) (hash : String) (s : System W)
        → Safe s.world
        → Safe
            (fetched_again env changed hash (env.binders.get (namespace, name) s.world) s).1.world
    unfolding fetched_again
    again-Safe changed hash s h = elim (Fetch-cases (env.binders.get (namespace, name) s.world)) [
      | inl (pb, e) ↦
          rw e
            (map_fetched-Safe pb changed hash _ s (owner-keyed namespace name s.world pb e mine) h)
      | inr (inl e) ↦ rw e h
      | inr (inr e) ↦ rw e h
    ]

    swept-Safe :
        (changed : Bool) (hash : String) (r : Result OpError (Unit {0}) × W) (s : System W)
        → Safe r.1
        → Safe (swept env (namespace, name) changed hash r s).1.world
    unfolding swept
    swept-Safe changed hash (err e, w) s h = h
    swept-Safe changed hash (ok _, w) s h = again-Safe changed hash (record s { world = w }) h

    sweep-Safe :
        (pb : PermissionBinder) (changed : Bool) (w : W)
        → owner_of pb ≡ owner
        → Honest key_of env.client.role_bindings w
        → Safe w
        → Safe (sweep env pb changed w).1
    unfolding sweep
    sweep-Safe pb false w own honest h = h
    sweep-Safe pb true w own honest h =
        reconcile_all_managed_resources-spares env.client rely.laws env.managed_by (owner_of pb)
          pb.spec.prefixes pb.spec.role_mapping w honest k rb h
          (inl (ap (is_owned_by rb.annotations) own ∙ not_owned))

    live-Safe :
        (pb : PermissionBinder) (s : System W)
        → owner_of pb ≡ owner
        → Honest key_of env.client.role_bindings s.world
        → Safe s.world
        → Safe (reconcile_live env (namespace, name) pb s).1.world
    unfolding reconcile_live
    live-Safe pb s own honest h = elim (Bool-cases (contains_string finalizer pb.finalizers)) [
      | inr unmarked ↦ rw (unmarked, answer_write-world) (rely.binder-update _ s.world k ∙ h)
      | inl marked ↦
          let seen =
            has_role_mapping_changed env.sha pb.spec.role_mapping
              pb.status.last_role_mapping_hash in
          rw marked (
            swept-Safe seen.0 seen.1 (sweep env pb seen.0 s.world) s
              (sweep-Safe pb seen.0 s.world own honest h))
    ]

    fetched-Safe :
        (s : System W)
        → Honest key_of env.client.role_bindings s.world
        → Safe s.world
        → Safe
            (binder_fetched env
              (namespace, name)
              (env.binders.get (namespace, name) s.world)
              s).1.world
    unfolding binder_fetched
    fetched-Safe s honest h = elim (Fetch-cases (env.binders.get (namespace, name) s.world)) [
      | inr (inl e) ↦ rw e h
      | inr (inr e) ↦ rw e h
      | inl (pb, e) ↦ rw e (elim (Bool-cases pb.deleting) [
        | inl gone ↦
            subst (λ (a : Result OpError Next × System W). Safe a.1.world)
              (sym (binder_deleted env (namespace, name) pb s gone))
              (finalize-Safe pb s (owner-keyed namespace name s.world pb e mine) honest h)
        | inr live ↦
            subst (λ (a : Result OpError Next × System W). Safe a.1.world)
              (sym (binder_live env (namespace, name) pb s live))
              (live-Safe pb s (owner-keyed namespace name s.world pb e mine) honest h)
      ])
    ]

-- A run for one PermissionBinder, whatever its state, changes no role binding that another one has a
-- live claim on: not by the cleanup, the sweep, the whitelist or the ServiceAccounts, and whether or
-- not the calls succeed.
pub reconcile-foreign :
    {W : Type 0} (env : Setup W)
    → Reliable env
    → (namespace name : String) (s : System W) (k : String × String) (rb : RoleBinding)
    → Honest key_of env.client.role_bindings s.world
    → env.client.role_bindings.get k s.world ≡ found rb
    → can_take_ownership rb.annotations (record { name = name; namespace = namespace }) ≡ false
    → env.client.role_bindings.get k (reconcile env (namespace, name) s).1.world ≡ found rb
unfolding reconcile
reconcile-foreign env rely namespace name s k rb honest there foreign =
    elim (Bool-cases (reconciles_namespace env.scope namespace)) [
      | inr other ↦ rw other there
      | inl mine ↦ rw mine (
          fetched-Safe env rely k rb (record { name = name; namespace = namespace }) foreign
            namespace name refl s honest there)
    ]
