-- ===== src/Reconcile/Idle.antt =====
-- A run with nothing to do writes nothing.
use permission_binder_operat.Prelude.{
  String, Bool, true, false, ◌≡◌, refl, ◌∙◌, ap, inl, inr, ok, arith, Bool-cases, if◌then◌else◌,
  eq_iff,
}
use permission_binder_operat.Cluster.{found, System}
use permission_binder_operat.Whitelist.{contains_string}
use permission_binder_operat.Watch.{reconciles_namespace}
use permission_binder_operat.Reconcile.Hash.{has_role_mapping_changed}
use permission_binder_operat.Reconcile.{
  PermissionBinder, ConfigMap, Setup, done, finalizer, finalize, reconcile, binder_fetched,
  reconcile_live, sweep, swept, fetched_again, config_map_fetched,
}

module _ {W : Type 0} (env : Setup W) where
  pub binder_live :
      (key : String × String) (pb : PermissionBinder) (s : System W)
      → pb.deleting ≡ false
      → binder_fetched env key (found pb) s ≡ reconcile_live env key pb s
  unfolding binder_fetched
  binder_live key pb s live =
      ap (λ (b : Bool). if b then finalize env pb s else reconcile_live env key pb s) live

  pub binder_deleted :
      (key : String × String) (pb : PermissionBinder) (s : System W)
      → pb.deleting ≡ true
      → binder_fetched env key (found pb) s ≡ finalize env pb s
  unfolding binder_fetched
  binder_deleted key pb s gone =
      ap (λ (b : Bool). if b then finalize env pb s else reconcile_live env key pb s) gone

  idle_map :
      (pb : PermissionBinder) (hash : String) (config_map : ConfigMap) (s : System W)
      → pb.status.last_config_map_version ≡ config_map.resource_version
      → config_map_fetched env pb false hash (found config_map) s ≡ (ok done, s)
  unfolding config_map_fetched
  idle_map pb hash config_map s version =
      ground (arith, eq_iff pb.status.last_config_map_version config_map.resource_version)

  idle_again :
      (pb : PermissionBinder) (hash : String) (config_map : ConfigMap) (s : System W)
      → env.binders.get_config_map (pb.config_map_namespace, pb.config_map_name) s.world
        ≡ found config_map
      → pb.status.last_config_map_version ≡ config_map.resource_version
      → fetched_again env false hash (found pb) s ≡ (ok done, s)
  unfolding fetched_again
  idle_again pb hash config_map s read version = rw read (idle_map pb hash config_map s version)

  idle_swept :
      (key : String × String) (pb : PermissionBinder) (hash : String) (config_map : ConfigMap)
      (s : System W)
      → env.binders.get key s.world ≡ found pb
      → env.binders.get_config_map (pb.config_map_namespace, pb.config_map_name) s.world
        ≡ found config_map
      → pb.status.last_config_map_version ≡ config_map.resource_version
      → swept env key false hash (sweep env pb false s.world) s ≡ (ok done, s)
  unfolding swept sweep
  idle_swept key pb hash config_map s e read version =
      rw e (idle_again pb hash config_map s read version)

  idle_live :
      (key : String × String) (pb : PermissionBinder) (config_map : ConfigMap) (s : System W)
      → env.binders.get key s.world ≡ found pb
      → contains_string finalizer pb.finalizers ≡ true
      → (has_role_mapping_changed env.sha pb.spec.role_mapping pb.status.last_role_mapping_hash).0
        ≡ false
      → env.binders.get_config_map (pb.config_map_namespace, pb.config_map_name) s.world
        ≡ found config_map
      → pb.status.last_config_map_version ≡ config_map.resource_version
      → reconcile_live env key pb s ≡ (ok done, s)
  unfolding reconcile_live
  idle_live key pb config_map s e marked same read version =
      rw (marked, same) (idle_swept key pb _ config_map s e read version)

  -- A PermissionBinder that is not being deleted, has the finalizer, and whose role mapping and
  -- ConfigMap are those of the last run is left alone, and so is the cluster.
  pub reconcile_idle :
      (namespace name : String) (s : System W) (pb : PermissionBinder) (config_map : ConfigMap)
      → env.binders.get (namespace, name) s.world ≡ found pb
      → pb.deleting ≡ false
      → contains_string finalizer pb.finalizers ≡ true
      → (has_role_mapping_changed env.sha pb.spec.role_mapping pb.status.last_role_mapping_hash).0
        ≡ false
      → env.binders.get_config_map (pb.config_map_namespace, pb.config_map_name) s.world
        ≡ found config_map
      → pb.status.last_config_map_version ≡ config_map.resource_version
      → reconcile env (namespace, name) s ≡ (ok done, s)
  unfolding reconcile
  reconcile_idle namespace name s pb config_map e live marked same read version =
      elim (Bool-cases (reconciles_namespace env.scope namespace)) [
        | inr foreign ↦ rw foreign refl
        | inl mine ↦
            rw (mine, e)
              (binder_live (namespace, name) pb s live
                ∙ idle_live (namespace, name) pb config_map s e marked same read version)
      ]
