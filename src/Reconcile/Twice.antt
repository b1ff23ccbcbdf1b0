-- ===== src/Reconcile/Twice.antt =====
-- A second run behind one that has processed the ConfigMap.
use permission_binder_operat.Prelude.{
  String, Bool, true, false, ◌≡◌, refl, sym, ◌∙◌, ap, ◌≢◌, inl, inr, length, Result, ok, arith,
  Bool-cases, ◌==◌, eq_iff, not_true,
}
use permission_binder_operat.Cluster.{found, System, OpError}
use permission_binder_operat.Whitelist.{ConfigMapResult, contains_string}
use permission_binder_operat.Watch.{reconciles_namespace}
use permission_binder_operat.NetworkPolicy.Run.{RunSetup}
use permission_binder_operat.Reconcile.Hash.{has_role_mapping_changed}
use permission_binder_operat.Reconcile.{
  PermissionBinder, ConfigMap, Setup, Status, BinderClient, Next, done, finalizer, reconcile,
  reconcile_live, sweep, swept, fetched_again, config_map_fetched, process, write_status,
  answer_write, status_changed, new_status,
}
use permission_binder_operat.Reconcile.Message.{success_message}
use permission_binder_operat.Reconcile.Idle.{binder_live, reconcile_idle}
use permission_binder_operat.Reconcile.Network.{network_of, with_network}

-- A status that is written is read back.
abbrev pub StoresStatus : {W : Type 0} → BinderClient W → Type 0
StoresStatus {W = W} binders =
    (pb : PermissionBinder) (w : W)
    → (binders.update_status pb w).0 ≡ true
    → binders.get (pb.namespace, pb.name) (binders.update_status pb w).1 ≡ found pb

-- `stored` is `pb` but for its status, which holds the version and the hash.
pub record IsMarked (pb : PermissionBinder) (version hash : String) (stored : PermissionBinder)
    : Type 0 where
  pub status : Status
  pub same : stored ≡ record pb { status = status }
  pub version_kept : status.last_config_map_version ≡ version
  pub hash_kept : status.last_role_mapping_hash ≡ hash

version_differs :
    (status : Status) (result : ConfigMapResult) (version hash message : String)
    → status.last_config_map_version ≢ version
    → status_changed status result version hash message ≡ true
unfolding status_changed
version_differs status result version hash message h =
    rw
      (not_true (status.last_config_map_version == version)
        (λ e. h ((eq_iff status.last_config_map_version version).0 e)))
      (ground arith)

module _ {W : Type 0} (env : Setup W) (stores : StoresStatus env.binders) where
  answer_write-ok :
      (s : System W) (r : Bool × W)
      → (answer_write env s r).0 ≡ ok done
      → (r.0 ≡ true) × ((answer_write env s r).1.world ≡ r.1)
  unfolding answer_write
  answer_write-ok s (true, w) h = (refl, refl)
  answer_write-ok s (false, w) h = absurd (ground arith)

  abbrev message_of : ConfigMapResult → String
  message_of result =
      success_message (length result.processed_role_bindings)
        (length result.processed_service_accounts)

  abbrev renewed : PermissionBinder → ConfigMapResult → String → String → PermissionBinder
  renewed pb result version hash = record pb {
    status = new_status env.now pb result version hash (message_of result);
  }

  write_status-written :
      (pb : PermissionBinder) (result : ConfigMapResult) (version hash : String) (s : System W)
      → pb.status.last_config_map_version ≢ version
      → write_status env pb result version hash s
        ≡ answer_write env s (env.binders.update_status (renewed pb result version hash) s.world)
  unfolding write_status
  write_status-written pb result version hash s differs =
      rw (version_differs pb.status result version hash (message_of result) differs) refl

  write_status-stored :
      (pb : PermissionBinder) (result : ConfigMapResult) (version hash : String) (s : System W)
      → pb.status.last_config_map_version ≢ version
      → (write_status env pb result version hash s).0 ≡ ok done
      → env.binders.get (pb.namespace, pb.name) (write_status env pb result version hash s).1.world
        ≡ found (renewed pb result version hash)
  write_status-stored pb result version hash s differs h =
      let step = write_status-written pb result version hash s differs in
      let new = renewed pb result version hash in
      let (accepted, after) =
        answer_write-ok s (env.binders.update_status new s.world)
          (ap (λ (a : Result OpError Next × System W). a.0) (sym step) ∙ h) in
      ap (λ (a : Result OpError Next × System W). env.binders.get (pb.namespace, pb.name) a.1.world)
        step
      ∙ ap (env.binders.get (pb.namespace, pb.name)) after
      ∙ stores new s.world accepted

module _ {W : Type 0} (env : Setup W) (settings : PermissionBinder → RunSetup W)
    (stores : StoresStatus env.binders) where
  abbrev main : Setup W
  main = with_network settings env

  process-stored :
      (pb : PermissionBinder) (config_map : ConfigMap) (hash : String) (s : System W)
      → pb.status.last_config_map_version ≢ config_map.resource_version
      → (process main pb config_map false hash s).0 ≡ ok done
      → (stored : PermissionBinder) × (env.binders.get
            (pb.namespace, pb.name)
            (process main pb config_map false hash s).1.world
          ≡ found stored)
        × IsMarked pb config_map.resource_version pb.status.last_role_mapping_hash stored
  unfolding process network_of new_status
  process-stored pb config_map hash s differs h = elim (Bool-cases pb.network_policy_enabled) [
    | inl on ↦ rw on (
      _,
      write_status-stored main stores _ _ _ _ _ differs (rw on at h),
      record { status = _; same = refl; version_kept = refl; hash_kept = refl },
    )
    | inr off ↦ rw off (
      _,
      write_status-stored main stores _ _ _ _ _ differs (rw off at h),
      record { status = _; same = refl; version_kept = refl; hash_kept = refl },
    )
  ]

  -- The first run, with a ConfigMap that is new and a role mapping that is not.
  run_map :
      (pb : PermissionBinder) (hash : String) (config_map : ConfigMap) (s : System W)
      → pb.status.last_config_map_version ≢ config_map.resource_version
      → config_map_fetched main pb false hash (found config_map) s
        ≡ process main pb config_map false hash s
  unfolding config_map_fetched
  run_map pb hash config_map s differs =
      rw
        (not_true (pb.status.last_config_map_version == config_map.resource_version) (λ e.
          differs ((eq_iff pb.status.last_config_map_version config_map.resource_version).0 e)))
        refl

  run_swept :
      (key : String × String) (pb : PermissionBinder) (hash : String) (config_map : ConfigMap)
      (s : System W)
      → env.binders.get key s.world ≡ found pb
      → env.binders.get_config_map (pb.config_map_namespace, pb.config_map_name) s.world
        ≡ found config_map
      → pb.status.last_config_map_version ≢ config_map.resource_version
      → swept main key false hash (sweep main pb false s.world) s
        ≡ process main pb config_map false hash s
  unfolding swept sweep fetched_again
  run_swept key pb hash config_map s e read differs =
      rw (e, read) (run_map pb hash config_map s differs)

  run_live :
      (key : String × String) (pb : PermissionBinder) (config_map : ConfigMap) (s : System W)
      → env.binders.get key s.world ≡ found pb
      → contains_string finalizer pb.finalizers ≡ true
      → (has_role_mapping_changed env.sha pb.spec.role_mapping pb.status.last_role_mapping_hash).0
        ≡ false
      → env.binders.get_config_map (pb.config_map_namespace, pb.config_map_name) s.world
        ≡ found config_map
      → pb.status.last_config_map_version ≢ config_map.resource_version
      → reconcile_live main key pb s
        ≡ process main pb config_map false
            (has_role_mapping_changed env.sha pb.spec.role_mapping
              pb.status.last_role_mapping_hash).1
            s
  unfolding reconcile_live
  run_live key pb config_map s e marked same read differs =
      rw (marked, same) (run_swept key pb _ config_map s e read differs)

  -- On an API server that stores a status it accepts: a PermissionBinder that is found under its own
  -- name, is not being deleted, and has the finalizer and a role mapping with the stored hash, and a
  -- ConfigMap with a new version: if the run succeeds and the ConfigMap is still the same behind it, the
  -- next run does nothing, to the cluster and to the metrics.
  pub reconcile_twice :
      (namespace name : String) (s : System W) (pb : PermissionBinder) (config_map : ConfigMap)
      → env.binders.get (namespace, name) s.world ≡ found pb
      → ◌≡◌ {A = String × String} (pb.namespace, pb.name) (namespace, name)
      → pb.deleting ≡ false
      → contains_string finalizer pb.finalizers ≡ true
      → (has_role_mapping_changed env.sha pb.spec.role_mapping pb.status.last_role_mapping_hash).0
        ≡ false
      → env.binders.get_config_map (pb.config_map_namespace, pb.config_map_name) s.world
        ≡ found config_map
      → pb.status.last_config_map_version ≢ config_map.resource_version
      → (reconcile main (namespace, name) s).0 ≡ ok done
      → env.binders.get_config_map
          (pb.config_map_namespace, pb.config_map_name)
          (reconcile main (namespace, name) s).1.world
        ≡ found config_map
      → reconcile main (namespace, name) (reconcile main (namespace, name) s).1
        ≡ (ok done, (reconcile main (namespace, name) s).1)
  unfolding reconcile
  reconcile_twice namespace name s pb config_map e here live marked same read differs h read_again =
      elim (Bool-cases (reconciles_namespace env.scope namespace)) [
        | inr foreign ↦ rw foreign refl
        | inl mine ↦
            let hash =
              (has_role_mapping_changed env.sha pb.spec.role_mapping
                pb.status.last_role_mapping_hash).1 in
            let run : reconcile main (namespace, name) s ≡ process main pb config_map false hash s =
              rw (mine, e)
                (binder_live main (namespace, name) pb s live
                  ∙ run_live (namespace, name) pb config_map s e marked same read differs) in
            let (stored, found', mark) =
              process-stored pb config_map hash s differs
                (ap (λ (a : Result OpError Next × System W). a.0) (sym run) ∙ h) in
            reconcile_idle main namespace name (reconcile main (namespace, name) s).1
              (record pb { status = mark.status }) config_map
              (ap
                  (λ (k : String × String).
                    env.binders.get k (reconcile main (namespace, name) s).1.world)
                  (sym here)
                ∙ ap
                    (λ (a : Result OpError Next × System W).
                      env.binders.get (pb.namespace, pb.name) a.1.world)
                    run
                ∙ found'
                ∙ ap found mark.same)
              live marked
              (ap
                  (λ (last : String).
                    (has_role_mapping_changed env.sha pb.spec.role_mapping last).0)
                  mark.hash_kept
                ∙ same)
              read_again mark.version_kept
      ]
