-- ===== src/Reconcile/Deleted.antt =====
-- The run for a PermissionBinder that is being deleted loses no role binding.
use permission_binder_operat.Prelude.{
  String, Bool, true, false, ◌≡◌, refl, ◌∙◌, inl, inr, Bool-cases,
}
use permission_binder_operat.Cluster.{
  Namespace, RoleBinding, found, KindLaws, Honest, StoredBinding, System,
}
use permission_binder_operat.RoleBindings.Gate.{key_of}
use permission_binder_operat.Cleanup.SafeMode.{IsKept, cleanup_managed_resources-keeps}
use permission_binder_operat.Whitelist.{contains_string}
use permission_binder_operat.Watch.{reconciles_namespace}
use permission_binder_operat.Reconcile.{
  PermissionBinder, Setup, finalizer, answer_write, finalize, owner_of, reconcile,
}
use permission_binder_operat.Reconcile.Idle.{binder_deleted}

module _ {W : Type 0} (env : Setup W) where
  pub answer_write-world : (s : System W) (r : Bool × W) → (answer_write env s r).1.world ≡ r.1
  unfolding answer_write
  answer_write-world s (true, w) = refl
  answer_write-world s (false, w) = refl

module _ {W : Type 0} (env : Setup W)
    (laws : KindLaws key_of StoredBinding env.client.role_bindings)
    (apart : (ns : Namespace) (w : W) (k : String × String)
      → env.client.role_bindings.get k (env.client.namespaces.update ns w).1
        ≡ env.client.role_bindings.get k w)
    (binders_apart : (pb : PermissionBinder) (w : W) (k : String × String)
      → env.client.role_bindings.get k (env.binders.update pb w).1
        ≡ env.client.role_bindings.get k w) where
  abbrev Keeps : String × String → RoleBinding → W → Type 0
  Keeps k rb w = (b : RoleBinding) × (env.client.role_bindings.get k w ≡ found b) × IsKept rb b

  IsKept-refl : (rb : RoleBinding) → IsKept rb rb
  IsKept-refl rb = record { role = refl; subjects = refl; labels = refl; rest = λ j h i. refl }

  finalize-Keeps :
      (pb : PermissionBinder) (s : System W) (k : String × String) (rb : RoleBinding)
      → Honest key_of env.client.role_bindings s.world
      → env.client.role_bindings.get k s.world ≡ found rb
      → Keeps k rb (finalize env pb s).1.world
  unfolding finalize
  finalize-Keeps pb s k rb honest e = elim (Bool-cases (contains_string finalizer pb.finalizers)) [
    | inr unmarked ↦ rw unmarked (rb, e, IsKept-refl rb)
    | inl marked ↦
        let (b, there, kept) =
          cleanup_managed_resources-keeps env.client laws apart env.managed_by env.now (owner_of pb)
            s.world honest k rb e in
        rw (marked, answer_write-world) (b, binders_apart _ _ k ∙ there, kept)
  ]

  -- The run for a PermissionBinder that is being deleted deletes no role binding: each is still there,
  -- grants what it granted, and has its labels and its annotations but for the two orphan markers,
  -- whether or not the calls succeed.
  pub reconcile-keeps :
      (namespace name : String) (s : System W) (pb : PermissionBinder) (k : String × String)
      (rb : RoleBinding)
      → env.binders.get (namespace, name) s.world ≡ found pb
      → pb.deleting ≡ true
      → Honest key_of env.client.role_bindings s.world
      → env.client.role_bindings.get k s.world ≡ found rb
      → (b : RoleBinding) × (env.client.role_bindings.get k
            (reconcile env (namespace, name) s).1.world
          ≡ found b)
        × IsKept rb b
  unfolding reconcile
  reconcile-keeps namespace name s pb k rb e gone honest there =
      elim (Bool-cases (reconciles_namespace env.scope namespace)) [
        | inr foreign ↦ rw foreign (rb, there, IsKept-refl rb)
        | inl mine ↦
            rw (mine, e, binder_deleted env (namespace, name) pb s gone)
              (finalize-Keeps pb s k rb honest there)
      ]
