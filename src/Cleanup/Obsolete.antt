-- ===== src/Cleanup/Obsolete.antt =====
-- Which role bindings `reconcileAllManagedResources` deletes.
use permission_binder_operat.Prelude.{
  String, Bool, true, false, ◌&&◌, ◌||◌, ◌≡◌, refl, sym, ◌∙◌, ap, ◌≢◌, ◌⊎◌, inl, inr, some, List,
  In, Result, ok, err, if◌then◌else◌, arith, Bool-cases, Option-cases,
}
use permission_binder_operat.GoMap.{GoMap}
use permission_binder_operat.Ownership.{Owner, is_owned_by}
use permission_binder_operat.Cluster.{
  RoleBinding, Fetch, found, not_found, KindLaws, Honest, StoredBinding, Client, OpError,
}
use permission_binder_operat.RoleBindings.Gate.{key_of}
use permission_binder_operat.Cleanup.{
  is_managed, managed_bindings, is_obsolete, is_misnamed, delete_where, reconcile_listed,
  get_managed_role_bindings, get_managed_namespaces, reconcile_all_managed_resources,
}
use permission_binder_operat.Cleanup.Sweeps.{
  same_found, In-managed_bindings_iff, delete_where-other, delete_where-gone, delete_where-picked,
}

-- The role binding is managed, and its role is not in the mapping any more or its first subject has
-- none of the prefixes.
pub is_doomed : String → Owner → List String → GoMap String → RoleBinding → Bool
is_doomed managed_by owner prefixes role_mapping rb =
    is_managed managed_by owner rb.labels rb.annotations
    && (is_obsolete role_mapping rb || is_misnamed prefixes rb.subjects)

clash : {b : Bool} → b ≡ true → b ≡ false → ⊥
clash h k = ground arith

not_ok : {e : OpError} → ◌≢◌ {A = Result OpError (Unit {0})} (err e) (ok tt)
not_ok h = ground arith

module _ {W : Type 0} (client : Client W)
    (laws : KindLaws key_of StoredBinding client.role_bindings) (managed_by : String)
    (owner : Owner) (prefixes : List String) (role_mapping : GoMap String) (w : W)
    (honest : Honest key_of client.role_bindings w) where
  abbrev get : String × String → W → Fetch RoleBinding
  get k v = client.role_bindings.get k v

  abbrev doomed : RoleBinding → Bool
  doomed rb = is_doomed managed_by owner prefixes role_mapping rb

  abbrev sweep : List RoleBinding → W
  sweep xs =
      delete_where client (λ (rb : RoleBinding). is_misnamed prefixes rb.subjects)
        (managed_bindings managed_by owner xs)
        (delete_where client (is_obsolete role_mapping) (managed_bindings managed_by owner xs) w)

  abbrev run : Result OpError (Unit {0}) × W
  run = reconcile_all_managed_resources client managed_by owner prefixes role_mapping w

  -- Either a list failed and nothing was done, or the two loops ran over what was listed.
  run-cases :
      (run.1 ≡ w)
      ⊎ ((xs : List RoleBinding) × (client.role_bindings.list w ≡ some xs) × (run.1 ≡ sweep xs))
  unfolding reconcile_all_managed_resources reconcile_listed get_managed_role_bindings
      get_managed_namespaces
  run-cases = elim (Option-cases (client.namespaces.list w)) [
    | inl silent ↦ inl (rw silent refl)
    | inr (names, e) ↦ elim (Option-cases (client.role_bindings.list w)) [
      | inl silent ↦ inl (rw (e, silent) refl)
      | inr (xs, listed) ↦ inr (xs, listed, rw (e, listed) refl)
    ]
  ]

  run-ok :
      run.0 ≡ ok tt
      → (xs : List RoleBinding) × (client.role_bindings.list w ≡ some xs) × (run.1 ≡ sweep xs)
  unfolding reconcile_all_managed_resources reconcile_listed get_managed_role_bindings
      get_managed_namespaces
  run-ok h = elim (Option-cases (client.namespaces.list w)) [
    | inl silent ↦ absurd (not_ok (rw silent at h))
    | inr (names, e) ↦ elim (Option-cases (client.role_bindings.list w)) [
      | inl silent ↦ absurd (not_ok (rw (e, silent) at h))
      | inr (xs, listed) ↦ (xs, listed, rw (e, listed) refl)
    ]
  ]

  doomed_of :
      (rb : RoleBinding) (xs : List RoleBinding)
      → In rb (managed_bindings managed_by owner xs)
      → (is_obsolete role_mapping rb ≡ true) ⊎ (is_misnamed prefixes rb.subjects ≡ true)
      → doomed rb ≡ true
  unfolding is_doomed
  doomed_of rb xs there h = ground (arith, (In-managed_bindings_iff managed_by owner rb xs).0 there)

  spared :
      (xs : List RoleBinding) (listed : client.role_bindings.list w ≡ some xs) (k : String × String)
      (rb : RoleBinding)
      → get k w ≡ found rb
      → doomed rb ≡ false
      → get k (sweep xs) ≡ get k w
  spared xs listed k rb e keep =
      let apart : (x : RoleBinding)
          → In x (managed_bindings managed_by owner xs)
          → doomed x ≡ true
          → k ≢ key_of x =
        λ x h d same. clash (d) (
          ap doomed (
            same_found client (honest xs listed)
              ((In-managed_bindings_iff managed_by owner x xs).0 h).0 (sym same) e)
          ∙ keep) in
      delete_where-other client laws _ k (managed_bindings managed_by owner xs) _
        (λ x h d. apart x h (doomed_of x xs h (inr d)))
      ∙ delete_where-other client laws _ k (managed_bindings managed_by owner xs) w
          (λ x h d. apart x h (doomed_of x xs h (inl d)))

  -- A role binding that the PermissionBinder does not own is not deleted, nor is one whose role is
  -- still in the mapping and whose group has one of the prefixes, whether or not a list fails.
  pub reconcile_all_managed_resources-spares :
      (k : String × String) (rb : RoleBinding)
      → get k w ≡ found rb
      → (is_owned_by rb.annotations owner ≡ false)
        ⊎ ((is_obsolete role_mapping rb ≡ false) × (is_misnamed prefixes rb.subjects ≡ false))
      → get k (reconcile_all_managed_resources client managed_by owner prefixes role_mapping w).1
        ≡ found rb
  unfolding is_doomed is_managed
  reconcile_all_managed_resources-spares k rb e keep = elim run-cases [
    | inl idle ↦ rw idle e
    | inr (xs, listed, step) ↦ rw step (spared xs listed k rb e (ground (arith, keep)) ∙ e)
  ]

  swept :
      ((a : RoleBinding) (v : W) → (client.role_bindings.remove a v).0 ≡ true)
      → (xs : List RoleBinding) (listed : client.role_bindings.list w ≡ some xs) (rb : RoleBinding)
      → get (key_of rb) w ≡ found rb
      → doomed rb ≡ true
      → get (key_of rb) (sweep xs) ≡ not_found
  unfolding is_doomed
  swept reliable xs listed rb e d =
      let there =
        (In-managed_bindings_iff managed_by owner rb xs).1
          ((honest xs listed).complete rb e, ground arith) in
      elim (Bool-cases (is_misnamed prefixes rb.subjects)) [
        | inl bad ↦
            delete_where-picked client laws reliable _ rb (managed_bindings managed_by owner xs) _
              there bad
        | inr fine ↦
            delete_where-gone client laws _ (key_of rb) (managed_bindings managed_by owner xs) _ (
              delete_where-picked client laws reliable _ rb (managed_bindings managed_by owner xs) w
                there (ground arith))
      ]

  -- If the lists and the deletions succeed, what is left of a role binding is decided by the test:
  -- a managed one whose role or prefix is not configured any more is gone, every other is unchanged.
  pub reconcile_all_managed_resources_lem :
      ((a : RoleBinding) (v : W) → (client.role_bindings.remove a v).0 ≡ true)
      → (reconcile_all_managed_resources client managed_by owner prefixes role_mapping w).0 ≡ ok tt
      → (k : String × String) (rb : RoleBinding) → get k w ≡ found rb
      → get k (reconcile_all_managed_resources client managed_by owner prefixes role_mapping w).1
        ≡ (if is_doomed managed_by owner prefixes role_mapping rb then not_found else found rb)
  reconcile_all_managed_resources_lem reliable h k rb e =
      let (xs, listed, step) = run-ok h in
      let here = laws.get_keyed k w rb e in
      elim (Bool-cases (doomed rb)) [
        | inr keep ↦ rw (step, keep) (spared xs listed k rb e keep ∙ e)
        | inl gone ↦ rw (step, gone, ← here) (swept reliable xs listed rb (rw (← here) at e) gone)
      ]
