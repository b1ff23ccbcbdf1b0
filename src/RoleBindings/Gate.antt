-- ===== src/RoleBindings/Gate.antt =====
-- `createRoleBinding` leaves alone what another PermissionBinder has a live claim on, and every role
-- binding but the one it is asked for.
use permission_binder_operat.Prelude.{
  String, Bool, true, false, ◌&&◌, ◌==◌, eq_iff, ◌≡◌, refl, ◌∙◌, ap, ◌≢◌, ◌⊎◌, inl, inr, Result, ok,
  err, arith, Bool-cases,
}
use permission_binder_operat.Ownership.{Owner, can_take_ownership}
use permission_binder_operat.Cluster.{
  RoleBinding, Fetch, found, Fetch-cases, KindLaws, StoredBinding, Client, System, count,
  ownership_conflict, OpError, update_failed,
}
use permission_binder_operat.RoleBindings.{
  Grant, desired_binding, needs_update, overwrite, validate_cluster_role_exists, role_fetched,
  written, count_adoption, bind_existing, bind_fetched, create_role_binding,
}

abbrev pub key_of : RoleBinding → String × String
key_of rb = (rb.namespace, rb.name)

pub pair-cases : (k j : String × String) → (k ≡ j) ⊎ (k ≢ j)
pair-cases (a, b) (c, d) = elim (Bool-cases (a == c && b == d)) [
  | inl same ↦ inl (ground (arith, eq_iff a c, eq_iff b d))
  | inr other ↦ inr (λ e. absurd (
      ground (
        arith,
        eq_iff a c,
        eq_iff b d,
        ap (λ (p : String × String). p.0) e,
        ap (λ (p : String × String). p.1) e,
      )))
]

module _ {W : Type 0} (client : Client W) where
  pub written-world :
      (e : OpError) (s : System W) (r : Bool × W) → (written client e s r).1.world ≡ r.1
  unfolding written
  written-world e s (true, w) = refl
  written-world e s (false, w) = refl

  pub written-ok :
      (e : OpError) (s : System W) (r : Bool × W) {b : Bool}
      → (written client e s r).0 ≡ ok b
      → (r.0 ≡ true) × (b ≡ true)
  unfolding written
  written-ok e s (true, w) h = ground arith
  written-ok e s (false, w) h = absurd (ground arith)

  pub written-failed :
      (e : OpError) (s : System W) (r : Bool × W) → r.0 ≡ false → (written client e s r).0 ≡ err e
  unfolding written
  written-failed e s (true, w) h = absurd (ground arith)
  written-failed e s (false, w) h = refl

  -- Looking the cluster role up changes nothing in the cluster.
  pub validate-world :
      (name : String) (s : System W)
      → (validate_cluster_role_exists client name s).1.world ≡ s.world
  unfolding validate_cluster_role_exists
  validate-world name s = elim (Fetch-cases (client.cluster_role name s.world)) [
    | inl (u, e) ↦ rw (e, role_fetched) refl
    | inr (inl e) ↦ rw (e, role_fetched) refl
    | inr (inr e) ↦ rw (e, role_fetched) refl
  ]

module _ {W : Type 0} (client : Client W)
    (laws : KindLaws key_of StoredBinding client.role_bindings) (managed_by now : String)
    (owner : Owner) (grant : Grant) where
  abbrev get : String × String → W → Fetch RoleBinding
  get k w = client.role_bindings.get k w

  abbrev target : String × String
  target = (grant.namespace, grant.name)

  abbrev bind : System W → Result OpError Bool × System W
  bind s = bind_fetched client managed_by now owner grant (get target s.world) s

  -- The three ends of the branch for an existing role binding.
  pub bind_existing_shut :
      (rb : RoleBinding) (s : System W)
      → can_take_ownership rb.annotations owner ≡ false
      → bind_existing client managed_by now owner grant rb s
        ≡ (ok false, count (ownership_conflict "rolebinding") s)
  unfolding bind_existing
  bind_existing_shut rb s h = rw h refl

  pub bind_existing_quiet :
      (rb : RoleBinding) (s : System W)
      → can_take_ownership rb.annotations owner ≡ true
      → needs_update managed_by owner grant rb ≡ false
      → bind_existing client managed_by now owner grant rb s ≡ (ok true, s)
  unfolding bind_existing
  bind_existing_quiet rb s h k = rw (h, k) refl

  pub bind_existing_update :
      (rb : RoleBinding) (s : System W)
      → can_take_ownership rb.annotations owner ≡ true
      → needs_update managed_by owner grant rb ≡ true
      → bind_existing client managed_by now owner grant rb s
        ≡ written client update_failed
            (count_adoption client managed_by now owner grant rb s)
            (client.role_bindings.update (overwrite managed_by now owner grant rb) s.world)
  unfolding bind_existing
  bind_existing_update rb s h k = rw (h, k) refl

  bind_existing_other :
      (rb : RoleBinding) (s : System W) (k : String × String)
      → k ≢ key_of rb
      → get k (bind_existing client managed_by now owner grant rb s).1.world ≡ get k s.world
  unfolding overwrite
  bind_existing_other rb s k h = elim (Bool-cases (can_take_ownership rb.annotations owner)) [
    | inr shut ↦ rw (bind_existing_shut rb s shut) refl
    | inl free ↦ elim (Bool-cases (needs_update managed_by owner grant rb)) [
      | inr quiet ↦ rw (bind_existing_quiet rb s free quiet) refl
      | inl stale ↦
          rw (bind_existing_update rb s free stale, written-world)
            (laws.get-update_ne _ s.world k h)
    ]
  ]

  bind_other :
      (s : System W) (k : String × String) → k ≢ target → get k (bind s).1.world ≡ get k s.world
  unfolding bind_fetched desired_binding
  bind_other s k h = elim (Fetch-cases (get target s.world)) [
    | inl (rb, e) ↦
        rw e (bind_existing_other rb s k (λ same. h (same ∙ laws.get_keyed target s.world rb e)))
    | inr (inl e) ↦ rw (e, written-world) (laws.get-create_ne _ s.world k h)
    | inr (inr e) ↦ rw e refl
  ]

  pub bind_found :
      (s : System W) (rb : RoleBinding)
      → get target s.world ≡ found rb
      → bind s ≡ bind_existing client managed_by now owner grant rb s
  unfolding bind_fetched
  bind_found s rb e = rw e refl

  abbrev pub validated : System W → System W
  validated s = (validate_cluster_role_exists client grant.cluster_role s).1

  pub create_role_binding_lem :
      (s : System W) → create_role_binding client managed_by now owner grant s ≡ bind (validated s)
  unfolding create_role_binding
  create_role_binding_lem s = refl

  bind-foreign :
      (k : String × String) (s : System W) (rb : RoleBinding)
      → get k s.world ≡ found rb
      → can_take_ownership rb.annotations owner ≡ false
      → get k (bind s).1.world ≡ found rb
  bind-foreign k s rb e h = elim (pair-cases k target) [
    | inl same ↦ rw (bind_found s rb (rw same at e), bind_existing_shut rb s h) e
    | inr other ↦ bind_other s k other ∙ e
  ]

  -- No role binding that another PermissionBinder has a live claim on is changed, whichever role
  -- binding is asked for and whether or not the calls succeed.
  pub create_role_binding-foreign :
      (k : String × String) (s : System W) (rb : RoleBinding)
      → client.role_bindings.get k s.world ≡ found rb
      → can_take_ownership rb.annotations owner ≡ false
      → client.role_bindings.get k (create_role_binding client managed_by now owner grant s).1.world
        ≡ found rb
  create_role_binding-foreign k s rb e h = rw create_role_binding_lem (
      bind-foreign k (validated s) rb (ap (get k) (validate-world client grant.cluster_role s) ∙ e)
        h)

  -- A role binding other than the one that is asked for is not changed.
  pub create_role_binding-other :
      (k : String × String) (s : System W)
      → k ≢ (grant.namespace, grant.name)
      → client.role_bindings.get k (create_role_binding client managed_by now owner grant s).1.world
        ≡ client.role_bindings.get k s.world
  create_role_binding-other k s h =
      rw create_role_binding_lem
        (bind_other (validated s) k h ∙ ap (get k) (validate-world client grant.cluster_role s))
