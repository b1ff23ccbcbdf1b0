-- ===== src/RoleBindings/Outcome.antt =====
-- What a call of `createRoleBinding` that succeeds has achieved, and when a second one writes nothing.
use permission_binder_operat.Prelude.{
  ℕ, zero, suc, String, Bool, true, false, ◌≡◌, refl, sym, ◌∙◌, ap, subst, ◌≢◌, inl, inr, Result,
  ok, err, arith, Bool-cases,
}
use permission_binder_operat.Ownership.{Owner, can_take_ownership}
use permission_binder_operat.Cluster.{
  RoleBinding, found, Fetch-cases, KindLaws, StoredBinding, Client, System, OpError, update_failed,
  create_failed,
}
use permission_binder_operat.RoleBindings.{
  Grant, cluster_role_ref, desired_binding, needs_update, overwrite, written, count_adoption,
  bind_existing, bind_fetched, create_role_binding,
}
use permission_binder_operat.RoleBindings.Update.{
  IsGranted, needs_update_of_role, IsGranted-stored, overwrite-IsGranted, desired-IsGranted,
  needs_update-false-IsGranted,
}
use permission_binder_operat.RoleBindings.Gate.{
  key_of, written-world, written-ok, validate-world, bind_existing_shut, bind_existing_quiet,
  bind_existing_update, bind_found, validated, create_role_binding_lem,
}

ok_inj : {a b : Bool} → ◌≡◌ {A = Result OpError Bool} (ok a) (ok b) → b ≡ a
ok_inj h = ground arith

not_answered : {e : OpError} {b : Bool} → ◌≢◌ {A = Result OpError Bool} (err e) (ok b)
not_answered h = ground arith

-- In `w` the role binding is there and grants what is wanted.
abbrev pub Granted : {W : Type 0} → Client W → String → Owner → Grant → W → Type 0
Granted client managed_by owner grant w =
    (rb : RoleBinding) × (client.role_bindings.get (grant.namespace, grant.name) w ≡ found rb)
    × IsGranted managed_by owner grant rb

-- In `w` the role binding is there and another PermissionBinder has a live claim on it.
abbrev pub Refused : {W : Type 0} → Client W → Owner → Grant → W → Type 0
Refused client owner grant w =
    (rb : RoleBinding) × (client.role_bindings.get (grant.namespace, grant.name) w ≡ found rb)
    × (can_take_ownership rb.annotations owner ≡ false)

-- The state after a number of calls, one behind the other.
pub retried : {W : Type 0} → Client W → String → String → Owner → Grant → ℕ → System W → System W
retried client managed_by now owner grant zero s = s
retried client managed_by now owner grant (suc n) s =
    (create_role_binding client managed_by now owner grant
      (retried client managed_by now owner grant n s)).1

module _ {W : Type 0} (client : Client W)
    (laws : KindLaws key_of StoredBinding client.role_bindings) (managed_by now : String)
    (owner : Owner) (grant : Grant) (clock : now ≢ "") where
  abbrev target : String × String
  target = (grant.namespace, grant.name)

  abbrev bind : System W → Result OpError Bool × System W
  bind s =
      bind_fetched client managed_by now owner grant (client.role_bindings.get target s.world) s

  -- What the answer `b` says of the cluster before and after.
  abbrev pub Answered : Bool → W → W → Type 0
  Answered true before after = Granted client managed_by owner grant after
  Answered false before after = Refused client owner grant before × (after ≡ before)

  update-Granted :
      (rb : RoleBinding) (s : System W) (b : Bool)
      → key_of rb ≡ target
      → (written client update_failed
          (count_adoption client managed_by now owner grant rb s)
          (client.role_bindings.update (overwrite managed_by now owner grant rb) s.world)).0
        ≡ ok b
      → (b ≡ true)
        × Granted client managed_by owner grant
            (client.role_bindings.update (overwrite managed_by now owner grant rb) s.world).1
  unfolding overwrite
  update-Granted rb s b here h =
      let over = overwrite managed_by now owner grant rb in
      let (done, yes_managed) =
        written-ok client update_failed (count_adoption client managed_by now owner grant rb s)
          (client.role_bindings.update over s.world) h in
      let (stored, e, same) = laws.get-update over s.world done in
      (
        yes_managed,
        (
          stored,
          rw (← here) e,
          IsGranted-stored managed_by owner grant over stored same
              (overwrite-IsGranted managed_by now owner grant clock rb),
        ),
      )

  bind_existing-Answered :
      (rb : RoleBinding) (s : System W) (b : Bool)
      → client.role_bindings.get target s.world ≡ found rb
      → (bind_existing client managed_by now owner grant rb s).0 ≡ ok b
      → Answered b s.world (bind_existing client managed_by now owner grant rb s).1.world
  bind_existing-Answered rb s b e h = elim (Bool-cases (can_take_ownership rb.annotations owner)) [
    | inr shut ↦
        let step = bind_existing_shut client laws managed_by now owner grant rb s shut in
        let kept : b ≡ false = ok_inj (rw step at h) in rw (kept, step) ((rb, e, shut), refl)
    | inl free ↦ elim (Bool-cases (needs_update managed_by owner grant rb)) [
      | inr quiet ↦
          let step = bind_existing_quiet client laws managed_by now owner grant rb s free quiet in
          let managed : b ≡ true = ok_inj (rw step at h) in
          rw (managed, step) (rb, e, needs_update-false-IsGranted managed_by owner grant rb quiet)
      | inl stale ↦
          let step = bind_existing_update client laws managed_by now owner grant rb s free stale in
          let (managed, granted) =
            update-Granted rb s b (laws.get_keyed target s.world rb e) (rw step at h) in
          rw (managed, step, written-world) granted
    ]
  ]

  create-Granted :
      (s : System W) (b : Bool)
      → (written client create_failed s
          (client.role_bindings.create (desired_binding managed_by now owner grant) s.world)).0
        ≡ ok b
      → (b ≡ true)
        × Granted client managed_by owner grant
            (client.role_bindings.create (desired_binding managed_by now owner grant) s.world).1
  unfolding desired_binding
  create-Granted s b h =
      let new = desired_binding managed_by now owner grant in
      let (done, managed) =
        written-ok client create_failed s (client.role_bindings.create new s.world) h in
      let (stored, e, same) = laws.get-create new s.world done in
      (
        managed,
        (
          stored,
          e,
          IsGranted-stored managed_by owner grant new stored same
              (desired-IsGranted managed_by now owner grant clock),
        ),
      )

  bind-Answered :
      (s : System W) (b : Bool) → (bind s).0 ≡ ok b → Answered b s.world (bind s).1.world
  unfolding bind_fetched
  bind-Answered s b h = elim (Fetch-cases (client.role_bindings.get target s.world)) [
    | inl (rb, e) ↦
        let step = bind_found client laws managed_by now owner grant s rb e in
        rw step (bind_existing-Answered rb s b e (rw step at h))
    | inr (inl e) ↦
        let (managed, granted) = create-Granted s b (rw e at h) in
        rw (managed, e, written-world) granted
    | inr (inr e) ↦ absurd (not_answered (rw e at h))
  ]

  -- A call that answers "managed" leaves the role binding there, granting the cluster role to the
  -- group alone, owned and not orphaned; one that answers "not managed" has found a live claim of
  -- another PermissionBinder and has changed nothing.
  pub create_role_binding_outcome :
      (s : System W) (b : Bool)
      → (create_role_binding client managed_by now owner grant s).0 ≡ ok b
      → Answered b s.world (create_role_binding client managed_by now owner grant s).1.world
  create_role_binding_outcome s b h =
      let step = create_role_binding_lem client laws managed_by now owner grant s in
      let checked = validated client laws managed_by now owner grant s in
      rw step (
        subst (λ (w : W). Answered b w (bind checked).1.world)
          (validate-world client grant.cluster_role s) (bind-Answered checked b (rw step at h)))

  stuck :
      ((a old : RoleBinding) (w : W)
        → client.role_bindings.get (key_of a) w ≡ found old
        → a.role_ref ≢ old.role_ref
        → client.role_bindings.update a w ≡ (false, w))
      → (s : System W) (rb : RoleBinding) → client.role_bindings.get target s.world ≡ found rb
      → can_take_ownership rb.annotations owner ≡ true
      → rb.role_ref ≢ cluster_role_ref grant.cluster_role
      → ((bind s).0 ≡ err update_failed) × ((bind s).1.world ≡ s.world)
  unfolding overwrite written
  stuck immutable s rb e free differs =
      let over = overwrite managed_by now owner grant rb in
      let here = laws.get_keyed target s.world rb e in
      let refused =
        immutable over rb s.world
          (ap (λ (k : String × String). client.role_bindings.get k s.world) here ∙ e)
          (λ same. differs (sym same)) in
      rw
        (
          bind_found client laws managed_by now owner grant s rb e,
          bind_existing_update client laws managed_by now owner grant rb s free
              (needs_update_of_role managed_by owner grant rb differs),
          refused,
        )
        (refl, refl)

  stuck_once :
      ((a old : RoleBinding) (w : W)
        → client.role_bindings.get (key_of a) w ≡ found old
        → a.role_ref ≢ old.role_ref
        → client.role_bindings.update a w ≡ (false, w))
      → (s : System W) (rb : RoleBinding) → client.role_bindings.get target s.world ≡ found rb
      → can_take_ownership rb.annotations owner ≡ true
      → rb.role_ref ≢ cluster_role_ref grant.cluster_role
      → ((create_role_binding client managed_by now owner grant s).0 ≡ err update_failed)
        × ((create_role_binding client managed_by now owner grant s).1.world ≡ s.world)
  stuck_once immutable s rb e free differs =
      let checked = validated client laws managed_by now owner grant s in
      let same = validate-world client grant.cluster_role s in
      let (failed', kept) =
        stuck immutable checked rb (ap (λ (w : W). client.role_bindings.get target w) same ∙ e) free
          differs in
      rw (create_role_binding_lem client laws managed_by now owner grant s) (failed', kept ∙ same)

  -- On a server that refuses an update of the role reference and leaves the object as it is, the
  -- role binding that the caller can take and that refers to another cluster role is never changed:
  -- however often the call is made, it fails and the cluster stays as it was at the start.
  pub create_role_binding_stuck :
      ((a old : RoleBinding) (w : W)
        → client.role_bindings.get (key_of a) w ≡ found old
        → a.role_ref ≢ old.role_ref
        → client.role_bindings.update a w ≡ (false, w))
      → (s : System W) (rb : RoleBinding)
      → client.role_bindings.get (grant.namespace, grant.name) s.world ≡ found rb
      → can_take_ownership rb.annotations owner ≡ true
      → rb.role_ref ≢ cluster_role_ref grant.cluster_role
      → (n : ℕ)
      → ((create_role_binding client managed_by now owner grant
            (retried client managed_by now owner grant n s)).0
          ≡ err update_failed)
        × ((retried client managed_by now owner grant (suc n) s).world ≡ s.world)
  unfolding retried
  create_role_binding_stuck immutable s rb e free differs zero =
      stuck_once immutable s rb e free differs
  create_role_binding_stuck immutable s rb e free differs (suc n) =
      let before = (create_role_binding_stuck immutable s rb e free differs n).1 in
      let (failed', kept) =
        stuck_once immutable (retried client managed_by now owner grant (suc n) s) rb
          (ap (λ (w : W). client.role_bindings.get target w) before ∙ e) free differs in
      (failed', kept ∙ before)
