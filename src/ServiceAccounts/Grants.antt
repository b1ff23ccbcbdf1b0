-- ===== src/ServiceAccounts/Grants.antt =====
-- What a run of `ProcessServiceAccounts` without an error has achieved.
use permission_binder_operat.Prelude.{
  String, Bool, true, false, ◌≡◌, refl, sym, ◌∙◌, ap, ◌≢◌, ◌⊎◌, inl, inr, List, [], ◌∷◌, map,
  Result, ok, err, Bool-cases, arith, eq_iff,
}
use permission_binder_operat.GoMap.{value, insert, lookup}
use permission_binder_operat.GoMap.Laws.{value-insert}
use permission_binder_operat.Ownership.{
  annotation_permission_binder, annotation_permission_binder_namespace, read, can_take_ownership,
}
use permission_binder_operat.Stamp.{or_empty}
use permission_binder_operat.Cluster.{
  Subject, RoleRef, RoleBinding, Fetch, found, Fetch-cases, KindLaws, StoredBinding, Client, System,
  OpError, bare,
}
use permission_binder_operat.RoleBindings.Gate.{key_of}
use permission_binder_operat.ServiceAccounts.{
  Setting, full_name, new_account_binding, restamp_owner, is_drifted, is_outdated, subject_drifted,
  create_binding, attempt, recreate_removed, update_binding, binding_fetched,
  ensure_account_binding,
}
use permission_binder_operat.ServiceAccounts.Loops.{attempt-world, attempt-ok}
use permission_binder_operat.ServiceAccounts.Gate.{target}

ok_true : {b : Bool} → ◌≡◌ {A = Result OpError Bool} (ok true) (ok b) → b ≡ true
ok_true h = ground arith

ok_false : {b : Bool} → ◌≡◌ {A = Result OpError Bool} (ok false) (ok b) → b ≡ false
ok_false h = ground arith

not_ok : {e : OpError} {b : Bool} → ◌≢◌ {A = Result OpError Bool} (err e) (ok b)
not_ok h = ground arith

-- The first subject has this name.
abbrev pub HasFirst : String → List Subject → Type 0
HasFirst name [] = ⊥
HasFirst name (subject ∷ rest) = subject.name ≡ name

-- The role binding gives the role to the ServiceAccount and names the owner.
pub record IsBound (env : Setting) (sa_name role : String) (rb : RoleBinding) : Type 0 where
  pub role_named : rb.role_ref.name ≡ role
  pub subject_named : HasFirst (full_name env sa_name) rb.subjects
  pub owner_named : read annotation_permission_binder rb.annotations ≡ env.owner.name
  pub owner_placed :
      read annotation_permission_binder_namespace rb.annotations ≡ env.owner.namespace

HasFirst-stored :
    (n : String) (xs ys : List Subject) → map bare xs ≡ map bare ys → HasFirst n xs → HasFirst n ys
HasFirst-stored n [] ys e h = absurd h
HasFirst-stored n (x ∷ xs) [] e h = absurd (ground arith)
HasFirst-stored n (x ∷ xs) (y ∷ ys) e h = ground (arith)

HasFirst-drifted : (n : String) (xs : List Subject) → subject_drifted n xs ≡ false → HasFirst n xs
unfolding subject_drifted
HasFirst-drifted n [] h = absurd (ground arith)
HasFirst-drifted n (x ∷ xs) h = ground (arith, eq_iff x.name n)

module _ (env : Setting) (sa_name role : String) where
  IsBound-stored :
      (a b : RoleBinding)
      → StoredBinding a b
      → IsBound env sa_name role a
      → IsBound env sa_name role b
  IsBound-stored a b (_, _, notes, _, ref, subjects) h = record {
    role_named = ap (λ (r : RoleRef). r.name) (sym ref) ∙ h.role_named;
    subject_named = HasFirst-stored _ a.subjects b.subjects subjects h.subject_named;
    owner_named = ap (read annotation_permission_binder) (sym notes) ∙ h.owner_named;
    owner_placed = ap (read annotation_permission_binder_namespace) (sym notes) ∙ h.owner_placed;
  }

  IsBound-new : IsBound env sa_name role (new_account_binding env sa_name role)
  unfolding new_account_binding value lookup
  IsBound-new = record {
    role_named = refl;
    subject_named = refl;
    owner_named = refl;
    owner_placed = refl;
  }

  IsBound-fine :
      (rb : RoleBinding)
      → is_drifted env sa_name role rb ≡ false
      → is_outdated env rb ≡ false
      → IsBound env sa_name role rb
  unfolding is_drifted is_outdated
  IsBound-fine rb h k = record {
    role_named = ground (arith, eq_iff rb.role_ref.name role);
    subject_named = HasFirst-drifted _ rb.subjects (ground arith);
    owner_named =
        ground (arith, eq_iff (read annotation_permission_binder rb.annotations) env.owner.name);
    owner_placed = ground (
      arith,
      eq_iff (read annotation_permission_binder_namespace rb.annotations) env.owner.namespace,
    );
  }

  IsBound-restamped :
      (rb : RoleBinding)
      → is_drifted env sa_name role rb ≡ false
      → IsBound env sa_name role (restamp_owner env rb)
  unfolding is_drifted restamp_owner
  IsBound-restamped rb h =
      let inner = insert annotation_permission_binder env.owner.name (or_empty rb.annotations) in
      record {
        role_named = ground (arith, eq_iff rb.role_ref.name role);
        subject_named = HasFirst-drifted _ rb.subjects (ground arith);
        owner_named = ground (
          arith,
          value-insert annotation_permission_binder_namespace annotation_permission_binder
              env.owner.namespace inner,
          value-insert annotation_permission_binder annotation_permission_binder env.owner.name
              (or_empty rb.annotations),
        );
        owner_placed = ground (
          arith,
          value-insert annotation_permission_binder_namespace annotation_permission_binder_namespace
              env.owner.namespace inner,
        );
      }

module _ {W : Type 0} (client : Client W)
    (laws : KindLaws key_of StoredBinding client.role_bindings) (env : Setting) where
  abbrev get : String × String → W → Fetch RoleBinding
  get k w = client.role_bindings.get k w

  abbrev pub Bound : String → String → W → Type 0
  Bound sa_name role w =
      (rb : RoleBinding) × (get (target client env sa_name) w ≡ found rb)
      × IsBound env sa_name role rb

  abbrev pub Shut : String → W → Type 0
  Shut sa_name w =
      (rb : RoleBinding) × (get (target client env sa_name) w ≡ found rb)
      × (can_take_ownership rb.annotations env.owner ≡ false)

  create_binding-Bound :
      (sa_name role : String) (s : System W) (b : Bool)
      → (create_binding client env sa_name role s).0 ≡ ok b
      → (b ≡ true) × Bound sa_name role (create_binding client env sa_name role s).1.world
  unfolding create_binding new_account_binding
  create_binding-Bound sa_name role s b h =
      let new = new_account_binding env sa_name role in
      let (done, good) =
        attempt-ok client env _ true b s (client.role_bindings.create new s.world) h in
      let (stored, e, same) = laws.get-create new s.world done in
      (
        good,
        (
          stored,
          rw attempt-world e,
          IsBound-stored env sa_name role new stored same (IsBound-new env sa_name role),
        ),
      )

  recreate_removed-Bound :
      (sa_name role : String) (s : System W) (r : Bool × W) (b : Bool)
      → (recreate_removed client env sa_name role s r).0 ≡ ok b
      → (b ≡ true) × Bound sa_name role (recreate_removed client env sa_name role s r).1.world
  unfolding recreate_removed
  recreate_removed-Bound sa_name role s (true, w) b h =
      create_binding-Bound sa_name role (record s { world = w }) b h
  recreate_removed-Bound sa_name role s (false, w) b h = absurd (ground arith)

  restamped-Bound :
      (sa_name role : String) (rb : RoleBinding) (s : System W) (b : Bool) (e : OpError)
      → key_of rb ≡ target client env sa_name
      → is_drifted env sa_name role rb ≡ false
      → (attempt client env e true s (client.role_bindings.update (restamp_owner env rb) s.world)).0
        ≡ ok b
      → (b ≡ true)
        × Bound sa_name role (client.role_bindings.update (restamp_owner env rb) s.world).1
  unfolding restamp_owner
  restamped-Bound sa_name role rb s b e here fine h =
      let new = restamp_owner env rb in
      let (done, good) =
        attempt-ok client env e true b s (client.role_bindings.update new s.world) h in
      let (stored, e', same) = laws.get-update new s.world done in
      (
        good,
        (
          stored,
          rw (← here) e',
          IsBound-stored env sa_name role new stored same
              (IsBound-restamped env sa_name role rb fine),
        ),
      )

  update_binding-Bound :
      (sa_name role : String) (rb : RoleBinding) (s : System W) (b : Bool)
      → get (target client env sa_name) s.world ≡ found rb
      → (update_binding client env sa_name role rb s).0 ≡ ok b
      → (b ≡ true) × Bound sa_name role (update_binding client env sa_name role rb s).1.world
  unfolding update_binding
  update_binding-Bound sa_name role rb s b e h =
      elim (Bool-cases (is_drifted env sa_name role rb)) [
        | inl drifted ↦
            rw (drifted, update_binding)
              (recreate_removed-Bound sa_name role s (client.role_bindings.remove rb s.world) b
                (rw (drifted, update_binding) at h))
        | inr fine ↦ elim (Bool-cases (is_outdated env rb)) [
          | inl old ↦
              rw (fine, update_binding, old, attempt-world)
                (restamped-Bound sa_name role rb s b _ (laws.get_keyed _ s.world rb e) fine
                  (rw (fine, update_binding, old) at h))
          | inr new ↦
              rw (fine, update_binding, new)
                (
                  ok_true (rw (fine, update_binding, new) at h),
                  (rb, e, IsBound-fine env sa_name role rb fine new),
                )
        ]
      ]

  -- One step on a role binding that does not fail.
  pub ensure_account_binding-Bound :
      (sa_name role : String) (s : System W) (b : Bool)
      → (ensure_account_binding client env sa_name role s).0 ≡ ok b
      → ((b ≡ true) × Bound sa_name role (ensure_account_binding client env sa_name role s).1.world)
        ⊎ ((b ≡ false) × Shut sa_name s.world)
  unfolding ensure_account_binding binding_fetched
  ensure_account_binding-Bound sa_name role s b h =
      elim (Fetch-cases (get (target client env sa_name) s.world)) [
        | inr (inl e) ↦ inl (rw e (create_binding-Bound sa_name role s b (rw e at h)))
        | inr (inr e) ↦ absurd (not_ok (rw e at h))
        | inl (rb, e) ↦ elim (Bool-cases (can_take_ownership rb.annotations env.owner)) [
          | inr shut ↦ inr (ok_false (rw (e, binding_fetched, shut) at h), (rb, e, shut))
          | inl free ↦ inl (
              rw (e, binding_fetched, free)
                (update_binding-Bound sa_name role rb s b e (rw (e, binding_fetched, free) at h)))
        ]
      ]
