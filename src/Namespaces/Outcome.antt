-- ===== src/Namespaces/Outcome.antt =====
-- What a call of `ensureNamespace` that succeeds has achieved, and that a second call writes nothing.
use permission_binder_operat.Prelude.{
  String, Bool, true, false, ◌≡◌, refl, ◌∙◌, ap, subst, ◌≢◌, ◌⊎◌, inl, inr, Result, ok, arith,
  Bool-cases,
}
use permission_binder_operat.Ownership.{Owner, can_take_ownership}
use permission_binder_operat.Ownership.Laws.{can_take_of_owned}
use permission_binder_operat.Cluster.{
  Namespace, found, not_found, failed, Fetch-cases, KindLaws, StoredNamespace, Client, System,
  finish-world, finish-ok, OpError, update_failed, create_failed,
}
use permission_binder_operat.Namespaces.{
  new_namespace, refresh, count_adoption, update_existing, ensure_existing, ensure_fetched,
  ensure_namespace,
}
use permission_binder_operat.Namespaces.Refresh.{
  IsManaged, refresh-IsManaged, new_namespace-IsManaged, refresh-false-IsManaged, IsManaged-refresh,
  IsManaged-stored,
}
use permission_binder_operat.Namespaces.Gate.{
  key_of, world-count_adoption, ensure_existing_free, ensure_namespace_shut, ensure_namespace_found,
}

-- In `w` the namespace `n` is there and managed.
abbrev pub Settled : {W : Type 0} → Client W → String → Owner → String → W → Type 0
Settled client managed_by owner n w =
    (ns : Namespace) × (client.namespaces.get n w ≡ found ns) × IsManaged managed_by owner ns

module _ {W : Type 0} (client : Client W) (laws : KindLaws key_of StoredNamespace client.namespaces)
    (managed_by now : String) (owner : Owner) (clock : now ≢ "") where
  abbrev ensure : String → System W → Result OpError (Unit {0}) × System W
  ensure n s = ensure_namespace client managed_by now owner n s

  update_existing-Settled :
      (p : Namespace × Bool) (s : System W) (old : Namespace)
      → client.namespaces.get p.0.name s.world ≡ found old
      → (p.1 ≡ false → IsManaged managed_by owner old)
      → IsManaged managed_by owner p.0
      → (update_existing client managed_by now owner p s).0 ≡ ok tt
      → Settled client managed_by owner p.0.name
          (update_existing client managed_by now owner p s).1.world
  unfolding update_existing
  update_existing-Settled (ns, false) s old e kept m h = (old, e, kept refl)
  update_existing-Settled (ns, true) s old e kept m h =
      let written = finish-ok update_failed s (client.namespaces.update ns s.world) h in
      let (kept_ns, e', same) = laws.get-update ns s.world written in
      (kept_ns, rw finish-world e', IsManaged-stored managed_by owner ns kept_ns same m)

  ensure_existing-Settled :
      (ns : Namespace) (s : System W)
      → client.namespaces.get ns.name s.world ≡ found ns
      → can_take_ownership ns.annotations owner ≡ true
      → (ensure_existing client managed_by now owner ns s).0 ≡ ok tt
      → Settled client managed_by owner ns.name
          (ensure_existing client managed_by now owner ns s).1.world
  unfolding refresh
  ensure_existing-Settled ns s e free h =
      let step = ensure_existing_free client laws managed_by now owner ns s free in
      rw step (
        update_existing-Settled (refresh managed_by now owner ns)
          (count_adoption client managed_by now owner ns s) ns
          (ap (λ (w : W). client.namespaces.get ns.name w)
              (world-count_adoption client laws managed_by now owner ns s)
            ∙ e)
          (refresh-false-IsManaged managed_by now owner ns)
          (refresh-IsManaged managed_by now owner ns clock) (rw step at h))

  ensure_namespace_new :
      (n : String) (s : System W)
      → client.namespaces.get n s.world ≡ not_found
      → (ensure n s).0 ≡ ok tt
      → Settled client managed_by owner n (ensure n s).1.world
  unfolding ensure_namespace ensure_fetched new_namespace
  ensure_namespace_new n s e h =
      let new = new_namespace managed_by now owner n in
      let written = finish-ok create_failed s (client.namespaces.create new s.world) (rw e at h) in
      let (kept_ns, e', same) = laws.get-create new s.world written in
      (
        kept_ns,
        rw (e, finish-world) e',
        IsManaged-stored managed_by owner new kept_ns same
            (new_namespace-IsManaged managed_by now owner n clock),
      )

  ensure_namespace_error :
      (n : String) (s : System W)
      → client.namespaces.get n s.world ≡ failed
      → (ensure n s).0 ≢ ok tt
  unfolding ensure_namespace ensure_fetched
  ensure_namespace_error n s e = rw e (cc)

  ensure_namespace-Settled :
      (n : String) (s : System W) (ns : Namespace)
      → client.namespaces.get n s.world ≡ found ns
      → can_take_ownership ns.annotations owner ≡ true
      → (ensure n s).0 ≡ ok tt
      → Settled client managed_by owner n (ensure n s).1.world
  ensure_namespace-Settled n s ns e free h =
      let step = ensure_namespace_found client laws managed_by now owner n s ns e in
      let here = laws.get_keyed n s.world ns e in
      rw step (
        subst
          (λ (k : String).
            Settled client managed_by owner k
              (ensure_existing client managed_by now owner ns s).1.world)
          here
          (ensure_existing-Settled ns s
            (ap (λ (k : String). client.namespaces.get k s.world) here ∙ e) free (rw step at h)))

  -- After a call that succeeds the namespace is there and managed by the caller, or another
  -- PermissionBinder has a live claim on it and the cluster is as it was.
  pub ensure_namespace_outcome :
      (n : String) (s : System W)
      → (ensure n s).0 ≡ ok tt
      → Settled client managed_by owner n (ensure n s).1.world
        ⊎ ((ns : Namespace) × (client.namespaces.get n s.world ≡ found ns)
            × (can_take_ownership ns.annotations owner ≡ false)
            × ((ensure n s).1.world ≡ s.world))
  ensure_namespace_outcome n s h = elim (Fetch-cases (client.namespaces.get n s.world)) [
    | inl (ns, e) ↦ elim (Bool-cases (can_take_ownership ns.annotations owner)) [
      | inl free ↦ inl (ensure_namespace-Settled n s ns e free h)
      | inr shut ↦ inr (
        ns,
        e,
        shut,
        rw (ensure_namespace_shut client laws managed_by now owner n s ns e shut) refl,
      )
    ]
    | inr (inl e) ↦ inl (ensure_namespace_new n s e h)
    | inr (inr e) ↦ absurd (ensure_namespace_error n s e h)
  ]

-- A call on a managed namespace writes nothing.
ensure_existing_quiet :
    {W : Type 0} (client : Client W) (managed_by now : String) (owner : Owner) (ns : Namespace)
    (s : System W)
    → IsManaged managed_by owner ns
    → (ensure_existing client managed_by now owner ns s).1.world ≡ s.world
unfolding ensure_existing update_existing count_adoption
ensure_existing_quiet client managed_by now owner ns s m =
    let free = can_take_of_owned ns.annotations owner m.owned in
    let down = IsManaged-refresh managed_by now owner ns m in
    rw (free, m.adopted) (ground (arith, down))

module _ {W : Type 0} (client : Client W) (laws : KindLaws key_of StoredNamespace client.namespaces)
    (managed_by now later : String) (owner : Owner) (clock : now ≢ "") where
  again_settled :
      (n : String) (s : System W) (ns : Namespace)
      → client.namespaces.get n s.world ≡ found ns
      → IsManaged managed_by owner ns
      → (ensure_namespace client managed_by later owner n s).1.world ≡ s.world
  again_settled n s ns e m =
      rw (ensure_namespace_found client laws managed_by later owner n s ns e)
        (ensure_existing_quiet client managed_by later owner ns s m)

  again_shut :
      (n : String) (s : System W) (ns : Namespace)
      → client.namespaces.get n s.world ≡ found ns
      → can_take_ownership ns.annotations owner ≡ false
      → (ensure_namespace client managed_by later owner n s).1.world ≡ s.world
  again_shut n s ns e shut =
      rw (ensure_namespace_shut client laws managed_by later owner n s ns e shut) refl

  -- A second call, at any later time, writes nothing.
  pub ensure_namespace_twice :
      (n : String) (s : System W)
      → (ensure_namespace client managed_by now owner n s).0 ≡ ok tt
      → (ensure_namespace client managed_by later owner n
          (ensure_namespace client managed_by now owner n s).1).1.world
        ≡ (ensure_namespace client managed_by now owner n s).1.world
  ensure_namespace_twice n s h =
      elim (ensure_namespace_outcome client laws managed_by now owner clock n s h) [
        | inl (ns, e, m) ↦
            again_settled n (ensure_namespace client managed_by now owner n s).1 ns e m
        | inr (ns, e, shut, same) ↦
            again_shut n (ensure_namespace client managed_by now owner n s).1 ns
              (ap (λ (w : W). client.namespaces.get n w) same ∙ e) shut
      ]
