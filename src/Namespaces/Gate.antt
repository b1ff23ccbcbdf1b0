-- ===== src/Namespaces/Gate.antt =====
-- `ensureNamespace` on every branch: a namespace claimed by another PermissionBinder is left as it
-- is, any other ends up managed, and a second call writes nothing.
use permission_binder_operat.Prelude.{
  String, Bool, true, false, ◌≡◌, refl, ◌∙◌, ap, ◌≢◌, inl, inr, ok, ◌==◌, eq_iff, arith, Bool-cases,
}
use permission_binder_operat.Ownership.{Owner, can_take_ownership}
use permission_binder_operat.Cluster.{
  Namespace, Fetch, found, Fetch-cases, KindLaws, StoredNamespace, Client, System, count,
  finish-world, ownership_conflict,
}
use permission_binder_operat.Namespaces.{
  new_namespace, refresh, count_adoption, update_existing, ensure_existing, ensure_fetched,
  ensure_namespace,
}

abbrev pub key_of : Namespace → String
key_of ns = ns.name

module _ {W : Type 0} (client : Client W) (laws : KindLaws key_of StoredNamespace client.namespaces)
    (managed_by now : String) (owner : Owner) where
  abbrev get : String → W → Fetch Namespace
  get k w = client.namespaces.get k w

  pub world-count_adoption :
      (ns : Namespace) (s : System W)
      → (count_adoption client managed_by now owner ns s).world ≡ s.world
  unfolding count_adoption
  world-count_adoption ns s = ground arith

  update_existing_other :
      (p : Namespace × Bool) (s : System W) (k : String)
      → k ≢ p.0.name
      → get k (update_existing client managed_by now owner p s).1.world ≡ get k s.world
  unfolding update_existing
  update_existing_other (ns, false) s k h = refl
  update_existing_other (ns, true) s k h = rw finish-world (laws.get-update_ne ns s.world k h)

  pub name-refresh : (ns : Namespace) → (refresh managed_by now owner ns).0.name ≡ ns.name
  unfolding refresh
  name-refresh ns = refl

  -- The branch behind the gate.
  pub ensure_existing_shut :
      (ns : Namespace) (s : System W)
      → can_take_ownership ns.annotations owner ≡ false
      → ensure_existing client managed_by now owner ns s
        ≡ (ok tt, count (ownership_conflict "namespace") s)
  unfolding ensure_existing
  ensure_existing_shut ns s h = rw h refl

  pub ensure_existing_free :
      (ns : Namespace) (s : System W)
      → can_take_ownership ns.annotations owner ≡ true
      → ensure_existing client managed_by now owner ns s
        ≡ update_existing client managed_by now owner
            (refresh managed_by now owner ns)
            (count_adoption client managed_by now owner ns s)
  unfolding ensure_existing
  ensure_existing_free ns s h = rw h refl

  ensure_existing_other :
      (ns : Namespace) (s : System W) (k : String)
      → k ≢ ns.name
      → get k (ensure_existing client managed_by now owner ns s).1.world ≡ get k s.world
  ensure_existing_other ns s k h = elim (Bool-cases (can_take_ownership ns.annotations owner)) [
    | inl free ↦ rw (ensure_existing_free ns s free) (
        update_existing_other (refresh managed_by now owner ns) _ k (rw (name-refresh ns) h)
        ∙ ap (get k) (world-count_adoption ns s))
    | inr shut ↦ rw (ensure_existing_shut ns s shut) refl
  ]

  -- Only the namespace asked for is written to.
  ensure_namespace_other :
      (n : String) (s : System W) (k : String)
      → k ≢ n
      → get k (ensure_namespace client managed_by now owner n s).1.world ≡ get k s.world
  unfolding ensure_namespace ensure_fetched new_namespace
  ensure_namespace_other n s k h = elim (Fetch-cases (get n s.world)) [
    | inl (ns, e) ↦ rw e (ensure_existing_other ns s k (rw (laws.get_keyed n s.world ns e) h))
    | inr (inl e) ↦ rw (e, finish-world) (laws.get-create_ne _ s.world k h)
    | inr (inr e) ↦ rw e refl
  ]

  pub ensure_namespace_found :
      (n : String) (s : System W) (ns : Namespace)
      → get n s.world ≡ found ns
      → ensure_namespace client managed_by now owner n s
        ≡ ensure_existing client managed_by now owner ns s
  unfolding ensure_namespace ensure_fetched
  ensure_namespace_found n s ns e = rw e refl

  -- The namespace asked for, when it is there and claimed by another PermissionBinder, is left alone.
  pub ensure_namespace_shut :
      (n : String) (s : System W) (ns : Namespace)
      → get n s.world ≡ found ns
      → can_take_ownership ns.annotations owner ≡ false
      → ensure_namespace client managed_by now owner n s
        ≡ (ok tt, count (ownership_conflict "namespace") s)
  unfolding ensure_namespace ensure_fetched
  ensure_namespace_shut n s ns e h = rw e (ensure_existing_shut ns s h)

  -- No namespace that another PermissionBinder has a live claim on is changed, whichever namespace
  -- is asked for and whether or not the calls succeed.
  pub ensure_namespace-foreign :
      (n k : String) (s : System W) (ns : Namespace)
      → get k s.world ≡ found ns
      → can_take_ownership ns.annotations owner ≡ false
      → get k (ensure_namespace client managed_by now owner n s).1.world ≡ found ns
  ensure_namespace-foreign n k s ns e h = elim (Bool-cases (k == n)) [
    | inl same ↦
        let at_n = (eq_iff k n).0 same in rw (ensure_namespace_shut n s ns (rw at_n at e) h) e
    | inr other ↦ ensure_namespace_other n s k (λ at_n. absurd (ground (arith, eq_iff k n))) ∙ e
  ]
