-- ===== src/Namespaces/Frame.antt =====
-- What the writes to namespaces keep, `ensureNamespace` keeps.
use permission_binder_operat.Prelude.{
  String, Bool, true, false, ◌≡◌, inl, inr, arith, Bool-cases, subst, sym,
}
use permission_binder_operat.Ownership.{Owner, can_take_ownership}
use permission_binder_operat.Cluster.{Namespace, Fetch-cases, Client, System, finish-world}
use permission_binder_operat.Namespaces.{
  new_namespace, refresh, count_adoption, update_existing, ensure_existing, ensure_fetched,
  ensure_namespace,
}

module _ {W : Type 0} (client : Client W) (managed_by now : String) (owner : Owner) (P : W → Type 0)
    (create : (ns : Namespace) (w : W) → P w → P (client.namespaces.create ns w).1)
    (update : (ns : Namespace) (w : W) → P w → P (client.namespaces.update ns w).1) where
  adopted_world :
      (ns : Namespace) (s : System W)
      → (count_adoption client managed_by now owner ns s).world ≡ s.world
  unfolding count_adoption
  adopted_world ns s = ground arith

  update_existing-keeps :
      (p : Namespace × Bool) (s : System W)
      → P s.world
      → P (update_existing client managed_by now owner p s).1.world
  unfolding update_existing
  update_existing-keeps (ns, false) s p = p
  update_existing-keeps (ns, true) s p = rw finish-world (update ns s.world p)

  ensure_existing-keeps :
      (ns : Namespace) (s : System W)
      → P s.world
      → P (ensure_existing client managed_by now owner ns s).1.world
  unfolding ensure_existing
  ensure_existing-keeps ns s p = elim (Bool-cases (can_take_ownership ns.annotations owner)) [
    | inr shut ↦ rw shut p
    | inl free ↦ rw free (
        update_existing-keeps (refresh managed_by now owner ns) _
          (subst P (sym (adopted_world ns s)) p))
  ]

  pub ensure_namespace-keeps :
      (n : String) (s : System W)
      → P s.world
      → P (ensure_namespace client managed_by now owner n s).1.world
  unfolding ensure_namespace ensure_fetched
  ensure_namespace-keeps n s p = elim (Fetch-cases (client.namespaces.get n s.world)) [
    | inl (ns, e) ↦ rw e (ensure_existing-keeps ns s p)
    | inr (inl e) ↦ rw (e, finish-world) (create (new_namespace managed_by now owner n) s.world p)
    | inr (inr e) ↦ rw e p
  ]
