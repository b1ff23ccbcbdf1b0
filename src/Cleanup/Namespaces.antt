-- ===== src/Cleanup/Namespaces.antt =====
-- `cleanupManagedResources` loses no namespace.
use permission_binder_operat.Prelude.{
  String, false, ◌≡◌, refl, sym, ◌∙◌, ap, subst, ◌≢◌, inl, inr, Option, none, some, List, [], ◌∷◌,
  arith, ◌==◌, eq_iff, Bool-cases,
}
use permission_binder_operat.Ownership.{Owner, read, label_managed_by}
use permission_binder_operat.Cluster.{
  Namespace, RoleBinding, found, Fetch-cases, KindLaws, StoredNamespace, Client,
}
use permission_binder_operat.Cleanup.{
  orphan_namespace, orphan_bindings, orphan_fetched, orphan_namespaces, orphan_listed, orphan_named,
  orphan_binding, get_managed_role_bindings, get_managed_namespaces, cleanup_managed_resources,
}
use permission_binder_operat.Cleanup.SafeMode.{IsUnmarked, IsUnmarked-mark}

-- `b` carries the operator's label and the annotations of `a`, up to the markers.
pub record IsKeptNamespace (a b : Namespace) : Type 0 where
  pub label : read label_managed_by b.labels ≡ read label_managed_by a.labels
  pub rest : IsUnmarked a.annotations b.annotations

IsKeptNamespace-orphan :
    (now : String) (a b : Namespace)
    → IsKeptNamespace a b
    → IsKeptNamespace a (orphan_namespace now b)
IsKeptNamespace-orphan now a b k = record {
  label = k.label;
  rest = λ j h i. IsUnmarked-mark now b.annotations j h i ∙ k.rest j h i;
}

IsKeptNamespace-stored :
    (a b c : Namespace) → StoredNamespace b c → IsKeptNamespace a b → IsKeptNamespace a c
IsKeptNamespace-stored a b c (_, notes, labels) k = record {
  label = sym labels ∙ k.label;
  rest = subst (IsUnmarked a.annotations) notes k.rest;
}

found_same : {a b : Namespace} → found a ≡ found b → a ≡ b
found_same h = ground arith

differs : (a b : String) → (a == b) ≡ false → a ≢ b
differs a b h e = absurd (ground (arith, eq_iff a b))

module _ {W : Type 0} (client : Client W)
    (laws : KindLaws (λ (ns : Namespace). ns.name) StoredNamespace client.namespaces)
    (apart : (rb : RoleBinding) (w : W) (n : String)
      → client.namespaces.get n (client.role_bindings.update rb w).1 ≡ client.namespaces.get n w)
    (now : String) where
  abbrev Kept : String → Namespace → W → Type 0
  Kept n ns w = (b : Namespace) × (client.namespaces.get n w ≡ found b) × IsKeptNamespace ns b

  orphan_bindings-apart :
      (n : String) (xs : List RoleBinding) (w : W)
      → client.namespaces.get n (orphan_bindings client now xs w) ≡ client.namespaces.get n w
  unfolding orphan_bindings
  orphan_bindings-apart n [] w = refl
  orphan_bindings-apart n (x ∷ xs) w =
      orphan_bindings-apart n xs _ ∙ apart (orphan_binding now x) w n

  orphan_listed-apart :
      (n : String) (xs : Option (List RoleBinding)) (w : W)
      → client.namespaces.get n (orphan_listed client now xs w) ≡ client.namespaces.get n w
  unfolding orphan_listed
  orphan_listed-apart n none w = refl
  orphan_listed-apart n (some xs) w = orphan_bindings-apart n xs w

  -- The update of the namespace that was found at `m`.
  updated-Kept :
      (n m : String) (ns x : Namespace) (w : W)
      → client.namespaces.get m w ≡ found x
      → Kept n ns w
      → Kept n ns (client.namespaces.update (orphan_namespace now x) w).1
  updated-Kept n m ns x w e (b, there, k) =
      let here = laws.get_keyed m w x e in
      elim (Bool-cases (n == x.name)) [
        | inr other ↦ (
          b,
          laws.get-update_ne (orphan_namespace now x) w n (λ same. differs n x.name other same)
              ∙ there,
          k,
        )
        | inl same ↦
            let at_n = (eq_iff n x.name).0 same in
            let same_object : b ≡ x =
              found_same
                (sym there ∙ ap (λ (i : String). client.namespaces.get i w) (at_n ∙ here) ∙ e) in
            elim (laws.get-update_or (orphan_namespace now x) w) [
              | inl kept ↦ (b, rw at_n (kept ∙ (rw at_n at there)), k)
              | inr (c, e', st) ↦ (
                c,
                rw at_n e',
                IsKeptNamespace-stored ns _ c st
                    (IsKeptNamespace-orphan now ns x (subst (IsKeptNamespace ns) same_object k)),
              )
            ]
      ]

  orphan_namespaces-Kept :
      (n : String) (ns : Namespace) (names : List String) (w : W)
      → Kept n ns w
      → Kept n ns (orphan_namespaces client now names w)
  unfolding orphan_namespaces orphan_fetched
  orphan_namespaces-Kept n ns [] w k = k
  orphan_namespaces-Kept n ns (m ∷ rest) w k =
      orphan_namespaces-Kept n ns rest _ (elim (Fetch-cases (client.namespaces.get m w)) [
        | inl (x, e) ↦ rw e (updated-Kept n m ns x w e k)
        | inr (inl e) ↦ rw e k
        | inr (inr e) ↦ rw e k
      ])

  orphan_named-Kept :
      (n : String) (ns : Namespace) (names : Option (List String)) (w : W)
      → Kept n ns w
      → Kept n ns (orphan_named client now names w)
  unfolding orphan_named
  orphan_named-Kept n ns none w k = k
  orphan_named-Kept n ns (some names) w k = orphan_namespaces-Kept n ns names w k

  -- The cleanup deletes no namespace: each is still there, with the operator's label and with its
  -- annotations but for the two markers, whether or not the calls succeed.
  pub cleanup_managed_resources-namespaces :
      (managed_by : String) (owner : Owner) (w : W) (n : String) (ns : Namespace)
      → client.namespaces.get n w ≡ found ns
      → (b : Namespace) × (client.namespaces.get n
            (cleanup_managed_resources client managed_by now owner w)
          ≡ found b)
        × IsKeptNamespace ns b
  unfolding cleanup_managed_resources
  cleanup_managed_resources-namespaces managed_by owner w n ns e =
      let bindings_done =
        orphan_listed client now (get_managed_role_bindings client managed_by owner w) w in
      orphan_named-Kept n ns (get_managed_namespaces client managed_by owner bindings_done)
        bindings_done
        (
          ns,
          orphan_listed-apart n (get_managed_role_bindings client managed_by owner w) w ∙ e,
          record { label = refl; rest = λ j h i. refl },
        )
