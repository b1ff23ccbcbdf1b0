-- ===== src/Cleanup/SafeMode.antt =====
-- `cleanupManagedResources` loses nothing, and leaves what it managed for others to adopt.
use permission_binder_operat.Prelude.{
  false, ap, String, true, ◌≡◌, refl, sym, ◌∙◌, subst, ◌≢◌, inl, inr, Option, none, some, List, [],
  ◌∷◌, map, In, eq_iff, arith, Option-cases,
}
use permission_binder_operat.Ownership.{
  annotation_orphaned_at, annotation_orphaned_by, NilMap, Owner, read, is_owned_by,
  can_take_ownership,
}
use permission_binder_operat.Ownership.Laws.{can_take_ownership_iff}
use permission_binder_operat.Stamp.{mark_orphaned}
use permission_binder_operat.Stamp.Laws.{read-mark_orphaned}
use permission_binder_operat.Cluster.{
  Namespace, RoleBinding, Fetch, found, Fetch-cases, KindLaws, Honest, StoredBinding, Client, bare,
}
use permission_binder_operat.RoleBindings.Gate.{key_of}
use permission_binder_operat.Cleanup.{
  is_managed, managed_bindings, orphan_binding, orphan_namespace, orphan_fetched, orphan_namespaces,
  orphan_listed, orphan_named, get_managed_role_bindings, cleanup_managed_resources,
}
use permission_binder_operat.Cleanup.Sweeps.{
  same_found, In-managed_bindings_iff, orphan_bindings-other, orphan_bindings-keeps,
  orphan_bindings-written,
}

-- Only the markers of the cleanup may differ.
abbrev pub IsUnmarked : NilMap → NilMap → Type 0
IsUnmarked a b =
    (j : String) → j ≢ annotation_orphaned_at → j ≢ annotation_orphaned_by → read j b ≡ read j a

-- `b` grants what `a` granted and carries its labels and annotations, up to the markers.
pub record IsKept (a b : RoleBinding) : Type 0 where
  pub role : b.role_ref ≡ a.role_ref
  pub subjects : map bare b.subjects ≡ map bare a.subjects
  pub labels : b.labels ≡ a.labels
  pub rest : IsUnmarked a.annotations b.annotations

pub IsUnmarked-mark : (now : String) (a : NilMap) → IsUnmarked a (mark_orphaned now a)
IsUnmarked-mark now a j h k = ground (
  arith,
  read-mark_orphaned j now a,
  eq_iff annotation_orphaned_at j,
  eq_iff annotation_orphaned_by j,
)

IsKept-orphan : (now : String) (a : RoleBinding) → IsKept a (orphan_binding now a)
IsKept-orphan now a = record {
  role = refl;
  subjects = refl;
  labels = refl;
  rest = IsUnmarked-mark now a.annotations;
}

IsKept-stored : (a b c : RoleBinding) → StoredBinding b c → IsKept a b → IsKept a c
IsKept-stored a b c (_, _, notes, labels, role, subjects) k = record {
  role = sym role ∙ k.role;
  subjects = sym subjects ∙ k.subjects;
  labels = sym labels ∙ k.labels;
  rest = subst (IsUnmarked a.annotations) notes k.rest;
}

can_take-mark :
    (now : String) (clock : now ≢ "") (a : NilMap) (other : Owner)
    → can_take_ownership (mark_orphaned now a) other ≡ true
can_take-mark now clock a other =
    (can_take_ownership_iff (mark_orphaned now a) other).1
      (inr (inr (λ e. clock (sym (read-mark_orphaned annotation_orphaned_at now a) ∙ e))))

unowned :
    (managed_by : String) (owner : Owner) (x rb : RoleBinding)
    → x ≡ rb
    → is_managed managed_by owner x.labels x.annotations ≡ true
    → is_owned_by rb.annotations owner ≡ false
    → ⊥
unfolding is_managed
unowned managed_by owner x rb same m foreign =
    absurd
      (ground (arith, m, foreign, ap (λ (b : RoleBinding). is_owned_by b.annotations owner) same))

module _ {W : Type 0} (client : Client W)
    (laws : KindLaws key_of StoredBinding client.role_bindings)
    (apart : (ns : Namespace) (w : W) (k : String × String)
      → client.role_bindings.get k (client.namespaces.update ns w).1
        ≡ client.role_bindings.get k w) where
  abbrev get : String × String → W → Fetch RoleBinding
  get k w = client.role_bindings.get k w

  get-orphan_namespaces :
      (now : String) (names : List String) (w : W) (k : String × String)
      → get k (orphan_namespaces client now names w) ≡ get k w
  unfolding orphan_namespaces orphan_fetched
  get-orphan_namespaces now [] w k = refl
  get-orphan_namespaces now (n ∷ rest) w k =
      get-orphan_namespaces now rest _ k ∙ (elim (Fetch-cases (client.namespaces.get n w)) [
        | inl (ns, e) ↦ rw e (apart (orphan_namespace now ns) w k)
        | inr (inl e) ↦ rw e refl
        | inr (inr e) ↦ rw e refl
      ])

  get-orphan_named :
      (now : String) (names : Option (List String)) (w : W) (k : String × String)
      → get k (orphan_named client now names w) ≡ get k w
  unfolding orphan_named
  get-orphan_named now none w k = refl
  get-orphan_named now (some names) w k = get-orphan_namespaces now names w k

  -- The cleanup deletes no role binding: each is still there, grants what it granted, and has its
  -- labels and its annotations but for the two markers, whether or not the updates succeed.
  pub cleanup_managed_resources-keeps :
      (managed_by now : String) (owner : Owner) (w : W)
      → Honest key_of client.role_bindings w
      → (k : String × String) (rb : RoleBinding) → get k w ≡ found rb
      → (b : RoleBinding) × (get k (cleanup_managed_resources client managed_by now owner w)
          ≡ found b)
        × IsKept rb b
  unfolding cleanup_managed_resources orphan_listed get_managed_role_bindings
  cleanup_managed_resources-keeps managed_by now owner w honest k rb e =
      rw get-orphan_named (elim (Option-cases (client.role_bindings.list w)) [
        | inl silent ↦
            rw silent
              (rb, e, record { role = refl; subjects = refl; labels = refl; rest = λ j h k. refl })
        | inr (xs, listed) ↦ rw listed (
            orphan_bindings-keeps client laws now k (IsKept rb) (IsKept-stored rb)
              (managed_bindings managed_by owner xs) w
              (λ x h same.
                subst (λ (a : RoleBinding). IsKept a (orphan_binding now x))
                  (same_found client (honest xs listed)
                    ((In-managed_bindings_iff managed_by owner x xs).0 h).0 same e)
                  (IsKept-orphan now x))
              (rb, e, record { role = refl; subjects = refl; labels = refl; rest = λ j h k. refl }))
      ])

  -- If the list and the updates succeed, every role binding that the deleted PermissionBinder managed
  -- can be taken by any PermissionBinder afterwards.
  pub cleanup_managed_resources-hands_over :
      ((a : RoleBinding) (w : W) → (client.role_bindings.update a w).0 ≡ true)
      → (managed_by now : String) (owner : Owner) (w : W) → now ≢ ""
      → (xs : List RoleBinding) → client.role_bindings.list w ≡ some xs
      → (rb : RoleBinding) → In rb xs
      → is_managed managed_by owner rb.labels rb.annotations ≡ true
      → (b : RoleBinding) × (get
            (key_of rb)
            (cleanup_managed_resources client managed_by now owner w)
          ≡ found b)
        × ((other : Owner) → can_take_ownership b.annotations other ≡ true)
  unfolding cleanup_managed_resources orphan_listed get_managed_role_bindings
  cleanup_managed_resources-hands_over reliable managed_by now owner w clock xs listed rb there m =
      rw (get-orphan_named, listed)
        (orphan_bindings-written client laws reliable now rb
          (λ (b : RoleBinding). (other : Owner) → can_take_ownership b.annotations other ≡ true)
          (λ a b (_, _, notes, _, _, _) h other.
            subst (λ (n : NilMap). can_take_ownership n other ≡ true) notes (h other))
          (managed_bindings managed_by owner xs) w
          ((In-managed_bindings_iff managed_by owner rb xs).1 (there, m))
          (λ x h same other. can_take-mark now clock x.annotations other))

  -- A role binding that the PermissionBinder does not own is not even marked.
  pub cleanup_managed_resources-foreign :
      (managed_by now : String) (owner : Owner) (w : W)
      → Honest key_of client.role_bindings w
      → (k : String × String) (rb : RoleBinding) → get k w ≡ found rb
      → is_owned_by rb.annotations owner ≡ false
      → get k (cleanup_managed_resources client managed_by now owner w) ≡ found rb
  unfolding cleanup_managed_resources orphan_listed get_managed_role_bindings is_managed
  cleanup_managed_resources-foreign managed_by now owner w honest k rb e foreign =
      rw get-orphan_named (elim (Option-cases (client.role_bindings.list w)) [
        | inl silent ↦ rw silent e
        | inr (xs, listed) ↦ rw listed (
            orphan_bindings-other client laws now k (managed_bindings managed_by owner xs) w
              (λ x h same. absurd (
                unowned managed_by owner x rb
                  (same_found client (honest xs listed)
                    ((In-managed_bindings_iff managed_by owner x xs).0 h).0 (sym same) e)
                  ((In-managed_bindings_iff managed_by owner x xs).0 h).1 foreign))
            ∙ e)
      ])
