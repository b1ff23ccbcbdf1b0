-- ===== src/Cleanup/Sweeps.antt =====
-- What a loop of updates and a loop of deletions leave of one role binding.
use permission_binder_operat.Prelude.{
  String, Bool, true, false, ◌≡◌, refl, sym, ◌∙◌, ap, ◌≢◌, ◌↔◌, inl, inr, List, [], ◌∷◌, In, arith,
  Bool-cases,
}
use permission_binder_operat.Ownership.{Owner}
use permission_binder_operat.Cluster.{
  RoleBinding, Fetch, found, not_found, KindLaws, Listing, StoredBinding, Client,
}
use permission_binder_operat.RoleBindings.Gate.{key_of, pair-cases}
use permission_binder_operat.Cleanup.{
  is_managed, managed_bindings, orphan_binding, orphan_bindings, delete_where,
}

-- Two objects that are found at one key are the same.
pub same_found :
    {W : Type 0} (client : Client W) {w : W} {xs : List RoleBinding} {x rb : RoleBinding}
    {k : String × String}
    → Listing key_of client.role_bindings w xs
    → In x xs
    → key_of x ≡ k
    → client.role_bindings.get k w ≡ found rb
    → x ≡ rb
same_found client l there same e = cc (l.there _ there, e, same)

clash : {b : Bool} → b ≡ true → b ≡ false → ⊥
clash h k = ground arith

-- The managed role bindings are the listed ones that the filter lets through.
pub In-managed_bindings_iff :
    (managed_by : String) (owner : Owner) (rb : RoleBinding) (xs : List RoleBinding)
    → In rb (managed_bindings managed_by owner xs)
      ↔ (In rb xs × (is_managed managed_by owner rb.labels rb.annotations ≡ true))
unfolding managed_bindings
In-managed_bindings_iff managed_by owner rb [] = ground arith
In-managed_bindings_iff managed_by owner rb (x ∷ xs) =
    let rest = In-managed_bindings_iff managed_by owner rb xs in
    elim (Bool-cases (is_managed managed_by owner x.labels x.annotations)) [
      | inl kept ↦ (
        λ h. elim (rw kept at h) [
          | inl e ↦ (inl e, rw e kept)
          | inr there ↦ let (more, m) = rest.0 there in (inr more, m)
        ],
        λ (h, m). rw kept (elim h [ inl e ↦ inl e | inr there ↦ inr (rest.1 (there, m)) ]),
      )
      | inr left ↦ (
        λ h. let (more, m) = rest.0 (rw left at h) in (inr more, m),
        λ (h, m).
            rw left
              (elim h [ inl e ↦ absurd (clash (rw e at m) left) | inr there ↦ rest.1 (there, m) ]),
      )
    ]

module _ {W : Type 0} (client : Client W)
    (laws : KindLaws key_of StoredBinding client.role_bindings) where
  abbrev get : String × String → W → Fetch RoleBinding
  get k w = client.role_bindings.get k w

  -- A property of the object at a key that the written objects for that key have, and that storing
  -- keeps, is kept by the loop of updates.
  pub orphan_bindings-keeps :
      (now : String) (k : String × String) (P : RoleBinding → Type 0)
      → ((a b : RoleBinding) → StoredBinding a b → P a → P b)
      → (xs : List RoleBinding) (w : W)
      → ((x : RoleBinding) → In x xs → key_of x ≡ k → P (orphan_binding now x))
      → (rb : RoleBinding) × (get k w ≡ found rb) × P rb
      → (rb : RoleBinding) × (get k (orphan_bindings client now xs w) ≡ found rb) × P rb
  unfolding orphan_bindings
  orphan_bindings-keeps now k P stored [] w good start = start
  orphan_bindings-keeps now k P stored (x ∷ xs) w good (rb, e, p) =
      let next = (client.role_bindings.update (orphan_binding now x) w).1 in
      orphan_bindings-keeps now k P stored xs next (λ y h. good y (inr h))
        (elim (pair-cases k (key_of x)) [
          | inr other ↦ (rb, laws.get-update_ne (orphan_binding now x) w k other ∙ e, p)
          | inl same ↦ elim (laws.get-update_or (orphan_binding now x) w) [
            | inl kept ↦ (rb, rw same (kept ∙ (rw same at e)), p)
            | inr (b, e', st) ↦ (b, rw same e', stored _ b st (good x (inl refl) (sym same)))
          ]
        ])

  -- If updates succeed, what the loop wrote for a role binding is there after it.
  pub orphan_bindings-written :
      (reliable : (a : RoleBinding) (w : W) → (client.role_bindings.update a w).0 ≡ true)
      (now : String) (rb : RoleBinding) (P : RoleBinding → Type 0)
      → ((a b : RoleBinding) → StoredBinding a b → P a → P b)
      → (xs : List RoleBinding) (w : W) → In rb xs
      → ((x : RoleBinding) → In x xs → key_of x ≡ key_of rb → P (orphan_binding now x))
      → (b : RoleBinding) × (get (key_of rb) (orphan_bindings client now xs w) ≡ found b) × P b
  unfolding orphan_bindings
  orphan_bindings-written reliable now rb P stored [] w there good = absurd there
  orphan_bindings-written reliable now rb P stored (x ∷ xs) w there good =
      let next = (client.role_bindings.update (orphan_binding now x) w).1 in
      elim there [
        | inl e ↦
            let (b, e', st) = laws.get-update (orphan_binding now x) w (reliable _ w) in
            orphan_bindings-keeps now (key_of rb) P stored xs next (λ y h. good y (inr h))
              (b, rw e e', stored _ b st (good x (inl refl) (ap key_of (sym e))))
        | inr more ↦
            orphan_bindings-written reliable now rb P stored xs next more (λ y h. good y (inr h))
      ]

  -- The loop of updates changes no other key than those of the role bindings it runs over.
  pub orphan_bindings-other :
      (now : String) (k : String × String) (xs : List RoleBinding) (w : W)
      → ((x : RoleBinding) → In x xs → k ≢ key_of x)
      → get k (orphan_bindings client now xs w) ≡ get k w
  unfolding orphan_bindings
  orphan_bindings-other now k [] w apart = refl
  orphan_bindings-other now k (x ∷ xs) w apart =
      orphan_bindings-other now k xs _ (λ y h. apart y (inr h))
      ∙ laws.get-update_ne (orphan_binding now x) w k (apart x (inl refl))

  -- The loop of deletions changes no other key than those of the role bindings that it picks.
  pub delete_where-other :
      (doomed : RoleBinding → Bool) (k : String × String) (xs : List RoleBinding) (w : W)
      → ((x : RoleBinding) → In x xs → doomed x ≡ true → k ≢ key_of x)
      → get k (delete_where client doomed xs w) ≡ get k w
  unfolding delete_where
  delete_where-other doomed k [] w apart = refl
  delete_where-other doomed k (x ∷ xs) w apart = elim (Bool-cases (doomed x)) [
    | inl gone ↦ rw gone (
        delete_where-other doomed k xs (client.role_bindings.remove x w).1 (λ y h. apart y (inr h))
        ∙ laws.get-remove_ne x w k (apart x (inl refl) gone))
    | inr kept ↦ rw kept (delete_where-other doomed k xs w (λ y h. apart y (inr h)))
  ]

  -- What is gone stays gone.
  pub delete_where-gone :
      (doomed : RoleBinding → Bool) (k : String × String) (xs : List RoleBinding) (w : W)
      → get k w ≡ not_found
      → get k (delete_where client doomed xs w) ≡ not_found
  unfolding delete_where
  delete_where-gone doomed k [] w e = e
  delete_where-gone doomed k (x ∷ xs) w e = elim (Bool-cases (doomed x)) [
    | inr kept ↦ rw kept (delete_where-gone doomed k xs w e)
    | inl gone ↦ rw gone (
        delete_where-gone doomed k xs (client.role_bindings.remove x w).1
          (elim (pair-cases k (key_of x)) [
            | inr other ↦ laws.get-remove_ne x w k other ∙ e
            | inl same ↦ rw same (laws.get-remove_gone x w (rw same at e))
          ]))
  ]

  -- If deletions succeed, a role binding that is picked is gone after the loop.
  pub delete_where-picked :
      (reliable : (a : RoleBinding) (w : W) → (client.role_bindings.remove a w).0 ≡ true)
      (doomed : RoleBinding → Bool) (rb : RoleBinding) (xs : List RoleBinding) (w : W)
      → In rb xs
      → doomed rb ≡ true
      → get (key_of rb) (delete_where client doomed xs w) ≡ not_found
  unfolding delete_where
  delete_where-picked reliable doomed rb [] w there pick = absurd there
  delete_where-picked reliable doomed rb (x ∷ xs) w there pick = elim there [
    | inl e ↦
        rw (rw e at pick, e)
          (delete_where-gone doomed (key_of x) xs (client.role_bindings.remove x w).1
            (laws.get-remove x w (reliable x w)))
    | inr more ↦ delete_where-picked reliable doomed rb xs _ more pick
  ]
