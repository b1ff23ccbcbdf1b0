-- ===== src/RoleBindings/Immutable.antt =====
-- A server that refuses to change the role reference of a role binding, as Kubernetes does.
use permission_binder_operat.Prelude.{
  String, Bool, true, false, ◌≡◌, refl, ◌≢◌, ◌⊎◌, inl, inr, if◌then◌else◌, arith, Bool-cases,
}
use permission_binder_operat.Cluster.{
  RoleBinding, Fetch, found, not_found, failed, Fetch-cases, Kind, KindLaws, StoredBinding,
}
use permission_binder_operat.RoleBindings.{same_role_ref}
use permission_binder_operat.RoleBindings.Update.{same_role_ref_sound}
use permission_binder_operat.RoleBindings.Gate.{key_of}

not_done : false ≢ true
not_done h = ground arith

module _ {W : Type 0} (kind : Kind (String × String) RoleBinding W) where
  strict_update : RoleBinding → Fetch RoleBinding → W → Bool × W
  strict_update a (found old) w =
      if same_role_ref a.role_ref old.role_ref then kind.update a w else (false, w)
  strict_update a not_found w = kind.update a w
  strict_update a failed w = kind.update a w

  unfoldable pub strict_kind : Kind (String × String) RoleBinding W
  unfolding strict_update
  strict_kind = record kind { update = λ a w. strict_update a (kind.get (key_of a) w) w }

  -- The update was refused or carried out.
  update-cases :
      (a : RoleBinding) (w : W)
      → (strict_kind.update a w ≡ (false, w)) ⊎ (strict_kind.update a w ≡ kind.update a w)
  unfolding strict_kind strict_update
  update-cases a w = elim (Fetch-cases (kind.get (key_of a) w)) [
    | inr (inl e) ↦ inr (rw e refl)
    | inr (inr e) ↦ inr (rw e refl)
    | inl (old, e) ↦ elim (Bool-cases (same_role_ref a.role_ref old.role_ref)) [
      | inl same ↦ inr (rw (e, same) refl)
      | inr other ↦ inl (rw (e, other) refl)
    ]
  ]

  pub strict_kind-immutable :
      (a old : RoleBinding) (w : W)
      → strict_kind.get (key_of a) w ≡ found old
      → a.role_ref ≢ old.role_ref
      → strict_kind.update a w ≡ (false, w)
  unfolding strict_kind strict_update
  strict_kind-immutable a old w e differs =
      elim (Bool-cases (same_role_ref a.role_ref old.role_ref)) [
        | inl same ↦ absurd (differs (same_role_ref_sound _ _ same))
        | inr other ↦ rw (e, other) refl
      ]

  pub strict_kind_laws :
      KindLaws key_of StoredBinding kind → KindLaws key_of StoredBinding strict_kind
  unfolding strict_kind
  strict_kind_laws laws = record {
    get-create = λ a w h. laws.get-create a w h;
    get-create_ne = λ a w k h. laws.get-create_ne a w k h;
    get-remove = λ a w h. laws.get-remove a w h;
    get-remove_gone = λ a w h. laws.get-remove_gone a w h;
    get-remove_ne = λ a w k h. laws.get-remove_ne a w k h;
    get_keyed = λ k w a h. laws.get_keyed k w a h;
    get-update = λ a w h. elim (update-cases a w) [
      | inl refused ↦ absurd (not_done (rw refused at h))
      | inr done ↦ rw done (laws.get-update a w (rw done at h))
    ];
    get-update_or = λ a w. elim (update-cases a w) [
      | inl refused ↦ inl (rw refused refl)
      | inr done ↦ rw done (laws.get-update_or a w)
    ];
    get-update_ne = λ a w k h. elim (update-cases a w) [
      | inl refused ↦ rw refused refl
      | inr done ↦ rw done (laws.get-update_ne a w k h)
    ];
  }
