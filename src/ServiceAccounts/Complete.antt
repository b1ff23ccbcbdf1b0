-- ===== src/ServiceAccounts/Complete.antt =====
-- A run of `ProcessServiceAccounts` without an error has dealt with every entry of the mapping.
use permission_binder_operat.Prelude.{
  String, Bool, ◌≡◌, refl, sym, ◌∙◌, ap, subst, ◌≢◌, ◌⊎◌, inl, inr, Option, none, some, [], ◌∷◌, In,
  Distinct, Result, ok, err, Result-cases, arith,
}
use permission_binder_operat.GoString.Affixes.{append_cancel}
use permission_binder_operat.GoMap.{GoMap, keys}
use permission_binder_operat.Cluster.{
  KindLaws, StoredBinding, RoleBinding, Fetch, Client, System, OpError,
}
use permission_binder_operat.RoleBindings.Gate.{key_of}
use permission_binder_operat.ServiceAccounts.{
  Setting, new_account, ensure_account, then_binding, process_entry, process_mapping,
  process_service_accounts,
}
use permission_binder_operat.ServiceAccounts.Loops.{
  ensure_account-world, process_mapping-keeps, process_entry-keeps,
}
use permission_binder_operat.ServiceAccounts.Gate.{Apart, target, ensure_account_binding-other}
use permission_binder_operat.ServiceAccounts.Grants.{Bound, Shut, ensure_account_binding-Bound}

not_ok : {e : OpError} {b : Bool} → ◌≢◌ {A = Result OpError Bool} (err e) (ok b)
not_ok h = ground arith

not_none : {e : OpError} → ◌≢◌ {A = Option OpError} (some e) none
not_none h = ground arith

-- The key of an entry.
In-keys_of : (p : String × String) (m : GoMap String) → In p m → In p.0 (keys m)
In-keys_of p [] h = h
In-keys_of p ((k, v) ∷ m) (inl e) = inl (ap (λ (q : String × String). q.0) e)
In-keys_of p ((k, v) ∷ m) (inr h) = inr (In-keys_of p m h)

one : {a b : String} → In a (b ∷ []) → a ≡ b
one (inl e) = e
one (inr h) = absurd h

module _ {W : Type 0} (client : Client W)
    (laws : KindLaws key_of StoredBinding client.role_bindings) (apart : Apart client)
    (env : Setting) where
  abbrev get : String × String → W → Fetch RoleBinding
  get k w = client.role_bindings.get k w

  target_apart : (a b : String) → a ≢ b → target client env a ≢ target client env b
  target_apart a b h e = h (
      append_cancel _ a b
        (append_cancel _ _ _ (append_cancel "sa-" _ _ (ap (λ (p : String × String). p.1) e))))

  get-ensure_account :
      (sa_name role : String) (s : System W) (k : String × String)
      → get k (ensure_account client env sa_name role s).1.world ≡ get k s.world
  get-ensure_account sa_name role s k = elim (ensure_account-world client env sa_name role s) [
    | inl same ↦ rw same refl
    | inr (gone, new) ↦ rw new (apart.account-create (new_account env sa_name role) s.world k)
  ]

  -- One round for an entry.
  process_entry-Bound :
      (sa_name role : String) (s : System W) (b : Bool)
      → (process_entry client env sa_name role s).0 ≡ ok b
      → Bound client laws env sa_name role (process_entry client env sa_name role s).1.world
        ⊎ Shut client laws env sa_name s.world
  unfolding process_entry then_binding
  process_entry-Bound sa_name role s b h =
      let first = ensure_account client env sa_name role s in
      elim (Result-cases first.0) [
        | inr (x, e) ↦ absurd (not_ok (rw (e, then_binding) at h))
        | inl (c, e) ↦
            elim (ensure_account_binding-Bound client laws env sa_name role first.1 b
              (rw (e, then_binding) at h)) [
                | inl (_, bound) ↦ inl (rw (e, then_binding) bound)
                | inr (_, (rb, found_then, shut)) ↦
                    inr (rb, sym (get-ensure_account sa_name role s _) ∙ found_then, shut)
              ]
      ]

  process_entry-other :
      (sa_name role n : String) (s : System W)
      → n ≢ sa_name
      → get (target client env n) (process_entry client env sa_name role s).1.world
        ≡ get (target client env n) s.world
  process_entry-other sa_name role n s h =
      process_entry-keeps client env
        (λ (w : W). get (target client env n) w ≡ get (target client env n) s.world) (sa_name ∷ [])
        (λ a r w gone p. apart.account-create (new_account env a r) w _ ∙ p)
        (λ a r t there p.
          ensure_account_binding-other client laws env a r t _
            (target_apart n a (λ e. h (e ∙ (one there))))
          ∙ p)
        sa_name role s (inl refl) refl

  -- The rest of the loop does not touch the role binding of an entry that is done.
  process_mapping-other :
      (mapping : GoMap String) (n : String) (s : System W)
      → (In n (keys mapping) → ⊥)
      → get (target client env n) (process_mapping client env mapping s).1.world
        ≡ get (target client env n) s.world
  process_mapping-other mapping n s out =
      process_mapping-keeps client env
        (λ (w : W). get (target client env n) w ≡ get (target client env n) s.world) (keys mapping)
        (λ a r w gone p. apart.account-create (new_account env a r) w _ ∙ p)
        (λ a r t there p.
          ensure_account_binding-other client laws env a r t _ (
            target_apart n a (λ e. out (subst (λ (m : String). In m (keys mapping)) (sym e) there)))
          ∙ p)
        mapping s (λ m h. h) refl

  abbrev Done : String → String → System W → W → Type 0
  Done sa_name role s w =
      Bound client laws env sa_name role w ⊎ Shut client laws env sa_name s.world

  -- The first entry of the mapping, after the whole loop.
  head-Done :
      (n role : String) (rest : GoMap String) (s : System W) (b : Bool)
      → (In n (keys rest) → ⊥)
      → (process_entry client env n role s).0 ≡ ok b
      → Done n role s
          (process_mapping client env rest (process_entry client env n role s).1).1.world
  head-Done n role rest s b out e = elim (process_entry-Bound n role s b e) [
    | inl (rb, there, bound) ↦
        inl (
          rb,
          process_mapping-other rest n (process_entry client env n role s).1 out ∙ there,
          bound,
        )
    | inr shut ↦ inr shut
  ]

  -- A later entry was as it is before the first round.
  back :
      (n r sa_name role : String) (s : System W) (w : W)
      → sa_name ≢ n
      → Done sa_name role (process_entry client env n r s).1 w
      → Done sa_name role s w
  back n r sa_name role s w differs (inl bound) = inl bound
  back n r sa_name role s w differs (inr (rb, there, shut)) =
      inr (rb, sym (process_entry-other n r sa_name s differs) ∙ there, shut)

  mapping-Done :
      (mapping : GoMap String) (s : System W)
      → Distinct (keys mapping)
      → (process_mapping client env mapping s).0.error ≡ none
      → (sa_name role : String) → In (sa_name, role) mapping
      → Done sa_name role s (process_mapping client env mapping s).1.world
  unfolding process_mapping
  mapping-Done [] s d h sa_name role there = absurd there
  mapping-Done ((n, r) ∷ rest) s d h sa_name role there =
      let step = process_entry client env n r s in
      elim (Result-cases step.0) [
        | inr (x, e) ↦ absurd (not_none (rw (e, process_mapping) at h))
        | inl (b, e) ↦
            rw (e, process_mapping)
              (elim there [
                | inl same ↦
                    subst
                      (λ (p : String × String).
                        Done p.0 p.1 s (process_mapping client env rest step.1).1.world)
                      (sym same) (head-Done n r rest s b d.0 e)
                | inr more ↦
                    back n r sa_name role s _
                      (λ clash. d.0 (
                        subst (λ (m : String). In m (keys rest)) clash
                          (In-keys_of (sa_name, role) rest more)))
                      (mapping-Done rest step.1 d.1 (rw (e, process_mapping) at h) sa_name role
                        more)
              ])
      ]

  -- A run that returns no error over a mapping without a name twice has dealt with every entry: the
  -- role binding of the entry is there, the name in its role reference is that of the cluster role, the
  -- name of its first subject is that of the ServiceAccount, and its annotations name the owner and the
  -- owner's namespace, or another PermissionBinder had a live claim on it at the start. The kind, the
  -- group and the namespace of the reference and the subject are not part of this: of a role binding
  -- that is there already the source compares the names only.
  pub process_service_accounts_outcome :
      (mapping : GoMap String) (s : System W)
      → Distinct (keys mapping)
      → (process_service_accounts client env mapping s).0.error ≡ none
      → (sa_name role : String) → In (sa_name, role) mapping
      → Bound client laws env sa_name role (process_service_accounts client env mapping s).1.world
        ⊎ Shut client laws env sa_name s.world
  unfolding process_service_accounts
  process_service_accounts_outcome mapping s d h sa_name role there =
      mapping-Done mapping s d h sa_name role there
