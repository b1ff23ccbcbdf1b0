-- ===== src/ServiceAccounts/Gate.antt =====
-- `ProcessServiceAccounts` changes no existing ServiceAccount, and no role binding that another
-- PermissionBinder has a live claim on.
use permission_binder_operat.Prelude.{
  String, Bool, true, false, ◌≡◌, refl, sym, ◌∙◌, ap, subst, ◌≢◌, inl, inr, Bool-cases, arith,
}
use permission_binder_operat.GoMap.{GoMap, keys}
use permission_binder_operat.Ownership.{can_take_ownership}
use permission_binder_operat.Cluster.{
  ServiceAccount, RoleBinding, Fetch, found, not_found, Fetch-cases, KindLaws, StoredBinding,
  Client, System,
}
use permission_binder_operat.RoleBindings.Gate.{key_of, pair-cases}
use permission_binder_operat.ServiceAccounts.{
  Setting, full_name, binding_name, new_account, new_account_binding, restamp_owner, is_drifted,
  is_outdated, create_binding, recreate_removed, update_binding, binding_fetched,
  ensure_account_binding, process_service_accounts,
}
use permission_binder_operat.ServiceAccounts.Loops.{attempt-world, process_mapping-keeps}

-- The operations on the role bindings and those on the ServiceAccounts do not meet.
pub record Apart {W : Type 0} (client : Client W) : Type 0 where
  pub account-create :
      (sa : ServiceAccount) (w : W) (k : String × String)
      → client.role_bindings.get k (client.service_accounts.create sa w).1
        ≡ client.role_bindings.get k w
  pub binding-create :
      (rb : RoleBinding) (w : W) (k : String × String)
      → client.service_accounts.get k (client.role_bindings.create rb w).1
        ≡ client.service_accounts.get k w
  pub binding-update :
      (rb : RoleBinding) (w : W) (k : String × String)
      → client.service_accounts.get k (client.role_bindings.update rb w).1
        ≡ client.service_accounts.get k w
  pub binding-remove :
      (rb : RoleBinding) (w : W) (k : String × String)
      → client.service_accounts.get k (client.role_bindings.remove rb w).1
        ≡ client.service_accounts.get k w

taken : {sa : ServiceAccount} → found sa ≢ not_found
taken h = ground arith

module _ {W : Type 0} (client : Client W) (env : Setting) where
  -- Every step on the role binding is one of these.
  pub data Change (rb : RoleBinding) (sa_name role : String) (w : W) : W → Type 0 where
    idle : Change rb sa_name role w w
    removed : Change rb sa_name role w (client.role_bindings.remove rb w).1
    recreated :
        Change rb sa_name role w
          (client.role_bindings.create
            (new_account_binding env sa_name role)
            (client.role_bindings.remove rb w).1).1
    restamped : Change rb sa_name role w (client.role_bindings.update (restamp_owner env rb) w).1

  recreate-Change :
      (rb : RoleBinding) (sa_name role : String) (s : System W) (r : Bool × W)
      → r ≡ client.role_bindings.remove rb s.world
      → Change rb sa_name role s.world (recreate_removed client env sa_name role s r).1.world
  unfolding recreate_removed create_binding
  recreate-Change rb sa_name role s (true, w) e =
      subst (λ (v : W). Change rb sa_name role s.world v)
        (ap (λ (v : W). (client.role_bindings.create (new_account_binding env sa_name role) v).1)
            (sym (ap (λ (p : Bool × W). p.1) e))
          ∙ sym (attempt-world client env _ true _ _))
        recreated
  recreate-Change rb sa_name role s (false, w) e =
      subst (λ (v : W). Change rb sa_name role s.world v) (sym (ap (λ (p : Bool × W). p.1) e))
        removed

  pub update_binding-Change :
      (rb : RoleBinding) (sa_name role : String) (s : System W)
      → Change rb sa_name role s.world (update_binding client env sa_name role rb s).1.world
  unfolding update_binding
  update_binding-Change rb sa_name role s = elim (Bool-cases (is_drifted env sa_name role rb)) [
    | inl drifted ↦
        rw (drifted, update_binding)
          (recreate-Change rb sa_name role s (client.role_bindings.remove rb s.world) refl)
    | inr fine ↦ elim (Bool-cases (is_outdated env rb)) [
      | inl old ↦ rw (fine, update_binding, old, attempt-world) restamped
      | inr new ↦ rw (fine, update_binding, new) idle
    ]
  ]

  abbrev pub target : String → String × String
  target sa_name = (env.namespace, binding_name env sa_name)

module _ {W : Type 0} (client : Client W)
    (laws : KindLaws key_of StoredBinding client.role_bindings) (env : Setting) where
  abbrev get : String × String → W → Fetch RoleBinding
  get k w = client.role_bindings.get k w

  Change-other :
      (rb : RoleBinding) (sa_name role : String) (w v : W) (k : String × String)
      → Change client env rb sa_name role w v
      → k ≢ key_of rb
      → k ≢ target client env sa_name
      → get k v ≡ get k w
  unfolding new_account_binding restamp_owner
  Change-other rb sa_name role w v k (idle) h j = refl
  Change-other rb sa_name role w v k (removed) h j = laws.get-remove_ne rb w k h
  Change-other rb sa_name role w v k (recreated) h j =
      laws.get-create_ne (new_account_binding env sa_name role) _ k j ∙ laws.get-remove_ne rb w k h
  Change-other rb sa_name role w v k (restamped) h j =
      laws.get-update_ne (restamp_owner env rb) w k h

  pub ensure_account_binding-other :
      (sa_name role : String) (s : System W) (k : String × String)
      → k ≢ target client env sa_name
      → get k (ensure_account_binding client env sa_name role s).1.world ≡ get k s.world
  unfolding ensure_account_binding binding_fetched create_binding new_account_binding
  ensure_account_binding-other sa_name role s k h =
      elim (Fetch-cases (get (target client env sa_name) s.world)) [
        | inr (inl e) ↦
            rw (e, attempt-world)
              (laws.get-create_ne (new_account_binding env sa_name role) s.world k h)
        | inr (inr e) ↦ rw e refl
        | inl (rb, e) ↦ elim (Bool-cases (can_take_ownership rb.annotations env.owner)) [
          | inr shut ↦ rw (e, binding_fetched, shut) refl
          | inl free ↦
              rw (e, binding_fetched, free)
                (Change-other rb sa_name role s.world _ k
                  (update_binding-Change client env rb sa_name role s)
                  (λ same. h (same ∙ laws.get_keyed _ s.world rb e)) h)
        ]
      ]

  ensure_account_binding-shut :
      (sa_name role : String) (s : System W) (rb : RoleBinding)
      → get (target client env sa_name) s.world ≡ found rb
      → can_take_ownership rb.annotations env.owner ≡ false
      → (ensure_account_binding client env sa_name role s).1.world ≡ s.world
  unfolding ensure_account_binding binding_fetched
  ensure_account_binding-shut sa_name role s rb e shut = rw (e, binding_fetched, shut) refl

  pub ensure_account_binding-foreign :
      (sa_name role : String) (s : System W) (k : String × String) (rb : RoleBinding)
      → can_take_ownership rb.annotations env.owner ≡ false
      → get k s.world ≡ found rb
      → get k (ensure_account_binding client env sa_name role s).1.world ≡ found rb
  ensure_account_binding-foreign sa_name role s k rb shut e =
      elim (pair-cases k (target client env sa_name)) [
        | inl same ↦ rw (ensure_account_binding-shut sa_name role s rb (rw same at e) shut) e
        | inr other ↦ ensure_account_binding-other sa_name role s k other ∙ e
      ]

  -- No role binding that another PermissionBinder has a live claim on is changed, whether or not the
  -- calls succeed.
  pub process_service_accounts-foreign :
      Apart client
      → (mapping : GoMap String) (s : System W) (k : String × String) (rb : RoleBinding)
      → client.role_bindings.get k s.world ≡ found rb
      → can_take_ownership rb.annotations env.owner ≡ false
      → client.role_bindings.get k (process_service_accounts client env mapping s).1.world
        ≡ found rb
  unfolding process_service_accounts
  process_service_accounts-foreign apart mapping s k rb e shut =
      process_mapping-keeps client env (λ (w : W). get k w ≡ found rb) (keys mapping)
        (λ sa_name role w gone p. apart.account-create (new_account env sa_name role) w k ∙ p)
        (λ sa_name role t there p. ensure_account_binding-foreign sa_name role t k rb shut p)
        mapping s (λ n h. h) e

abbrev pub account_key : ServiceAccount → String × String
account_key sa = (sa.namespace, sa.name)

module _ {W : Type 0} (client : Client W) (apart : Apart client) (env : Setting) where
  account_Change :
      (rb : RoleBinding) (sa_name role : String) (w v : W) (k : String × String)
      → Change client env rb sa_name role w v
      → client.service_accounts.get k v ≡ client.service_accounts.get k w
  account_Change rb sa_name role w v k (idle) = refl
  account_Change rb sa_name role w v k (removed) = apart.binding-remove rb w k
  account_Change rb sa_name role w v k (recreated) =
      apart.binding-create (new_account_binding env sa_name role) _ k ∙ apart.binding-remove rb w k
  account_Change rb sa_name role w v k (restamped) = apart.binding-update (restamp_owner env rb) w k

  account-ensure_account_binding :
      (sa_name role : String) (s : System W) (k : String × String)
      → client.service_accounts.get k (ensure_account_binding client env sa_name role s).1.world
        ≡ client.service_accounts.get k s.world
  unfolding ensure_account_binding binding_fetched create_binding
  account-ensure_account_binding sa_name role s k =
      elim (Fetch-cases (client.role_bindings.get (target client env sa_name) s.world)) [
        | inr (inl e) ↦
            rw (e, attempt-world)
              (apart.binding-create (new_account_binding env sa_name role) s.world k)
        | inr (inr e) ↦ rw e refl
        | inl (rb, e) ↦ elim (Bool-cases (can_take_ownership rb.annotations env.owner)) [
          | inr shut ↦ rw (e, binding_fetched, shut) refl
          | inl free ↦
              rw (e, binding_fetched, free)
                (account_Change rb sa_name role s.world _ k
                  (update_binding-Change client env rb sa_name role s))
        ]
      ]

  account_created :
      {Stored : ServiceAccount → ServiceAccount → Type 0}
      (laws : KindLaws account_key Stored client.service_accounts) (sa_name role : String) (w : W)
      (k : String × String) (sa : ServiceAccount)
      → client.service_accounts.get (env.namespace, full_name env sa_name) w ≡ not_found
      → client.service_accounts.get k w ≡ found sa
      → client.service_accounts.get k
          (client.service_accounts.create (new_account env sa_name role) w).1
        ≡ found sa
  unfolding new_account
  account_created laws sa_name role w k sa gone e =
      elim (pair-cases k (env.namespace, full_name env sa_name)) [
        | inl same ↦ absurd (taken (sym (rw same at e) ∙ gone))
        | inr other ↦ laws.get-create_ne (new_account env sa_name role) w k other ∙ e
      ]

  -- A ServiceAccount that exists is left exactly as it is, whoever has claimed it.
  pub process_service_accounts-accounts :
      {Stored : ServiceAccount → ServiceAccount → Type 0}
      → KindLaws account_key Stored client.service_accounts
      → (mapping : GoMap String) (s : System W) (k : String × String) (sa : ServiceAccount)
      → client.service_accounts.get k s.world ≡ found sa
      → client.service_accounts.get k (process_service_accounts client env mapping s).1.world
        ≡ found sa
  unfolding process_service_accounts
  process_service_accounts-accounts laws mapping s k sa e =
      process_mapping-keeps client env (λ (w : W). client.service_accounts.get k w ≡ found sa)
        (keys mapping) (λ sa_name role w gone p. account_created laws sa_name role w k sa gone p)
        (λ sa_name role t there p. account-ensure_account_binding sa_name role t k ∙ p) mapping s
        (λ n h. h) e

-- What the writes keep, `ProcessServiceAccounts` keeps.
module _ {W : Type 0} (client : Client W) (env : Setting) (P : W → Type 0)
    (account : (sa : ServiceAccount) (w : W) → P w → P (client.service_accounts.create sa w).1)
    (create : (rb : RoleBinding) (w : W) → P w → P (client.role_bindings.create rb w).1)
    (update : (rb : RoleBinding) (w : W) → P w → P (client.role_bindings.update rb w).1)
    (remove : (rb : RoleBinding) (w : W) → P w → P (client.role_bindings.remove rb w).1) where
  Change-keeps :
      (rb : RoleBinding) (sa_name role : String) (w v : W)
      → Change client env rb sa_name role w v
      → P w
      → P v
  Change-keeps rb sa_name role w v (idle) p = p
  Change-keeps rb sa_name role w v (removed) p = remove rb w p
  Change-keeps rb sa_name role w v (recreated) p = create _ _ (remove rb w p)
  Change-keeps rb sa_name role w v (restamped) p = update _ w p

  ensure_account_binding-keeps :
      (sa_name role : String) (s : System W)
      → P s.world
      → P (ensure_account_binding client env sa_name role s).1.world
  unfolding ensure_account_binding binding_fetched create_binding
  ensure_account_binding-keeps sa_name role s p =
      elim (Fetch-cases (client.role_bindings.get (target client env sa_name) s.world)) [
        | inr (inl e) ↦
            rw (e, attempt-world) (create (new_account_binding env sa_name role) s.world p)
        | inr (inr e) ↦ rw e p
        | inl (rb, e) ↦ elim (Bool-cases (can_take_ownership rb.annotations env.owner)) [
          | inr shut ↦ rw (e, binding_fetched, shut) p
          | inl free ↦
              rw (e, binding_fetched, free)
                (Change-keeps rb sa_name role s.world _
                  (update_binding-Change client env rb sa_name role s) p)
        ]
      ]

  pub process_service_accounts-keeps :
      (mapping : GoMap String) (s : System W)
      → P s.world
      → P (process_service_accounts client env mapping s).1.world
  unfolding process_service_accounts
  process_service_accounts-keeps mapping s p =
      process_mapping-keeps client env P (keys mapping)
        (λ sa_name role w gone q. account (new_account env sa_name role) w q)
        (λ sa_name role t there q. ensure_account_binding-keeps sa_name role t q) mapping s
        (λ n h. h) p
