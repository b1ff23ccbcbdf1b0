-- ===== src/ServiceAccounts/Loops.antt =====
-- What the loop of `ProcessServiceAccounts` leaves of the cluster, from what one step leaves.
use permission_binder_operat.Prelude.{
  String, Bool, true, false, ◌≡◌, refl, ◌⊎◌, inl, inr, List, [], ◌∷◌, In, Result, ok, err,
  Result-cases, arith,
}
use permission_binder_operat.GoMap.{GoMap, keys}
use permission_binder_operat.Cluster.{not_found, Fetch-cases, Client, System, OpError}
use permission_binder_operat.ServiceAccounts.{
  Setting, full_name, new_account, attempt, count_created, account_fetched, ensure_account,
  ensure_account_binding, then_binding, process_entry, process_mapping,
}

module _ {W : Type 0} (client : Client W) (env : Setting) where
  pub attempt-world :
      (e : OpError) (b : Bool) (s : System W) (r : Bool × W)
      → (attempt client env e b s r).1.world ≡ r.1
  unfolding attempt
  attempt-world e b s (true, w) = refl
  attempt-world e b s (false, w) = refl

  pub attempt-ok :
      (e : OpError) (b c : Bool) (s : System W) (r : Bool × W)
      → (attempt client env e b s r).0 ≡ ok c
      → (r.0 ≡ true) × (c ≡ b)
  unfolding attempt
  attempt-ok e b c s (true, w) h = ground arith
  attempt-ok e b c s (false, w) h = absurd (ground arith)

  count_created-world :
      (sa_name : String) (r : Result OpError Bool × System W)
      → (count_created client env sa_name r).1.world ≡ r.1.world
  unfolding count_created
  count_created-world sa_name (ok b, s) = refl
  count_created-world sa_name (err e, s) = refl

  -- The first step leaves the cluster as it is or creates the account that was not there.
  pub ensure_account-world :
      (sa_name role : String) (s : System W)
      → ((ensure_account client env sa_name role s).1.world ≡ s.world)
        ⊎ ((client.service_accounts.get (env.namespace, full_name env sa_name) s.world ≡ not_found)
            × ((ensure_account client env sa_name role s).1.world
                ≡ (client.service_accounts.create (new_account env sa_name role) s.world).1))
  unfolding ensure_account account_fetched
  ensure_account-world sa_name role s =
      elim (Fetch-cases
        (client.service_accounts.get (env.namespace, full_name env sa_name) s.world)) [
          | inl (sa, e) ↦ inl (rw e refl)
          | inr (inr e) ↦ inl (rw e refl)
          | inr (inl e) ↦ inr (e, rw (e, count_created-world, attempt-world) refl)
        ]

  module _ (P : W → Type 0) (names : List String)
      (account : (sa_name role : String) (w : W)
        → client.service_accounts.get (env.namespace, full_name env sa_name) w ≡ not_found
        → P w
        → P (client.service_accounts.create (new_account env sa_name role) w).1)
      (binding : (sa_name role : String) (s : System W)
        → In sa_name names
        → P s.world
        → P (ensure_account_binding client env sa_name role s).1.world) where
    ensure_account-keeps :
        (sa_name role : String) (s : System W)
        → P s.world
        → P (ensure_account client env sa_name role s).1.world
    ensure_account-keeps sa_name role s p = elim (ensure_account-world sa_name role s) [
      | inl same ↦ rw same p
      | inr (gone, new) ↦ rw new (account sa_name role s.world gone p)
    ]

    then_binding-keeps :
        (sa_name role : String) (r : Result OpError Bool × System W)
        → In sa_name names
        → P r.1.world
        → P (then_binding client env sa_name role r).1.world
    unfolding then_binding
    then_binding-keeps sa_name role (ok b, s) there p = binding sa_name role s there p
    then_binding-keeps sa_name role (err e, s) there p = p

    pub process_entry-keeps :
        (sa_name role : String) (s : System W)
        → In sa_name names
        → P s.world
        → P (process_entry client env sa_name role s).1.world
    unfolding process_entry
    process_entry-keeps sa_name role s there p =
        then_binding-keeps sa_name role (ensure_account client env sa_name role s) there
          (ensure_account-keeps sa_name role s p)

    pub process_mapping-keeps :
        (mapping : GoMap String) (s : System W)
        → ((n : String) → In n (keys mapping) → In n names)
        → P s.world
        → P (process_mapping client env mapping s).1.world
    unfolding process_mapping
    process_mapping-keeps [] s there p = p
    process_mapping-keeps ((sa_name, role) ∷ rest) s there p =
        let r = process_entry client env sa_name role s in
        let kept = process_entry-keeps sa_name role s (there sa_name (inl refl)) p in
        elim (Result-cases r.0) [
          | inl (b, e) ↦
              rw (e, process_mapping) (process_mapping-keeps rest r.1 (λ n h. there n (inr h)) kept)
          | inr (x, e) ↦ rw (e, process_mapping) kept
        ]
