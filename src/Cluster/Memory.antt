-- ===== src/Cluster/Memory.antt =====
-- A cluster in memory: it shows that the laws of the client can be met, and runs the tests.
use permission_binder_operat.Prelude.{
  String, Bool, true, ◌&&◌, some, List, [], ◌∷◌, ◌≡◌, ◌≢◌, ◌↔◌, inr, if◌then◌else◌, refl, subst,
  arith, ◌==◌, eq_iff,
}
use mathlib.Core.Option
use permission_binder_operat.Cluster.{
  Namespace, RoleBinding, ServiceAccount, Fetch, found, not_found, Kind, KindLaws, Client, Listing,
  Honest, StoredNamespace, StoredBinding,
}

module _ {K A : Type 0} (key : A → K) (same : K → K → Bool) where
  fetch : K → List A → Fetch A
  fetch k [] = not_found
  fetch k (a ∷ xs) = if same (key a) k then found a else fetch k xs

  put : A → List A → List A
  put a [] = a ∷ []
  put a (b ∷ xs) = if same (key b) (key a) then a ∷ xs else b ∷ put a xs

  drop : A → List A → List A
  drop a [] = []
  drop a (b ∷ xs) = if same (key b) (key a) then drop a xs else b ∷ drop a xs

  -- The operations of a kind that is kept in one table of the world.
  unfoldable pub table_kind : {W : Type 0} → (W → List A) → (List A → W → W) → Kind K A W
  unfolding fetch put drop
  table_kind table store = record {
    get = λ k w. fetch k (table w);
    list = λ w. some (table w);
    create = λ a w. (true, store (put a (table w)) w);
    update = λ a w. (true, store (put a (table w)) w);
    remove = λ a w. (true, store (drop a (table w)) w);
  }

module _ {K A : Type 0} (key : A → K) (same : K → K → Bool)
    (same_iff : (j k : K) → (same j k ≡ true) ↔ (j ≡ k)) where
  fetch-put : (a : A) (xs : List A) → fetch key same (key a) (put key same a xs) ≡ found a
  unfolding fetch put
  fetch-put a [] = rw ((same_iff (key a) (key a)).1 refl) refl
  fetch-put a (b ∷ xs) =
      ground (arith, fetch-put a xs, same_iff (key a) (key a), same_iff (key b) (key a))

  fetch-put_ne :
      (a : A) (xs : List A) (k : K)
      → k ≢ key a
      → fetch key same k (put key same a xs) ≡ fetch key same k xs
  unfolding fetch put
  fetch-put_ne a [] k h = ground (arith, same_iff (key a) k)
  fetch-put_ne a (b ∷ xs) k h =
      ground (
        arith,
        fetch-put_ne a xs k,
        same_iff (key a) k,
        same_iff (key b) (key a),
        same_iff (key b) k,
      )

  fetch-drop : (a : A) (xs : List A) → fetch key same (key a) (drop key same a xs) ≡ not_found
  unfolding fetch drop
  fetch-drop a [] = refl
  fetch-drop a (b ∷ xs) = ground (arith, fetch-drop a xs, same_iff (key b) (key a))

  fetch-drop_ne :
      (a : A) (xs : List A) (k : K)
      → k ≢ key a
      → fetch key same k (drop key same a xs) ≡ fetch key same k xs
  unfolding fetch drop
  fetch-drop_ne a [] k h = refl
  fetch-drop_ne a (b ∷ xs) k h =
      ground (arith, fetch-drop_ne a xs k, same_iff (key b) (key a), same_iff (key b) k)

  fetch_keyed : (k : K) (xs : List A) (a : A) → fetch key same k xs ≡ found a → key a ≡ k
  unfolding fetch
  fetch_keyed k [] a h = absurd (ground arith)
  fetch_keyed k (b ∷ xs) a h = ground (arith, fetch_keyed k xs a, same_iff (key b) k)

  pub table_laws :
      {W : Type 0} (table : W → List A) (store : List A → W → W)
      → ((xs : List A) (w : W) → table (store xs w) ≡ xs)
      → (Stored : A → A → Type 0) → ((a : A) → Stored a a)
      → KindLaws key Stored (table_kind key same table store)
  unfolding table_kind
  table_laws table store back Stored same_stored = record {
    get-create = λ a w h. (a, rw back (fetch-put a (table w)), same_stored a);
    get-update = λ a w h. (a, rw back (fetch-put a (table w)), same_stored a);
    get-create_ne = λ a w k h. rw back (fetch-put_ne a (table w) k h);
    get-update_ne = λ a w k h. rw back (fetch-put_ne a (table w) k h);
    get-update_or = λ a w. inr (a, rw back (fetch-put a (table w)), same_stored a);
    get-remove = λ a w h. rw back (fetch-drop a (table w));
    get-remove_gone = λ a w h. rw back (fetch-drop a (table w));
    get-remove_ne = λ a w k h. rw back (fetch-drop_ne a (table w) k h);
    get_keyed = λ k w a h. fetch_keyed k (table w) a h;
  }

-- The state of the cluster in memory.
pub record Memory : Type 0 where
  pub namespaces : List Namespace
  pub role_bindings : List RoleBinding
  pub service_accounts : List ServiceAccount
  pub cluster_roles : List String

abbrev pub empty : Memory
empty = record { namespaces = []; role_bindings = []; service_accounts = []; cluster_roles = [] }

abbrev pub both : String × String → String × String → Bool
both (a, b) (c, d) = a == c && b == d

pub both_iff : (j k : String × String) → (both j k ≡ true) ↔ (j ≡ k)
both_iff (a, b) (c, d) = ground (arith, eq_iff a c, eq_iff b d)

abbrev pub key_of_binding : RoleBinding → String × String
key_of_binding rb = (rb.namespace, rb.name)

abbrev pub key_of_account : ServiceAccount → String × String
key_of_account sa = (sa.namespace, sa.name)

unfoldable pub cluster_role_in : String → List String → Fetch (Unit {0})
cluster_role_in name [] = not_found
cluster_role_in name (r ∷ rs) = if r == name then found tt else cluster_role_in name rs

abbrev pub memory_client : Client Memory
memory_client = record {
  namespaces =
      table_kind (λ n. n.name) (λ a b. a == b) (λ w. w.namespaces)
        (λ xs w. record w { namespaces = xs });
  role_bindings =
      table_kind key_of_binding both (λ w. w.role_bindings)
        (λ xs w. record w { role_bindings = xs });
  service_accounts =
      table_kind key_of_account both (λ w. w.service_accounts)
        (λ xs w. record w { service_accounts = xs });
  cluster_role = λ name w. cluster_role_in name w.cluster_roles;
}

pub namespaces_laws : KindLaws (λ (n : Namespace). n.name) StoredNamespace memory_client.namespaces
namespaces_laws =
    table_laws _ _ (λ j k. eq_iff j k) _ _ (λ xs w. refl) StoredNamespace (λ a. (refl, refl, refl))

pub role_bindings_laws : KindLaws key_of_binding StoredBinding memory_client.role_bindings
role_bindings_laws =
    table_laws _ _ both_iff _ _ (λ xs w. refl) StoredBinding
      (λ a. (refl, refl, refl, refl, refl, refl))

-- A cluster with one role binding lists what is there.
pub Honest-binding :
    (rb : RoleBinding)
    → Honest key_of_binding memory_client.role_bindings (record empty { role_bindings = rb ∷ [] })
unfolding table_kind fetch
Honest-binding rb xs h =
    subst
      (λ ys.
        Listing key_of_binding memory_client.role_bindings
          (record empty { role_bindings = rb ∷ [] }) ys)
      (Option.some-injective (rb ∷ []) xs h)
      record {
        there = λ a e. ground (arith, both_iff (key_of_binding rb) (key_of_binding a), e);
        complete = λ a e. ground (arith, e);
      }

pub service_accounts_laws : KindLaws key_of_account (λ a b. a ≡ b) memory_client.service_accounts
service_accounts_laws = table_laws _ _ both_iff _ _ (λ xs w. refl) (λ a b. a ≡ b) (λ a. refl)
