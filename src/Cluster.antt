-- ===== src/Cluster.antt =====
-- The cluster as the operator sees it: the objects that it reads and writes, the client of the
-- API server as a record of operations, and the counters that it keeps
-- (operator/internal/controller/metrics.go). The client is not part of the operator, so what
-- is relied on is a record of laws, `KindLaws`.
pub mod Memory
use permission_binder_operat.Prelude.{
  ℕ, String, Bool, true, false, Option, some, List, ◌∷◌, In, map, ◌≡◌, refl, ◌≢◌, ◌⊎◌, inl, inr,
  Result, ok, err, arith,
}
use permission_binder_operat.Ownership.{NilMap, read, label_managed_by}

-- corev1.Namespace, the fields that are used.
pub record Namespace : Type 0 where
  pub name : String
  pub annotations : NilMap
  pub labels : NilMap

-- rbacv1.RoleRef
pub record RoleRef : Type 0 where
  pub api_group : String
  pub kind : String
  pub name : String

-- rbacv1.Subject
pub record Subject : Type 0 where
  pub api_group : String
  pub kind : String
  pub name : String
  pub namespace : String

-- rbacv1.RoleBinding, the fields that are used.
pub record RoleBinding : Type 0 where
  pub namespace : String
  pub name : String
  pub annotations : NilMap
  pub labels : NilMap
  pub role_ref : RoleRef
  pub subjects : List Subject

-- corev1.ServiceAccount, the fields that are used.
pub record ServiceAccount : Type 0 where
  pub namespace : String
  pub name : String
  pub annotations : NilMap
  pub labels : NilMap

-- The outcome of `client.Get`: the object, an error with `errors.IsNotFound`, or another error.
pub data Fetch (A : Type 0) : Type 0 where
  found : A → Fetch A
  not_found failed : Fetch A

-- The operations on the objects of one kind. A write says whether it succeeded; a list may fail.
pub record Kind (K A W : Type 0) : Type 0 where
  pub get : K → W → Fetch A
  pub list : W → Option (List A)
  pub create : A → W → Bool × W
  pub update : A → W → Bool × W
  pub remove : A → W → Bool × W

-- What the operator relies on in the API server: an object that was written is read back, with
-- `Stored` for what the server may fill in by default when it stores it, a write to one key leaves
-- the others alone, an update that reports an error may still have been carried out, an object that
-- was deleted is gone, and an object is found under its own key.
pub record KindLaws {K A W : Type 0} (key : A → K) (Stored : A → A → Type 0) (kind : Kind K A W)
    : Type 0 where
  pub get-create :
      (a : A) (w : W)
      → (kind.create a w).0 ≡ true
      → (b : A) × (kind.get (key a) (kind.create a w).1 ≡ found b) × Stored a b
  pub get-update :
      (a : A) (w : W)
      → (kind.update a w).0 ≡ true
      → (b : A) × (kind.get (key a) (kind.update a w).1 ≡ found b) × Stored a b
  pub get-create_ne :
      (a : A) (w : W) (k : K) → k ≢ key a → kind.get k (kind.create a w).1 ≡ kind.get k w
  pub get-update_ne :
      (a : A) (w : W) (k : K) → k ≢ key a → kind.get k (kind.update a w).1 ≡ kind.get k w
  pub get-update_or :
      (a : A) (w : W)
      → (kind.get (key a) (kind.update a w).1 ≡ kind.get (key a) w)
        ⊎ ((b : A) × (kind.get (key a) (kind.update a w).1 ≡ found b) × Stored a b)
  pub get-remove :
      (a : A) (w : W)
      → (kind.remove a w).0 ≡ true
      → kind.get (key a) (kind.remove a w).1 ≡ not_found
  pub get-remove_gone :
      (a : A) (w : W)
      → kind.get (key a) w ≡ not_found
      → kind.get (key a) (kind.remove a w).1 ≡ not_found
  pub get-remove_ne :
      (a : A) (w : W) (k : K) → k ≢ key a → kind.get k (kind.remove a w).1 ≡ kind.get k w
  pub get_keyed : (k : K) (w : W) (a : A) → kind.get k w ≡ found a → key a ≡ k

-- `xs` are the objects that are there in `w`, each as it is found.
pub record Listing {K A W : Type 0} (key : A → K) (kind : Kind K A W) (w : W) (xs : List A)
    : Type 0 where
  pub there : (a : A) → In a xs → kind.get (key a) w ≡ found a
  pub complete : (a : A) → kind.get (key a) w ≡ found a → In a xs

-- A list that succeeds returns the objects that are there.
abbrev pub Honest : {K A W : Type 0} → (A → K) → Kind K A W → W → Type 0
Honest key kind w = (xs : _) → kind.list w ≡ some xs → Listing key kind w xs

-- The server adds labels of its own to a namespace (`kubernetes.io/metadata.name`).
abbrev pub StoredNamespace : Namespace → Namespace → Type 0
StoredNamespace a b =
    (a.name ≡ b.name)
    × (a.annotations ≡ b.annotations)
    × (read label_managed_by a.labels ≡ read label_managed_by b.labels)

-- A subject without its API group, which the server fills in for users and groups.
abbrev pub bare : Subject → Subject
bare s = record s { api_group = "" }

abbrev pub StoredBinding : RoleBinding → RoleBinding → Type 0
StoredBinding a b =
    (a.namespace ≡ b.namespace)
    × (a.name ≡ b.name)
    × (a.annotations ≡ b.annotations)
    × (a.labels ≡ b.labels)
    × (a.role_ref ≡ b.role_ref)
    × (map bare a.subjects ≡ map bare b.subjects)

-- The client: `W` is the state of the cluster.
pub record Client (W : Type 0) : Type 0 where
  pub namespaces : Kind String Namespace W
  pub role_bindings : Kind (String × String) RoleBinding W
  pub service_accounts : Kind (String × String) ServiceAccount W
  pub cluster_role : String → W → Fetch (Unit {0})

-- The counters that are incremented, with their labels.
pub data Metric : Type 0 where
  adoption_event : Metric
  ownership_conflict missing_cluster_role entry_processed : String → Metric
  service_account_created : String → String → Metric
  managed_service_accounts : ℕ → Metric

-- What an operation reads and writes: the cluster, and the increments, the latest first.
pub record System (W : Type 0) : Type 0 where
  pub world : W
  pub metrics : List Metric

abbrev pub count : {W : Type 0} → Metric → System W → System W
count m s = record s { metrics = m ∷ s.metrics }

-- The errors that an operation wraps, by the call that failed.
pub data OpError : Type 0 where
  get_failed create_failed update_failed delete_failed list_failed : OpError

-- `if err := client.Write(...); err != nil { return err }; return nil`
unfoldable pub finish :
    {W : Type 0} → OpError → System W → Bool × W → Result OpError (Unit {0}) × System W
finish e s (true, w) = (ok tt, record s { world = w })
finish e s (false, w) = (err e, record s { world = w })

pub Fetch-cases :
    {A : Type 0} (r : Fetch A) → ((a : A) × (r ≡ found a)) ⊎ ((r ≡ not_found) ⊎ (r ≡ failed))
Fetch-cases (found a) = inl (a, refl)
Fetch-cases not_found = inr (inl refl)
Fetch-cases failed = inr (inr refl)

module _ {W : Type 0} (e : OpError) (s : System W) where
  pub finish-world : (r : Bool × W) → (finish e s r).1.world ≡ r.1
  unfolding finish
  finish-world (true, w) = refl
  finish-world (false, w) = refl

  pub finish-ok : (r : Bool × W) → (finish e s r).0 ≡ ok tt → r.0 ≡ true
  unfolding finish
  finish-ok (true, w) h = refl
  finish-ok (false, w) h = absurd (ground arith)
