-- ===== src/Reconcile.antt =====
-- The main loop `Reconcile` of operator/internal/controller/reconciliation_main.go.
-- The NetworkPolicy part is a function of the caller, which may change the PermissionBinder in memory
-- and the cluster.
pub mod Hash
pub mod Message
pub mod Idle
pub mod Deleted
pub mod Foreign
pub mod Network
pub mod Twice
use permission_binder_operat.Prelude.{
  ℕ, String, Bool, true, false, not, ◌||◌, ◌&&◌, Option, none, some, List, [], ◌∷◌, ◌++◌, length,
  Result, ok, err, if◌then◌else◌, ◌==◌, is_some,
}
use permission_binder_operat.GoMap.{GoMap}
use permission_binder_operat.Ownership.{Owner}
use permission_binder_operat.Cluster.{
  Fetch, found, not_found, failed, Client, System, OpError, get_failed, update_failed,
}
use permission_binder_operat.Cleanup.{cleanup_managed_resources, reconcile_all_managed_resources}
use permission_binder_operat.Whitelist.{
  Spec, ConfigMapResult, contains_string, processed_namespaces, process_config_map,
}
use permission_binder_operat.Watch.{reconciles_namespace}
use permission_binder_operat.NetworkPolicy.Status.{Entry}
use permission_binder_operat.Reconcile.Hash.{has_role_mapping_changed}
use permission_binder_operat.Reconcile.Message.{success_message}

abbrev pub finalizer : String
finalizer = "permission-binder.io/finalizer"

-- metav1.Condition; `holds` is that its status is True.
pub record Condition : Type 0 where
  pub kind : String
  pub holds : Bool
  pub last_transition_time : String
  pub reason : String
  pub message : String
  pub observed_generation : ℕ

-- The status: the fields that the loop writes, and those of the NetworkPolicy part.
pub record Status : Type 0 where
  pub processed_role_bindings : List String
  pub processed_service_accounts : List String
  pub last_config_map_version : String
  pub last_role_mapping_hash : String
  pub conditions : List Condition
  pub network_policies : List Entry
  pub last_network_policy_reconciliation : Option ℕ

pub record PermissionBinder : Type 0 where
  pub namespace : String
  pub name : String
  pub generation : ℕ
  pub deleting : Bool
  pub finalizers : List String
  pub spec : Spec
  pub config_map_namespace : String
  pub config_map_name : String
  pub network_policy_enabled : Bool
  pub status : Status

pub record ConfigMap : Type 0 where
  pub resource_version : String
  pub entries : GoMap String

abbrev pub owner_of : PermissionBinder → Owner
owner_of pb = record { name = pb.name; namespace = pb.namespace }

-- `removeString`
pub remove_string : List String → String → List String
remove_string [] s = []
remove_string (item ∷ rest) s =
    let others = remove_string rest s in if item == s then others else item ∷ others

-- `findCondition`
pub find_condition : List Condition → String → Option Condition
find_condition [] kind = none
find_condition (condition ∷ rest) kind =
    if condition.kind == kind then some condition else find_condition rest kind

same_list : List String → List String → Bool
same_list [] [] = true
same_list (a ∷ xs) (b ∷ ys) = a == b && same_list xs ys
same_list [] (b ∷ ys) = false
same_list (a ∷ xs) [] = false

-- The condition is there with this message, and holds.
pub is_reported : String → Option Condition → Bool
is_reported message none = false
is_reported message (some condition) = condition.holds && condition.message == message

pub transition_time : String → String → Option Condition → String
transition_time now message none = now
transition_time now message (some condition) =
    if condition.holds && condition.message == message then condition.last_transition_time else now

-- `statusChanged`
pub status_changed : Status → ConfigMapResult → String → String → String → Bool
status_changed status result version hash message =
    not (same_list status.processed_role_bindings result.processed_role_bindings)
    || not (same_list status.processed_service_accounts result.processed_service_accounts)
    || not (status.last_config_map_version == version)
    || not (status.last_role_mapping_hash == hash)
    || not (is_reported message (find_condition status.conditions "Processed"))

-- The status that is written.
pub new_status : String → PermissionBinder → ConfigMapResult → String → String → String → Status
new_status now pb result version hash message = record {
  processed_role_bindings = result.processed_role_bindings;
  processed_service_accounts = result.processed_service_accounts;
  last_config_map_version = version;
  last_role_mapping_hash = hash;
  conditions =
      record {
        kind = "Processed";
        holds = true;
        last_transition_time =
            transition_time now message (find_condition pb.status.conditions "Processed");
        reason = "ConfigMapProcessed";
        message = message;
        observed_generation = pb.generation;
      }
      ∷ [];
  network_policies = pb.status.network_policies;
  last_network_policy_reconciliation = pb.status.last_network_policy_reconciliation;
}

-- What `Reconcile` returns without an error.
pub data Next : Type 0 where
  done requeue_after_a_minute : Next

-- The PermissionBinders and ConfigMaps of the cluster.
pub record BinderClient (W : Type 0) : Type 0 where
  pub get : String × String → W → Fetch PermissionBinder
  pub update : PermissionBinder → W → Bool × W
  pub update_status : PermissionBinder → W → Bool × W
  pub get_config_map : String × String → W → Fetch ConfigMap

-- What the loop is run with: the values of the environment, SHA-256, and the NetworkPolicy part, which
-- is given the namespaces of the role bindings that were processed.
pub record Setup (W : Type 0) : Type 0 where
  pub client : Client W
  pub binders : BinderClient W
  pub managed_by : String
  pub now : String
  pub scope : List String
  pub sha : String → String
  pub network : PermissionBinder → List String → W → PermissionBinder × W

module _ {W : Type 0} (env : Setup W) where
  abbrev Answer : Type 0
  Answer = Result OpError Next × System W

  abbrev at : System W → W → System W
  at s w = record s { world = w }

  pub answer_write : System W → Bool × W → Answer
  answer_write s (true, w) = (ok done, at s w)
  answer_write s (false, w) = (err update_failed, at s w)

  -- The object is being deleted.
  pub finalize : PermissionBinder → System W → Answer
  finalize pb s =
      if contains_string finalizer pb.finalizers
      then answer_write s (
          env.binders.update (record pb { finalizers = remove_string pb.finalizers finalizer })
            (cleanup_managed_resources env.client env.managed_by env.now (owner_of pb) s.world))
      else (ok done, s)

  pub write_status : PermissionBinder → ConfigMapResult → String → String → System W → Answer
  write_status pb result version hash s =
      let message =
        success_message (length result.processed_role_bindings)
          (length result.processed_service_accounts) in
      if status_changed pb.status result version hash message
      then answer_write s (
          env.binders.update_status
            (record pb { status = new_status env.now pb result version hash message }) s.world)
      else (ok done, s)

  -- The hash that goes into the status.
  abbrev pub kept_hash : PermissionBinder → Bool → String → String
  kept_hash pb changed hash = if changed then hash else pb.status.last_role_mapping_hash

  pub process : PermissionBinder → ConfigMap → Bool → String → System W → Answer
  process pb config_map changed hash s =
      let run =
        process_config_map env.client env.managed_by env.now (owner_of pb) pb.spec
          config_map.entries s in
      let after =
        if pb.network_policy_enabled
        then env.network pb (processed_namespaces run.0.processed_role_bindings) run.1.world
        else (pb, run.1.world) in
      write_status after.0 run.0 config_map.resource_version (kept_hash after.0 changed hash)
        (at run.1 after.1)

  -- The second look at the hash: a change that is not there any more does not count.
  abbrev pub still_changed : PermissionBinder → Bool → Bool
  still_changed pb changed =
      changed
      && (has_role_mapping_changed env.sha pb.spec.role_mapping pb.status.last_role_mapping_hash).0

  pub config_map_fetched : PermissionBinder → Bool → String → Fetch ConfigMap → System W → Answer
  config_map_fetched pb changed hash not_found s = (ok requeue_after_a_minute, s)
  config_map_fetched pb changed hash failed s = (err get_failed, s)
  config_map_fetched pb changed hash (found config_map) s =
      if pb.status.last_config_map_version == config_map.resource_version
        && not (still_changed pb changed)
      then (ok done, s)
      else process pb config_map (still_changed pb changed) hash s

  pub fetched_again : Bool → String → Fetch PermissionBinder → System W → Answer
  fetched_again changed hash (found pb) s =
      config_map_fetched pb changed hash
        (env.binders.get_config_map (pb.config_map_namespace, pb.config_map_name) s.world) s
  fetched_again changed hash not_found s = (err get_failed, s)
  fetched_again changed hash failed s = (err get_failed, s)

  pub swept : String × String → Bool → String → Result OpError (Unit {0}) × W → System W → Answer
  swept key changed hash (err e, w) s = (err e, at s w)
  swept key changed hash (ok _, w) s = fetched_again changed hash (env.binders.get key w) (at s w)

  -- The sweep over all managed role bindings, if the mapping has changed.
  pub sweep : PermissionBinder → Bool → W → Result OpError (Unit {0}) × W
  sweep pb changed w =
      if changed
      then reconcile_all_managed_resources env.client env.managed_by (owner_of pb) pb.spec.prefixes
          pb.spec.role_mapping w
      else (ok tt, w)

  pub reconcile_live : String × String → PermissionBinder → System W → Answer
  reconcile_live key pb s =
      if not (contains_string finalizer pb.finalizers)
      then answer_write s (
          env.binders.update (record pb { finalizers = pb.finalizers ++ (finalizer ∷ []) }) s.world)
      else (let seen =
            has_role_mapping_changed env.sha pb.spec.role_mapping
              pb.status.last_role_mapping_hash in
          swept key seen.0 seen.1 (sweep pb seen.0 s.world) s)

  pub binder_fetched : String × String → Fetch PermissionBinder → System W → Answer
  binder_fetched key not_found s = (ok done, s)
  binder_fetched key failed s = (err get_failed, s)
  binder_fetched key (found pb) s = if pb.deleting then finalize pb s else reconcile_live key pb s

  -- `Reconcile`, for the namespace and name of the request.
  unfoldable pub reconcile : String × String → System W → Answer
  unfolding binder_fetched reconcile_live sweep swept fetched_again config_map_fetched process
      write_status finalize answer_write status_changed same_list is_reported find_condition
      new_status transition_time remove_string
  reconcile (namespace, name) s =
      if not (reconciles_namespace env.scope namespace)
      then (ok done, s)
      else binder_fetched (namespace, name) (env.binders.get (namespace, name) s.world) s
