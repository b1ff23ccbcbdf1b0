-- ===== src/NetworkPolicy/Policies.antt =====
-- NetworkPolicies, the settings of the NetworkPolicy part, and what it asks of the cluster and of
-- YAML (operator/api/v1/permissionbinder_types.go; the structs of k8s.io/api/networking/v1 are cut to
-- the fields that are used).
use permission_binder_operat.Prelude.{ℕ, String, Bool, Option, List}
use permission_binder_operat.GoMap.{GoMap}
use permission_binder_operat.Ownership.{NilMap}
use permission_binder_operat.Cluster.{Fetch}
use permission_binder_operat.NetworkPolicy.Json.{Fields}
use permission_binder_operat.NetworkPolicy.Provider.{ExcludeList}

-- metav1.LabelSelectorRequirement
pub record Requirement : Type 0 where
  pub key : String
  pub operator : String
  pub values : List String

-- metav1.LabelSelector
pub record Selector : Type 0 where
  pub match_labels : GoMap String
  pub match_expressions : List Requirement

-- networkingv1.NetworkPolicyPort
pub record Port : Type 0 where
  pub protocol : Option String
  pub port : Option String
  pub end_port : Option ℕ

-- networkingv1.NetworkPolicyPeer, with the CIDR and the exceptions of an IP block.
pub record Peer : Type 0 where
  pub pod_selector : Option Selector
  pub namespace_selector : Option Selector
  pub ip_block : Option (String × List String)

-- networkingv1.NetworkPolicyIngressRule and NetworkPolicyEgressRule: the ports, and From or To.
pub record Rule : Type 0 where
  pub ports : List Port
  pub peers : List Peer

-- networkingv1.NetworkPolicySpec
pub record PolicySpec : Type 0 where
  pub pod_selector : Selector
  pub policy_types : List String
  pub ingress : List Rule
  pub egress : List Rule

-- networkingv1.NetworkPolicy
pub record Policy : Type 0 where
  pub namespace : String
  pub name : String
  pub annotations : NilMap
  pub spec : PolicySpec

-- permissionv1.GitRepositorySpec
pub record GitRepository : Type 0 where
  pub provider : String
  pub url : String
  pub base_branch : String
  pub cluster_name : String
  pub api_base_url : String
  pub git_tls_verify : Option Bool
  pub secret_namespace : String
  pub secret_name : String

-- permissionv1.AutoMergeSpec
pub record AutoMerge : Type 0 where
  pub enabled : Bool
  pub label : String

-- permissionv1.NetworkPolicySpec; the batch size is the one of BatchProcessing, or zero without one.
pub record NetworkSpec : Type 0 where
  pub git_repository : GitRepository
  pub template_dir : String
  pub auto_merge : Option AutoMerge
  pub backup_existing : Bool
  pub exclude_namespaces : Option ExcludeList
  pub exclude_backup_for_namespaces : Option ExcludeList
  pub reconciliation_interval : String
  pub batch_size : ℕ

-- The API server, for NetworkPolicies and Secrets. A dry run returns the object as the server would
-- store it, and changes nothing.
pub record PolicyClient (W : Type 0) : Type 0 where
  pub list : String → W → Option (List Policy)
  pub get : String × String → W → Fetch Policy
  pub dry_run : Policy → W → Option Policy
  pub secret : String × String → W → Fetch (GoMap String)

-- `yaml.Unmarshal` into a NetworkPolicy; `json.Marshal` of one, decoded into a map; and
-- `yaml.JSONToYAML` of an encoded map.
pub record PolicyCodec : Type 0 where
  pub parse : String → Option Policy
  pub decode : Policy → Option Fields
  pub to_yaml : Fields → Option String
