-- ===== src/NetworkPolicy/Drift.antt =====
-- Whether the cluster and the repository hold the same rules
-- (operator/internal/controller/networkpolicy/network_policy_drift.go).
pub mod Laws
use permission_binder_operat.Prelude.{
  ℕ, String, Bool, true, false, not, Option, none, some, List, [], ◌∷◌, map, Result, ok, err,
  if◌then◌else◌, ◌==◌,
}
use permission_binder_operat.GoString.{◌<>◌, trim_suffix}
use permission_binder_operat.GoMap.{GoMap, keys, value}
use permission_binder_operat.GoSort.{sort_by, sort_strings}
use permission_binder_operat.Ownership.{read}
use permission_binder_operat.NetworkPolicy.Disk.{Disk, file_exists, read_file}
use permission_binder_operat.NetworkPolicy.Policies.{
  Requirement, Selector, Port, Peer, Rule, PolicySpec, Policy, PolicyCodec,
}
use permission_binder_operat.NetworkPolicy.Provider.{get_network_policy_file_path}
use permission_binder_operat.NetworkPolicy.Sources.{annotation_template}

-- `json.Marshal` of the parts, and SHA-256 in hexadecimal.
pub record Texts : Type 0 where
  pub port : Port → String
  pub peer : Peer → String
  pub ingress : Rule → String
  pub egress : Rule → String
  pub spec : PolicySpec → String
  pub sha : String → String

values_of : GoMap String → List String → GoMap String
values_of labels [] = []
values_of labels (key ∷ rest) = (key, value key labels) ∷ values_of labels rest

-- `sort.StringSlice(expr.Values)` is a conversion, which leaves the order of the values as it is.
abbrev pub string_slice : List String → List String
string_slice values = values

unfoldable pub normalize_requirement : Requirement → Requirement
normalize_requirement expr = record expr { values = string_slice expr.values }

-- `normalizeSelector`
unfoldable pub normalize_selector : Selector → Selector
unfolding values_of normalize_requirement
normalize_selector selector = record {
  match_labels = values_of selector.match_labels (sort_strings (keys selector.match_labels));
  match_expressions = map normalize_requirement selector.match_expressions;
}

module _ (texts : Texts) where
  -- `normalizePorts`
  unfoldable pub normalize_ports : List Port → List Port
  normalize_ports ports = sort_by texts.port ports

  -- `normalizeNetworkPolicyPeers`, which copies every field of a peer.
  unfoldable pub normalize_peers : List Peer → List Peer
  normalize_peers peers = sort_by texts.peer peers

  unfoldable pub normalize_rule : Rule → Rule
  normalize_rule rule = record {
    ports = normalize_ports rule.ports;
    peers = normalize_peers rule.peers;
  }

  -- `normalizeIngressRules`
  pub normalize_ingress_rules : List Rule → List Rule
  normalize_ingress_rules rules = sort_by texts.ingress (map normalize_rule rules)

  -- `normalizeEgressRules`
  pub normalize_egress_rules : List Rule → List Rule
  normalize_egress_rules rules = sort_by texts.egress (map normalize_rule rules)

  pub normalized : PolicySpec → PolicySpec
  normalized spec = record {
    pod_selector = normalize_selector spec.pod_selector;
    policy_types = spec.policy_types;
    ingress = normalize_ingress_rules spec.ingress;
    egress = normalize_egress_rules spec.egress;
  }

  -- `normalizeNetworkPolicySpec` and `calculateRulesHash`
  unfoldable pub calculate_rules_hash : PolicySpec → String
  unfolding normalized normalize_ingress_rules normalize_egress_rules normalize_rule normalize_ports
      normalize_peers
  calculate_rules_hash spec = texts.sha (texts.spec (normalized spec))

  -- `compareNetworkPolicyRules`
  unfoldable pub compare_network_policy_rules : PolicySpec → PolicySpec → Bool
  compare_network_policy_rules spec1 spec2 =
      calculate_rules_hash spec1 == calculate_rules_hash spec2

  module _ {W : Type 0} (disk : Disk W) (codec : PolicyCodec) where
    against : Policy → Option Policy → Option Bool
    against policy none = none
    against policy (some stored) = some (compare_network_policy_rules policy.spec stored.spec)

    -- `compareNetworkPolicy`, without an answer where the file cannot be parsed.
    unfoldable pub compare_network_policy : Policy → String → Option Bool
    unfolding against
    compare_network_policy policy content = against policy (codec.parse content)

    -- The file of a policy: a template that is named in its annotations decides the name.
    pub file_of : String → String → Policy → String
    file_of cluster namespace policy =
        let template = read annotation_template policy.annotations in
        get_network_policy_file_path cluster namespace (
          if not (template == "")
          then namespace <> "-" <> trim_suffix template ".yaml" <> ".yaml"
          else policy.name <> ".yaml")

    drifted : Option String → Policy → Bool
    drifted none policy = false
    drifted (some content) policy = elim (compare_network_policy policy content) [
      | none ↦ false
      | some identical ↦ not identical
    ]

    pub has_drift : String → String → String → Policy → W → Bool
    has_drift repo cluster namespace policy w =
        let path = file_of cluster namespace policy in
        if file_exists disk repo path w then drifted (read_file disk repo path w) policy else false

    -- The loop: the policies for which a drift is logged.
    unfoldable pub drifts : String → String → String → List Policy → W → List Policy
    unfolding has_drift drifted file_of
    drifts repo cluster namespace [] w = []
    drifts repo cluster namespace (policy ∷ rest) w =
        let others = drifts repo cluster namespace rest w in
        if has_drift repo cluster namespace policy w then policy ∷ others else others
