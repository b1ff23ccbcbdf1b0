-- ===== src/Tests/Rules.antt =====
-- The resources, the cleaned objects and the rules on small inputs.
use mathlib.Core.List.{Permᴰ}
use permission_binder_operat.Prelude.{
  String, true, false, ◌≡◌, refl, ◌≢◌, none, some, List, [], ◌∷◌, map, In, ok, inl, inr, ap, sym,
  ◌∙◌, eq_iff, arith,
}
use permission_binder_operat.GoMap.{lookup}
use permission_binder_operat.GoPath.{join, is_abs}
use permission_binder_operat.GoSort.{sort_by, sort_in}
use permission_binder_operat.GoSort.Laws.{Tells}
use permission_binder_operat.GoString.Order.{text_le}
use permission_binder_operat.Whitelist.{contains_string}
use permission_binder_operat.NetworkPolicy.Disk.{read_file, write_file}
use permission_binder_operat.NetworkPolicy.Kustomization.{
  Kustomization, new_resources, update_kustomization_resources,
}
use permission_binder_operat.NetworkPolicy.Kustomization.File.{
  IsUpdated, update_kustomization_resources_lem,
}
use permission_binder_operat.NetworkPolicy.Json.{
  Fields, end, field, object, text, null, get, put, drop,
}
use permission_binder_operat.NetworkPolicy.Clean.{clean_json_for_git_ops, clean_metadata}
use permission_binder_operat.NetworkPolicy.Clean.Laws.{IsClean, clean_json_for_git_ops-IsClean}
use permission_binder_operat.NetworkPolicy.Policies.{Requirement, Port, Rule, PolicySpec}
use permission_binder_operat.NetworkPolicy.Single.{or_empty}
use permission_binder_operat.NetworkPolicy.Drift.{
  Texts, normalize_requirement, normalize_selector, normalize_ports, normalize_rule,
  calculate_rules_hash, compare_network_policy_rules,
}
use permission_binder_operat.NetworkPolicy.Drift.Laws.{
  Decides, compare_network_policy_rules-Reordered, compare_network_policy_rules-expressions,
}
use permission_binder_operat.Tests.Lab.{
  Lab, lab_disk, lab_disk-laws, lab_yaml, lab_yaml-print, world,
}

added_sorted :
    new_resources true "b.yaml" ("c.yaml" ∷ "a.yaml" ∷ []) ≡ "a.yaml" ∷ "b.yaml" ∷ "c.yaml" ∷ []
unfolding new_resources contains_string text_le
added_sorted = refl

abbrev file : String
file = "networkpolicies/c/kustomization.yaml"

-- A repository whose kustomization lists nothing.
abbrev empty_list : Lab
empty_list = record world { files = ("/tmp/t/networkpolicies/c/kustomization.yaml", "") ∷ [] }

abbrev no_resources : Kustomization
no_resources = record { resources = []; other = "" }

found_empty : read_file lab_disk "/tmp/t" file empty_list ≡ some ""
unfolding read_file lookup join
found_empty = refl

parsed_empty : lab_yaml.parse "" ≡ some no_resources
unfolding lab_yaml
parsed_empty = refl

updated :
    (update_kustomization_resources lab_disk lab_yaml "/tmp/t" file "shop/a.yaml" true empty_list).0
    ≡ ok tt
unfolding update_kustomization_resources read_file lookup join lab_yaml new_resources write_file
    contains_string is_abs
updated = refl

update_kustomization_resources_lem_example :
    (written : String) × (new : Kustomization) × (read_file lab_disk "/tmp/t" file
        (update_kustomization_resources lab_disk lab_yaml "/tmp/t" file "shop/a.yaml" true
          empty_list).1
      ≡ some written)
    × (lab_yaml.parse written ≡ some new)
    × IsUpdated true "shop/a.yaml" no_resources new
update_kustomization_resources_lem_example =
    update_kustomization_resources_lem lab_disk lab_disk-laws lab_yaml lab_yaml-print "/tmp/t" file
      "shop/a.yaml" "" true no_resources empty_list found_empty parsed_empty tt
      (unfold is_abs in refl) updated

abbrev stored : Fields
stored =
    field "metadata" (object (field "uid" (text "4711") (field "name" (text "deny") end)))
      (field "status" null end)

cleaned_uid :
    clean_json_for_git_ops stored
    ≡ field "metadata"
        (object (field "name" (text "deny") end))
        (field "apiVersion" (text "networking.k8s.io/v1") (field "kind" (text "NetworkPolicy") end))
unfolding clean_json_for_git_ops drop get put clean_metadata
cleaned_uid = refl

clean_json_for_git_ops-IsClean_example : IsClean stored (clean_json_for_git_ops stored)
clean_json_for_git_ops-IsClean_example = clean_json_for_git_ops-IsClean stored

first_port : List Port → String
first_port [] = ""
first_port (p ∷ rest) = or_empty p.port

first_value : List Requirement → String
first_value [] = ""
first_value (e ∷ rest) = elim e.values [ [] ↦ "" | v ∷ vs ↦ v ]

abbrev texts : Texts
texts = record {
  port = λ p. or_empty p.port;
  peer = λ p. "";
  ingress = λ r. first_port r.ports;
  egress = λ r. first_port r.ports;
  spec = λ s. first_value s.pod_selector.match_expressions;
  sha = λ t. t;
}

abbrev tcp : String → Port
tcp n = record { protocol = some "TCP"; port = some n; end_port = none }

abbrev web : Rule
web = record { ports = tcp "80" ∷ tcp "443" ∷ []; peers = [] }

abbrev web' : Rule
web' = record { ports = tcp "443" ∷ tcp "80" ∷ []; peers = [] }

abbrev all_ports : Rule
all_ports = record { ports = []; peers = [] }

abbrev spec_of : List String → List Rule → PolicySpec
spec_of values rules = record {
  pod_selector = record {
    match_labels = [];
    match_expressions = record { key = "app"; operator = "In"; values = values } ∷ [];
  };
  policy_types = [];
  ingress = rules;
  egress = [];
}

a_not_b : ◌≢◌ {A = String} "a" "b"
a_not_b e = absurd (ground (arith, eq_iff "a" "b"))

hashes_differ :
    calculate_rules_hash texts (spec_of ("a" ∷ "b" ∷ []) [])
    ≢ calculate_rules_hash texts (spec_of ("b" ∷ "a" ∷ []) [])
unfolding calculate_rules_hash normalize_selector normalize_requirement first_value
hashes_differ = a_not_b

values_differ :
    (spec_of ("a" ∷ "b" ∷ []) []).pod_selector.match_expressions
    ≢ (spec_of ("b" ∷ "a" ∷ []) []).pod_selector.match_expressions
unfolding first_value
values_differ e = a_not_b (ap first_value e)

compare_network_policy_rules-expressions_example :
    compare_network_policy_rules texts (spec_of ("a" ∷ "b" ∷ []) []) (spec_of ("b" ∷ "a" ∷ []) [])
    ≡ false
compare_network_policy_rules-expressions_example =
    compare_network_policy_rules-expressions texts (spec_of ("a" ∷ "b" ∷ []) [])
      (spec_of ("b" ∷ "a" ∷ []) []) (λ e. absurd (hashes_differ e)) values_differ

Tells-two : {A : Type 0} (key : A → String) (x y : A) → key x ≢ key y → Tells key (x ∷ y ∷ [])
Tells-two key x y differ a b (inl e) (inl f) h = e ∙ sym f
Tells-two key x y differ a b (inl e) (inr (inl f)) h =
    absurd (differ (ap key (sym e) ∙ h ∙ ap key f))
Tells-two key x y differ a b (inr (inl e)) (inl f) h =
    absurd (differ (ap key (sym f) ∙ sym h ∙ ap key e))
Tells-two key x y differ a b (inr (inl e)) (inr (inl f)) h = e ∙ sym f
Tells-two key x y differ a b (inl e) (inr (inr k)) h = absurd k
Tells-two key x y differ a b (inr (inl e)) (inr (inr k)) h = absurd k
Tells-two key x y differ a b (inr (inr k)) _ h = absurd k

ports_told : (r : Rule) → In r (web ∷ all_ports ∷ []) → Tells texts.port r.ports
ports_told r (inl e) =
    rw e
      (Tells-two texts.port (tcp "80") (tcp "443") λ f. absurd (ground (arith, eq_iff "80" "443")))
ports_told r (inr (inl e)) = rw e (λ x y m. absurd m)
ports_told r (inr (inr k)) = absurd k

peers_told : (r : Rule) → In r (web ∷ all_ports ∷ []) → Tells texts.peer r.peers
peers_told r (inl e) = rw e (λ x y m. absurd m)
peers_told r (inr (inl e)) = rw e (λ x y m. absurd m)
peers_told r (inr (inr k)) = absurd k

rules_told : Tells texts.ingress (map (normalize_rule texts) (web ∷ all_ports ∷ []))
unfolding normalize_rule normalize_ports sort_by sort_in text_le first_port
rules_told =
    Tells-two texts.ingress (normalize_rule texts web) (normalize_rule texts all_ports)
      λ f. absurd (ground (arith, eq_iff "443" ""))

told : Decides texts texts.ingress (web ∷ all_ports ∷ [])
told = record { ports = ports_told; peers = peers_told; rules = rules_told }

compare_network_policy_rules-Reordered_example :
    compare_network_policy_rules texts
      (spec_of [] (web ∷ all_ports ∷ []))
      (spec_of [] (all_ports ∷ web' ∷ []))
    ≡ true
compare_network_policy_rules-Reordered_example =
    compare_network_policy_rules-Reordered texts (spec_of [] (web ∷ all_ports ∷ []))
      (spec_of [] (all_ports ∷ web' ∷ [])) refl refl told
      (record { ports = λ r m. absurd m; peers = λ r m. absurd m; rules = λ x y m n e. absurd m })
      (record {
        middle = all_ports ∷ web ∷ [];
        moved = Permᴰ.swap refl refl;
        pairs = (
          record { ports = Permᴰ.nil; peers = Permᴰ.nil },
          (record { ports = Permᴰ.swap refl refl; peers = Permᴰ.nil }, tt),
        );
      })
      (record { middle = []; moved = Permᴰ.nil; pairs = tt })
