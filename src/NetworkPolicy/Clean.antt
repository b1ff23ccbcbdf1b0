-- ===== src/NetworkPolicy/Clean.antt =====
-- What is taken out of an object before it goes into the repository
-- (operator/internal/controller/networkpolicy/network_policy_template_simple.go).
pub mod Metadata
pub mod Laws
use permission_binder_operat.Prelude.{
  String, Bool, true, false, ◌||◌, Option, none, some, List, [], ◌∷◌, if◌then◌else◌, ◌==◌,
}
use permission_binder_operat.GoString.{has_prefix}
use permission_binder_operat.NetworkPolicy.Json.{
  Json, null, text, object, Fields, end, field, get, put, drop,
}

abbrev pub internal_prefixes : List String
internal_prefixes =
    "kubectl.kubernetes.io/" ∷ "deployment.kubernetes.io/" ∷ "pod-template-hash" ∷ "kubernetes.io/"
    ∷ []

has_any_prefix : String → List String → Bool
has_any_prefix key [] = false
has_any_prefix key (prefix ∷ rest) =
    let later = has_any_prefix key rest in if has_prefix key prefix then true else later

-- `isInternalKubernetesAnnotation`
unfoldable pub is_internal_kubernetes_annotation : String → Bool
unfolding has_any_prefix has_prefix
is_internal_kubernetes_annotation key = has_any_prefix key internal_prefixes

-- The loop over the annotations.
pub drop_internal : Fields → Fields
drop_internal end = end
drop_internal (field k v rest) =
    let others = drop_internal rest in
    if is_internal_kubernetes_annotation k then others else field k v others

abbrev pub fields_to_remove : List String
fields_to_remove =
    "managedFields" ∷ "creationTimestamp" ∷ "generation" ∷ "uid" ∷ "resourceVersion" ∷ "selfLink"
    ∷ []

pub drop_all : List String → Fields → Fields
drop_all [] obj = obj
drop_all (key ∷ rest) obj = drop_all rest (drop key obj)

put_unless_empty : String → Fields → Fields → Fields
put_unless_empty key end obj = drop key obj
put_unless_empty key (field k v rest) obj = put key (object (field k v rest)) obj

pub clean_annotations : Option Json → Fields → Fields
clean_annotations (some (object annotations)) metadata =
    put_unless_empty "annotations" (drop_internal annotations) metadata
clean_annotations _ metadata = metadata

pub clean_labels : Option Json → Fields → Fields
clean_labels (some (object end)) metadata = drop "labels" metadata
clean_labels _ metadata = metadata

-- The metadata section.
unfoldable pub clean_metadata : Fields → Fields
unfolding drop_all put_unless_empty clean_annotations clean_labels
clean_metadata metadata =
    let kept = drop_all fields_to_remove metadata in
    let annotated = clean_annotations (get "annotations" kept) kept in
    clean_labels (get "labels" annotated) annotated

pub is_nil : Option Json → Bool
is_nil none = true
is_nil (some null) = true
is_nil (some _) = false

pub set_default : String → String → Fields → Fields
set_default key value obj = if is_nil (get key obj) then put key (text value) obj else obj

pub clean_section : Option Json → Fields → Fields
clean_section (some (object metadata)) obj = put "metadata" (object (clean_metadata metadata)) obj
clean_section _ obj = obj

-- `cleanJSONForGitOps`
unfoldable pub clean_json_for_git_ops : Fields → Fields
unfolding clean_section set_default is_nil
clean_json_for_git_ops obj =
    let named =
      set_default "kind" "NetworkPolicy" (set_default "apiVersion" "networking.k8s.io/v1" obj) in
    drop "status" (clean_section (get "metadata" named) named)
