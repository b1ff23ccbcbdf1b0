-- ===== src/NetworkPolicy/Clean/Laws.antt =====
-- What cleaning takes out, and that all else is as it was.
use permission_binder_operat.Prelude.{
  String, false, ◌≡◌, refl, ◌∙◌, ap, ◌≢◌, inl, inr, Option, none, some, Bool-cases,
}
use permission_binder_operat.NetworkPolicy.Json.{Json, text, object, Fields, get}
use permission_binder_operat.NetworkPolicy.Clean.{
  clean_metadata, is_nil, set_default, clean_section, clean_json_for_git_ops,
}
use permission_binder_operat.NetworkPolicy.Clean.Metadata.{
  IsCleanMetadata, clean_metadata-IsCleanMetadata, get-drop_ne, get-drop_self, get-put_ne,
  get-put_self, ne,
}

-- The object that is written for the object `old`.
pub record IsClean (old new : Fields) : Type 0 where
  pub no_status : get "status" new ≡ none
  pub api_version : is_nil (get "apiVersion" new) ≡ false
  pub kind : is_nil (get "kind" new) ≡ false
  pub metadata :
      (section : Fields)
      → get "metadata" old ≡ some (object section)
      → (cleaned : Fields) × (get "metadata" new ≡ some (object cleaned))
        × IsCleanMetadata section cleaned
  pub others :
      (key : String)
      → "apiVersion" ≢ key
      → "kind" ≢ key
      → "metadata" ≢ key
      → "status" ≢ key
      → get key new ≡ get key old

get-set_default_ne :
    (key other value : String) (obj : Fields)
    → key ≢ other
    → get other (set_default key value obj) ≡ get other obj
unfolding set_default
get-set_default_ne key other value obj h = elim (Bool-cases (is_nil (get key obj))) [
  | inl missing ↦ rw missing (get-put_ne key other (text value) obj h)
  | inr given ↦ rw given refl
]

get-set_default :
    (key value : String) (obj : Fields) → is_nil (get key (set_default key value obj)) ≡ false
unfolding set_default is_nil
get-set_default key value obj = elim (Bool-cases (is_nil (get key obj))) [
  | inl missing ↦ rw missing (rw (get-put_self key (text value) obj) refl)
  | inr given ↦ rw given given
]

clean_section_ne :
    (key : String) (value : Option Json) (obj : Fields)
    → "metadata" ≢ key
    → get key (clean_section value obj) ≡ get key obj
unfolding clean_section
clean_section_ne key (some (object section)) obj h =
    get-put_ne "metadata" key (object (clean_metadata section)) obj h
clean_section_ne key _ obj h = refl

abbrev named : Fields → Fields
named obj = set_default "kind" "NetworkPolicy" (set_default "apiVersion" "networking.k8s.io/v1" obj)

get-clean_json_ne :
    (key : String) (obj : Fields)
    → "status" ≢ key
    → get key (clean_json_for_git_ops obj)
      ≡ get key (clean_section (get "metadata" (named obj)) (named obj))
unfolding clean_json_for_git_ops
get-clean_json_ne key obj h =
    get-drop_ne "status" key (clean_section (get "metadata" (named obj)) (named obj)) h

named_ne :
    (key : String) (obj : Fields)
    → "apiVersion" ≢ key
    → "kind" ≢ key
    → get key (named obj) ≡ get key obj
named_ne key obj h k =
    get-set_default_ne "kind" key "NetworkPolicy"
      (set_default "apiVersion" "networking.k8s.io/v1" obj) k
    ∙ get-set_default_ne "apiVersion" key "networking.k8s.io/v1" obj h

cleaned_section :
    (obj section : Fields)
    → get "metadata" obj ≡ some (object section)
    → get "metadata" (clean_section (get "metadata" obj) obj)
      ≡ some (object (clean_metadata section))
unfolding clean_section
cleaned_section obj section e = rw e (get-put_self "metadata" (object (clean_metadata section)) obj)

-- What goes into the repository for an object: its kind and API version are given, the status, the
-- fields of the metadata that the server keeps and the annotations of Kubernetes itself are gone, and
-- the spec, the name, the other annotations and every other field but the labels are as they were.
pub clean_json_for_git_ops-IsClean : (old : Fields) → IsClean old (clean_json_for_git_ops old)
clean_json_for_git_ops-IsClean old =
    let section = get "metadata" (named old) in
    record {
      no_status =
          unfold clean_json_for_git_ops in
          get-drop_self "status" (clean_section section (named old));
      api_version =
          ap is_nil (
            get-clean_json_ne "apiVersion" old (ne "status" "apiVersion" refl)
            ∙ clean_section_ne "apiVersion" section (named old) (ne "metadata" "apiVersion" refl)
            ∙ get-set_default_ne "kind" "apiVersion" "NetworkPolicy"
                (set_default "apiVersion" "networking.k8s.io/v1" old) (ne "kind" "apiVersion" refl))
          ∙ get-set_default "apiVersion" "networking.k8s.io/v1" old;
      kind =
          ap is_nil (
            get-clean_json_ne "kind" old (ne "status" "kind" refl)
            ∙ clean_section_ne "kind" section (named old) (ne "metadata" "kind" refl))
          ∙ get-set_default "kind" "NetworkPolicy"
              (set_default "apiVersion" "networking.k8s.io/v1" old);
      metadata = λ before e. (
        clean_metadata before,
        get-clean_json_ne "metadata" old (ne "status" "metadata" refl)
            ∙ cleaned_section (named old) before (
                named_ne "metadata" old (ne "apiVersion" "metadata" refl)
                  (ne "kind" "metadata" refl)
                ∙ e),
        clean_metadata-IsCleanMetadata before,
      );
      others = λ key h k m n.
          get-clean_json_ne key old n
          ∙ clean_section_ne key section (named old) m
          ∙ named_ne key old h k;
    }
