-- ===== src/NetworkPolicy/Clean/Metadata.antt =====
-- What cleaning takes out of the metadata.
use permission_binder_operat.Prelude.{
  String, false, ◌≡◌, refl, sym, ◌∙◌, ap, ◌≢◌, inl, inr, Option, none, some, List, [], ◌∷◌, In,
  if◌then◌else◌, ◌==◌, eq_iff, eq_refl, arith, Bool-cases, not_true,
}
use permission_binder_operat.NetworkPolicy.Json.{
  Json, object, Fields, end, field, get, put, drop, get-put, get-drop,
}
use permission_binder_operat.NetworkPolicy.Clean.{
  is_internal_kubernetes_annotation, drop_internal, fields_to_remove, drop_all, put_unless_empty,
  clean_annotations, clean_labels, clean_metadata,
}

eq_false : (a b : String) → a ≢ b → (a == b) ≡ false
eq_false a b h = not_true (a == b) (λ e. h ((eq_iff a b).0 e))

pub get-drop_ne :
    (gone key : String) (obj : Fields) → gone ≢ key → get key (drop gone obj) ≡ get key obj
get-drop_ne gone key obj h = get-drop gone key obj ∙ rw (eq_false gone key h) refl

pub get-drop_self : (gone : String) (obj : Fields) → get gone (drop gone obj) ≡ none
get-drop_self gone obj = get-drop gone gone obj ∙ rw (eq_refl gone) refl

pub get-put_ne :
    (key other : String) (value : Json) (obj : Fields)
    → key ≢ other
    → get other (put key value obj) ≡ get other obj
get-put_ne key other value obj h = get-put key other value obj ∙ rw (eq_false key other h) refl

pub get-put_self :
    (key : String) (value : Json) (obj : Fields) → get key (put key value obj) ≡ some value
get-put_self key value obj = get-put key key value obj ∙ rw (eq_refl key) refl

-- An annotation is kept exactly if it is not one of Kubernetes itself.
get-drop_internal :
    (key : String) (annotations : Fields)
    → get key (drop_internal annotations)
      ≡ (if is_internal_kubernetes_annotation key then none else get key annotations)
unfolding get drop_internal
get-drop_internal key end = ground arith
get-drop_internal key (field k v rest) = elim (Bool-cases (k == key)) [
  | inl same ↦
      let e = ap is_internal_kubernetes_annotation ((eq_iff k key).0 same) in
      ground (arith, get-drop_internal key rest, e)
  | inr other ↦ ground (arith, get-drop_internal key rest)
]

get-drop_all_ne :
    (key : String) (gone : List String) (obj : Fields)
    → (In key gone → ⊥)
    → get key (drop_all gone obj) ≡ get key obj
unfolding drop_all
get-drop_all_ne key [] obj h = refl
get-drop_all_ne key (g ∷ rest) obj h =
    get-drop_all_ne key rest (drop g obj) (λ m. h (inr m))
    ∙ get-drop_ne g key obj (λ e. h (inl (sym e)))

get-drop_all_gone :
    (key : String) (gone : List String) (obj : Fields)
    → get key obj ≡ none
    → get key (drop_all gone obj) ≡ none
unfolding drop_all
get-drop_all_gone key [] obj h = h
get-drop_all_gone key (g ∷ rest) obj h =
    get-drop_all_gone key rest (drop g obj) (get-drop g key obj ∙ ground arith)

get-drop_all :
    (key : String) (gone : List String) (obj : Fields)
    → In key gone
    → get key (drop_all gone obj) ≡ none
unfolding drop_all
get-drop_all key [] obj h = absurd h
get-drop_all key (g ∷ rest) obj (inl same) =
    get-drop_all_gone key rest (drop g obj) (rw same (get-drop_self g obj))
get-drop_all key (g ∷ rest) obj (inr there) = get-drop_all key rest (drop g obj) there

put_unless_empty_ne :
    (key other : String) (inside obj : Fields)
    → key ≢ other
    → get other (put_unless_empty key inside obj) ≡ get other obj
unfolding put_unless_empty
put_unless_empty_ne key other end obj h = get-drop_ne key other obj h
put_unless_empty_ne key other (field k v rest) obj h =
    get-put_ne key other (object (field k v rest)) obj h

clean_annotations_ne :
    (key : String) (value : Option Json) (metadata : Fields)
    → "annotations" ≢ key
    → get key (clean_annotations value metadata) ≡ get key metadata
unfolding clean_annotations
clean_annotations_ne key (some (object a)) metadata h =
    put_unless_empty_ne "annotations" key (drop_internal a) metadata h
clean_annotations_ne key _ metadata h = refl

clean_labels_ne :
    (key : String) (value : Option Json) (metadata : Fields)
    → "labels" ≢ key
    → get key (clean_labels value metadata) ≡ get key metadata
unfolding clean_labels
clean_labels_ne key (some (object end)) metadata h = get-drop_ne "labels" key metadata h
clean_labels_ne key _ metadata h = refl

-- The metadata before and after.
get-clean_metadata :
    (key : String) (metadata : Fields)
    → "annotations" ≢ key
    → "labels" ≢ key
    → get key (clean_metadata metadata) ≡ get key (drop_all fields_to_remove metadata)
unfolding clean_metadata
get-clean_metadata key metadata h k =
    let kept = drop_all fields_to_remove metadata in
    let annotated = clean_annotations (get "annotations" kept) kept in
    clean_labels_ne key (get "labels" annotated) annotated k
    ∙ clean_annotations_ne key (get "annotations" kept) kept h

-- The annotation of a decoded metadata section.
pub annotation_in : String → Option Json → Option Json
annotation_in key (some (object annotations)) = get key annotations
annotation_in key _ = none

abbrev pub annotation : String → Fields → Option Json
annotation key metadata = annotation_in key (get "annotations" metadata)

annotation-put :
    (key : String) (inside metadata : Fields)
    → annotation key (put_unless_empty "annotations" inside metadata) ≡ get key inside
unfolding put_unless_empty annotation_in get
annotation-put key end metadata = rw (get-drop_self "annotations" metadata) refl
annotation-put key (field k v rest) metadata =
    rw (get-put_self "annotations" (object (field k v rest)) metadata) refl

annotation-clean_annotations :
    (key : String) (value : Option Json) (metadata : Fields)
    → get "annotations" metadata ≡ value
    → annotation key (clean_annotations value metadata)
      ≡ (if is_internal_kubernetes_annotation key then none else annotation_in key value)
unfolding clean_annotations annotation_in
annotation-clean_annotations key (some (object a)) metadata e =
    annotation-put key (drop_internal a) metadata ∙ get-drop_internal key a
annotation-clean_annotations key _ metadata e = rw e (ground arith)

-- The metadata section that is written for the section `old`.
pub record IsCleanMetadata (old new : Fields) : Type 0 where
  pub removed : (key : String) → In key fields_to_remove → get key new ≡ none
  pub annotations :
      (key : String)
      → annotation key new
        ≡ (if is_internal_kubernetes_annotation key then none else annotation key old)
  pub others :
      (key : String)
      → (In key fields_to_remove → ⊥)
      → "annotations" ≢ key
      → "labels" ≢ key
      → get key new ≡ get key old

-- The two sections that are cleaned are none of the fields that are removed.
removed_differ :
    (key : String)
    → In key fields_to_remove
    → (("annotations" == key) ≡ false) × (("labels" == key) ≡ false)
removed_differ key m = elim m [
  | inl e ↦ rw e (refl, refl)
  | inr (inl e) ↦ rw e (refl, refl)
  | inr (inr (inl e)) ↦ rw e (refl, refl)
  | inr (inr (inr (inl e))) ↦ rw e (refl, refl)
  | inr (inr (inr (inr (inl e)))) ↦ rw e (refl, refl)
  | inr (inr (inr (inr (inr (inl e))))) ↦ rw e (refl, refl)
  | inr (inr (inr (inr (inr (inr none'))))) ↦ absurd none'
]

pub ne : (a b : String) → (a == b) ≡ false → a ≢ b
ne a b h e = absurd (ground (arith, (eq_iff a b).1 e))

annotations_kept : In "annotations" fields_to_remove → ⊥
annotations_kept m = ne "annotations" "annotations" (removed_differ "annotations" m).0 refl

annotation-clean_metadata :
    (key : String) (metadata : Fields)
    → annotation key (clean_metadata metadata)
      ≡ (if is_internal_kubernetes_annotation key then none else annotation key metadata)
unfolding clean_metadata
annotation-clean_metadata key metadata =
    let kept = drop_all fields_to_remove metadata in
    let annotated = clean_annotations (get "annotations" kept) kept in
    ap (annotation_in key) (
      clean_labels_ne "annotations" (get "labels" annotated) annotated
        (ne "labels" "annotations" refl))
    ∙ annotation-clean_annotations key (get "annotations" kept) kept refl
    ∙ rw (get-drop_all_ne "annotations" fields_to_remove metadata annotations_kept) refl

pub clean_metadata-IsCleanMetadata : (old : Fields) → IsCleanMetadata old (clean_metadata old)
clean_metadata-IsCleanMetadata old = record {
  removed = λ key m.
      let (not_annotations, not_labels) = removed_differ key m in
      get-clean_metadata key old (ne "annotations" key not_annotations) (ne "labels" key not_labels)
      ∙ get-drop_all key fields_to_remove old m;
  annotations = λ key. annotation-clean_metadata key old;
  others = λ key kept h k.
      get-clean_metadata key old h k ∙ get-drop_all_ne key fields_to_remove old kept;
}
