-- ===== src/NetworkPolicy/Plan/Laws.antt =====
-- No policy of the cluster is forgotten.
use text.Mathlib.TextLemmas.{append_assoc}
use permission_binder_operat.Prelude.{
  String, Bool, true, false, ◌≡◌, refl, sym, subst, ◌∙◌, ap, ◌⊎◌, inl, inr, Option, none, some,
  List, [], ◌∷◌, ◌++◌, In, ok, if◌then◌else◌, ◌==◌, eq_iff, arith, Bool-cases,
}
use permission_binder_operat.GoString.{◌<>◌, trim_suffix}
use permission_binder_operat.NetworkPolicy.Disk.{Disk, file_exists}
use permission_binder_operat.NetworkPolicy.Policies.{NetworkSpec, Policy, PolicyClient, PolicyCodec}
use permission_binder_operat.NetworkPolicy.Provider.{
  Match, get_network_policy_name, is_policy_from_template,
}
use permission_binder_operat.NetworkPolicy.Sources.{backup_network_policy}
use permission_binder_operat.NetworkPolicy.Plan.{
  NewFile, has_policy, from_any_template, may_back_up, path_of, template_file_name, backup_file,
  template_file, other_file, with_file, template_files, other_files, files_to_create,
}

In-append_left : {A : Type 0} (a : A) (xs ys : List A) → In a xs → In a (xs ++ ys)
In-append_left a [] ys m = absurd m
In-append_left a (x ∷ xs) ys (inl e) = inl e
In-append_left a (x ∷ xs) ys (inr m) = inr (In-append_left a xs ys m)

In-append_right : {A : Type 0} (a : A) (xs ys : List A) → In a ys → In a (xs ++ ys)
In-append_right a [] ys m = m
In-append_right a (x ∷ xs) ys m = inr (In-append_right a xs ys m)

same_name : (policy p : Policy) → policy ≡ p → (p.name == policy.name) ≡ true
same_name policy p e = (eq_iff p.name policy.name).1 (ap (λ (q : Policy). q.name) (sym e))

has_policy-In :
    (policy : Policy) (policies : List Policy)
    → In policy policies
    → has_policy policy.name policies ≡ true
unfolding has_policy
has_policy-In policy [] m = absurd m
has_policy-In policy (p ∷ rest) m = elim m [
  | inl e ↦ rw (same_name policy p e) refl
  | inr there ↦ ground (arith, has_policy-In policy rest there)
]

-- A name that comes from a template is the one that the template gives.
template_of :
    (name namespace : String) (templates : List String)
    → from_any_template name namespace templates ≡ true
    → (template : String) × In template templates
      × (name ≡ get_network_policy_name namespace template)
unfolding from_any_template is_policy_from_template
template_of name namespace [] h = absurd (ground arith)
template_of name namespace (t ∷ rest) h =
    elim (Bool-cases (name == get_network_policy_name namespace t)) [
      | inl here ↦ (t, inl refl, (eq_iff name (get_network_policy_name namespace t)).0 here)
      | inr away ↦
          let (template, there, e) = template_of name namespace rest (ground arith) in
          (template, inr there, e)
    ]

module _ {W : Type 0} (disk : Disk W) (client : PolicyClient W) (codec : PolicyCodec)
    (match : Match) (spec : NetworkSpec) (repo namespace : String) (w : W) where
  abbrev allowed : Bool
  allowed = may_back_up disk client codec match spec namespace

  abbrev path : String → String
  path file = path_of disk client codec match spec namespace file

  -- The backup of the policy is among the files.
  abbrev backup : String → String → NewFile
  backup name content = record {
    path = path (name <> ".yaml");
    content = content;
    is_backup = true;
  }

  In-with_file_later :
      (o : Option NewFile) (file : NewFile) (files : List NewFile)
      → In file files
      → In file (with_file disk client codec match spec o files)
  In-with_file_later none file files m = m
  In-with_file_later (some f) file files m = inr m

  In-with_file :
      (o : Option NewFile) (file : NewFile) (files : List NewFile)
      → o ≡ some file
      → In file (with_file disk client codec match spec o files)
  In-with_file none file files e = absurd (ground arith)
  In-with_file (some f) file files e = inl (ground arith)

  In-template_files :
      (policies : List Policy) (template : String) (templates : List String) (file : NewFile)
      → In template templates
      → template_file disk client codec match spec repo namespace policies template w ≡ some file
      → In file (template_files disk client codec match spec repo namespace policies templates w)
  unfolding template_files
  In-template_files policies template [] file m e = absurd m
  In-template_files policies template (t ∷ rest) file (inl same) e =
      In-with_file (template_file disk client codec match spec repo namespace policies t w) file
        (template_files disk client codec match spec repo namespace policies rest w)
        (subst
          (λ x. template_file disk client codec match spec repo namespace policies x w ≡ some file)
          same e)
  In-template_files policies template (t ∷ rest) file (inr there) e =
      In-with_file_later (template_file disk client codec match spec repo namespace policies t w)
        file (template_files disk client codec match spec repo namespace policies rest w)
        (In-template_files policies template rest file there e)

  In-other_files :
      (templates : List String) (policy : Policy) (policies : List Policy) (file : NewFile)
      → In policy policies
      → other_file disk client codec match spec repo namespace templates policy w ≡ some file
      → In file (other_files disk client codec match spec repo namespace templates policies w)
  unfolding other_files
  In-other_files templates policy [] file m e = absurd m
  In-other_files templates policy (p ∷ rest) file (inl same) e =
      In-with_file (other_file disk client codec match spec repo namespace templates p w) file
        (other_files disk client codec match spec repo namespace templates rest w)
        (subst
          (λ x. other_file disk client codec match spec repo namespace templates x w ≡ some file)
          same e)
  In-other_files templates policy (p ∷ rest) file (inr there) e =
      In-with_file_later (other_file disk client codec match spec repo namespace templates p w) file
        (other_files disk client codec match spec repo namespace templates rest w)
        (In-other_files templates policy rest file there e)

  template_file_name_lem :
      (template : String)
      → template_file_name disk client codec match spec namespace template
        ≡ get_network_policy_name namespace template <> ".yaml"
  unfolding get_network_policy_name
  template_file_name_lem template = sym (
      append_assoc namespace ("-" <> trim_suffix template ".yaml") ".yaml"
      ∙ ap (◌<>◌ namespace) (append_assoc "-" (trim_suffix template ".yaml") ".yaml"))

  template_backed_up :
      (policies : List Policy) (template content : String)
      → has_policy (get_network_policy_name namespace template) policies ≡ true
      → allowed ≡ true
      → backup_network_policy disk client codec namespace
          (get_network_policy_name namespace template)
          w
        ≡ ok content
      → file_exists disk repo (path (get_network_policy_name namespace template <> ".yaml")) w
        ≡ false
      → template_file disk client codec match spec repo namespace policies template w
        ≡ some (backup (get_network_policy_name namespace template) content)
  unfolding template_file backup_file
  template_backed_up policies template content there yes' done new =
      rw (template_file_name_lem template, new, there, yes', done) refl

  other_backed_up :
      (templates : List String) (policy : Policy) (content : String)
      → from_any_template policy.name namespace templates ≡ false
      → backup_network_policy disk client codec namespace policy.name w ≡ ok content
      → file_exists disk repo (path (policy.name <> ".yaml")) w ≡ false
      → other_file disk client codec match spec repo namespace templates policy w
        ≡ some (backup policy.name content)
  unfolding other_file backup_file
  other_backed_up templates policy content own done new = rw (own, new, done) refl

  named_backed_up :
      (templates : List String) (policies : List Policy) (policy : Policy) (content : String)
      → In policy policies
      → allowed ≡ true
      → from_any_template policy.name namespace templates ≡ true
      → backup_network_policy disk client codec namespace policy.name w ≡ ok content
      → file_exists disk repo (path (policy.name <> ".yaml")) w ≡ false
      → In
          (backup policy.name content)
          (template_files disk client codec match spec repo namespace policies templates w)
  named_backed_up templates policies policy content m yes' made done new =
      let (template, there, e) = template_of policy.name namespace templates made in
      let found = has_policy-In policy policies m in
      In-template_files policies template templates (backup policy.name content) there (
        rw e (
          template_backed_up policies template content (rw e at found) yes' (rw e at done)
            (rw e at new)))

  -- Where backups are allowed, no policy of the cluster is forgotten: if it can be read, its file
  -- is in the repository already or is among the files that are planned, whether or not its name is that
  -- of a template.
  pub policies_covered :
      (templates : List String) (policies : List Policy) (policy : Policy) (content : String)
      → In policy policies
      → may_back_up disk client codec match spec namespace ≡ true
      → backup_network_policy disk client codec namespace policy.name w ≡ ok content
      → (file_exists disk repo
            (path_of disk client codec match spec namespace (policy.name <> ".yaml"))
            w
          ≡ true)
        ⊎ In
            (record {
              path = path_of disk client codec match spec namespace (policy.name <> ".yaml");
              content = content;
              is_backup = true;
            })
            (files_to_create disk client codec match spec repo namespace templates policies w)
  unfolding files_to_create
  policies_covered templates policies policy content m yes' done =
      elim (Bool-cases (file_exists disk repo (path (policy.name <> ".yaml")) w)) [
        | inl old ↦ inl old
        | inr new ↦ inr (elim (Bool-cases (from_any_template policy.name namespace templates)) [
          | inl made ↦
              In-append_left (backup policy.name content)
                (template_files disk client codec match spec repo namespace policies templates w)
                (if allowed
                  then other_files disk client codec match spec repo namespace templates policies w
                  else [])
                (named_backed_up templates policies policy content m yes' made done new)
          | inr own ↦
              In-append_right (backup policy.name content)
                (template_files disk client codec match spec repo namespace policies templates w)
                (if allowed
                  then other_files disk client codec match spec repo namespace templates policies w
                  else [])
                (rw yes' (
                  In-other_files templates policy policies (backup policy.name content) m
                    (other_backed_up templates policy content own done new)))
        ])
      ]
