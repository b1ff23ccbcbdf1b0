-- ===== src/Whitelist/Served.antt =====
-- An entry that `processConfigMap` reports has its role binding after the loop, unless a later line
-- asks for the same one.
use permission_binder_operat.Prelude.{
  String, Bool, true, false, ◌≡◌, refl, sym, ◌∙◌, ap, ◌≢◌, inl, inr, List, [], ◌∷◌, ◌++◌, In,
  Result, ok, err, Result-cases, arith, length, length-append, subst,
}
use permission_binder_operat.GoString.{trim_space}
use permission_binder_operat.Ownership.{Owner}
use permission_binder_operat.Permission.Prefixes.{Parsed}
use permission_binder_operat.Cluster.{found, KindLaws, StoredBinding, Client, System, OpError}
use permission_binder_operat.Namespaces.{ensure_namespace}
use permission_binder_operat.Namespaces.Frame.{ensure_namespace-keeps}
use permission_binder_operat.RoleBindings.{Grant, create_role_binding}
use permission_binder_operat.RoleBindings.Gate.{key_of, create_role_binding-other}
use permission_binder_operat.RoleBindings.Outcome.{Granted, create_role_binding_outcome}
use permission_binder_operat.Whitelist.{
  Spec, entry, grant_of, reported, Progress, read_line, bound, ensured, process_entry, process_read,
  process_line, process_lines,
}
use permission_binder_operat.Whitelist.Steps.{process_lines-keeps}
use permission_binder_operat.Whitelist.Gate.{NamespacesApart}

-- A list is not itself with one more element.
longer : {A : Type 0} (xs : List A) (x : A) → xs ≢ xs ++ (x ∷ [])
longer xs x e = absurd (ground (arith, ap length e, length-append xs (x ∷ [])))

module _ {W : Type 0} (client : Client W)
    (laws : KindLaws key_of StoredBinding client.role_bindings) (apart : NamespacesApart client)
    (managed_by now : String) (owner : Owner) (clock : now ≢ "") (spec : Spec) where
  abbrev Has : Grant → W → Type 0
  Has grant w = Granted client managed_by owner grant w

  bound-world :
      (grant : Grant) (p : Progress W) (r : Result OpError Bool × System W)
      → (bound client managed_by now owner spec grant p r).system.world ≡ r.1.world
  unfolding bound
  bound-world grant p (err e, s) = refl
  bound-world grant p (ok false, s) = refl
  bound-world grant p (ok true, s) = refl

  granted_if :
      (grant : Grant) (p : Progress W) (s : System W) (b : Bool)
      → (create_role_binding client managed_by now owner grant s).0 ≡ ok b
      → (bound client managed_by now owner spec grant p
          (create_role_binding client managed_by now owner grant s)).processed
        ≡ p.processed ++ (reported grant ∷ [])
      → Has grant (create_role_binding client managed_by now owner grant s).1.world
  unfolding bound
  granted_if grant p s true e h =
      create_role_binding_outcome client laws managed_by now owner grant clock s true e
  granted_if grant p s false e h = absurd (longer p.processed (reported grant) (rw (e, bound) at h))

  bound-Granted :
      (grant : Grant) (p : Progress W) (s : System W)
      → (bound client managed_by now owner spec grant p
          (create_role_binding client managed_by now owner grant s)).processed
        ≡ p.processed ++ (reported grant ∷ [])
      → Has grant (create_role_binding client managed_by now owner grant s).1.world
  unfolding bound
  bound-Granted grant p s h =
      let r = create_role_binding client managed_by now owner grant s in
      elim (Result-cases r.0) [
        | inr (x, e) ↦ absurd (longer p.processed (reported grant) (rw (e, bound) at h))
        | inl (b, e) ↦ granted_if grant p s b e h
      ]

  ensured-Granted :
      (grant : Grant) (p : Progress W) (r : Result OpError (Unit {0}) × System W)
      → (ensured client managed_by now owner spec grant p r).processed
        ≡ p.processed ++ (reported grant ∷ [])
      → Has grant (ensured client managed_by now owner spec grant p r).system.world
  unfolding ensured
  ensured-Granted grant p (err e, s) h = absurd (longer p.processed (reported grant) h)
  ensured-Granted grant p (ok _, s) h =
      subst (Has grant)
        (sym (bound-world grant p (create_role_binding client managed_by now owner grant s)))
        (bound-Granted grant p s h)

  -- One line that is reported.
  line-Granted :
      (line cn : String) (parsed : Parsed) (p : Progress W)
      → read_line spec line ≡ entry cn parsed
      → (process_line client managed_by now owner spec line p).processed
        ≡ p.processed ++ (reported (grant_of spec cn parsed) ∷ [])
      → Has
          (grant_of spec cn parsed)
          (process_line client managed_by now owner spec line p).system.world
  unfolding process_line process_read process_entry
  line-Granted line cn parsed p read h =
      rw (read, process_read)
        (ensured-Granted (grant_of spec cn parsed)
          (record p { valid_entries = p.valid_entries ++ (trim_space line ∷ []) })
          (ensure_namespace client managed_by now owner parsed.namespace p.system)
          (rw (read, process_read) at h))

  abbrev place : Grant → String × String
  place grant = (grant.namespace, grant.name)

  -- The loop over lines that ask for other role bindings keeps a grant.
  lines-keep :
      (grant : Grant) (lines : List String) (p : Progress W)
      → ((line cn : String) (parsed : Parsed)
          → In line lines
          → read_line spec line ≡ entry cn parsed
          → place grant ≢ place (grant_of spec cn parsed))
      → Has grant p.system.world
      → Has grant (process_lines client managed_by now owner spec lines p).system.world
  lines-keep grant lines p others (rb, e, granted) = (
    rb,
    process_lines-keeps client managed_by now owner spec
        (λ (w : W). client.role_bindings.get (place grant) w ≡ found rb)
        (λ n t q.
          ensure_namespace-keeps client managed_by now owner
            (λ (w : W). client.role_bindings.get (place grant) w ≡ found rb)
            (λ ns w h. apart.binding-namespace_create ns w (place grant) ∙ h)
            (λ ns w h. apart.binding-namespace_update ns w (place grant) ∙ h) n t q)
        (λ other. place grant ≢ place other)
        (λ other t differs q.
          create_role_binding-other client laws managed_by now owner other (place grant) t differs
          ∙ q)
        lines p others e,
    granted,
  )

  -- A line whose role binding is added to the report has it in the cluster when the loop is over,
  -- granting the cluster role to the entry's group alone, if no later line asks for a role binding
  -- of that name in that namespace.
  pub process_lines-Granted :
      (line cn : String) (parsed : Parsed) (rest : List String) (p : Progress W)
      → read_line spec line ≡ entry cn parsed
      → (process_line client managed_by now owner spec line p).processed
        ≡ p.processed ++ (reported (grant_of spec cn parsed) ∷ [])
      → ((later cn' : String) (parsed' : Parsed)
          → In later rest
          → read_line spec later ≡ entry cn' parsed'
          → place (grant_of spec cn parsed) ≢ place (grant_of spec cn' parsed'))
      → Granted client managed_by owner
          (grant_of spec cn parsed)
          (process_lines client managed_by now owner spec (line ∷ rest) p).system.world
  unfolding process_lines
  process_lines-Granted line cn parsed rest p read new others =
      lines-keep (grant_of spec cn parsed) rest
        (process_line client managed_by now owner spec line p) others
        (line-Granted line cn parsed p read new)
