-- ===== src/Whitelist/Steps.antt =====
-- What the three operations keep, the whole of `processConfigMap` keeps.
use permission_binder_operat.Prelude.{
  String, Bool, true, false, ◌≡◌, refl, inl, inr, List, [], ◌∷◌, In, Result, ok, err, Option-cases,
}
use permission_binder_operat.GoString.{split, trim_space}
use permission_binder_operat.GoMap.{GoMap, lookup}
use permission_binder_operat.Ownership.{Owner}
use permission_binder_operat.Cluster.{Client, System, OpError}
use permission_binder_operat.Namespaces.{ensure_namespace}
use permission_binder_operat.RoleBindings.{Grant, create_role_binding}
use permission_binder_operat.ServiceAccounts.{process_service_accounts}
use permission_binder_operat.Whitelist.{
  Spec, Line, skipped, malformed, excluded, entry, grant_of, Progress, read_line, bound, ensured,
  process_entry, process_read, process_line, process_lines, setting, process_accounts,
  accounts_step, process_content, process_config_map, processed_namespaces,
}

module _ {W : Type 0} (client : Client W) (managed_by now : String) (owner : Owner) (spec : Spec)
    (P : W → Type 0)
    (ensure : (n : String) (s : System W)
      → P s.world
      → P (ensure_namespace client managed_by now owner n s).1.world) where
  bound-keeps :
      (grant : Grant) (p : Progress W) (r : Result OpError Bool × System W)
      → P r.1.world
      → P (bound client managed_by now owner spec grant p r).system.world
  unfolding bound
  bound-keeps grant p (err e, s) h = h
  bound-keeps grant p (ok false, s) h = h
  bound-keeps grant p (ok true, s) h = h

  module _ (Good : Grant → Type 0)
      (bind : (grant : Grant) (s : System W)
        → Good grant
        → P s.world
        → P (create_role_binding client managed_by now owner grant s).1.world) where
    ensured-keeps :
        (grant : Grant) (p : Progress W) (r : Result OpError (Unit {0}) × System W)
        → Good grant
        → P r.1.world
        → P (ensured client managed_by now owner spec grant p r).system.world
    unfolding ensured
    ensured-keeps grant p (err e, s) g h = h
    ensured-keeps grant p (ok _, s) g h =
        bound-keeps grant p (create_role_binding client managed_by now owner grant s)
          (bind grant s g h)

    read-keeps :
        (text : String) (line : Line) (p : Progress W)
        → ((cn : String) (parsed : _) → line ≡ entry cn parsed → Good (grant_of spec cn parsed))
        → P p.system.world
        → P (process_read client managed_by now owner spec text line p).system.world
    unfolding process_read process_entry
    read-keeps text (skipped) p g h = h
    read-keeps text (malformed) p g h = h
    read-keeps text (excluded) p g h = h
    read-keeps text (entry cn parsed) p g h =
        ensured-keeps (grant_of spec cn parsed) _ _ (g cn parsed refl)
          (ensure parsed.namespace p.system h)

    -- `Good` holds for the role bindings that the lines ask for.
    pub process_lines-keeps :
        (lines : List String) (p : Progress W)
        → ((line : String) (cn : String) (parsed : _)
            → In line lines
            → read_line spec line ≡ entry cn parsed
            → Good (grant_of spec cn parsed))
        → P p.system.world
        → P (process_lines client managed_by now owner spec lines p).system.world
    unfolding process_lines process_line
    process_lines-keeps [] p g h = h
    process_lines-keeps (line ∷ rest) p g h =
        process_lines-keeps rest _ (λ l cn parsed there e. g l cn parsed (inr there) e)
          (read-keeps (trim_space line) (read_line spec line) p
            (λ cn parsed e. g line cn parsed (inl refl) e) h)

    module _
        (accounts : (n : String) (mapping : GoMap String) (s : System W)
          → P s.world
          → P
              (process_service_accounts client
                (setting client managed_by now owner spec n)
                mapping
                s).1.world) where
      process_accounts-keeps :
          (namespaces : List String) (s : System W)
          → P s.world
          → P (process_accounts client managed_by now owner spec namespaces s).1.world
      unfolding process_accounts
      process_accounts-keeps [] s h = h
      process_accounts-keeps (n ∷ rest) s h =
          process_accounts-keeps rest _ (accounts n spec.service_account_mapping s h)

      accounts_step-keeps :
          (mapping : GoMap String) (p : Progress W)
          → P p.system.world
          → P (accounts_step client managed_by now owner spec mapping p).1.world
      unfolding accounts_step
      accounts_step-keeps [] p h = h
      accounts_step-keeps (_ ∷ _) p h =
          process_accounts-keeps (processed_namespaces p.processed) p.system h

      pub process_config_map-keeps :
          ((grant : Grant) → Good grant)
          → (entries : GoMap String) (s : System W) → P s.world
          → P (process_config_map client managed_by now owner spec entries s).1.world
      unfolding process_config_map process_content
      process_config_map-keeps good entries s h =
          elim (Option-cases (lookup "whitelist.txt" entries)) [
            | inl silent ↦ rw silent h
            | inr (content, e) ↦ rw e (
                accounts_step-keeps spec.service_account_mapping _ (
                  process_lines-keeps (split b'\n' content) _ (λ line cn parsed there read. good _)
                    h))
          ]
