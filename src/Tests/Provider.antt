-- ===== src/Tests/Provider.antt =====
-- The Git provider, the excluded namespaces and the event filters on small inputs.
use permission_binder_operat.Prelude.{
  ◌≡◌, ◌↔◌, refl, inl, true, false, none, some, [], ◌∷◌, In, if◌then◌else◌, ◌==◌,
}
use permission_binder_operat.GoString.{contains, cut, cut_prefix}
use permission_binder_operat.NetworkPolicy.Provider.{detect_git_provider, Parse, ExcludeList, Match}
use permission_binder_operat.Whitelist.{contains_string}
use permission_binder_operat.Watch.{
  Binder, ObjectKey, reconciles_namespace, config_map_predicate, updated,
  map_config_map_to_permission_binder,
}
use permission_binder_operat.Watch.Laws.{IsChange, map_config_map_to_permission_binder-predicate}

-- A URL whose scheme and host are known.
abbrev parse : Parse
parse url = some ("https", "gitlab.example.com")

detected : detect_git_provider "https://gitlab.example.com/a/b" "" ≡ some "gitlab"
unfolding detect_git_provider contains cut cut_prefix
detected = refl

-- A pattern that is matched as a prefix.
abbrev match : Match
match pattern' namespace = if pattern' == "(" then none else some (contains namespace pattern')

abbrev excluded : ExcludeList
excluded = record { explicit = "kube-system" ∷ []; patterns = "(" ∷ "test-" ∷ [] }

abbrev binder : Binder
binder = record {
  namespace = "team-a";
  name = "binder";
  config_map_namespace = "team-a";
  config_map_name = "whitelist";
  generation = 1;
  deleting = false;
  finalizers = [];
}

abbrev config_map : ObjectKey
config_map = record { namespace = "team-a"; name = "whitelist" }

requested :
    map_config_map_to_permission_binder ("team-a" ∷ []) (some (binder ∷ [])) config_map
    ≡ record { namespace = "team-a"; name = "binder" } ∷ []
unfolding map_config_map_to_permission_binder reconciles_namespace contains_string
requested = refl

asked :
    In
      (record { namespace = "team-a"; name = "binder" })
      (map_config_map_to_permission_binder ("team-a" ∷ []) (some (binder ∷ [])) config_map)
asked = rw requested (inl refl)

map_config_map_to_permission_binder-predicate_example :
    (config_map_predicate ("team-a" ∷ []) (some (binder ∷ [])) (updated "7" "8" config_map) ≡ true)
    ↔ IsChange (updated "7" "8" config_map)
map_config_map_to_permission_binder-predicate_example =
    map_config_map_to_permission_binder-predicate ("team-a" ∷ []) (binder ∷ []) (some (binder ∷ []))
      (updated "7" "8" config_map) (record { namespace = "team-a"; name = "binder" }) (inl refl)
      asked
