-- ===== src/NetworkPolicy/Provider.antt =====
-- The Git provider and its API, the excluded namespaces, and the names
-- (operator/internal/controller/networkpolicy/network_policy_utils.go).
pub mod Laws
use permission_binder_operat.Prelude.{
  ℕ, String, Bool, true, false, not, ◌&&◌, ◌||◌, Option, none, some, List, [], ◌∷◌, if◌then◌else◌,
  ◌==◌,
}
use permission_binder_operat.GoString.{◌<>◌, contains, trim_suffix}
use permission_binder_operat.GoPath.{join}
use permission_binder_operat.Whitelist.{contains_string}

-- `detectGitProvider`, without an answer where it returns an error.
unfoldable pub detect_git_provider : String → String → Option String
detect_git_provider repo_url explicit =
    if not (explicit == "")
    then some explicit
    else if contains repo_url "bitbucket.org"
    then some "bitbucket"
    else if contains repo_url "github.com"
    then some "github"
    else if contains repo_url "gitlab.com" || contains repo_url "gitlab."
    then some "gitlab"
    else none

-- The scheme and the host of a URL, as `url.Parse` finds them.
abbrev pub Parse : Type 0
Parse = String → Option (String × String)

-- The paths for a self-hosted provider.
self_hosted : String → Option (String × String) → String
self_hosted provider none = ""
self_hosted provider (some (scheme, host)) =
    if provider == "bitbucket"
    then scheme <> "://" <> host <> "/rest/api/1.0"
    else if provider == "github"
    then scheme <> "://" <> host <> "/api/v3"
    else if provider == "gitlab"
    then scheme <> "://" <> host <> "/api/v4"
    else scheme <> "://" <> host

-- `getAPIBaseURL`
unfoldable pub get_api_base_url : Parse → String → String → String → String
unfolding self_hosted
get_api_base_url parse provider custom repo_url =
    if not (custom == "")
    then custom
    else if provider == "bitbucket"
    then "https://api.bitbucket.org/2.0"
    else if provider == "github"
    then "https://api.github.com"
    else if provider == "gitlab"
    then "https://gitlab.com/api/v4"
    else self_hosted provider (parse repo_url)

-- permissionv1.NamespaceExcludeList
pub record ExcludeList : Type 0 where
  pub explicit : List String
  pub patterns : List String

-- `regexp.MatchString(pattern, namespace)`, without an answer for an invalid pattern.
abbrev pub Match : Type 0
Match = String → String → Option Bool

-- An invalid pattern matches nothing.
abbrev pub matched : Option Bool → Bool
matched none = false
matched (some b) = b

pub matches_pattern : Match → String → List String → Bool
matches_pattern match namespace [] = false
matches_pattern match namespace (pattern' ∷ rest) =
    let later = matches_pattern match namespace rest in
    if matched (match pattern' namespace) then true else later

-- `IsNamespaceExcluded`, and `isNamespaceExcludedFromBackup`, which is the same code.
unfoldable pub is_namespace_excluded : Match → String → Option ExcludeList → Bool
unfolding matches_pattern
is_namespace_excluded match namespace none = false
is_namespace_excluded match namespace (some excluded) =
    if contains_string namespace excluded.explicit
    then true
    else matches_pattern match namespace excluded.patterns

-- `shouldBackupExistingPolicy`
unfoldable pub should_backup_existing_policy : Match → String → Bool → Option ExcludeList → Bool
should_backup_existing_policy match namespace backup excluded =
    if not backup then false else not (is_namespace_excluded match namespace excluded)

-- `getNetworkPolicyName`
unfoldable pub get_network_policy_name : String → String → String
get_network_policy_name namespace template = namespace <> "-" <> trim_suffix template ".yaml"

-- `isPolicyFromTemplate`
unfoldable pub is_policy_from_template : String → String → String → Bool
is_policy_from_template name namespace template = name == get_network_policy_name namespace template

-- `generateBranchName`
unfoldable pub generate_branch_name : String → String → String
generate_branch_name cluster namespace = "networkpolicy/" <> cluster <> "/" <> namespace

-- `getNetworkPolicyFilePath`
unfoldable pub get_network_policy_file_path : String → String → String → String
get_network_policy_file_path cluster namespace file =
    join ("networkpolicies" ∷ cluster ∷ namespace ∷ file ∷ [])

-- `handleRateLimitError`, for the text of the error.
unfoldable pub handle_rate_limit_error : String → Bool
handle_rate_limit_error text =
    contains text "429" || contains text "rate limit" || contains text "too many requests"
