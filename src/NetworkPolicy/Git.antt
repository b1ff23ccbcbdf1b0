-- ===== src/NetworkPolicy/Git.antt =====
-- What the NetworkPolicy part does with the repository and with the API of its provider. The operations
-- on the clone are those of operator/internal/controller/networkpolicy/git_cli.go and of the go-git
-- library, those on the pull requests those of git_api.go.
use permission_binder_operat.Prelude.{ℕ, String, Bool, true, Option, none, some, List, Result}
use permission_binder_operat.NetworkPolicy.Policies.{GitRepository}
use permission_binder_operat.NetworkPolicy.Sources.{Credentials}
use permission_binder_operat.NetworkPolicy.Provider.{Parse, get_api_base_url}

-- pullRequest
pub record Pull : Type 0 where
  pub number : ℕ
  pub state : String
  pub url : String
  pub branch : String

-- The arguments that the calls of the provider's API share.
pub record Site : Type 0 where
  pub provider : String
  pub api_base_url : String
  pub repo_url : String
  pub credentials : Credentials
  pub tls_verify : Bool

-- What `createPullRequest` is given besides.
pub record NewPull : Type 0 where
  pub branch : String
  pub base_branch : String
  pub title : String
  pub description : String
  pub labels : List String

-- The clone stands in a directory of its own, whose name `clone` returns. `fetch` and `reset` may fail,
-- which the operator ignores; `remote_head` is the commit of the remote branch.
pub record Git (W : Type 0) : Type 0 where
  pub clone : String → Credentials → Bool → W → Option String × W
  pub open_repo : String → W → Bool
  pub fetch : String → String → Credentials → Bool → W → W
  pub checkout : String → String → Bool → W → Bool × W
  pub remote_head : String → String → W → Option String
  pub reset : String → String → W → W
  pub commit_and_push : String → String → String → Credentials → Bool → W → Bool × W
  pub pr_by_branch : Site → String → W → Option Pull
  pub create_pr : Site → NewPull → W → Result String Pull × W
  pub merge_pr : Site → ℕ → W → Bool × W
  pub delete_branch : Site → String → W → W

-- The setting for TLS, which is on where it is not given.
abbrev pub tls_verify_of : Option Bool → Bool
tls_verify_of none = true
tls_verify_of (some b) = b

abbrev pub site_of : Parse → GitRepository → Credentials → String → Site
site_of parse_url repository credentials provider = record {
  provider = provider;
  api_base_url = get_api_base_url parse_url provider repository.api_base_url repository.url;
  repo_url = repository.url;
  credentials = credentials;
  tls_verify = tls_verify_of repository.git_tls_verify;
}
