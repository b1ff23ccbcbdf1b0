-- ===== src/NetworkPolicy/Status.antt =====
-- The status entries of the namespaces
-- (operator/internal/controller/networkpolicy/network_policy_status.go).
-- Times are read by a function of the caller, since they are texts in the status.
pub mod Entries
pub mod Retries
pub mod Frame
pub mod Retention
use permission_binder_operat.Prelude.{
  ℕ, zero, suc, String, Bool, true, false, not, ◌&&◌, ◌||◌, Option, none, some, List, [], ◌∷◌, ◌++◌,
  Result, ok, err, if◌then◌else◌, ◌==◌, is_some, ltb,
}
use permission_binder_operat.Whitelist.{contains_string}

-- permissionv1.NetworkPolicyStatus, the fields that are written.
pub record Entry : Type 0 where
  pub namespace : String
  pub state : String
  pub pr_number : Option ℕ
  pub pr_branch : String
  pub pr_url : String
  pub created_at : String
  pub error_message : String
  pub removed_at : String

-- A new entry, with the other fields empty.
abbrev pub fresh : String → String → Entry
fresh namespace state = record {
  namespace = namespace;
  state = state;
  pr_number = none;
  pr_branch = "";
  pr_url = "";
  created_at = "";
  error_message = "";
  removed_at = "";
}

-- `getNetworkPolicyStatus`
unfoldable pub get_status : String → List Entry → Option Entry
get_status namespace [] = none
get_status namespace (entry ∷ rest) =
    if entry.namespace == namespace then some entry else get_status namespace rest

-- `hasNetworkPolicyStatus`
unfoldable pub has_status : String → List Entry → Bool
has_status namespace entries = is_some (get_status namespace entries)

-- Writing through the pointer that `getNetworkPolicyStatus` returns.
unfoldable pub edit_status : String → (Entry → Entry) → List Entry → List Entry
edit_status namespace f [] = []
edit_status namespace f (entry ∷ rest) =
    if entry.namespace == namespace then f entry ∷ rest else entry ∷ edit_status namespace f rest

-- The fields that `updateNetworkPolicyStatus` writes behind the pointer.
pub stamp_state : String → String → String → Entry → Entry
stamp_state now state message entry = record entry {
  state = state;
  error_message = if message == "" then entry.error_message else message;
  created_at =
      if (state == "pr-created" || state == "pr-pending") && entry.created_at == ""
      then now
      else entry.created_at;
}

-- `updateNetworkPolicyStatus` before the write to the cluster. The new entry is copied into the list
-- before the pointer is written through, so what is written behind the pointer is not in the list.
unfoldable pub update_entries : String → String → String → String → List Entry → List Entry
unfolding stamp_state
update_entries now namespace state message entries =
    if has_status namespace entries
    then edit_status namespace (stamp_state now state message) entries
    else entries ++ (fresh namespace state ∷ [])

-- A pull request as it is noted.
pub record PullRequest : Type 0 where
  pub number : ℕ
  pub branch : String
  pub url : String

pub stamp_pr : String → String → PullRequest → Entry → Entry
stamp_pr now state pr entry = record entry {
  state = state;
  pr_number = some pr.number;
  pr_branch = pr.branch;
  pr_url = pr.url;
  created_at = if entry.created_at == "" then now else entry.created_at;
}

-- The list that `updateNetworkPolicyStatusWithPR` writes.
unfoldable pub pr_entries : String → String → String → PullRequest → List Entry → List Entry
unfolding stamp_pr
pr_entries now namespace state pr entries =
    edit_status namespace (stamp_pr now state pr)
      (if has_status namespace entries then entries else entries ++ (fresh namespace state ∷ []))

-- The status that `CleanupStatus` gives an entry that is not whitelisted any more.
abbrev pub mark_removed : String → Entry → Entry
mark_removed now entry = record entry { state = "removed"; removed_at = now }

-- `time.Parse(...)` succeeds with a time after the cutoff.
abbrev pub is_after : ℕ → Option ℕ → Bool
is_after cutoff none = false
is_after cutoff (some t) = ltb cutoff t

-- `time.Parse(...)` succeeds with a time before the cutoff.
abbrev pub is_before : ℕ → Option ℕ → Bool
is_before cutoff none = false
is_before cutoff (some t) = ltb t cutoff

abbrev pub is_zero : ℕ → Bool
is_zero zero = true
is_zero (suc n) = false

-- One round of the loop of `CleanupStatus`: what becomes of an entry.
unfoldable pub clean_entry : (String → Option ℕ) → String → ℕ → List String → Entry → List Entry
clean_entry parse now cutoff current entry =
    if contains_string entry.namespace current
    then entry ∷ []
    else if entry.state == "removed"
    then (if is_after cutoff (parse entry.removed_at) then entry ∷ [] else [])
    else mark_removed now entry ∷ []

-- The list that `CleanupStatus` writes.
unfoldable pub clean_entries :
    (String → Option ℕ) → String → ℕ → List String → List Entry → List Entry
unfolding clean_entry
clean_entries parse now cutoff current [] = []
clean_entries parse now cutoff current (entry ∷ rest) =
    clean_entry parse now cutoff current entry ++ clean_entries parse now cutoff current rest

-- The PermissionBinder in the cluster: its status entries are fetched and written, and `pause` is what
-- happens in the cluster while the operator sleeps.
pub record StatusClient (W : Type 0) : Type 0 where
  pub fetch : W → Option (List Entry)
  pub write : List Entry → W → Bool × W
  pub pause : W → W

pub data StatusError : Type 0 where
  fetch_failed write_failed no_attempt_left : StatusError

module _ {W : Type 0} (client : StatusClient W) where
  -- `updateNetworkPolicyStatus`: the entries of the object in memory, whether the write succeeded,
  -- and the cluster.
  pub update_network_policy_status :
      String → String → String → String → List Entry → W → List Entry × (Bool × W)
  update_network_policy_status now namespace state message entries w =
      let changed = update_entries now namespace state message entries in
      (changed, client.write changed w)

  -- The loop that the two writers with retries share: `left` attempts are left.
  pub retry : (List Entry → List Entry) → ℕ → W → Result StatusError (List Entry) × W
  retry edit zero w = (err no_attempt_left, w)
  retry edit (suc left) w =
      let again = retry edit left in
      elim (client.fetch w) [
        | none ↦ if is_zero left then (err fetch_failed, w) else again (client.pause w)
        | some entries ↦
            let written = client.write (edit entries) w in
            elim written.0 [
              | true ↦ (ok (edit entries), written.1)
              | false ↦
                  if is_zero left
                  then (err write_failed, written.1)
                  else again (client.pause written.1)
            ]
      ]

  -- `updateNetworkPolicyStatusWithPR`, with three attempts.
  unfoldable pub update_network_policy_status_with_pr :
      String → String → String → PullRequest → W → Result StatusError (List Entry) × W
  unfolding retry
  update_network_policy_status_with_pr now namespace state pr w =
      retry (pr_entries now namespace state pr) 3 w

  -- `CleanupStatus`, with three attempts.
  unfoldable pub cleanup_status :
      (String → Option ℕ) → String → ℕ → List String → W → Result StatusError (List Entry) × W
  unfolding retry
  cleanup_status parse now cutoff current w = retry (clean_entries parse now cutoff current) 3 w

  -- The entry has a pull request that is open since before the cutoff.
  pub is_stale : (String → Option ℕ) → ℕ → Entry → Bool
  is_stale parse cutoff entry =
      (entry.state == "pr-created" || entry.state == "pr-pending")
      && is_before cutoff (parse entry.created_at)

  -- The loop of `checkStalePRs`: the entries before the one at hand, which are written along, come
  -- first; a write that fails is only logged.
  pub stale_from : (String → Option ℕ) → ℕ → List Entry → List Entry → W → List Entry × W
  stale_from parse cutoff done [] w = (done, w)
  stale_from parse cutoff done (entry ∷ rest) w =
      let marked = record entry { state = "pr-stale" } in
      if is_stale parse cutoff entry
      then stale_from parse cutoff (done ++ (marked ∷ [])) rest
          (client.write (done ++ (marked ∷ rest)) w).1
      else stale_from parse cutoff (done ++ (entry ∷ [])) rest w

  -- `checkStalePRs`, which always returns nil.
  unfoldable pub check_stale_prs : (String → Option ℕ) → ℕ → List Entry → W → List Entry × W
  unfolding stale_from is_stale
  check_stale_prs parse cutoff entries w = stale_from parse cutoff [] entries w
