-- ===== src/Tests/NetworkPolicy.antt =====
-- The status entries and the batches on small inputs.
use permission_binder_operat.Prelude.{
  ℕ, String, ◌≡◌, refl, ◌≢◌, true, none, some, Option, List, [], ◌∷◌, In, All, ok, err,
  if◌then◌else◌, ◌==◌,
}
use permission_binder_operat.Whitelist.{contains_string}
use permission_binder_operat.NetworkPolicy.Status.{
  Entry, fresh, get_status, has_status, edit_status, update_entries, pr_entries, PullRequest,
  clean_entries, StatusClient, no_attempt_left, update_network_policy_status_with_pr,
  cleanup_status, stamp_pr,
}
use permission_binder_operat.NetworkPolicy.Status.Entries.{
  updated, or_fresh, get_status-update_entries,
}
use permission_binder_operat.NetworkPolicy.Status.Retries.{
  update_network_policy_status_with_pr_outcome, retries_return,
}
use permission_binder_operat.NetworkPolicy.Status.Retention.{readded_skipped}
use permission_binder_operat.NetworkPolicy.Batch.{chunk_namespaces, unprocessed}
use permission_binder_operat.NetworkPolicy.Batch.Laws.{IsBatch, concat, chunk_namespaces_lem}

-- A PermissionBinder in memory.
abbrev memory : StatusClient (List Entry)
memory = record { fetch = λ w. some w; write = λ entries w. (true, entries); pause = λ w. w }

abbrev gone : Entry
gone = record (fresh "dev" "removed") { removed_at = "late" }

abbrev entries : List Entry
entries = fresh "prod" "pr-created" ∷ gone ∷ []

-- A clock that can read one time.
abbrev parse : String → Option ℕ
parse text = if text == "late" then some 20 else none

lost_message :
    get_status "new" (update_entries "now" "new" "error" "clone failed" entries)
    ≡ some (fresh "new" "error")
unfolding update_entries get_status has_status edit_status
lost_message = refl

get_status-update_entries_example :
    get_status "prod" (update_entries "now" "new" "error" "clone failed" entries) ≡ (
      if "new" == "prod"
      then some (updated "now" "new" "error" "clone failed" (get_status "prod" entries))
      else get_status "prod" entries)
get_status-update_entries_example =
    get_status-update_entries "now" "new" "error" "clone failed" "prod" entries

abbrev pr : PullRequest
pr = record { number = 7; branch = "networkpolicy/c/prod"; url = "u" }

noted : update_network_policy_status_with_pr memory "now" "prod" "pr-merged" pr entries ≡ (
  ok (pr_entries "now" "prod" "pr-merged" pr entries),
  pr_entries "now" "prod" "pr-merged" pr entries,
)
unfolding update_network_policy_status_with_pr
noted = refl

update_network_policy_status_with_pr_outcome_example :
    (before : List Entry) × (read : List Entry) × (memory.fetch before ≡ some read)
    × (memory.write (pr_entries "now" "prod" "pr-merged" pr entries) before
        ≡ (true, pr_entries "now" "prod" "pr-merged" pr entries))
    × ((m : String)
        → get_status m (pr_entries "now" "prod" "pr-merged" pr entries) ≡ (
            if "prod" == m
            then some
                (stamp_pr "now" "pr-merged" pr (or_fresh "prod" "pr-merged" (get_status m read)))
            else get_status m read))
update_network_policy_status_with_pr_outcome_example =
    update_network_policy_status_with_pr_outcome memory "now" "prod" "pr-merged" pr entries
      (pr_entries "now" "prod" "pr-merged" pr entries)
      (pr_entries "now" "prod" "pr-merged" pr entries) noted

retries_return_example :
    ((update_network_policy_status_with_pr memory "now" "prod" "pr-merged" pr entries).0
      ≢ err no_attempt_left)
    × ((cleanup_status memory parse "now" 10 ("prod" ∷ []) entries).0 ≢ err no_attempt_left)
retries_return_example =
    retries_return memory "now" "prod" "pr-merged" pr parse 10 ("prod" ∷ []) entries

dev_current : contains_string "dev" ("prod" ∷ "dev" ∷ []) ≡ true
unfolding contains_string
dev_current = refl

dev_there : get_status "dev" entries ≡ some gone
unfolding get_status
dev_there = refl

-- The namespace "dev" was removed and is whitelisted again.
readded_skipped_example :
    (get_status "dev" (clean_entries parse "late" 10 ("prod" ∷ "dev" ∷ []) entries) ≡ some gone)
    × (In "dev" (
          unprocessed
            (clean_entries parse "late" 10 ("prod" ∷ "dev" ∷ []) entries)
            ("prod" ∷ "dev" ∷ []))
        → ⊥)
readded_skipped_example =
    readded_skipped parse "late" 10 ("prod" ∷ "dev" ∷ []) ("prod" ∷ "dev" ∷ []) "dev" gone entries
      dev_current dev_there

chunk_namespaces_lem_example :
    (concat (chunk_namespaces ("a" ∷ "b" ∷ "c" ∷ []) 2) ≡ "a" ∷ "b" ∷ "c" ∷ [])
    × All (IsBatch 2) (chunk_namespaces ("a" ∷ "b" ∷ "c" ∷ []) 2)
chunk_namespaces_lem_example = chunk_namespaces_lem ("a" ∷ "b" ∷ "c" ∷ []) 2
