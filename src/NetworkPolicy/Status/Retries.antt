-- ===== src/NetworkPolicy/Status/Retries.antt =====
-- The writers that fetch the status anew before each attempt.
use permission_binder_operat.Prelude.{
  ℕ, zero, suc, String, Bool, true, false, ◌≡◌, refl, ◌∙◌, ◌≢◌, inl, inr, Option, some, List,
  Result, ok, err, arith, Bool-cases, Option-cases, if◌then◌else◌, subst, ◌==◌,
}
use permission_binder_operat.NetworkPolicy.Status.{
  Entry, get_status, StatusClient, StatusError, no_attempt_left, retry, PullRequest, stamp_pr,
  pr_entries, update_network_policy_status_with_pr, cleanup_status, clean_entries,
}
use permission_binder_operat.NetworkPolicy.Status.Entries.{or_fresh, get_status-pr_entries}

-- `result` was written over `entries`, which were fetched just before.
pub record Written {W : Type 0} (client : StatusClient W) (edit : List Entry → List Entry)
    (result : List Entry) (w : W) : Type 0 where
  pub before : W
  pub entries : List Entry
  pub fetched : client.fetch before ≡ some entries
  pub edited : result ≡ edit entries
  pub done : client.write result before ≡ (true, w)

err_same :
    {x : StatusError}
    → ◌≡◌ {A = Result StatusError (List Entry)} (err x) (err no_attempt_left)
    → x ≡ no_attempt_left
err_same e = ground arith

ok_same : {a b : List Entry} → ◌≡◌ {A = Result StatusError (List Entry)} (ok a) (ok b) → b ≡ a
ok_same e = ground arith

module _ {W : Type 0} (client : StatusClient W) (edit : List Entry → List Entry) where
  abbrev pub Shown : Result StatusError (List Entry) × W → Type 0
  Shown (ok result, w) = Written client edit result w
  Shown (err e, w) = e ≢ no_attempt_left

  pub Shown-returns :
      (r : Result StatusError (List Entry) × W) → Shown r → r.0 ≢ err no_attempt_left
  Shown-returns (ok result, w) h e = absurd (ground arith)
  Shown-returns (err x, w) h e = h (err_same e)

  -- A result was made by the edit.
  pub Shown-made :
      (r : Result StatusError (List Entry) × W) (result : List Entry)
      → Shown r
      → r.0 ≡ ok result
      → (entries : List Entry) × (result ≡ edit entries)
  Shown-made (ok found, w) result h e = (h.entries, ok_same e ∙ h.edited)
  Shown-made (err x, w) result h e = absurd (ground arith)

  write-Shown :
      (entries : List Entry) (v : W) (r : Bool × W)
      → client.fetch v ≡ some entries
      → client.write (edit entries) v ≡ r
      → r.0 ≡ true
      → Written client edit (edit entries) r.1
  write-Shown entries v (true, w) e h yes' = record {
    before = v;
    entries = entries;
    fetched = e;
    edited = refl;
    done = h;
  }
  write-Shown entries v (false, w) e h yes' = absurd (ground arith)

  -- With at least one attempt, the loop ends with a write over what was just fetched or with the error
  -- of the last attempt.
  pub retry-Shown : (left : ℕ) (w : W) → Shown (retry client edit (suc left) w)
  unfolding retry
  retry-Shown zero w = elim (Option-cases (client.fetch w)) [
    | inl silent ↦ rw (silent, retry) (λ e. absurd (ground arith))
    | inr (entries, e) ↦ elim (Bool-cases (client.write (edit entries) w).0) [
      | inl done ↦
          rw (e, retry, done) (write-Shown entries w (client.write (edit entries) w) e refl done)
      | inr refused ↦ rw (e, retry, refused) (λ e. absurd (ground arith))
    ]
  ]
  retry-Shown (suc left) w = elim (Option-cases (client.fetch w)) [
    | inl silent ↦ rw (silent, retry) (retry-Shown left (client.pause w))
    | inr (entries, e) ↦ elim (Bool-cases (client.write (edit entries) w).0) [
      | inl done ↦
          rw (e, retry, done) (write-Shown entries w (client.write (edit entries) w) e refl done)
      | inr refused ↦
          rw (e, retry, refused) (retry-Shown left (client.pause (client.write (edit entries) w).1))
    ]
  ]

module _ {W : Type 0} (client : StatusClient W) where
  -- If `updateNetworkPolicyStatusWithPR` succeeds, what it wrote was made from the entries fetched just
  -- before: the namespace has the pull request and the state, and no other entry is lost or changed.
  pub update_network_policy_status_with_pr_outcome :
      (now n state : String) (pr : PullRequest) (w : W) (result : List Entry) (after : W)
      → update_network_policy_status_with_pr client now n state pr w ≡ (ok result, after)
      → (before : W) × (entries : List Entry) × (client.fetch before ≡ some entries)
        × (client.write result before ≡ (true, after))
        × ((m : String)
            → get_status m result ≡ (
                if n == m
                then some (stamp_pr now state pr (or_fresh n state (get_status m entries)))
                else get_status m entries))
  unfolding update_network_policy_status_with_pr
  update_network_policy_status_with_pr_outcome now n state pr w result after h =
      let it : Written client (pr_entries now n state pr) result after =
        subst (Shown client (pr_entries now n state pr)) h
          (retry-Shown client (pr_entries now n state pr) 2 w) in
      (
        it.before,
        it.entries,
        it.fetched,
        it.done,
        λ m. rw it.edited (get_status-pr_entries now n state m pr it.entries),
      )

  -- The error behind the loops is never returned: with three attempts the last one returns.
  pub retries_return :
      (now n state : String) (pr : PullRequest) (parse : String → Option ℕ) (cutoff : ℕ)
      (current : List String) (w : W)
      → ((update_network_policy_status_with_pr client now n state pr w).0 ≢ err no_attempt_left)
        × ((cleanup_status client parse now cutoff current w).0 ≢ err no_attempt_left)
  unfolding update_network_policy_status_with_pr cleanup_status
  retries_return now n state pr parse cutoff current w = (
    Shown-returns client (pr_entries now n state pr) (retry client (pr_entries now n state pr) 3 w)
        (retry-Shown client (pr_entries now n state pr) 2 w),
    Shown-returns client (clean_entries parse now cutoff current)
        (retry client (clean_entries parse now cutoff current) 3 w)
        (retry-Shown client (clean_entries parse now cutoff current) 2 w),
  )

  -- If the cleanup succeeds, the entries that it leaves were made by it from the ones it fetched.
  pub cleanup_status-made :
      (parse : String → Option ℕ) (now : String) (cutoff : ℕ) (current : List String) (w : W)
      (result : List Entry)
      → (cleanup_status client parse now cutoff current w).0 ≡ ok result
      → (entries : List Entry) × (result ≡ clean_entries parse now cutoff current entries)
  unfolding cleanup_status
  cleanup_status-made parse now cutoff current w result h =
      Shown-made client (clean_entries parse now cutoff current)
        (retry client (clean_entries parse now cutoff current) 3 w) result
        (retry-Shown client (clean_entries parse now cutoff current) 2 w) h
