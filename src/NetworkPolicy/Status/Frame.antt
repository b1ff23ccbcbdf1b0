-- ===== src/NetworkPolicy/Status/Frame.antt =====
-- A part of the state that a write of the status does not change, and that does not change while the
-- operator sleeps between two attempts.
use permission_binder_operat.Prelude.{
  ℕ, zero, suc, String, ◌≡◌, refl, ◌∙◌, Option, List, [], ◌∷◌, ◌++◌, Bool-cases, Option-cases, inl,
  inr,
}
use permission_binder_operat.NetworkPolicy.Status.{
  Entry, StatusClient, PullRequest, retry, update_network_policy_status_with_pr, cleanup_status,
  pr_entries, clean_entries, is_stale, stale_from, check_stale_prs,
}

pub record StatusBlind {W V : Type 0} (view : W → V) (client : StatusClient W) : Type 0 where
  pub write : (entries : List Entry) (w : W) → view (client.write entries w).1 ≡ view w
  pub pause : (w : W) → view (client.pause w) ≡ view w

module _ {W V : Type 0} (view : W → V) (client : StatusClient W)
    (blind : StatusBlind view client) where
  view-retry :
      (edit : List Entry → List Entry) (left : ℕ) (w : W)
      → view (retry client edit left w).1 ≡ view w
  unfolding retry
  view-retry edit zero w = refl
  view-retry edit (suc zero) w = elim (Option-cases (client.fetch w)) [
    | inl silent ↦ rw (silent, retry) refl
    | inr (entries, e) ↦ elim (Bool-cases (client.write (edit entries) w).0) [
      | inl done ↦ rw (e, retry, done) (blind.write (edit entries) w)
      | inr refused ↦ rw (e, retry, refused) (blind.write (edit entries) w)
    ]
  ]
  view-retry edit (suc (suc left)) w = elim (Option-cases (client.fetch w)) [
    | inl silent ↦ rw (silent, retry) (view-retry edit (suc left) (client.pause w) ∙ blind.pause w)
    | inr (entries, e) ↦ elim (Bool-cases (client.write (edit entries) w).0) [
      | inl done ↦ rw (e, retry, done) (blind.write (edit entries) w)
      | inr refused ↦
          rw (e, retry, refused)
            (view-retry edit (suc left) (client.pause (client.write (edit entries) w).1)
              ∙ blind.pause (client.write (edit entries) w).1
              ∙ blind.write (edit entries) w)
    ]
  ]

  pub view-update_network_policy_status_with_pr :
      (now namespace state : String) (pr : PullRequest) (w : W)
      → view (update_network_policy_status_with_pr client now namespace state pr w).1 ≡ view w
  unfolding update_network_policy_status_with_pr
  view-update_network_policy_status_with_pr now namespace state pr w =
      view-retry (pr_entries now namespace state pr) 3 w

  pub view-cleanup_status :
      (parse : String → Option ℕ) (now : String) (cutoff : ℕ) (current : List String) (w : W)
      → view (cleanup_status client parse now cutoff current w).1 ≡ view w
  unfolding cleanup_status
  view-cleanup_status parse now cutoff current w =
      view-retry (clean_entries parse now cutoff current) 3 w

  view-stale_from :
      (parse : String → Option ℕ) (cutoff : ℕ) (done rest : List Entry) (w : W)
      → view (stale_from client parse cutoff done rest w).1 ≡ view w
  unfolding stale_from
  view-stale_from parse cutoff done [] w = refl
  view-stale_from parse cutoff done (entry ∷ rest) w =
      let marked = record entry { state = "pr-stale" } in
      elim (Bool-cases (is_stale client parse cutoff entry)) [
        | inl stale ↦ rw stale (
            view-stale_from parse cutoff (done ++ (marked ∷ [])) rest
              (client.write (done ++ (marked ∷ rest)) w).1
            ∙ blind.write (done ++ (marked ∷ rest)) w)
        | inr young ↦ rw young (view-stale_from parse cutoff (done ++ (entry ∷ [])) rest w)
      ]

  pub view-check_stale_prs :
      (parse : String → Option ℕ) (cutoff : ℕ) (entries : List Entry) (w : W)
      → view (check_stale_prs client parse cutoff entries w).1 ≡ view w
  unfolding check_stale_prs
  view-check_stale_prs parse cutoff entries w = view-stale_from parse cutoff [] entries w
