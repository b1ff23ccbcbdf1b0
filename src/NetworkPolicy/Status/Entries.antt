-- ===== src/NetworkPolicy/Status/Entries.antt =====
-- What a write to the status of one namespace leaves of each entry.
use permission_binder_operat.Prelude.{
  String, ◌≡◌, refl, inl, inr, Option, none, some, List, [], ◌∷◌, ◌++◌, if◌then◌else◌, ◌==◌, eq_iff,
  arith, is_some, Bool-cases, Option-cases,
}
use permission_binder_operat.NetworkPolicy.Status.{
  Entry, fresh, get_status, has_status, edit_status, stamp_state, update_entries, PullRequest,
  stamp_pr, pr_entries,
}

abbrev edited : (Entry → Entry) → Option Entry → Option Entry
edited f none = none
edited f (some entry) = some (f entry)

pub get_status-edit_status :
    (f : Entry → Entry)
    → ((e : Entry) → (f e).namespace ≡ e.namespace)
    → (n m : String) (entries : List Entry)
    → get_status m (edit_status n f entries)
      ≡ (if n == m then edited f (get_status m entries) else get_status m entries)
unfolding get_status edit_status
get_status-edit_status f kept n m [] = ground arith
get_status-edit_status f kept n m (entry ∷ rest) =
    let ih = get_status-edit_status f kept n m rest in
    ground (arith, ih, kept entry, eq_iff n m, eq_iff entry.namespace n, eq_iff entry.namespace m)

get_status-append :
    (m : String) (entries : List Entry) (last : Entry)
    → get_status m (entries ++ (last ∷ [])) ≡ (
        if is_some (get_status m entries)
        then get_status m entries
        else if last.namespace == m
        then some last
        else none)
unfolding get_status
get_status-append m [] last = ground arith
get_status-append m (entry ∷ rest) last =
    ground (arith, get_status-append m rest last, eq_iff entry.namespace m)

-- The entry that a pull request is noted on.
abbrev pub or_fresh : String → String → Option Entry → Entry
or_fresh namespace state none = fresh namespace state
or_fresh namespace state (some entry) = entry

-- The entry that `updateNetworkPolicyStatus` leaves.
abbrev pub updated : String → String → String → String → Option Entry → Entry
updated now namespace state message none = fresh namespace state
updated now namespace state message (some entry) = stamp_state now state message entry

namespace-stamp_state :
    (now state message : String) (e : Entry)
    → (stamp_state now state message e).namespace ≡ e.namespace
unfolding stamp_state
namespace-stamp_state now state message e = refl

namespace-stamp_pr :
    (now state : String) (pr : PullRequest) (e : Entry)
    → (stamp_pr now state pr e).namespace ≡ e.namespace
unfolding stamp_pr
namespace-stamp_pr now state pr e = refl

-- After `updateNetworkPolicyStatus` every other namespace has the entry it had. An entry that was
-- there has the new state, the message if there is one, and a time if it was opened now; one that is
-- new has the state and nothing else, so the message of an error is not kept.
pub get_status-update_entries :
    (now n state message m : String) (entries : List Entry)
    → get_status m (update_entries now n state message entries) ≡ (
        if n == m
        then some (updated now n state message (get_status m entries))
        else get_status m entries)
unfolding update_entries has_status
get_status-update_entries now n state message m entries =
    let edit =
      get_status-edit_status (stamp_state now state message)
        (namespace-stamp_state now state message) n m entries in
    let add = get_status-append m entries (fresh n state) in
    elim (Option-cases (get_status n entries)) [
      | inl missing ↦ rw missing (ground (arith, add, missing, eq_iff n m))
      | inr (entry, there) ↦ rw there (ground (arith, edit, there, eq_iff n m))
    ]

-- After `updateNetworkPolicyStatusWithPR` the namespace has the entry it had, or a new one, with the
-- state and the pull request, and every other namespace has the entry it had.
pub get_status-pr_entries :
    (now n state m : String) (pr : PullRequest) (entries : List Entry)
    → get_status m (pr_entries now n state pr entries) ≡ (
        if n == m
        then some (stamp_pr now state pr (or_fresh n state (get_status m entries)))
        else get_status m entries)
unfolding pr_entries has_status
get_status-pr_entries now n state m pr entries =
    let kept = namespace-stamp_pr now state pr in
    let add = get_status-append m entries (fresh n state) in
    elim (Option-cases (get_status n entries)) [
      | inl missing ↦
          let edit =
            get_status-edit_status (stamp_pr now state pr) kept n m
              (entries ++ (fresh n state ∷ [])) in
          rw (missing, edit, add)
            (elim (Bool-cases (n == m)) [
              | inl same ↦ rw (same, rw ((eq_iff n m).0 same) at missing) refl
              | inr other ↦ elim (Option-cases (get_status m entries)) [
                | inl none_there ↦ rw (other, none_there) refl
                | inr (e, e_there) ↦ rw (other, e_there) refl
              ]
            ])
      | inr (entry, there) ↦
          let edit = get_status-edit_status (stamp_pr now state pr) kept n m entries in
          rw (there, edit)
            (elim (Bool-cases (n == m)) [
              | inl same ↦ rw (same, rw ((eq_iff n m).0 same) at there) refl
              | inr other ↦ rw other refl
            ])
    ]
