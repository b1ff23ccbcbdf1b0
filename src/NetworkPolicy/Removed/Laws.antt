-- ===== src/NetworkPolicy/Removed/Laws.antt =====
-- Which namespaces are removed, and that a removal is tried once.
use permission_binder_operat.Prelude.{
  ℕ, String, Bool, true, false, ◌||◌, ◌≡◌, refl, sym, ap, ◌∙◌, ◌↔◌, inl, inr, Option, List, [], ◌∷◌,
  ◌++◌, All, In, ok, ◌==◌, arith, Bool-cases,
}
use permission_binder_operat.Whitelist.{contains_string}
use permission_binder_operat.NetworkPolicy.Status.{
  Entry, clean_entry, clean_entries, is_after, cleanup_status,
}
use permission_binder_operat.NetworkPolicy.Status.Retries.{cleanup_status-made}
use permission_binder_operat.NetworkPolicy.Single.{Network, NetState}
use permission_binder_operat.NetworkPolicy.Removed.{
  removed_namespaces, some_removed, process_removed_namespaces,
}

-- The entry is of a whitelisted namespace, or its removal is done.
abbrev is_settled : List String → Entry → Bool
is_settled current entry = contains_string entry.namespace current || entry.state == "removed"

clash : {b : Bool} → b ≡ false → b ≡ true → ⊥
clash h k = ground arith

-- A namespace is removed exactly if it has an entry, is not whitelisted, and is not marked as removed.
pub In-removed_namespaces_iff :
    (n : String) (current : List String) (entries : List Entry)
    → In n (removed_namespaces current entries) ↔ (
        (entry : Entry) × In entry entries
        × (entry.namespace ≡ n)
        × (contains_string entry.namespace current || entry.state == "removed") ≡ false)
unfolding removed_namespaces
In-removed_namespaces_iff n current [] = (λ m. absurd m, λ (e, m, same, due). absurd m)
In-removed_namespaces_iff n current (entry ∷ rest) =
    let ih = In-removed_namespaces_iff n current rest in
    elim (Bool-cases (is_settled current entry)) [
      | inl settled ↦ rw settled (
        λ m. let (e, there, same, due) = ih.0 m in (e, inr there, same, due),
        λ (e, there, same, due). elim there [
          | inl here ↦ absurd (clash (rw here at due) settled)
          | inr more ↦ ih.1 (e, more, same, due)
        ],
      )
      | inr unsettled ↦ rw unsettled (
        λ m. elim m [
          | inl here ↦ (entry, inl refl, sym here, unsettled)
          | inr more ↦ let (e, there, same, due) = ih.0 more in (e, inr there, same, due)
        ],
        λ (e, there, same, due). elim there [
          | inl here ↦ inl (sym same ∙ ap (λ (x : Entry). x.namespace) here)
          | inr more ↦ inr (ih.1 (e, more, same, due))
        ],
      )
    ]

abbrev Settled : List String → Entry → Type 0
Settled current entry = is_settled current entry ≡ true

All-Settled :
    (current : List String) (entries : List Entry)
    → All (Settled current) entries
    → removed_namespaces current entries ≡ []
unfolding removed_namespaces
All-Settled current [] h = refl
All-Settled current (entry ∷ rest) (done, h) = rw done (All-Settled current rest h)

pub process_removed_namespaces_idle :
    {W : Type 0} (env : Network W) (current : List String) (s : NetState W)
    → removed_namespaces current s.entries ≡ []
    → process_removed_namespaces env current s ≡ (ok tt, s)
unfolding process_removed_namespaces
process_removed_namespaces_idle env current s h = rw h (unfold some_removed in refl)

module _ (parse : String → Option ℕ) (now : String) (cutoff : ℕ) (current : List String) where
  clean_entry-Settled :
      (entry : Entry) → All (Settled current) (clean_entry parse now cutoff current entry)
  unfolding clean_entry
  clean_entry-Settled entry = elim (Bool-cases (contains_string entry.namespace current)) [
    | inl listed ↦ rw listed (rw listed refl, tt)
    | inr gone ↦ elim (Bool-cases (entry.state == "removed")) [
      | inl done ↦ elim (Bool-cases (is_after cutoff (parse entry.removed_at))) [
        | inl young ↦ rw (gone, done, young) (rw (gone, done) refl, tt)
        | inr old ↦ rw (gone, done, old) tt
      ]
      | inr open' ↦ rw (gone, open') (rw gone refl, tt)
    ]
  ]

  All-append :
      (xs ys : List Entry)
      → All (Settled current) xs
      → All (Settled current) ys
      → All (Settled current) (xs ++ ys)
  All-append [] ys h k = k
  All-append (x ∷ xs) ys (p, h) k = (p, All-append xs ys h k)

  clean_entries-Settled :
      (entries : List Entry)
      → All (Settled current) (clean_entries parse now cutoff current entries)
  unfolding clean_entries
  clean_entries-Settled [] = tt
  clean_entries-Settled (entry ∷ rest) =
      All-append (clean_entry parse now cutoff current entry)
        (clean_entries parse now cutoff current rest) (clean_entry-Settled entry)
        (clean_entries-Settled rest)

  -- The cleanup leaves nothing to be removed.
  pub clean_entries-settled :
      (entries : List Entry)
      → removed_namespaces current (clean_entries parse now cutoff current entries) ≡ []
  clean_entries-settled entries =
      All-Settled current (clean_entries parse now cutoff current entries)
        (clean_entries-Settled entries)

  -- Once the cleanup of the status has succeeded, nothing is removed any more for the same whitelist:
  -- every namespace that is not in it is marked as removed, also one whose files are still in the
  -- repository because its removal has failed.
  pub removal_tried_once :
      {W : Type 0} (env : Network W) (s : NetState W) (w : W)
      → (cleanup_status env.status parse now cutoff current w).0 ≡ ok s.entries
      → process_removed_namespaces env current s ≡ (ok tt, s)
  removal_tried_once env s w done =
      let (entries, made) =
        cleanup_status-made env.status parse now cutoff current w s.entries done in
      process_removed_namespaces_idle env current s
        (ap (removed_namespaces current) made ∙ clean_entries-settled entries)
