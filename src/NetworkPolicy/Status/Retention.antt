-- ===== src/NetworkPolicy/Status/Retention.antt =====
-- What `CleanupStatus` keeps, marks and drops.
use permission_binder_operat.Prelude.{
  ℕ, String, true, false, ◌≡◌, refl, ◌∙◌, ap, ◌⊎◌, inl, inr, Option, some, List, [], ◌∷◌, In, arith,
  Bool-cases, ◌==◌, eq_iff, is_some,
}
use permission_binder_operat.Whitelist.{contains_string}
use permission_binder_operat.NetworkPolicy.Status.{
  Entry, get_status, has_status, mark_removed, is_after, clean_entry, clean_entries,
}
use permission_binder_operat.NetworkPolicy.Batch.{unprocessed}
use permission_binder_operat.NetworkPolicy.Batch.Laws.{In-unprocessed_iff}

abbrev first_state : List Entry → String
first_state [] = ""
first_state (e ∷ rest) = e.state

module _ (parse : String → Option ℕ) (now : String) (cutoff : ℕ) (current : List String) where
  abbrev clean : List Entry → List Entry
  clean entries = clean_entries parse now cutoff current entries

  -- The three things that can become of an entry.
  clean_entry-cases :
      (e : Entry)
      → (clean_entry parse now cutoff current e ≡ e ∷ [])
        ⊎ ((contains_string e.namespace current ≡ false)
            × (clean_entry parse now cutoff current e ≡ []))
        ⊎ ((contains_string e.namespace current ≡ false)
            × (clean_entry parse now cutoff current e ≡ mark_removed now e ∷ []))
  unfolding clean_entry
  clean_entry-cases e = elim (Bool-cases (contains_string e.namespace current)) [
    | inl here ↦ inl (rw here refl)
    | inr gone ↦ elim (Bool-cases (e.state == "removed")) [
      | inr live ↦ inr (inr (gone, rw (gone, live) refl))
      | inl dead ↦ elim (Bool-cases (is_after cutoff (parse e.removed_at))) [
        | inl young ↦ inl (rw (gone, dead, young) refl)
        | inr old ↦ inr (inl (gone, rw (gone, dead, old) refl))
      ]
    ]
  ]

  not_here :
      (n : String) (e : Entry)
      → contains_string n current ≡ true
      → contains_string e.namespace current ≡ false
      → (e.namespace == n) ≡ false
  not_here n e h gone =
      ground (arith, eq_iff e.namespace n, ap (λ (k : String). contains_string k current))

  -- The entry of a whitelisted namespace is kept as it is, whatever its state and its age.
  pub get_status-clean_entries :
      (n : String) (entries : List Entry)
      → contains_string n current ≡ true
      → get_status n (clean_entries parse now cutoff current entries) ≡ get_status n entries
  unfolding clean_entries get_status
  get_status-clean_entries n [] h = refl
  get_status-clean_entries n (e ∷ rest) h =
      let ih = get_status-clean_entries n rest h in
      elim (clean_entry-cases e) [
        | inl kept ↦ rw (kept, get_status, ih) refl
        | inr (inl (gone, dropped)) ↦ rw (dropped, get_status, not_here n e h gone) ih
        | inr (inr (gone, marked)) ↦ rw (marked, get_status, not_here n e h gone) ih
      ]

  moved : (x : Entry) → mark_removed now x ∷ [] ≡ x ∷ [] → (x.state == "removed") ≡ false → ⊥
  moved x e live = absurd (ground (arith, eq_iff x.state "removed", ap first_state e))

  kept_removed :
      (x e : Entry)
      → e ≡ x
      → contains_string e.namespace current ≡ false
      → clean_entry parse now cutoff current x ≡ x ∷ []
      → e.state ≡ "removed"
  unfolding clean_entry
  kept_removed x e same h kept = elim (Bool-cases (x.state == "removed")) [
    | inl dead ↦ ap (λ (k : Entry). k.state) same ∙ (eq_iff x.state "removed").0 dead
    | inr live ↦ absurd (moved x (rw (rw same at h, live) at kept) live)
  ]

  mark_stays :
      is_after cutoff (parse now) ≡ true
      → (e : Entry) → contains_string e.namespace current ≡ false
      → clean_entry parse now cutoff current (mark_removed now e) ≡ mark_removed now e ∷ []
  unfolding clean_entry
  mark_stays young e gone = rw (gone, young) refl

  -- What is left of a namespace that is not whitelisted any more is marked as removed.
  pub clean_entries-removed :
      (e : Entry) (entries : List Entry)
      → In e (clean_entries parse now cutoff current entries)
      → contains_string e.namespace current ≡ false
      → e.state ≡ "removed"
  unfolding clean_entries
  clean_entries-removed e [] there h = absurd there
  clean_entries-removed e (x ∷ rest) there h = elim (clean_entry-cases x) [
    | inl kept ↦ elim (rw kept at there) [
      | inl same ↦ kept_removed x e same h kept
      | inr more ↦ clean_entries-removed e rest more h
    ]
    | inr (inl (gone, dropped)) ↦ clean_entries-removed e rest (rw dropped at there) h
    | inr (inr (gone, marked)) ↦ elim (rw marked at there) [
      | inl same ↦ ap (λ (k : Entry). k.state) same
      | inr more ↦ clean_entries-removed e rest more h
    ]
  ]

  -- A second cleanup, with the same clock and whitelist, changes nothing, if an entry that is marked
  -- now is not past its retention.
  pub clean_entries_twice :
      is_after cutoff (parse now) ≡ true
      → (entries : List Entry)
      → clean_entries parse now cutoff current (clean_entries parse now cutoff current entries)
        ≡ clean_entries parse now cutoff current entries
  unfolding clean_entries
  clean_entries_twice young [] = refl
  clean_entries_twice young (e ∷ rest) =
      let ih = clean_entries_twice young rest in
      elim (clean_entry-cases e) [
        | inl kept ↦ rw (kept, clean_entries, kept, ih) refl
        | inr (inl (gone, dropped)) ↦ rw dropped ih
        | inr (inr (gone, marked)) ↦ rw (marked, clean_entries, mark_stays young e gone, ih) refl
      ]

filled : {o : Option Entry} {e : Entry} → o ≡ some e → is_some o ≡ false → ⊥
filled h k = absurd (ground arith)

-- A namespace that is whitelisted again while it has an entry, one in the state "removed" too, keeps
-- that entry over each cleanup and is never among the namespaces that are processed.
pub readded_skipped :
    (parse : String → Option ℕ) (now : String) (cutoff : ℕ) (current names : List String)
    (n : String) (e : Entry) (entries : List Entry)
    → contains_string n current ≡ true
    → get_status n entries ≡ some e
    → (get_status n (clean_entries parse now cutoff current entries) ≡ some e)
      × (In n (unprocessed (clean_entries parse now cutoff current entries) names) → ⊥)
unfolding has_status
readded_skipped parse now cutoff current names n e entries here there =
    let kept = get_status-clean_entries parse now cutoff current n entries here ∙ there in
    (kept, λ h. absurd (filled kept ((In-unprocessed_iff n _ names).0 h).1))
