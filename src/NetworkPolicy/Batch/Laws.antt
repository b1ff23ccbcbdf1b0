-- ===== src/NetworkPolicy/Batch/Laws.antt =====
-- The batches are the namespaces without a status entry, in order, each once.
use permission_binder_operat.Prelude.{
  ℕ, zero, suc, ◌≤◌, String, Bool, true, false, ◌≡◌, refl, sym, ◌∙◌, ap, ◌↔◌, inl, inr, List, [],
  ◌∷◌, ◌++◌, length, All, In, arith, Bool-cases,
}
use permission_binder_operat.NetworkPolicy.Status.{Entry, has_status}
use permission_binder_operat.NetworkPolicy.Batch.{
  take, drop, chunk_from, or_default_size, chunk_namespaces, unprocessed, process_batch,
  process_batches, process_network_policies,
}

abbrev pub concat : List (List String) → List String
concat [] = []
concat (xs ∷ rest) = xs ++ concat rest

take-drop : (n : ℕ) (xs : List String) → take n xs ++ drop n xs ≡ xs
unfolding take drop
take-drop zero xs = refl
take-drop (suc n) [] = refl
take-drop (suc n) (x ∷ xs) = ap (◌∷◌ x) (take-drop n xs)

length-drop : (n : ℕ) (xs : List String) → length (drop n xs) ≤ length xs
unfolding drop
length-drop zero xs = omega arith
length-drop (suc n) [] = omega arith
length-drop (suc n) (x ∷ xs) = omega (arith, length-drop n xs)

length-take : (n : ℕ) (xs : List String) → length (take n xs) ≤ n
unfolding take
length-take zero xs = omega arith
length-take (suc n) [] = omega arith
length-take (suc n) (x ∷ xs) = omega (arith, length-take n xs)

-- A batch of a size that the bound allows, and not empty.
abbrev pub IsBatch : ℕ → List String → Type 0
IsBatch size batch = (1 ≤ length batch) × (length batch ≤ size)

chunks :
    (fuel n : ℕ) (xs : List String)
    → length xs ≤ fuel
    → (concat (chunk_from fuel (suc n) xs) ≡ xs)
      × All (IsBatch (suc n)) (chunk_from fuel (suc n) xs)
unfolding chunk_from take drop
chunks zero n [] h = (refl, tt)
chunks zero n (x ∷ xs) h = absurd (omega arith)
chunks (suc fuel) n [] h = (refl, tt)
chunks (suc fuel) n (x ∷ xs) h =
    let (whole, sizes) = chunks fuel n (drop n xs) (omega (arith, length-drop n xs)) in
    (
      ap (◌∷◌ x) (ap (◌++◌ (take n xs)) whole ∙ take-drop n xs),
      ((omega arith, omega (arith, length-take n xs)), sizes),
    )

-- The batches put together are the namespaces in their order; each is not empty and at most as long as
-- the size says, or five where the size is zero.
pub chunk_namespaces_lem :
    (namespaces : List String) (size : ℕ)
    → (concat (chunk_namespaces namespaces size) ≡ namespaces)
      × All (IsBatch (or_default_size size)) (chunk_namespaces namespaces size)
unfolding chunk_namespaces
chunk_namespaces_lem namespaces zero = chunks (length namespaces) 4 namespaces (omega arith)
chunk_namespaces_lem namespaces (suc n) = chunks (length namespaces) n namespaces (omega arith)

module _ {W : Type 0} (process : String → W → W) where
  process_batch-append :
      (xs ys : List String) (w : W)
      → process_batch process (xs ++ ys) w ≡ process_batch process ys (process_batch process xs w)
  unfolding process_batch
  process_batch-append [] ys w = refl
  process_batch-append (x ∷ xs) ys w = process_batch-append xs ys (process x w)

  pub process_batches-concat :
      (batches : List (List String)) (w : W)
      → process_batches process batches w ≡ process_batch process (concat batches) w
  unfolding process_batches process_batch
  process_batches-concat [] w = refl
  process_batches-concat (xs ∷ rest) w =
      process_batches-concat rest (process_batch process xs w)
      ∙ sym (process_batch-append xs (concat rest) w)

  -- Batching does not change what is done: the namespaces without a status entry are processed one
  -- after the other, in their order, whatever the size of the batches.
  pub process_network_policies_lem :
      (size : ℕ) (entries : List Entry) (namespaces : List String) (w : W)
      → process_network_policies process size entries namespaces w
        ≡ process_batch process (unprocessed entries namespaces) w
  unfolding process_network_policies
  process_network_policies_lem size entries namespaces w =
      process_batches-concat
        (chunk_namespaces (unprocessed entries namespaces) (or_default_size size)) w
      ∙ ap (λ (xs : List String). process_batch process xs w)
          (chunk_namespaces_lem (unprocessed entries namespaces) (or_default_size size)).0

clash : {b : Bool} → b ≡ false → b ≡ true → ⊥
clash h k = ground arith

-- A namespace is processed exactly if it was given and has no status entry.
pub In-unprocessed_iff :
    (n : String) (entries : List Entry) (namespaces : List String)
    → In n (unprocessed entries namespaces) ↔ (In n namespaces × (has_status n entries ≡ false))
unfolding unprocessed
In-unprocessed_iff n entries [] = (λ h. absurd h, λ h. absurd h.0)
In-unprocessed_iff n entries (m ∷ rest) =
    let ih = In-unprocessed_iff n entries rest in
    elim (Bool-cases (has_status m entries)) [
      | inl old ↦ (
        λ h. let (there, new) = ih.0 (rw old at h) in (inr there, new),
        λ (there, new). rw old (elim there [
          | inl same ↦ absurd (clash (rw same at new) old)
          | inr more ↦ ih.1 (more, new)
        ]),
      )
      | inr new ↦ (
        λ h. elim (rw new at h) [
          | inl same ↦ (inl same, rw same new)
          | inr more ↦ let (there, fresh) = ih.0 more in (inr there, fresh)
        ],
        λ (there, fresh).
            rw new (elim there [ inl same ↦ inl same | inr more ↦ inr (ih.1 (more, fresh)) ]),
      )
    ]
