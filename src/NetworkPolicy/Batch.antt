-- ===== src/NetworkPolicy/Batch.antt =====
-- Which namespaces are processed, and in which batches
-- (operator/internal/controller/networkpolicy/reconciliation_batch.go, network_policy_utils.go).
pub mod Laws
use permission_binder_operat.Prelude.{
  ℕ, zero, suc, String, Bool, true, false, not, Option, none, some, List, [], ◌∷◌, ◌++◌, length,
  if◌then◌else◌, ◌==◌,
}
use permission_binder_operat.NetworkPolicy.Status.{Entry, has_status}

abbrev pub default_batch_size : ℕ
default_batch_size = 5

-- A slice `xs[:n]`, cut off at the end.
pub take : ℕ → List String → List String
take zero xs = []
take (suc n) [] = []
take (suc n) (x ∷ xs) = x ∷ take n xs

-- A slice `xs[n:]`, empty behind the end.
pub drop : ℕ → List String → List String
drop zero xs = xs
drop (suc n) [] = []
drop (suc n) (x ∷ xs) = drop n xs

-- The loop: what is left of the namespaces comes last, and at most `fuel` rounds are run.
pub chunk_from : ℕ → ℕ → List String → List (List String)
chunk_from zero size xs = []
chunk_from (suc fuel) size [] = []
chunk_from (suc fuel) size (x ∷ xs) = take size (x ∷ xs) ∷ chunk_from fuel size (drop size (x ∷ xs))

abbrev pub or_default_size : ℕ → ℕ
or_default_size zero = default_batch_size
or_default_size (suc n) = suc n

-- `chunkNamespaces`; a size below zero is treated as zero is. Each round takes a namespace away, so
-- as many rounds as there are namespaces are enough.
unfoldable pub chunk_namespaces : List String → ℕ → List (List String)
unfolding chunk_from take drop
chunk_namespaces namespaces batch_size =
    chunk_from (length namespaces) (or_default_size batch_size) namespaces

-- The namespaces without a status entry.
unfoldable pub unprocessed : List Entry → List String → List String
unprocessed entries [] = []
unprocessed entries (namespace ∷ rest) =
    let others = unprocessed entries rest in
    if has_status namespace entries then others else namespace ∷ others

module _ {W : Type 0} (process : String → W → W) where
  -- The loop over one batch; a namespace that fails is only logged.
  unfoldable pub process_batch : List String → W → W
  process_batch [] w = w
  process_batch (namespace ∷ rest) w = process_batch rest (process namespace w)

  pub process_batches : List (List String) → W → W
  process_batches [] w = w
  process_batches (batch ∷ rest) w = process_batches rest (process_batch batch w)

  -- `ProcessNetworkPoliciesForNamespaces`, with what is done for one namespace as `process`; the
  -- entries are those of the object in memory at the start.
  unfoldable pub process_network_policies : ℕ → List Entry → List String → W → W
  unfolding process_batches process_batch
  process_network_policies batch_size entries namespaces w =
      process_batches
        (chunk_namespaces (unprocessed entries namespaces) (or_default_size batch_size)) w
