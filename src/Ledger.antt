-- ===== src/Ledger.antt =====
-- What a piece of code acquires and releases, as a list of acts, the last one first.
use tpce2drv.Prelude.{ℕ, ◌==◌, if◌then◌else◌, Option, none, some, List, [], ◌∷◌}

pub data Act {ℓ} (A : Type ℓ) : Type ℓ where
  acquire : A → Act A
  release : A → Act A

-- A list of what is held without one entry, the first with the code `c`; `none` if there is no such
-- entry.
unfoldable pub remove {ℓ} : {A : Type ℓ} → (A → ℕ) → ℕ → List A → Option (List A)
remove code c [] = none
remove code c (x ∷ xs) =
    let rest = remove code c xs in
    if code x == c then some xs else elim rest [ none ↦ none | some ys ↦ some (x ∷ ys) ]

-- What is held after the acts of a log, where `code` tells resources apart; `none` once something is
-- released that is not held.
unfoldable pub held {ℓ} : {A : Type ℓ} → (A → ℕ) → List (Act A) → Option (List A)
unfolding remove
held code [] = some []
held code (acquire r ∷ log) = elim (held code log) [ none ↦ none | some xs ↦ some (r ∷ xs) ]
held code (release r ∷ log) = elim (held code log) [
  | none ↦ none
  | some xs ↦ remove code (code r) xs
]
