-- ===== src/PageTable/Find.antt =====
-- The search of the table for a page.
use tpce2drv.Prelude.{
  ℕ, zero, suc, ◌+◌, ◌≤◌, ◌<◌, ◌==◌, ◌≡◌, ◌≢◌, ◌⊎◌, refl, true, ◌&&◌, ℤ, pos, negsuc, arith, inl,
  inr, Bool-cases,
}
use tpce2drv.PageTable.{
  PageTable, any_channel, is_used, slot_matches, pcie_page_find_value, find_slot,
}

-- The outcome of a search of the slots from `slot` up to `last`.
pub data Search (t : PageTable) (value channel slot last : ℕ) : ℤ → Type 0 where
  hit :
      (r : ℤ) (s : ℕ)
      → r ≡ pos s
      → slot ≤ s
      → s < last
      → slot_matches t channel s ≡ true
      → t.pages s ≡ value
      → ((j : ℕ) → slot ≤ j → j < s → slot_matches t channel j ≡ true → t.pages j ≢ value)
      → Search t value channel slot last r
  miss :
      (r : ℤ)
      → r ≡ negsuc 0
      → ((j : ℕ) → slot ≤ j → j < last → slot_matches t channel j ≡ true → t.pages j ≢ value)
      → Search t value channel slot last r

find_slot-Search :
    (left slot last : ℕ) (t : PageTable) (value channel : ℕ)
    → slot + left ≡ last
    → Search t value channel slot last (find_slot left slot t value channel)
unfolding find_slot
find_slot-Search zero slot last t value channel e = miss _ refl λ j a b. absurd (omega arith)
find_slot-Search (suc left) slot last t value channel e =
    elim (Bool-cases (slot_matches t channel slot && t.pages slot == value)) [
      | inl y ↦ rw y (
          hit _ slot refl (omega arith) (omega arith) (ground arith) (ground arith)
            λ j a b. absurd (omega arith))
      | inr differs ↦ rw differs (
          step _ (λ m. ground arith)
            (find_slot-Search left (slot + 1) last t value channel (omega arith)))
    ]
  where
    step :
        (r : ℤ)
        → (slot_matches t channel slot ≡ true → t.pages slot ≢ value)
        → Search t value channel (slot + 1) last r
        → Search t value channel slot last r
    step _ other (hit r s q lo hi m p first) =
        hit r s q (omega arith) hi m p λ j a b. ground (arith, other, first j)
    step _ other (miss r q nowhere) = miss r q λ j a b. ground (arith, other, nowhere j)

-- The search returns the lowest slot of the channel that holds the page, and -1 if there is none.
pub find_value-Search :
    (t : PageTable) (value channel : ℕ)
    → Search t value channel 0 16 (pcie_page_find_value t value channel)
unfolding pcie_page_find_value
find_value-Search t value channel = find_slot-Search 16 0 16 t value channel refl

-- The same as a choice between a slot that holds the page and -1.
pub find_value-cases :
    (t : PageTable) (value channel : ℕ)
    → ((s : ℕ) × (pcie_page_find_value t value channel ≡ pos s) × (s < 16) × (t.pages s ≡ value))
      ⊎ (pcie_page_find_value t value channel ≡ negsuc 0)
find_value-cases t value channel = choose (find_value-Search t value channel)
  where
    choose :
        {r : ℤ}
        → Search t value channel 0 16 r
        → ((s : ℕ) × (r ≡ pos s) × (s < 16) × (t.pages s ≡ value)) ⊎ (r ≡ negsuc 0)
    choose (hit r s q lo hi m p first) = inl (s, q, hi, p)
    choose (miss r q nowhere) = inr q

-- The slot that is found is in use, by the channel.
pub find_value-used :
    (t : PageTable) (value channel : ℕ)
    → channel ≢ any_channel
    → ((s : ℕ) × (pcie_page_find_value t value channel ≡ pos s)
        × (s < 16)
        × (is_used t s ≡ true)
        × (t.active_channel s ≡ channel)
        × (t.pages s ≡ value))
      ⊎ (pcie_page_find_value t value channel ≡ negsuc 0)
unfolding slot_matches
find_value-used t value channel real = choose (find_value-Search t value channel)
  where
    choose :
        {r : ℤ}
        → Search t value channel 0 16 r
        → ((s : ℕ) × (r ≡ pos s)
            × (s < 16)
            × (is_used t s ≡ true)
            × (t.active_channel s ≡ channel)
            × (t.pages s ≡ value))
          ⊎ (r ≡ negsuc 0)
    choose (hit r s q lo hi m p first) = inl (s, q, hi, ground arith, ground arith, p)
    choose (miss r q nowhere) = inr q
