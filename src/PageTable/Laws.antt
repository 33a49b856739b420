-- ===== src/PageTable/Laws.antt =====
-- What the operations on the table do to its entries.
use tpce2drv.Prelude.{
  ◌∙◌, ℕ, zero, suc, ◌+◌, ◌-◌, ◌^◌, ◌≤◌, ◌<◌, ◌==◌, leb, ltb, if◌then◌else◌, ◌≡◌, ◌⊎◌, refl, true,
  false, ◌&&◌, Option, none, some, ℤ, pos, negsuc, arith, inl, inr, Bool-cases, ap,
}
use tpce2drv.Prelude.Bits.{bit}
use tpce2drv.Prelude.Bits.Masks.{bit-complement, bit-zero}
use tpce2drv.PageTable.{
  PageTable, pcie_page_active, is_used, slot_matches, pcie_page_free, fill_slot, pcie_page_alloc,
  pcie_page_free_by_channel_id, free_slots,
}
use tpce2drv.PageTable.Mask.{SlotOf, full, free, find_first_zero-SlotOf}
use tpce2drv.PageTable.Slots.{
  IsValid, entry, used_digit, entry-free, slot_matches-free, free-IsValid, entry-fill, fill-IsValid,
  fill_slot-slot,
}

-- A slot is out of use exactly if its digit is zero.
is_used-bit : (t : PageTable) (s : ℕ) → is_used t s ≡ (bit t.used_mask s == 1)
unfolding is_used
is_used-bit t s = used_digit t.used_mask s

-- What an allocation that finds a slot does: the lowest free slot `s` gets the page and the channel,
-- and no other entry changes.
pub record Allocated (t : PageTable) (value channel : ℕ) (t' : PageTable) (r : ℤ) (s : ℕ)
    : Type 0 where
  pub slot : r ≡ pos s
  pub below : s < 16
  pub was_free : entry t s ≡ none
  pub lowest : (j : ℕ) → j < s → is_used t j ≡ true
  pub entries : (j : ℕ) → entry t' j ≡ (if j == s then some (value, channel) else entry t j)
  pub valid : IsValid t'

alloc_of_SlotOf :
    (t : PageTable) (value channel : ℕ) (r : ℤ)
    → IsValid t
    → SlotOf t.used_mask r
    → (k : ℕ) → k < 16
    → is_used t k ≡ false
    → let (t', r') = fill_slot t value channel r in (s : ℕ) × Allocated t value channel t' r' s
unfolding entry
alloc_of_SlotOf t value channel _ v (full r e e') k hk u =
    let ones : bit (2 ^ 16 - 1 - 0) k ≡ 1 - bit 0 k = bit-complement 16 0 k (omega arith) hk in
    absurd (ground (arith, is_used-bit t k, ones, bit-zero k, ap (λ m. bit m k) e))
alloc_of_SlotOf t value channel _ v (free r s e h ne z low) k hk u = rw e (
  s,
  record {
    slot = fill_slot-slot t value channel s h;
    below = h;
    was_free = ground (arith, is_used-bit t s);
    lowest = λ j lt. ground (arith, is_used-bit t j, low j lt);
    entries = λ j. entry-fill t value channel s j h;
    valid = fill-IsValid value channel s h v;
  },
)

-- In a valid table with a free slot, an allocation takes the lowest one and changes nothing else.
pub alloc-Allocated :
    (t : PageTable) (value channel k : ℕ)
    → IsValid t
    → k < 16
    → is_used t k ≡ false
    → let (t', r) = pcie_page_alloc t value channel in (s : ℕ) × Allocated t value channel t' r s
unfolding pcie_page_alloc
alloc-Allocated t value channel k v hk u =
    alloc_of_SlotOf t value channel _ v (find_first_zero-SlotOf t.used_mask v.mask16) k hk u

full_of_used :
    (t : PageTable) (value channel : ℕ) (r : ℤ)
    → SlotOf t.used_mask r
    → ((j : ℕ) → j < 16 → is_used t j ≡ true)
    → ((fill_slot t value channel r).1 ≡ negsuc 0)
      × ((fill_slot t value channel r).0.out_of_bounds ≡ true)
unfolding fill_slot
full_of_used t value channel _ (full r e e') u = rw e' (refl, refl)
full_of_used t value channel _ (free r s e h ne z low) u =
    absurd (ground (arith, u s h, is_used-bit t s))

-- The allocation in a full table returns -1, but only after it has written outside of the arrays.
pub alloc-full :
    (t : PageTable) (value channel : ℕ)
    → IsValid t
    → ((j : ℕ) → j < 16 → is_used t j ≡ true)
    → ((pcie_page_alloc t value channel).1 ≡ negsuc 0)
      × ((pcie_page_alloc t value channel).0.out_of_bounds ≡ true)
unfolding pcie_page_alloc
alloc-full t value channel v u =
    full_of_used t value channel _ (find_first_zero-SlotOf t.used_mask v.mask16) u

-- The entries once the slots from `slot` on have been looked at.
abbrev swept : PageTable → ℕ → ℕ → ℕ → ℕ → Option (ℕ × ℕ)
swept t c slot left j =
    if leb slot j && ltb j (slot + left) && slot_matches t c j then none else entry t j

free_slots-entries :
    (left slot : ℕ) (t : PageTable) (c j : ℕ)
    → slot + left ≤ 16
    → j < 16
    → entry (free_slots left slot t c) j ≡ swept t c slot left j
unfolding free_slots
free_slots-entries zero slot t c j h hj = ground arith
free_slots-entries (suc left) slot t c j h hj = elim (Bool-cases (slot_matches t c slot)) [
  | inl e ↦ rw e (
      ground (
        arith,
        free_slots-entries left (slot + 1) (pcie_page_free t (pos slot)) c j (omega arith) hj,
        entry-free t slot j (omega arith) hj,
        slot_matches-free t c slot j (omega arith) hj,
      ))
  | inr e ↦ rw e (ground (arith, free_slots-entries left (slot + 1) t c j (omega arith) hj))
]

free_slots-IsValid :
    (left slot : ℕ) (t : PageTable) (c : ℕ) → IsValid t → IsValid (free_slots left slot t c)
unfolding free_slots
free_slots-IsValid zero slot t c v = v
free_slots-IsValid (suc left) slot t c v = elim (Bool-cases (slot_matches t c slot)) [
  | inl e ↦ rw e (free_slots-IsValid left (slot + 1) _ c (free-IsValid slot v))
  | inr e ↦ rw e (free_slots-IsValid left (slot + 1) t c v)
]

-- An entry that is kept when the slots of a channel are freed, all of them for 255
unfoldable pub without : ℕ → Option (ℕ × ℕ) → Option (ℕ × ℕ)
without c none = none
without c (some (page, owner)) =
    if c == 255 then none else if owner == c then none else some (page, owner)

entry-without :
    (t : PageTable) (c j : ℕ)
    → (if slot_matches t c j then none else entry t j) ≡ without c (entry t j)
unfolding without entry slot_matches
entry-without t c j = elim (Bool-cases (is_used t j)) [
  | inl e ↦ rw e (ground arith)
  | inr e ↦ rw e refl
]

-- Freeing a channel's slots empties exactly those in use whose owner it is (all of them for the
-- wildcard), leaves every other entry as it was, and keeps the table valid.
pub free_by_channel-entries :
    (t : PageTable) (c : ℕ)
    → IsValid t
    → IsValid (pcie_page_free_by_channel_id t c)
      × ((j : ℕ) → j < 16 → entry (pcie_page_free_by_channel_id t c) j ≡ without c (entry t j))
unfolding pcie_page_free_by_channel_id
free_by_channel-entries t c v = (
  free_slots-IsValid 16 0 t c v,
  λ j hj.
      let e : entry (free_slots 16 0 t c) j ≡ (if slot_matches t c j then none else entry t j) =
        ground (arith, free_slots-entries 16 0 t c j (omega arith) hj) in
      e ∙ entry-without t c j,
)

alloc_cases_of_SlotOf :
    (t : PageTable) (value channel : ℕ) (r : ℤ)
    → IsValid t
    → SlotOf t.used_mask r
    → let (t', r') = fill_slot t value channel r in
      (r' ≡ negsuc 0) ⊎ ((s : ℕ) × Allocated t value channel t' r' s)
unfolding fill_slot
alloc_cases_of_SlotOf t value channel _ v (full r e e') = rw e' (inl refl)
alloc_cases_of_SlotOf t value channel _ v (free r s e h ne z low) = inr (
    alloc_of_SlotOf t value channel _ v (free r s e h ne z low) s h
      (ground (arith, is_used-bit t s)))

-- An allocation in a valid table returns -1 or a slot that was free.
pub alloc-cases :
    (t : PageTable) (value channel : ℕ)
    → IsValid t
    → let (t', r) = pcie_page_alloc t value channel in
      (r ≡ negsuc 0) ⊎ ((s : ℕ) × Allocated t value channel t' r s)
unfolding pcie_page_alloc
alloc-cases t value channel v =
    alloc_cases_of_SlotOf t value channel _ v (find_first_zero-SlotOf t.used_mask v.mask16)

-- The page of a slot that an allocation has filled.
pub Allocated-page :
    {t : PageTable} {value channel : ℕ} {t' : PageTable} {r : ℤ} {s : ℕ}
    → Allocated t value channel t' r s
    → t'.pages s ≡ value
unfolding entry
Allocated-page {t' = t'} {s = s} a = let e = a.entries s in ground (arith, e)

-- No slot of the channel is left, in any table.
pub free_by_channel-free :
    (t : PageTable) (c j : ℕ)
    → j < 16
    → pcie_page_active (pcie_page_free_by_channel_id t c) j c ≡ false
unfolding pcie_page_free_by_channel_id entry slot_matches
free_by_channel-free t c j h = ground (arith, free_slots-entries 16 0 t c j (omega arith) h)
