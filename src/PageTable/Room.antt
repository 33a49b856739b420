-- ===== src/PageTable/Room.antt =====
-- The number of free slots, and that an allocation succeeds while there is one.
use tpce2drv.Prelude.{
  ℕ, zero, suc, ◌+◌, ◌≤◌, ◌<◌, ◌==◌, ltb, if◌then◌else◌, ◌≡◌, ◌⊎◌, arith, true, false, ℤ, negsuc,
  Bool-cases, inl, inr,
}
use tpce2drv.PageTable.{PageTable, is_used, pcie_page_alloc}
use tpce2drv.PageTable.Slots.{IsValid, entry}
use tpce2drv.PageTable.Laws.{Allocated, alloc-Allocated, alloc-cases}

-- The free slots among the first `n`
pub room : ℕ → PageTable → ℕ
room zero t = 0
room (suc n) t = room n t + (if is_used t n then 0 else 1)

free_slot : (n : ℕ) (t : PageTable) → 0 < room n t → (k : ℕ) × (k < n) × (is_used t k ≡ false)
unfolding room
free_slot zero t h = absurd (omega arith)
free_slot (suc n) t h = elim (Bool-cases (is_used t n)) [
  | inl e ↦ let (k, lt, u) = free_slot n t (ground (arith, e)) in (k, omega arith, u)
  | inr e ↦ (n, omega arith, e)
]

room-fill :
    (n k : ℕ) (t t' : PageTable)
    → ((j : ℕ) → is_used t' j ≡ (if j == k then true else is_used t j))
    → room n t ≤ room n t' + (if ltb k n then 1 else 0)
unfolding room
room-fill zero k t t' h = ground arith
room-fill (suc n) k t t' h = ground (arith, h n, room-fill n k t t' h)

Allocated-room :
    {t t' : PageTable} {v c k : ℕ} {r : ℤ} → Allocated t v c t' r k → room 16 t ≤ room 16 t' + 1
unfolding entry
Allocated-room {t} {t'} {v} {c} {k} a =
    let used : (j : ℕ) → is_used t' j ≡ (if j == k then true else is_used t j) =
      λ j. ground (arith, a.entries j) in
    ground (arith, room-fill 16 k t t' used, a.below)

-- In a valid table with room an allocation takes one slot.
pub alloc-room :
    (t : PageTable) (value channel : ℕ)
    → IsValid t
    → 0 < room 16 t
    → let (t', r) = pcie_page_alloc t value channel in
      (k : ℕ) × Allocated t value channel t' r k × (room 16 t ≤ room 16 t' + 1)
alloc-room t value channel v h =
    let (j, lt, u) = free_slot 16 t h in
    let (k, al) = alloc-Allocated t value channel j v lt u in (k, al, Allocated-room al)

-- In a valid table an allocation fails only without room, and takes at most one slot.
pub alloc_room-cases :
    (t : PageTable) (value channel : ℕ)
    → IsValid t
    → let (t', r) = pcie_page_alloc t value channel in
      ((r ≡ negsuc 0) × (room 16 t ≡ 0))
      ⊎ ((k : ℕ) × Allocated t value channel t' r k × (room 16 t ≤ room 16 t' + 1))
alloc_room-cases t value channel v = elim (alloc-cases t value channel v) [
  | inl e ↦ elim (Bool-cases (ltb 0 (room 16 t))) [
    | inl h ↦
        let (k, al, _) = alloc-room t value channel v (ground (arith, h)) in
        absurd (ground (arith, e, al.slot))
    | inr h ↦ inl (e, ground (arith, h))
  ]
  | inr (k, al) ↦ inr (k, al, Allocated-room al)
]
