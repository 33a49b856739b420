-- ===== src/PageTable/Slots.antt =====
-- The table as a map from slots to entries, and what filling or freeing one slot does to it.
use native.Mathlib.Nat.{one-le-pow, pow-le-pow_right}
use tpce2drv.Prelude.{
  ℕ, ◌-◌, ◌^◌, ◌≤◌, ◌<◌, ◌==◌, if◌then◌else◌, ◌≡◌, ◌⊎◌, true, false, not, Option, none, some, pos,
  bit_and, bit_or, arith, inl, inr,
}
use tpce2drv.Prelude.Bits.{bit, bit-le, bit_and-pow, bit-bit_or, bit-bit_and}
use tpce2drv.Prelude.Bits.Masks.{bit-pow, bit-complement, bit_or-lt, bit_and-le}
use tpce2drv.PageTable.{PageTable, is_used, slot_matches, pcie_page_free, fill_slot}

-- The mask has 16 digits, and no write has gone outside of the arrays.
pub record IsValid (t : PageTable) : Type 0 where
  pub mask16 : t.used_mask < 2 ^ 16
  pub in_bounds : t.out_of_bounds ≡ false

-- The page and the channel of a slot in use.
unfoldable pub entry : PageTable → ℕ → Option (ℕ × ℕ)
unfolding is_used
entry t s = if is_used t s then some (t.pages s, t.active_channel s) else none

-- A slot is in use if its digit is one.
pub used_digit : (m s : ℕ) → not (bit_and m (2 ^ s) == 0) ≡ (bit m s == 1)
used_digit m s = elim (zero_or_one (bit m s) (bit-le m s)) [
  | inl e ↦ rw (bit_and-pow m s, e) (ground arith)
  | inr e ↦ rw (bit_and-pow m s, e) (ground (arith, one-le-pow s 2 (omega arith)))
]
  where
    zero_or_one : (b : ℕ) → b ≤ 1 → (b ≡ 0) ⊎ (b ≡ 1)
    zero_or_one b h = omega arith

pub used_digit-bit_or :
    (m s j : ℕ)
    → not (bit_and (bit_or m (2 ^ s)) (2 ^ j) == 0)
      ≡ (if j == s then true else not (bit_and m (2 ^ j) == 0))
used_digit-bit_or m s j =
    rw (used_digit (bit_or m (2 ^ s)) j, used_digit m j, bit-bit_or m (2 ^ s) j, bit-pow s j)
      (ground (arith, bit-le m j))

pub pow-lt-16 : (s : ℕ) → s < 16 → 2 ^ s < 2 ^ 16
pow-lt-16 s h =
    let le : 2 ^ s ≤ 2 ^ 15 =
      pow-le-pow_right {n = 2} (omega arith) {i = s} {j = 15} (omega arith) in
    omega arith

pub used_digit-clear :
    (m s j : ℕ)
    → s < 16
    → j < 16
    → not (bit_and (bit_and m (2 ^ 16 - 1 - 2 ^ s)) (2 ^ j) == 0)
      ≡ (if j == s then false else not (bit_and m (2 ^ j) == 0))
used_digit-clear m s j hs hj =
    rw
      (
        used_digit (bit_and m (2 ^ 16 - 1 - 2 ^ s)) j,
        used_digit m j,
        bit-bit_and m (2 ^ 16 - 1 - 2 ^ s) j,
        bit-complement 16 (2 ^ s) j (pow-lt-16 s hs) hj,
        bit-pow s j,
      )
      (ground (arith, bit-le m j))

-- Freeing a slot empties it and leaves the other slots and the validity alone.
pub entry-free :
    (t : PageTable) (s j : ℕ)
    → s < 16
    → j < 16
    → entry (pcie_page_free t (pos s)) j ≡ (if j == s then none else entry t j)
unfolding entry is_used pcie_page_free
entry-free t s j hs hj = ground (arith, used_digit-clear t.used_mask s j hs hj)

pub slot_matches-free :
    (t : PageTable) (c s j : ℕ)
    → s < 16
    → j < 16
    → slot_matches (pcie_page_free t (pos s)) c j ≡ (if j == s then false else slot_matches t c j)
unfolding slot_matches is_used pcie_page_free
slot_matches-free t c s j hs hj = ground (arith, used_digit-clear t.used_mask s j hs hj)

pub free-IsValid : {t : PageTable} (s : ℕ) → IsValid t → IsValid (pcie_page_free t (pos s))
unfolding pcie_page_free
free-IsValid {t} s v = ground (arith, bit_and-le t.used_mask (2 ^ 16 - 1 - 2 ^ s), v.mask16)

-- Filling a free slot gives it its entry and leaves the other slots and the validity alone.
pub entry-fill :
    (t : PageTable) (v c s j : ℕ)
    → s < 16
    → entry (fill_slot t v c (pos s)).0 j ≡ (if j == s then some (v, c) else entry t j)
unfolding entry is_used fill_slot
entry-fill t v c s j hs = ground (arith, used_digit-bit_or t.used_mask s j)

pub fill-IsValid :
    {t : PageTable} (v c s : ℕ) → s < 16 → IsValid t → IsValid (fill_slot t v c (pos s)).0
unfolding fill_slot
fill-IsValid {t} v c s h w =
    ground (arith, bit_or-lt 16 t.used_mask (2 ^ s) w.mask16 (pow-lt-16 s h))

pub fill_slot-slot : (t : PageTable) (v c s : ℕ) → s < 16 → (fill_slot t v c (pos s)).1 ≡ pos s
unfolding fill_slot
fill_slot-slot t v c s h = ground arith
