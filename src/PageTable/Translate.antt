-- ===== src/PageTable/Translate.antt =====
-- Addresses on the device's side of the table.
use tpce2drv.Prelude.{ℕ, ◌+◌, ◌*◌, ◌/◌, ◌%◌, ◌^◌, ◌<◌, ◌≡◌, pos, arith, bit_and, ◌∙◌, ap}
use tpce2drv.Prelude.Bits.Masks.{bit_and-low, bit_and-high, bit_or-fields}
use tpce2drv.PageTable.{
  PageTable, page_bytes, translation_mask_64, pcie_translate_addr_64, pcie_translate_addr_32,
}

-- What the device's bridge makes of a 32-bit address: the page in the slot that the address names,
-- and the offset within it.
pub bridge : PageTable → ℕ → ℕ
bridge t a = t.pages (a / page_bytes) + a % page_bytes

-- `addr & ALTERA_ADDR_TRANSLATION_MASK_64` is the start of the page.
pub page_of : (a : ℕ) → a < 2 ^ 64 → bit_and a translation_mask_64 ≡ a / 2 ^ 18 * 2 ^ 18
page_of a h = bit_and-high 18 46 a h

-- For a slot of the table the translated address is the slot and the offset, side by side.
pub translate_64-fields :
    (a s : ℕ) → s < 16 → pcie_translate_addr_64 a (pos s) ≡ s * 2 ^ 18 + a % 2 ^ 18
unfolding pcie_translate_addr_64
translate_64-fields a s h =
    ground (arith, bit_and-low 18 a, bit_or-fields 18 s (a % 2 ^ 18) (omega arith))

-- The bridge leads to the page in the slot, and to the offset of the address within it.
pub bridge-page :
    (t : PageTable) (a s : ℕ)
    → s < 16
    → bridge t (pcie_translate_addr_64 a (pos s)) ≡ t.pages s + a % 2 ^ 18
unfolding bridge
bridge-page t a s h =
    let b = pcie_translate_addr_64 a (pos s) in
    let f = translate_64-fields a s h in
    let slot : b / page_bytes ≡ s = omega (arith, f) in
    ap (λ k. t.pages k + b % page_bytes) slot ∙ omega (arith, f)

-- A 64-bit address goes through the table and back: if the slot holds the page of the address, the
-- bridge leads from the translated address to the address, and that takes 22 bits.
pub bridge-translate_64 :
    (t : PageTable) (a s : ℕ)
    → a < 2 ^ 64
    → s < 16
    → t.pages s ≡ bit_and a translation_mask_64
    → (bridge t (pcie_translate_addr_64 a (pos s)) ≡ a)
      × (pcie_translate_addr_64 a (pos s) < 2 ^ 22)
bridge-translate_64 t a s h hs e = (
  bridge-page t a s hs ∙ omega (arith, e, page_of a h),
  omega (arith, translate_64-fields a s hs),
)

-- On addresses below 2 ^ 32 the two translations agree.
pub translate_32-translate_64 :
    (a s : ℕ) → s < 16 → pcie_translate_addr_32 a (pos s) ≡ pcie_translate_addr_64 a (pos s)
unfolding pcie_translate_addr_32 pcie_translate_addr_64
translate_32-translate_64 a s h = ground arith
