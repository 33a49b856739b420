-- ===== src/Dma/Translate.antt =====
-- The translation of the descriptors' addresses through the page table.
pub mod Round
pub mod Loop
pub mod Stale
pub mod Room
mod Examples
pub mod Whole
use Prim.Native.Nat.{bit_or-bitwise}
use tpce2drv.Prelude.{
  ℕ, ◌*◌, ◌^◌, ◌<◌, ◌==◌, ◌≡◌, ◌≢◌, arith, true, false, inl, inr, bit_and, bit_or,
}
use tpce2drv.Types.{Descriptor}
use tpce2drv.PageTable.{translation_mask_64, pcie_page_alloc}
use tpce2drv.PageTable.Slots.{IsValid}
use tpce2drv.PageTable.Find.{find_value-cases}
use tpce2drv.PageTable.Laws.{alloc-cases, Allocated-page}
use tpce2drv.PageTable.Translate.{bridge, bridge-translate_64}
use tpce2drv.Dma.{Translation, translate_one}

abbrev pub write_address : Descriptor → ℕ
write_address d = bit_or (d.write_address_high * 2 ^ 32) d.write_address_low

-- A word without a high part
pub bit_or-low : (x : ℕ) → bit_or (0 * 2 ^ 32) x ≡ x
bit_or-low x = omega (arith, bit_or-bitwise 0 x)
