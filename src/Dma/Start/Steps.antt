-- ===== src/Dma/Start/Steps.antt =====
-- linux/dma.c: the two translations of a start, each as a failure or the state that it leaves.
use tpce2drv.Prelude.{
  ℕ, ◌+◌, ◌-◌, ◌*◌, ◌/◌, ◌%◌, ◌^◌, ◌<◌, ◌≤◌, ◌==◌, if◌then◌else◌, ◌≡◌, ◌⊎◌, refl, arith, Bool, true,
  false, some, ℤ, Bool-cases, inl, inr, ap, bit_and, bit_or, u32,
}
use tpce2drv.Prelude.Bits.Masks.{bit_and-low, bit_or-fields}
use tpce2drv.Types.{Descriptor, descriptor_size, from_device}
use tpce2drv.PageTable.{
  PageTable, pcie_page_free_by_channel_id, translation_mask_64, pcie_page_alloc,
}
use tpce2drv.PageTable.Slots.{IsValid}
use tpce2drv.PageTable.Laws.{Allocated}
use tpce2drv.PageTable.Room.{room, alloc_room-cases}
use tpce2drv.Device.{Tpce, DmaInfo, with_info, Result, failed, ok, enospc}
use tpce2drv.Dma.{
  Translation, translated, translate_descriptor_link_addr, translate_descriptor_rw_addr,
}
use tpce2drv.Dma.Translate.Round.{page_at}
use tpce2drv.Dma.Translate.Room.{looped, full-room}

pub with_info_self : (t : Tpce) (ch : ℕ) (info : DmaInfo) → (with_info t ch info).dma_info ch ≡ info
with_info_self t ch info = let here : (ch == ch) ≡ true = ground arith in rw here refl

-- The translated address of the list
pub link_address :
    (a k : ℕ)
    → k < 16
    → u32 (bit_or (u32 (k * 2 ^ 18)) (bit_and a (2 ^ 64 - 1 - translation_mask_64)))
      ≡ k * 2 ^ 18 + a % 2 ^ 18
link_address a k h = ground (arith, bit_and-low 18 a, bit_or-fields 18 k (a % 2 ^ 18) (omega arith))

abbrev pub linked_at : Tpce → ℕ → PageTable → ℕ → Tpce
linked_at t ch table low =
    with_info (record t { page_table = table }) ch
      (record (t.dma_info ch) { desc_bus_addr_translated = low })

pub link_addr-cases :
    (t : Tpce) (ch : ℕ)
    → IsValid t.page_table
    → let info = t.dma_info ch in
      let page = page_at info.desc_bus_addr in
      let (table, r) = pcie_page_alloc t.page_table page info.params.channel in
      (((translate_descriptor_link_addr t ch).1 ≡ failed enospc) × (room 16 t.page_table ≡ 0))
      ⊎ ((k : ℕ) × Allocated t.page_table page info.params.channel table r k
          × (room 16 t.page_table ≤ room 16 table + 1)
          × (translate_descriptor_link_addr t ch
              ≡ (linked_at t ch table (k * 2 ^ 18 + info.desc_bus_addr % 2 ^ 18), ok 0)))
unfolding translate_descriptor_link_addr
link_addr-cases t ch v =
    let info = t.dma_info ch in
    elim (alloc_room-cases t.page_table (page_at info.desc_bus_addr) info.params.channel v) [
      | inl (e, h) ↦ inl (rw e refl, h)
      | inr (k, al, h) ↦
          inr (k, al, h, rw (al.slot, link_address info.desc_bus_addr k al.below) refl)
    ]

abbrev pub stored : Tpce → ℕ → Translation → Tpce
stored t ch s =
    with_info (record t { page_table = s.table }) ch
      (record (t.dma_info ch) { desc_dma = some s.buf })

pub translated-cases :
    (t : Tpce) (ch : ℕ) (s : Translation)
    → (((translated t ch s).1 ≡ failed enospc) × (s.full ≡ true))
      ⊎ ((s.full ≡ false) × (translated t ch s ≡ (stored t ch s, ok s.used_entries)))
translated-cases t ch s =
    let channel = (t.dma_info ch).params.channel in
    let refused : Tpce × Result ℕ = (
      record (stored t ch s) { page_table = pcie_page_free_by_channel_id s.table channel },
      failed enospc,
    ) in
    let both = λ (b : Bool). if b then refused else (stored t ch s, ok s.used_entries) in
    elim (Bool-cases s.full) [
      | inl e ↦ inl (ap (λ b. (both b).1) e, e)
      | inr e ↦ inr (e, ap both e)
    ]

pub rw_addr-cases :
    (t : Tpce) (ch : ℕ) (buf : ℕ → Descriptor) (stale : ℤ)
    → IsValid t.page_table
    → (t.dma_info ch).params.direction ≡ from_device
    → let s = looped t ch buf stale in
      (((translate_descriptor_rw_addr t ch buf stale).1 ≡ failed enospc)
        × (room 16 t.page_table < (t.dma_info ch).desc_active / descriptor_size))
      ⊎ ((s.full ≡ false)
          × (translate_descriptor_rw_addr t ch buf stale ≡ (stored t ch s, ok s.used_entries)))
unfolding translate_descriptor_rw_addr
rw_addr-cases t ch buf stale v dir =
    let test : ((t.dma_info ch).params.direction == from_device) ≡ true = ground arith in
    rw test (elim (translated-cases t ch (looped t ch buf stale)) [
      | inl (e, f) ↦ inl (e, full-room t ch buf stale v f)
      | inr p ↦ inr p
    ])
