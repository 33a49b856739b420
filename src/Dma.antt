-- ===== src/Dma.antt =====
-- linux/dma.c: starting a transfer. The descriptors' addresses are translated through the page
-- table, the descriptors are linked, and the controller is told to run. The width of addresses,
-- TPCE_DMA_ADDRESS_WIDTH, is 64.
pub mod Memory
pub mod Translate
pub mod Stop
pub mod Laws
pub mod Links
pub mod Fast
pub mod Registers
pub mod Start
pub mod StreamStart
pub mod Started
mod Examples
use tpce2drv.Prelude.{
  ℕ, zero, suc, ◌+◌, ◌-◌, ◌*◌, ◌/◌, ◌%◌, ◌^◌, ◌==◌, ltb, if◌then◌else◌, Bool, true, false, not,
  ◌&&◌, Option, none, some, ℤ, pos, negsuc, bit_and, bit_or, u32, update,
}
use tpce2drv.Types.{
  Descriptor, zero_descriptor, descriptor_size, TransferParams, from_device, to_device, mode_stream,
}
use tpce2drv.PageTable.{
  PageTable, table_size, translation_mask_64, translation_mask, pcie_page_alloc,
  pcie_page_find_value, pcie_page_active, pcie_page_free_by_channel_id, pcie_translate_addr_64,
}
use tpce2drv.Device.{
  Tpce, DmaInfo, Errno, einval, efault, enospc, enosys, undefined, Result, failed, ok, running,
  error, is_initialized, with_info, iowrite32, dma_csr, prefetcher_csr,
}

-- `slot == -1`
abbrev pub is_minus_one : ℤ → Bool
is_minus_one (pos n) = false
is_minus_one (negsuc n) = n == 0

-- `(u32)slot << ALTERA_ADDR_PAGE_SIZE`
abbrev slot_base : ℤ → ℕ
slot_base (pos n) = u32 (n * 2 ^ 18)
slot_base (negsuc n) = u32 (2 ^ 32 * 2 ^ 18 - suc n * 2 ^ 18)

-- `translate_descriptor_link_addr`
pub translate_descriptor_link_addr : Tpce → ℕ → Tpce × Result ℕ
translate_descriptor_link_addr t ch =
    let info = t.dma_info ch in
    let page_addr = bit_and info.desc_bus_addr translation_mask_64 in
    let page_offset = bit_and info.desc_bus_addr (2 ^ 64 - 1 - translation_mask_64) in
    let (table, slot) = pcie_page_alloc t.page_table page_addr info.params.channel in
    let t1 = record t { page_table = table } in
    if is_minus_one slot then (t1, failed enospc) else (
      with_info t1 ch
          (record info { desc_bus_addr_translated = u32 (bit_or (slot_base slot) page_offset) }),
      ok 0,
    )

-- The variables of the loop of `translate_descriptor_rw_addr`; `full` is set where it jumps to
-- `err_page_alloc`.
pub record Translation : Type 0 where
  pub table : PageTable
  pub buf : ℕ → Descriptor
  pub curr_page : ℕ
  pub slot : ℤ
  pub used_entries : ℕ
  pub full : Bool

-- The end of one round: the descriptor gets the translated address.
abbrev pub put_address : ℕ → ℕ → Translation → Translation
put_address i combined s = record s {
  buf = update s.buf i (record (s.buf i) {
    write_address_low = pcie_translate_addr_64 combined s.slot;
    write_address_high = 0;
  });
}

-- One round. A page other than the current one is looked up, and allocated if it is not there.
pub translate_one : ℕ → ℕ → Translation → Translation
translate_one channel i s =
    let d = s.buf i in
    let combined = bit_or (d.write_address_high * 2 ^ 32) d.write_address_low in
    let page_addr = bit_and combined translation_mask_64 in
    let found = pcie_page_find_value s.table page_addr channel in
    let (table, slot) = pcie_page_alloc s.table page_addr channel in
    if s.curr_page == page_addr
    then put_address i combined s
    else if is_minus_one found
    then if is_minus_one slot
      then record s { table = table; slot = slot; full = true }
      else put_address i combined (record s {
        table = table;
        slot = slot;
        curr_page = page_addr;
        used_entries = s.used_entries + 1;
      })
    else put_address i combined (record s { slot = found })

-- The loop: `left` descriptors from `i` on.
pub translate_all : ℕ → ℕ → ℕ → Translation → Translation
translate_all zero i channel s = s
translate_all (suc left) i channel s =
    let s' = translate_one channel i s in
    let rest = translate_all left (i + 1) channel s' in if s'.full then s' else rest

-- What the code after the loop makes of it, and the label `err_page_alloc`.
abbrev pub translated : Tpce → ℕ → Translation → Tpce × Result ℕ
translated t ch s =
    let info = t.dma_info ch in
    let t1 =
      with_info (record t { page_table = s.table }) ch (record info { desc_dma = some s.buf }) in
    if s.full
    then (
      record t1 { page_table = pcie_page_free_by_channel_id s.table info.params.channel },
      failed enospc,
    )
    else (t1, ok s.used_entries)

-- `translate_descriptor_rw_addr` on a descriptor buffer; `stale` is what the variable `slot` holds
-- before its first assignment.
pub translate_descriptor_rw_addr : Tpce → ℕ → (ℕ → Descriptor) → ℤ → Tpce × Result ℕ
unfolding translate_one translate_all
translate_descriptor_rw_addr t ch buf stale =
    let info = t.dma_info ch in
    let start : Translation = record {
      table = t.page_table;
      buf = buf;
      curr_page = 0;
      slot = stale;
      used_entries = 0;
      full = false;
    } in
    let after = translate_all (info.desc_active / descriptor_size) 0 info.params.channel start in
    if info.params.direction == from_device
    then translated t ch after
    else if info.params.direction == to_device
    then (t, failed enosys)
    else (t, failed einval)

-- ALT_MSGDMA_PREFETCHER_DESCRIPTOR_CTRL_OWN_BY_HW_SET_MASK
abbrev pub own_by_hw : ℕ
own_by_hw = 2 ^ 30

pub set_next_desc_ptr : Descriptor → ℕ → Descriptor
set_next_desc_ptr d val = record d {
  next_desc_ptr_low = bit_and val 0xffffffff;
  next_desc_ptr_high = u32 (val / 2 ^ 32);
}

abbrev pub link : Descriptor → ℕ → Descriptor
unfolding set_next_desc_ptr
link d val = let d1 = set_next_desc_ptr d val in record d1 { control = bit_or d1.control own_by_hw }

-- The loop of `build_descriptor_links`
pub link_all : ℕ → ℕ → ℕ → (ℕ → Descriptor) → ℕ → Descriptor
link_all zero i next buf = buf
link_all (suc left) i next buf =
    link_all left (i + 1) (u32 (next + descriptor_size)) (update buf i (link (buf i) next))

-- `build_descriptor_links` on a buffer. `desc_size` is at least the size of one descriptor, since
-- `tpce_dma_alloc_descriptors_mem` refuses 0.
pub build_descriptor_links : DmaInfo → (ℕ → Descriptor) → ℕ → Descriptor
unfolding link_all
build_descriptor_links info buf =
    let num = info.desc_size / descriptor_size in
    let linked = link_all (num - 1) 0 (u32 (info.desc_bus_addr_translated + descriptor_size)) buf in
    let last = num - 1 in
    if info.params.transfer_mode == mode_stream
    then update linked last (link (linked last) info.desc_bus_addr_translated)
    else update linked last zero_descriptor

-- The loop of `set_page_translation_regs`; PAGE_TABLE_SPACE_BIT is 1.
pub set_page_regs : ℕ → ℕ → PageTable → ℕ → Tpce → Tpce
set_page_regs zero i table channel t = t
set_page_regs (suc left) i table channel t =
    let tbl_lo = bit_or (bit_and (u32 (table.pages i)) translation_mask) 1 in
    let tbl_hi = u32 (table.pages i / 2 ^ 32) in
    let rest = set_page_regs left (i + 1) table channel (
      if pcie_page_active table i channel
      then iowrite32 (iowrite32 t (0x1000 + 8 * i) tbl_lo) (0x1004 + 8 * i) tbl_hi
      else t) in
    rest

pub set_page_translation_regs : Tpce → ℕ → Tpce
unfolding set_page_regs
set_page_translation_regs t ch =
    set_page_regs table_size 0 t.page_table (t.dma_info ch).params.channel t

-- The bits of the prefetcher's control register
abbrev pub ctrl_run : ℕ
ctrl_run = 0x1

abbrev pub ctrl_reset : ℕ
ctrl_reset = 0x4

abbrev pub ctrl_global_intr_en : ℕ
ctrl_global_intr_en = 0x8

abbrev pub ctrl_park_mode : ℕ
ctrl_park_mode = 0x10

pub start_dma_controller : Tpce → ℕ → Tpce
start_dma_controller t ch =
    let info = t.dma_info ch in
    let channel = info.params.channel in
    let val =
      if info.params.transfer_mode == mode_stream
      then bit_or ctrl_global_intr_en ctrl_park_mode
      else ctrl_global_intr_en in
    let t1 = iowrite32 t (dma_csr channel 0x4) 0 in
    let t2 = iowrite32 t1 (prefetcher_csr channel 0x4) info.desc_bus_addr_translated in
    let t3 = iowrite32 t2 (prefetcher_csr channel 0x8) 0 in
    let t4 = iowrite32 t3 (prefetcher_csr channel 0x0) val in
    iowrite32 t4 (prefetcher_csr channel 0x0) (bit_or val ctrl_run)

-- The rest of `dma_start` once the addresses are translated.
abbrev pub run_controller : Tpce → ℕ → (ℕ → Descriptor) → Tpce
unfolding build_descriptor_links set_page_translation_regs start_dma_controller
run_controller t ch buf =
    let info = t.dma_info ch in
    let t1 = with_info t ch (record info { desc_dma = some (build_descriptor_links info buf) }) in
    start_dma_controller (set_page_translation_regs t1 ch) ch

-- `dma_start` after `translate_descriptor_rw_addr` has returned, with the label `err_desc_translate`
abbrev pub after_translation : ℕ → Tpce → Result ℕ → Tpce × Result ℕ
after_translation ch t (failed e) =
    let info = t.dma_info ch in
    (
      record (with_info t ch (record info { state = error })) {
        page_table = pcie_page_free_by_channel_id t.page_table info.params.channel;
      },
      failed e,
    )
after_translation ch t (ok n) = elim (t.dma_info ch).desc_dma [
  | none ↦ (t, failed undefined)
  | some buf ↦ (run_controller t ch buf, ok 0)
]

-- `dma_start` after `translate_descriptor_link_addr` has returned. An initialised channel has a
-- descriptor buffer; without one the source would read from a null pointer.
abbrev pub after_link : ℕ → ℤ → Tpce → Result ℕ → Tpce × Result ℕ
unfolding translate_descriptor_rw_addr
after_link ch stale t (failed e) = (t, failed e)
after_link ch stale t (ok n) = elim (t.dma_info ch).desc_dma [
  | none ↦ (t, failed undefined)
  | some buf ↦
      let (t1, r) = translate_descriptor_rw_addr t ch buf stale in after_translation ch t1 r
]

pub dma_start : Tpce → ℕ → ℤ → Tpce × Result ℕ
unfolding translate_descriptor_link_addr
dma_start t ch stale =
    let (t1, r) = translate_descriptor_link_addr t ch in
    if is_initialized (t.dma_info ch).state then after_link ch stale t1 r else (t, failed efault)

-- The last statements of `tpce_dma_start` and `tpce_dma_stream_start`
abbrev pub mark_running : ℕ → Tpce → Result ℕ → Tpce × Result ℕ
mark_running ch t (failed e) = (t, failed e)
mark_running ch t (ok n) = (with_info t ch (record (t.dma_info ch) { state = running }), ok 0)

abbrev pub tpce_dma_start : Tpce → ℕ → ℤ → Tpce × Result ℕ
unfolding dma_start
tpce_dma_start t ch stale = let (t1, r) = dma_start t ch stale in mark_running ch t1 r

-- TPCE_IRQ_DMA0, TPCE_IRQ_DMA1 and TPCE_IRQ_DMA2; `none` where `tpce_dma_ch` is no channel.
abbrev pub irq_bit : ℕ → Option ℕ
irq_bit ch =
    if ch == 0
    then some 0x001
    else if ch == 1
    then some 0x100
    else if ch == 2
    then some 0x400
    else none

pub enable_stream_irq : Tpce → ℕ → Tpce × Result ℕ
enable_stream_irq t ch = elim (irq_bit ch) [
  | none ↦ (t, failed einval)
  | some mask ↦ (record t { fast_irq_mask = bit_or t.fast_irq_mask mask }, ok 0)
]

abbrev pub clear_irq : Tpce → Option ℕ → Tpce
clear_irq t none = t
clear_irq t (some mask) = record t { fast_irq_mask = bit_and t.fast_irq_mask (2 ^ 32 - 1 - mask) }

pub disable_stream_irq : Tpce → ℕ → Tpce
disable_stream_irq t ch = clear_irq t (irq_bit ch)

abbrev pub after_enable : ℕ → ℤ → Tpce → Result ℕ → Tpce × Result ℕ
unfolding dma_start
after_enable ch stale t (failed e) = (t, failed e)
after_enable ch stale t (ok n) = let (t1, r) = dma_start t ch stale in mark_running ch t1 r

abbrev pub tpce_dma_stream_start : Tpce → ℕ → ℤ → Tpce × Result ℕ
unfolding enable_stream_irq
tpce_dma_stream_start t ch stale =
    let (t1, r) = enable_stream_irq t ch in after_enable ch stale t1 r
