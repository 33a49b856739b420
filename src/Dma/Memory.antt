-- ===== src/Dma/Memory.antt =====
-- linux/dma.c: the descriptor buffers of a channel. `Got` is what the two allocations give: nothing
-- for the first, for the first only, or for both, with the bus address and the buffers' contents.
use tpce2drv.Prelude.{ℕ, ◌-◌, ◌^◌, ◌==◌, leb, ltb, if◌then◌else◌, ◌||◌, none, some, is_some}
use tpce2drv.Types.{Descriptor, zero_descriptor}
use tpce2drv.Device.{DmaInfo, einval, enomem, Result, failed, ok}

pub data Got : Type 0 where
  no_buffer no_coherent : Got
  both : (bus_addr : ℕ) (coherent : ℕ → Descriptor) → Got

-- The fields that both functions clear.
abbrev pub without_buffers : DmaInfo → DmaInfo
without_buffers info = record info {
  desc = none;
  desc_dma = none;
  desc_bus_addr = 0;
  desc_bus_addr_translated = 0;
  desc_size = 0;
  desc_capacity = 0;
}

abbrev pub with_buffers : DmaInfo → ℕ → Got → DmaInfo × Result ℕ
with_buffers info size no_buffer = (info, failed enomem)
with_buffers info size no_coherent = (info, failed enomem)
with_buffers info size (both bus_addr coherent) = (
  record info {
    desc = some (λ _. zero_descriptor);
    desc_dma = some coherent;
    desc_bus_addr = bus_addr;
    desc_bus_addr_translated = 0;
    desc_size = size;
    desc_capacity = size;
  },
  ok 0,
)

unfoldable pub tpce_dma_alloc_descriptors_mem : DmaInfo → ℕ → Got → DmaInfo × Result ℕ
tpce_dma_alloc_descriptors_mem info size got =
    if size == 0 || ltb (2 ^ 31 - 1) size
    then (info, failed einval)
    else if leb size info.desc_capacity
    then (record info { desc_size = size }, ok 0)
    else with_buffers (if is_some info.desc_dma then without_buffers info else info) size got
