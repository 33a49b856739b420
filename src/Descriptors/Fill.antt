-- ===== src/Descriptors/Fill.antt =====
-- linux/dma_descriptors.c: `tpce_generate_descriptors`. A descriptor buffer is a map from indices
-- together with its capacity. `none` means that the code would read past the scatter-gather table
-- or write past the buffer.
pub mod Fields
pub mod Chunks
pub mod Ranges
pub mod Count
pub mod Untouched
pub mod Addresses
pub mod Control
use tpce2drv.Prelude.{
  ℕ, zero, suc, ◌+◌, ◌-◌, ◌*◌, ◌/◌, ◌%◌, ◌^◌, ◌<◌, ◌==◌, leb, ltb, if◌then◌else◌, Bool, true, false,
  not, ◌&&◌, ◌||◌, List, [], ◌∷◌, Option, none, some, bit_and, bit_or, u16, u32, u64, sub32, update,
  drop,
}
use tpce2drv.Types.{
  Descriptor, zero_descriptor, TransferParams, SgEntry, MapInfo, ChannelInfo, channel_info,
  from_device, mode_default, mode_stream,
}
use tpce2drv.Descriptors.{Plan, min32, create_descriptor_plan}
use tpce2drv.Descriptors.Params.{DmaErr, null_ptr, desc_buf}

-- The setters and getters of linux/dma_descriptors.h
pub tpce_desc_set_write_32 : Descriptor → ℕ → Descriptor
tpce_desc_set_write_32 d val = record d { write_address_low = val; write_address_high = 0 }

pub tpce_desc_set_write_64 : Descriptor → ℕ → Descriptor
tpce_desc_set_write_64 d val = record d {
  write_address_low = bit_and val 0xffffffff;
  write_address_high = u32 (val / 2 ^ 32);
}

pub tpce_desc_set_read_32 : Descriptor → ℕ → Descriptor
tpce_desc_set_read_32 d val = record d { read_address_low = val; read_address_high = 0 }

pub tpce_desc_set_read_64 : Descriptor → ℕ → Descriptor
tpce_desc_set_read_64 d val = record d {
  read_address_low = bit_and val 0xffffffff;
  read_address_high = u32 (val / 2 ^ 32);
}

pub tpce_desc_get_write : Descriptor → ℕ
tpce_desc_get_write d = bit_or (d.write_address_high * 2 ^ 32) d.write_address_low

pub tpce_desc_get_read : Descriptor → ℕ
tpce_desc_get_read d = bit_or (d.read_address_high * 2 ^ 32) d.read_address_low

pub get_transfer_length : TransferParams → ℕ → ℕ
get_transfer_length p bytes_in_page_rem =
    if ltb 0 p.bytes_per_descriptor
    then p.bytes_per_descriptor
    else min32 bytes_in_page_rem (channel_info p.channel).max_transfer

-- The body of the inner loop of `fill_addresses`: addresses and length of one descriptor.
pub set_addresses : TransferParams → ℕ → ℕ → ℕ → Descriptor → Descriptor
unfolding tpce_desc_set_read_32 tpce_desc_set_write_64 tpce_desc_set_read_64 tpce_desc_set_write_32
set_addresses p bus_addr device_addr len d =
    let ci = channel_info p.channel in
    let addressed =
      if p.direction == from_device
      then tpce_desc_set_write_64
          (tpce_desc_set_read_32 d (if ci.has_stream_read then 0 else device_addr)) bus_addr
      else tpce_desc_set_write_32 (tpce_desc_set_read_64 d bus_addr)
          (if ci.has_stream_write then 0 else device_addr) in
    record addressed { transfer_length = len }

-- The variables of `fill_addresses` that outlive a range, and the buffer.
pub record Cursor : Type 0 where
  pub desc_idx : ℕ
  pub device_addr : ℕ
  pub bytes_rem : ℕ
  pub buf : ℕ → Descriptor

-- One round of the inner loop.
pub place : TransferParams → ℕ → ℕ → Cursor → Cursor
unfolding set_addresses
place p bus_addr len c = record {
  desc_idx = c.desc_idx + 1;
  device_addr = u32 (c.device_addr + len);
  bytes_rem = sub32 c.bytes_rem len;
  buf = update c.buf c.desc_idx (set_addresses p bus_addr c.device_addr len (c.buf c.desc_idx));
}

-- The inner loop, with `room` entries left in the buffer.
pub fill_range : ℕ → TransferParams → ℕ → ℕ → Cursor → Option Cursor
fill_range zero p bytes_in_page_rem bus_addr c = if bytes_in_page_rem == 0 then some c else none
fill_range (suc room) p bytes_in_page_rem bus_addr c =
    let len = get_transfer_length p bytes_in_page_rem in
    let rest =
      fill_range room p (sub32 bytes_in_page_rem len) (u64 (bus_addr + len))
        (place p bus_addr len c) in
    if bytes_in_page_rem == 0 then some c else rest

-- `tpce_dma_map_range_addr`
pub range_addr : SgEntry → ℕ
range_addr s = u64 (s.dma_address + s.offset)

-- The outer loop, over the ranges from the starting index on; `off` is the offset into the first.
pub fill_ranges : ℕ → TransferParams → ℕ → List SgEntry → ℕ → Cursor → Option Cursor
fill_ranges capacity p num [] off c =
    if ltb c.desc_idx num && ltb 0 c.bytes_rem then none else some c
fill_ranges capacity p num (s ∷ ss) off c =
    let filled =
      fill_range (capacity - c.desc_idx) p (min32 (sub32 s.dma_len off) c.bytes_rem)
        (u64 (range_addr s + off)) c in
    if ltb c.desc_idx num && ltb 0 c.bytes_rem
    then elim filled [ none ↦ none | some c' ↦ fill_ranges capacity p num ss 0 c' ]
    else some c

pub fill_addresses :
    TransferParams → MapInfo → ℕ → (ℕ → Descriptor) → Plan → Option (ℕ → Descriptor)
fill_addresses p m capacity buf plan =
    let start : Cursor = record {
      desc_idx = 0;
      device_addr = p.device_addr;
      bytes_rem = p.bytes_total;
      buf = buf;
    } in
    elim (fill_ranges capacity p plan.num_descriptors (drop plan.starting_idx m.sgt)
      plan.starting_offset start) [ none ↦ none | some c ↦ some c.buf ]
