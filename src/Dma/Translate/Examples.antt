-- ===== src/Dma/Translate/Examples.antt =====
-- Two descriptors on two pages, translated once and then again with both pages in the table.
use tpce2drv.Prelude.{
  ◌⊎◌, some, ℕ, ◌≡◌, ◌≢◌, ◌/◌, ◌%◌, ◌^◌, ◌<◌, ◌≤◌, ◌==◌, if◌then◌else◌, refl, arith, false, pos,
  negsuc, Bool-cases, inl, inr,
}
use tpce2drv.Types.{Descriptor, zero_descriptor, zero_params, from_device, mode_stream}
use tpce2drv.Device.{Tpce, idle_info, initialized, failed, ok, enospc}
use tpce2drv.Dma.Start.Running.{IsReady, IsRunning}
use tpce2drv.Dma.Start.{start-IsRunning}
use tpce2drv.Dma.StreamStart.{stream_start-IsRunning}
use tpce2drv.Device.Sample.{sample_device}
use tpce2drv.PageTable.{
  empty_table, pcie_page_find_value, pcie_page_alloc, find_slot, slot_matches, is_used, fill_slot,
  find_first_zero_u16, ffs, trailing_zeros,
}
use tpce2drv.PageTable.Slots.{IsValid}
use tpce2drv.PageTable.Room.{room}
use tpce2drv.PageTable.Translate.{bridge}
use tpce2drv.Dma.{
  Translation, translate_one, translate_all, translate_descriptor_rw_addr, tpce_dma_start,
  tpce_dma_stream_start,
}
use tpce2drv.Dma.Translate.{write_address}
use tpce2drv.Dma.Translate.Round.{page_at}
use tpce2drv.Dma.Translate.Whole.{IsOrderly, Translated, translate_rw-Translated}
use tpce2drv.Dma.Translate.Stale.{IsEntered, translate_all-stale}

abbrev write_to : ℕ → Descriptor
write_to a = record zero_descriptor {
  write_address_low = a % 2 ^ 32;
  write_address_high = a / 2 ^ 32;
}

-- The first descriptor writes to another page than the others.
abbrev two_pages : ℕ → Descriptor
two_pages j = if j == 0 then write_to 0x300012345 else write_to 0x500000100

abbrev receiving : Tpce
receiving = record sample_device {
  dma_info = λ ch. record idle_info {
    params = record zero_params { channel = 2; direction = from_device };
    desc_active = 128;
  };
}

empty_table-IsValid : IsValid empty_table
empty_table-IsValid = record { mask16 = omega arith; in_bounds = refl }

two_pages-cases :
    (P : Descriptor → Type 0)
    → P (write_to 0x300012345)
    → P (write_to 0x500000100)
    → (j : ℕ) → P (two_pages j)
two_pages-cases P a b j = elim (Bool-cases (j == 0)) [ inl e ↦ rw e a | inr e ↦ rw e b ]

two_pages-IsOrderly : IsOrderly two_pages 2
two_pages-IsOrderly = record {
  wide = λ j lt. two_pages-cases (λ d. write_address d < 2 ^ 64) (omega arith) (omega arith) j;
  not_zero = λ j lt.
      two_pages-cases (λ d. page_at (write_address d) ≢ 0) (λ e. absurd (omega (arith, e)))
        (λ e. absurd (omega (arith, e))) j;
  contiguous = λ j k l a b c p. absurd (omega arith);
}

translate_rw-Translated_example :
    Translated receiving 2 two_pages 2
      (translate_descriptor_rw_addr receiving 2 two_pages (negsuc 0))
translate_rw-Translated_example =
    translate_rw-Translated receiving 2 two_pages (negsuc 0) (λ e. absurd (omega (arith, e)))
      empty_table-IsValid refl two_pages-IsOrderly

-- Both pages are in the table, and the second one was entered last.
abbrev both_entered : Translation
both_entered = record {
  table = record {
    pages = λ k. if k == 0 then 0x300000000 else 0x500000000;
    active_channel = λ _. 2;
    used_mask = 3;
    out_of_bounds = false;
  };
  buf = two_pages;
  curr_page = 0x500000000;
  slot = pos 1;
  used_entries = 2;
  full = false;
}

first-IsEntered : IsEntered both_entered.table 2 0x300000000
unfolding slot_matches is_used
first-IsEntered = record { slot = 0; below = omega arith; matches = refl; content = refl }

translate_all-stale_example :
    let s' = translate_all 2 0 2 both_entered in
    (bridge s'.table (s'.buf 1).write_address_low ≡ 0x300000100)
    × (bridge s'.table (s'.buf 1).write_address_low ≢ 0x500000100)
translate_all-stale_example =
    translate_all-stale 2 0 both_entered refl (omega arith) refl (λ e. absurd (omega (arith, e)))
      first-IsEntered

-- The loop reaches this state from an empty table.
entered_by_loop :
    let s' =
      translate_all 2 0 2
        (record both_entered { table = empty_table; curr_page = 0; slot = negsuc 0 }) in
    (s'.curr_page ≡ 0x500000000)
    × (s'.table.pages 0 ≡ 0x300000000)
    × (s'.table.pages 1 ≡ 0x500000000)
unfolding translate_all translate_one pcie_page_find_value find_slot slot_matches is_used
    pcie_page_alloc fill_slot find_first_zero_u16 ffs trailing_zeros
entered_by_loop = (refl, refl, refl)

-- The channel with its list of two descriptors and the one after them
abbrev ready_device : Tpce
ready_device = record sample_device {
  dma_info = λ ch. record idle_info {
    params = record zero_params { channel = 2; direction = from_device };
    desc_dma = some two_pages;
    desc_bus_addr = 0x700001000;
    desc_size = 192;
    desc_active = 128;
    state = initialized;
  };
}

ready_device-IsReady : IsReady ready_device 2 two_pages
ready_device-IsReady = record {
  state = refl;
  holds = refl;
  channel = omega arith;
  receives = refl;
  orderly = two_pages-IsOrderly;
  size = refl;
  wide = omega arith;
  one_page = omega arith;
}

start-IsRunning_example :
    let (t', r) = tpce_dma_start ready_device 2 (negsuc 0) in
    ((r ≡ failed enospc) × (room 16 ready_device.page_table ≤ 2))
    ⊎ ((r ≡ ok 0) × IsRunning ready_device t' 2 two_pages)
start-IsRunning_example =
    start-IsRunning ready_device 2 two_pages (negsuc 0) empty_table-IsValid ready_device-IsReady

-- A stream has no descriptor after the active ones.
abbrev ready_stream : Tpce
ready_stream = record sample_device {
  dma_info = λ ch. record (ready_device.dma_info ch) {
    params = record zero_params {
      channel = 2;
      direction = from_device;
      transfer_mode = mode_stream;
    };
    desc_size = 128;
  };
}

ready_stream-IsReady : IsReady ready_stream 2 two_pages
ready_stream-IsReady = record {
  state = refl;
  holds = refl;
  channel = omega arith;
  receives = refl;
  orderly = two_pages-IsOrderly;
  size = refl;
  wide = omega arith;
  one_page = omega arith;
}

stream_start-IsRunning_example :
    let (t', r) = tpce_dma_stream_start ready_stream 2 (negsuc 0) in
    ((r ≡ failed enospc) × (room 16 ready_stream.page_table ≤ 2))
    ⊎ ((r ≡ ok 0) × IsRunning ready_stream t' 2 two_pages)
stream_start-IsRunning_example =
    stream_start-IsRunning ready_stream 2 two_pages (negsuc 0) (omega arith) empty_table-IsValid
      ready_stream-IsReady
