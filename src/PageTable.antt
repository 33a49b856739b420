-- ===== src/PageTable.antt =====
-- linux/altera_pcie.h: the driver's copy of the PCIe address translation table. A slot maps a
-- 256 KiB page of the device's 32-bit bus onto a page of the host's 64-bit bus. The two arrays are
-- maps from slots; a write that the source makes before the table sets `out_of_bounds`. In `tpce_dev` the
-- word there is the head of `dma_mappings`: once the flag is set, what `dma_mappings` holds is unknown.
pub mod Mask
pub mod Slots
pub mod Laws
pub mod Find
pub mod Room
pub mod Translate
mod Examples
use tpce2drv.Prelude.{
  ℕ, zero, suc, ◌+◌, ◌-◌, ◌*◌, ◌/◌, ◌%◌, ◌^◌, ◌==◌, leb, ltb, if◌then◌else◌, Bool, true, false, not,
  ◌&&◌, ◌||◌, ℤ, pos, negsuc, bit_and, bit_or, u16, u32, update,
}

-- ALTERA_ADDR_PAGE_TABLE_SIZE
abbrev pub table_size : ℕ
table_size = 16

-- UINT8_MAX, which stands for every channel
abbrev pub any_channel : ℕ
any_channel = 255

-- ALTERA_ADDR_PAGE_SIZE_BYTES
abbrev pub page_bytes : ℕ
page_bytes = 2 ^ 18

-- ALTERA_ADDR_TRANSLATION_MASK_64 and ALTERA_ADDR_TRANSLATION_MASK
abbrev pub translation_mask_64 : ℕ
translation_mask_64 = 0xfffffffffffc0000

abbrev pub translation_mask : ℕ
translation_mask = 0xfffc0000

pub record PageTable : Type 0 where
  pub pages : ℕ → ℕ
  pub active_channel : ℕ → ℕ
  pub used_mask : ℕ
  pub out_of_bounds : Bool

-- The table of a device that `kzalloc` has just cleared.
abbrev pub empty_table : PageTable
empty_table = record {
  pages = λ _. 0;
  active_channel = λ _. 0;
  used_mask = 0;
  out_of_bounds = false;
}

-- The number of zero digits below the lowest one of `x`, which has `n` digits.
unfoldable pub trailing_zeros : ℕ → ℕ → ℕ
trailing_zeros zero x = 0
trailing_zeros (suc n) x = if x % 2 == 1 then 0 else suc (trailing_zeros n (x / 2))

-- `__builtin_ffs` on 16 digits
unfoldable pub ffs : ℕ → ℕ
unfolding trailing_zeros
ffs x = if x == 0 then 0 else suc (trailing_zeros 16 x)

-- `find_first_zero_u16`, as GCC and Clang compile it
unfoldable pub find_first_zero_u16 : ℕ → ℤ
unfolding ffs
find_first_zero_u16 mask =
    let inverted = u16 (2 ^ 16 - 1 - mask) in
    if inverted == 0 then negsuc 0 else pos (ffs inverted - 1)

-- One test of the portable fallback: skip the low `k` digits if they are all zero.
pub skip_zeros : ℕ → ℕ × ℕ → ℕ × ℕ
skip_zeros k (n, x) = if bit_and x (2 ^ k - 1) == 0 then (n + k, x / 2 ^ k) else (n, x)

-- `find_first_zero_u16`, the fallback of other compilers
pub find_first_zero_portable : ℕ → ℤ
unfolding skip_zeros
find_first_zero_portable mask =
    let inverted = u16 (2 ^ 16 - 1 - mask) in
    let (n, x) = skip_zeros 2 (skip_zeros 4 (skip_zeros 8 (0, inverted))) in
    if inverted == 0 then negsuc 0 else pos (if bit_and x 1 == 0 then n + 1 else n)

-- `table->used_mask & (1u << slot)`
unfoldable pub is_used : PageTable → ℕ → Bool
is_used t slot = not (bit_and t.used_mask (2 ^ slot) == 0)

-- The writes of `pcie_page_alloc` once a slot is known. The guard of the source is `slot >= 16`, so
-- for -1 `pages[-1]` falls outside of the table and `active_channel[-1]` onto the last byte of `pages[15]`;
-- `(uint16_t)(1 << -1)` adds no digit to the mask.
unfoldable pub fill_slot : PageTable → ℕ → ℕ → ℤ → PageTable × ℤ
fill_slot t value channel (negsuc n) = (
  record t {
    pages = update t.pages 15 (t.pages 15 % 2 ^ 56 + channel % 2 ^ 8 * 2 ^ 56);
    out_of_bounds = true;
  },
  negsuc n,
)
fill_slot t value channel (pos slot) = if leb 16 slot then (t, negsuc 0) else (
  record t {
    pages = update t.pages slot value;
    active_channel = update t.active_channel slot channel;
    used_mask = bit_or t.used_mask (2 ^ slot);
  },
  pos slot,
)

unfoldable pub pcie_page_alloc : PageTable → ℕ → ℕ → PageTable × ℤ
unfolding fill_slot
pcie_page_alloc t value channel = fill_slot t value channel (find_first_zero_u16 t.used_mask)

-- `pcie_page_free`; a double free only warns.
pub pcie_page_free : PageTable → ℤ → PageTable
pcie_page_free t (negsuc n) = t
pcie_page_free t (pos slot) = if leb table_size slot then t else record t {
  pages = update t.pages slot 0;
  active_channel = update t.active_channel slot 0;
  used_mask = bit_and t.used_mask (2 ^ 16 - 1 - 2 ^ slot);
}

-- The two `continue` tests that the loops over the slots share.
unfoldable pub slot_matches : PageTable → ℕ → ℕ → Bool
unfolding is_used
slot_matches t channel slot =
    is_used t slot && (channel == any_channel || t.active_channel slot == channel)

-- The loop of `pcie_page_free_by_channel_id`: `left` slots from `slot` on.
pub free_slots : ℕ → ℕ → PageTable → ℕ → PageTable
free_slots zero slot t channel = t
free_slots (suc left) slot t channel =
    free_slots left (slot + 1)
      (if slot_matches t channel slot then pcie_page_free t (pos slot) else t) channel

pub pcie_page_free_by_channel_id : PageTable → ℕ → PageTable
pcie_page_free_by_channel_id t channel = free_slots table_size 0 t channel

-- The loop of `pcie_page_find_value`
unfoldable pub find_slot : ℕ → ℕ → PageTable → ℕ → ℕ → ℤ
find_slot zero slot t value channel = negsuc 0
find_slot (suc left) slot t value channel =
    let rest = find_slot left (slot + 1) t value channel in
    if slot_matches t channel slot && t.pages slot == value then pos slot else rest

unfoldable pub pcie_page_find_value : PageTable → ℕ → ℕ → ℤ
pcie_page_find_value t value channel = find_slot table_size 0 t value channel

abbrev pub pcie_page_active : PageTable → ℕ → ℕ → Bool
unfolding is_used
pcie_page_active t slot channel = is_used t slot && t.active_channel slot == channel

-- `pcie_translate_addr_64`; the guard lets slot 16 pass.
pub pcie_translate_addr_64 : ℕ → ℤ → ℕ
pcie_translate_addr_64 bus_addr (negsuc n) = 0
pcie_translate_addr_64 bus_addr (pos slot) =
    if ltb table_size slot
    then 0
    else bit_or (u32 (slot * 2 ^ 18)) (u32 (bit_and bus_addr (2 ^ 64 - 1 - translation_mask_64)))

pub pcie_translate_addr_32 : ℕ → ℤ → ℕ
pcie_translate_addr_32 bus_addr_lo (negsuc n) = 0
pcie_translate_addr_32 bus_addr_lo (pos slot) =
    if ltb table_size slot
    then 0
    else bit_or (u32 (slot * 2 ^ 18)) (u32 (bit_and bus_addr_lo (2 ^ 32 - 1 - translation_mask)))
