-- ===== src/Descriptors.antt =====
-- linux/dma_descriptors.c and .h: sizes, plans and the fields of the descriptors of one transfer.
-- TPCE_ASSERT only warns in the kernel, so it changes nothing and is left out.
pub mod Gcd
pub mod Params
pub mod Span
pub mod Fill
pub mod Memory
mod Examples
use mathlib.Core.Logic.{dite}
use mathlib.Core.WellFounded.{Acc}
use native.Mathlib.Decide.{dec_lt}
use tpce2drv.Prelude.{
  ℕ, zero, suc, ◌+◌, ◌-◌, ◌*◌, ◌/◌, ◌%◌, ◌^◌, ◌<◌, ◌==◌, leb, ltb, if◌then◌else◌, Bool, true, false,
  not, ◌&&◌, ◌||◌, List, [], ◌∷◌, Option, none, some, length, bit_and, bit_or, u8, u16, u32, u64,
  sub32, arith, lt_wf, update, drop,
}
use tpce2drv.Types.{
  Descriptor, TransferParams, SgEntry, MapInfo, ChannelInfo, channel_info, bidirectional, to_device,
  from_device, mode_default, mode_stream, num_channels,
}

-- TPCE_MIN
abbrev pub min32 : ℕ → ℕ → ℕ
min32 a b = if ltb b a then b else a

-- TPCE_DIV_ROUND_UP on uint32_t
abbrev pub div_round_up : ℕ → ℕ → ℕ
div_round_up n d = u32 (n + d - 1) / d

-- The loop of `gcd`; `a % b < b` lets it end.
pub gcd_loop : (a b : ℕ) → Acc ◌<◌ b → ℕ
gcd_loop a b (Acc.intro _ smaller) =
    dite (dec_lt 0 b) (λ h. gcd_loop b (a % b) (smaller (a % b) (omega arith))) (λ _. a)

pub gcd : ℕ → ℕ → ℕ
unfolding gcd_loop lt_wf dec_lt
gcd a b = gcd_loop a b (lt_wf.apply b)

-- The loop of `gcd_dma_page_sizes` over the entries from the second on.
pub gcd_sizes : ℕ → ℕ → List SgEntry → ℕ
gcd_sizes res prev [] = res
gcd_sizes res prev (s ∷ ss) =
    gcd_sizes (if prev == s.dma_len then res else gcd res s.dma_len) s.dma_len ss

gcd_of_sizes : List SgEntry → ℕ
gcd_of_sizes [] = 0
gcd_of_sizes (s ∷ ss) = gcd_sizes s.dma_len s.dma_len ss

pub gcd_dma_page_sizes : MapInfo → ℕ
unfolding gcd_of_sizes
gcd_dma_page_sizes m = gcd_of_sizes m.sgt

-- `descriptor_plan`
pub record Plan : Type 0 where
  pub gcd_page_sizes : ℕ
  pub num_descriptors : ℕ
  pub starting_idx : ℕ
  pub starting_offset : ℕ

-- The first loop of `create_descriptor_plan`: skip the ranges before the offset.
pub find_offset : List SgEntry → ℕ → ℕ → ℕ × ℕ
find_offset [] off_rem off_idx = (off_idx, off_rem)
find_offset (s ∷ ss) off_rem off_idx =
    let rest = find_offset ss (off_rem - s.dma_len) (off_idx + 1) in
    if leb s.dma_len off_rem then rest else (off_idx, off_rem)

-- The second loop: the descriptors of each range, `off` bytes into the first one.
abbrev pub count_descriptors : ℕ → List SgEntry → ℕ → ℕ → ℕ → ℕ
count_descriptors max_transfer [] off bytes_rem num_desc = num_desc
count_descriptors max_transfer (s ∷ ss) off bytes_rem num_desc =
    let page_bytes = min32 bytes_rem (sub32 s.dma_len off) in
    let rest =
      count_descriptors max_transfer ss 0 (bytes_rem - page_bytes)
        (u32 (num_desc + div_round_up page_bytes max_transfer)) in
    if bytes_rem == 0 then num_desc else rest

abbrev pub create_descriptor_plan : MapInfo → TransferParams → Plan
create_descriptor_plan m p =
    let (off_idx, off_rem) = find_offset m.sgt p.map_offset 0 in
    let flexible =
      count_descriptors (channel_info p.channel).max_transfer (drop off_idx m.sgt) off_rem
        p.bytes_total 0 in
    if length m.sgt == 0
    then record { gcd_page_sizes = 0; num_descriptors = 0; starting_idx = 0; starting_offset = 0 }
    else record {
      gcd_page_sizes = gcd_dma_page_sizes m;
      num_descriptors =
          if p.bytes_per_descriptor == 0 then flexible else p.bytes_total / p.bytes_per_descriptor;
      starting_idx = off_idx;
      starting_offset = off_rem;
    }

pub valid_direction : ℕ → MapInfo → Bool
valid_direction dir m =
    (dir == from_device || dir == to_device) && (m.direction == bidirectional || m.direction == dir)

pub valid_channel : ℕ → Bool
valid_channel ch = ltb ch num_channels

-- PAGE_SIZE of the kernel; the sum is an `unsigned long`, so it does not wrap at 32 bits.
abbrev pub page_size : ℕ
page_size = 4096

abbrev pub tpce_max_descriptors_needed : TransferParams → ℕ
tpce_max_descriptors_needed p =
    let ndesc =
      if ltb 0 p.bytes_per_descriptor
      then p.bytes_total / p.bytes_per_descriptor
      else u32 ((p.bytes_total + page_size - 1) / page_size) in
    if p.transfer_mode == mode_default then u32 (ndesc + 1) else ndesc
