-- ===== src/Request/Legacy/Examples.antt =====
-- Older requests at concrete values: one that goes around the end of its block, and two that do not
-- start on a multiple of 8 bytes.
use tpce2drv.Prelude.{◌+◌, ◌-◌, ◌≡◌, leb, ltb, ◌&&◌, if◌then◌else◌, refl, arith, false, none, some}
use tpce2drv.Request.Legacy.{
  DataRead, plan_read, plan_straight, plan_split, plan_block, rolls_over, block_mask, ch_addr,
}
use tpce2drv.Request.Legacy.Delivered.{
  IsRequest, block_byte, nothing, deliver, brings, plan_read-delivers,
}
use tpce2drv.Request.Legacy.Short.{plan_read-short}

-- 24 bytes, of which the first 8 are the last ones of the block
abbrev around_end : DataRead
around_end = record {
  address = 1020;
  input = 1;
  dma_channel = 1;
  mux8_channel_en = 0;
  next_address = 1;
  addr_block_size = 1024;
  addr_block_nr = 3;
  count = 24;
  data_ptr = 5000;
  burst_count = 0;
}

around_end-IsRequest : IsRequest around_end 10
around_end-IsRequest = record {
  block = refl;
  large = (omega arith, omega arith);
  channel = omega arith;
  input = omega arith;
  share = omega arith;
  in_word = omega arith;
  each = refl;
  first = refl;
  whole = refl;
  short = omega arith;
}

plan_read-delivers_example :
    (deliver (plan_read around_end) nothing).user 5010
    ≡ (if leb 5000 5010 && ltb 5010 (5000 + 24) then some (1, block_byte around_end 10) else none)
plan_read-delivers_example = plan_read-delivers around_end 10 nothing 5010 around_end-IsRequest

-- The byte is one from the start of the block.
around_byte : block_byte around_end 10 ≡ 0x50001802
around_byte = refl

-- 15 bytes from 6 bytes after a multiple of 8
abbrev late_start : DataRead
late_start = record around_end { address = 3; count = 15 }

same_block : rolls_over late_start ≡ false
unfolding rolls_over block_mask
same_block = refl

plan_read-short_example : (deliver (plan_read late_start) nothing).user (5000 + (15 - 1)) ≡ none
plan_read-short_example =
    plan_read-short late_start refl same_block (omega arith, omega arith) (omega arith)

-- Around the end of the block, from 2 bytes after a multiple of 8: the first byte is not the one asked
-- for, but the one 2 bytes before it.
abbrev late_around : DataRead
late_around = record around_end { address = 1021 }

late_around_byte :
    ((deliver (plan_read late_around) nothing).user 5000 ≡ some (1, 0x50001ff8))
    × (block_byte late_around 0 ≡ 0x50001ffa)
unfolding deliver brings plan_read plan_straight plan_split plan_block rolls_over block_mask ch_addr
late_around_byte = (refl, refl)
