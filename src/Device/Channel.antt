-- ===== src/Device/Channel.antt =====
-- The number of a channel from the address of its record, and whether a mapping is in use.
use native.Mathlib.Nat.{mul-mod_right, mul-div_cancel}
use tpce2drv.Prelude.{
  ℕ, zero, suc, ◌+◌, ◌*◌, ◌%◌, ◌^◌, ◌<◌, leb, ◌≡◌, pos, negsuc, false, sub64, arith,
}
use tpce2drv.Types.{MapInfo}
use tpce2drv.Device.{tpce_dma_ch, mapping_is_busy}

mul-mod_left : (n m : ℕ) → n * m % m ≡ 0
mul-mod_left n m = ground (arith, mul-mod_right m n)

distance :
    (base size ch : ℕ)
    → 0 < size
    → ch < 3
    → base + 3 * size < 2 ^ 64
    → sub64 (base + ch * size) base ≡ ch * size
distance base size zero h c w = omega arith
distance base size (suc zero) h c w = omega arith
distance base size (suc (suc zero)) h c w = omega arith
distance base size (suc (suc (suc n))) h c w = absurd (omega arith)

-- For the record of each channel of the array, wherever it lies, the number comes back.
pub dma_ch-element :
    (base size ch : ℕ)
    → 0 < size
    → ch < 3
    → base + 3 * size < 2 ^ 64
    → tpce_dma_ch base (base + ch * size) size ≡ pos ch
unfolding tpce_dma_ch
dma_ch-element base size ch h c w =
    let offset : sub64 (base + ch * size) base ≡ ch * size = distance base size ch h c w in
    rw (offset, mul-mod_left ch size, mul-div_cancel ch h) (ground arith)

-- A mapping counts as busy exactly while one of the channels 0 to 3 is noted in it; 3 is no channel.
pub is_busy-pos : (m : MapInfo) (ch : ℕ) → m.active_channel ≡ pos ch → mapping_is_busy m ≡ leb ch 3
unfolding mapping_is_busy
is_busy-pos m ch e = rw e (ground arith)

-- A negative number is no channel.
pub is_busy-negsuc : (m : MapInfo) (n : ℕ) → m.active_channel ≡ negsuc n → mapping_is_busy m ≡ false
unfolding mapping_is_busy
is_busy-negsuc m n e = rw e (ground arith)
