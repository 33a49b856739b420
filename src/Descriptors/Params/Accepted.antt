-- ===== src/Descriptors/Params/Accepted.antt =====
-- Which parameters `tpce_validate_dma_params` accepts, and what its flags mean.
use tpce2drv.Prelude.{
  ℕ, ◌+◌, ◌/◌, ◌%◌, ◌^◌, ◌≤◌, ◌<◌, ◌==◌, ltb, if◌then◌else◌, ◌≡◌, ◌≢◌, ◌⊎◌, ◌↔◌, refl, Bool, true,
  false, not, ◌&&◌, ◌||◌, some, length, u32, arith,
}
use tpce2drv.Prelude.Bits.{bit, bit-le, bit-bit_or}
use tpce2drv.Prelude.Bits.Masks.{bit-pow, bit-zero}
use tpce2drv.Types.{
  TransferParams, MapInfo, channel_info, from_device, to_device, bidirectional, mode_default,
  mode_stream,
}
use tpce2drv.Descriptors.{gcd_dma_page_sizes, valid_direction, valid_channel}
use tpce2drv.Descriptors.Params.{
  flags, mark, param_flags, tpce_validate_dma_params, wrong_map_offset, wrong_device_addr,
  wrong_bytes_total, wrong_bytes_per_descriptor, wrong_strides, wrong_transfer_mode,
  wrong_interrupt_interval, wrong_burst_count,
}

abbrev digit : Bool → ℕ
digit b = if b then 1 else 0

bit-mark : (w : Bool) (k r j : ℕ) → bit (mark w (2 ^ k) r) j ≡ (if j == k && w then 1 else bit r j)
unfolding mark
bit-mark true k r j = rw (bit-bit_or r (2 ^ k) j, bit-pow k j) (ground (arith, bit-le r j))
bit-mark false k r j = ground arith

-- Each digit of the returned flags is one exactly if the test of its parameter fails.
pub param_flags-digits :
    (p : TransferParams) (m : MapInfo)
    → (bit (param_flags p m) 0 ≡ digit (wrong_map_offset p m))
      × (bit (param_flags p m) 1 ≡ digit (wrong_device_addr p))
      × (bit (param_flags p m) 2 ≡ digit (wrong_bytes_total p m))
      × (bit (param_flags p m) 3 ≡ digit (wrong_bytes_per_descriptor p m))
      × (bit (param_flags p m) 4 ≡ digit (wrong_strides p))
      × (bit (param_flags p m) 5 ≡ digit (wrong_transfer_mode p))
      × (bit (param_flags p m) 6 ≡ digit (not (valid_direction p.direction m)))
      × (bit (param_flags p m) 7 ≡ digit (wrong_interrupt_interval p m))
      × (bit (param_flags p m) 8 ≡ digit (wrong_burst_count p))
unfolding param_flags
param_flags-digits p m =
    simp (bit-mark, bit-zero) (refl, refl, refl, refl, refl, refl, refl, refl, refl)

-- The parameters that pass, in terms of the channel's properties and the mapping.
pub record IsAccepted (p : TransferParams) (m : MapInfo) : Type 0 where
  pub channel : p.channel < 3
  pub offset_in : p.map_offset ≤ m.size
  pub offset_aligned : p.map_offset % (channel_info p.channel).data_width ≡ 0
  pub device_aligned : p.device_addr % (channel_info p.channel).data_width ≡ 0
  pub total_aligned : p.bytes_total % (channel_info p.channel).data_width ≡ 0
  pub total_in : u32 (p.bytes_total + p.map_offset) ≤ m.size
  pub per_descriptor :
      p.bytes_per_descriptor ≢ 0
      → (p.bytes_per_descriptor % (channel_info p.channel).data_width ≡ 0)
        × (p.bytes_per_descriptor ≤ (channel_info p.channel).max_transfer)
        × (gcd_dma_page_sizes m % p.bytes_per_descriptor ≡ 0)
  pub strides :
      (p.read_stride ≤ (channel_info p.channel).max_stride)
      × (p.write_stride ≤ (channel_info p.channel).max_stride)
  pub mode : (p.transfer_mode ≡ mode_default) ⊎ (p.transfer_mode ≡ mode_stream)
  pub direction :
      ((p.direction ≡ from_device) ⊎ (p.direction ≡ to_device))
      × ((m.direction ≡ bidirectional) ⊎ (m.direction ≡ p.direction))
  pub interval :
      p.interrupt_interval ≢ 0
      → (if p.bytes_per_descriptor == 0
            then length m.sgt
            else p.bytes_total / p.bytes_per_descriptor)
          % p.interrupt_interval
        ≡ 0
  pub burst : p.burst_count ≤ (channel_info p.channel).max_burst

-- No test fails.
record NoneWrong (p : TransferParams) (m : MapInfo) : Type 0 where
  w0 : wrong_map_offset p m ≡ false
  w1 : wrong_device_addr p ≡ false
  w2 : wrong_bytes_total p m ≡ false
  w3 : wrong_bytes_per_descriptor p m ≡ false
  w4 : wrong_strides p ≡ false
  w5 : wrong_transfer_mode p ≡ false
  w6 : valid_direction p.direction m ≡ true
  w7 : wrong_interrupt_interval p m ≡ false
  w8 : wrong_burst_count p ≡ false

NoneWrong-of_zero : (p : TransferParams) (m : MapInfo) → param_flags p m ≡ 0 → NoneWrong p m
NoneWrong-of_zero p m e = record {
  w0 = ground (arith, d.0, z 0);
  w1 = ground (arith, d.1, z 1);
  w2 = ground (arith, d.2, z 2);
  w3 = ground (arith, d.3, z 3);
  w4 = ground (arith, d.4, z 4);
  w5 = ground (arith, d.5, z 5);
  w6 = ground (arith, d.6, z 6);
  w7 = ground (arith, d.7, z 7);
  w8 = ground (arith, d.8, z 8);
}
  where
    z : (k : ℕ) → bit (param_flags p m) k ≡ 0
    z k = rw e (bit-zero k)

    d :
        (bit (param_flags p m) 0 ≡ digit (wrong_map_offset p m))
        × (bit (param_flags p m) 1 ≡ digit (wrong_device_addr p))
        × (bit (param_flags p m) 2 ≡ digit (wrong_bytes_total p m))
        × (bit (param_flags p m) 3 ≡ digit (wrong_bytes_per_descriptor p m))
        × (bit (param_flags p m) 4 ≡ digit (wrong_strides p))
        × (bit (param_flags p m) 5 ≡ digit (wrong_transfer_mode p))
        × (bit (param_flags p m) 6 ≡ digit (not (valid_direction p.direction m)))
        × (bit (param_flags p m) 7 ≡ digit (wrong_interrupt_interval p m))
        × (bit (param_flags p m) 8 ≡ digit (wrong_burst_count p))
    d = param_flags-digits p m

zero-of_NoneWrong : {p : TransferParams} {m : MapInfo} → NoneWrong p m → param_flags p m ≡ 0
unfolding param_flags
zero-of_NoneWrong n = rw (n.w0, n.w1, n.w2, n.w3, n.w4, n.w5, n.w6, n.w7, n.w8) refl

map_offset_iff :
    (p : TransferParams) (m : MapInfo)
    → (wrong_map_offset p m ≡ false)
      ↔ ((p.map_offset ≤ m.size) × (p.map_offset % (channel_info p.channel).data_width ≡ 0))
unfolding wrong_map_offset
map_offset_iff p m = ground arith

device_addr_iff :
    (p : TransferParams)
    → (wrong_device_addr p ≡ false) ↔ (p.device_addr % (channel_info p.channel).data_width ≡ 0)
unfolding wrong_device_addr
device_addr_iff p = ground arith

bytes_total_iff :
    (p : TransferParams) (m : MapInfo)
    → (wrong_bytes_total p m ≡ false) ↔ (
        (p.bytes_total % (channel_info p.channel).data_width ≡ 0)
        × (u32 (p.bytes_total + p.map_offset) ≤ m.size))
unfolding wrong_bytes_total
bytes_total_iff p m = ground arith

per_descriptor_test :
    (b w x g : ℕ)
    → ((ltb 0 b && (not (b % w == 0) || ltb x b || not (g % b == 0))) ≡ false)
      ↔ (b ≢ 0 → (b % w ≡ 0) × (b ≤ x) × (g % b ≡ 0))
per_descriptor_test b w x g = (λ e ne. ground arith, λ f. ground arith)

interval_test : (i n : ℕ) → ((ltb 0 i && not (n % i == 0)) ≡ false) ↔ (i ≢ 0 → n % i ≡ 0)
interval_test i n = (λ e ne. ground arith, λ f. ground arith)

mode_test :
    (t : ℕ)
    → ((not (t == mode_default) && not (t == mode_stream)) ≡ false)
      ↔ ((t ≡ mode_default) ⊎ (t ≡ mode_stream))
mode_test t = ground arith

direction_test :
    (d : ℕ) (m : MapInfo)
    → (valid_direction d m ≡ true) ↔ (
        ((d ≡ from_device) ⊎ (d ≡ to_device)) × ((m.direction ≡ bidirectional) ⊎ (m.direction ≡ d)))
unfolding valid_direction
direction_test d m = ground arith

burst_test : (b x : ℕ) → (ltb x b ≡ false) ↔ (b ≤ x)
burst_test b x = ground arith

strides_iff :
    (p : TransferParams)
    → (wrong_strides p ≡ false) ↔ (
        (p.read_stride ≤ (channel_info p.channel).max_stride)
        × (p.write_stride ≤ (channel_info p.channel).max_stride))
unfolding wrong_strides
strides_iff p = ground arith

IsAccepted-of_NoneWrong :
    {p : TransferParams} {m : MapInfo} → p.channel < 3 → NoneWrong p m → IsAccepted p m
unfolding wrong_bytes_per_descriptor wrong_transfer_mode wrong_interrupt_interval wrong_burst_count
IsAccepted-of_NoneWrong {p} {m} ch n = record {
  channel = ch;
  offset_in = ((map_offset_iff p m).0 n.w0).0;
  offset_aligned = ((map_offset_iff p m).0 n.w0).1;
  device_aligned = (device_addr_iff p).0 n.w1;
  total_aligned = ((bytes_total_iff p m).0 n.w2).0;
  total_in = ((bytes_total_iff p m).0 n.w2).1;
  per_descriptor = (per_descriptor_test _ _ _ _).0 n.w3;
  strides = (strides_iff p).0 n.w4;
  mode = (mode_test _).0 n.w5;
  direction = (direction_test _ m).0 n.w6;
  interval = (interval_test _ _).0 n.w7;
  burst = (burst_test _ _).0 n.w8;
}

NoneWrong-of_IsAccepted : {p : TransferParams} {m : MapInfo} → IsAccepted p m → NoneWrong p m
unfolding wrong_bytes_per_descriptor wrong_transfer_mode wrong_interrupt_interval wrong_burst_count
NoneWrong-of_IsAccepted {p} {m} a = record {
  w0 = (map_offset_iff p m).1 (a.offset_in, a.offset_aligned);
  w1 = (device_addr_iff p).1 a.device_aligned;
  w2 = (bytes_total_iff p m).1 (a.total_aligned, a.total_in);
  w3 = (per_descriptor_test _ _ _ _).1 a.per_descriptor;
  w4 = (strides_iff p).1 a.strides;
  w5 = (mode_test _).1 a.mode;
  w6 = (direction_test _ m).1 a.direction;
  w7 = (interval_test _ _).1 a.interval;
  w8 = (burst_test _ _).1 a.burst;
}

-- The check returns 0 exactly for the parameters that meet every condition of `IsAccepted`.
pub validate_iff :
    (p : TransferParams) (m : MapInfo)
    → (tpce_validate_dma_params (some p) (some m) ≡ flags 0) ↔ IsAccepted p m
unfolding tpce_validate_dma_params valid_channel
validate_iff p m = (
  λ e. IsAccepted-of_NoneWrong (ground arith) (NoneWrong-of_zero p m (ground arith)),
  λ a. ground (arith, a.channel, zero-of_NoneWrong (NoneWrong-of_IsAccepted a)),
)
