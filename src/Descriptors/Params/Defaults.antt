-- ===== src/Descriptors/Params/Defaults.antt =====
-- linux/dma_descriptors.c: the two sets of defaults against the check of parameters.
use tpce2drv.Prelude.{
  ℕ, zero, suc, ◌%◌, ◌^◌, ◌<◌, ◌≤◌, ◌==◌, if◌then◌else◌, ◌≡◌, ◌⊎◌, true, false, refl, inl, inr,
  some, arith,
}
use tpce2drv.Types.{MapInfo, channel_info, from_device, bidirectional, mode_stream}
use tpce2drv.Descriptors.{gcd_dma_page_sizes, valid_channel}
use tpce2drv.Descriptors.Params.{
  flags, tpce_validate_dma_params, whole_mapping, Filled, refused, filled,
  tpce_fill_default_dma_params, tpce_fill_streaming_dma_params,
}
use tpce2drv.Descriptors.Params.Accepted.{IsAccepted, validate_iff}

-- The parameters are there, and the check accepts them.
unfoldable pub IsUsable : MapInfo → Filled → Type 0
IsUsable m (refused e) = false ≡ true
IsUsable m (filled p) = tpce_validate_dma_params (some p) (some m) ≡ flags 0

-- A mapping that the channel can use as a whole
pub record IsWhole (m : MapInfo) (ch : ℕ) : Type 0 where
  pub known : ch < 3
  pub short : m.size < 2 ^ 32
  pub aligned : m.size % (channel_info ch).data_width ≡ 0
  pub receives : (m.direction ≡ bidirectional) ⊎ (m.direction ≡ from_device)

strides_fit :
    (ch : ℕ) → (if (channel_info ch).max_stride == 0 then 0 else 1) ≤ (channel_info ch).max_stride
strides_fit zero = omega arith
strides_fit (suc zero) = omega arith
strides_fit (suc (suc n)) = omega arith

zero_aligned : (ch : ℕ) → 0 % (channel_info ch).data_width ≡ 0
zero_aligned zero = refl
zero_aligned (suc zero) = refl
zero_aligned (suc (suc n)) = refl

default-IsAccepted : (m : MapInfo) (ch : ℕ) → IsWhole m ch → IsAccepted (whole_mapping m ch) m
unfolding whole_mapping
default-IsAccepted m ch w = record {
  channel = w.known;
  offset_in = omega arith;
  offset_aligned = zero_aligned ch;
  device_aligned = zero_aligned ch;
  total_aligned = w.aligned;
  total_in = omega (arith, w.short);
  per_descriptor = λ h. absurd (h refl);
  strides = (strides_fit ch, strides_fit ch);
  mode = inl refl;
  direction = (inl refl, w.receives);
  interval = λ h. absurd (h refl);
  burst = omega arith;
}

width_1024 :
    (ch : ℕ) → (1024 % (channel_info ch).data_width ≡ 0) × (1024 ≤ (channel_info ch).max_transfer)
width_1024 zero = (refl, omega arith)
width_1024 (suc zero) = (refl, omega arith)
width_1024 (suc (suc n)) = (refl, omega arith)

streaming-IsAccepted :
    (m : MapInfo) (ch : ℕ)
    → IsWhole m ch
    → gcd_dma_page_sizes m % 1024 ≡ 0
    → m.size % 4096 ≡ 0
    → IsAccepted
        (record (whole_mapping m ch) {
          bytes_per_descriptor = 1024;
          transfer_mode = mode_stream;
          interrupt_interval = 4;
        })
        m
unfolding whole_mapping
streaming-IsAccepted m ch w g s =
    let d = default-IsAccepted m ch w in
    record {
      channel = w.known;
      offset_in = omega arith;
      offset_aligned = zero_aligned ch;
      device_aligned = zero_aligned ch;
      total_aligned = w.aligned;
      total_in = omega (arith, w.short);
      per_descriptor = λ h. ((width_1024 ch).0, (width_1024 ch).1, g);
      strides = (strides_fit ch, strides_fit ch);
      mode = inr refl;
      direction = (inl refl, w.receives);
      interval = λ h. omega (arith, s);
      burst = omega arith;
    }

known_channel : (ch : ℕ) → ch < 3 → valid_channel ch ≡ true
unfolding valid_channel
known_channel ch h = ground (arith, h)

-- For a mapping below 4 GiB that receives data and whose size is a multiple of the width of the
-- channel, tpce_fill_default_dma_params fills in parameters that the check accepts.
pub fill_default-IsUsable :
    (m : MapInfo) (ch : ℕ) → IsWhole m ch → IsUsable m (tpce_fill_default_dma_params (some m) ch)
unfolding IsUsable tpce_fill_default_dma_params
fill_default-IsUsable m ch w =
    rw (known_channel ch w.known)
      ((validate_iff (whole_mapping m ch) m).1 (default-IsAccepted m ch w))

-- The same of tpce_fill_streaming_dma_params, if besides each range is made of whole descriptors of
-- 1024 bytes and the size is a multiple of 4096.
pub fill_streaming-IsUsable :
    (m : MapInfo) (ch : ℕ)
    → IsWhole m ch
    → gcd_dma_page_sizes m % 1024 ≡ 0
    → m.size % 4096 ≡ 0
    → IsUsable m (tpce_fill_streaming_dma_params (some m) ch)
unfolding IsUsable tpce_fill_streaming_dma_params
fill_streaming-IsUsable m ch w g s =
    rw (known_channel ch w.known) ((validate_iff _ m).1 (streaming-IsAccepted m ch w g s))
