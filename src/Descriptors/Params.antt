-- ===== src/Descriptors/Params.antt =====
-- linux/dma_descriptors.c: the check of a transfer's parameters and the two sets of defaults.
pub mod Accepted
pub mod Defaults
use tpce2drv.Prelude.{
  ℕ, ◌+◌, ◌-◌, ◌*◌, ◌/◌, ◌%◌, ◌^◌, ◌<◌, ◌==◌, leb, ltb, if◌then◌else◌, Bool, true, false, not, ◌&&◌,
  ◌||◌, Option, none, some, length, bit_or, u32,
}
use tpce2drv.Types.{
  TransferParams, zero_params, MapInfo, ChannelInfo, channel_info, from_device, mode_default,
  mode_stream,
}
use tpce2drv.Descriptors.{gcd_dma_page_sizes, valid_direction, valid_channel}

-- `tpce_dma_err_t`
pub data DmaErr : Type 0 where
  null_ptr invalid_chn desc_buf invalid_desc other : DmaErr

-- What `tpce_validate_dma_params` returns: a negative code, or the set of wrong parameters as one
-- digit for each, in the order of `tpce_dma_param_flags_t`.
pub data ParamCheck : Type 0 where
  failed : DmaErr → ParamCheck
  flags : ℕ → ParamCheck

-- `if (wrong) res |= flag;`
pub mark : Bool → ℕ → ℕ → ℕ
mark wrong flag res = if wrong then bit_or res flag else res

-- TPCE_MAX
abbrev pub max32 : ℕ → ℕ → ℕ
max32 a b = if ltb b a then a else b

-- The tests of `tpce_validate_dma_params`, one for each parameter. The sum of offset and size is a
-- uint32_t.
pub wrong_map_offset : TransferParams → MapInfo → Bool
wrong_map_offset p m =
    ltb m.size p.map_offset || not (p.map_offset % (channel_info p.channel).data_width == 0)

pub wrong_device_addr : TransferParams → Bool
wrong_device_addr p = not (p.device_addr % (channel_info p.channel).data_width == 0)

pub wrong_bytes_total : TransferParams → MapInfo → Bool
wrong_bytes_total p m =
    not (p.bytes_total % (channel_info p.channel).data_width == 0)
    || ltb m.size (u32 (p.bytes_total + p.map_offset))

pub wrong_bytes_per_descriptor : TransferParams → MapInfo → Bool
wrong_bytes_per_descriptor p m =
    ltb 0 p.bytes_per_descriptor
    && (not (p.bytes_per_descriptor % (channel_info p.channel).data_width == 0)
        || ltb (channel_info p.channel).max_transfer p.bytes_per_descriptor
        || not (gcd_dma_page_sizes m % p.bytes_per_descriptor == 0))

pub wrong_strides : TransferParams → Bool
wrong_strides p = ltb (channel_info p.channel).max_stride (max32 p.read_stride p.write_stride)

pub wrong_transfer_mode : TransferParams → Bool
wrong_transfer_mode p =
    not (p.transfer_mode == mode_default) && not (p.transfer_mode == mode_stream)

pub wrong_interrupt_interval : TransferParams → MapInfo → Bool
wrong_interrupt_interval p m =
    let num_descriptors =
      if p.bytes_per_descriptor == 0
      then length m.sgt
      else p.bytes_total / p.bytes_per_descriptor in
    ltb 0 p.interrupt_interval && not (num_descriptors % p.interrupt_interval == 0)

pub wrong_burst_count : TransferParams → Bool
wrong_burst_count p = ltb (channel_info p.channel).max_burst p.burst_count

-- The flags that the tests set, from TPCE_PARAM_MAP_OFFSET up.
pub param_flags : TransferParams → MapInfo → ℕ
unfolding mark
param_flags p m = mark (wrong_burst_count p) (2 ^ 8) (
    mark (wrong_interrupt_interval p m) (2 ^ 7) (
      mark (not (valid_direction p.direction m)) (2 ^ 6) (
        mark (wrong_transfer_mode p) (2 ^ 5) (
          mark (wrong_strides p) (2 ^ 4) (
            mark (wrong_bytes_per_descriptor p m) (2 ^ 3) (
              mark (wrong_bytes_total p m) (2 ^ 2)
                (mark (wrong_device_addr p) (2 ^ 1) (mark (wrong_map_offset p m) (2 ^ 0) 0))))))))

pub tpce_validate_dma_params : Option TransferParams → Option MapInfo → ParamCheck
tpce_validate_dma_params none m = failed null_ptr
tpce_validate_dma_params (some p) none = failed null_ptr
tpce_validate_dma_params (some p) (some m) =
    if valid_channel p.channel then flags (param_flags p m) else failed invalid_chn

-- The parameters that the two functions below share.
pub whole_mapping : MapInfo → ℕ → TransferParams
whole_mapping m ch =
    let stride = if (channel_info ch).max_stride == 0 then 0 else 1 in
    record zero_params {
      bytes_total = m.size;
      read_stride = stride;
      write_stride = stride;
      channel = ch;
      direction = from_device;
      burst_count = (channel_info ch).max_burst;
    }

-- What a function that fills `*params` returns: the error, or the parameters.
pub data Filled : Type 0 where
  refused : DmaErr → Filled
  filled : TransferParams → Filled

-- The source warns if the parameters do not pass `tpce_validate_dma_params`, and returns 0.
abbrev pub tpce_fill_default_dma_params : Option MapInfo → ℕ → Filled
unfolding whole_mapping
tpce_fill_default_dma_params none ch = refused null_ptr
tpce_fill_default_dma_params (some m) ch =
    if valid_channel ch then filled (whole_mapping m ch) else refused invalid_chn

abbrev pub tpce_fill_streaming_dma_params : Option MapInfo → ℕ → Filled
unfolding whole_mapping
tpce_fill_streaming_dma_params none ch = refused null_ptr
tpce_fill_streaming_dma_params (some m) ch =
    if valid_channel ch
    then filled (record (whole_mapping m ch) {
      bytes_per_descriptor = 1024;
      transfer_mode = mode_stream;
      interrupt_interval = 4;
    })
    else refused invalid_chn
