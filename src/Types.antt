-- ===== src/Types.antt =====
-- The data types that the parts of the driver share: linux/tpce_public.h, linux/altera_msgdma.h,
-- linux/tpce.h and linux/dma_descriptors.h. A field of an unsigned type is a number; where its width
-- matters the wrap-around is written out. A nullable pointer is an `Option`, or a `Bool` where the
-- code only tests it.
use tpce2drv.Prelude.{ℕ, zero, suc, ◌*◌, Bool, true, false, Option, List, ℤ}

-- `alt_msgdma_prefetcher_extended_descriptor`, less its reserved words
pub record Descriptor : Type 0 where
  pub read_address_low : ℕ
  pub write_address_low : ℕ
  pub transfer_length : ℕ
  pub next_desc_ptr_low : ℕ
  pub bytes_transfered : ℕ
  pub status : ℕ
  pub sequence_number : ℕ
  pub read_burst_count : ℕ
  pub write_burst_count : ℕ
  pub read_stride : ℕ
  pub write_stride : ℕ
  pub read_address_high : ℕ
  pub write_address_high : ℕ
  pub next_desc_ptr_high : ℕ
  pub control : ℕ

-- What `memset(…, 0, …)` leaves.
abbrev pub zero_descriptor : Descriptor
zero_descriptor = record {
  read_address_low = 0;
  write_address_low = 0;
  transfer_length = 0;
  next_desc_ptr_low = 0;
  bytes_transfered = 0;
  status = 0;
  sequence_number = 0;
  read_burst_count = 0;
  write_burst_count = 0;
  read_stride = 0;
  write_stride = 0;
  read_address_high = 0;
  write_address_high = 0;
  next_desc_ptr_high = 0;
  control = 0;
}

-- sizeof(tpce_dma_descriptor): the packed fields are 64 bytes.
abbrev pub descriptor_size : ℕ
descriptor_size = 64

-- `tpce_dma_transfer_params`
pub record TransferParams : Type 0 where
  pub map_offset : ℕ
  pub device_addr : ℕ
  pub bytes_total : ℕ
  pub bytes_per_descriptor : ℕ
  pub read_stride : ℕ
  pub write_stride : ℕ
  pub channel : ℕ
  pub transfer_mode : ℕ
  pub direction : ℕ
  pub interrupt_interval : ℕ
  pub burst_count : ℕ

abbrev pub zero_params : TransferParams
zero_params = record {
  map_offset = 0;
  device_addr = 0;
  bytes_total = 0;
  bytes_per_descriptor = 0;
  read_stride = 0;
  write_stride = 0;
  channel = 0;
  transfer_mode = 0;
  direction = 0;
  interrupt_interval = 0;
  burst_count = 0;
}

-- `tpce_dma_direction_t`, with the values of the kernel's own enumeration
abbrev pub bidirectional : ℕ
bidirectional = 0

abbrev pub to_device : ℕ
to_device = 1

abbrev pub from_device : ℕ
from_device = 2

-- `tpce_dma_mode_t`
abbrev pub mode_default : ℕ
mode_default = 0

abbrev pub mode_stream : ℕ
mode_stream = 1

-- TPCE_DMA_NUM_CHANNELS
abbrev pub num_channels : ℕ
num_channels = 3

-- An entry of the mapped scatter-gather table: `sg_dma_address`, `sg_dma_len` and `offset`.
pub record SgEntry : Type 0 where
  pub dma_address : ℕ
  pub dma_len : ℕ
  pub offset : ℕ

-- `tpce_dma_map_info`. A file context is known by a number; the two buffer pointers only by whether
-- they are null.
pub record MapInfo : Type 0 where
  pub owner : Option ℕ
  pub buf_usr : Bool
  pub buf_drv : Bool
  pub id : ℕ
  pub size : ℕ
  pub num_pages : ℕ
  pub direction : ℕ
  pub active_channel : ℤ
  pub sgt : List SgEntry

-- `tpce_dma_channel_info`
pub record ChannelInfo : Type 0 where
  pub data_width : ℕ
  pub max_transfer : ℕ
  pub max_stride : ℕ
  pub max_burst : ℕ
  pub has_stream_read : Bool
  pub has_stream_write : Bool

-- `tpce_dma_channel_info_table`; every caller has checked that the index is below 3.
abbrev pub channel_info : ℕ → ChannelInfo
channel_info zero = record {
  data_width = 8;
  max_transfer = 256 * 1024;
  max_burst = 32;
  max_stride = 0;
  has_stream_read = false;
  has_stream_write = false;
}
channel_info (suc zero) = record {
  data_width = 2;
  max_transfer = 256 * 1024;
  max_burst = 0;
  max_stride = 32768;
  has_stream_read = false;
  has_stream_write = false;
}
channel_info (suc (suc n)) = record {
  data_width = 8;
  max_transfer = 256 * 1024;
  max_burst = 32;
  max_stride = 0;
  has_stream_read = true;
  has_stream_write = false;
}
