-- ===== src/Device.antt =====
-- linux/tpce.h and linux/tpce_public.h: the state of a device and of its DMA channels. A pointer to
-- `dma_info[ch]` is the number `ch`, a pointer to a mapping is its id in `dma_mappings`. What a call
-- of the kernel or a read of a register gives is an argument of the definition that makes it.
pub mod Channel
pub mod Links
mod Examples
pub mod Sample
use tpce2drv.Prelude.{
  ℕ, ◌+◌, ◌-◌, ◌*◌, ◌/◌, ◌%◌, ◌==◌, leb, ltb, if◌then◌else◌, Bool, true, false, not, ◌&&◌, ◌||◌,
  Option, none, some, List, [], ◌∷◌, ℤ, pos, negsuc, ltb_ℤ, sub64, update, ◌≡◌, ◌⊎◌, inl, inr, refl,
}
use tpce2drv.Types.{Descriptor, TransferParams, zero_params, MapInfo, num_channels, mode_stream}
use tpce2drv.PageTable.{PageTable}

-- `tpce_dma_channel_state`; the field is an s8, so it could hold another value.
pub data ChannelState : Type 0 where
  idle initialized running complete error : ChannelState
  illegal : ℕ → ChannelState

abbrev pub is_idle : ChannelState → Bool
is_idle idle = true
is_idle _ = false

abbrev pub is_initialized : ChannelState → Bool
is_initialized initialized = true
is_initialized _ = false

abbrev pub is_running : ChannelState → Bool
is_running running = true
is_running _ = false

-- The error numbers that the driver itself names, and those that it passes on from the kernel.
-- `undefined` is no error number: it marks an access through a null pointer or out of bounds.
pub data Errno : Type 0 where
  einval ebusy enomem eio emsgsize enosys efault enospc etimedout eperm enodev enotty enobufs :
      Errno
  kernel : ℕ → Errno
  undefined : Errno

-- The return value of a function that returns a negative error number or a result.
pub data Result {ℓ} (A : Type ℓ) : Type ℓ where
  failed : Errno → Result A
  ok : A → Result A

pub Result-cases {ℓ} :
    {A : Type ℓ} (r : Result A) → ((e : Errno) × (r ≡ failed e)) ⊎ ((a : A) × (r ≡ ok a))
Result-cases (failed e) = inl (e, refl)
Result-cases (ok a) = inr (a, refl)

-- `tpce_dma_stream_state`
pub record StreamState : Type 0 where
  pub produced : ℕ
  pub consumed : ℕ

-- `internal_dma_stream_info`, less the two fields that nothing uses
pub record StreamInfo : Type 0 where
  pub state : Option StreamState
  pub state_refs : ℕ
  pub irq_cnt : ℕ
  pub write_seq_num : ℕ
  pub num_desc_mask : ℕ

-- `tpce_dma_info`. The buffers are maps from indices, together with `desc_capacity`.
pub record DmaInfo : Type 0 where
  pub params : TransferParams
  pub stream_info : StreamInfo
  pub map_info : Option ℕ
  pub desc : Option (ℕ → Descriptor)
  pub desc_dma : Option (ℕ → Descriptor)
  pub desc_bus_addr : ℕ
  pub desc_bus_addr_translated : ℕ
  pub desc_capacity : ℕ
  pub desc_size : ℕ
  pub desc_active : ℕ
  pub state : ChannelState

-- `tpce_dev`; `bar2_writes` holds the register writes so far, offset and value, the last one first.
pub record Tpce : Type 0 where
  pub dma_mappings : ℕ → Option MapInfo
  pub page_table : PageTable
  pub dma_info : ℕ → DmaInfo
  pub hw_status : ℕ
  pub hw_pending : Bool
  pub irqsrc : ℕ
  pub fast_irq_mask : ℕ
  pub refs : ℕ
  pub going_away : Bool
  pub bar2_writes : List (ℕ × ℕ)

-- What `kzalloc` leaves; TPCE_DMA_IDLE is 0.
abbrev pub no_stream : StreamInfo
no_stream = record {
  state = none;
  state_refs = 0;
  irq_cnt = 0;
  write_seq_num = 0;
  num_desc_mask = 0;
}

abbrev pub idle_info : DmaInfo
idle_info = record {
  params = zero_params;
  stream_info = no_stream;
  map_info = none;
  desc = none;
  desc_dma = none;
  desc_bus_addr = 0;
  desc_bus_addr_translated = 0;
  desc_capacity = 0;
  desc_size = 0;
  desc_active = 0;
  state = idle;
}

abbrev pub with_info : Tpce → ℕ → DmaInfo → Tpce
with_info t ch info = record t { dma_info = update t.dma_info ch info }

abbrev pub iowrite32 : Tpce → ℕ → ℕ → Tpce
iowrite32 t offset value = record t { bar2_writes = (offset, value) ∷ t.bar2_writes }

-- TPCE_DMA_CSR and TPCE_DMA_PREFETCHER_CSR
abbrev pub dma_csr : ℕ → ℕ → ℕ
dma_csr ch reg = 0x4000 + ch * 0x2000 + reg

abbrev pub prefetcher_csr : ℕ → ℕ → ℕ
prefetcher_csr ch reg = 0x5000 + ch * 0x2000 + reg

-- `mapping_is_busy`; the guard lets channel 3 pass.
pub mapping_is_busy : MapInfo → Bool
mapping_is_busy m =
    if ltb_ℤ (pos num_channels) m.active_channel || ltb_ℤ m.active_channel (negsuc 0)
    then false
    else not (ltb_ℤ m.active_channel (pos 0))

-- `tpce_dma_ch`, from the addresses of the array and of the element, and the size of an element
pub tpce_dma_ch : ℕ → ℕ → ℕ → ℤ
tpce_dma_ch base ptr elem_size =
    let distance = sub64 ptr base in
    if not (distance % elem_size == 0)
    then negsuc 0
    else if leb num_channels (distance / elem_size)
    then negsuc 0
    else pos (distance / elem_size)

-- `tpce_dma_has_terminating_descriptor`
abbrev pub tpce_dma_has_terminating_descriptor : TransferParams → Bool
tpce_dma_has_terminating_descriptor p = not (p.transfer_mode == mode_stream)
