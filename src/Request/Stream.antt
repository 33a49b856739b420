-- ===== src/Request/Stream.antt =====
-- linux/request.c and linux/main.c: the state of a stream, which is shared with user space and
-- counted. `refcount_t` saturates when a count of 0 is decreased.
pub mod Count
pub mod Mmap
use tpce2drv.Prelude.{
  ℕ, zero, suc, ◌+◌, ◌-◌, ◌/◌, ◌==◌, if◌then◌else◌, Bool, not, ◌&&◌, Option, none, some, bit_and,
}
use tpce2drv.Types.{descriptor_size}
use tpce2drv.Device.{StreamInfo, StreamState, Errno, enomem, Result, failed, ok}

-- REFCOUNT_SATURATED, as an unsigned number
abbrev pub saturated : ℕ
saturated = 0xc0000000

abbrev is_power_of_2 : ℕ → Bool
is_power_of_2 n = not (n == 0) && bit_and n (n - 1) == 0

-- The state with its counters reset, for a channel whose descriptors take `desc_size` bytes.
abbrev reset_counters : StreamInfo → ℕ → ℕ → StreamInfo
reset_counters info refs desc_size =
    let num_descriptors = desc_size / descriptor_size in
    record info {
      state = some (record { produced = 0; consumed = 0 });
      state_refs = refs;
      irq_cnt = 0;
      write_seq_num = 0;
      num_desc_mask = if is_power_of_2 num_descriptors then num_descriptors - 1 else 0;
    }

-- `has_memory` tells whether `vmalloc_user` gives memory, if it is called.
pub tpce_init_stream_info : StreamInfo → ℕ → Bool → StreamInfo × Result ℕ
tpce_init_stream_info info desc_size has_memory = elim info.state [
  | some s ↦ (reset_counters info (info.state_refs + 1) desc_size, ok 0)
  | none ↦ if has_memory then (reset_counters info 1 desc_size, ok 0) else (info, failed enomem)
]

pub tpce_free_stream_info : StreamInfo → StreamInfo
tpce_free_stream_info info = elim info.state_refs [
  | zero ↦ record info { state_refs = saturated }
  | suc n ↦ record info { state_refs = n; state = if n == 0 then none else info.state }
]

-- `vma_stream_info_open`
pub vma_stream_info_open : StreamInfo → StreamInfo
vma_stream_info_open info = record info { state_refs = info.state_refs + 1 }
