-- ===== src/Descriptors/Fill/Control.antt =====
-- linux/dma_descriptors.c: the control words and the other fields, and `tpce_generate_descriptors`.
pub mod Marks
pub mod Described
pub mod Whole
use tpce2drv.Prelude.{
  ℕ, zero, suc, ◌+◌, ◌-◌, ◌%◌, ◌^◌, ◌==◌, ltb, if◌then◌else◌, ◌&&◌, Option, none, some, bit_or, u16,
  update,
}
use tpce2drv.Types.{
  Descriptor, zero_descriptor, TransferParams, MapInfo, channel_info, mode_default, mode_stream,
}
use tpce2drv.Descriptors.{Plan, create_descriptor_plan}
use tpce2drv.Descriptors.Params.{DmaErr, null_ptr, desc_buf}
use tpce2drv.Descriptors.Fill.{fill_addresses}

-- ALTERA_MSGDMA_DESCRIPTOR_CONTROL_EARLY_DONE_ENABLE_MASK
abbrev pub early_done : ℕ
early_done = 2 ^ 24

-- ALTERA_MSGDMA_DESCRIPTOR_CONTROL_TRANSFER_COMPLETE_IRQ_MASK
abbrev pub complete_irq : ℕ
complete_irq = 2 ^ 14

-- `for (i = start; i < start + n; ++i) descriptors[i] = f(i, descriptors[i]);`
pub for_each : ℕ → ℕ → (ℕ → Descriptor → Descriptor) → (ℕ → Descriptor) → ℕ → Descriptor
for_each zero i f buf = buf
for_each (suc n) i f buf = for_each n (i + 1) f (update buf i (f i (buf i)))

abbrev pub add_control : ℕ → Descriptor → Descriptor
add_control flag d = record d { control = bit_or d.control flag }

abbrev pub early_done_flag : TransferParams → ℕ
early_done_flag p = if (channel_info p.channel).has_stream_read then 0 else early_done

pub fill_control_flags_default : TransferParams → (ℕ → Descriptor) → ℕ → ℕ → Descriptor
unfolding for_each
fill_control_flags_default p buf num =
    let early = for_each (num - 1) 0 (λ i d. add_control (early_done_flag p) d) buf in
    update early (num - 1) (add_control complete_irq (early (num - 1)))

-- The body of the loop of `fill_control_flags_stream`
pub stream_flags : TransferParams → ℕ → Descriptor → Descriptor
stream_flags p i d =
    let periodic =
      if ltb 0 p.interrupt_interval && i % p.interrupt_interval == p.interrupt_interval - 1
      then add_control complete_irq d
      else d in
    add_control (early_done_flag p) periodic

pub fill_control_flags_stream : TransferParams → (ℕ → Descriptor) → ℕ → ℕ → Descriptor
unfolding for_each stream_flags
fill_control_flags_stream p buf num = for_each num 0 (stream_flags p) buf

-- Another mode than these two is excluded by `tpce_validate_dma_params`; the source only warns.
pub fill_control_flags : TransferParams → (ℕ → Descriptor) → ℕ → ℕ → Descriptor
unfolding fill_control_flags_default fill_control_flags_stream
fill_control_flags p buf num =
    if p.transfer_mode == mode_default
    then fill_control_flags_default p buf num
    else if p.transfer_mode == mode_stream
    then fill_control_flags_stream p buf num
    else buf

-- The body of the loop of `fill_other_fields`
pub other_fields : TransferParams → ℕ → Descriptor → Descriptor
other_fields p i d =
    let ci = channel_info p.channel in
    record d {
      sequence_number = u16 i;
      read_stride = p.read_stride;
      write_stride = p.write_stride;
      read_burst_count = if ci.has_stream_read then 0 else p.burst_count;
      write_burst_count = if ci.has_stream_write then 0 else p.burst_count;
    }

pub fill_other_fields : TransferParams → (ℕ → Descriptor) → ℕ → ℕ → Descriptor
unfolding for_each other_fields
fill_other_fields p buf num = for_each num 0 (other_fields p) buf

-- The outcome of `tpce_generate_descriptors`: an error, a memory access out of bounds, or the
-- number of descriptors and the buffer.
pub data Generated : Type 0 where
  rejected : DmaErr → Generated
  out_of_bounds : Generated
  generated : ℕ → (ℕ → Descriptor) → Generated

-- `memset(descriptors, 0, num * sizeof(tpce_dma_descriptor))`
abbrev pub clear : ℕ → (ℕ → Descriptor) → ℕ → Descriptor
clear num buf i = if ltb i num then zero_descriptor else buf i

-- The three passes over a buffer of `capacity` entries, for a plan with at least one descriptor.
pub fill_all : TransferParams → MapInfo → (ℕ → Descriptor) → ℕ → Plan → Generated
unfolding fill_control_flags fill_other_fields
fill_all p m buf capacity plan =
    let num = plan.num_descriptors in
    elim (fill_addresses p m capacity (clear num buf) plan) [
      | none ↦ out_of_bounds
      | some filled ↦ generated num (fill_other_fields p (fill_control_flags p filled num) num)
    ]

pub generate : TransferParams → MapInfo → (ℕ → Descriptor) → ℕ → Generated
unfolding fill_all
generate p m buf max_descriptors =
    let plan = create_descriptor_plan m p in
    if ltb max_descriptors plan.num_descriptors
    then rejected desc_buf
    else if plan.num_descriptors == 0
    then generated 0 buf
    else fill_all p m buf max_descriptors plan

abbrev pub tpce_generate_descriptors :
    Option TransferParams → Option MapInfo → Option (ℕ → Descriptor) → ℕ → Generated
unfolding generate
tpce_generate_descriptors none m buf n = rejected null_ptr
tpce_generate_descriptors (some p) none buf n = rejected null_ptr
tpce_generate_descriptors (some p) (some m) none n = rejected null_ptr
tpce_generate_descriptors (some p) (some m) (some buf) n = generate p m buf n
