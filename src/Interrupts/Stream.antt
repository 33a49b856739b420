-- ===== src/Interrupts/Stream.antt =====
-- linux/main.c: `dma_stream_irq_handler`, which counts the descriptors that a stream has completed.
pub mod Count
use tpce2drv.Prelude.{
  ℕ, zero, suc, ◌+◌, ◌-◌, ◌*◌, ◌/◌, ◌%◌, ◌^◌, ◌==◌, leb, ltb, if◌then◌else◌, Bool, ◌||◌, List, [],
  ◌∷◌, Option, none, some, bit_and, u32, u64,
}
use tpce2drv.Types.{descriptor_size}
use tpce2drv.Device.{Tpce, DmaInfo, StreamInfo, StreamState, with_info, iowrite32, prefetcher_csr}

-- The new write position, from the sequence numbers in the upper half of the register. The source
-- divides by `num_descriptors` if that is no power of two; it is not 0 while a stream runs.
pub new_write_seq_num : ℕ → ℕ → ℕ → ℕ
new_write_seq_num seq_nums num_desc_mask num_descriptors =
    if num_desc_mask == 0
    then seq_nums / 2 ^ 16 % num_descriptors
    else bit_and (seq_nums / 2 ^ 16) num_desc_mask

-- The number of descriptors from the old position to the new one, around the end of the list. All
-- values are below 2 ^ 31; `none` is a negative number.
pub num_processed : ℕ → ℕ → ℕ → Option ℕ
num_processed old new num_descriptors =
    if leb old new
    then some (new - old)
    else if leb old (new + num_descriptors)
    then some (new + num_descriptors - old)
    else none

-- The indices of the descriptors whose memory is synchronised, from `i` on.
pub synced : ℕ → ℕ → ℕ → List ℕ
synced zero i num_descriptors = []
synced (suc n) i num_descriptors =
    i ∷ synced n (if i + 1 == num_descriptors then 0 else i + 1) num_descriptors

-- The stores at the end of the handler. The product is a uint32_t.
pub advance : StreamInfo → StreamState → ℕ → ℕ → ℕ → StreamInfo
advance info s bytes_per_desc new processed = record info {
  write_seq_num = new;
  irq_cnt = u64 (info.irq_cnt + 1);
  state = some (record s { produced = u64 (s.produced + u32 (bytes_per_desc * processed)) });
}

-- The handler from the test of the number on; a wrong number leaves the stream as it is.
abbrev pub settle : StreamInfo → StreamState → ℕ → ℕ → ℕ → Option ℕ → StreamInfo
unfolding advance
settle stream s bytes_per_desc num_descriptors new none = stream
settle stream s bytes_per_desc num_descriptors new (some processed) =
    if ltb num_descriptors processed then stream else advance stream s bytes_per_desc new processed

-- The handler after the interrupt is cleared: the new state of the stream.
pub handle_stream : DmaInfo → StreamState → ℕ → StreamInfo
unfolding new_write_seq_num num_processed
handle_stream info s seq_nums =
    let stream = info.stream_info in
    let num_descriptors = info.desc_size / descriptor_size in
    let new = new_write_seq_num seq_nums stream.num_desc_mask num_descriptors in
    settle stream s info.params.bytes_per_descriptor num_descriptors new
      (num_processed stream.write_seq_num new num_descriptors)

unfoldable pub dma_stream_irq_handler : Tpce → ℕ → ℕ → Tpce
unfolding handle_stream
dma_stream_irq_handler t ch seq_nums =
    let t1 = iowrite32 t (prefetcher_csr ch 0x10) 1 in
    let info = t1.dma_info ch in
    elim info.stream_info.state [
      | none ↦ t1
      | some s ↦ with_info t1 ch (record info { stream_info = handle_stream info s seq_nums })
    ]
