-- ===== src/Interrupts/Stream/Count.antt =====
-- The number of descriptors that one interrupt of a stream accounts for.
use native.Mathlib.Nat.{mod-lt}
use tpce2drv.Prelude.{
  ℕ, zero, suc, ◌+◌, ◌-◌, ◌*◌, ◌/◌, ◌%◌, ◌^◌, ◌<◌, ◌==◌, leb, ltb, if◌then◌else◌, ◌≡◌, refl, arith,
  some, u32, u64, Bool-cases, inl, inr, false, length, All, ap, ◌∙◌,
}
use tpce2drv.Prelude.Bits.Masks.{bit_and-low}
use tpce2drv.Device.{DmaInfo, StreamState}
use tpce2drv.Interrupts.Stream.{
  new_write_seq_num, num_processed, advance, handle_stream, synced, settle,
}

-- From a position below `n` to one below `n`, going around the end of the list at most once.
pub record IsDistance (old new n k : ℕ) : Type 0 where
  pub below : k < n
  pub reaches : (if ltb (old + k) n then old + k else old + k - n) ≡ new

-- For positions within the list the number is the distance forward, around the end of the list.
pub num_processed-IsDistance :
    (old new n : ℕ)
    → old < n
    → new < n
    → (k : ℕ) × (num_processed old new n ≡ some k) × IsDistance old new n k
unfolding num_processed
num_processed-IsDistance old new n h w = elim (Bool-cases (leb old new)) [
  | inl e ↦ (new - old, ground arith, record { below = ground arith; reaches = ground arith })
  | inr e ↦ (new + n - old, ground arith, record { below = ground arith; reaches = ground arith })
]

-- The mask of a list whose length is a power of two gives the same position as the division.
pub seq_num-mask :
    (seq k : ℕ) → new_write_seq_num seq (2 ^ k - 1) (2 ^ k) ≡ new_write_seq_num seq 0 (2 ^ k)
unfolding new_write_seq_num
seq_num-mask seq k = elim (Bool-cases (2 ^ k - 1 == 0)) [
  | inl e ↦ rw e refl
  | inr e ↦ rw e (bit_and-low k (seq / 2 ^ 16))
]

handle_stream_step :
    (info : DmaInfo) (s : StreamState) (seq k : ℕ)
    → info.stream_info.num_desc_mask ≡ 0
    → num_processed info.stream_info.write_seq_num
        (seq / 2 ^ 16 % (info.desc_size / 64))
        (info.desc_size / 64)
      ≡ some k
    → k < info.desc_size / 64
    → handle_stream info s seq
      ≡ advance info.stream_info s info.params.bytes_per_descriptor
          (seq / 2 ^ 16 % (info.desc_size / 64))
          k
unfolding handle_stream new_write_seq_num settle
handle_stream_step info s seq k m q h =
    let fits : ltb (info.desc_size / 64) k ≡ false = ground arith in
    let n = info.desc_size / 64 in
    let stream = info.stream_info in
    let b = info.params.bytes_per_descriptor in
    let new = seq / 2 ^ 16 % n in
    ap
      (λ mask.
        let w = new_write_seq_num seq mask n in
        settle stream s b n w (num_processed stream.write_seq_num w n))
      m
    ∙ ap (settle stream s b n new) q
    ∙ ap (λ t. if t then stream else advance stream s b new k) fits

-- An interrupt of a stream without a mask, with its position within its list, adds `bytes_per_descriptor`,
-- which is 0 for descriptors of flexible size, for each of the descriptors from the old position to
-- the new one, around the end of the list, sets the position and counts one interrupt.
pub handle_stream-advance :
    (info : DmaInfo) (s : StreamState) (seq : ℕ)
    → info.stream_info.num_desc_mask ≡ 0
    → info.stream_info.write_seq_num < info.desc_size / 64
    → let after = handle_stream info s seq in
      let new = seq / 2 ^ 16 % (info.desc_size / 64) in
      (k : ℕ) × IsDistance info.stream_info.write_seq_num new (info.desc_size / 64) k
      × (after.write_seq_num ≡ new)
      × (after.irq_cnt ≡ u64 (info.stream_info.irq_cnt + 1))
      × (after.state
          ≡ some (record s {
            produced = u64 (s.produced + u32 (info.params.bytes_per_descriptor * k));
          }))
unfolding advance
handle_stream-advance info s seq m h =
    let (k, q, a) =
      num_processed-IsDistance info.stream_info.write_seq_num (seq / 2 ^ 16 % (info.desc_size / 64))
        (info.desc_size / 64) h (mod-lt (seq / 2 ^ 16) (omega arith)) in
    let after = handle_stream_step info s seq k m q a.below in
    (k, a, ap (λ i. i.write_seq_num) after, ap (λ i. i.irq_cnt) after, ap (λ i. i.state) after)

-- The descriptors whose memory is synchronised are as many as were completed, all within the list.
pub synced-below :
    (k i n : ℕ) → i < n → (length (synced k i n) ≡ k) × All (λ j. j < n) (synced k i n)
unfolding synced
synced-below zero i n h = (refl, tt)
synced-below (suc k) i n h =
    let next : (if i + 1 == n then 0 else i + 1) < n = ground arith in
    let (l, a) = synced-below k (if i + 1 == n then 0 else i + 1) n next in (ap suc l, (h, a))
