-- ===== src/Descriptors/Fill/Control/Marks.antt =====
-- What the passes of `tpce_generate_descriptors` after the first leave in each descriptor.
use native.Mathlib.Nat.{mod-lt, mod-eq_of_lt, mod-add-mod, mod_self}
use tpce2drv.Prelude.{
  ℕ, zero, suc, ◌^◌, ◌+◌, ◌-◌, ◌%◌, ◌<◌, ◌==◌, leb, ltb, if◌then◌else◌, Bool, true, false, not,
  ◌&&◌, ◌≡◌, ◌≢◌, ◌⊎◌, refl, arith, Bool-cases, inl, inr, ◌∙◌, ap, sym, bit_or, update,
}
use tpce2drv.Types.{Descriptor, TransferParams, channel_info, mode_default, mode_stream}
use tpce2drv.Descriptors.Fill.Control.{
  for_each, add_control, complete_irq, early_done_flag, fill_control_flags_default, stream_flags,
  fill_control_flags_stream, fill_control_flags,
}

-- The loops change each entry in their range once, and no other.
pub for_each_lem :
    (n i : ℕ) (f : ℕ → Descriptor → Descriptor) (buf : ℕ → Descriptor) (j : ℕ)
    → for_each n i f buf j ≡ (if leb i j && ltb j (i + n) then f j (buf j) else buf j)
unfolding for_each
for_each_lem zero i f buf j = ground arith
for_each_lem (suc n) i f buf j =
    ground (arith, for_each_lem n (i + 1) f (update buf i (f i (buf i))) j)

-- A descriptor raises an interrupt: the last one of a single transfer, and every
-- `interrupt_interval`th one of a stream.
unfoldable pub raises : TransferParams → ℕ → ℕ → Bool
raises p num j =
    if p.transfer_mode == mode_default
    then j + 1 == num
    else not (p.interrupt_interval == 0) && (j + 1) % p.interrupt_interval == 0

-- A descriptor ends early: none on a channel that reads from a stream, and not the last one of a
-- single transfer.
unfoldable pub ends_early : TransferParams → ℕ → ℕ → Bool
ends_early p num j =
    not (channel_info p.channel).has_stream_read
    && not (p.transfer_mode == mode_default && j + 1 == num)

-- The control word with these two flags, bits 14 and 24
abbrev pub control_word : Bool → Bool → ℕ
control_word irq early = bit_or (bit_or 0 (if irq then 2 ^ 14 else 0)) (if early then 2 ^ 24 else 0)

last_of : (i k : ℕ) → k ≢ 0 → (i % k == k - 1) ≡ ((i + 1) % k == 0)
last_of i k h =
    let below : i % k < k = mod-lt i (ground arith) in
    let next : (i % k + 1) % k ≡ (i + 1) % k = mod-add-mod i k 1 in
    elim (Bool-cases (i % k == k - 1)) [
      | inl e ↦
          let full : i % k + 1 ≡ k = ground arith in
          let z : (i + 1) % k ≡ 0 = sym next ∙ ap (λ (x : ℕ). x % k) full ∙ mod_self k in
          rw (e, z) refl
      | inr e ↦
          let more : i % k + 1 < k = ground arith in
          let z : (i + 1) % k ≡ i % k + 1 = sym next ∙ mod-eq_of_lt more in rw (e, z) (ground arith)
    ]

last_word :
    (p : TransferParams) (w : ℕ)
    → w ≡ 0
    → bit_or w complete_irq
      ≡ control_word true (not (channel_info p.channel).has_stream_read && false)
last_word p w z = elim (Bool-cases (channel_info p.channel).has_stream_read) [
  | inl s ↦ rw (z, s) refl
  | inr s ↦ rw (z, s) refl
]

other_word :
    (p : TransferParams) (w : ℕ)
    → w ≡ 0
    → bit_or w (early_done_flag p)
      ≡ control_word false (not (channel_info p.channel).has_stream_read && true)
other_word p w z = elim (Bool-cases (channel_info p.channel).has_stream_read) [
  | inl s ↦ rw (z, s) refl
  | inr s ↦ rw (z, s) refl
]

default-control :
    (p : TransferParams) (buf : ℕ → Descriptor) (num j : ℕ)
    → j < num
    → (buf j).control ≡ 0
    → (fill_control_flags_default p buf num j).control
      ≡ control_word
          (j + 1 == num)
          (not (channel_info p.channel).has_stream_read && not (j + 1 == num))
unfolding fill_control_flags_default
default-control p buf num j lt z =
    let flag = early_done_flag p in
    let each = for_each_lem (num - 1) 0 (λ i d. add_control flag d) buf j in
    elim (Bool-cases (j + 1 == num)) [
      | inl e ↦
          let here : fill_control_flags_default p buf num j ≡ add_control complete_irq (buf j) =
            ground (arith, each) in
          rw (here, e) (last_word p (buf j).control z)
      | inr e ↦
          let here : fill_control_flags_default p buf num j ≡ add_control flag (buf j) =
            ground (arith, each) in
          rw (here, e) (other_word p (buf j).control z)
    ]

interval_test : (k j : ℕ) → (ltb 0 k && j % k == k - 1) ≡ (not (k == 0) && (j + 1) % k == 0)
interval_test k j = elim (Bool-cases (k == 0)) [
  | inl e ↦ ground arith
  | inr e ↦
      let some_k : ltb 0 k ≡ true = ground arith in rw (some_k, e) (last_of j k (ground arith))
]

stream_word :
    (p : TransferParams) (b : Bool) (d : Descriptor)
    → d.control ≡ 0
    → bit_or (if b then add_control complete_irq d else d).control (early_done_flag p)
      ≡ control_word b (not (channel_info p.channel).has_stream_read && true)
stream_word p true d z = elim (Bool-cases (channel_info p.channel).has_stream_read) [
  | inl s ↦ rw (z, s) refl
  | inr s ↦ rw (z, s) refl
]
stream_word p false d z = elim (Bool-cases (channel_info p.channel).has_stream_read) [
  | inl s ↦ rw (z, s) refl
  | inr s ↦ rw (z, s) refl
]

stream-control :
    (p : TransferParams) (buf : ℕ → Descriptor) (num j : ℕ)
    → j < num
    → (buf j).control ≡ 0
    → (fill_control_flags_stream p buf num j).control
      ≡ control_word
          (not (p.interrupt_interval == 0) && (j + 1) % p.interrupt_interval == 0)
          (not (channel_info p.channel).has_stream_read && true)
unfolding fill_control_flags_stream stream_flags
stream-control p buf num j lt z =
    let here : fill_control_flags_stream p buf num j ≡ stream_flags p j (buf j) =
      for_each_lem num 0 (stream_flags p) buf j ∙ ground arith in
    rw (here, interval_test p.interrupt_interval j) (stream_word p _ (buf j) z)

-- The control words of a cleared buffer
pub fill_control_flags-control :
    (p : TransferParams) (buf : ℕ → Descriptor) (num j : ℕ)
    → (p.transfer_mode ≡ mode_default) ⊎ (p.transfer_mode ≡ mode_stream)
    → j < num
    → (buf j).control ≡ 0
    → (fill_control_flags p buf num j).control ≡ control_word (raises p num j) (ends_early p num j)
unfolding fill_control_flags raises ends_early
fill_control_flags-control p buf num j (inl e) lt z = rw e (default-control p buf num j lt z)
fill_control_flags-control p buf num j (inr e) lt z = rw e (stream-control p buf num j lt z)
