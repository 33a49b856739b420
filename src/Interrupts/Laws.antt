-- ===== src/Interrupts/Laws.antt =====
-- linux/main.c: the sources that pass from the interrupt handler to the tasklet.
use tpce2drv.Prelude.{
  ℕ, ◌-◌, ◌^◌, ◌<◌, ◌==◌, if◌then◌else◌, ◌≡◌, ◌≢◌, refl, arith, false, bit_and, bit_or, max,
  Bool-cases, inl, inr, ap, ◌∙◌, Option-cases, ==_iff,
}
use tpce2drv.Prelude.Bits.{bit, bit-le, bit-bit_and, bit-bit_or}
use tpce2drv.Prelude.Bits.Masks.{bit-complement, bit-zero}
use tpce2drv.Device.{Tpce}
use tpce2drv.Interrupts.{tpce_isr, run_fast, defer, fast_dma, irq_scheduled}
use tpce2drv.Interrupts.Stream.{dma_stream_irq_handler}

handler-irqsrc : (t : Tpce) (ch seq : ℕ) → (dma_stream_irq_handler t ch seq).irqsrc ≡ t.irqsrc
unfolding dma_stream_irq_handler
handler-irqsrc t ch seq = elim (Option-cases (t.dma_info ch).stream_info.state) [
  | inl e ↦ rw (e, dma_stream_irq_handler) refl
  | inr (s, e) ↦ rw (e, dma_stream_irq_handler) refl
]

fast-irqsrc : (fast mask ch seq : ℕ) (t : Tpce) → (fast_dma fast mask ch seq t).irqsrc ≡ t.irqsrc
fast-irqsrc fast mask ch seq t = elim (Bool-cases (bit_and fast mask == 0)) [
  | inl e ↦ rw e refl
  | inr e ↦ rw e (handler-irqsrc t ch seq)
]

run_fast-irqsrc : (fast : ℕ) (seq : ℕ → ℕ) (t : Tpce) → (run_fast fast seq t).irqsrc ≡ t.irqsrc
unfolding run_fast
run_fast-irqsrc fast seq t = elim (Bool-cases (fast == 0)) [
  | inl e ↦ rw e refl
  | inr e ↦ rw e (
      fast-irqsrc fast 0x400 2 (seq 2) _
      ∙ fast-irqsrc fast 0x100 1 (seq 1) _
      ∙ fast-irqsrc fast 0x001 0 (seq 0) t)
]

-- The sources that are left when the fast ones are masked out.
abbrev left_over : ℕ → ℕ → ℕ
left_over irqreg mask =
    if bit_and irqreg mask == 0 then irqreg else bit_and irqreg (2 ^ 32 - 1 - mask)

bit-left_over :
    (irqreg mask k : ℕ)
    → mask < 2 ^ 32
    → k < 32
    → bit mask k ≡ 0
    → bit (left_over irqreg mask) k ≡ bit irqreg k
bit-left_over irqreg mask k w h z = elim (Bool-cases (bit_and irqreg mask == 0)) [
  | inl e ↦ rw e refl
  | inr e ↦ rw e (
      omega (
        arith,
        bit-bit_and irqreg (2 ^ 32 - 1 - mask) k,
        bit-complement 32 mask k w h,
        bit-le irqreg k,
      ))
]

isr_of_left_over :
    (t : Tpce) (irqreg : ℕ) (seq : ℕ → ℕ)
    → irqreg ≢ 0
    → (tpce_isr t irqreg seq).0.irqsrc ≡ (
        if left_over irqreg t.fast_irq_mask == 0
        then t.irqsrc
        else bit_or t.irqsrc (left_over irqreg t.fast_irq_mask))
unfolding tpce_isr defer
isr_of_left_over t irqreg seq h =
    let some_source : (irqreg == 0) ≡ false = ground arith in
    let r = run_fast-irqsrc (bit_and irqreg t.fast_irq_mask) seq t in
    elim (Bool-cases (left_over irqreg t.fast_irq_mask == 0)) [
      | inl e ↦ rw (some_source, e) r
      | inr e ↦ rw (some_source, e) (ap (λ s. bit_or s (left_over irqreg t.fast_irq_mask)) r)
    ]

-- A source that is raised and not among those handled at once is left for the tasklet, together
-- with those that were waiting already.
pub isr-keeps :
    (t : Tpce) (irqreg : ℕ) (seq : ℕ → ℕ) (k : ℕ)
    → t.fast_irq_mask < 2 ^ 32
    → k < 32
    → bit t.fast_irq_mask k ≡ 0
    → bit (tpce_isr t irqreg seq).0.irqsrc k ≡ max (bit t.irqsrc k) (bit irqreg k)
unfolding tpce_isr
isr-keeps t irqreg seq k w h z = elim (Bool-cases (irqreg == 0)) [
  | inl e ↦ rw e (ground (arith, bit-zero k))
  | inr e ↦
      let b = bit-left_over irqreg t.fast_irq_mask k w h z in
      let l = left_over irqreg t.fast_irq_mask in
      rw (isr_of_left_over t irqreg seq (ground arith)) (elim (Bool-cases (l == 0)) [
        | inl y ↦
            let none_left : l ≡ 0 = (==_iff l 0).0 y in
            rw y (omega (arith, b, ap (λ n. bit n k) none_left, bit-zero k))
        | inr n ↦ rw n (omega (arith, bit-bit_or t.irqsrc l k, b))
      ])
]

-- A source that is left for the tasklet lets the handler schedule it.
pub isr-schedules :
    (t : Tpce) (irqreg : ℕ) (seq : ℕ → ℕ) (k : ℕ)
    → t.fast_irq_mask < 2 ^ 32
    → k < 32
    → bit t.fast_irq_mask k ≡ 0
    → bit irqreg k ≡ 1
    → (tpce_isr t irqreg seq).1 ≡ irq_scheduled
unfolding tpce_isr
isr-schedules t irqreg seq k w h z raise =
    let l = left_over irqreg t.fast_irq_mask in
    let some_source : (irqreg == 0) ≡ false = has_bit irqreg k raise in
    let some_left : (l == 0) ≡ false =
      has_bit l k (bit-left_over irqreg t.fast_irq_mask k w h z ∙ raise) in
    rw (some_source, some_left) refl
  where
    has_bit : (n j : ℕ) → bit n j ≡ 1 → (n == 0) ≡ false
    has_bit n j e = elim (Bool-cases (n == 0)) [
      | inl y ↦ absurd (omega (arith, e, ap (λ m. bit m j) ((==_iff n 0).0 y), bit-zero j))
      | inr y ↦ y
    ]
