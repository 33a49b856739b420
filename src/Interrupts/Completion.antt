-- ===== src/Interrupts/Completion.antt =====
-- linux/main.c: the way from the interrupt of a transfer that has ended to the state that its caller
-- waits for.
use tpce2drv.Prelude.{
  ℕ, zero, suc, ◌-◌, ◌^◌, ◌<◌, ◌==◌, if◌then◌else◌, ◌≡◌, ◌≢◌, refl, sym, ap, ◌∙◌, arith, Bool, true,
  false, Bool-cases, Option-cases, inl, inr, ◌⊎◌, ==_iff, List, [], ◌∷◌, ◌++◌, bit_and,
}
use tpce2drv.Prelude.Bits.{bit, bit-le, bit_and-pow}
use tpce2drv.Types.{mode_stream}
use tpce2drv.Device.{Tpce, DmaInfo, ChannelState, running, complete, is_running}
use tpce2drv.Interrupts.{
  irq_dma0, irq_dma1, irq_dma2, tasklet_dma, tpce_tasklet, fast_dma, run_fast, defer, tpce_isr,
  tpce_dma_work, IrqReturn, irq_none, irq_handled, irq_scheduled,
}
use tpce2drv.Interrupts.Stream.{dma_stream_irq_handler}
use tpce2drv.Interrupts.Laws.{isr-keeps, isr-schedules}
use tpce2drv.Interrupts.Links.{tasklet-dma_info}

-- The bit of a channel in the interrupt register
abbrev pub source_bit : ℕ → ℕ
source_bit zero = 0
source_bit (suc zero) = 8
source_bit (suc (suc n)) = 10

-- The state of a channel and its mode
abbrev run_of : DmaInfo → ChannelState × ℕ
run_of info = (info.state, info.params.transfer_mode)

-- A step that changes no state and no mode
SameRuns : Tpce → Tpce → Type 0
SameRuns t t' = (j : ℕ) → run_of (t'.dma_info j) ≡ run_of (t.dma_info j)

handler-SameRuns : (t : Tpce) (ch seq : ℕ) → SameRuns t (dma_stream_irq_handler t ch seq)
unfolding SameRuns dma_stream_irq_handler
handler-SameRuns t ch seq j = elim (Option-cases (t.dma_info ch).stream_info.state) [
  | inl e ↦ rw (e, dma_stream_irq_handler) refl
  | inr (s, e) ↦
      rw (e, dma_stream_irq_handler)
        (elim (Bool-cases (j == ch)) [
          | inl y ↦
              let same : j ≡ ch = (==_iff j ch).0 y in
              rw y (ap (λ k. run_of (t.dma_info k)) (sym same))
          | inr n ↦ rw n refl
        ])
]

fast-SameRuns : (fast mask ch seq : ℕ) (t : Tpce) → SameRuns t (fast_dma fast mask ch seq t)
unfolding SameRuns
fast-SameRuns fast mask ch seq t j = elim (Bool-cases (bit_and fast mask == 0)) [
  | inl e ↦ rw e refl
  | inr e ↦ rw e (handler-SameRuns t ch seq j)
]

run_fast-SameRuns : (fast : ℕ) (seq : ℕ → ℕ) (t : Tpce) → SameRuns t (run_fast fast seq t)
unfolding SameRuns run_fast
run_fast-SameRuns fast seq t j = elim (Bool-cases (fast == 0)) [
  | inl e ↦ rw e refl
  | inr e ↦
      let a = fast_dma fast irq_dma0 0 (seq 0) t in
      let b = fast_dma fast irq_dma1 1 (seq 1) a in
      rw e (
        fast-SameRuns fast irq_dma2 2 (seq 2) b j
        ∙ fast-SameRuns fast irq_dma1 1 (seq 1) a j
        ∙ fast-SameRuns fast irq_dma0 0 (seq 0) t j)
]

isr-SameRuns : (t : Tpce) (irqreg : ℕ) (seq : ℕ → ℕ) → SameRuns t (tpce_isr t irqreg seq).0
unfolding SameRuns tpce_isr defer
isr-SameRuns t irqreg seq j =
    let fast = bit_and irqreg t.fast_irq_mask in
    let slow = if fast == 0 then irqreg else bit_and irqreg (2 ^ 32 - 1 - t.fast_irq_mask) in
    elim (Bool-cases (irqreg == 0)) [
      | inl e ↦ rw e refl
      | inr e ↦ elim (Bool-cases (slow == 0)) [
        | inl w ↦ rw (e, w) (run_fast-SameRuns fast seq t j)
        | inr w ↦ rw (e, w) (run_fast-SameRuns fast seq t j)
      ]
    ]

-- The work queue: whether the work of a channel is queued
unfoldable pub is_queued : ℕ → List ℕ → Bool
is_queued ch [] = false
is_queued ch (x ∷ xs) = let rest = is_queued ch xs in if ch == x then true else rest

queued-last : (ch : ℕ) (xs : List ℕ) → is_queued ch (xs ++ ch ∷ []) ≡ true
unfolding is_queued
queued-last ch [] = ground arith
queued-last ch (x ∷ xs) = ground (arith, queued-last ch xs)

queued-append :
    (ch y : ℕ) (xs : List ℕ) → is_queued ch xs ≡ true → is_queued ch (xs ++ y ∷ []) ≡ true
unfolding is_queued
queued-append ch y [] h = absurd (cc h)
queued-append ch y (x ∷ xs) h = ground (arith, h, queued-append ch y xs)

block-adds :
    (irqsrc mask ch : ℕ) (x : Tpce × List ℕ)
    → (bit_and irqsrc mask == 0) ≡ false
    → is_queued ch (tasklet_dma irqsrc mask ch x).1 ≡ true
block-adds irqsrc mask ch (t, q) h = rw h (queued-last ch q)

block-keeps :
    (irqsrc mask ch j : ℕ) (x : Tpce × List ℕ)
    → is_queued j x.1 ≡ true
    → is_queued j (tasklet_dma irqsrc mask ch x).1 ≡ true
block-keeps irqsrc mask ch j (t, q) h = elim (Bool-cases (bit_and irqsrc mask == 0)) [
  | inl e ↦ rw e h
  | inr e ↦ rw e (queued-append j ch q h)
]

raised : (irqsrc k : ℕ) → 0 < 2 ^ k → bit irqsrc k ≡ 1 → (bit_and irqsrc (2 ^ k) == 0) ≡ false
raised irqsrc k p h = rw (bit_and-pow irqsrc k, h) (ground (arith, p))

tasklet-queues :
    (t : Tpce) (int_stat ch : ℕ)
    → ch < 3
    → bit t.irqsrc (source_bit ch) ≡ 1
    → is_queued ch (tpce_tasklet t int_stat).1 ≡ true
tasklet-queues t int_stat zero h b = block-keeps t.irqsrc irq_dma2 2 0 _ (
    block-keeps t.irqsrc irq_dma1 1 0 _
      (block-adds t.irqsrc irq_dma0 0 _ (raised t.irqsrc 0 (omega arith) b)))
tasklet-queues t int_stat (suc zero) h b =
    block-keeps t.irqsrc irq_dma2 2 1 _
      (block-adds t.irqsrc irq_dma1 1 _ (raised t.irqsrc 8 (omega arith) b))
tasklet-queues t int_stat (suc (suc zero)) h b =
    block-adds t.irqsrc irq_dma2 2 _ (raised t.irqsrc 10 (omega arith) b)
tasklet-queues t int_stat (suc (suc (suc n))) h b = absurd (omega arith)

source_bit-lt : (ch : ℕ) → source_bit ch < 32
source_bit-lt zero = omega arith
source_bit-lt (suc zero) = omega arith
source_bit-lt (suc (suc n)) = omega arith

-- The work queue runs the work of each channel that is queued.
unfoldable pub run_work : Tpce → List ℕ → Tpce
run_work t [] = t
run_work t (ch ∷ chs) = run_work (tpce_dma_work t ch) chs

-- A single transfer that runs or has ended, and one that has ended
IsActive : Tpce → ℕ → Type 0
IsActive t ch =
    (((t.dma_info ch).state ≡ running) ⊎ ((t.dma_info ch).state ≡ complete))
    × ((t.dma_info ch).params.transfer_mode ≢ mode_stream)

-- The work of a channel ends its transfer,
work-complete :
    (t : Tpce) (ch : ℕ) → IsActive t ch → ((tpce_dma_work t ch).dma_info ch).state ≡ complete
unfolding IsActive
work-complete t ch (inl e, m) =
    let single : ((t.dma_info ch).params.transfer_mode == mode_stream) ≡ false =
      ground (arith, m) in
    rw (single, ap is_running e) (ground arith)
work-complete t ch (inr e, m) =
    let single : ((t.dma_info ch).params.transfer_mode == mode_stream) ≡ false =
      ground (arith, m) in
    rw (single, ap is_running e) e

-- and that of another channel leaves it as it is.
work-other : (t : Tpce) (ch j : ℕ) → j ≢ ch → (tpce_dma_work t ch).dma_info j ≡ t.dma_info j
work-other t ch j ne = elim (Bool-cases ((t.dma_info ch).params.transfer_mode == mode_stream)) [
  | inl e ↦ rw e refl
  | inr e ↦ elim (Bool-cases (is_running (t.dma_info ch).state)) [
    | inl r ↦ rw (e, r) (ground (arith, ne))
    | inr r ↦ rw (e, r) refl
  ]
]

work-mode :
    (t : Tpce) (ch j : ℕ)
    → ((tpce_dma_work t ch).dma_info j).params.transfer_mode ≡ (t.dma_info j).params.transfer_mode
work-mode t ch j = elim (Bool-cases (j == ch)) [
  | inr n ↦ ap (λ i. i.params.transfer_mode) (work-other t ch j (ground (arith, n)))
  | inl y ↦
      let same : j ≡ ch = (==_iff j ch).0 y in
      rw same (elim (Bool-cases ((t.dma_info ch).params.transfer_mode == mode_stream)) [
        | inl e ↦ rw e refl
        | inr e ↦ elim (Bool-cases (is_running (t.dma_info ch).state)) [
          | inl r ↦ rw (e, r) (ground arith)
          | inr r ↦ rw (e, r) refl
        ]
      ])
]

work-IsActive : (t : Tpce) (ch j : ℕ) → IsActive t j → IsActive (tpce_dma_work t ch) j
unfolding IsActive
work-IsActive t ch j a = elim (Bool-cases (j == ch)) [
  | inl y ↦
      let same : j ≡ ch = (==_iff j ch).0 y in
      (inr (rw (sym same) (work-complete t j a)), λ e. a.1 (sym (work-mode t ch j) ∙ e))
  | inr n ↦ let keeps = work-other t ch j (ground (arith, n)) in rw (keeps) a
]

run_work-complete :
    (t : Tpce) (chs : List ℕ) (ch : ℕ)
    → IsActive t ch
    → (is_queued ch chs ≡ true) ⊎ ((t.dma_info ch).state ≡ complete)
    → ((run_work t chs).dma_info ch).state ≡ complete
unfolding is_queued run_work
run_work-complete t [] ch a (inl q) = absurd (cc q)
run_work-complete t [] ch a (inr e) = e
run_work-complete t (c ∷ chs) ch a q =
    run_work-complete (tpce_dma_work t c) chs ch (work-IsActive t c ch a)
      (next (Bool-cases (ch == c)) q)
  where
    if_false : (ch == c) ≡ false → is_queued ch (c ∷ chs) ≡ is_queued ch chs
    if_false n = rw (n, is_queued) refl

    next :
        ((ch == c) ≡ true) ⊎ ((ch == c) ≡ false)
        → (is_queued ch (c ∷ chs) ≡ true) ⊎ ((t.dma_info ch).state ≡ complete)
        → (is_queued ch chs ≡ true) ⊎ (((tpce_dma_work t c).dma_info ch).state ≡ complete)
    next (inl y) q =
        let same : ch ≡ c = (==_iff ch c).0 y in inr (rw (sym same) (work-complete t ch a))
    next (inr n) (inl q) = inl (sym (if_false n) ∙ q)
    next (inr n) (inr e) = inr (ap (λ i. i.state) (work-other t c ch (ground (arith, n))) ∙ e)

-- The tasklet and the work that it queues, if the interrupt handler has scheduled it
abbrev pub after_isr : ℕ → Tpce → IrqReturn → Tpce
after_isr int_stat t irq_none = t
after_isr int_stat t irq_handled = t
after_isr int_stat t irq_scheduled =
    let (t1, queued) = tpce_tasklet t int_stat in run_work t1 queued

-- The interrupt handler, and what it makes run
abbrev pub serve : Tpce → ℕ → (ℕ → ℕ) → ℕ → Tpce
serve t irqreg seq int_stat = let (t1, r) = tpce_isr t irqreg seq in after_isr int_stat t1 r

-- When the interrupt of a channel's single transfer is raised, and is not one of those that are
-- handled at once, the handler schedules the tasklet, and the tasklet and the work that it queues bring the
-- transfer to its end, whatever other interrupts come with it.
pub serve-complete :
    (t : Tpce) (irqreg : ℕ) (seq : ℕ → ℕ) (int_stat ch : ℕ)
    → ch < 3
    → t.fast_irq_mask < 2 ^ 32
    → bit t.fast_irq_mask (source_bit ch) ≡ 0
    → bit irqreg (source_bit ch) ≡ 1
    → (t.dma_info ch).state ≡ running
    → (t.dma_info ch).params.transfer_mode ≢ mode_stream
    → ((serve t irqreg seq int_stat).dma_info ch).state ≡ complete
unfolding IsActive SameRuns
serve-complete t irqreg seq int_stat ch below w slow raise run single =
    let t1 = (tpce_isr t irqreg seq).0 in
    let x = tpce_tasklet t1 int_stat in
    let kept = isr-keeps t irqreg seq (source_bit ch) w (source_bit-lt ch) slow in
    let waiting : bit t1.irqsrc (source_bit ch) ≡ 1 =
      omega (arith, kept, raise, bit-le t.irqsrc (source_bit ch)) in
    let same =
      ap (λ f. run_of (f ch)) (tasklet-dma_info t1 int_stat) ∙ isr-SameRuns t irqreg seq ch in
    ap (λ r. ((after_isr int_stat t1 r).dma_info ch).state)
      (isr-schedules t irqreg seq (source_bit ch) w (source_bit-lt ch) slow raise)
    ∙ run_work-complete x.0 x.1 ch
        (inl (ap (λ r. r.0) same ∙ run), λ e. single (sym (ap (λ r. r.1) same) ∙ e))
        (inl (tasklet-queues t1 int_stat ch below waiting))
