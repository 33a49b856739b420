-- ===== src/Interrupts/Links.antt =====
-- linux/main.c: interrupts, tasklet and work, and the links between channels and mappings.
use tpce2drv.Prelude.{
  ℕ, ◌==◌, ◌-◌, ◌^◌, if◌then◌else◌, ◌≡◌, refl, ◌∙◌, Bool-cases, Option-cases, inl, inr, List,
  bit_and, [],
}
use tpce2drv.Device.{Tpce, iowrite32, prefetcher_csr}
use tpce2drv.Device.Links.{SameLinks, SameLinks-refl, SameLinks-trans, with_info-after}
use tpce2drv.Interrupts.{
  irq_dma0, irq_dma1, irq_dma2, irq_app, tasklet_dma, tasklet_app, enable_interrupts, tpce_tasklet,
  fast_dma, run_fast, defer, tpce_isr,
}
use tpce2drv.Interrupts.Stream.{handle_stream, dma_stream_irq_handler}

handler-SameLinks : (t : Tpce) (ch seq : ℕ) → SameLinks t (dma_stream_irq_handler t ch seq)
unfolding dma_stream_irq_handler
handler-SameLinks t ch seq =
    let t1 = iowrite32 t (prefetcher_csr ch 0x10) 1 in
    let info = t1.dma_info ch in
    elim (Option-cases info.stream_info.state) [
      | inl e ↦ rw (e, dma_stream_irq_handler) (SameLinks-refl t t1 refl refl)
      | inr (s, e) ↦
          rw (e, dma_stream_irq_handler)
            (with_info-after t t1 ch (record info { stream_info = handle_stream info s seq }) refl
              refl refl (λ o h. h))
    ]

fast-SameLinks : (fast mask ch seq : ℕ) (t : Tpce) → SameLinks t (fast_dma fast mask ch seq t)
fast-SameLinks fast mask ch seq t = elim (Bool-cases (bit_and fast mask == 0)) [
  | inl e ↦ rw e (SameLinks-refl t t refl refl)
  | inr e ↦ rw e (handler-SameLinks t ch seq)
]

run_fast-SameLinks : (fast : ℕ) (seq : ℕ → ℕ) (t : Tpce) → SameLinks t (run_fast fast seq t)
unfolding run_fast
run_fast-SameLinks fast seq t = elim (Bool-cases (fast == 0)) [
  | inl e ↦ rw e (SameLinks-refl t t refl refl)
  | inr e ↦
      let a = fast_dma fast irq_dma0 0 (seq 0) t in
      let b = fast_dma fast irq_dma1 1 (seq 1) a in
      rw e (
        SameLinks-trans t b _
          (SameLinks-trans t a b (fast-SameLinks fast irq_dma0 0 (seq 0) t)
            (fast-SameLinks fast irq_dma1 1 (seq 1) a))
          (fast-SameLinks fast irq_dma2 2 (seq 2) b))
]

pub isr-SameLinks : (t : Tpce) (irqreg : ℕ) (seq : ℕ → ℕ) → SameLinks t (tpce_isr t irqreg seq).0
unfolding tpce_isr defer
isr-SameLinks t irqreg seq =
    let fast = bit_and irqreg t.fast_irq_mask in
    let slow = if fast == 0 then irqreg else bit_and irqreg (2 ^ 32 - 1 - t.fast_irq_mask) in
    let t1 = run_fast fast seq t in
    let r = run_fast-SameLinks fast seq t in
    elim (Bool-cases (irqreg == 0)) [
      | inl e ↦ rw e (SameLinks-refl t t refl refl)
      | inr e ↦ elim (Bool-cases (slow == 0)) [
        | inl w ↦ rw (e, w) r
        | inr w ↦ rw (e, w) (SameLinks-trans t t1 _ r (SameLinks-refl t1 _ refl refl))
      ]
    ]

-- The channels and the mappings after one block of the tasklet
block-same :
    (irqsrc mask ch : ℕ) (x : Tpce × List ℕ)
    → let y = tasklet_dma irqsrc mask ch x in
      (y.0.dma_info ≡ x.0.dma_info) × (y.0.dma_mappings ≡ x.0.dma_mappings)
block-same irqsrc mask ch (t, q) = elim (Bool-cases (bit_and irqsrc mask == 0)) [
  | inl e ↦ rw e (refl, refl)
  | inr e ↦ rw e (refl, refl)
]

enable-same :
    (t : Tpce)
    → ((enable_interrupts t).dma_info ≡ t.dma_info)
      × ((enable_interrupts t).dma_mappings ≡ t.dma_mappings)
enable-same t = elim (Bool-cases t.going_away) [
  | inl e ↦ rw e (refl, refl)
  | inr e ↦ rw e (refl, refl)
]

-- The rest of the tasklet
finish-same :
    (irqsrc int_stat : ℕ) (t : Tpce)
    → let t' = enable_interrupts (tasklet_app irqsrc int_stat t) in
      (t'.dma_info ≡ t.dma_info) × (t'.dma_mappings ≡ t.dma_mappings)
finish-same irqsrc int_stat t = elim (Bool-cases (bit_and irqsrc irq_app == 0)) [
  | inl e ↦ rw e (enable-same t)
  | inr e ↦ rw e (enable-same _)
]

tasklet-same :
    (t : Tpce) (int_stat : ℕ)
    → let t' = (tpce_tasklet t int_stat).0 in
      (t'.dma_info ≡ t.dma_info) × (t'.dma_mappings ≡ t.dma_mappings)
tasklet-same t int_stat =
    let start : Tpce × List ℕ = (record t { irqsrc = 0 }, []) in
    let a = tasklet_dma t.irqsrc irq_dma0 0 start in
    let b = tasklet_dma t.irqsrc irq_dma1 1 a in
    let c = tasklet_dma t.irqsrc irq_dma2 2 b in
    let f = block-same t.irqsrc irq_dma0 0 start in
    let g = block-same t.irqsrc irq_dma1 1 a in
    let h = block-same t.irqsrc irq_dma2 2 b in
    let end = finish-same t.irqsrc int_stat c.0 in
    (end.0 ∙ h.0 ∙ g.0 ∙ f.0, end.1 ∙ h.1 ∙ g.1 ∙ f.1)

pub tasklet-dma_info : (t : Tpce) (int_stat : ℕ) → (tpce_tasklet t int_stat).0.dma_info ≡ t.dma_info
tasklet-dma_info t int_stat = (tasklet-same t int_stat).0

pub tasklet-SameLinks : (t : Tpce) (int_stat : ℕ) → SameLinks t (tpce_tasklet t int_stat).0
tasklet-SameLinks t int_stat =
    let same = tasklet-same t int_stat in SameLinks-refl t _ same.0 same.1
