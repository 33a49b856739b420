-- ===== src/Dma/Fast.antt =====
-- linux/dma.c: the mask of the interrupts that are handled at once, through the start of a transfer.
use tpce2drv.Prelude.{
  ℕ, zero, suc, ◌==◌, ◌+◌, ◌/◌, if◌then◌else◌, ◌≡◌, refl, ◌∙◌, Bool, true, false, Bool-cases, some,
  Option-cases, inl, inr, ℤ, bit_and, bit_or,
}
use tpce2drv.Types.{Descriptor, from_device, to_device}
use tpce2drv.PageTable.{
  PageTable, pcie_page_active, pcie_page_alloc, translation_mask_64, table_size,
}
use tpce2drv.Device.{Tpce, Result, failed, ok, enosys, einval, with_info, is_initialized}
use tpce2drv.Dma.{
  is_minus_one, build_descriptor_links, translate_descriptor_link_addr, Translation, translate_all,
  translate_descriptor_rw_addr, set_page_regs, set_page_translation_regs, start_dma_controller,
  run_controller, after_translation, after_link, dma_start, mark_running, enable_stream_irq,
  after_enable, tpce_dma_stream_start, irq_bit,
}

-- The mask that a step with a result leaves
record Leaves (mask : ℕ) (x : Tpce × Result ℕ) : Type 0 where
  same : x.0.fast_irq_mask ≡ mask

Leaves-if :
    (mask : ℕ) (b : Bool) (x y : Tpce × Result ℕ)
    → Leaves mask x
    → Leaves mask y
    → Leaves mask (if b then x else y)
Leaves-if mask true x y h k = h
Leaves-if mask false x y h k = k

link_addr-Leaves :
    (t : Tpce) (ch : ℕ) → Leaves t.fast_irq_mask (translate_descriptor_link_addr t ch)
unfolding translate_descriptor_link_addr
link_addr-Leaves t ch =
    let info = t.dma_info ch in
    let page = bit_and info.desc_bus_addr translation_mask_64 in
    let slot = (pcie_page_alloc t.page_table page info.params.channel).1 in
    Leaves-if t.fast_irq_mask (is_minus_one slot) _ _ (record { same = refl })
      (record { same = refl })

rw_addr-Leaves :
    (t : Tpce) (ch : ℕ) (buf : ℕ → Descriptor) (stale : ℤ)
    → Leaves t.fast_irq_mask (translate_descriptor_rw_addr t ch buf stale)
unfolding translate_descriptor_rw_addr
rw_addr-Leaves t ch buf stale =
    let info = t.dma_info ch in
    let start : Translation = record {
      table = t.page_table;
      buf = buf;
      curr_page = 0;
      slot = stale;
      used_entries = 0;
      full = false;
    } in
    let after = translate_all (info.desc_active / 64) 0 info.params.channel start in
    let mask = t.fast_irq_mask in
    Leaves-if mask (info.params.direction == from_device) _ _
      (Leaves-if mask after.full _ _ (record { same = refl }) (record { same = refl }))
      (Leaves-if mask (info.params.direction == to_device) (t, failed enosys) (t, failed einval)
        (record { same = refl }) (record { same = refl }))

page_regs-same :
    (left i : ℕ) (table : PageTable) (channel : ℕ) (t : Tpce)
    → (set_page_regs left i table channel t).fast_irq_mask ≡ t.fast_irq_mask
unfolding set_page_regs
page_regs-same zero i table channel t = refl
page_regs-same (suc left) i table channel t = elim (Bool-cases (pcie_page_active table i channel)) [
  | inl e ↦ rw (e, set_page_regs) (page_regs-same left (i + 1) table channel _)
  | inr e ↦ rw (e, set_page_regs) (page_regs-same left (i + 1) table channel t)
]

run-same :
    (t : Tpce) (ch : ℕ) (buf : ℕ → Descriptor)
    → (run_controller t ch buf).fast_irq_mask ≡ t.fast_irq_mask
unfolding run_controller set_page_translation_regs start_dma_controller
run-same t ch buf =
    let info = t.dma_info ch in
    let t1 = with_info t ch (record info { desc_dma = some (build_descriptor_links info buf) }) in
    page_regs-same table_size 0 t1.page_table (t1.dma_info ch).params.channel t1

after_translation-Leaves :
    (t : Tpce) (ch : ℕ) (r : Result ℕ) → Leaves t.fast_irq_mask (after_translation ch t r)
after_translation-Leaves t ch (failed e) = record { same = refl }
after_translation-Leaves t ch (ok n) = elim (Option-cases (t.dma_info ch).desc_dma) [
  | inl e ↦ rw (e, after_translation) (record { same = refl })
  | inr (buf, e) ↦ rw (e, after_translation) (record { same = run-same t ch buf })
]

-- One step after another
Leaves-then :
    (mask : ℕ) (x y : Tpce × Result ℕ) → Leaves mask x → Leaves x.0.fast_irq_mask y → Leaves mask y
Leaves-then mask x y f g = record { same = g.same ∙ f.same }

after_link-Leaves :
    (t : Tpce) (ch : ℕ) (stale : ℤ) (r : Result ℕ)
    → Leaves t.fast_irq_mask (after_link ch stale t r)
unfolding after_link
after_link-Leaves t ch stale (failed e) = record { same = refl }
after_link-Leaves t ch stale (ok n) = elim (Option-cases (t.dma_info ch).desc_dma) [
  | inl e ↦ rw (e, after_link) (record { same = refl })
  | inr (buf, e) ↦
      let x = translate_descriptor_rw_addr t ch buf stale in
      rw (e, after_link)
        (Leaves-then t.fast_irq_mask x _ (rw_addr-Leaves t ch buf stale)
          (after_translation-Leaves x.0 ch x.1))
]

dma_start-Leaves : (t : Tpce) (ch : ℕ) (stale : ℤ) → Leaves t.fast_irq_mask (dma_start t ch stale)
unfolding dma_start
dma_start-Leaves t ch stale =
    let x = translate_descriptor_link_addr t ch in
    Leaves-if t.fast_irq_mask (is_initialized (t.dma_info ch).state) _ _
      (Leaves-then t.fast_irq_mask x _ (link_addr-Leaves t ch) (after_link-Leaves x.0 ch stale x.1))
      (record { same = refl })

mark-same :
    (ch : ℕ) (t : Tpce) (r : Result ℕ) → (mark_running ch t r).0.fast_irq_mask ≡ t.fast_irq_mask
mark-same ch t (failed e) = refl
mark-same ch t (ok n) = refl

-- Whether the start of a stream succeeds or fails, the interrupt of its channel is in the mask
-- afterwards; a failed start does not take it out.
pub stream_start-mask :
    (t : Tpce) (ch mask : ℕ) (stale : ℤ)
    → irq_bit ch ≡ some mask
    → (tpce_dma_stream_start t ch stale).0.fast_irq_mask ≡ bit_or t.fast_irq_mask mask
unfolding tpce_dma_stream_start enable_stream_irq after_enable
stream_start-mask t ch mask stale e =
    let t1 = record t { fast_irq_mask = bit_or t.fast_irq_mask mask } in
    let x = dma_start t1 ch stale in
    rw (e, enable_stream_irq) (mark-same ch x.0 x.1 ∙ (dma_start-Leaves t1 ch stale).same)
