-- ===== src/Dma/Links.antt =====
-- linux/dma.c: starts, aborts and completions, and the links between channels and mappings.
use tpce2drv.Prelude.{
  ℕ, zero, suc, ◌==◌, ◌+◌, ◌/◌, ◌≡◌, refl, Bool-cases, some, Option-cases, inl, inr, false, ℤ,
}
use tpce2drv.Types.{Descriptor, from_device, to_device, mode_stream}
use tpce2drv.PageTable.{PageTable, pcie_page_active, table_size}
use tpce2drv.Device.{Tpce, error, is_running, Result, failed, ok, with_info, enosys, einval}
use tpce2drv.Device.Links.{
  SameLinks, SameLinks-trans, SameLinks-refl, with_info-SameLinks, with_info-after, Passes,
  Passes-if, Passes-then, Passes-same,
}
use tpce2drv.Dma.{
  build_descriptor_links, translate_descriptor_link_addr, Translation, translated, translate_all,
  translate_descriptor_rw_addr, set_page_regs, set_page_translation_regs, start_dma_controller,
  run_controller, after_translation, after_link, dma_start, mark_running, tpce_dma_start,
  enable_stream_irq, after_enable, irq_bit, tpce_dma_stream_start,
}
use tpce2drv.Dma.Stop.{tpce_dma_completion}

link_addr-Passes : (t : Tpce) (ch : ℕ) → Passes t (translate_descriptor_link_addr t ch)
unfolding translate_descriptor_link_addr
link_addr-Passes t ch =
    Passes-if t _ _ _ (record { passed = SameLinks-refl t _ refl refl })
      (record { passed = with_info-after t _ ch _ refl refl refl (λ o h. h) })

translated-Passes : (t : Tpce) (ch : ℕ) (s : Translation) → Passes t (translated t ch s)
translated-Passes t ch s =
    let stored = record t { page_table = s.table } in
    let info = record (t.dma_info ch) { desc_dma = some s.buf } in
    let after = with_info-after t stored ch info refl refl refl (λ o h. h) in
    Passes-if t s.full _ _
      (record {
        passed =
            SameLinks-trans t (with_info stored ch info) _ after (SameLinks-refl _ _ refl refl);
      })
      (record { passed = after })

rw_addr-Passes :
    (t : Tpce) (ch : ℕ) (buf : ℕ → Descriptor) (stale : ℤ)
    → Passes t (translate_descriptor_rw_addr t ch buf stale)
unfolding translate_descriptor_rw_addr
rw_addr-Passes t ch buf stale =
    let info = t.dma_info ch in
    let start : Translation = record {
      table = t.page_table;
      buf = buf;
      curr_page = 0;
      slot = stale;
      used_entries = 0;
      full = false;
    } in
    let after = translate_all (info.desc_active / 64) 0 info.params.channel start in
    Passes-if t (info.params.direction == from_device) _ _ (translated-Passes t ch after) (
      Passes-if t (info.params.direction == to_device) _ _ (Passes-same t (failed enosys))
        (Passes-same t (failed einval)))

-- The loop only writes registers.
pub page_regs-same :
    (left i : ℕ) (table : PageTable) (channel : ℕ) (t : Tpce)
    → let t' = set_page_regs left i table channel t in
      (t'.dma_info ≡ t.dma_info) × (t'.dma_mappings ≡ t.dma_mappings)
unfolding set_page_regs
page_regs-same zero i table channel t = (refl, refl)
page_regs-same (suc left) i table channel t = elim (Bool-cases (pcie_page_active table i channel)) [
  | inl e ↦ rw (e, set_page_regs) (page_regs-same left (i + 1) table channel _)
  | inr e ↦ rw (e, set_page_regs) (page_regs-same left (i + 1) table channel t)
]

run-SameLinks : (t : Tpce) (ch : ℕ) (buf : ℕ → Descriptor) → SameLinks t (run_controller t ch buf)
unfolding run_controller set_page_translation_regs start_dma_controller
run-SameLinks t ch buf =
    let info = record (t.dma_info ch) {
      desc_dma = some (build_descriptor_links (t.dma_info ch) buf);
    } in
    let t1 = with_info t ch info in
    let channel = (t1.dma_info ch).params.channel in
    let same = page_regs-same table_size 0 t1.page_table channel t1 in
    SameLinks-trans t t1 _ (with_info-SameLinks t ch info refl (λ o h. h))
      (SameLinks-refl t1 _ same.0 same.1)

after_translation-Passes : (t : Tpce) (ch : ℕ) (r : Result ℕ) → Passes t (after_translation ch t r)
after_translation-Passes t ch (failed e) = record {
  passed =
      SameLinks-trans t (with_info t ch (record (t.dma_info ch) { state = error })) _
        (with_info-SameLinks t ch _ refl (λ o h. refl)) (SameLinks-refl _ _ refl refl);
}
after_translation-Passes t ch (ok n) = elim (Option-cases (t.dma_info ch).desc_dma) [
  | inl e ↦ rw (e, after_translation) (Passes-same t _)
  | inr (buf, e) ↦ rw (e, after_translation) (record { passed = run-SameLinks t ch buf })
]

after_link-Passes :
    (t : Tpce) (ch : ℕ) (stale : ℤ) (r : Result ℕ) → Passes t (after_link ch stale t r)
unfolding after_link
after_link-Passes t ch stale (failed e) = Passes-same t _
after_link-Passes t ch stale (ok n) = elim (Option-cases (t.dma_info ch).desc_dma) [
  | inl e ↦ rw (e, after_link) (Passes-same t _)
  | inr (buf, e) ↦
      let x = translate_descriptor_rw_addr t ch buf stale in
      rw (e, after_link)
        (Passes-then t x _ (rw_addr-Passes t ch buf stale) (after_translation-Passes x.0 ch x.1))
]

dma_start-Passes : (t : Tpce) (ch : ℕ) (stale : ℤ) → Passes t (dma_start t ch stale)
unfolding dma_start
dma_start-Passes t ch stale =
    let x = translate_descriptor_link_addr t ch in
    Passes-if t _ _ _
      (Passes-then t x _ (link_addr-Passes t ch) (after_link-Passes x.0 ch stale x.1))
      (Passes-same t _)

mark-Passes : (t : Tpce) (ch : ℕ) (r : Result ℕ) → Passes t (mark_running ch t r)
mark-Passes t ch (failed e) = Passes-same t _
mark-Passes t ch (ok n) = record { passed = with_info-SameLinks t ch _ refl (λ o h. refl) }

pub start-Passes : (t : Tpce) (ch : ℕ) (stale : ℤ) → Passes t (tpce_dma_start t ch stale)
unfolding tpce_dma_start
start-Passes t ch stale =
    let x = dma_start t ch stale in
    Passes-then t x _ (dma_start-Passes t ch stale) (mark-Passes x.0 ch x.1)

after_enable-Passes :
    (t : Tpce) (ch : ℕ) (stale : ℤ) (r : Result ℕ) → Passes t (after_enable ch stale t r)
unfolding after_enable
after_enable-Passes t ch stale (failed e) = Passes-same t _
after_enable-Passes t ch stale (ok n) =
    let x = dma_start t ch stale in
    Passes-then t x _ (dma_start-Passes t ch stale) (mark-Passes x.0 ch x.1)

enable-Passes : (t : Tpce) (ch : ℕ) → Passes t (enable_stream_irq t ch)
unfolding enable_stream_irq
enable-Passes t ch = elim (Option-cases (irq_bit ch)) [
  | inl e ↦ rw (e, enable_stream_irq) (Passes-same t _)
  | inr (k, e) ↦ rw (e, enable_stream_irq) (record { passed = SameLinks-refl t _ refl refl })
]

pub stream_start-Passes :
    (t : Tpce) (ch : ℕ) (stale : ℤ) → Passes t (tpce_dma_stream_start t ch stale)
unfolding tpce_dma_stream_start
stream_start-Passes t ch stale =
    let x = enable_stream_irq t ch in
    Passes-then t x _ (enable-Passes t ch) (after_enable-Passes x.0 ch stale x.1)

pub completion-SameLinks : (t : Tpce) (ch : ℕ) → SameLinks t (tpce_dma_completion t ch)
completion-SameLinks t ch =
    elim (Bool-cases ((t.dma_info ch).params.transfer_mode == mode_stream)) [
      | inl e ↦ rw e (SameLinks-refl t t refl refl)
      | inr e ↦ elim (Bool-cases (is_running (t.dma_info ch).state)) [
        | inl r ↦ rw (e, r) (with_info-SameLinks t ch _ refl (λ o h. refl))
        | inr r ↦ rw (e, r) (SameLinks-refl t t refl refl)
      ]
    ]
