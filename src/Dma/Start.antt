-- ===== src/Dma/Start.antt =====
-- `tpce_dma_start` as a whole: what the device finds in its registers and in memory.
pub mod Steps
pub mod Program
pub mod Relink
pub mod Running
use tpce2drv.Prelude.{
  ℕ, zero, suc, ◌+◌, ◌-◌, ◌*◌, ◌/◌, ◌%◌, ◌^◌, ◌≤◌, ◌<◌, ◌==◌, if◌then◌else◌, ◌≡◌, ◌≢◌, ◌⊎◌, refl,
  arith, Bool, true, false, List, Option, none, some, ℤ, pos, Bool-cases, inl, inr, ◌∙◌, ap, ap₂,
  sym, subst, bit_and, bit_or, u32, update, ◌&&◌,
}
use tpce2drv.Prelude.Bits.Masks.{bit_and-low, bit_or-fields}
use tpce2drv.Types.{Descriptor, descriptor_size, from_device, mode_stream}
use tpce2drv.PageTable.{
  PageTable, any_channel, pcie_page_free_by_channel_id, translation_mask_64, pcie_page_alloc,
  pcie_page_active, is_used, table_size,
}
use tpce2drv.PageTable.Slots.{IsValid, entry}
use tpce2drv.PageTable.Room.{room}
use tpce2drv.PageTable.Laws.{alloc-cases, Allocated}
use tpce2drv.PageTable.Translate.{page_of, translate_64-fields}
use tpce2drv.Device.{
  Tpce, DmaInfo, with_info, Result, failed, ok, enospc, efault, running, initialized,
  is_initialized,
}
use tpce2drv.Dma.{
  Translation, translated, translate_all, translate_descriptor_link_addr,
  translate_descriptor_rw_addr, link, link_all, build_descriptor_links, set_page_regs,
  set_page_translation_regs, start_dma_controller, run_controller, after_translation, after_link,
  dma_start, mark_running, tpce_dma_start,
}
use tpce2drv.Dma.Links.{page_regs-same}
use tpce2drv.Dma.Laws.{build_links-chain, build_links-address}
use tpce2drv.Dma.Registers.{
  HasPage, page_regs-HasPage, HasPage-device_address, device_address, IsStarted, read_back, low_reg,
  high_reg, controller-IsStarted,
}
use tpce2drv.Dma.Translate.{write_address}
use tpce2drv.Dma.Translate.Round.{page_at, Keeps, Reached}
use tpce2drv.Dma.Translate.Loop.{Done, translate_all-Done}
use tpce2drv.Dma.Translate.Whole.{IsOrderly, orderly-IsTidy}
use tpce2drv.Dma.Start.Steps.{
  with_info_self, link_address, linked_at, link_addr-cases, stored, translated-cases, rw_addr-cases,
}
use tpce2drv.Dma.Start.Program.{
  IsProgrammed, HasPage-kept, controller-kept, program-IsProgrammed, relinked, page_regs_lem,
  run_lem, run-IsProgrammed, Reached-address,
}
use tpce2drv.Dma.Start.Relink.{
  IsRelinked, after_translation-ok, after_link-some, after_translation-failed,
  after_link-IsRelinked,
}
use tpce2drv.Dma.Start.Running.{IsReady, IsRunning, at_slot, relinked-IsRunning}

linked_start :
    (t t1 : Tpce) (ch : ℕ) (stale : ℤ)
    → (t.dma_info ch).state ≡ initialized
    → (r : Result ℕ) → translate_descriptor_link_addr t ch ≡ (t1, r)
    → dma_start t ch stale ≡ after_link ch stale t1 r
unfolding dma_start
linked_start t t1 ch stale e r q =
    let test : is_initialized (t.dma_info ch).state ≡ true = rw e refl in
    ap
      (λ b.
        if b
        then (let (t2, x) = translate_descriptor_link_addr t ch in after_link ch stale t2 x)
        else (t, failed efault))
      test
    ∙ ap (λ (y : Tpce × Result ℕ). after_link ch stale y.0 y.1) q

mark_failed :
    (ch : ℕ) (y : Tpce × Result ℕ)
    → y.1 ≡ failed enospc
    → (mark_running ch y.0 y.1).1 ≡ failed enospc
mark_failed ch y e = rw e refl

after_link-failed :
    (ch : ℕ) (stale : ℤ) (y : Tpce × Result ℕ)
    → y.1 ≡ failed enospc
    → (after_link ch stale y.0 y.1).1 ≡ failed enospc
unfolding after_link
after_link-failed ch stale y e = rw e refl

marked :
    (t : Tpce) (ch : ℕ) (stale : ℤ)
    → tpce_dma_start t ch stale ≡ mark_running ch (dma_start t ch stale).0 (dma_start t ch stale).1
unfolding tpce_dma_start
marked t ch stale = refl

-- The slot of the list
Allocated-slot :
    {t t' : PageTable} {v c k : ℕ} {r : ℤ}
    → Allocated t v c t' r k
    → (pcie_page_active t' k c ≡ true) × (t'.pages k ≡ v)
unfolding entry is_used
Allocated-slot {k = k} a = let e = a.entries k in (ground arith, ground arith)

-- From the point where the list has its address
from_list :
    (t t1 : Tpce) (ch : ℕ) (buf : ℕ → Descriptor) (stale : ℤ) (k : ℕ)
    → IsReady t ch buf
    → t1.dma_info ch ≡ at_slot (t.dma_info ch) k
    → IsValid t1.page_table
    → (((after_link ch stale t1 (ok 0)).1 ≡ failed enospc)
        × (room 16 t1.page_table < (t1.dma_info ch).desc_active / descriptor_size))
      ⊎ ((t' : Tpce) × (after_link ch stale t1 (ok 0) ≡ (t', ok 0)) × IsRelinked t1 t' ch buf)
from_list t t1 ch buf stale k ready same v =
    after_link-IsRelinked t1 ch buf stale (ap (λ (i : DmaInfo). i.desc_dma) same ∙ ready.holds)
      (subst (λ (i : DmaInfo). i.params.channel ≢ any_channel) (sym same)
        (λ e. absurd (omega (arith, e, ready.channel))))
      v (ap (λ (i : DmaInfo). i.params.direction) same ∙ ready.receives)
      (subst (λ (i : DmaInfo). IsOrderly buf (i.desc_active / descriptor_size)) (sym same)
        ready.orderly)

-- For a channel that is ready and a valid table, tpce_dma_start returns -ENOSPC, and then the table had
-- no free slot for each of the active descriptors and one more; or it returns 0 with the channel
-- RUNNING and its controller told to run: by the registers of the device the list is at its
-- address, and each of the active descriptors names in both words the address of its data and of the
-- next one, in a ring for a stream, and is handed to the hardware; after those of another transfer
-- comes a cleared one.
pub start-IsRunning :
    (t : Tpce) (ch : ℕ) (buf : ℕ → Descriptor) (stale : ℤ)
    → IsValid t.page_table
    → IsReady t ch buf
    → let (t', r) = tpce_dma_start t ch stale in
      ((r ≡ failed enospc) × (room 16 t.page_table ≤ (t.dma_info ch).desc_active / descriptor_size))
      ⊎ ((r ≡ ok 0) × IsRunning t t' ch buf)
start-IsRunning t ch buf stale v ready =
    let info = t.dma_info ch in
    let table = (pcie_page_alloc t.page_table (page_at info.desc_bus_addr) info.params.channel).0 in
    let Wanted = λ (y : Tpce × Result ℕ).
      ((y.1 ≡ failed enospc) × (room 16 t.page_table ≤ info.desc_active / descriptor_size))
      ⊎ ((y.1 ≡ ok 0) × IsRunning t y.0 ch buf) in
    let finish =
      λ (y : Tpce × Result ℕ) (e : dma_start t ch stale ≡ y) (w : Wanted (mark_running ch y.0 y.1)).
        subst Wanted
          (sym (marked t ch stale ∙ ap (λ (x : Tpce × Result ℕ). mark_running ch x.0 x.1) e)) w in
    let x = translate_descriptor_link_addr t ch in
    elim (link_addr-cases t ch v) [
      | inl (e, h) ↦
          let y = after_link ch stale x.0 x.1 in
          finish y (linked_start t x.0 ch stale ready.state x.1 refl)
            (inl (mark_failed ch y (after_link-failed ch stale x e), omega (arith, h)))
      | inr (k, al, room1, e) ↦
          let t1 = linked_at t ch table (k * 2 ^ 18 + info.desc_bus_addr % 2 ^ 18) in
          let same = with_info_self (record t { page_table = table }) ch (at_slot info k) in
          let begin = linked_start t t1 ch stale ready.state (ok 0) e in
          elim (from_list t t1 ch buf stale k ready same al.valid) [
            | inl (f, h) ↦
                let y = after_link ch stale t1 (ok 0) in
                let active = ap (λ (i : DmaInfo). i.desc_active) same in
                finish y begin (inl (mark_failed ch y f, omega (arith, h, active, room1)))
            | inr (t', q, r) ↦
                let slot = Allocated-slot al in
                finish (t', ok 0) (begin ∙ q)
                  (inr
                    (refl, relinked-IsRunning t t1 t' ch k buf ready same al.below slot.0 slot.1 r))
          ]
    ]
