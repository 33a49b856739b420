-- ===== src/Dma/Start/Relink.antt =====
-- linux/dma.c: `dma_start` from the point where the list of descriptors has its address.
use tpce2drv.Prelude.{ℕ, ◌/◌, ◌<◌, ◌≡◌, ◌≢◌, ◌⊎◌, refl, arith, some, ℤ, inl, inr, ◌∙◌, ap, sym}
use tpce2drv.Types.{Descriptor, descriptor_size, from_device}
use tpce2drv.PageTable.{any_channel}
use tpce2drv.PageTable.Slots.{IsValid}
use tpce2drv.PageTable.Room.{room}
use tpce2drv.Device.{Tpce, DmaInfo, Result, failed, ok, enospc}
use tpce2drv.Dma.{translate_descriptor_rw_addr, run_controller, after_translation, after_link}
use tpce2drv.Dma.Translate.{write_address}
use tpce2drv.Dma.Translate.Round.{Keeps, Reached}
use tpce2drv.Dma.Translate.Room.{looped}
use tpce2drv.Dma.Translate.Loop.{translate_all-Done}
use tpce2drv.Dma.Translate.Whole.{IsOrderly, orderly-IsTidy}
use tpce2drv.Dma.Start.Steps.{with_info_self, stored, rw_addr-cases}
use tpce2drv.Dma.Start.Program.{IsProgrammed, relinked, run-IsProgrammed}

-- What `dma_start` does once the list has its address: the data of the list that it leaves
pub record IsRelinked (t t' : Tpce) (ch : ℕ) (buf : ℕ → Descriptor) : Type 0 where
  pub mid : Tpce
  pub list : ℕ → Descriptor
  pub info : mid.dma_info ch ≡ record (t.dma_info ch) { desc_dma = some list }
  pub keeps : Keeps t.page_table mid.page_table
  pub entries :
      (j : ℕ)
      → j < (t.dma_info ch).desc_active / descriptor_size
      → Reached mid.page_table
          (t.dma_info ch).params.channel
          (write_address (list j))
          (write_address (buf j))
  pub programmed : IsProgrammed mid t' ch (relinked mid ch list)

pub after_translation-ok :
    (t : Tpce) (ch used : ℕ) (buf : ℕ → Descriptor)
    → (t.dma_info ch).desc_dma ≡ some buf
    → after_translation ch t (ok used) ≡ (run_controller t ch buf, ok 0)
after_translation-ok t ch used buf e = rw (e, after_translation) refl

pub after_link-some :
    (t : Tpce) (ch : ℕ) (stale : ℤ) (buf : ℕ → Descriptor)
    → (t.dma_info ch).desc_dma ≡ some buf
    → after_link ch stale t (ok 0)
      ≡ (let (t1, r) = translate_descriptor_rw_addr t ch buf stale in after_translation ch t1 r)
unfolding after_link
after_link-some t ch stale buf e = rw (e, after_link) refl

pub after_translation-failed :
    (t : Tpce) (ch : ℕ) (r : Result ℕ)
    → r ≡ failed enospc
    → (after_translation ch t r).1 ≡ failed enospc
after_translation-failed t ch r e = rw e refl

pub after_link-IsRelinked :
    (t : Tpce) (ch : ℕ) (buf : ℕ → Descriptor) (stale : ℤ)
    → (t.dma_info ch).desc_dma ≡ some buf
    → (t.dma_info ch).params.channel ≢ any_channel
    → IsValid t.page_table
    → (t.dma_info ch).params.direction ≡ from_device
    → IsOrderly buf ((t.dma_info ch).desc_active / descriptor_size)
    → (((after_link ch stale t (ok 0)).1 ≡ failed enospc)
        × (room 16 t.page_table < (t.dma_info ch).desc_active / descriptor_size))
      ⊎ ((t' : Tpce) × (after_link ch stale t (ok 0) ≡ (t', ok 0)) × IsRelinked t t' ch buf)
after_link-IsRelinked t ch buf stale some_buf real v dir o =
    let s = looped t ch buf stale in
    let x = translate_descriptor_rw_addr t ch buf stale in
    let begin = after_link-some t ch stale buf some_buf in
    elim (rw_addr-cases t ch buf stale v dir) [
      | inl (e, h) ↦
          inl (ap (λ (y : Tpce × Result ℕ). y.1) begin ∙ after_translation-failed x.0 ch x.1 e, h)
      | inr (nf, e) ↦
          let mid = stored t ch s in
          let info =
            with_info_self (record t { page_table = s.table }) ch
              (record (t.dma_info ch) { desc_dma = some s.buf }) in
          let d =
            translate_all-Done (λ j. write_address (buf j))
              ((t.dma_info ch).desc_active / descriptor_size) 0 (t.dma_info ch).params.channel _
              real v (λ j a b. refl) (orderly-IsTidy o)
              (λ more z. absurd (o.not_zero 0 more (sym z))) nf in
          let end =
            ap (λ (y : Tpce × Result ℕ). after_translation ch y.0 y.1) e
            ∙ after_translation-ok mid ch s.used_entries s.buf
                (ap (λ (i : DmaInfo). i.desc_dma) info) in
          inr (
            run_controller mid ch s.buf,
            begin ∙ end,
            record {
              mid = mid;
              list = s.buf;
              info = info;
              keeps = d.keeps;
              entries = λ j lt. d.entries j (omega arith) (omega arith);
              programmed = run-IsProgrammed mid ch s.buf;
            },
          )
    ]
