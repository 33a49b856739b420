-- ===== src/Dma/Start/Program.antt =====
-- linux/dma.c: the registers that a start writes.
use tpce2drv.Prelude.{ℕ, ◌^◌, ◌<◌, ◌≡◌, refl, arith, true, List, some, ◌∙◌, ap, sym, subst}
use tpce2drv.Types.{Descriptor}
use tpce2drv.PageTable.{pcie_page_active, is_used, table_size}
use tpce2drv.PageTable.Translate.{translate_64-fields}
use tpce2drv.Device.{Tpce, DmaInfo, with_info}
use tpce2drv.Dma.{
  build_descriptor_links, set_page_regs, set_page_translation_regs, start_dma_controller,
  run_controller,
}
use tpce2drv.Dma.Links.{page_regs-same}
use tpce2drv.Dma.Registers.{
  HasPage, page_regs-HasPage, HasPage-device_address, device_address, IsStarted, read_back, low_reg,
  high_reg, controller-IsStarted,
}
use tpce2drv.Dma.Translate.Round.{Reached}
use tpce2drv.Dma.Start.Steps.{with_info_self}

-- What the device finds in its registers after the last part of a start
pub record IsProgrammed (t t' : Tpce) (ch : ℕ) (info : DmaInfo) : Type 0 where
  pub started :
      IsStarted t'.bar2_writes info.params.channel info.params.transfer_mode
        info.desc_bus_addr_translated
  pub pages :
      (k : ℕ)
      → k < 16
      → pcie_page_active t.page_table k info.params.channel ≡ true
      → HasPage t'.bar2_writes k (t.page_table.pages k)
  pub kept : t'.dma_info ch ≡ info

pub HasPage-kept :
    {w w' : List (ℕ × ℕ)} (k page : ℕ)
    → ((o : ℕ) → o < 0x4000 → read_back o w' ≡ read_back o w)
    → k < 16
    → HasPage w k page
    → HasPage w' k page
HasPage-kept k page same h p = record {
  low = same (low_reg k) (omega arith) ∙ p.low;
  high = same (high_reg k) (omega arith) ∙ p.high;
}

pub controller-kept : (t : Tpce) (ch : ℕ) → (start_dma_controller t ch).dma_info ≡ t.dma_info
unfolding start_dma_controller
controller-kept t ch = refl

pub program-IsProgrammed :
    (t : Tpce) (ch : ℕ) (info : DmaInfo)
    → t.dma_info ch ≡ info
    → IsProgrammed t
        (start_dma_controller (set_page_regs table_size 0 t.page_table info.params.channel t) ch)
        ch
        info
program-IsProgrammed t ch info e =
    let channel = info.params.channel in
    let t1 = set_page_regs table_size 0 t.page_table channel t in
    let w = (start_dma_controller t1 ch).bar2_writes in
    let same : t1.dma_info ch ≡ info =
      ap (λ (f : ℕ → DmaInfo). f ch) (page_regs-same table_size 0 t.page_table channel t).0 ∙ e in
    let c = controller-IsStarted t1 ch in
    record {
      started =
          subst
            (λ (i : DmaInfo).
              IsStarted w i.params.channel i.params.transfer_mode i.desc_bus_addr_translated)
            same c.0;
      pages = λ k h a.
          HasPage-kept k (t.page_table.pages k) c.1 h
            (page_regs-HasPage table_size 0 t.page_table channel t k (omega arith) (omega arith) a);
      kept = ap (λ (f : ℕ → DmaInfo). f ch) (controller-kept t1 ch) ∙ same;
    }

-- The last part of a start, for the list that the translation leaves
abbrev pub relinked : Tpce → ℕ → (ℕ → Descriptor) → DmaInfo
relinked t ch buf = record (t.dma_info ch) {
  desc_dma = some (build_descriptor_links (t.dma_info ch) buf);
}

pub page_regs_lem :
    (t : Tpce) (ch : ℕ) (info : DmaInfo)
    → t.dma_info ch ≡ info
    → set_page_translation_regs t ch ≡ set_page_regs table_size 0 t.page_table info.params.channel t
unfolding set_page_translation_regs
page_regs_lem t ch info e =
    ap (λ (i : DmaInfo). set_page_regs table_size 0 t.page_table i.params.channel t) e

pub run_lem :
    (t : Tpce) (ch : ℕ) (buf : ℕ → Descriptor)
    → run_controller t ch buf
      ≡ start_dma_controller (set_page_translation_regs (with_info t ch (relinked t ch buf)) ch) ch
unfolding build_descriptor_links set_page_translation_regs start_dma_controller
run_lem t ch buf = refl

pub run-IsProgrammed :
    (t : Tpce) (ch : ℕ) (buf : ℕ → Descriptor)
    → IsProgrammed t (run_controller t ch buf) ch (relinked t ch buf)
run-IsProgrammed t ch buf =
    let info = relinked t ch buf in
    let t1 = with_info t ch info in
    let here = with_info_self t ch info in
    let p = program-IsProgrammed t1 ch info here in
    let same =
      run_lem t ch buf
      ∙ ap (λ (x : Tpce). start_dma_controller x ch) (page_regs_lem t1 ch info here) in
    subst (λ (x : Tpce). IsProgrammed t x ch info) (sym same)
      (record { started = p.started; pages = p.pages; kept = p.kept })

-- A translated address, as the device reads it
pub Reached-address :
    {t t' : Tpce} {ch : ℕ} {info : DmaInfo} {low a : ℕ}
    → IsProgrammed t t' ch info
    → a < 2 ^ 64
    → Reached t.page_table info.params.channel low a
    → device_address t'.bar2_writes low ≡ some a
unfolding is_used
Reached-address {t} {t'} {ch} {info} {low} {a} p h r =
    let channel = info.params.channel in
    let active : pcie_page_active t.page_table r.slot channel ≡ true =
      ground (arith, r.used, r.owner) in
    let page = subst (HasPage t'.bar2_writes r.slot) r.content (p.pages r.slot r.below active) in
    rw (r.is, translate_64-fields a r.slot r.below) (HasPage-device_address r.slot a h page)
