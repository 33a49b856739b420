-- ===== src/Dma/Registers.antt =====
-- The registers of BAR 2 as the device sees them after the writes of a start.
use mathlib.Core.Option
use tpce2drv.Prelude.{
  ℕ, zero, suc, ◌+◌, ◌*◌, ◌/◌, ◌%◌, ◌^◌, ◌≤◌, ◌<◌, ◌==◌, if◌then◌else◌, ◌≡◌, refl, arith, true,
  List, [], ◌∷◌, Option, none, some, Bool-cases, inl, inr, ◌∙◌, ap, ap₂, sym, subst, bit_and,
  bit_or, u32, ==_iff,
}
use tpce2drv.Prelude.Bits.Masks.{bit_and-high, bit_or-fields}
use tpce2drv.Types.{mode_stream}
use tpce2drv.PageTable.{PageTable, pcie_page_active, translation_mask, translation_mask_64}
use tpce2drv.PageTable.Translate.{page_of}
use tpce2drv.Device.{Tpce}
use tpce2drv.Dma.{set_page_regs, start_dma_controller}

-- What a register holds: the value that was written to it last.
pub read_back : ℕ → List (ℕ × ℕ) → Option ℕ
read_back o [] = none
read_back o ((p, v) ∷ w) = if p == o then some v else read_back o w

abbrev pub low_reg : ℕ → ℕ
low_reg k = 0x1000 + 8 * k

abbrev pub high_reg : ℕ → ℕ
high_reg k = 0x1004 + 8 * k

-- The two registers of a slot hold the page in it, with the bit of the 64-bit address space.
pub record HasPage (w : List (ℕ × ℕ)) (k page : ℕ) : Type 0 where
  pub low : read_back (low_reg k) w ≡ some (bit_or (bit_and (u32 page) translation_mask) 1)
  pub high : read_back (high_reg k) w ≡ some (u32 (page / 2 ^ 32))

page_regs-kept :
    (left i : ℕ) (table : PageTable) (channel : ℕ) (t : Tpce) (o : ℕ)
    → o < low_reg i
    → read_back o (set_page_regs left i table channel t).bar2_writes ≡ read_back o t.bar2_writes
unfolding set_page_regs read_back
page_regs-kept zero i table channel t o h = refl
page_regs-kept (suc left) i table channel t o h =
    elim (Bool-cases (pcie_page_active table i channel)) [
      | inl e ↦
          rw (e, set_page_regs)
            (page_regs-kept left (i + 1) table channel _ o (omega arith) ∙ ground arith)
      | inr e ↦ rw (e, set_page_regs) (page_regs-kept left (i + 1) table channel t o (omega arith))
    ]

pub page_regs-HasPage :
    (left i : ℕ) (table : PageTable) (channel : ℕ) (t : Tpce) (k : ℕ)
    → i ≤ k
    → k < i + left
    → pcie_page_active table k channel ≡ true
    → HasPage (set_page_regs left i table channel t).bar2_writes k (table.pages k)
unfolding set_page_regs read_back
page_regs-HasPage zero i table channel t k h l a = absurd (omega arith)
page_regs-HasPage (suc left) i table channel t k h l a = elim (Bool-cases (k == i)) [
  | inl e ↦
      let same : k ≡ i = (==_iff k i).0 e in
      let act : pcie_page_active table i channel ≡ true =
        subst (λ x. pcie_page_active table x channel ≡ true) same a in
      subst
        (λ x. HasPage (set_page_regs (suc left) i table channel t).bar2_writes x (table.pages x))
        (sym same)
        (rw (act, set_page_regs)
          (record {
            low =
                page_regs-kept left (i + 1) table channel _ (low_reg i) (omega arith)
                ∙ ground arith;
            high =
                page_regs-kept left (i + 1) table channel _ (high_reg i) (omega arith)
                ∙ ground arith;
          }))
  | inr e ↦ elim (Bool-cases (pcie_page_active table i channel)) [
    | inl x ↦
        rw (x, set_page_regs)
          (page_regs-HasPage left (i + 1) table channel _ k (ground arith) (omega arith) a)
    | inr x ↦
        rw (x, set_page_regs)
          (page_regs-HasPage left (i + 1) table channel t k (ground arith) (omega arith) a)
  ]
]

-- The page in the registers of a slot
abbrev page_in : Option ℕ → Option ℕ → Option ℕ
page_in (some lo) (some hi) = some (hi * 2 ^ 32 + lo / 2 ^ 18 * 2 ^ 18)
page_in lo hi = none

-- Where an address of the device leads by its registers: the slot that it names gives the page.
pub device_address : List (ℕ × ℕ) → ℕ → Option ℕ
device_address w a =
    let slot = a / 2 ^ 18 in
    Option.map (λ page. page + a % 2 ^ 18)
      (page_in (read_back (low_reg slot) w) (read_back (high_reg slot) w))

page_word :
    (page : ℕ)
    → page % 2 ^ 18 ≡ 0
    → bit_or (bit_and (u32 page) translation_mask) 1 / 2 ^ 18 * 2 ^ 18 ≡ u32 page
page_word page h =
    let word = bit_and-high 18 14 (u32 page) (omega arith) in
    omega (
      arith,
      word,
      bit_or-fields 18 (u32 page / 2 ^ 18) 1 (omega arith),
      ap (λ (x : ℕ). bit_or x 1) word,
    )

-- With the page of an address in a slot, the address made of the slot and the offset leads to it.
pub HasPage-device_address :
    {w : List (ℕ × ℕ)} (k a : ℕ)
    → a < 2 ^ 64
    → HasPage w k (bit_and a translation_mask_64)
    → device_address w (k * 2 ^ 18 + a % 2 ^ 18) ≡ some a
unfolding device_address
HasPage-device_address {w} k a h p =
    let slot : (k * 2 ^ 18 + a % 2 ^ 18) / 2 ^ 18 ≡ k = omega arith in
    let page = bit_and a translation_mask_64 in
    let whole = page_of a h in
    let low = ap (λ (x : ℕ). read_back (low_reg x) w) slot ∙ p.low in
    let high = ap (λ (x : ℕ). read_back (high_reg x) w) slot ∙ p.high in
    ap₂ (λ x y. Option.map (λ (page : ℕ). page + (k * 2 ^ 18 + a % 2 ^ 18) % 2 ^ 18) (page_in x y))
      low high
    ∙ ap some (omega (arith, whole, page_word page (omega (arith, whole))))

-- The registers of a channel that has been told to run: the address of the list, and the bits for its
-- mode, the interrupts and the run itself; the dispatcher is not stopped.
pub record IsStarted (w : List (ℕ × ℕ)) (channel mode next : ℕ) : Type 0 where
  pub next_low : read_back (0x5000 + channel * 0x2000 + 0x4) w ≡ some next
  pub next_high : read_back (0x5000 + channel * 0x2000 + 0x8) w ≡ some 0
  pub control : read_back (0x5000 + channel * 0x2000) w ≡ some (if mode == 1 then 0x19 else 0x9)
  pub dispatcher : read_back (0x4000 + channel * 0x2000 + 0x4) w ≡ some 0

pub controller-IsStarted :
    (t : Tpce) (ch : ℕ)
    → let info = t.dma_info ch in
      let w = (start_dma_controller t ch).bar2_writes in
      IsStarted w info.params.channel info.params.transfer_mode info.desc_bus_addr_translated
      × ((o : ℕ) → o < 0x4000 → read_back o w ≡ read_back o t.bar2_writes)
unfolding start_dma_controller read_back
controller-IsStarted t ch = (
  record {
    next_low = ground arith;
    next_high = ground arith;
    control = elim (Bool-cases ((t.dma_info ch).params.transfer_mode == mode_stream)) [
      | inl e ↦ rw e (ground arith)
      | inr e ↦ rw e (ground arith)
    ];
    dispatcher = ground arith;
  },
  λ o h. ground arith,
)
