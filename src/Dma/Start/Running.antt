-- ===== src/Dma/Start/Running.antt =====
-- What the device finds once `tpce_dma_start` has told it to run.
use native.Mathlib.Nat.{mod-eq_of_lt, mod_self}
use tpce2drv.Prelude.{
  bit_or, ℕ, suc, ◌+◌, ◌*◌, ◌/◌, ◌%◌, ◌^◌, ◌≤◌, ◌<◌, ◌≡◌, ◌⊎◌, ◌-◌, ◌==◌, ltb, if◌then◌else◌,
  Bool-cases, inl, inr, arith, true, List, some, ◌∙◌, ap, sym, subst,
}
use tpce2drv.Prelude.Bits.Masks.{bit-pow}
use tpce2drv.Types.{Descriptor, mode_stream, zero_descriptor, descriptor_size, from_device}
use tpce2drv.PageTable.{PageTable, pcie_page_active, is_used}
use tpce2drv.PageTable.Translate.{page_of}
use tpce2drv.Device.{Tpce, DmaInfo, with_info, running, initialized}
use tpce2drv.Dma.{build_descriptor_links}
use tpce2drv.Prelude.Bits.{bit, bit-le, bit-bit_or}
use tpce2drv.Dma.Laws.{handed_over, build_links-chain, build_links-address}
use tpce2drv.Dma.Registers.{HasPage, HasPage-device_address, device_address, IsStarted}
use tpce2drv.Dma.Translate.{write_address, bit_or-low}
use tpce2drv.Dma.Translate.Round.{page_at, Keeps, Reached}
use tpce2drv.Dma.Translate.Whole.{IsOrderly}
use tpce2drv.Dma.Start.Steps.{with_info_self}
use tpce2drv.Dma.Start.Program.{IsProgrammed, Reached-address}
use tpce2drv.Dma.Start.Relink.{IsRelinked}

-- A channel that is ready for a start: it is initialised and receives, its descriptors are orderly, and
-- the list of them, with one more at the end unless it is a stream, lies in one page.
pub record IsReady (t : Tpce) (ch : ℕ) (buf : ℕ → Descriptor) : Type 0 where
  pub state : (t.dma_info ch).state ≡ initialized
  pub holds : (t.dma_info ch).desc_dma ≡ some buf
  pub channel : (t.dma_info ch).params.channel < 3
  pub receives : (t.dma_info ch).params.direction ≡ from_device
  pub orderly : IsOrderly buf ((t.dma_info ch).desc_active / descriptor_size)
  pub size :
      (t.dma_info ch).desc_size
      ≡ (t.dma_info ch).desc_active
        + (if (t.dma_info ch).params.transfer_mode == mode_stream then 0 else descriptor_size)
  pub wide : (t.dma_info ch).desc_bus_addr < 2 ^ 64
  pub one_page : (t.dma_info ch).desc_bus_addr % 2 ^ 18 + (t.dma_info ch).desc_size ≤ 2 ^ 18

-- The address of the descriptor after the `j`th one of a list, which is a ring
abbrev pub next_address : DmaInfo → ℕ → ℕ
next_address info j =
    info.desc_bus_addr + descriptor_size * (suc j % (info.desc_size / descriptor_size))

-- The address of the next descriptor, in two words
abbrev pub next_pointer : Descriptor → ℕ
next_pointer d = bit_or (d.next_desc_ptr_high * 2 ^ 32) d.next_desc_ptr_low

-- What the device finds when it is told to run: the list at its address, each descriptor handed over with
-- the address of its data and of the next descriptor, which for the last one of a stream is the first.
-- After the descriptors of another transfer comes one that is not handed to the hardware.
pub record IsRunning (t t' : Tpce) (ch : ℕ) (buf : ℕ → Descriptor) : Type 0 where
  pub state : (t'.dma_info ch).state ≡ running
  pub list : ℕ → Descriptor
  pub holds : (t'.dma_info ch).desc_dma ≡ some list
  pub first : ℕ
  pub started :
      IsStarted t'.bar2_writes
        (t.dma_info ch).params.channel
        (t.dma_info ch).params.transfer_mode
        first
  pub list_address : device_address t'.bar2_writes first ≡ some (t.dma_info ch).desc_bus_addr
  pub entries :
      (j : ℕ)
      → j < (t.dma_info ch).desc_active / descriptor_size
      → (device_address t'.bar2_writes (write_address (list j)) ≡ some (write_address (buf j)))
        × (device_address t'.bar2_writes (next_pointer (list j))
            ≡ some (next_address (t.dma_info ch) j))
        × (bit (list j).control 30 ≡ 1)
  pub stops :
      ((t.dma_info ch).params.transfer_mode ≡ mode_stream)
      ⊎ (list ((t.dma_info ch).desc_active / descriptor_size) ≡ zero_descriptor)

-- An address within the list, as the device reads it
list_address_at :
    {w : List (ℕ × ℕ)} (k a d : ℕ)
    → a < 2 ^ 64
    → a % 2 ^ 18 + d < 2 ^ 18
    → HasPage w k (page_at a)
    → device_address w (k * 2 ^ 18 + a % 2 ^ 18 + d) ≡ some (a + d)
list_address_at {w} k a d h l p =
    let wide : a + d < 2 ^ 64 = omega arith in
    let same : page_at a ≡ page_at (a + d) =
      page_of a h ∙ omega arith ∙ sym (page_of (a + d) wide) in
    let place : k * 2 ^ 18 + a % 2 ^ 18 + d ≡ k * 2 ^ 18 + (a + d) % 2 ^ 18 = omega arith in
    rw place (HasPage-device_address k (a + d) wide (subst (HasPage w k) same p))

-- The bits of the word that hands a descriptor over
handed-owned : (d : Descriptor) (v : ℕ) → bit (handed_over d v).control 30 ≡ 1
handed-owned d v =
    omega (arith, bit-bit_or d.control (2 ^ 30) 30, bit-pow 30 30, bit-le d.control 30)

-- The page of the list is still in its slot.
still_active :
    (t u : PageTable) (k c : ℕ)
    → Keeps t u
    → pcie_page_active t k c ≡ true
    → (pcie_page_active u k c ≡ true) × (u.pages k ≡ t.pages k)
unfolding Keeps is_used
still_active t u k c keep a =
    let used : is_used t k ≡ true = ground arith in
    let x = keep k used in (ground (arith, x.0, x.2), x.1)

-- The channel's data once the list is linked
abbrev relist : DmaInfo → (ℕ → Descriptor) → DmaInfo
relist info list = record info { desc_dma = some (build_descriptor_links info list) }

abbrev pub at_slot : DmaInfo → ℕ → DmaInfo
at_slot info k = record info { desc_bus_addr_translated = k * 2 ^ 18 + info.desc_bus_addr % 2 ^ 18 }

module _ (t : Tpce) (ch k : ℕ) (buf list : ℕ → Descriptor) (mid t' : Tpce)
    (ready : IsReady t ch buf) (below : k < 16) where
  listed : DmaInfo
  listed = record (at_slot (t.dma_info ch) k) { desc_dma = some list }

  IsRunning-entry :
      IsProgrammed mid t' ch (relist listed list)
      → HasPage t'.bar2_writes k (page_at (t.dma_info ch).desc_bus_addr)
      → (j : ℕ) → j < (t.dma_info ch).desc_active / descriptor_size
      → Reached mid.page_table
          (t.dma_info ch).params.channel
          (write_address (list j))
          (write_address (buf j))
      → (device_address t'.bar2_writes (write_address (build_descriptor_links listed list j))
          ≡ some (write_address (buf j)))
        × (device_address t'.bar2_writes (next_pointer (build_descriptor_links listed list j))
            ≡ some (next_address (t.dma_info ch) j))
        × (bit (build_descriptor_links listed list j).control 30 ≡ 1)
  unfolding listed
  IsRunning-entry p page j lt r =
      let w = t'.bar2_writes in
      let a = (t.dma_info ch).desc_bus_addr in
      let num = (t.dma_info ch).desc_size / 64 in
      let first = k * 2 ^ 18 + a % 2 ^ 18 in
      let size = ready.size in
      let some_desc : 0 < num = ground (arith, size) in
      let chain = build_links-chain listed list some_desc (omega (arith, ready.one_page)) in
      let at_page =
        λ (d : ℕ) (h : a % 2 ^ 18 + d < 2 ^ 18). list_address_at k a d ready.wide h page in
      let reached = Reached-address p (ready.orderly.wide j lt) r in
      elim (Bool-cases (ltb (suc j) num)) [
        | inl y ↦
            let inner : suc j < num = ground (arith, y) in
            let handed = chain.0 j inner in
            let next : next_pointer (build_descriptor_links listed list j) ≡ first + 64 * suc j =
              ap next_pointer handed ∙ bit_or-low (first + 64 * suc j) in
            (
              ap (device_address w) (build_links-address listed list j inner) ∙ reached,
              ap (device_address w) next
                  ∙ at_page (64 * suc j) (omega (arith, ready.one_page))
                  ∙ ap (λ (x : ℕ). some (a + 64 * x)) (sym (mod-eq_of_lt inner)),
              ap (λ (d : Descriptor). bit d.control 30) handed
                  ∙ handed-owned (list j) (first + 64 * suc j),
            )
        | inr y ↦
            let mode = (t.dma_info ch).params.transfer_mode in
            let stream : (mode == mode_stream) ≡ true = ground (arith, y, lt, size) in
            let place : num - 1 ≡ j = ground (arith, y, lt, size) in
            let full : suc j ≡ num = ground (arith, y, lt, size) in
            let closed : build_descriptor_links listed list j ≡ handed_over (list j) first =
              subst
                (λ (i : ℕ).
                  build_descriptor_links listed list i
                  ≡ (if mode == mode_stream then handed_over (list i) first else zero_descriptor))
                place chain.1
              ∙ ap (λ b. if b then handed_over (list j) first else zero_descriptor) stream in
            let next : next_pointer (build_descriptor_links listed list j) ≡ first + 64 * 0 =
              ap next_pointer closed ∙ bit_or-low first ∙ omega arith in
            (
              ap (λ (d : Descriptor). device_address w (write_address d)) closed ∙ reached,
              ap (device_address w) next
                  ∙ at_page (64 * 0) (omega (arith, ready.one_page))
                  ∙ ap (λ (x : ℕ). some (a + 64 * x)) (sym (ap (λ x. x % num) full ∙ mod_self num)),
              ap (λ (d : Descriptor). bit d.control 30) closed ∙ handed-owned (list j) first,
            )
      ]

  IsRunning-stops :
      ((t.dma_info ch).params.transfer_mode ≡ mode_stream)
      ⊎ (build_descriptor_links listed list ((t.dma_info ch).desc_active / descriptor_size)
          ≡ zero_descriptor)
  unfolding listed
  IsRunning-stops =
      let size = ready.size in
      elim (Bool-cases ((t.dma_info ch).params.transfer_mode == mode_stream)) [
        | inl e ↦ inl (ground (arith, e))
        | inr e ↦
            let some_desc : 0 < (t.dma_info ch).desc_size / 64 = ground (arith, e, size) in
            let count : (t.dma_info ch).desc_size / 64 - 1 ≡ (t.dma_info ch).desc_active / 64 =
              ground (arith, e, size) in
            let last =
              (build_links-chain listed list some_desc (omega (arith, ready.one_page))).1 in
            inr (
              subst (λ (n : ℕ). build_descriptor_links listed list n ≡ zero_descriptor) count
                (last
                  ∙ ap
                      (λ b.
                        if b
                        then handed_over (list ((t.dma_info ch).desc_size / 64 - 1))
                            (k * 2 ^ 18 + (t.dma_info ch).desc_bus_addr % 2 ^ 18)
                        else zero_descriptor)
                      e))
      ]

pub relinked-IsRunning :
    (t t1 t' : Tpce) (ch k : ℕ) (buf : ℕ → Descriptor)
    → IsReady t ch buf
    → t1.dma_info ch ≡ at_slot (t.dma_info ch) k
    → k < 16
    → pcie_page_active t1.page_table k (t.dma_info ch).params.channel ≡ true
    → t1.page_table.pages k ≡ page_at (t.dma_info ch).desc_bus_addr
    → IsRelinked t1 t' ch buf
    → IsRunning t (with_info t' ch (record (t'.dma_info ch) { state = running })) ch buf
unfolding listed
relinked-IsRunning t t1 t' ch k buf ready e below act page r =
    let w = t'.bar2_writes in
    let info = listed t ch k buf r.list r.mid t' ready below in
    let same : r.mid.dma_info ch ≡ info =
      r.info ∙ ap (λ (i : DmaInfo). record i { desc_dma = some r.list }) e in
    let p = subst (λ i. IsProgrammed r.mid t' ch (relist i r.list)) same r.programmed in
    let entries =
      subst
        (λ (i : DmaInfo).
          (j : ℕ)
          → j < i.desc_active / descriptor_size
          → Reached r.mid.page_table i.params.channel (write_address (r.list j))
              (write_address (buf j)))
        e r.entries in
    let still =
      still_active t1.page_table r.mid.page_table k (t.dma_info ch).params.channel r.keeps act in
    let has = subst (HasPage w k) (still.1 ∙ page) (p.pages k below still.0) in
    let done = with_info_self t' ch (record (t'.dma_info ch) { state = running }) in
    record {
      state = ap (λ (i : DmaInfo). i.state) done;
      list = build_descriptor_links info r.list;
      holds = ap (λ (i : DmaInfo). i.desc_dma) done ∙ ap (λ (i : DmaInfo). i.desc_dma) p.kept;
      first = k * 2 ^ 18 + (t.dma_info ch).desc_bus_addr % 2 ^ 18;
      started = p.started;
      list_address = HasPage-device_address k (t.dma_info ch).desc_bus_addr ready.wide has;
      entries =
          λ j lt. IsRunning-entry t ch k buf r.list r.mid t' ready below p has j lt (entries j lt);
      stops = IsRunning-stops t ch k buf r.list r.mid t' ready below;
    }
