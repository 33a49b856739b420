-- ===== src/Dma/Translate/Whole.antt =====
-- `translate_descriptor_rw_addr` as a whole.
use tpce2drv.Prelude.{
  ℕ, ◌/◌, ◌^◌, ◌<◌, ◌==◌, ◌≡◌, ◌≢◌, ◌⊎◌, refl, arith, true, false, some, ℤ, inl, inr, Bool-cases,
  sym, subst, if◌then◌else◌, Bool,
}
use tpce2drv.Types.{Descriptor, descriptor_size, from_device}
use tpce2drv.PageTable.{any_channel, pcie_page_active, pcie_page_free_by_channel_id}
use tpce2drv.PageTable.Slots.{IsValid}
use tpce2drv.PageTable.Room.{room}
use tpce2drv.PageTable.Laws.{free_by_channel-free}
use tpce2drv.PageTable.Translate.{bridge}
use tpce2drv.Device.{Tpce, with_info, Result, failed, ok, enospc}
use tpce2drv.Dma.{Translation, translated, translate_all, translate_descriptor_rw_addr}
use tpce2drv.Dma.Translate.Room.{full-room}
use tpce2drv.Dma.Translate.{write_address}
use tpce2drv.Dma.Translate.Round.{page_at, Keeps, Reached-bridge}
use tpce2drv.Dma.Translate.Loop.{IsTidy, translate_all-Done}

-- The addresses of `n` descriptors have 64 bits, none is on page 0, and no page is returned to after
-- another one.
pub record IsOrderly (buf : ℕ → Descriptor) (n : ℕ) : Type 0 where
  pub wide : (j : ℕ) → j < n → write_address (buf j) < 2 ^ 64
  pub not_zero : (j : ℕ) → j < n → page_at (write_address (buf j)) ≢ 0
  pub contiguous :
      (j k l : ℕ)
      → j < k
      → k < l
      → l < n
      → page_at (write_address (buf j)) ≡ page_at (write_address (buf l))
      → page_at (write_address (buf k)) ≡ page_at (write_address (buf j))

-- What the translation leaves behind: every new address leads back, and no slot in use has changed;
-- or -ENOSPC, no slot of the channel, and too few free slots before.
abbrev pub Translated : Tpce → ℕ → (ℕ → Descriptor) → ℕ → Tpce × Result ℕ → Type 0
Translated t ch buf n (t', r) =
    ((r ≡ failed enospc)
      × ((k : ℕ) → k < 16 → pcie_page_active t'.page_table k (t.dma_info ch).params.channel ≡ false)
      × (room 16 t.page_table < n))
    ⊎ ((used : ℕ) × (buf' : ℕ → Descriptor) × (r ≡ ok used)
        × ((t'.dma_info ch).desc_dma ≡ some buf')
        × Keeps t.page_table t'.page_table
        × ((j : ℕ)
            → j < n
            → (bridge t'.page_table (write_address (buf' j)) ≡ write_address (buf j))
              × (write_address (buf' j) < 2 ^ 22)))

pub orderly-IsTidy :
    {buf : ℕ → Descriptor} {n : ℕ} → IsOrderly buf n → IsTidy (λ j. write_address (buf j)) 0 n 0
orderly-IsTidy o = record {
  wide = λ j a b. o.wide j (omega arith);
  first = λ j k a b c p. absurd (o.not_zero k (omega arith) p);
  contiguous = λ j k l a b c d p. o.contiguous j k l b c (omega arith) p;
}

translated-Translated :
    (t : Tpce) (ch : ℕ) (buf : ℕ → Descriptor) (n : ℕ) (s : Translation)
    → (s.full ≡ true → room 16 t.page_table < n)
    → (s.full ≡ false
        → Keeps t.page_table s.table
          × ((j : ℕ)
              → j < n
              → (bridge s.table (write_address (s.buf j)) ≡ write_address (buf j))
                × (write_address (s.buf j) < 2 ^ 22)))
    → Translated t ch buf n (translated t ch s)
translated-Translated t ch buf n s h d =
    let info = t.dma_info ch in
    let t1 =
      with_info (record t { page_table = s.table }) ch (record info { desc_dma = some s.buf }) in
    let refused : Tpce × Result ℕ = (
      record t1 { page_table = pcie_page_free_by_channel_id s.table info.params.channel },
      failed enospc,
    ) in
    let P = λ (b : Bool). Translated t ch buf n (if b then refused else (t1, ok s.used_entries)) in
    elim (Bool-cases s.full) [
      | inl e ↦
          subst P (sym e)
            (inl (refl, λ k lt. free_by_channel-free s.table info.params.channel k lt, h e))
      | inr e ↦
          let here : (ch == ch) ≡ true = ground arith in
          subst P (sym e) (inr (s.used_entries, s.buf, refl, rw here refl, (d e).0, (d e).1))
    ]

-- For a known channel that receives, in a valid table and for orderly addresses of its active
-- descriptors, translate_descriptor_rw_addr either returns -ENOSPC and leaves no slot of the channel in
-- use, where the table had fewer free slots than there are active descriptors, or returns a number and
-- leaves every slot that was in use and descriptors with addresses, of both words, of 22 bits from
-- which the bridge leads back to the ones before.
pub translate_rw-Translated :
    (t : Tpce) (ch : ℕ) (buf : ℕ → Descriptor) (stale : ℤ)
    → (t.dma_info ch).params.channel ≢ any_channel
    → IsValid t.page_table
    → (t.dma_info ch).params.direction ≡ from_device
    → IsOrderly buf ((t.dma_info ch).desc_active / descriptor_size)
    → Translated t ch buf
        ((t.dma_info ch).desc_active / descriptor_size)
        (translate_descriptor_rw_addr t ch buf stale)
unfolding translate_descriptor_rw_addr
translate_rw-Translated t ch buf stale real v dir o =
    let info = t.dma_info ch in
    let n = info.desc_active / descriptor_size in
    let start : Translation = record {
      table = t.page_table;
      buf = buf;
      curr_page = 0;
      slot = stale;
      used_entries = 0;
      full = false;
    } in
    let after = translate_all n 0 info.params.channel start in
    let test : (info.params.direction == from_device) ≡ true = ground arith in
    rw test (
      translated-Translated t ch buf n after (full-room t ch buf stale v) λ f.
        let d =
          translate_all-Done (λ j. write_address (buf j)) n 0 info.params.channel start real v
            (λ j a b. refl) (orderly-IsTidy o) (λ more e. absurd (o.not_zero 0 more (sym e))) f in
        (d.keeps, λ j lt. Reached-bridge (o.wide j lt) (d.entries j (omega arith) (omega arith))))
