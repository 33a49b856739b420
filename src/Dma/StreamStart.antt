-- ===== src/Dma/StreamStart.antt =====
-- `tpce_dma_stream_start` as a whole: what the device finds in its registers and in memory.
use tpce2drv.Prelude.{
  ℕ, ◌/◌, ◌≤◌, ◌<◌, ◌==◌, ◌≡◌, ◌⊎◌, refl, arith, some, ℤ, inl, inr, sym, subst, bit_or, Bool-cases,
  true,
}
use tpce2drv.Types.{Descriptor, descriptor_size}
use tpce2drv.PageTable.Slots.{IsValid}
use tpce2drv.PageTable.Room.{room}
use tpce2drv.Device.{Tpce, Result, failed, ok, enospc}
use tpce2drv.Dma.{tpce_dma_start, irq_bit, enable_stream_irq, tpce_dma_stream_start}
use tpce2drv.Dma.Start.Running.{IsReady, IsRunning}
use tpce2drv.Dma.Start.{start-IsRunning}

irq_bit-known : (ch : ℕ) → ch < 3 → (mask : ℕ) × (irq_bit ch ≡ some mask)
irq_bit-known ch h = elim (Bool-cases (ch == 0)) [
  | inl e ↦ (0x001, rw e refl)
  | inr e ↦ elim (Bool-cases (ch == 1)) [
    | inl f ↦ (0x100, rw (e, f) refl)
    | inr f ↦ let last : (ch == 2) ≡ true = ground (arith, e, f) in (0x400, rw (e, f, last) refl)
  ]
]

-- The start does not look at the mask of interrupts.
abbrev with_mask : Tpce → ℕ → Tpce
with_mask t mask = record t { fast_irq_mask = bit_or t.fast_irq_mask mask }

stream_start_lem :
    (t : Tpce) (ch mask : ℕ) (stale : ℤ)
    → irq_bit ch ≡ some mask
    → tpce_dma_stream_start t ch stale ≡ tpce_dma_start (with_mask t mask) ch stale
unfolding tpce_dma_stream_start enable_stream_irq tpce_dma_start
stream_start_lem t ch mask stale e = rw (e, enable_stream_irq) refl

unmasked :
    (t t' : Tpce) (ch mask : ℕ) (buf : ℕ → Descriptor)
    → IsRunning (with_mask t mask) t' ch buf
    → IsRunning t t' ch buf
unmasked t t' ch mask buf r = record {
  state = r.state;
  list = r.list;
  holds = r.holds;
  first = r.first;
  started = r.started;
  list_address = r.list_address;
  entries = r.entries;
  stops = r.stops;
}

-- For a channel that is ready and has an interrupt, and a valid table, tpce_dma_stream_start returns -ENOSPC, and then the table had
-- no free slot for each of the active descriptors and one more; or it returns 0 with the channel
-- RUNNING and its controller told to run: by the registers of the device the list is at its
-- address, and each of the active descriptors names in both words the address of its data and of the
-- next one, in a ring for a stream, and is handed to the hardware; after those of another transfer
-- comes a cleared one.
pub stream_start-IsRunning :
    (t : Tpce) (ch : ℕ) (buf : ℕ → Descriptor) (stale : ℤ)
    → ch < 3
    → IsValid t.page_table
    → IsReady t ch buf
    → let (t', r) = tpce_dma_stream_start t ch stale in
      ((r ≡ failed enospc) × (room 16 t.page_table ≤ (t.dma_info ch).desc_active / descriptor_size))
      ⊎ ((r ≡ ok 0) × IsRunning t t' ch buf)
stream_start-IsRunning t ch buf stale h v ready =
    let (mask, e) = irq_bit-known ch h in
    let ready1 : IsReady (with_mask t mask) ch buf = record {
      state = ready.state;
      holds = ready.holds;
      channel = ready.channel;
      receives = ready.receives;
      orderly = ready.orderly;
      size = ready.size;
      wide = ready.wide;
      one_page = ready.one_page;
    } in
    subst
      (λ (y : Tpce × Result ℕ).
        ((y.1 ≡ failed enospc)
          × (room 16 t.page_table ≤ (t.dma_info ch).desc_active / descriptor_size))
        ⊎ ((y.1 ≡ ok 0) × IsRunning t y.0 ch buf))
      (sym (stream_start_lem t ch mask stale e))
      (elim (start-IsRunning (with_mask t mask) ch buf stale v ready1) [
        | inl f ↦ inl f
        | inr (f, r) ↦ inr (f, unmasked t _ ch mask buf r)
      ])
