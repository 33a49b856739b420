-- ===== src/Dma/Translate/Room.antt =====
-- Enough free slots let the loop of `translate_descriptor_rw_addr` end.
use tpce2drv.Prelude.{
  ℕ, zero, suc, ◌+◌, ◌≤◌, ◌<◌, leb, ℤ, ◌/◌, ◌==◌, ◌≡◌, refl, arith, true, false, Bool-cases, inl,
  inr, ◌∙◌, ap, sym,
}
use tpce2drv.PageTable.Slots.{IsValid}
use tpce2drv.PageTable.Find.{find_value-cases}
use tpce2drv.PageTable.Room.{room, alloc-room}
use tpce2drv.Device.{Tpce}
use tpce2drv.Types.{Descriptor, descriptor_size}
use tpce2drv.Dma.{Translation, translate_one, translate_all}
use tpce2drv.Dma.Translate.{write_address}
use tpce2drv.Dma.Translate.Round.{page_at, all_round, true-false}

-- A round that has room goes on, and takes at most one slot.
record GoesOn (s s' : Translation) : Type 0 where
  full : s'.full ≡ false
  valid : IsValid s'.table
  left : room 16 s.table ≤ room 16 s'.table + 1

translate_one-GoesOn :
    (channel i : ℕ) (s : Translation)
    → IsValid s.table
    → s.full ≡ false
    → 0 < room 16 s.table
    → GoesOn s (translate_one channel i s)
unfolding translate_one
translate_one-GoesOn channel i s v nf h =
    let page = page_at (write_address (s.buf i)) in
    let still : room 16 s.table ≤ room 16 s.table + 1 = omega arith in
    elim (Bool-cases (s.curr_page == page)) [
      | inl e ↦ rw e (record { full = nf; valid = v; left = still })
      | inr e ↦ elim (find_value-cases s.table page channel) [
        | inl (k, q, lt, p) ↦ rw (e, q) (record { full = nf; valid = v; left = still })
        | inr q ↦
            let (k, al, r) = alloc-room s.table page channel v h in
            rw (e, q, al.slot) (record { full = nf; valid = al.valid; left = r })
      ]
    ]

translate_all-room :
    (left i channel : ℕ) (s : Translation)
    → IsValid s.table
    → s.full ≡ false
    → left ≤ room 16 s.table
    → (translate_all left i channel s).full ≡ false
unfolding translate_all
translate_all-room zero i channel s v nf h = nf
translate_all-room (suc left) i channel s v nf h =
    let s' = translate_one channel i s in
    let g = translate_one-GoesOn channel i s v nf (omega arith) in
    ap (λ (x : Translation). x.full) (all_round left i channel s false g.full)
    ∙ translate_all-room left (i + 1) channel s' g.valid g.full (omega (arith, g.left))

-- The loop of `translate_descriptor_rw_addr` from its start
abbrev pub looped : Tpce → ℕ → (ℕ → Descriptor) → ℤ → Translation
looped t ch buf stale =
    let info = t.dma_info ch in
    let start : Translation = record {
      table = t.page_table;
      buf = buf;
      curr_page = 0;
      slot = stale;
      used_entries = 0;
      full = false;
    } in
    translate_all (info.desc_active / descriptor_size) 0 info.params.channel start

pub full-room :
    (t : Tpce) (ch : ℕ) (buf : ℕ → Descriptor) (stale : ℤ)
    → IsValid t.page_table
    → (looped t ch buf stale).full ≡ true
    → room 16 t.page_table < (t.dma_info ch).desc_active / descriptor_size
full-room t ch buf stale v f =
    let n = (t.dma_info ch).desc_active / descriptor_size in
    elim (Bool-cases (leb n (room 16 t.page_table))) [
      | inl h ↦ absurd (
          true-false (
            sym f
            ∙ translate_all-room n 0 (t.dma_info ch).params.channel _ v refl (ground (arith, h))))
      | inr h ↦ ground (arith, h)
    ]
