-- ===== src/Dma/Translate/Stale.antt =====
-- A descriptor on a page that is returned to.
use tpce2drv.Prelude.{
  ℕ, ◌+◌, ◌%◌, ◌^◌, ◌<◌, ◌==◌, ◌≡◌, ◌≢◌, refl, arith, true, false, ℤ, pos, ◌∙◌, ap, ap₂, sym, subst,
  if◌then◌else◌, Bool,
}
use tpce2drv.PageTable.{PageTable, slot_matches, pcie_page_find_value, pcie_translate_addr_64}
use tpce2drv.PageTable.Find.{Search, hit, miss, find_value-Search}
use tpce2drv.PageTable.Translate.{bridge, page_of, bridge-page}
use tpce2drv.Dma.{Translation, translate_one, translate_all}
use tpce2drv.Dma.Translate.{write_address}
use tpce2drv.Dma.Translate.Round.{page_at}

-- A slot of the channel holds the page.
pub record IsEntered (t : PageTable) (channel page : ℕ) : Type 0 where
  pub slot : ℕ
  pub below : slot < 16
  pub matches : slot_matches t channel slot ≡ true
  pub content : t.pages slot ≡ page

found :
    (t : PageTable) (page channel : ℕ) {r : ℤ}
    → Search t page channel 0 16 r
    → IsEntered t channel page
    → (k : ℕ) × (r ≡ pos k) × (k < 16) × (t.pages k ≡ page)
found t page channel (hit r k e lo hi m p first) n = (k, e, hi, p)
found t page channel (miss r e nowhere) n =
    absurd (nowhere n.slot (omega arith) n.below n.matches n.content)

-- A round that finds the page only changes the slot and its descriptor.
found_round :
    (channel i : ℕ) (s : Translation) (k : ℕ)
    → s.curr_page ≢ page_at (write_address (s.buf i))
    → pcie_page_find_value s.table (page_at (write_address (s.buf i))) channel ≡ pos k
    → let s' = translate_one channel i s in
      (s'.table ≡ s.table)
      × (s'.slot ≡ pos k)
      × (s'.curr_page ≡ s.curr_page)
      × (s'.full ≡ s.full)
      × ((j : ℕ) → j ≢ i → s'.buf j ≡ s.buf j)
unfolding translate_one
found_round channel i s k ne q =
    let other : (s.curr_page == page_at (write_address (s.buf i))) ≡ false = ground arith in
    rw (other, q) (refl, refl, refl, refl, λ j d. ground arith)

same_round :
    (channel i : ℕ) (s : Translation)
    → s.curr_page ≡ page_at (write_address (s.buf i))
    → let s' = translate_one channel i s in
      (s'.table ≡ s.table)
      × ((s'.buf i).write_address_low ≡ pcie_translate_addr_64 (write_address (s.buf i)) s.slot)
unfolding translate_one
same_round channel i s e =
    let same : (s.curr_page == page_at (write_address (s.buf i))) ≡ true = ground arith in
    let here : (i == i) ≡ true = ground arith in rw (same, here) (refl, refl)

two_rounds :
    (channel i : ℕ) (s : Translation)
    → (translate_one channel i s).full ≡ false
    → translate_all 2 i channel s ≡ translate_one channel (i + 1) (translate_one channel i s)
unfolding translate_all
two_rounds channel i s e =
    let s1 = translate_one channel i s in
    let s2 = translate_one channel (i + 1) s1 in
    ap (λ b. if b then s1 else if s2.full then s2 else s2) e ∙ either s2.full s2
  where
    either : (b : Bool) (x : Translation) → (if b then x else x) ≡ x
    either true x = refl
    either false x = refl

-- Where curr_page names the page of the second of two descriptors, and the first one's page, another
-- one, is found in the table, the second one gets an address that the bridge leads to the page of the
-- first.
pub translate_all-stale :
    (channel i : ℕ) (s : Translation)
    → let a = write_address (s.buf i) in
      let b = write_address (s.buf (i + 1)) in
      s.full ≡ false
      → b < 2 ^ 64
      → s.curr_page ≡ page_at b
      → page_at a ≢ page_at b
      → IsEntered s.table channel (page_at a)
      → let s' = translate_all 2 i channel s in
        (bridge s'.table (s'.buf (i + 1)).write_address_low ≡ page_at a + b % 2 ^ 18)
        × (bridge s'.table (s'.buf (i + 1)).write_address_low ≢ b)
translate_all-stale channel i s nf w e ne n =
    let a = write_address (s.buf i) in
    let b = write_address (s.buf (i + 1)) in
    let s1 = translate_one channel i s in
    let s2 = translate_one channel (i + 1) s1 in
    let (k, q, below, page) =
      found s.table (page_at a) channel (find_value-Search s.table (page_at a) channel) n in
    let (table1, slot1, curr1, full1, others) = found_round channel i s k (λ x. ne (sym x ∙ e)) q in
    let addr : write_address (s1.buf (i + 1)) ≡ b =
      ap write_address (others (i + 1) (omega arith)) in
    let (table2, low) = same_round channel (i + 1) s1 (curr1 ∙ e ∙ ap page_at (sym addr)) in
    let led : bridge s2.table (s2.buf (i + 1)).write_address_low ≡ page_at a + b % 2 ^ 18 =
      ap₂ bridge (table2 ∙ table1) (low ∙ ap₂ pcie_translate_addr_64 addr slot1)
      ∙ bridge-page s.table b k below
      ∙ ap (λ (x : ℕ). x + b % 2 ^ 18) page in
    subst
      (λ (x : Translation).
        (bridge x.table (x.buf (i + 1)).write_address_low ≡ page_at a + b % 2 ^ 18)
        × (bridge x.table (x.buf (i + 1)).write_address_low ≢ b))
      (sym (two_rounds channel i s (full1 ∙ nf)))
      (led, λ x. ne (omega (arith, sym led ∙ x, page_of b w)))
