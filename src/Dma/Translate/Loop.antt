-- ===== src/Dma/Translate/Loop.antt =====
-- The whole loop of `translate_descriptor_rw_addr`: every descriptor's address, by the table as it is
-- at the end.
use tpce2drv.Prelude.{
  ℕ, zero, suc, ◌+◌, ◌^◌, ◌≤◌, ◌<◌, ◌==◌, ◌≡◌, ◌≢◌, refl, arith, true, false, inl, inr, Bool-cases,
  ◌∙◌, ap, ap₂, sym, subst, ==_iff,
}
use tpce2drv.PageTable.{any_channel, pcie_translate_addr_64}
use tpce2drv.PageTable.Slots.{IsValid}
use tpce2drv.Dma.{Translation, translate_one, translate_all}
use tpce2drv.Dma.Translate.{write_address}
use tpce2drv.Dma.Translate.Round.{
  page_at, Holds, Keeps, Round, Keeps-refl, Keeps-trans, Reached, translate_one-Round, true-false,
  all_round,
}

module _ (addr : ℕ → ℕ) where
  -- No page is returned to after another one, and the one named by `curr_page` comes first.
  pub record IsTidy (i left curr : ℕ) : Type 0 where
    pub wide : (j : ℕ) → i ≤ j → j < i + left → addr j < 2 ^ 64
    pub first :
        (j k : ℕ) → i ≤ j → j < k → k < i + left → page_at (addr k) ≡ curr → page_at (addr j) ≡ curr
    pub contiguous :
        (j k l : ℕ)
        → i ≤ j
        → j < k
        → k < l
        → l < i + left
        → page_at (addr j) ≡ page_at (addr l)
        → page_at (addr k) ≡ page_at (addr j)

  -- After `left` rounds from `i` on, each of the descriptors has its translated address.
  pub record Done (channel i left : ℕ) (s s' : Translation) : Type 0 where
    pub valid : IsValid s'.table
    pub keeps : Keeps s.table s'.table
    pub entries :
        (j : ℕ)
        → i ≤ j
        → j < i + left
        → Reached s'.table channel (write_address (s'.buf j)) (addr j)
    pub before : (j : ℕ) → j < i → s'.buf j ≡ s.buf j

  next-IsTidy :
      (channel i left : ℕ) (s s' : Translation)
      → IsTidy i (suc left) s.curr_page
      → write_address (s.buf i) ≡ addr i
      → Round channel i (write_address (s.buf i)) s s'
      → IsTidy (i + 1) left s'.curr_page
  next-IsTidy channel i left s s' t e r = record {
    wide = λ j a b. t.wide j (omega arith) (omega arith);
    first = λ j k a b c p. elim r.page [
      | inl q ↦
          let page : s'.curr_page ≡ page_at (addr i) = q ∙ ap page_at e in
          t.contiguous i j k (omega arith) (omega arith) b (omega arith) (sym (p ∙ page)) ∙ sym page
      | inr (q, ne) ↦ absurd (
          ne (
            sym (t.first i k (omega arith) (omega arith) (omega arith) (p ∙ q))
            ∙ ap page_at (sym e)))
    ];
    contiguous = λ j k l a b c d p. t.contiguous j k l (omega arith) b c (omega arith) p;
  }

  next-Holds :
      (channel i left : ℕ) (s s' : Translation)
      → IsTidy i (suc left) s.curr_page
      → write_address (s.buf i) ≡ addr i
      → Round channel i (write_address (s.buf i)) s s'
      → 0 < left
      → s'.curr_page ≡ page_at (addr (i + 1))
      → Holds s'.table channel s'.slot s'.curr_page
  next-Holds channel i left s s' t e r more p = elim r.page [
    | inl q ↦ subst (Holds s'.table channel s'.slot) (sym q) r.holds
    | inr (q, ne) ↦ absurd (
        ne (
          sym (t.first i (i + 1) (omega arith) (omega arith) (omega arith) (sym p ∙ q))
          ∙ ap page_at (sym e)))
  ]

  -- The descriptor of a round, seen from the end
  settled :
      (channel i : ℕ) (s s' : Translation) (final : Translation)
      → write_address (s.buf i) ≡ addr i
      → Round channel i (write_address (s.buf i)) s s'
      → Keeps s'.table final.table
      → final.buf i ≡ s'.buf i
      → Reached final.table channel (write_address (final.buf i)) (addr i)
  unfolding Keeps
  settled channel i s s' final e r k b =
      let kept = k r.holds.slot r.holds.used in
      record {
        slot = r.holds.slot;
        below = r.holds.below;
        used = kept.0;
        owner = kept.2 ∙ r.holds.owner;
        content = kept.1 ∙ r.holds.content ∙ ap page_at e;
        is = ap write_address b ∙ r.low ∙ ap₂ pcie_translate_addr_64 e r.holds.is;
      }

  step :
      (channel left i : ℕ) (s s' final : Translation)
      → IsTidy i (suc left) s.curr_page
      → write_address (s.buf i) ≡ addr i
      → Round channel i (write_address (s.buf i)) s s'
      → Done channel (i + 1) left s' final
      → Done channel i (suc left) s final
  step channel left i s s' final t e r d = record {
    valid = d.valid;
    keeps = Keeps-trans s.table s'.table final.table r.keeps d.keeps;
    entries = λ j a b. elim (Bool-cases (j == i)) [
      | inl y ↦
          subst (λ (k : ℕ). Reached final.table channel (write_address (final.buf k)) (addr k))
            (sym ((==_iff j i).0 y))
            (settled channel i s s' final e r d.keeps (d.before i (omega arith)))
      | inr n ↦ d.entries j (ground arith) (omega arith)
    ];
    before = λ j lt. d.before j (omega arith) ∙ r.others j (omega arith);
  }

  pub translate_all-Done :
      (left i channel : ℕ) (s : Translation)
      → channel ≢ any_channel
      → IsValid s.table
      → ((j : ℕ) → i ≤ j → j < i + left → write_address (s.buf j) ≡ addr j)
      → IsTidy i left s.curr_page
      → (0 < left → s.curr_page ≡ page_at (addr i) → Holds s.table channel s.slot s.curr_page)
      → (translate_all left i channel s).full ≡ false
      → Done channel i left s (translate_all left i channel s)
  unfolding translate_all
  translate_all-Done zero i channel s real v w t h f = record {
    valid = v;
    keeps = Keeps-refl s.table;
    entries = λ j a b. absurd (omega arith);
    before = λ j lt. refl;
  }
  translate_all-Done (suc left) i channel s real v w t h f =
      let s' = translate_one channel i s in
      let e = w i (omega arith) (omega arith) in
      elim (Bool-cases s'.full) [
        | inl y ↦ absurd (
            true-false (
              sym y
              ∙ ap (λ (x : Translation). x.full) (sym (all_round left i channel s true y))
              ∙ f))
        | inr n ↦
            let more = all_round left i channel s false n in
            let r =
              translate_one-Round channel i s real v (λ p. h (omega arith) (p ∙ ap page_at e)) n in
            let d =
              translate_all-Done left (i + 1) channel s' real r.valid
                (λ j a b.
                  ap write_address (r.others j (omega arith)) ∙ w j (omega arith) (omega arith))
                (next-IsTidy channel i left s s' t e r) (next-Holds channel i left s s' t e r)
                (subst (λ (x : Translation). x.full ≡ false) more f) in
            subst (Done channel i (suc left) s) (sym more)
              (step channel left i s s' (translate_all left (i + 1) channel s') t e r d)
      ]
