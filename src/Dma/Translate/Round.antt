-- ===== src/Dma/Translate/Round.antt =====
-- One round of `translate_descriptor_rw_addr`: what it does to the table and to its descriptor.
use tpce2drv.Prelude.{
  ℕ, suc, ◌+◌, ◌^◌, ◌<◌, ◌==◌, if◌then◌else◌, ◌≡◌, ◌≢◌, ◌⊎◌, refl, arith, Bool, true, false, ℤ, pos,
  inl, inr, Bool-cases, bit_and, ◌∙◌, ap, subst, ==_iff,
}
use tpce2drv.Types.{Descriptor}
use tpce2drv.PageTable.{
  PageTable, any_channel, is_used, translation_mask_64, pcie_translate_addr_64,
}
use tpce2drv.PageTable.Slots.{IsValid, entry}
use tpce2drv.PageTable.Find.{find_value-used}
use tpce2drv.PageTable.Laws.{alloc-cases, Allocated, Allocated-page}
use tpce2drv.PageTable.Translate.{bridge, bridge-translate_64}
use tpce2drv.Dma.{Translation, put_address, translate_one, translate_all}
use tpce2drv.Dma.Translate.{write_address, bit_or-low}

abbrev pub page_at : ℕ → ℕ
page_at a = bit_and a translation_mask_64

-- A slot of the channel in use, and the page in it.
pub record Holds (t : PageTable) (channel : ℕ) (r : ℤ) (page : ℕ) : Type 0 where
  pub slot : ℕ
  pub is : r ≡ pos slot
  pub below : slot < 16
  pub used : is_used t slot ≡ true
  pub owner : t.active_channel slot ≡ channel
  pub content : t.pages slot ≡ page

-- Every slot in use stays so, with its page and its channel.
unfoldable pub Keeps : PageTable → PageTable → Type 0
Keeps t t' =
    (k : ℕ)
    → is_used t k ≡ true
    → (is_used t' k ≡ true) × (t'.pages k ≡ t.pages k) × (t'.active_channel k ≡ t.active_channel k)

-- A round that did not find the table full: the descriptor has its translated address, and `slot`
-- the page of it.
pub record Round (channel i a : ℕ) (s s' : Translation) : Type 0 where
  pub valid : IsValid s'.table
  pub keeps : Keeps s.table s'.table
  pub holds : Holds s'.table channel s'.slot (page_at a)
  pub page : (s'.curr_page ≡ page_at a) ⊎ ((s'.curr_page ≡ s.curr_page) × (s.curr_page ≢ page_at a))
  pub low : write_address (s'.buf i) ≡ pcie_translate_addr_64 a s'.slot
  pub others : (j : ℕ) → j ≢ i → s'.buf j ≡ s.buf j

pub Keeps-refl : (t : PageTable) → Keeps t t
unfolding Keeps
Keeps-refl t k u = (u, refl, refl)

alloc-Keeps : {t t' : PageTable} {v c s : ℕ} {r : ℤ} → Allocated t v c t' r s → Keeps t t'
unfolding Keeps entry
alloc-Keeps {t} {t'} {v} {c} {s} a k u = elim (Bool-cases (k == s)) [
  | inl e ↦
      let same : k ≡ s = (==_iff k s).0 e in
      absurd (ground (arith, a.was_free, subst (λ j. is_used t j ≡ true) same u))
  | inr e ↦ ground (arith, a.entries k)
]

alloc-Holds : {t t' : PageTable} {v c s : ℕ} {r : ℤ} → Allocated t v c t' r s → Holds t' c r v
unfolding entry
alloc-Holds {t} {t'} {v} {c} {s} a = record {
  slot = s;
  is = a.slot;
  below = a.below;
  used = ground (arith, a.entries s);
  owner = let e = a.entries s in ground arith;
  content = Allocated-page a;
}

-- The end of a round, once the slot holds the page
put_address-Round :
    (channel i a : ℕ) (s s1 : Translation)
    → IsValid s1.table
    → Keeps s.table s1.table
    → Holds s1.table channel s1.slot (page_at a)
    → (s1.curr_page ≡ page_at a) ⊎ ((s1.curr_page ≡ s.curr_page) × (s.curr_page ≢ page_at a))
    → s1.buf ≡ s.buf
    → Round channel i a s (put_address i a s1)
put_address-Round channel i a s s1 v k h p b = record {
  valid = v;
  keeps = k;
  holds = h;
  page = p;
  low =
      let here : (i == i) ≡ true = ground arith in
      rw here (bit_or-low (pcie_translate_addr_64 a s1.slot));
  others = λ j ne.
      let there : (j == i) ≡ false = ground arith in rw there (ap (λ (f : ℕ → Descriptor). f j) b);
}

pub true-false : ¬ (true ≡ false)
true-false h = cc

pub translate_one-Round :
    (channel i : ℕ) (s : Translation)
    → let a = write_address (s.buf i) in
      channel ≢ any_channel
      → IsValid s.table
      → (s.curr_page ≡ page_at a → Holds s.table channel s.slot s.curr_page)
      → (translate_one channel i s).full ≡ false
      → Round channel i a s (translate_one channel i s)
unfolding translate_one
translate_one-Round channel i s real v h f =
    let a = write_address (s.buf i) in
    let page = page_at a in
    elim (Bool-cases (s.curr_page == page)) [
      | inl e ↦
          let same : s.curr_page ≡ page = (==_iff s.curr_page page).0 e in
          rw e (
            put_address-Round channel i a s s v (Keeps-refl s.table)
              (subst (Holds s.table channel s.slot) same (h same)) (inl same) refl)
      | inr e ↦
          let differs : s.curr_page ≢ page = ground arith in
          elim (find_value-used s.table page channel real) [
            | inl (k, q, lt, u, o, c) ↦
                rw (e, q)
                  (put_address-Round channel i a s _ v (Keeps-refl s.table)
                    (record { slot = k; is = refl; below = lt; used = u; owner = o; content = c })
                    (inr (refl, differs)) refl)
            | inr q ↦ elim (alloc-cases s.table page channel v) [
              | inl r ↦ absurd (true-false (rw (e, q, r, translate_one) at f))
              | inr (k, al) ↦
                  rw (e, q, al.slot)
                    (put_address-Round channel i a s _ al.valid (alloc-Keeps al)
                      (rw al.slot at (alloc-Holds al)) (inl refl) refl)
            ]
          ]
    ]

pub Keeps-trans : (t u w : PageTable) → Keeps t u → Keeps u w → Keeps t w
unfolding Keeps
Keeps-trans _ _ _ a b k u = let f = a k u in let g = b k f.0 in (g.0, g.1 ∙ f.1, g.2 ∙ f.2)

-- A translated address: a slot of the channel holds the page of the address before.
pub record Reached (t : PageTable) (channel low a : ℕ) : Type 0 where
  pub slot : ℕ
  pub below : slot < 16
  pub used : is_used t slot ≡ true
  pub owner : t.active_channel slot ≡ channel
  pub content : t.pages slot ≡ page_at a
  pub is : low ≡ pcie_translate_addr_64 a (pos slot)

-- The bridge leads from it to the address before.
pub Reached-bridge :
    {t : PageTable} {channel low a : ℕ}
    → a < 2 ^ 64
    → Reached t channel low a
    → (bridge t low ≡ a) × (low < 2 ^ 22)
Reached-bridge {t} {channel} {low} {a} w r =
    rw r.is (bridge-translate_64 t a r.slot w r.below r.content)

pub all_round :
    (left i channel : ℕ) (s : Translation) (b : Bool)
    → (translate_one channel i s).full ≡ b
    → translate_all (suc left) i channel s ≡ (
        if b
        then translate_one channel i s
        else translate_all left (i + 1) channel (translate_one channel i s))
unfolding translate_all
all_round left i channel s b e =
    let s' = translate_one channel i s in
    ap (λ x. if x then s' else translate_all left (i + 1) channel s') e
