-- ===== src/Descriptors/Fill/Ranges.antt =====
-- The outer loop of `fill_addresses`: the ranges of the mapping one after the other.
use native.Mathlib.Decide.{dec_le, dec_lt}
use native.Mathlib.Nat.{dvd-sub, dvd_iff_mod-eq-zero, zero-mod}
use tpce2drv.Prelude.{
  ℕ, zero, suc, ◌+◌, ◌-◌, ◌^◌, ◌≤◌, ◌<◌, ltb, ◌&&◌, ◌≡◌, ◌≢◌, refl, arith, List, [], ◌∷◌, ◌++◌, All,
  take, some, true, u32, u64, sub32, inl, inr, ◌∙◌, ap, ap₂, min,
}
use tpce2drv.Types.{Descriptor, TransferParams, SgEntry}
use tpce2drv.Descriptors.{min32}
use tpce2drv.Descriptors.Span.{span, span-head, span-tail, IsTransfer-append}
use tpce2drv.Descriptors.Fill.{Cursor, fill_range, fill_ranges, range_addr}
use tpce2drv.Descriptors.Fill.Fields.{describe, port, held}
use tpce2drv.Descriptors.Fill.Chunks.{
  step_of, step_pos, IsAligned, pieces, pieces-zero, pieces_step, Ran, Ran-zero, fill_range-Ran,
  held-cong,
}

-- The bytes of all ranges, and the pieces that `rem` bytes take from byte `off` of the first on.
unfoldable pub bytes_in : List SgEntry → ℕ
bytes_in [] = 0
bytes_in (s ∷ ss) = s.dma_len + bytes_in ss

unfoldable pub count_all : ℕ → List SgEntry → ℕ → ℕ → ℕ
count_all step [] off rem = 0
count_all step (s ∷ ss) off rem =
    let portion = min rem (s.dma_len - off) in
    pieces step portion + count_all step ss 0 (rem - portion)

-- A range of a mapping: it has no further offset, its length is a uint32_t and it ends below 2 ^ 64; where the size of the
-- pieces is fixed, its length is a multiple of it.
pub record IsRange (p : TransferParams) (s : SgEntry) : Type 0 where
  pub short : s.dma_len < 2 ^ 32
  pub plain : s.offset ≡ 0
  pub low : s.dma_address + s.dma_len < 2 ^ 64
  pub even : IsAligned p s.dma_len

pub IsAligned-sub :
    (p : TransferParams) (a b : ℕ) → IsAligned p a → IsAligned p b → IsAligned p (a - b)
IsAligned-sub p a b (inl e) k = inl e
IsAligned-sub p a b (inr e) (inl k) = inl k
IsAligned-sub p a b (inr e) (inr k) =
    let d = p.bytes_per_descriptor in
    inr (
      (dvd_iff_mod-eq-zero d).0
        (dvd-sub d ((dvd_iff_mod-eq-zero d).1 e) ((dvd_iff_mod-eq-zero d).1 k)))

pub IsAligned-min :
    (p : TransferParams) (a b : ℕ) → IsAligned p a → IsAligned p b → IsAligned p (min a b)
IsAligned-min p a b e k = elim (dec_le a b) [
  | yes le ↦ let m : min a b ≡ a = omega arith in rw m e
  | no gt ↦ let m : min a b ≡ b = omega arith in rw m k
]

pub count_all-zero :
    (step : ℕ) (ss : List SgEntry) (off : ℕ) → 0 < step → count_all step ss off 0 ≡ 0
unfolding count_all
count_all-zero step [] off h = refl
count_all-zero step (s ∷ ss) off h =
    let z : min 0 (s.dma_len - off) ≡ 0 = omega arith in
    rw z (omega (arith, pieces-zero step h, count_all-zero step ss 0 h))

count_all-pos :
    (step : ℕ) (ss : List SgEntry) (off rem : ℕ)
    → 0 < step
    → 0 < rem
    → off + rem ≤ bytes_in ss
    → 0 < count_all step ss off rem
unfolding count_all bytes_in
count_all-pos step [] off rem h k l = absurd (omega arith)
count_all-pos step (s ∷ ss) off rem h k l = elim (dec_lt off s.dma_len) [
  | yes lt ↦ omega (arith, pieces_step step (min rem (s.dma_len - off)) h (omega arith))
  | no ge ↦
      let z : min rem (s.dma_len - off) ≡ 0 = omega arith in
      rw z (omega (arith, count_all-pos step ss 0 (rem - 0) h (omega arith) (omega arith)))
]

held-append :
    (p : TransferParams) (f : ℕ → Descriptor) (i n m : ℕ)
    → held p f i (n + m) ≡ held p f i n ++ held p f (i + n) m
held-append p f i zero m = ap₂ (λ a b. held p f a b) (omega arith) (omega arith)
held-append p f i (suc n) m =
    ap (λ k. held p f i k) more
    ∙ ap (λ xs. describe p (f i) ∷ xs) (held-append p f (i + 1) n m)
    ∙ ap (λ k. describe p (f i) ∷ (held p f (i + 1) n ++ held p f k m)) (omega arith)
  where
    more : suc n + m ≡ suc (n + m)
    more = omega arith

-- Two runs, one after the other.
Ran-append :
    (sgt : List SgEntry) (p : TransferParams) (pos dev b1 b2 n1 n2 : ℕ) (c c1 c2 : Cursor)
    → Ran sgt p pos dev b1 n1 c c1
    → Ran sgt p (pos + b1) (dev + b1) b2 n2 c1 c2
    → Ran sgt p pos dev (b1 + b2) (n1 + n2) c c2
Ran-append sgt p pos dev b1 b2 n1 n2 c c1 c2 r s = record {
  idx = omega (arith, r.idx, s.idx);
  rem = omega (arith, r.rem, s.rem);
  device = omega (arith, s.device);
  before = λ i lt. s.before i (omega (arith, r.idx)) ∙ r.before i lt;
  moved =
      rw (held-append p c2.buf c.desc_idx n1 n2, same)
        (IsTransfer-append sgt (step_of p) (port p) _ _ pos dev b1 b2 r.moved
          (rw (← r.idx) s.moved));
}
  where
    same : held p c2.buf c.desc_idx n1 ≡ held p c1.buf c.desc_idx n1
    same = held-cong p c2.buf c1.buf c.desc_idx n1 λ j lt. s.before j (omega (arith, r.idx))

fill_ranges_done :
    (capacity : ℕ) (p : TransferParams) (num : ℕ) (ss : List SgEntry) (off : ℕ) (c : Cursor)
    → c.bytes_rem ≡ 0
    → fill_ranges capacity p num ss off c ≡ some c
unfolding fill_ranges
fill_ranges_done capacity p num [] off c e = ground arith
fill_ranges_done capacity p num (s ∷ ss) off c e = ground arith

fill_ranges_round :
    (capacity : ℕ) (p : TransferParams) (num : ℕ) (s : SgEntry) (ss : List SgEntry) (off : ℕ)
    (c c1 : Cursor)
    → c.desc_idx < num
    → 0 < c.bytes_rem
    → off ≤ s.dma_len
    → IsRange p s
    → fill_range
        (capacity - c.desc_idx)
        p
        (min c.bytes_rem (s.dma_len - off))
        (s.dma_address + off)
        c
      ≡ some c1
    → fill_ranges capacity p num (s ∷ ss) off c ≡ fill_ranges capacity p num ss 0 c1
unfolding fill_ranges range_addr
fill_ranges_round capacity p num s ss off c c1 i b o w e =
    let test : (ltb c.desc_idx num && ltb 0 c.bytes_rem) ≡ true = ground arith in
    let portion : min32 (sub32 s.dma_len off) c.bytes_rem ≡ min c.bytes_rem (s.dma_len - off) =
      ground (arith, w.short) in
    let addr : u64 (u64 (s.dma_address + s.offset) + off) ≡ s.dma_address + off =
      omega (arith, w.low, w.plain) in
    rw (test, portion, addr, e) refl

pub IsAligned-zero : (p : TransferParams) → IsAligned p 0
IsAligned-zero p = inr (zero-mod p.bytes_per_descriptor)

pub zero_le_head : (ss : List SgEntry) → All (λ s. 0 ≤ s.dma_len) (take 1 ss)
zero_le_head [] = tt
zero_le_head (s ∷ ss) = omega arith

Ran-cast :
    (sgt : List SgEntry) (p : TransferParams) (pos dev b b' n n' : ℕ) (c c' : Cursor)
    → b ≡ b'
    → n ≡ n'
    → Ran sgt p pos dev b n c c'
    → Ran sgt p pos dev b' n' c c'
Ran-cast sgt p pos dev b b' n n' c c' e f r = rw (← e, ← f) r

-- With enough bytes in the ranges and enough room in the buffer, the loop ends with all bytes moved.
pub fill_ranges-Ran :
    (sgt : List SgEntry) (capacity : ℕ) (p : TransferParams) (num : ℕ) (ss : List SgEntry)
    (base off dev rem : ℕ) (c : Cursor)
    → ((q : ℕ) → span sgt (base + q) ≡ span ss q)
    → All (IsRange p) ss
    → IsAligned p off
    → IsAligned p rem
    → c.bytes_rem ≡ rem
    → rem < 2 ^ 32
    → (rem ≢ 0 → All (λ s. off ≤ s.dma_len) (take 1 ss))
    → off + rem ≤ bytes_in ss
    → c.device_addr ≡ u32 dev
    → num ≡ c.desc_idx + count_all (step_of p) ss off rem
    → num ≤ capacity
    → (c' : Cursor) × (fill_ranges capacity p num ss off c ≡ some c')
      × Ran sgt p (base + off) dev rem (count_all (step_of p) ss off rem) c c'
unfolding count_all bytes_in
fill_ranges-Ran sgt capacity p num ss base off dev zero c h w ao ar er rb lo total d n cap =
    rw (count_all-zero (step_of p) ss off (step_pos p))
      (c, fill_ranges_done capacity p num ss off c er, Ran-zero sgt p (base + off) dev c d)
fill_ranges-Ran sgt capacity p num [] base off dev (suc rem) c h w ao ar er rb lo total d n cap =
    absurd (omega arith)
fill_ranges-Ran sgt capacity p num (s ∷ ss) base off dev (suc rem) c h w ao ar er rb lo total d n
      cap =
    let portion = min (suc rem) (s.dma_len - off) in
    let low = (lo (λ z. absurd (omega arith))).0 in
    let range = w.0 in
    let positive =
      count_all-pos (step_of p) (s ∷ ss) off (suc rem) (step_pos p) (omega arith) total in
    let (c1, e1, r1) =
      fill_range-Ran sgt p (capacity - c.desc_idx) (base + off) (s.dma_address + off)
        (s.dma_len - off) dev portion c
        (λ ne. (h off ∙ span-head s ss off (omega arith), omega arith)) (omega (arith, range.low))
        (omega arith) (omega arith) d
        (IsAligned-min p (suc rem) (s.dma_len - off) ar
          (IsAligned-sub p s.dma_len off range.even ao))
        (omega arith) in
    let round =
      fill_ranges_round capacity p num s ss off c c1 (omega (arith, positive)) (omega arith) low
        range
        (ap
            (λ b.
              fill_range (capacity - c.desc_idx) p (min b (s.dma_len - off)) (s.dma_address + off)
                c)
            er
          ∙ e1) in
    elim (dec_lt 0 (suc rem - portion)) [
      | yes more ↦
          let (c2, e2, r2) =
            fill_ranges-Ran sgt capacity p num ss (base + s.dma_len) 0 (dev + portion)
              (suc rem - portion) c1 (λ q. shifted q) w.1 (IsAligned-zero p)
              (IsAligned-sub p (suc rem) portion ar (
                IsAligned-min p (suc rem) (s.dma_len - off) ar
                  (IsAligned-sub p s.dma_len off range.even ao)))
              (omega (arith, r1.rem)) (omega arith) (λ ne. zero_le_head ss) (omega arith) r1.device
              (omega (arith, r1.idx)) cap in
          (
            c2,
            round ∙ e2,
            Ran-cast sgt p _ dev _ (suc rem) _ _ c c2 (omega arith) refl (
                Ran-append sgt p (base + off) dev portion (suc rem - portion) _ _ c c1 c2 r1 (
                  let here : base + s.dma_len + 0 ≡ base + off + portion = omega arith in
                  rw here at r2)),
          )
      | no done ↦
          let all : portion ≡ suc rem = omega arith in
          let z : suc rem - portion ≡ 0 = omega arith in
          (
            c1,
            round ∙ fill_ranges_done capacity p num ss 0 c1 (omega (arith, r1.rem)),
            Ran-cast sgt p _ dev portion (suc rem) _ _ c c1 all
                (omega (
                  arith,
                  ap (count_all (step_of p) ss 0) z,
                  count_all-zero (step_of p) ss 0 (step_pos p),
                ))
                r1,
          )
    ]
  where
    shifted : (q : ℕ) → span sgt (base + s.dma_len + q) ≡ span ss q
    shifted q = ap (span sgt) (omega arith) ∙ h (s.dma_len + q) ∙ span-tail s ss q
