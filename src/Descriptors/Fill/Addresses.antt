-- ===== src/Descriptors/Fill/Addresses.antt =====
-- `fill_addresses` as a whole: the start within the mapping, and the descriptors that result.
use tpce2drv.Prelude.{
  ℕ, suc, ◌+◌, ◌-◌, ◌^◌, ◌≤◌, ◌<◌, leb, ◌≡◌, refl, arith, List, [], ◌∷◌, All, take, drop, none,
  some, Bool-cases, inl, inr, ◌∙◌, ap, sym, subst,
}
use tpce2drv.Types.{Descriptor, TransferParams, SgEntry, MapInfo}
use tpce2drv.Descriptors.{Plan, find_offset}
use tpce2drv.Descriptors.Span.{span, span-tail, IsTransfer}
use tpce2drv.Descriptors.Fill.{Cursor, fill_addresses}
use tpce2drv.Descriptors.Fill.Fields.{port, held}
use tpce2drv.Descriptors.Fill.Chunks.{step_of, IsAligned}
use tpce2drv.Descriptors.Fill.Ranges.{bytes_in, count_all, IsRange, IsAligned-sub, fill_ranges-Ran}

-- Where the search for an offset ends: `base` bytes lie in the ranges before the one found.
pub record Found (p : TransferParams) (ss : List SgEntry) (pos j off : ℕ) : Type 0 where
  pub base : ℕ
  pub position : base + off ≡ pos
  pub rest : (q : ℕ) → span ss (base + q) ≡ span (drop j ss) q
  pub bytes : base + bytes_in (drop j ss) ≡ bytes_in ss
  pub within : All (λ s. off ≤ s.dma_len) (take 1 (drop j ss))
  pub aligned : IsAligned p off
  pub ranges : All (IsRange p) (drop j ss)

pub find_offset-Found :
    (p : TransferParams) (ss : List SgEntry) (pos k : ℕ)
    → All (IsRange p) ss
    → IsAligned p pos
    → (j : ℕ) × (off : ℕ) × (find_offset ss pos k ≡ (k + j, off)) × Found p ss pos j off
unfolding find_offset bytes_in
find_offset-Found p [] pos k w a = (
  0,
  pos,
  ap (λ n. (n, pos)) (omega arith),
  record {
    base = 0;
    position = omega arith;
    rest = λ q. ap (span []) (omega arith);
    bytes = omega arith;
    within = tt;
    aligned = a;
    ranges = tt;
  },
)
find_offset-Found p (s ∷ ss) pos k w a = elim (Bool-cases (leb s.dma_len pos)) [
  | inr e ↦ rw e (
    0,
    pos,
    ap (λ n. (n, pos)) (omega arith),
    record {
      base = 0;
      position = omega arith;
      rest = λ q. ap (span (s ∷ ss)) (omega arith);
      bytes = omega arith;
      within = (ground arith, tt);
      aligned = a;
      ranges = w;
    },
  )
  | inl e ↦
      let (j, off, q, f) =
        find_offset-Found p ss (pos - s.dma_len) (k + 1) w.1
          (IsAligned-sub p pos s.dma_len a w.0.even) in
      rw e (
        suc j,
        off,
        q ∙ ap (λ n. (n, off)) (omega arith),
        record {
          base = s.dma_len + f.base;
          position = ground (arith, f.position);
          rest = λ x. ap (span (s ∷ ss)) (omega arith) ∙ span-tail s ss (f.base + x) ∙ f.rest x;
          bytes = omega (arith, f.bytes);
          within = f.within;
          aligned = f.aligned;
          ranges = f.ranges;
        },
      )
]

abbrev start_cursor : TransferParams → (ℕ → Descriptor) → Cursor
start_cursor p buf = record {
  desc_idx = 0;
  device_addr = p.device_addr;
  bytes_rem = p.bytes_total;
  buf = buf;
}

-- For a mapping whose ranges are short, low and, where the size of the descriptors is fixed, whole
-- multiples of it, for a transfer that fits the mapping and starts and ends on such a multiple, for a
-- plan with the start that `find_offset` finds and the number of pieces, and for a buffer with room
-- for them, the loops end within the table and the buffer, and the descriptors move each byte of the
-- transfer once, in order, none of them across the end of a range.
pub fill_addresses-IsTransfer :
    (p : TransferParams) (m : MapInfo) (capacity : ℕ) (buf : ℕ → Descriptor) (plan : Plan)
    → All (IsRange p) m.sgt
    → IsAligned p p.map_offset
    → IsAligned p p.bytes_total
    → p.bytes_total < 2 ^ 32
    → p.device_addr < 2 ^ 32
    → p.map_offset + p.bytes_total ≤ bytes_in m.sgt
    → find_offset m.sgt p.map_offset 0 ≡ (plan.starting_idx, plan.starting_offset)
    → plan.num_descriptors
      ≡ count_all (step_of p) (drop plan.starting_idx m.sgt) plan.starting_offset p.bytes_total
    → plan.num_descriptors ≤ capacity
    → (buf' : ℕ → Descriptor) × (fill_addresses p m capacity buf plan ≡ some buf')
      × IsTransfer m.sgt
          (step_of p)
          (port p)
          p.map_offset
          p.device_addr
          p.bytes_total
          (held p buf' 0 plan.num_descriptors)
unfolding fill_addresses
fill_addresses-IsTransfer p m capacity buf plan w ao at32 short low total found count cap =
    let (j, off, q, f0) = find_offset-Found p m.sgt p.map_offset 0 w ao in
    let same : (j, off) ≡ (plan.starting_idx, plan.starting_offset) =
      ap (λ n. (n, off)) (omega arith) ∙ sym q ∙ found in
    let f = subst (λ x. Found p m.sgt p.map_offset x.0 x.1) same f0 in
    let (c, done, ran) =
      fill_ranges-Ran m.sgt capacity p plan.num_descriptors (drop plan.starting_idx m.sgt) f.base
        plan.starting_offset p.device_addr p.bytes_total (start_cursor p buf) f.rest f.ranges
        f.aligned at32 refl short (λ _. f.within) (omega (arith, f.position, f.bytes)) (omega arith)
        (omega (arith, count)) cap in
    (
      c.buf,
      ap (λ o. elim o [ none ↦ none | some c ↦ some c.buf ]) done,
      rw (count, ← f.position) ran.moved,
    )
