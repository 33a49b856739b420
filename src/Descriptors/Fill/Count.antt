-- ===== src/Descriptors/Fill/Count.antt =====
-- The number of descriptors in `create_descriptor_plan` against the pieces that the loops of
-- `fill_addresses` cut.
use native.Mathlib.Nat.{suc-mul, add-mul, mul-div_cancel, zero-add}
use tpce2drv.Prelude.{
  ℕ, zero, suc, ◌+◌, ◌-◌, ◌*◌, ◌/◌, ◌%◌, ◌^◌, ◌≤◌, ◌<◌, ◌==◌, if◌then◌else◌, ◌≡◌, ◌≢◌, refl, arith,
  List, [], ◌∷◌, All, take, drop, true, false, u32, sub32, Bool-cases, length, subst, sym, inl, inr,
  ◌∙◌, ap, min,
}
use tpce2drv.Types.{TransferParams, SgEntry, MapInfo, channel_info}
use tpce2drv.Descriptors.{Plan, min32, find_offset, count_descriptors, create_descriptor_plan}
use tpce2drv.Descriptors.Fill.Chunks.{
  step_of, IsAligned, pieces, pieces-zero, pieces_step, multiple_step,
}
use tpce2drv.Descriptors.Fill.Addresses.{Found, find_offset-Found}
use tpce2drv.Descriptors.Fill.Ranges.{
  bytes_in, count_all, IsRange, count_all-zero, zero_le_head, IsAligned-zero, IsAligned-sub,
  IsAligned-min,
}

-- No more pieces than bytes
pieces-le : (step k n : ℕ) → 0 < step → n ≤ k → pieces step n ≤ n
pieces-le step k zero h l = omega (arith, pieces-zero step h)
pieces-le step zero (suc n) h l = absurd (omega arith)
pieces-le step (suc k) (suc n) h l = omega (
  arith,
  pieces_step step (suc n) h (omega arith),
  pieces-le step k (suc n - min (suc n) step) h (omega arith),
)

count_all-le :
    (step : ℕ) (ss : List SgEntry) (off rem : ℕ) → 0 < step → count_all step ss off rem ≤ rem
unfolding count_all
count_all-le step [] off rem h = omega arith
count_all-le step (s ∷ ss) off rem h =
    let portion = min rem (s.dma_len - off) in
    omega (
      arith,
      pieces-le step portion portion h (omega arith),
      count_all-le step ss 0 (rem - portion) h,
    )

-- The second loop of `create_descriptor_plan` counts the pieces, if the sums stay below 2 ^ 32.
count_descriptors-eq :
    (step : ℕ) (ss : List SgEntry) (off rem num : ℕ)
    → 0 < step
    → All (λ s. s.dma_len < 2 ^ 32) ss
    → (rem ≢ 0 → All (λ s. off ≤ s.dma_len) (take 1 ss))
    → rem + step ≤ 2 ^ 32
    → num + rem < 2 ^ 32
    → count_descriptors step ss off rem num ≡ num + count_all step ss off rem
unfolding count_all pieces
count_descriptors-eq step [] off rem num h w lo l b = omega arith
count_descriptors-eq step (s ∷ ss) off zero num h w lo l b =
    omega (arith, count_all-zero step (s ∷ ss) off h)
count_descriptors-eq step (s ∷ ss) off (suc rem) num h w lo l b =
    let portion = min (suc rem) (s.dma_len - off) in
    let low = (lo (λ z. absurd (omega arith))).0 in
    let bytes : min32 (suc rem) (sub32 s.dma_len off) ≡ portion = ground (arith, w.0) in
    let sum : u32 (portion + step - 1) ≡ portion + step - 1 = omega arith in
    let few = pieces-le step portion portion h (omega arith) in
    let number : u32 (num + pieces step portion) ≡ num + pieces step portion = omega arith in
    let rest =
      count_descriptors-eq step ss 0 (suc rem - portion) (num + pieces step portion) h w.1
        (λ _. zero_le_head ss) (omega arith) (omega arith) in
    let more : (suc rem == 0) ≡ false = ground arith in
    rw (bytes, sum, number, more) (omega (arith, rest))

pieces-mul : (b k n : ℕ) → 0 < b → n ≤ k → n % b ≡ 0 → pieces b n * b ≡ n
pieces-mul b k zero h l e = omega (arith, ap (λ (t : ℕ). t * b) (pieces-zero b h))
pieces-mul b zero (suc n) h l e = absurd (omega arith)
pieces-mul b (suc k) (suc n) h l e =
    let m = multiple_step b (suc n) (omega arith) e in
    let cut : suc n - min (suc n) b ≡ suc n - b = omega (arith, m) in
    let rest = pieces-mul b k (suc n - b) h (omega arith) m.1 in
    rw (pieces_step b (suc n) h (omega arith), cut)
      (omega (arith, suc-mul (pieces b (suc n - b)) b, rest, m.0))

IsAligned-mod :
    (p : TransferParams) (n : ℕ)
    → 0 < p.bytes_per_descriptor
    → IsAligned p n
    → n % p.bytes_per_descriptor ≡ 0
IsAligned-mod p n h (inl e) = absurd (omega arith)
IsAligned-mod p n h (inr e) = e

-- Where the size of the pieces is fixed and every length a multiple of it, nothing is left over.
count_all-mul :
    (p : TransferParams) (ss : List SgEntry) (off rem : ℕ)
    → 0 < p.bytes_per_descriptor
    → All (IsRange p) ss
    → IsAligned p off
    → IsAligned p rem
    → off + rem ≤ bytes_in ss
    → count_all p.bytes_per_descriptor ss off rem * p.bytes_per_descriptor ≡ rem
unfolding count_all bytes_in
count_all-mul p [] off rem h w o e t = omega arith
count_all-mul p (s ∷ ss) off rem h w o e t =
    let b = p.bytes_per_descriptor in
    let portion = min rem (s.dma_len - off) in
    let even = IsAligned-min p rem (s.dma_len - off) e (IsAligned-sub p s.dma_len off w.0.even o) in
    omega (
      arith,
      add-mul (pieces b portion) (count_all b ss 0 (rem - portion)) b,
      pieces-mul b portion portion h (omega arith) (IsAligned-mod p portion h even),
      count_all-mul p ss 0 (rem - portion) h w.1 (IsAligned-zero p)
          (IsAligned-sub p rem portion e even) (omega arith),
    )

-- The plan starts where `find_offset` ends and holds the number of pieces from there on.
pub record IsPlan (p : TransferParams) (ss : List SgEntry) (plan : Plan) : Type 0 where
  pub start : find_offset ss p.map_offset 0 ≡ (plan.starting_idx, plan.starting_offset)
  pub count :
      plan.num_descriptors
      ≡ count_all (step_of p) (drop plan.starting_idx ss) plan.starting_offset p.bytes_total

All-short :
    (p : TransferParams) (ss : List SgEntry) → All (IsRange p) ss → All (λ s. s.dma_len < 2 ^ 32) ss
All-short p [] w = tt
All-short p (s ∷ ss) w = (w.0.short, All-short p ss w.1)

max_transfer_pos : (ch : ℕ) → 0 < (channel_info ch).max_transfer
max_transfer_pos ch = ground arith

counted :
    (p : TransferParams) (ss : List SgEntry) (pos j off : ℕ)
    → Found p ss pos j off
    → IsAligned p p.bytes_total
    → pos + p.bytes_total ≤ bytes_in ss
    → p.bytes_total + (channel_info p.channel).max_transfer ≤ 2 ^ 32
    → (if p.bytes_per_descriptor == 0
        then count_descriptors (channel_info p.channel).max_transfer (drop j ss) off p.bytes_total 0
        else p.bytes_total / p.bytes_per_descriptor)
      ≡ count_all (step_of p) (drop j ss) off p.bytes_total
counted p ss pos j off f a t l = elim (Bool-cases (p.bytes_per_descriptor == 0)) [
  | inl e ↦ rw e (
      count_descriptors-eq (channel_info p.channel).max_transfer (drop j ss) off p.bytes_total 0
        (max_transfer_pos p.channel) (All-short p (drop j ss) f.ranges) (λ _. f.within) l
        (omega (arith, max_transfer_pos p.channel))
      ∙ zero-add _)
  | inr e ↦
      let b = p.bytes_per_descriptor in
      let pos_b : 0 < b = ground arith in
      let n = count_all b (drop j ss) off p.bytes_total in
      let all =
        count_all-mul p (drop j ss) off p.bytes_total pos_b f.ranges f.aligned a
          (omega (arith, f.position, f.bytes)) in
      rw e (ap (λ (x : ℕ). x / b) (sym all) ∙ mul-div_cancel n pos_b)
]

no_entries : (ss : List SgEntry) → (length ss == 0) ≡ true → ss ≡ []
no_entries [] h = refl
no_entries (s ∷ ss) h = absurd (ground arith)

pub create_descriptor_plan-IsPlan :
    (p : TransferParams) (m : MapInfo)
    → All (IsRange p) m.sgt
    → IsAligned p p.map_offset
    → IsAligned p p.bytes_total
    → p.map_offset + p.bytes_total ≤ bytes_in m.sgt
    → p.bytes_total + (channel_info p.channel).max_transfer ≤ 2 ^ 32
    → IsPlan p m.sgt (create_descriptor_plan m p)
unfolding find_offset bytes_in count_all
create_descriptor_plan-IsPlan p m w o a t l = elim (Bool-cases (length m.sgt == 0)) [
  | inl e ↦
      let empty = no_entries m.sgt e in
      let bytes : p.map_offset + p.bytes_total ≤ bytes_in [] =
        subst (λ ss. p.map_offset + p.bytes_total ≤ bytes_in ss) empty t in
      rw (e, empty) (record { start = ap (λ n. (0, n)) (omega arith); count = refl })
  | inr e ↦
      let (j, off, q, f) = find_offset-Found p m.sgt p.map_offset 0 w o in
      let found : find_offset m.sgt p.map_offset 0 ≡ (j, off) =
        q ∙ ap (λ n. (n, off)) (zero-add j) in
      rw (e, found) (record { start = found; count = counted p m.sgt p.map_offset j off f a t l })
]
