-- ===== src/Descriptors/Fill/Untouched.antt =====
-- `fill_addresses` leaves the control words alone.
use tpce2drv.Prelude.{
  ℕ, zero, suc, ◌+◌, ◌-◌, ◌==◌, ltb, ◌&&◌, ◌≡◌, refl, arith, List, [], ◌∷◌, some, u64, sub32,
  Bool-cases, Option-cases, inl, inr, ◌∙◌, subst, drop,
}
use tpce2drv.Types.{Descriptor, TransferParams, SgEntry, MapInfo}
use tpce2drv.Descriptors.{Plan, min32}
use tpce2drv.Descriptors.Fill.{
  Cursor, place, fill_range, fill_ranges, range_addr, fill_addresses, get_transfer_length,
}

abbrev SameWords : Cursor → Cursor → Type 0
SameWords c c' = (i : ℕ) → (c'.buf i).control ≡ (c.buf i).control

Some-eq : {A : Type 0} {x y : A} → some x ≡ some y → x ≡ y
Some-eq h = cc

place-SameWords : (p : TransferParams) (bus len : ℕ) (c : Cursor) → SameWords c (place p bus len c)
unfolding place
place-SameWords p bus len c i = ground arith

fill_range-SameWords :
    (room : ℕ) (p : TransferParams) (rem bus : ℕ) (c c' : Cursor)
    → fill_range room p rem bus c ≡ some c'
    → SameWords c c'
unfolding fill_range
fill_range-SameWords zero p rem bus c c' h = elim (Bool-cases (rem == 0)) [
  | inl e ↦ subst (SameWords c) (Some-eq (rw (e, fill_range) at h)) (λ i. refl)
  | inr e ↦ absurd (ground arith)
]
fill_range-SameWords (suc room) p rem bus c c' h = elim (Bool-cases (rem == 0)) [
  | inl e ↦ subst (SameWords c) (Some-eq (rw (e, fill_range) at h)) (λ i. refl)
  | inr e ↦ λ i.
      let len = get_transfer_length p rem in
      fill_range-SameWords room p (sub32 rem len) (u64 (bus + len)) (place p bus len c) c'
        (rw (e, fill_range) at h) i
      ∙ place-SameWords p bus len c i
]

fill_ranges-SameWords :
    (capacity : ℕ) (p : TransferParams) (num : ℕ) (ss : List SgEntry) (off : ℕ) (c c' : Cursor)
    → fill_ranges capacity p num ss off c ≡ some c'
    → SameWords c c'
unfolding fill_ranges
fill_ranges-SameWords capacity p num [] off c c' h =
    elim (Bool-cases (ltb c.desc_idx num && ltb 0 c.bytes_rem)) [
      | inl e ↦ absurd (ground arith)
      | inr e ↦ subst (SameWords c) (Some-eq (rw (e, fill_ranges) at h)) (λ i. refl)
    ]
fill_ranges-SameWords capacity p num (s ∷ ss) off c c' h =
    elim (Bool-cases (ltb c.desc_idx num && ltb 0 c.bytes_rem)) [
      | inl e ↦
          elim (Option-cases (
            fill_range (capacity - c.desc_idx) p (min32 (sub32 s.dma_len off) c.bytes_rem)
              (u64 (range_addr s + off)) c)) [
                | inl z ↦ absurd (ground arith)
                | inr (c1, z) ↦ λ i.
                    fill_ranges-SameWords capacity p num ss 0 c1 c' (rw (e, z, fill_ranges) at h) i
                    ∙ fill_range-SameWords _ p _ _ c c1 z i
              ]
      | inr e ↦ subst (SameWords c) (Some-eq (rw (e, fill_ranges) at h)) (λ i. refl)
    ]

pub fill_addresses-control :
    (p : TransferParams) (m : MapInfo) (capacity : ℕ) (buf buf' : ℕ → Descriptor) (plan : Plan)
    (i : ℕ)
    → fill_addresses p m capacity buf plan ≡ some buf'
    → (buf' i).control ≡ (buf i).control
unfolding fill_addresses
fill_addresses-control p m capacity buf buf' plan i h =
    let start : Cursor = record {
      desc_idx = 0;
      device_addr = p.device_addr;
      bytes_rem = p.bytes_total;
      buf = buf;
    } in
    let ss = drop plan.starting_idx m.sgt in
    let off = plan.starting_offset in
    elim (Option-cases (fill_ranges capacity p plan.num_descriptors ss off start)) [
      | inl z ↦ absurd (ground arith)
      | inr (c, z) ↦
          let same : c.buf ≡ buf' = Some-eq (rw (z, fill_addresses) at h) in
          subst (λ f. (f i).control ≡ (buf i).control) same
            (fill_ranges-SameWords capacity p plan.num_descriptors ss off start c z i)
    ]
