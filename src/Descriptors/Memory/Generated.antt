-- ===== src/Descriptors/Memory/Generated.antt =====
-- Descriptors that `tpce_generate_descriptors` makes against the check of descriptors.
use native.Mathlib.Nat.{add-zero, zero-add}
use tpce2drv.Prelude.{
  ℕ, zero, suc, ◌+◌, ◌-◌, ◌^◌, ◌≤◌, ◌<◌, ◌==◌, ltb, ◌≡◌, ◌⊎◌, refl, arith, List, [], ◌∷◌, All, none,
  some, Bool-cases, inl, inr, subst,
}
use tpce2drv.Types.{Descriptor, TransferParams, SgEntry, MapInfo, from_device, to_device}
use tpce2drv.Descriptors.{create_descriptor_plan}
use tpce2drv.Descriptors.Span.{span, IsTransfer}
use tpce2drv.Descriptors.Params.{flags, tpce_validate_dma_params}
use tpce2drv.Descriptors.Params.Accepted.{validate_iff}
use tpce2drv.Descriptors.Fill.Fields.{describe, port, held}
use tpce2drv.Descriptors.Fill.Chunks.{step_of}
use tpce2drv.Descriptors.Fill.Control.{tpce_generate_descriptors, generated}
use tpce2drv.Descriptors.Fill.Control.Whole.{IsSound, generate-IsGenerated}
use tpce2drv.Descriptors.Memory.{tpce_validate_desc_mem}
use tpce2drv.Descriptors.Memory.Check.{
  Inside, here, later, IsInside, checked_addr, validate_desc_mem-IsInside,
}

-- The table holds bus addresses without a further offset, below 2 ^ 64.
abbrev IsPlain : SgEntry → Type 0
IsPlain s = (s.offset ≡ 0) × (s.dma_address + s.dma_len < 2 ^ 64)

span-Inside :
    (ss : List SgEntry) (pos a l len : ℕ)
    → span ss pos ≡ some (record { addr = a; left = l })
    → All IsPlain ss
    → 0 < len
    → len ≤ l
    → (a + len < 2 ^ 64) × Inside a len ss
unfolding span
span-Inside [] pos a l len e w h k = cc
span-Inside (s ∷ ss) pos a l len e w h k = elim (Bool-cases (ltb pos s.dma_len)) [
  | inl y ↦ (ground (arith, w.0), here s ss (ground (arith, w.0)) (ground (arith, w.0)) w.0.1)
  | inr n ↦
      let r = span-Inside ss (pos - s.dma_len) a l len (rw (n, span) at e) w.1 h k in
      (r.0, later s ss r.1)
]

held-IsInside :
    (sgt : List SgEntry) (step : ℕ) (side : ℕ → ℕ) (p : TransferParams) (buf : ℕ → Descriptor)
    (i n pos dev bytes : ℕ)
    → All IsPlain sgt
    → IsTransfer sgt step side pos dev bytes (held p buf i n)
    → (j : ℕ) → j < n
    → IsInside sgt (describe p (buf (i + j))).bus (describe p (buf (i + j))).len
unfolding IsInside
held-IsInside sgt step side p buf i zero pos dev bytes w t j lt = absurd (omega arith)
held-IsInside sgt step side p buf i (suc n) pos dev bytes w ((l, s, k), d, b, r) zero lt =
    let q = span-Inside sgt pos _ l _ s w b.0 k in
    rw (add-zero i) ((λ e. absurd (omega arith)), q.0, q.1)
held-IsInside sgt step side p buf i (suc n) pos dev bytes w ((l, s, k), d, b, r) (suc j) lt =
    let next : i + suc j ≡ i + 1 + j = omega arith in
    rw next (held-IsInside sgt step side p buf (i + 1) n _ _ _ w r j (omega arith))

-- The side of the host, by the direction
bus_lem :
    (p : TransferParams) (d : Descriptor)
    → (p.direction ≡ from_device) ⊎ (p.direction ≡ to_device)
    → (describe p d).bus ≡ checked_addr (p.direction == to_device) d
unfolding describe
bus_lem p d (inl e) = rw e refl
bus_lem p d (inr e) = rw e refl

IsInside-checked :
    (sgt : List SgEntry) (p : TransferParams) (d : Descriptor)
    → (p.direction ≡ from_device) ⊎ (p.direction ≡ to_device)
    → IsInside sgt (describe p d).bus (describe p d).len
    → IsInside sgt (checked_addr (p.direction == to_device) d) d.transfer_length
unfolding describe
IsInside-checked sgt p d dir i = rw (← bus_lem p d dir) i

-- For parameters that tpce_validate_dma_params accepts, on a mapping that is sound for them and whose
-- table holds bus addresses without a further offset, tpce_validate_desc_mem passes the descriptors
-- that tpce_generate_descriptors returns.
pub generate-passes :
    (p : TransferParams) (m : MapInfo) (buf : ℕ → Descriptor) (max_descriptors : ℕ)
    → tpce_validate_dma_params (some p) (some m) ≡ flags 0
    → IsSound p m
    → All IsPlain m.sgt
    → (create_descriptor_plan m p).num_descriptors ≤ max_descriptors
    → (num : ℕ) × (buf' : ℕ → Descriptor) × (tpce_generate_descriptors
          (some p)
          (some m)
          (some buf)
          max_descriptors
        ≡ generated num buf')
      × (tpce_validate_desc_mem (some m) (some buf') num (p.direction == to_device) ≡ none)
generate-passes p m buf max_descriptors ok s w room =
    let a = (validate_iff p m).0 ok in
    let num = (create_descriptor_plan m p).num_descriptors in
    let (buf', e, g) = generate-IsGenerated p m buf max_descriptors ok s room in
    (
      num,
      buf',
      e,
      (validate_desc_mem-IsInside m buf' num (p.direction == to_device)).1 λ j lt.
          subst
            (λ (k : ℕ).
              IsInside m.sgt (checked_addr (p.direction == to_device) (buf' k))
                (buf' k).transfer_length)
            (zero-add j)
            (IsInside-checked m.sgt p (buf' (0 + j)) a.direction.0 (
              held-IsInside m.sgt (step_of p) (port p) p buf' 0 num p.map_offset p.device_addr
                p.bytes_total w g.moved j lt)),
    )
