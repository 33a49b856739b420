-- ===== src/Descriptors/Fill/Chunks.antt =====
-- The inner loop of `fill_addresses`: one range is cut into pieces of at most one step.
use native.Mathlib.Nat.{div-eq-sub-div, div-eq_of_lt, mod-eq-sub-mod, mod-eq_of_lt}
use native.Mathlib.Decide.{dec_le}
use tpce2drv.Prelude.{
  ℕ, zero, suc, ◌+◌, ◌-◌, ◌/◌, ◌%◌, ◌^◌, ◌≤◌, ◌<◌, ◌==◌, if◌then◌else◌, ◌≡◌, ◌≢◌, ◌⊎◌, refl, arith,
  List, ◌∷◌, some, false, u32, u64, sub32, Bool-cases, inl, inr, ◌∙◌, ap, ap₂, min, update,
}
use tpce2drv.Types.{Descriptor, TransferParams, SgEntry, channel_info}
use tpce2drv.Descriptors.Span.{span, span-add, IsTransfer}
use tpce2drv.Descriptors.Fill.{Cursor, place, fill_range, get_transfer_length, set_addresses}
use tpce2drv.Descriptors.Fill.Fields.{describe, describe-set_addresses, port, held}

-- The longest piece of a transfer.
abbrev pub step_of : TransferParams → ℕ
step_of p =
    if p.bytes_per_descriptor == 0
    then (channel_info p.channel).max_transfer
    else p.bytes_per_descriptor

-- With a fixed size of the pieces, only its multiples can be cut.
abbrev pub IsAligned : TransferParams → ℕ → Type 0
IsAligned p n = (p.bytes_per_descriptor ≡ 0) ⊎ (n % p.bytes_per_descriptor ≡ 0)

-- The number of pieces of `n` bytes.
unfoldable pub pieces : ℕ → ℕ → ℕ
pieces step n = (n + step - 1) / step

pub step_pos : (p : TransferParams) → (0 < step_of p)
step_pos p = ground arith

pub pieces-zero : (step : ℕ) → 0 < step → pieces step 0 ≡ 0
unfolding pieces
pieces-zero step h = div-eq_of_lt (omega arith)

pub pieces_step :
    (step n : ℕ) → 0 < step → 0 < n → pieces step n ≡ suc (pieces step (n - min n step))
unfolding pieces
pieces_step step n h k =
    let one : (n + step - 1) / step ≡ (n + step - 1 - step) / step + 1 =
      div-eq-sub-div h (omega arith) in
    elim (dec_le n step) [
      | yes le ↦ omega (
        arith,
        one,
        div-eq_of_lt {n = n + step - 1 - step} {m = step} (omega arith),
        div-eq_of_lt {n = n - min n step + step - 1} {m = step} (omega arith),
      )
      | no gt ↦
          let e : n + step - 1 - step ≡ n - min n step + step - 1 = omega arith in
          omega (arith, one, ap (λ (t : ℕ). t / step) e)
    ]

pub multiple_step : (b n : ℕ) → 0 < n → n % b ≡ 0 → (b ≤ n) × ((n - b) % b ≡ 0)
multiple_step b n h e = elim (dec_le b n) [
  | yes le ↦ (le, omega (arith, mod-eq-sub-mod le))
  | no gt ↦ absurd (omega (arith, mod-eq_of_lt {n = n} {m = b} (omega arith)))
]

-- What is cut off is at most one step, and leaves a multiple.
pub length-eq-min :
    (p : TransferParams) (n : ℕ)
    → 0 < n
    → IsAligned p n
    → (get_transfer_length p n ≡ min n (step_of p)) × IsAligned p (n - min n (step_of p))
unfolding get_transfer_length
length-eq-min p n h (inl e) = rw e (ground arith, inl refl)
length-eq-min p n h (inr e) =
    let m = multiple_step p.bytes_per_descriptor n h e in
    elim (Bool-cases (p.bytes_per_descriptor == 0)) [
      | inl z ↦ (ground (arith, m), inl (ground arith))
      | inr ne ↦
          let s : step_of p ≡ p.bytes_per_descriptor = ground arith in
          let w : min n p.bytes_per_descriptor ≡ p.bytes_per_descriptor = omega (arith, m) in
          rw (s, w) (ground (arith, m), inr m.1)
    ]

-- What a run of the loops has done, from byte `pos` of the mapping and device address `dev` on:
-- `bytes` bytes in `n` descriptors, and no descriptor before them has changed.
pub record Ran (sgt : List SgEntry) (p : TransferParams) (pos dev bytes n : ℕ) (c c' : Cursor)
    : Type 0 where
  pub idx : c'.desc_idx ≡ c.desc_idx + n
  pub rem : c'.bytes_rem + bytes ≡ c.bytes_rem
  pub device : c'.device_addr ≡ u32 (dev + bytes)
  pub before : (i : ℕ) → i < c.desc_idx → c'.buf i ≡ c.buf i
  pub moved : IsTransfer sgt (step_of p) (port p) pos dev bytes (held p c'.buf c.desc_idx n)

pub held-cong :
    (p : TransferParams) (f g : ℕ → Descriptor) (i n : ℕ)
    → ((j : ℕ) → j < i + n → f j ≡ g j)
    → held p f i n ≡ held p g i n
held-cong p f g i zero h = refl
held-cong p f g i (suc n) h =
    ap₂ ◌∷◌ (ap (describe p) (h i (omega arith)))
      (held-cong p f g (i + 1) n λ j lt. h j (omega arith))

update_self : (f : ℕ → Descriptor) (k : ℕ) (d : Descriptor) → update f k d k ≡ d
update_self f k d = ground arith

-- One round of the loop, and then a run.
Ran-place :
    (sgt : List SgEntry) (p : TransferParams) (pos bus left dev rem n len : ℕ) (c c' : Cursor)
    → span sgt pos ≡ some (record { addr = bus; left = left })
    → bus < 2 ^ 64
    → 0 < len
    → len ≤ step_of p
    → len ≤ rem
    → rem ≤ left
    → rem ≤ c.bytes_rem
    → c.bytes_rem < 2 ^ 32
    → c.device_addr ≡ u32 dev
    → Ran sgt p (pos + len) (dev + len) (rem - len) n (place p bus len c) c'
    → Ran sgt p pos dev rem (suc n) c c'
unfolding place
Ran-place sgt p pos bus left dev rem n len c c' s b l1 l2 l3 l4 l5 l6 d r = record {
  idx = omega (arith, r.idx);
  rem = omega (arith, r.rem);
  device = omega (arith, r.device);
  before = λ i lt. ground (arith, r.before i);
  moved = rw first ((left, s, omega arith), refl, (l1, l2, l3), r.moved);
}
  where
    first : describe p (c'.buf c.desc_idx) ≡ record { bus = bus; dev = port p dev; len = len }
    first =
        ap (describe p) (
          r.before c.desc_idx (omega arith)
          ∙ update_self c.buf c.desc_idx _
          ∙ ap (λ a. set_addresses p bus a len (c.buf c.desc_idx)) d)
        ∙ describe-set_addresses p bus dev len (c.buf c.desc_idx) b

fill_range-zero :
    (room : ℕ) (p : TransferParams) (bus : ℕ) (c : Cursor) → fill_range room p 0 bus c ≡ some c
unfolding fill_range
fill_range-zero zero p bus c = refl
fill_range-zero (suc room) p bus c = refl

pub Ran-zero :
    (sgt : List SgEntry) (p : TransferParams) (pos dev : ℕ) (c : Cursor)
    → c.device_addr ≡ u32 dev
    → Ran sgt p pos dev 0 0 c c
Ran-zero sgt p pos dev c d = record {
  idx = omega arith;
  rem = omega arith;
  device = omega arith;
  before = λ i lt. refl;
  moved = refl;
}

place_bounds :
    (p : TransferParams) (bus len rem dev : ℕ) (c : Cursor)
    → len ≤ rem
    → rem ≤ c.bytes_rem
    → c.bytes_rem < 2 ^ 32
    → c.device_addr ≡ u32 dev
    → (rem - len ≤ (place p bus len c).bytes_rem)
      × ((place p bus len c).bytes_rem < 2 ^ 32)
      × ((place p bus len c).device_addr ≡ u32 (dev + len))
unfolding place
place_bounds p bus len rem dev c l k h d = (omega arith, omega arith, omega arith)

fill_range_round :
    (room : ℕ) (p : TransferParams) (rem bus len : ℕ) (c : Cursor)
    → 0 < rem
    → get_transfer_length p rem ≡ len
    → len ≤ rem
    → bus + rem < 2 ^ 64
    → rem < 2 ^ 32
    → fill_range (suc room) p rem bus c
      ≡ fill_range room p (rem - len) (bus + len) (place p bus len c)
unfolding fill_range
fill_range_round room p rem bus len c h e le b w =
    let x : sub32 rem len ≡ rem - len = omega arith in
    let y : u64 (bus + len) ≡ bus + len = omega arith in
    let z : (rem == 0) ≡ false = ground arith in rw (z, e, x, y) refl

-- With a place in the mapping, enough bytes in its range and enough room in the buffer, the loop
-- ends, has not written past the buffer, and has moved the bytes of the range.
pub fill_range-Ran :
    (sgt : List SgEntry) (p : TransferParams) (room pos bus left dev rem : ℕ) (c : Cursor)
    → (rem ≢ 0 → (span sgt pos ≡ some (record { addr = bus; left = left })) × (rem ≤ left))
    → bus + rem < 2 ^ 64
    → rem ≤ c.bytes_rem
    → c.bytes_rem < 2 ^ 32
    → c.device_addr ≡ u32 dev
    → IsAligned p rem
    → pieces (step_of p) rem ≤ room
    → (c' : Cursor) × (fill_range room p rem bus c ≡ some c')
      × Ran sgt p pos dev rem (pieces (step_of p) rem) c c'
unfolding fill_range
fill_range-Ran sgt p room pos bus left dev zero c s b l5 l6 d al r =
    rw (pieces-zero (step_of p) (step_pos p))
      (c, fill_range-zero room p bus c, Ran-zero sgt p pos dev c d)
fill_range-Ran sgt p zero pos bus left dev (suc rem) c s b l5 l6 d al r =
    absurd (omega (arith, pieces_step (step_of p) (suc rem) (step_pos p) (omega arith)))
fill_range-Ran sgt p (suc room) pos bus left dev (suc rem) c s b l5 l6 d al r =
    let len = min (suc rem) (step_of p) in
    let here = s (λ e. absurd (omega arith)) in
    let e = length-eq-min p (suc rem) (omega arith) al in
    let more = pieces_step (step_of p) (suc rem) (step_pos p) (omega arith) in
    let pos_step = step_pos p in
    let q = place_bounds p bus len (suc rem) dev c (omega arith) l5 l6 d in
    let (c', done, ran) =
      fill_range-Ran sgt p room (pos + len) (bus + len) (left - len) (dev + len) (suc rem - len)
        (place p bus len c)
        (λ ne. (span-add sgt pos len bus left here.0 (omega arith), omega (arith, here.1)))
        (omega arith) q.0 q.1 q.2 e.1 (omega (arith, more)) in
    (
      c',
      fill_range_round room p (suc rem) bus len c (omega arith) e.0 (omega arith) b (omega arith)
          ∙ done,
      rw more (
          Ran-place sgt p pos bus left dev (suc rem) _ len c c' here.0 (omega arith) (omega arith)
            (omega arith) (omega arith) here.1 l5 l6 d ran),
    )
