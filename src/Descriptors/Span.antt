-- ===== src/Descriptors/Span.antt =====
-- The mapping as one run of bytes: where byte `pos` of it lies on the host's bus, and what it means
-- that a list of pieces moves a run of bytes.
use tpce2drv.Prelude.{
  ℕ, ◌+◌, ◌-◌, ◌≤◌, ◌<◌, ltb, if◌then◌else◌, ◌≡◌, refl, arith, List, [], ◌∷◌, ◌++◌, Option, none,
  some, false, Bool-cases, inl, inr,
}
use tpce2drv.Types.{SgEntry}

-- The bus address of byte `pos`, and the number of bytes from there to the end of its range.
pub record Place : Type 0 where
  pub addr : ℕ
  pub left : ℕ

-- The address of a range is `sg_dma_address`, as `dma_range_in_sg` takes it.
unfoldable pub span : List SgEntry → ℕ → Option Place
span [] pos = none
span (s ∷ ss) pos =
    if ltb pos s.dma_len
    then some (record { addr = s.dma_address + pos; left = s.dma_len - pos })
    else span ss (pos - s.dma_len)

pub span-head :
    (s : SgEntry) (ss : List SgEntry) (off : ℕ)
    → off < s.dma_len
    → span (s ∷ ss) off ≡ some (record { addr = s.dma_address + off; left = s.dma_len - off })
unfolding span
span-head s ss off h = ground arith

pub span-tail :
    (s : SgEntry) (ss : List SgEntry) (q : ℕ) → span (s ∷ ss) (s.dma_len + q) ≡ span ss q
unfolding span
span-tail s ss q =
    let e : s.dma_len + q - s.dma_len ≡ q = omega arith in
    let t : ltb (s.dma_len + q) s.dma_len ≡ false = ground arith in rw (t, e) refl

-- Moving on within a range.
pub span-add :
    (ss : List SgEntry) (pos q a l : ℕ)
    → span ss pos ≡ some (record { addr = a; left = l })
    → q < l
    → span ss (pos + q) ≡ some (record { addr = a + q; left = l - q })
unfolding span
span-add [] pos q a l e h = cc
span-add (s ∷ ss) pos q a l e h = elim (Bool-cases (ltb pos s.dma_len)) [
  | inl y ↦ ground arith
  | inr n ↦
      let next : pos + q - s.dma_len ≡ pos - s.dma_len + q = ground arith in
      ground (arith, next, span-add ss (pos - s.dma_len) q a l)
]

-- A piece of a transfer: an address on the host's bus, one on the device, and a length.
pub record Segment : Type 0 where
  pub bus : ℕ
  pub dev : ℕ
  pub len : ℕ

-- The pieces move `bytes` bytes in order, from byte `pos` of the mapping and device address `dev`
-- on; none is empty, longer than `step`, or goes past the range that it begins in. `port` is what
-- the device side of a descriptor holds for an address.
module _ (sgt : List SgEntry) (step : ℕ) (port : ℕ → ℕ) where
  abbrev pub Starts : ℕ → Segment → Type 0
  Starts pos x = (l : ℕ) × (span sgt pos ≡ some (record { addr = x.bus; left = l })) × (x.len ≤ l)

  abbrev pub IsTransfer : ℕ → ℕ → ℕ → List Segment → Type 0
  IsTransfer pos dev bytes [] = bytes ≡ 0
  IsTransfer pos dev bytes (x ∷ xs) =
      Starts pos x
      × (x.dev ≡ port dev)
      × ((0 < x.len) × (x.len ≤ step) × (x.len ≤ bytes))
      × IsTransfer (pos + x.len) (dev + x.len) (bytes - x.len) xs

  pub IsTransfer-append :
      (xs ys : List Segment) (pos dev b c : ℕ)
      → IsTransfer pos dev b xs
      → IsTransfer (pos + b) (dev + b) c ys
      → IsTransfer pos dev (b + c) (xs ++ ys)
  IsTransfer-append [] ys pos dev b c e t =
      let p : pos + b ≡ pos = omega arith in
      let d : dev + b ≡ dev = omega arith in
      let s : b + c ≡ c = omega arith in rw s (rw (p, d) at t)
  IsTransfer-append (x ∷ xs) ys pos dev b c (s, d, l, r) t = (
    s,
    d,
    omega arith,
    rw total (IsTransfer-append xs ys (pos + x.len) (dev + x.len) (b - x.len) c r (rw (p, q) t)),
  )
    where
      p : pos + x.len + (b - x.len) ≡ pos + b
      p = omega arith

      q : dev + x.len + (b - x.len) ≡ dev + b
      q = omega arith

      total : b + c - x.len ≡ b - x.len + c
      total = omega arith
