-- ===== src/PageTable/Mask.antt =====
-- The search for a free slot in the 16-digit mask.
pub mod Portable
use native.Mathlib.Nat.{pow-suc}
use tpce2drv.Prelude.{
  ℕ, zero, suc, ◌-◌, ◌/◌, ◌%◌, ◌^◌, ◌<◌, ◌==◌, ◌≡◌, ◌≢◌, refl, inl, inr, ℤ, pos, negsuc, arith,
  ==_iff, Bool-cases, u16,
}
use tpce2drv.Prelude.Bits.{bit, bit-le}
use tpce2drv.Prelude.Bits.Masks.{bit-complement}
use tpce2drv.PageTable.{trailing_zeros, ffs, find_first_zero_u16}

-- `s` is the place of the lowest digit of `x` that is one.
pub record IsLowest (x n s : ℕ) : Type 0 where
  pub below : s < n
  pub found : bit x s ≡ 1
  pub clear : (j : ℕ) → j < s → bit x j ≡ 0

IsLowest-double : (x n s : ℕ) → x % 2 ≡ 0 → IsLowest (x / 2) n s → IsLowest x (suc n) (suc s)
unfolding bit
IsLowest-double x n s e r = record {
  below = omega (arith, r.below);
  found = r.found;
  clear = λ j lt. shifted j lt;
}
  where
    shifted : (j : ℕ) → j < suc s → bit x j ≡ 0
    shifted zero lt = e
    shifted (suc j) lt = r.clear j (omega arith)

trailing_zeros-IsLowest : (n x : ℕ) → x < 2 ^ n → x ≢ 0 → IsLowest x n (trailing_zeros n x)
unfolding trailing_zeros bit
trailing_zeros-IsLowest zero x h ne = absurd (ne (omega arith))
trailing_zeros-IsLowest (suc n) x h ne = elim (Bool-cases (x % 2 == 1)) [
  | inl odd ↦ rw odd (record {
    below = omega arith;
    found = (==_iff (x % 2) 1).0 odd;
    clear = λ j lt. absurd (omega arith);
  })
  | inr even ↦
      let e : x % 2 ≡ 0 = ground arith in
      rw even (
        IsLowest-double x n _ e
          (trailing_zeros-IsLowest n (x / 2) (omega (arith, pow-suc 2 n)) (λ z. ne (omega arith))))
]

-- The outcome of the search in a 16-digit mask: the lowest zero digit, or -1 for a full mask.
pub data SlotOf (mask : ℕ) : ℤ → Type 0 where
  full : (r : ℤ) → mask ≡ 2 ^ 16 - 1 → r ≡ negsuc 0 → SlotOf mask r
  free :
      (r : ℤ) (s : ℕ)
      → r ≡ pos s
      → s < 16
      → mask ≢ 2 ^ 16 - 1
      → bit mask s ≡ 0
      → ((j : ℕ) → j < s → bit mask j ≡ 1)
      → SlotOf mask r

lowest-SlotOf :
    (mask s : ℕ)
    → mask < 2 ^ 16
    → mask ≢ 2 ^ 16 - 1
    → IsLowest (2 ^ 16 - 1 - mask) 16 s
    → SlotOf mask (pos (suc s - 1))
lowest-SlotOf mask s h ne l =
    free _ s (ground arith) l.below ne
      (omega (arith, l.found, bit-complement 16 mask s h l.below, bit-le mask s))
      λ j lt. omega (
        arith,
        l.clear j lt,
        l.below,
        bit-complement 16 mask j h (omega (arith, l.below)),
        bit-le mask j,
      )

-- The search in a 16-digit mask returns the lowest zero digit, and -1 exactly if there is none.
pub find_first_zero-SlotOf : (mask : ℕ) → mask < 2 ^ 16 → SlotOf mask (find_first_zero_u16 mask)
unfolding find_first_zero_u16 ffs
find_first_zero-SlotOf mask h = elim (Bool-cases (u16 (2 ^ 16 - 1 - mask) == 0)) [
  | inl e ↦ rw e (full _ (ground arith) refl)
  | inr e ↦
      let inverted : u16 (2 ^ 16 - 1 - mask) ≡ 2 ^ 16 - 1 - mask = omega arith in
      let ne : mask ≢ 2 ^ 16 - 1 = ground arith in
      rw (e, inverted)
        (lowest-SlotOf mask _ h ne (trailing_zeros-IsLowest 16 _ (omega arith) (omega arith)))
]
