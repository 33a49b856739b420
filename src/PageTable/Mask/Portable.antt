-- ===== src/PageTable/Mask/Portable.antt =====
-- The compiler-independent fallback of `find_first_zero_u16` against the built-in.
use native.Mathlib.Nat.{pow-suc, one-le-pow, div-div-eq-div-mul}
use tpce2drv.Prelude.{
  ℕ, zero, suc, ◌+◌, ◌-◌, ◌*◌, ◌/◌, ◌%◌, ◌^◌, ◌<◌, ◌≤◌, ◌==◌, ◌≡◌, ◌≢◌, refl, ◌∙◌, ap, inl, inr,
  pos, bit_and, if◌then◌else◌, arith, Bool-cases, u16,
}
use tpce2drv.Prelude.Bits.Masks.{bit_and-low, mod-double}
use tpce2drv.PageTable.{
  trailing_zeros, ffs, find_first_zero_u16, find_first_zero_portable, skip_zeros,
}

-- Low digits that are all zero can be skipped.
trailing_zeros-skip :
    (k n m x : ℕ)
    → m ≡ k + n
    → x % 2 ^ k ≡ 0
    → trailing_zeros m x ≡ k + trailing_zeros n (x / 2 ^ k)
unfolding trailing_zeros
trailing_zeros-skip zero n m x e h =
    ap (λ (t : ℕ). trailing_zeros t x) e' ∙ omega (arith, ap (trailing_zeros n) unshifted)
  where
    e' : m ≡ n
    e' = omega arith

    unshifted : x / 1 ≡ x
    unshifted = omega arith
trailing_zeros-skip (suc k) n zero x e h = absurd (omega arith)
trailing_zeros-skip (suc k) n (suc m) x e h = ground (
  arith,
  halves,
  ap (trailing_zeros n) quotient,
  trailing_zeros-skip k n m (x / 2) (omega arith) (omega (arith, halves)),
)
  where
    halves : x % 2 ^ suc k ≡ (x / 2) % 2 ^ k * 2 + x % 2
    halves = rw (pow-suc 2 k) (mod-double x (2 ^ k) (one-le-pow k 2 (omega arith)))

    twice : 2 * 2 ^ k ≡ 2 ^ suc k
    twice = omega (arith, pow-suc 2 k)

    quotient : x / 2 / 2 ^ k ≡ x / 2 ^ suc k
    quotient = div-div-eq-div-mul x 2 (2 ^ k) ∙ ap (λ (t : ℕ). x / t) twice

-- The digits above a one do not matter.
trailing_zeros-cut : (n m x : ℕ) → n ≤ m → x % 2 ^ n ≢ 0 → trailing_zeros m x ≡ trailing_zeros n x
unfolding trailing_zeros
trailing_zeros-cut zero m x le h = absurd (h (omega arith))
trailing_zeros-cut (suc n) zero x le h = absurd (omega arith)
trailing_zeros-cut (suc n) (suc m) x le h =
    ground (arith, halves, trailing_zeros-cut n m (x / 2) (omega arith))
  where
    halves : x % 2 ^ suc n ≡ (x / 2) % 2 ^ n * 2 + x % 2
    halves = rw (pow-suc 2 n) (mod-double x (2 ^ n) (one-le-pow n 2 (omega arith)))

-- One test of the fallback keeps the sum of the digits counted and the digits to go.
skip_zeros-sum :
    (k n x : ℕ)
    → x % 2 ^ (k + k) ≢ 0
    → (x % 2 ^ k ≡ 0 → (x / 2 ^ k) % 2 ^ k ≢ 0)
    → ((skip_zeros k (n, x)).0 + trailing_zeros k (skip_zeros k (n, x)).1
        ≡ n + trailing_zeros (k + k) x)
      × ((skip_zeros k (n, x)).1 % 2 ^ k ≢ 0)
unfolding skip_zeros
skip_zeros-sum k n x h up = elim (Bool-cases (bit_and x (2 ^ k - 1) == 0)) [
  | inl e ↦
      let z : x % 2 ^ k ≡ 0 = ground (arith, bit_and-low k x) in
      rw e (omega (arith, trailing_zeros-skip k k (k + k) x refl z), up z)
  | inr e ↦
      let ne : x % 2 ^ k ≢ 0 = ground (arith, bit_and-low k x) in
      rw e (omega (arith, trailing_zeros-cut k (k + k) x (omega arith) ne), ne)
]

last_test : (n y : ℕ) → y % 4 ≢ 0 → (if bit_and y 1 == 0 then n + 1 else n) ≡ n + trailing_zeros 2 y
unfolding trailing_zeros
last_test n y h = ground (arith, bit_and-low 1 y)

portable-trailing_zeros :
    (x : ℕ)
    → x < 2 ^ 16
    → x ≢ 0
    → let (n, y) = skip_zeros 2 (skip_zeros 4 (skip_zeros 8 (0, x))) in
      (if bit_and y 1 == 0 then n + 1 else n) ≡ trailing_zeros 16 x
portable-trailing_zeros x h ne =
    let a = skip_zeros 8 (0, x) in
    let b = skip_zeros 4 a in
    let ha = skip_zeros-sum 8 0 x (omega arith) (omega arith) in
    let hb = skip_zeros-sum 4 a.0 a.1 ha.1 (omega (arith, ha.1)) in
    let hc = skip_zeros-sum 2 b.0 b.1 hb.1 (omega (arith, hb.1)) in
    last_test _ _ hc.1 ∙ hc.0 ∙ hb.0 ∙ omega (arith, ha.0)

-- Both forms of the search return the same slot for every mask.
pub find_first_zero-portable :
    (mask : ℕ) → mask < 2 ^ 16 → find_first_zero_portable mask ≡ find_first_zero_u16 mask
unfolding find_first_zero_u16 find_first_zero_portable ffs
find_first_zero-portable mask h = elim (Bool-cases (u16 (2 ^ 16 - 1 - mask) == 0)) [
  | inl e ↦ rw e refl
  | inr e ↦
      let x = u16 (2 ^ 16 - 1 - mask) in
      rw e (ap pos (portable-trailing_zeros x (omega arith) (ground arith) ∙ omega arith))
]
