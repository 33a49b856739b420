-- ===== src/Prelude/Bits/Masks.antt =====
-- Fields, masks and single digits under `&` and `|`, as arithmetic.
use Prim.Native.Nat.{
  ℕ, zero, suc, ◌+◌, ◌-◌, ◌*◌, ◌/◌, ◌%◌, ◌^◌, ◌≤◌, ◌<◌, bit_and, bit_or, bit_and-bitwise,
}
use mathlib.Core.Path.{◌≡◌, refl, ap, ◌∙◌}
use native.Mathlib.Omega.{arith}
use native.Mathlib.Nat.{
  pow-suc, one-le-pow, div-add-mod, mul-add-mod_self_left, mod-eq_of_lt, mod-lt, div-div-eq-div-mul,
  mul-one,
}
use tpce2drv.Prelude.Tests.{◌==◌, if◌then◌else◌}
use tpce2drv.Prelude.Bits.{bit, bit_or_step, bit_and_step, bit_and-zero, bit_or-zero}

pub bit-zero : (i : ℕ) → bit 0 i ≡ 0
unfolding bit
bit-zero zero = refl
bit-zero (suc i) = bit-zero i

pow-half : (k : ℕ) → 2 ^ suc k / 2 ≡ 2 ^ k
pow-half k = omega (arith, pow-suc 2 k)

-- A power of two has one digit.
pub bit-pow : (s j : ℕ) → bit (2 ^ s) j ≡ (if j == s then 1 else 0)
unfolding bit
bit-pow zero zero = refl
bit-pow zero (suc j) = ground (arith, bit-zero j)
bit-pow (suc s) zero = ground (arith, pow-suc 2 s)
bit-pow (suc s) (suc j) = rw (pow-half s) (ground (arith, bit-pow s j))

-- `~m` on a word of `n` digits turns each digit round.
pub bit-complement : (n m i : ℕ) → m < 2 ^ n → i < n → bit (2 ^ n - 1 - m) i ≡ 1 - bit m i
unfolding bit
bit-complement zero m i h k = absurd (omega arith)
bit-complement (suc n) m zero h k = omega (arith, pow-suc 2 n)
bit-complement (suc n) m (suc i) h k =
    let e : (2 ^ suc n - 1 - m) / 2 ≡ 2 ^ n - 1 - m / 2 = omega (arith, pow-suc 2 n) in
    rw e (bit-complement n (m / 2) i (omega (arith, pow-suc 2 n)) (omega arith))

pub bit_or-lt : (k a b : ℕ) → a < 2 ^ k → b < 2 ^ k → bit_or a b < 2 ^ k
bit_or-lt zero a b p q =
    let e : a ≡ 0 = omega arith in let f : b ≡ 0 = omega arith in rw (e, f) (omega arith)
bit_or-lt (suc k) a b p q = omega (
  arith,
  bit_or_step a b,
  pow-suc 2 k,
  bit_or-lt k (a / 2) (b / 2) (omega (arith, pow-suc 2 k)) (omega (arith, pow-suc 2 k)),
)

bit_and-le_fuel : (n a b : ℕ) → a ≤ n → bit_and a b ≤ a
bit_and-le_fuel n zero b h = omega (arith, bit_and-bitwise 0 b)
bit_and-le_fuel zero (suc a) b h = absurd (omega arith)
bit_and-le_fuel (suc n) (suc a) b h =
    omega (arith, bit_and_step (suc a) b, bit_and-le_fuel n (suc a / 2) (b / 2) (omega arith))

pub bit_and-le : (a b : ℕ) → bit_and a b ≤ a
bit_and-le a b = bit_and-le_fuel a a b (omega arith)

-- `(q << k) | r` is a sum where `r` fits into `k` digits.
pub bit_or-fields : (k q r : ℕ) → r < 2 ^ k → bit_or (q * 2 ^ k) r ≡ q * 2 ^ k + r
bit_or-fields zero q r h =
    let e : r ≡ 0 = omega arith in rw e (omega (arith, bit_or-zero (q * 1) (q * 1) (omega arith)))
bit_or-fields (suc k) q r h = omega (
  arith,
  bit_or_step (q * 2 ^ suc k) r,
  ap (λ (t : ℕ). q * t) (pow-suc 2 k),
  ap (λ (t : ℕ). bit_or t (r / 2)) half,
  bit_or-fields k q (r / 2) (omega (arith, pow-suc 2 k)),
)
  where
    half : q * 2 ^ suc k / 2 ≡ q * 2 ^ k
    half = omega (arith, ap (λ (t : ℕ). q * t) (pow-suc 2 k))

pub mod-double : (a m : ℕ) → 1 ≤ m → a % (m * 2) ≡ (a / 2) % m * 2 + a % 2
mod-double a m h =
    let e : a ≡ m * 2 * (a / 2 / m) + ((a / 2) % m * 2 + a % 2) =
      omega (arith, div-add-mod (a / 2) m) in
    ap (λ (t : ℕ). t % (m * 2)) e
    ∙ mul-add-mod_self_left (m * 2) (a / 2 / m) ((a / 2) % m * 2 + a % 2)
    ∙ mod-eq_of_lt (omega (arith, mod-lt (a / 2) h))

-- `a & (2 ^ k - 1)` is the remainder.
pub bit_and-low : (k a : ℕ) → bit_and a (2 ^ k - 1) ≡ a % 2 ^ k
bit_and-low zero a = omega (arith, bit_and-zero a a (omega arith))
bit_and-low (suc k) a = omega (
  arith,
  bit_and_step a (2 ^ suc k - 1),
  one-le-pow k 2,
  ap (λ (t : ℕ). bit_and (a / 2) t) half,
  bit_and-low k (a / 2),
  split,
)
  where
    half : (2 ^ suc k - 1) / 2 ≡ 2 ^ k - 1
    half = omega (arith, pow-suc 2 k)

    split : a % 2 ^ suc k ≡ (a / 2) % 2 ^ k * 2 + a % 2
    split = rw (pow-suc 2 k) (mod-double a (2 ^ k) (one-le-pow k 2 (omega arith)))

bit_and-double : (a b : ℕ) → bit_and a (b * 2) ≡ bit_and (a / 2) b * 2
bit_and-double a b =
    omega (arith, bit_and_step a (b * 2), ap (λ (t : ℕ). bit_and (a / 2) t) (half b))
  where
    half : (b : ℕ) → b * 2 / 2 ≡ b
    half b = omega arith

-- `a & ~(2 ^ k - 1)` on a word of `n + k` digits clears the low `k` of them.
pub bit_and-high :
    (k n a : ℕ) → a < 2 ^ n * 2 ^ k → bit_and a ((2 ^ n - 1) * 2 ^ k) ≡ a / 2 ^ k * 2 ^ k
bit_and-high zero n a h = omega (
  arith,
  ap (λ (t : ℕ). bit_and a t) (mul-one (2 ^ n - 1)),
  bit_and-low n a,
  mod-eq_of_lt {n = a} {m = 2 ^ n} (omega arith),
)
bit_and-high (suc k) n a h = omega (
  arith,
  ap (λ (t : ℕ). bit_and a t) mask,
  bit_and-double a ((2 ^ n - 1) * 2 ^ k),
  bit_and-high k n (a / 2) (omega (arith, ap (λ (t : ℕ). 2 ^ n * t) (pow-suc 2 k))),
  ap (λ (t : ℕ). a / 2 ^ suc k * t) (pow-suc 2 k),
  ap (λ (t : ℕ). t * 2 ^ k) quotient,
)
  where
    mask : (2 ^ n - 1) * 2 ^ suc k ≡ (2 ^ n - 1) * 2 ^ k * 2
    mask = omega (arith, ap (λ (t : ℕ). (2 ^ n - 1) * t) (pow-suc 2 k))

    twice : 2 * 2 ^ k ≡ 2 ^ suc k
    twice = omega (arith, pow-suc 2 k)

    quotient : a / 2 / 2 ^ k ≡ a / 2 ^ suc k
    quotient = div-div-eq-div-mul a 2 (2 ^ k) ∙ ap (λ (t : ℕ). a / t) twice
