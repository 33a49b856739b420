-- ===== src/Request/Legacy/Ring.antt =====
-- linux/request.c: the bytes that the plan of `ioc_dma_read_request_a` brings to user space. A block
-- of the device's memory is a ring of `AddrBlockSize * 2` bytes.
use native.Mathlib.Nat.{
  mod-lt, mod-eq_of_lt, mod-add-mod, pow-suc, one-le-pow, mul-one, mod-add-div',
}
use tpce2drv.Prelude.{
  ℕ, zero, suc, ◌+◌, ◌-◌, ◌*◌, ◌/◌, ◌%◌, ◌^◌, ◌≤◌, ◌<◌, ◌==◌, ltb, not, ◌≡◌, refl, arith,
  Bool-cases, inl, inr, ◌∙◌, ap, sym, bit_and, u32,
}
use tpce2drv.Prelude.Bits.Masks.{bit_and-low, bit_and-high}
use tpce2drv.Request.Legacy.{
  DataRead, block_mask, round8, ch_addr, block_addr, stride, overread, rolls_over,
}

-- A request for whole words of 8 bytes from a block of `2 ^ n` samples, and not for more than it
pub record IsWords (d : DataRead) (n : ℕ) : Type 0 where
  pub block : d.addr_block_size ≡ 2 ^ n
  pub large : (10 ≤ n) × (n < 31)
  pub in_memory : 0x40000000 + block_addr d + ch_addr d + 2 ^ suc n ≤ 2 ^ 32
  pub in_word : d.address * 2 + d.count < 2 ^ 32
  pub each : d.next_address ≡ 1
  pub first : d.address % 4 ≡ 0
  pub whole : d.count % 8 ≡ 0
  pub short : d.count / 2 ≤ d.addr_block_size

abbrev pub start : DataRead → ℕ
start d = 0x40000000 + block_addr d + ch_addr d

-- The address of a byte of the ring
abbrev pub ring_byte : DataRead → ℕ → ℕ
ring_byte d i =
    0x40000000 + block_addr d + ch_addr d + (d.address * 2 + i) % (d.addr_block_size * 2)

-- Where in the block the request starts, and how many bytes follow up to the end of the block
abbrev pub block_place : DataRead → ℕ → ℕ
block_place d n = d.address * 2 % 2 ^ suc n

abbrev pub upper : DataRead → ℕ → ℕ
upper d n = 2 ^ suc n - block_place d n

-- `x & 0xFFFFFFF8`
pub round8_lem : (x : ℕ) → x < 2 ^ 32 → round8 x ≡ x / 8 * 8
round8_lem x h = bit_and-high 3 29 x (omega arith)

two_pow-add : (k m : ℕ) → 2 ^ k * 2 ^ m ≡ 2 ^ (k + m)
two_pow-add k zero =
    let same : k ≡ k + 0 = omega arith in mul-one (2 ^ k) ∙ ap (λ (j : ℕ). 2 ^ j) same
two_pow-add k (suc m) =
    ap (λ t. 2 ^ k * t) (pow-suc 2 m) ∙ grind (arith, two_pow-add k m, pow-suc 2 (k + m))

less_one : (m k : ℕ) → 1 ≤ m → (m - 1) * k + k ≡ m * k
less_one zero k h = absurd (omega arith)
less_one (suc m) k h = grind arith

multiple_rem : (x N m : ℕ) → N ≡ m * 8 → x % 8 ≡ 0 → x % N % 8 ≡ 0
multiple_rem x N m e h =
    let q = x / N in
    let eight : q * N ≡ q * m * 8 = ap (λ t. q * t) e ∙ grind arith in
    omega (arith, mod-add-div' x N, eight, h)

same_block : (x c N : ℕ) → 0 < N → (x / N * N == (x + c) / N * N) ≡ ltb (x % N + c) N
same_block x c N h =
    let sum = mod-add-mod x N c in
    let left = mod-lt x h in
    let right = mod-lt (x + c) h in
    elim (Bool-cases (ltb (x % N + c) N)) [
      | inl e ↦
          let small = mod-eq_of_lt {n = x % N + c} {m = N} (ground arith) in
          rw e (ground (arith, mod-add-div' x N, mod-add-div' (x + c) N, sum, small))
      | inr e ↦ rw e (ground (arith, mod-add-div' x N, mod-add-div' (x + c) N, left, right))
    ]

-- The size of a block in bytes
pub record IsSize (n : ℕ) : Type 0 where
  pub word : 2 ^ (31 - n) * 2 ^ suc n ≡ 2 ^ 32
  pub rest : (2 ^ (31 - n) - 1) * 2 ^ suc n + 2 ^ suc n ≡ 2 ^ 32
  pub double : 2 ^ suc n ≡ 2 ^ n * 2
  pub least : 0 < 2 ^ suc n
  pub whole : 2 ^ suc n % 8 ≡ 0

size-IsSize : (n : ℕ) → (10 ≤ n) × (n < 31) → IsSize n
size-IsSize n (a, b) =
    let sum : 31 - n + suc n ≡ 32 = omega arith in
    let word : 2 ^ (31 - n) * 2 ^ suc n ≡ 2 ^ 32 =
      two_pow-add (31 - n) (suc n) ∙ ap (λ (k : ℕ). 2 ^ k) sum in
    record {
      word = word;
      rest = less_one (2 ^ (31 - n)) (2 ^ suc n) (one-le-pow (31 - n) 2 (omega arith)) ∙ word;
      double = pow-suc 2 n;
      least = one-le-pow (suc n) 2 (omega arith);
      whole = omega (arith, two_pow-add (n - 2) 3, ap (λ (k : ℕ). 2 ^ k) eight);
    }
  where
    eight : n - 2 + 3 ≡ suc n
    eight = omega arith

-- `x & 0xFFFFFFF8` of whole words
pub round8-whole : (x : ℕ) → x < 2 ^ 32 → x % 8 ≡ 0 → round8 x ≡ x
round8-whole x h e = omega (arith, round8_lem x h, e)

module _ (d : DataRead) (n : ℕ) (w : IsWords d n) where
  pub size : IsSize n
  size = size-IsSize n w.large

  mask : block_mask d ≡ (2 ^ (31 - n) - 1) * 2 ^ suc n
  unfolding block_mask
  mask = omega (arith, w.block, size.rest, size.double, size.least, w.in_memory)

  pub low : (x : ℕ) → bit_and x (2 ^ 32 - 1 - block_mask d) ≡ x % 2 ^ suc n
  low x = ap (bit_and x) (omega (arith, mask, size.rest, size.least)) ∙ bit_and-low (suc n) x

  pub high : (x : ℕ) → x < 2 ^ 32 → bit_and x (block_mask d) ≡ x / 2 ^ suc n * 2 ^ suc n
  high x h = rw mask (bit_and-high (suc n) (31 - n) x (omega (arith, h, size.word)))

  pub first_in_block : (d.address * 2) % 2 ^ suc n % 8 ≡ 0
  first_in_block =
      multiple_rem (d.address * 2) (2 ^ suc n) (2 ^ suc n / 8) (omega (arith, size.whole))
        (omega (arith, w.first))

  -- The ring, from the place of the first byte in it
  pub ring_byte_lem :
      (i : ℕ) → ring_byte d i ≡ start d + (((d.address * 2) % 2 ^ suc n + i) % 2 ^ suc n)
  ring_byte_lem i =
      let N = 2 ^ suc n in
      let bytes : d.addr_block_size * 2 ≡ N = omega (arith, w.block, size.double) in
      ap (λ (k : ℕ). start d + (d.address * 2 + i) % k) bytes
      ∙ ap (λ (k : ℕ). start d + k) (sym (mod-add-mod (d.address * 2) N i))

  block_whole : block_addr d % 8 ≡ 0
  block_whole =
      let q = d.addr_block_size / 4 in
      let four : d.addr_block_size ≡ q * 4 = omega (arith, w.block, size.double, size.whole) in
      let product : d.addr_block_nr * d.addr_block_size ≡ d.addr_block_nr * q * 4 =
        ap (λ t. d.addr_block_nr * t) four ∙ grind arith in
      omega (arith, product)

  pub start_whole : start d % 8 ≡ 0
  unfolding ch_addr
  start_whole = ground (arith, w.block, block_whole)

  pub one : stride d ≡ 1
  one = omega (arith, w.each)

  pub rolls : rolls_over d ≡ not (ltb ((d.address * 2) % 2 ^ suc n + d.count) (2 ^ suc n))
  unfolding rolls_over
  rolls =
      let x = d.address * 2 in
      let N = 2 ^ suc n in
      let c = d.count in
      let here : u32 x ≡ x = omega (arith, w.in_word) in
      let a : bit_and (u32 x) (block_mask d) ≡ x / N * N =
        ap (λ (y : ℕ). bit_and y (block_mask d)) here ∙ high x (omega (arith, w.in_word)) in
      let end : u32 (x + c * stride d) ≡ x + c = omega (arith, w.in_word, ap (λ t. c * t) one) in
      let b : bit_and (u32 (x + c * stride d)) (block_mask d) ≡ (x + c) / N * N =
        ap (λ (y : ℕ). bit_and y (block_mask d)) end ∙ high (x + c) w.in_word in
      rw (a, b, same_block x c N size.least) refl

  pub no_overread : overread d ≡ 0
  no_overread = ground (arith, w.first, one)
