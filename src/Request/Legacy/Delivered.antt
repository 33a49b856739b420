-- ===== src/Request/Legacy/Delivered.antt =====
-- linux/request.c: what the reads and copies of `ioc_dma_read_request_a` bring to user space.
use native.Mathlib.Nat.{mod-eq_of_lt, mod-lt, one-le-pow, pow-suc, add-mod_right}
use tpce2drv.Prelude.{
  ℕ, zero, suc, not, false, u8, ◌/◌, ◌+◌, ◌-◌, ◌*◌, ◌%◌, ◌^◌, ◌≤◌, ◌<◌, ◌==◌, leb, ltb,
  if◌then◌else◌, ◌&&◌, ◌≡◌, refl, arith, Option, none, some, List, [], ◌∷◌, ◌++◌, Bool-cases, inl,
  inr, ◌∙◌, ap, sym, u32,
}
use tpce2drv.Types.{channel_info}
use tpce2drv.Request.Legacy.{
  stride, ch_addr, block_addr, Read, Step, read, copy, read_to_user, DataRead, round8, overread,
  read_of, read_parts, plan_read,
}
use tpce2drv.Request.Legacy.Plans.{plan_read-shape, upper_whole, lower_lem}
use tpce2drv.Request.Legacy.Ring.{
  IsWords, ring_byte, start, block_place, upper, round8-whole, ring_byte_lem, no_overread,
}

-- The channel and the address of the device whose byte each byte holds: in the driver's buffer, and in
-- user space
pub record Bytes : Type 0 where
  pub drv : ℕ → Option (ℕ × ℕ)
  pub user : ℕ → Option (ℕ × ℕ)

abbrev pub nothing : Bytes
nothing = record { drv = λ _. none; user = λ _. none }

-- The stride and the channel of a request for consecutive bytes
abbrev IsPlain : DataRead → Type 0
IsPlain d = (stride d ≡ 1) × (d.dma_channel < 2)

-- What a read brings from an address: a channel that reads from memory brings its byte if both strides
-- are 1. What other strides bring, and a channel that reads from a stream, is not described.
unfoldable pub brings : Read → ℕ → Option (ℕ × ℕ)
brings r a =
    if r.read_stride == 1 && r.write_stride == 1 && not (channel_info r.channel).has_stream_read
    then some (r.channel, a)
    else none

brings-read_of :
    (d : DataRead) (a len x : ℕ) → IsPlain d → brings (read_of d a len) x ≡ some (d.dma_channel, x)
unfolding brings
brings-read_of d a len x (one, below) =
    let same : u8 d.dma_channel ≡ d.dma_channel = omega (arith, below) in
    rw (one, same, memory d.dma_channel below) refl
  where
    memory : (c : ℕ) → c < 2 → (channel_info c).has_stream_read ≡ false
    memory zero h = refl
    memory (suc zero) h = refl
    memory (suc (suc c)) h = absurd (omega arith)

-- What steps bring
unfoldable pub deliver : List Step → Bytes → Bytes
deliver [] b = b
deliver (read r ∷ steps) b =
    deliver steps (record b {
      drv = λ j. if ltb j r.bytes_total then brings r (r.device_addr + j) else b.drv j;
    })
deliver (copy c ∷ steps) b = deliver steps (record b {
  user = λ x.
      if leb c.dst x && ltb x (c.dst + c.copy_len)
      then b.drv (c.copy_offset + (x - c.dst))
      else b.user x;
})

deliver-append : (xs ys : List Step) (b : Bytes) → deliver (xs ++ ys) b ≡ deliver ys (deliver xs b)
unfolding deliver
deliver-append [] ys b = refl
deliver-append (read r ∷ xs) ys b = deliver-append xs ys _
deliver-append (copy c ∷ xs) ys b = deliver-append xs ys _

-- A read and a copy
read_to_user-deliver :
    (dst : ℕ) (r : Read) (len x : ℕ) (b : Bytes)
    → len ≤ r.bytes_total
    → (deliver (read_to_user dst r 0 len) b).user x
      ≡ (if leb dst x && ltb x (dst + len) then brings r (r.device_addr + (x - dst)) else b.user x)
unfolding deliver
read_to_user-deliver dst r len x b h = ground arith

-- A byte of a copy that no read has brought
pub read_to_user-beyond :
    (dst : ℕ) (r : Read) (offset len i : ℕ)
    → i < len
    → r.bytes_total ≤ offset + i
    → (deliver (read_to_user dst r offset len) nothing).user (dst + i) ≡ none
unfolding deliver
read_to_user-beyond dst r offset len i h k = ground arith

-- A part of a plan in whole words, which is left out when it is empty
part-deliver :
    (d : DataRead) (dst a len len' x : ℕ) (b : Bytes)
    → IsPlain d
    → len ≤ len'
    → (deliver (if len == 0 then [] else read_to_user dst (read_of d a len') 0 len) b).user x
      ≡ (if leb dst x && ltb x (dst + len) then some (d.dma_channel, a + (x - dst)) else b.user x)
unfolding deliver
part-deliver d dst a len len' x b y h = elim (Bool-cases (len == 0)) [
  | inl e ↦ rw e (ground (arith, e))
  | inr e ↦ rw e (
      read_to_user-deliver dst (read_of d a len') len x b h
      ∙ ap (λ o. if leb dst x && ltb x (dst + len) then o else b.user x)
          (brings-read_of d a len' (a + (x - dst)) y))
]

parts-deliver :
    (d : DataRead) (a1 c1 a2 c2 x : ℕ) (b : Bytes)
    → IsPlain d
    → overread d ≡ 0
    → (c1 % 8 ≡ 0) × (c1 < 2 ^ 32)
    → (c2 % 8 ≡ 0) × (c2 < 2 ^ 32)
    → (deliver (read_parts d a1 c1 0 a2 c2) b).user x ≡ (
        if leb (d.data_ptr + c1) x && ltb x (d.data_ptr + c1 + c2)
        then some (d.dma_channel, a2 + (x - (d.data_ptr + c1)))
        else if leb d.data_ptr x && ltb x (d.data_ptr + c1)
        then some (d.dma_channel, a1 + (x - d.data_ptr))
        else b.user x)
parts-deliver d a1 c1 a2 c2 x b y o w1 w2 =
    let len1 = u32 (round8 c1 + overread d) in
    let len2 = u32 (round8 c2 + overread d) in
    let first = if c1 == 0 then [] else read_to_user d.data_ptr (read_of d a1 len1) 0 c1 in
    let enough1 : c1 ≤ len1 = omega (arith, o, round8-whole c1 w1.1 w1.0, w1.1) in
    let enough2 : c2 ≤ (if ltb len2 8 then 16 else len2) =
      ground (arith, o, round8-whole c2 w2.1 w2.0, w2.1) in
    ap (λ (y : Bytes). y.user x) (deliver-append first _ b)
    ∙ part-deliver d (d.data_ptr + c1) a2 c2 _ x (deliver first b) y enough2
    ∙ ap
        (λ o.
          if leb (d.data_ptr + c1) x && ltb x (d.data_ptr + c1 + c2)
          then some (d.dma_channel, a2 + (x - (d.data_ptr + c1)))
          else o)
        (part-deliver d d.data_ptr a1 c1 len1 x b y enough1)

sub_once : (a N : ℕ) → N ≤ a → a < N + N → a % N ≡ a - N
sub_once a N h k =
    let same : a ≡ a - N + N = omega (arith, h) in
    ap (λ t. t % N) same
    ∙ add-mod_right (a - N) N
    ∙ mod-eq_of_lt {n = a - N} {m = N} (omega (arith, k, h))

module _ (d : DataRead) (n : ℕ) (w : IsWords d n) where
  near : (i : ℕ) → block_place d n + i < 2 ^ suc n → start d + block_place d n + i ≡ ring_byte d i
  near i h = omega (arith, sym (ring_byte_lem d n w i), mod-eq_of_lt h)

  far :
      (i : ℕ)
      → 2 ^ suc n ≤ block_place d n + i
      → i ≤ 2 ^ suc n
      → start d + (i - upper d n) ≡ ring_byte d i
  far i h k =
      let below = mod-lt (d.address * 2) (one-le-pow (suc n) 2 (omega arith)) in
      omega (
        arith,
        sym (ring_byte_lem d n w i),
        sub_once (block_place d n + i) (2 ^ suc n) h (omega (arith, below, k)),
      )

  most : d.count ≤ 2 ^ suc n
  most = omega (arith, w.short, w.whole, w.block, pow-suc 2 n)

-- Two parts that follow each other
both_parts :
    (p x c1 c2 c a2 a1 r k : ℕ) (rest : Option (ℕ × ℕ))
    → c ≡ c1 + c2
    → (p ≤ x → x < p + c1 → a1 ≡ r)
    → (p + c1 ≤ x → x < p + c1 + c2 → a2 ≡ r)
    → (if leb (p + c1) x && ltb x (p + c1 + c2)
        then some (k, a2)
        else if leb p x && ltb x (p + c1)
        then some (k, a1)
        else rest)
      ≡ (if leb p x && ltb x (p + c) then some (k, r) else rest)
both_parts p x c1 c2 c a2 a1 r k rest e f g = ground arith

-- What the plan brings, by the addresses of the code
words-deliver :
    (d : DataRead) (n : ℕ) (b : Bytes) (x : ℕ)
    → IsWords d n
    → IsPlain d
    → (deliver (plan_read d) b).user x ≡ (
        if leb d.data_ptr x && ltb x (d.data_ptr + d.count)
        then some (d.dma_channel, ring_byte d (x - d.data_ptr))
        else b.user x)
words-deliver d n b x w y =
    let i = x - d.data_ptr in
    elim (plan_read-shape d n w) [
      | inl (h, len, enough, e) ↦
          ap (λ p. (deliver p b).user x) e
          ∙ read_to_user-deliver d.data_ptr (read_of d (start d + block_place d n) len) d.count x b
              enough
          ∙ ap (λ o. if leb d.data_ptr x && ltb x (d.data_ptr + d.count) then o else b.user x)
              (brings-read_of d (start d + block_place d n) len (start d + block_place d n + i) y)
          ∙ elim (Bool-cases (leb d.data_ptr x && ltb x (d.data_ptr + d.count))) [
            | inl t ↦ rw t (ap (λ a. some (d.dma_channel, a)) (near d n w i (ground (arith, t, h))))
            | inr t ↦ rw t refl
          ]
      | inr (h, e) ↦
          let u = upper_whole d n w in
          let l = lower_lem d n w h in
          ap (λ p. (deliver p b).user x) e
          ∙ parts-deliver d (start d + block_place d n) (upper d n) (start d) (d.count - upper d n)
              x b y (no_overread d n w) u (l.1, omega (arith, w.in_word))
          ∙ both_parts d.data_ptr x (upper d n) (d.count - upper d n) d.count _ _ _ d.dma_channel
              (b.user x)
              (omega (arith, mod-lt (d.address * 2) (one-le-pow (suc n) 2 (omega arith)), h))
              (λ a c. near d n w i (omega (arith, a, c)))
              (λ a c.
                ap (λ (k : ℕ). start d + k) (omega (arith, a, c))
                ∙ far d n w i (omega (arith, a, c)) (omega (arith, a, c, most d n w)))
    ]

-- The blocks of an input lie one after the other in its share of the memory of 1 GiB at 0x40000000, which
-- 4 or 8 inputs divide.
abbrev pub inputs : DataRead → ℕ
inputs d = if d.mux8_channel_en == 0 then 4 else 8

abbrev pub block_start : DataRead → ℕ
block_start d =
    0x40000000 + d.input * (2 ^ 30 / inputs d) + d.addr_block_nr * (d.addr_block_size * 2)

-- The address of the `i`th byte from the one that is asked for, around the end of the block
abbrev pub block_byte : DataRead → ℕ → ℕ
block_byte d i = block_start d + (d.address * 2 + i) % (d.addr_block_size * 2)

-- A request with stride 1 for whole words of 8 bytes, of a channel that reads from memory, from a block of
-- `2 ^ n` samples within the share of its input, and not for more than the block
pub record IsRequest (d : DataRead) (n : ℕ) : Type 0 where
  pub block : d.addr_block_size ≡ 2 ^ n
  pub large : (10 ≤ n) × (n < 31)
  pub channel : d.dma_channel < 2
  pub each : d.next_address ≡ 1
  pub input : d.input < inputs d
  pub share : d.addr_block_nr * (d.addr_block_size * 2) + d.addr_block_size * 2 ≤ 2 ^ 30 / inputs d
  pub in_word : d.address * 2 + d.count < 2 ^ 32
  pub first : d.address % 4 ≡ 0
  pub whole : d.count % 8 ≡ 0
  pub short : d.count / 2 ≤ d.addr_block_size

module _ (d : DataRead) (n : ℕ) (r : IsRequest d n) where
  block_addr_lem : block_addr d ≡ d.addr_block_nr * (d.addr_block_size * 2)
  block_addr_lem =
      let product : d.addr_block_nr * d.addr_block_size * 2
          ≡ d.addr_block_nr * (d.addr_block_size * 2) =
        grind arith in
      ground (arith, product, r.share)

  input_lem : ch_addr d ≡ d.input * (2 ^ 30 / inputs d)
  unfolding ch_addr
  input_lem = ground (arith, r.input)

  placed : start d ≡ block_start d
  placed = omega (arith, block_addr_lem, input_lem)

  request-IsWords : IsWords d n
  request-IsWords = record {
    block = r.block;
    large = r.large;
    in_memory = ground (arith, block_addr_lem, input_lem, r.input, r.share, r.block, pow-suc 2 n);
    in_word = r.in_word;
    each = r.each;
    first = r.first;
    whole = r.whole;
    short = r.short;
  }

-- For such a request the reads and copies of ioc_dma_read_request_a bring the next bytes of the block,
-- around its end, through the channel asked for, to the `count` bytes at the pointer, and leave the
-- other bytes of user space.
pub plan_read-delivers :
    (d : DataRead) (n : ℕ) (b : Bytes) (x : ℕ)
    → IsRequest d n
    → (deliver (plan_read d) b).user x ≡ (
        if leb d.data_ptr x && ltb x (d.data_ptr + d.count)
        then some (d.dma_channel, block_byte d (x - d.data_ptr))
        else b.user x)
plan_read-delivers d n b x r =
    let same : ring_byte d (x - d.data_ptr) ≡ block_byte d (x - d.data_ptr) =
      ap (λ (s : ℕ). s + (d.address * 2 + (x - d.data_ptr)) % (d.addr_block_size * 2))
        (placed d n r) in
    words-deliver d n b x (request-IsWords d n r) (omega (arith, r.each), r.channel)
    ∙ ap
        (λ a.
          if leb d.data_ptr x && ltb x (d.data_ptr + d.count)
          then some (d.dma_channel, a)
          else b.user x)
        same
