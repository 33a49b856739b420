-- ===== src/Request/Legacy/Plans.antt =====
-- linux/request.c: the reads and copies of `ioc_dma_read_request_a` for whole words.
use native.Mathlib.Nat.{mod-lt, mod-eq_of_lt, mod-add-div'}
use tpce2drv.Prelude.{
  ℕ, suc, ◌+◌, ◌-◌, ◌*◌, ◌/◌, ◌%◌, ◌^◌, ◌≤◌, ◌<◌, ◌==◌, ltb, if◌then◌else◌, Bool, true, false, ◌≡◌,
  ◌⊎◌, refl, arith, List, Bool-cases, inl, inr, ◌∙◌, ap, bit_and, u32, sub32,
}
use tpce2drv.Request.Legacy.{
  Step, read_to_user, DataRead, block_mask, round8, ch_addr, block_addr, stride, overread, read_of,
  plan_straight, read_parts, plan_split, plan_read,
}
use tpce2drv.Request.Legacy.Ring.{
  IsWords, start, block_place, upper, round8-whole, size, low, high, one, rolls, start_whole,
  first_in_block, no_overread,
}

module _ (d : DataRead) (n : ℕ) (w : IsWords d n) where
  masked : bit_and (u32 (d.address * 2)) (2 ^ 32 - 1 - block_mask d) ≡ block_place d n
  masked =
      let here : u32 (d.address * 2) ≡ d.address * 2 = omega (arith, w.in_word) in
      low d n w (u32 (d.address * 2)) ∙ ap (λ (y : ℕ). y % 2 ^ suc n) here

  first_addr :
      round8 (u32 (0x40000000 + block_place d n + block_addr d + ch_addr d))
      ≡ start d + block_place d n
  first_addr =
      let below = mod-lt (d.address * 2) (size d n w).least in
      let here : u32 (0x40000000 + block_place d n + block_addr d + ch_addr d)
          ≡ start d + block_place d n =
        omega (arith, below, w.in_memory) in
      ap round8 here
      ∙ round8-whole (start d + block_place d n) (omega (arith, below, w.in_memory))
          (omega (arith, start_whole d n w, first_in_block d n w))

  count_whole : round8 d.count ≡ d.count
  count_whole = round8-whole d.count (omega (arith, w.in_word)) w.whole

  -- One read and one copy
  straight_lem :
      (len : ℕ) × (d.count ≤ len)
      × (plan_straight d
          ≡ read_to_user d.data_ptr (read_of d (start d + block_place d n) len) 0 d.count)
  unfolding plan_straight
  straight_lem =
      let over = overread d in
      let over1 = if ltb (u32 (round8 d.count + over)) d.count then over + 8 else over in
      let len = if ltb d.count 8 then 16 else u32 (round8 d.count + over1) in
      let addr =
        ap (λ m. round8 (u32 (0x40000000 + m + block_addr d + ch_addr d))) masked ∙ first_addr in
      let enough : d.count ≤ len = ground (arith, no_overread d n w, count_whole, w.in_word) in
      let offset : d.address % 4 * 2 ≡ 0 = omega (arith, w.first) in
      (
        len,
        enough,
        ap (λ a. read_to_user d.data_ptr (read_of d a len) (d.address % 4 * 2) d.count) addr
            ∙ ap
                (λ o. read_to_user d.data_ptr (read_of d (start d + block_place d n) len) o d.count)
                offset,
      )

  room_lem : sub32 (u32 (0 + d.addr_block_size * 2)) (block_place d n) ≡ upper d n
  room_lem =
      let below = mod-lt (d.address * 2) (size d n w).least in
      omega (arith, below, w.block, (size d n w).double, w.in_memory)

  pub upper_whole : (upper d n % 8 ≡ 0) × (upper d n < 2 ^ 32)
  upper_whole =
      let below = mod-lt (d.address * 2) (size d n w).least in
      (omega (arith, below, (size d n w).whole, first_in_block d n w), omega (arith, w.in_memory))

  block_start_lem : bit_and (block_place d n) (block_mask d) ≡ 0
  block_start_lem =
      let below = mod-lt (d.address * 2) (size d n w).least in
      let p = d.address * 2 % 2 ^ suc n in
      high d n w p (omega (arith, below, w.in_memory))
      ∙ omega (arith, mod-add-div' p (2 ^ suc n), mod-eq_of_lt below)

  abbrev counted : Bool → ℕ → ℕ × ℕ
  counted single room =
      let whole = room / stride d in
      let rest = room % stride d in
      if single
      then (room, 0)
      else if rest == 0
      then (whole, 0)
      else (u32 (bit_and whole 0xFFFFFFFE + 2), rest)

  -- The plan by the offset in the block, the start of the block, and whether the stride is 1
  abbrev plan_by : ℕ → ℕ → Bool → List Step
  plan_by m s single =
      let dev_addr = u32 (0x40000000 + m + block_addr d + ch_addr d) in
      let room = sub32 (u32 (s + d.addr_block_size * 2)) m in
      let (lcount, offset) = counted single room in
      read_parts d (if single then round8 dev_addr else bit_and dev_addr 0xFFFFFFFE) lcount offset
        (u32 (0x40000000 + s + block_addr d + offset + ch_addr d)) (sub32 d.count lcount)

  split_by :
      plan_split d
      ≡ plan_by
          (bit_and (u32 (d.address * 2)) (2 ^ 32 - 1 - block_mask d))
          (bit_and (bit_and (u32 (d.address * 2)) (2 ^ 32 - 1 - block_mask d)) (block_mask d))
          (stride d == 1)
  unfolding plan_split
  split_by = refl

  second_addr : u32 (0x40000000 + 0 + block_addr d + 0 + ch_addr d) ≡ start d
  second_addr = omega (arith, w.in_memory, (size d n w).least)

  -- What is left after the end of the block
  pub lower_lem :
      2 ^ suc n ≤ block_place d n + d.count
      → (sub32 d.count (upper d n) ≡ d.count - upper d n) × ((d.count - upper d n) % 8 ≡ 0)
  lower_lem h =
      let u = upper_whole in (omega (arith, h, u.1, w.in_word), omega (arith, h, u.0, w.whole))

  split_parts :
      2 ^ suc n ≤ block_place d n + d.count
      → plan_split d
        ≡ read_parts d (start d + block_place d n) (upper d n) 0 (start d) (d.count - upper d n)
  split_parts h =
      let test : (stride d == 1) ≡ true = ground (arith, one d n w) in
      let m = bit_and (u32 (d.address * 2)) (2 ^ 32 - 1 - block_mask d) in
      split_by
      ∙ ap (λ b. plan_by m (bit_and m (block_mask d)) b) test
      ∙ ap (λ k. plan_by k (bit_and k (block_mask d)) true) masked
      ∙ ap (λ s. plan_by (block_place d n) s true) block_start_lem
      ∙ ap
          (λ a.
            read_parts d a (sub32 (u32 (0 + d.addr_block_size * 2)) (block_place d n)) 0
              (u32 (0x40000000 + 0 + block_addr d + 0 + ch_addr d))
              (sub32 d.count (sub32 (u32 (0 + d.addr_block_size * 2)) (block_place d n))))
          first_addr
      ∙ ap
          (λ r.
            read_parts d (start d + block_place d n) r 0
              (u32 (0x40000000 + 0 + block_addr d + 0 + ch_addr d)) (sub32 d.count r))
          room_lem
      ∙ ap
          (λ a.
            read_parts d (start d + block_place d n) (upper d n) 0 a (sub32 d.count (upper d n)))
          second_addr
      ∙ ap (λ c. read_parts d (start d + block_place d n) (upper d n) 0 (start d) c) (lower_lem h).0

  -- The plan is one read and one copy, or two of each.
  pub plan_read-shape :
      ((block_place d n + d.count < 2 ^ suc n)
        × (len : ℕ) × (d.count ≤ len)
        × (plan_read d
            ≡ read_to_user d.data_ptr (read_of d (start d + block_place d n) len) 0 d.count))
      ⊎ ((2 ^ suc n ≤ block_place d n + d.count)
          × (plan_read d
              ≡ read_parts d
                  (start d + block_place d n)
                  (upper d n)
                  0
                  (start d)
                  (d.count - upper d n)))
  unfolding plan_read
  plan_read-shape =
      let short : ltb d.addr_block_size (d.count / 2) ≡ false = ground (arith, w.short) in
      elim (Bool-cases (ltb (block_place d n + d.count) (2 ^ suc n))) [
        | inl e ↦
            let (len, enough, same) = straight_lem in
            inl (ground (arith, e), len, enough, rw (rolls d n w, e) same)
        | inr e ↦
            inr (ground (arith, e), rw (rolls d n w, e, short) (split_parts (ground (arith, e))))
      ]
