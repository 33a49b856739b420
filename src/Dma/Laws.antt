-- ===== src/Dma/Laws.antt =====
-- Stopping a channel, and the list that the controller walks through.
use tpce2drv.Prelude.{
  ℕ, zero, suc, ◌+◌, ◌-◌, ◌*◌, ◌/◌, ◌^◌, ◌≤◌, ◌<◌, ◌==◌, if◌then◌else◌, ◌≡◌, refl, arith, true,
  false, Bool-cases, inl, inr, ap, ap₂, ◌∙◌, sym, u32, update, ==_iff, bit_and, bit_or,
}
use tpce2drv.Types.{Descriptor, zero_descriptor, mode_stream}
use tpce2drv.Device.{DmaInfo}
use tpce2drv.Prelude.Bits.Masks.{bit_and-low}
use tpce2drv.Dma.Translate.{write_address}
use tpce2drv.Dma.{link_all, build_descriptor_links, link}

link_all-before : (n i next j : ℕ) (buf : ℕ → Descriptor) → j < i → link_all n i next buf j ≡ buf j
unfolding link_all
link_all-before zero i next j buf h = refl
link_all-before (suc n) i next j buf h =
    link_all-before n (i + 1) (u32 (next + 64)) j (update buf i (link (buf i) next)) (omega arith)
    ∙ ground arith

-- Each of the first `n` descriptors points to the next one.
link_all-next :
    (n i next j : ℕ) (buf : ℕ → Descriptor)
    → i ≤ j
    → j < i + n
    → next + 64 * n < 2 ^ 32
    → link_all n i next buf j ≡ link (buf j) (next + 64 * (j - i))
unfolding link_all
link_all-next zero i next j buf h k w = absurd (omega arith)
link_all-next (suc n) i next j buf h k w =
    let buf1 = update buf i (link (buf i) next) in
    let step : u32 (next + 64) ≡ next + 64 = omega arith in
    elim (Bool-cases (j == i)) [
      | inl e ↦
          let same : j ≡ i = (==_iff j i).0 e in
          let here : next ≡ next + 64 * (j - i) = omega arith in
          link_all-before n (i + 1) (u32 (next + 64)) j buf1 (omega arith)
          ∙ rw e (rw (← here) (ap (λ x. link (buf x) next) (sym same)))
      | inr e ↦
          let rest : next + 64 + 64 * (j - (i + 1)) ≡ next + 64 * (j - i) = ground arith in
          rw step (
            link_all-next n (i + 1) (next + 64) j buf1 (ground arith) (omega arith) (omega arith)
            ∙ rw e (ap (link (buf j)) rest))
    ]

link_all-after :
    (n i next j : ℕ) (buf : ℕ → Descriptor) → i + n ≤ j → link_all n i next buf j ≡ buf j
unfolding link_all
link_all-after zero i next j buf h = refl
link_all-after (suc n) i next j buf h =
    link_all-after n (i + 1) (u32 (next + 64)) j (update buf i (link (buf i) next)) (omega arith)
    ∙ ground arith

-- The chain by the writes of the loop
build_links-link :
    (info : DmaInfo) (buf : ℕ → Descriptor)
    → 0 < info.desc_size / 64
    → info.desc_bus_addr_translated + info.desc_size < 2 ^ 32
    → let n = info.desc_size / 64 in
      let linked = build_descriptor_links info buf in
      ((j : ℕ) → suc j < n → linked j ≡ link (buf j) (info.desc_bus_addr_translated + 64 * suc j))
      × (linked (n - 1) ≡ (
          if info.params.transfer_mode == mode_stream
          then link (buf (n - 1)) info.desc_bus_addr_translated
          else zero_descriptor))
unfolding build_descriptor_links
build_links-link info buf h w = (
  λ j lt.
      let inner : (j == info.desc_size / 64 - 1) ≡ false = ground arith in
      let start : u32 (info.desc_bus_addr_translated + 64) ≡ info.desc_bus_addr_translated + 64 =
        omega arith in
      let sum : info.desc_bus_addr_translated + 64 + 64 * (j - 0)
          ≡ info.desc_bus_addr_translated + 64 * suc j =
        omega arith in
      let next =
        link_all-next (info.desc_size / 64 - 1) 0 (info.desc_bus_addr_translated + 64) j buf
          (omega arith) (omega arith) (omega arith)
        ∙ ap (link (buf j)) sum in
      elim (Bool-cases (info.params.transfer_mode == mode_stream)) [
        | inl e ↦ rw (e, inner, start) next
        | inr e ↦ rw (e, inner, start) next
      ],
  (let last = info.desc_size / 64 - 1 in
      let same : (last == last) ≡ true = ground arith in
      let untouched =
        link_all-after last 0 (u32 (info.desc_bus_addr_translated + 64)) last buf (omega arith) in
      elim (Bool-cases (info.params.transfer_mode == mode_stream)) [
        | inl e ↦ rw (e, same) (ap (λ d. link d info.desc_bus_addr_translated) untouched)
        | inr e ↦ rw (e, same) refl
      ]),
)

-- A descriptor that names the next one by its whole address and is handed to the hardware by bit 30 of
-- its control word; all else in it is as before.
abbrev pub handed_over : Descriptor → ℕ → Descriptor
handed_over d a = record d {
  next_desc_ptr_low = a;
  next_desc_ptr_high = 0;
  control = bit_or d.control (2 ^ 30);
}

link-handed_over : (d : Descriptor) (a : ℕ) → a < 2 ^ 32 → link d a ≡ handed_over d a
unfolding link
link-handed_over d a h =
    let low : bit_and a (2 ^ 32 - 1) ≡ a = omega (arith, bit_and-low 32 a) in
    let high : u32 (a / 2 ^ 32) ≡ 0 = omega arith in
    ap₂
      (λ (l u : ℕ). record d {
        next_desc_ptr_low = l;
        next_desc_ptr_high = u;
        control = bit_or d.control (2 ^ 30);
      })
      low high

-- A list of `n` descriptors at a translated address forms a chain: each names the one after it in both
-- words and is handed to the hardware, and nothing else in it changes. The last one names the first in
-- a stream, and is cleared, so that the controller stops there, in another transfer.
pub build_links-chain :
    (info : DmaInfo) (buf : ℕ → Descriptor)
    → 0 < info.desc_size / 64
    → info.desc_bus_addr_translated + info.desc_size < 2 ^ 32
    → let n = info.desc_size / 64 in
      let linked = build_descriptor_links info buf in
      ((j : ℕ)
        → suc j < n
        → linked j ≡ handed_over (buf j) (info.desc_bus_addr_translated + 64 * suc j))
      × (linked (n - 1) ≡ (
          if info.params.transfer_mode == mode_stream
          then handed_over (buf (n - 1)) info.desc_bus_addr_translated
          else zero_descriptor))
build_links-chain info buf h w =
    let l = build_links-link info buf h w in
    let a = info.desc_bus_addr_translated in
    let last = buf (info.desc_size / 64 - 1) in
    (
      λ j lt. l.0 j lt ∙ link-handed_over (buf j) (a + 64 * suc j) (omega (arith, lt, w)),
      l.1
          ∙ ap (λ d. if info.params.transfer_mode == mode_stream then d else zero_descriptor)
              (link-handed_over last a (omega (arith, w))),
    )

-- The loop leaves the addresses of the data alone.
link_all-address :
    (n i next j : ℕ) (buf : ℕ → Descriptor)
    → write_address (link_all n i next buf j) ≡ write_address (buf j)
unfolding link_all link
link_all-address zero i next j buf = refl
link_all-address (suc n) i next j buf =
    link_all-address n (i + 1) (u32 (next + 64)) j (update buf i (link (buf i) next)) ∙ kept
  where
    kept : write_address (update buf i (link (buf i) next) j) ≡ write_address (buf j)
    kept = elim (Bool-cases (j == i)) [
      | inl e ↦ rw e (ap (λ (x : ℕ). write_address (buf x)) (sym ((==_iff j i).0 e)))
      | inr e ↦ rw e refl
    ]

-- So does `build_descriptor_links` in all descriptors but the last.
pub build_links-address :
    (info : DmaInfo) (buf : ℕ → Descriptor) (j : ℕ)
    → suc j < info.desc_size / 64
    → write_address (build_descriptor_links info buf j) ≡ write_address (buf j)
unfolding build_descriptor_links
build_links-address info buf j lt =
    let inner : (j == info.desc_size / 64 - 1) ≡ false = ground arith in
    let kept =
      link_all-address (info.desc_size / 64 - 1) 0 (u32 (info.desc_bus_addr_translated + 64)) j
        buf in
    elim (Bool-cases (info.params.transfer_mode == mode_stream)) [
      | inl e ↦ rw (e, inner) kept
      | inr e ↦ rw (e, inner) kept
    ]
