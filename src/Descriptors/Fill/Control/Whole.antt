-- ===== src/Descriptors/Fill/Control/Whole.antt =====
-- `tpce_generate_descriptors` as a whole: from accepted parameters to the descriptors.
use Prim.Native.Nat.{◌∣◌}
use native.Mathlib.Decide.{ℕ_discrete}
use native.Mathlib.Nat.{dvd_iff_mod-eq-zero}
use tpce2drv.Prelude.{
  if◌then◌else◌, ℕ, ◌+◌, ◌^◌, ◌≤◌, ◌<◌, ◌==◌, ltb, ◌≡◌, ◌≢◌, refl, arith, List, [], ◌∷◌, All, some,
  u16, Bool-cases, inl, inr, ◌⊎◌, ◌∙◌, ap, sym, subst, false, ==_iff,
}
use tpce2drv.Types.{
  Descriptor, TransferParams, SgEntry, MapInfo, channel_info, mode_default, mode_stream,
}
use tpce2drv.Descriptors.{Plan, create_descriptor_plan}
use tpce2drv.Descriptors.Gcd.{gcd_dma_page_sizes-divides}
use tpce2drv.Descriptors.Span.{IsTransfer}
use tpce2drv.Descriptors.Params.{flags, tpce_validate_dma_params}
use tpce2drv.Descriptors.Params.Accepted.{IsAccepted, validate_iff}
use tpce2drv.Descriptors.Fill.{fill_addresses}
use tpce2drv.Descriptors.Fill.Fields.{port, held}
use tpce2drv.Descriptors.Fill.Chunks.{step_of, IsAligned}
use tpce2drv.Descriptors.Fill.Ranges.{bytes_in, IsRange}
use tpce2drv.Descriptors.Fill.Addresses.{fill_addresses-IsTransfer}
use tpce2drv.Descriptors.Fill.Count.{IsPlan, create_descriptor_plan-IsPlan}
use tpce2drv.Descriptors.Fill.Untouched.{fill_addresses-control}
use tpce2drv.Descriptors.Fill.Control.{
  fill_control_flags, other_fields, fill_other_fields, generated, fill_all, generate, clear,
  tpce_generate_descriptors,
}
use tpce2drv.Descriptors.Fill.Control.Marks.{
  for_each_lem, raises, ends_early, control_word, fill_control_flags-control,
}
use tpce2drv.Descriptors.Fill.Control.Described.{
  describe-other_fields, describe-control_flags, held-describe, Entry-cases,
}

-- What the check of the parameters leaves open: the table holds the bytes of the mapping in ranges
-- without a further offset that end below 2 ^ 64, neither the end of the transfer nor a rounded size wraps around, and with a
-- fixed size of the descriptors the transfer starts and ends on a multiple of it.
pub record IsSound (p : TransferParams) (m : MapInfo) : Type 0 where
  pub short :
      All (λ s. (s.dma_len < 2 ^ 32) × (s.offset ≡ 0) × (s.dma_address + s.dma_len < 2 ^ 64)) m.sgt
  pub size : bytes_in m.sgt ≡ m.size
  pub end : p.map_offset + p.bytes_total < 2 ^ 32
  pub rounded : p.bytes_total + (channel_info p.channel).max_transfer ≤ 2 ^ 32
  pub device : p.device_addr < 2 ^ 32
  pub first : IsAligned p p.map_offset
  pub total : IsAligned p p.bytes_total

-- The descriptors move the bytes of the transfer; the flags and the other fields are those of the
-- parameters.
pub record IsGenerated (p : TransferParams) (m : MapInfo) (num : ℕ) (buf : ℕ → Descriptor)
    : Type 0 where
  pub moved :
      IsTransfer m.sgt
        (step_of p)
        (port p)
        p.map_offset
        p.device_addr
        p.bytes_total
        (held p buf 0 num)
  pub marked :
      (j : ℕ) → j < num → (buf j).control ≡ control_word (raises p num j) (ends_early p num j)
  pub numbered : (j : ℕ) → j < num → (buf j).sequence_number ≡ u16 j
  pub strides :
      (j : ℕ)
      → j < num
      → ((buf j).read_stride ≡ p.read_stride) × ((buf j).write_stride ≡ p.write_stride)
  pub bursts :
      (j : ℕ)
      → j < num
      → ((buf j).read_burst_count
          ≡ (if (channel_info p.channel).has_stream_read then 0 else p.burst_count))
        × ((buf j).write_burst_count
            ≡ (if (channel_info p.channel).has_stream_write then 0 else p.burst_count))

ranges_of :
    (p : TransferParams) (ss : List SgEntry)
    → All (λ s. (s.dma_len < 2 ^ 32) × (s.offset ≡ 0) × (s.dma_address + s.dma_len < 2 ^ 64)) ss
    → (p.bytes_per_descriptor ≢ 0 → All (λ s. p.bytes_per_descriptor ∣ s.dma_len) ss)
    → All (IsRange p) ss
ranges_of p [] w d = tt
ranges_of p (s ∷ ss) w d = elim (ℕ_discrete p.bytes_per_descriptor 0) [
  | yes e ↦ (
    record { short = w.0.0; plain = w.0.1; low = w.0.2; even = inl e },
    ranges_of p ss w.1 (λ n. absurd (n e)),
  )
  | no n ↦ (
    record {
      short = w.0.0;
      plain = w.0.1;
      low = w.0.2;
      even = inr ((dvd_iff_mod-eq-zero _).0 (d n).0);
    },
    ranges_of p ss w.1 (λ n. (d n).1),
  )
]

ranges : (p : TransferParams) (m : MapInfo) → IsAccepted p m → IsSound p m → All (IsRange p) m.sgt
ranges p m a s = ranges_of p m.sgt s.short λ n. elim (Entry-cases m.sgt) [
  | inl e ↦ subst (All (λ s. p.bytes_per_descriptor ∣ s.dma_len)) (sym e) tt
  | inr ne ↦
      (gcd_dma_page_sizes-divides m p.bytes_per_descriptor ne).0
        ((dvd_iff_mod-eq-zero _).1 (a.per_descriptor n).2)
]

fits :
    {p : TransferParams} {m : MapInfo}
    → IsAccepted p m
    → IsSound p m
    → p.map_offset + p.bytes_total ≤ bytes_in m.sgt
fits a s = omega (arith, a.total_in, s.end, s.size)

other_fields_lem :
    (p : TransferParams) (buf : ℕ → Descriptor) (num j : ℕ)
    → j < num
    → fill_other_fields p buf num j ≡ other_fields p j (buf j)
unfolding fill_other_fields
other_fields_lem p buf num j lt = for_each_lem num 0 (other_fields p) buf j ∙ ground arith

cleared : (num : ℕ) (buf : ℕ → Descriptor) (j : ℕ) → j < num → (clear num buf j).control ≡ 0
cleared num buf j lt = ground arith

fill_all_lem :
    (p : TransferParams) (m : MapInfo) (buf filled : ℕ → Descriptor) (capacity : ℕ) (plan : Plan)
    → fill_addresses p m capacity (clear plan.num_descriptors buf) plan ≡ some filled
    → fill_all p m buf capacity plan
      ≡ generated plan.num_descriptors (
          fill_other_fields p
            (fill_control_flags p filled plan.num_descriptors)
            plan.num_descriptors)
unfolding fill_all
fill_all_lem p m buf filled capacity plan e = rw (e, fill_all) refl

-- Nothing to do for a plan without descriptors, which has no bytes either
without_descriptors :
    (p : TransferParams) (m : MapInfo) (num : ℕ) (buf buf' : ℕ → Descriptor)
    → num ≡ 0
    → IsGenerated p m num buf'
    → IsGenerated p m num buf
without_descriptors p m num buf buf' e g = record {
  moved = rw e (rw e at g.moved);
  marked = λ j lt. absurd (omega arith);
  numbered = λ j lt. absurd (omega arith);
  strides = λ j lt. absurd (omega arith);
  bursts = λ j lt. absurd (omega arith);
}

-- The passes after the first
passes-IsGenerated :
    (p : TransferParams) (m : MapInfo) (filled : ℕ → Descriptor) (num : ℕ)
    → (p.transfer_mode ≡ mode_default) ⊎ (p.transfer_mode ≡ mode_stream)
    → IsTransfer m.sgt
        (step_of p)
        (port p)
        p.map_offset
        p.device_addr
        p.bytes_total
        (held p filled 0 num)
    → ((j : ℕ) → j < num → (filled j).control ≡ 0)
    → IsGenerated p m num (fill_other_fields p (fill_control_flags p filled num) num)
unfolding other_fields
passes-IsGenerated p m filled num mode moved blank =
    let flagged = fill_control_flags p filled num in
    let done = fill_other_fields p flagged num in
    record {
      moved =
          rw
            (held-describe p done filled 0 num
              λ j. describe-other_fields p flagged num j ∙ describe-control_flags p filled num j)
            moved;
      marked = λ j lt.
          ap (λ (d : Descriptor). d.control) (other_fields_lem p flagged num j lt)
          ∙ fill_control_flags-control p filled num j mode lt (blank j lt);
      numbered =
          λ j lt. ap (λ (d : Descriptor). d.sequence_number) (other_fields_lem p flagged num j lt);
      strides = λ j lt. (
        ap (λ (d : Descriptor). d.read_stride) (other_fields_lem p flagged num j lt),
        ap (λ (d : Descriptor). d.write_stride) (other_fields_lem p flagged num j lt),
      );
      bursts = λ j lt. (
        ap (λ (d : Descriptor). d.read_burst_count) (other_fields_lem p flagged num j lt),
        ap (λ (d : Descriptor). d.write_burst_count) (other_fields_lem p flagged num j lt),
      );
    }

-- The three passes for a plan that starts and counts right
fill_all-IsGenerated :
    (p : TransferParams) (m : MapInfo) (buf : ℕ → Descriptor) (capacity : ℕ) (plan : Plan)
    → IsAccepted p m
    → IsSound p m
    → IsPlan p m.sgt plan
    → plan.num_descriptors ≤ capacity
    → (buf' : ℕ → Descriptor) × (fill_all p m buf capacity plan
        ≡ generated plan.num_descriptors buf')
      × IsGenerated p m plan.num_descriptors buf'
fill_all-IsGenerated p m buf capacity plan a s k room =
    let num = plan.num_descriptors in
    let (filled, e, moved) =
      fill_addresses-IsTransfer p m capacity (clear num buf) plan (ranges p m a s) s.first s.total
        (omega (arith, s.end)) s.device (fits a s) k.start k.count room in
    (
      fill_other_fields p (fill_control_flags p filled num) num,
      fill_all_lem p m buf filled capacity plan e,
      passes-IsGenerated p m filled num a.mode moved λ j lt.
          fill_addresses-control p m capacity (clear num buf) filled plan j e
          ∙ cleared num buf j lt,
    )

pub generate-IsGenerated :
    (p : TransferParams) (m : MapInfo) (buf : ℕ → Descriptor) (max_descriptors : ℕ)
    → tpce_validate_dma_params (some p) (some m) ≡ flags 0
    → IsSound p m
    → (create_descriptor_plan m p).num_descriptors ≤ max_descriptors
    → (buf' : ℕ → Descriptor) × (tpce_generate_descriptors
          (some p)
          (some m)
          (some buf)
          max_descriptors
        ≡ generated (create_descriptor_plan m p).num_descriptors buf')
      × IsGenerated p m (create_descriptor_plan m p).num_descriptors buf'
unfolding generate
generate-IsGenerated p m buf max_descriptors ok s room =
    let a = (validate_iff p m).0 ok in
    let plan = create_descriptor_plan m p in
    let k =
      create_descriptor_plan-IsPlan p m (ranges p m a s) s.first s.total (fits a s) s.rounded in
    let g = fill_all-IsGenerated p m buf max_descriptors plan a s k room in
    let enough : ltb max_descriptors plan.num_descriptors ≡ false = ground arith in
    elim (Bool-cases (plan.num_descriptors == 0)) [
      | inl e ↦ (
        buf,
        rw (enough, e) (ap (λ n. generated n buf) (sym ((==_iff _ 0).0 e))),
        without_descriptors p m plan.num_descriptors buf g.0 ((==_iff _ 0).0 e) g.2,
      )
      | inr e ↦ (g.0, rw (enough, e) g.1, g.2)
    ]
