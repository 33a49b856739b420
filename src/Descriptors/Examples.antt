-- ===== src/Descriptors/Examples.antt =====
-- A transfer of 10240 bytes from byte 1024 of a mapping of two ranges, and other concrete values.
use Prim.Native.Nat.{◌∣◌}
use tpce2drv.Prelude.{
  ℕ, ◌≡◌, ◌≢◌, ◌↔◌, ◌<◌, ◌≤◌, ◌+◌, refl, arith, some, none, inl, inr, lt_wf, false, All, [],
}
use tpce2drv.Types.{Descriptor, zero_descriptor, TransferParams, zero_params, from_device}
use tpce2drv.Device.Sample.{sample_mapping, two_ranges}
use tpce2drv.Descriptors.{
  Plan, find_offset, gcd_dma_page_sizes, gcd_sizes, gcd, gcd_loop, create_descriptor_plan,
}
use tpce2drv.Descriptors.Gcd.{gcd_dma_page_sizes-divides}
use tpce2drv.Descriptors.Params.{
  flags, tpce_validate_dma_params, tpce_fill_default_dma_params, tpce_fill_streaming_dma_params,
}
use tpce2drv.Descriptors.Params.Defaults.{
  IsWhole, IsUsable, fill_default-IsUsable, fill_streaming-IsUsable,
}
use tpce2drv.Descriptors.Params.Accepted.{IsAccepted, validate_iff}
use tpce2drv.Descriptors.Fill.Chunks.{step_of, pieces}
use tpce2drv.Descriptors.Fill.Ranges.{IsRange, bytes_in, count_all}
use tpce2drv.Descriptors.Fill.Control.{tpce_generate_descriptors, generated}
use tpce2drv.Descriptors.Fill.Control.Whole.{IsSound}
use tpce2drv.Descriptors.Memory.Generated.{generate-passes}
use tpce2drv.Descriptors.Memory.{tpce_validate_desc_mem}
use tpce2drv.Descriptors.Memory.Check.{IsInside, checked_addr, validate_desc_mem-IsInside}

abbrev sample_params : TransferParams
sample_params = record zero_params {
  map_offset = 1024;
  bytes_total = 10240;
  channel = 2;
  direction = from_device;
  burst_count = 32;
}

abbrev sample_plan : Plan
sample_plan = record {
  gcd_page_sizes = 4096;
  num_descriptors = 2;
  starting_idx = 0;
  starting_offset = 1024;
}

first-IsRange :
    IsRange sample_params (record { dma_address = 0x100000; dma_len = 4096; offset = 0 })
first-IsRange = record { short = omega arith; plain = refl; low = omega arith; even = inl refl }

second-IsRange :
    IsRange sample_params (record { dma_address = 0x240000; dma_len = 8192; offset = 0 })
second-IsRange = record { short = omega arith; plain = refl; low = omega arith; even = inl refl }

start_found : find_offset two_ranges 1024 0 ≡ (0, 1024)
unfolding find_offset
start_found = refl

two_counted : 2 ≡ count_all (step_of sample_params) two_ranges 1024 10240
unfolding count_all pieces
two_counted = refl

enough_bytes : 1024 + 10240 ≤ bytes_in two_ranges
unfolding bytes_in
enough_bytes = omega arith

sample_accepted : tpce_validate_dma_params (some sample_params) (some sample_mapping) ≡ flags 0
sample_accepted = (validate_iff sample_params sample_mapping).1 (record {
  channel = omega arith;
  offset_in = omega arith;
  offset_aligned = refl;
  device_aligned = refl;
  total_aligned = refl;
  total_in = omega arith;
  per_descriptor = λ h. absurd (h refl);
  strides = (omega arith, omega arith);
  mode = inl refl;
  direction = (inl refl, inr refl);
  interval = λ h. absurd (h refl);
  burst = omega arith;
})

sample-IsSound : IsSound sample_params sample_mapping
unfolding bytes_in
sample-IsSound = record {
  short = ((omega arith, refl, omega arith), ((omega arith, refl, omega arith), tt));
  size = refl;
  end = omega arith;
  rounded = omega arith;
  device = omega arith;
  first = inl refl;
  total = inl refl;
}

sample_room : (create_descriptor_plan sample_mapping sample_params).num_descriptors ≤ 3
unfolding find_offset
sample_room = omega arith

generate-passes_example :
    (num : ℕ) × (buf' : ℕ → Descriptor) × (tpce_generate_descriptors
        (some sample_params)
        (some sample_mapping)
        (some (λ _. zero_descriptor))
        3
      ≡ generated num buf')
    × (tpce_validate_desc_mem (some sample_mapping) (some buf') num false ≡ none)
generate-passes_example =
    generate-passes sample_params sample_mapping (λ _. zero_descriptor) 3 sample_accepted
      sample-IsSound ((refl, omega arith), ((refl, omega arith), tt)) sample_room

validate_iff_example :
    (tpce_validate_dma_params (some sample_params) (some sample_mapping) ≡ flags 0)
    ↔ IsAccepted sample_params sample_mapping
validate_iff_example = validate_iff sample_params sample_mapping

abbrev inner_descriptor : Descriptor
inner_descriptor = record zero_descriptor { write_address_low = 0x240100; transfer_length = 512 }

validate_desc_mem-IsInside_example :
    (tpce_validate_desc_mem (some sample_mapping) (some (λ _. inner_descriptor)) 2 false ≡ none)
    ↔ ((j : ℕ) → j < 2 → IsInside two_ranges (checked_addr false inner_descriptor) 512)
validate_desc_mem-IsInside_example =
    validate_desc_mem-IsInside sample_mapping (λ _. inner_descriptor) 2 false

some_ranges : two_ranges ≢ []
some_ranges e = cc

gcd_dma_page_sizes-divides_example :
    (1024 ∣ gcd_dma_page_sizes sample_mapping) ↔ All (λ s. 1024 ∣ s.dma_len) two_ranges
gcd_dma_page_sizes-divides_example = gcd_dma_page_sizes-divides sample_mapping 1024 some_ranges

sample-IsWhole : IsWhole sample_mapping 2
sample-IsWhole = record {
  known = omega arith;
  short = omega arith;
  aligned = refl;
  receives = inr refl;
}

fill_default-IsUsable_example :
    IsUsable sample_mapping (tpce_fill_default_dma_params (some sample_mapping) 2)
fill_default-IsUsable_example = fill_default-IsUsable sample_mapping 2 sample-IsWhole

sample_gcd : gcd_dma_page_sizes sample_mapping ≡ 4096
unfolding gcd_dma_page_sizes gcd_sizes gcd gcd_loop lt_wf
sample_gcd = refl

fill_streaming-IsUsable_example :
    IsUsable sample_mapping (tpce_fill_streaming_dma_params (some sample_mapping) 2)
fill_streaming-IsUsable_example =
    fill_streaming-IsUsable sample_mapping 2 sample-IsWhole (rw sample_gcd refl) refl
