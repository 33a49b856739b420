-- ===== src/Interrupts/Examples.antt =====
-- An interrupt of a stream and one of a single transfer at once, and a stream's position.
use tpce2drv.Prelude.{ℕ, ◌≡◌, ◌+◌, ◌*◌, ◌/◌, ◌%◌, ◌^◌, refl, arith, max, some, u32, u64}
use tpce2drv.Prelude.Bits.{bit}
use tpce2drv.Types.{zero_params}
use tpce2drv.Device.{Tpce, DmaInfo, complete, StreamState, idle_info, no_stream}
use tpce2drv.Device.Sample.{sample_device, running_device}
use tpce2drv.Interrupts.Completion.{serve, serve-complete}
use tpce2drv.Interrupts.{tpce_isr}
use tpce2drv.Interrupts.Laws.{isr-keeps}
use tpce2drv.Interrupts.Stream.{handle_stream}
use tpce2drv.Interrupts.Stream.Count.{IsDistance, handle_stream-advance}

isr-keeps_example :
    bit (tpce_isr sample_device 0x401 (λ _. 0)).0.irqsrc 0 ≡ max (bit 0 0) (bit 0x401 0)
unfolding bit
isr-keeps_example = isr-keeps sample_device 0x401 (λ _. 0) 0 (omega arith) (omega arith) refl

abbrev counted : StreamState
counted = record { produced = 5000; consumed = 0 }

-- Twelve descriptors of 1000 bytes, the next of which is number 10.
abbrev twelve : DmaInfo
twelve = record idle_info {
  params = record zero_params { bytes_per_descriptor = 1000 };
  desc_size = 768;
  stream_info = record no_stream { state = some counted; write_seq_num = 10; state_refs = 1 };
}

handle_stream-advance_example :
    let after = handle_stream twelve counted 0x30000 in
    (k : ℕ) × IsDistance 10 (0x30000 / 2 ^ 16 % (768 / 64)) (768 / 64) k
    × (after.write_seq_num ≡ 0x30000 / 2 ^ 16 % (768 / 64))
    × (after.irq_cnt ≡ u64 (0 + 1))
    × (after.state ≡ some (record counted { produced = u64 (5000 + u32 (1000 * k)) }))
handle_stream-advance_example = handle_stream-advance twelve counted 0x30000 refl (omega arith)

-- Channel 2 runs a single transfer.
abbrev single : Tpce
single = record running_device { fast_irq_mask = 0 }

serve-complete_example : ((serve single 0x400 (λ _. 0) 0).dma_info 2).state ≡ complete
unfolding bit
serve-complete_example =
    serve-complete single 0x400 (λ _. 0) 0 2 (omega arith) (omega arith) refl refl refl
      (λ e. absurd (omega arith))
