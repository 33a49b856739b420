-- ===== src/Dma/Examples.antt =====
-- A list of three descriptors, and the abort of a channel that runs and of one that never ran.
use tpce2drv.Prelude.{refl, negsuc, bit_or}
use tpce2drv.Prelude.{ℕ, ◌≡◌, ◌≢◌, ◌+◌, ◌-◌, ◌*◌, ◌/◌, ◌<◌, ◌==◌, suc, if◌then◌else◌, arith, false}
use tpce2drv.Types.{zero_descriptor, mode_stream}
use tpce2drv.Device.{DmaInfo, idle_info}
use tpce2drv.Device.Sample.{running_device}
use tpce2drv.Dma.{build_descriptor_links, tpce_dma_stream_start}
use tpce2drv.Dma.Fast.{stream_start-mask}
use tpce2drv.Dma.Laws.{handed_over, build_links-chain}
use tpce2drv.Dma.Stop.{Polls, tpce_dma_abort}
use tpce2drv.Dma.Stop.Laws.{abort-effect, aborted, reset_writes}

abbrev three_descriptors : DmaInfo
three_descriptors = record idle_info { desc_size = 192; desc_bus_addr_translated = 0x40100 }

build_links-chain_example :
    let linked = build_descriptor_links three_descriptors (λ _. zero_descriptor) in
    ((j : ℕ) → suc j < 192 / 64 → linked j ≡ handed_over zero_descriptor (0x40100 + 64 * suc j))
    × (linked (192 / 64 - 1)
        ≡ (if 0 == mode_stream then handed_over zero_descriptor 0x40100 else zero_descriptor))
build_links-chain_example =
    build_links-chain three_descriptors (λ _. zero_descriptor) (omega arith) (omega arith)

abbrev in_time : Polls
in_time = record { prefetcher_timeout = false; csr_state = 0; stop_timeout = false }

-- Channel 1 has had no request.
abort-effect_example :
    let t' = tpce_dma_abort running_device 1 in_time in
    ((t'.dma_info 1).state ≡ aborted (running_device.dma_info 1).state)
    × (t'.bar2_writes ≡ reset_writes 0 false running_device.bar2_writes)
    × ((j : ℕ) → j ≢ 1 → t'.dma_info j ≡ running_device.dma_info j)
    × (t'.dma_mappings ≡ running_device.dma_mappings)
    × (t'.page_table ≡ running_device.page_table)
abort-effect_example = abort-effect running_device 1 in_time

stream_start-mask_example :
    (tpce_dma_stream_start running_device 0 (negsuc 0)).0.fast_irq_mask ≡ bit_or 0x400 1
stream_start-mask_example = stream_start-mask running_device 0 1 (negsuc 0) refl
