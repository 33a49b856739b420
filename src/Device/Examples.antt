-- ===== src/Device/Examples.antt =====
-- The number of the third channel, a mapping in use, and one with a number that is no channel.
use tpce2drv.Prelude.{◌≡◌, ◌+◌, ◌*◌, refl, pos, true}
use tpce2drv.Device.{tpce_dma_ch, mapping_is_busy}
use tpce2drv.Device.Sample.{sample_mapping}

third_channel : tpce_dma_ch 0xffff8000 (0xffff8000 + 2 * 448) 448 ≡ pos 2
unfolding tpce_dma_ch
third_channel = refl

busy_channel : mapping_is_busy (record sample_mapping { active_channel = pos 2 }) ≡ true
unfolding mapping_is_busy
busy_channel = refl

no_channel : mapping_is_busy (record sample_mapping { active_channel = pos 3 }) ≡ true
unfolding mapping_is_busy
no_channel = refl
