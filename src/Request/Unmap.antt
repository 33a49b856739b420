-- ===== src/Request/Unmap.antt =====
-- linux/request.c: the release of a mapping that a channel uses.
use tpce2drv.Prelude.{ℕ, ◌<◌, ◌≡◌, arith, true, none, pos, pos_part, ◌∙◌, ap}
use tpce2drv.Types.{MapInfo}
use tpce2drv.Device.{Tpce, idle, mapping_is_busy}
use tpce2drv.Dma.Stop.{Polls, tpce_dma_abort}
use tpce2drv.Request.{tpce_safe_dma_unmap}
use tpce2drv.Device.Channel.{is_busy-pos}
use tpce2drv.Request.Laws.{reset-idle}

-- A mapping that a channel uses is gone after `tpce_safe_dma_unmap`, and the channel is free.
pub safe_unmap-idle :
    (t : Tpce) (id ch : ℕ) (m : MapInfo) (polls : Polls)
    → m.active_channel ≡ pos ch
    → ch < 3
    → let t' = tpce_safe_dma_unmap t id m polls in
      ((t'.dma_info ch).state ≡ idle) × (t'.dma_mappings id ≡ none)
unfolding tpce_safe_dma_unmap
safe_unmap-idle t id ch m polls e h =
    let busy : mapping_is_busy m ≡ true = is_busy-pos m ch e ∙ ground arith in
    let here : pos_part m.active_channel ≡ ch = ap pos_part e in
    (rw (busy, here) (reset-idle (tpce_dma_abort t ch polls) ch polls), ground arith)
