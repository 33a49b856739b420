-- ===== src/Dma/Stop.antt =====
-- linux/dma.c: stopping a transfer, and the completion of one. `Polls` holds what the polls of the
-- controller's registers give: true where the time ran out, and the control register read first.
pub mod Laws
use tpce2drv.Prelude.{
  ℕ, ◌+◌, ◌-◌, ◌*◌, ◌^◌, ◌==◌, if◌then◌else◌, Bool, true, false, not, ◌&&◌, ◌||◌, bit_and, Option,
  none, some,
}
use tpce2drv.Types.{TransferParams, mode_stream}
use tpce2drv.Device.{
  Tpce, DmaInfo, ChannelState, running, complete, error, is_running, is_idle, with_info, iowrite32,
  dma_csr, prefetcher_csr,
}
use tpce2drv.Dma.{disable_stream_irq, ctrl_reset, ctrl_park_mode, ctrl_run}
use tpce2drv.Dma.Memory.{without_buffers}

pub record Polls : Type 0 where
  pub prefetcher_timeout : Bool
  pub csr_state : ℕ
  pub stop_timeout : Bool

-- ALTERA_MSGDMA_CSR_RESET_MASK
abbrev pub csr_reset : ℕ
csr_reset = 2

-- A timeout of the second poll is only reported.
pub reset_dma_controller : Tpce → ℕ → Polls → Tpce
reset_dma_controller t ch polls =
    let channel = (t.dma_info ch).params.channel in
    let t1 = iowrite32 t (prefetcher_csr channel 0x0) ctrl_reset in
    if polls.prefetcher_timeout then t1 else iowrite32 t1 (dma_csr channel 0x4) csr_reset

pub tpce_dma_abort : Tpce → ℕ → Polls → Tpce
unfolding disable_stream_irq reset_dma_controller
tpce_dma_abort t ch polls =
    let t1 = reset_dma_controller (disable_stream_irq t ch) ch polls in
    let info = t1.dma_info ch in
    if is_running info.state then with_info t1 ch (record info { state = error }) else t1

abbrev park_mode_is_running : ℕ → Bool
park_mode_is_running csr = not (bit_and csr ctrl_park_mode == 0) && not (bit_and csr ctrl_run == 0)

abbrev pub tpce_dma_stream_stop : Tpce → ℕ → Polls → Tpce
unfolding disable_stream_irq tpce_dma_abort
tpce_dma_stream_stop t ch polls =
    let t1 = disable_stream_irq t ch in
    let t2 = iowrite32 t1 (prefetcher_csr ch 0x0) (bit_and polls.csr_state 0xffffffef) in
    let info = t2.dma_info ch in
    if not (is_running (t.dma_info ch).state)
    then tpce_dma_abort t ch polls
    else if not (park_mode_is_running polls.csr_state)
    then tpce_dma_abort t1 ch polls
    else if polls.stop_timeout
    then tpce_dma_abort t2 ch polls
    else with_info t2 ch (record info { state = complete })

-- The synchronisation of caches that follows a completed transfer does not change the state.
abbrev pub tpce_dma_completion : Tpce → ℕ → Tpce
tpce_dma_completion t ch =
    let info = t.dma_info ch in
    if info.params.transfer_mode == mode_stream
    then t
    else if is_running info.state
    then with_info t ch (record info { state = complete })
    else t

-- A channel that is not idle draws a warning; a running one is aborted first.
pub tpce_dma_free_descriptors_mem : Tpce → ℕ → Polls → Tpce
unfolding tpce_dma_abort
tpce_dma_free_descriptors_mem t ch polls =
    let t1 = if is_running (t.dma_info ch).state then tpce_dma_abort t ch polls else t in
    with_info t1 ch (without_buffers (t1.dma_info ch))
