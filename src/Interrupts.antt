-- ===== src/Interrupts.antt =====
-- linux/main.c: the interrupt handler, the tasklet and the work that they schedule. What is read
-- from a register is an argument. The second halves of a write that is flushed by a read, and the
-- synchronisation of caches, do not change the state.
pub mod Stream
pub mod Laws
pub mod Links
pub mod Completion
mod Examples
use tpce2drv.Prelude.{
  ℕ, zero, suc, ◌+◌, ◌-◌, ◌*◌, ◌/◌, ◌%◌, ◌^◌, ◌==◌, ltb, if◌then◌else◌, Bool, true, false, not,
  ◌&&◌, List, [], ◌∷◌, ◌++◌, Option, none, some, bit_and, bit_or,
}
use tpce2drv.Device.{Tpce, DmaInfo, StreamInfo, StreamState, with_info, iowrite32, prefetcher_csr}
use tpce2drv.Dma.Stop.{tpce_dma_completion}
use tpce2drv.Interrupts.Stream.{dma_stream_irq_handler}

-- TPCE_IRQ_DMA0, TPCE_IRQ_DMA1, TPCE_IRQ_DMA2 and TPCE_IRQ_APP
abbrev pub irq_dma0 : ℕ
irq_dma0 = 0x001

abbrev pub irq_dma1 : ℕ
irq_dma1 = 0x100

abbrev pub irq_dma2 : ℕ
irq_dma2 = 0x400

abbrev pub irq_app : ℕ
irq_app = 0x004

abbrev pub irq_enabled : ℕ
irq_enabled = 0x505

-- ALTERA_PCIE_IRQ_ENABLE_REG
abbrev pub irq_enable_reg : ℕ
irq_enable_reg = 0x50

-- The work of a channel; who waits for the channel is woken up.
abbrev pub tpce_dma_work : Tpce → ℕ → Tpce
tpce_dma_work t ch = tpce_dma_completion t ch

-- One of the three blocks of the tasklet: the device, and the channels whose work is queued.
abbrev pub tasklet_dma : ℕ → ℕ → ℕ → Tpce × List ℕ → Tpce × List ℕ
tasklet_dma irqsrc mask ch (t, queued) =
    if bit_and irqsrc mask == 0
    then (t, queued)
    else (iowrite32 t (prefetcher_csr ch 0x10) 1, queued ++ ch ∷ [])

-- The block for the application's interrupts. The write to BAR 0 that clears them is not logged.
abbrev pub tasklet_app : ℕ → ℕ → Tpce → Tpce
tasklet_app irqsrc int_stat t =
    if bit_and irqsrc irq_app == 0
    then t
    else record t { hw_status = bit_or t.hw_status int_stat; hw_pending = true }

abbrev pub enable_interrupts : Tpce → Tpce
enable_interrupts t = if t.going_away then t else iowrite32 t irq_enable_reg irq_enabled

abbrev pub tpce_tasklet : Tpce → ℕ → Tpce × List ℕ
tpce_tasklet t int_stat =
    let irqsrc = t.irqsrc in
    let (t1, queued) = tasklet_dma irqsrc irq_dma2 2 (
      tasklet_dma irqsrc irq_dma1 1
        (tasklet_dma irqsrc irq_dma0 0 (record t { irqsrc = 0 }, []))) in
    (enable_interrupts (tasklet_app irqsrc int_stat t1), queued)

-- IRQ_NONE, IRQ_HANDLED, and IRQ_HANDLED with the tasklet scheduled
pub data IrqReturn : Type 0 where
  irq_none irq_handled irq_scheduled : IrqReturn

abbrev pub fast_dma : ℕ → ℕ → ℕ → ℕ → Tpce → Tpce
fast_dma fast mask ch seq_nums t =
    if bit_and fast mask == 0 then t else dma_stream_irq_handler t ch seq_nums

-- The calls of the stream handlers, with the sequence number register of each channel.
pub run_fast : ℕ → (ℕ → ℕ) → Tpce → Tpce
run_fast fast seq_nums t =
    if fast == 0
    then t
    else fast_dma fast irq_dma2 2 (seq_nums 2)
        (fast_dma fast irq_dma1 1 (seq_nums 1) (fast_dma fast irq_dma0 0 (seq_nums 0) t))

-- The end of the handler, for the interrupts that are left to the tasklet.
pub defer : ℕ → Tpce → Tpce
defer irqreg t = record (iowrite32 t irq_enable_reg 0) { irqsrc = bit_or t.irqsrc irqreg }

pub tpce_isr : Tpce → ℕ → (ℕ → ℕ) → Tpce × IrqReturn
unfolding run_fast defer
tpce_isr t irqreg seq_nums =
    let fast = bit_and irqreg t.fast_irq_mask in
    let slow = if fast == 0 then irqreg else bit_and irqreg (2 ^ 32 - 1 - t.fast_irq_mask) in
    let t1 = run_fast fast seq_nums t in
    if irqreg == 0
    then (t, irq_none)
    else if slow == 0
    then (t1, irq_handled)
    else (defer slow t1, irq_scheduled)

-- TPCE_IOC_EVENT: the events since the last call.
abbrev pub take_events : Tpce → Tpce × ℕ
take_events t = (record t { hw_status = 0 }, t.hw_status)

-- `tpce_poll`: whether an event is pending.
abbrev pub tpce_poll : Tpce → Tpce × Bool
tpce_poll t = (record t { hw_pending = false }, t.hw_pending)
