-- ===== src/System.antt =====
-- The threads of the driver as one system. A step is an interrupt, a run of the tasklet or of a
-- channel's work, or a part of a request: its set-up, its start, its end, a cancellation, a mapping
-- made or given back. Steps of several threads interleave.
pub mod Links
pub mod Unlock
pub mod Safety
pub mod Execute
mod Examples
use tpce2drv.Prelude.{false, ℕ, ◌<◌, ◌≡◌, List, negsuc, none, some, ℤ}
use tpce2drv.Types.{MapInfo}
use tpce2drv.Device.{Tpce, idle}
use tpce2drv.Dma.Stop.{Polls, tpce_dma_abort}
use tpce2drv.Buffers.{mapping}
use tpce2drv.Request.{
  Request, Env, init_dma_info, dma_dispatch, reset_dma_info, tpce_safe_dma_unmap,
}
use tpce2drv.Request.Ioctl.{Session, keep_mapping}
use tpce2drv.Interrupts.{tpce_isr, tpce_tasklet, tpce_dma_work}

-- A mapping that no channel uses, as far as it notes one; the source does not test it.
unfoldable pub IsUnused : Tpce → ℕ → Type 0
IsUnused t id = (m : MapInfo) → t.dma_mappings id ≡ some m → m.active_channel ≡ negsuc 0

pub data Step : Tpce → Tpce → Type 0 where
  interrupt : (t : Tpce) (irqreg : ℕ) (seq_nums : ℕ → ℕ) → Step t (tpce_isr t irqreg seq_nums).0
  tasklet : (t : Tpce) (int_stat : ℕ) → Step t (tpce_tasklet t int_stat).0
  work : (t : Tpce) (ch : ℕ) → Step t (tpce_dma_work t ch)
  set_up :
      (t : Tpce) (ch : ℕ) (req : Request) (env : Env)
      → ch < 3
      → IsUnused t req.id
      → Step t (init_dma_info t ch req env).0
  start : (t : Tpce) (ch : ℕ) (stale : ℤ) → Step t (dma_dispatch t ch stale).0
  abort : (t : Tpce) (ch : ℕ) (polls : Polls) → Step t (tpce_dma_abort t ch polls)
  reset : (t : Tpce) (ch : ℕ) (polls : Polls) → Step t (reset_dma_info t ch polls)
  lock :
      (s : Session) (ctx : ℕ) (m : MapInfo)
      → s.device.dma_mappings m.id ≡ none
      → m.active_channel ≡ negsuc 0
      → Step s.device (keep_mapping s ctx (mapping m)).0.device
  unlock :
      (t : Tpce) (id : ℕ) (m : MapInfo) (polls : Polls)
      → t.dma_mappings id ≡ some m
      → Step t (tpce_safe_dma_unmap t id m polls)

-- Any number of steps, none of which writes outside of the page table: such a write, by a start in a
-- full table, would overwrite the head of `dma_mappings`.
pub data Reach : Tpce → Tpce → Type 0 where
  done : (t : Tpce) → Reach t t
  followed : (t u v : Tpce) → Reach t u → Step u v → v.page_table.out_of_bounds ≡ false → Reach t v
