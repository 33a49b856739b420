-- ===== src/Dma/Started.antt =====
-- linux/dma.c: the state that a start leaves.
use tpce2drv.Prelude.{ℕ, ℤ, ◌==◌, ◌≡◌, refl, arith, true}
use tpce2drv.Device.{Tpce, running, Result, failed, ok}
use tpce2drv.Dma.{
  mark_running, after_enable, enable_stream_irq, dma_start, tpce_dma_start, tpce_dma_stream_start,
}

-- A start that succeeds leaves its channel RUNNING.
unfoldable pub Started : ℕ → Tpce × Result ℕ → Type 0
Started ch (t, failed e) = Unit
Started ch (t, ok n) = (t.dma_info ch).state ≡ running

mark-Started : (ch : ℕ) (t : Tpce) (r : Result ℕ) → Started ch (mark_running ch t r)
unfolding Started
mark-Started ch t (failed e) = tt
mark-Started ch t (ok n) = let here : (ch == ch) ≡ true = ground arith in rw here refl

enable-Started :
    (ch : ℕ) (stale : ℤ) (t : Tpce) (r : Result ℕ) → Started ch (after_enable ch stale t r)
unfolding Started after_enable
enable-Started ch stale t (failed e) = tt
enable-Started ch stale t (ok n) = let (t1, r) = dma_start t ch stale in mark-Started ch t1 r

pub start-Started : (t : Tpce) (ch : ℕ) (stale : ℤ) → Started ch (tpce_dma_start t ch stale)
unfolding tpce_dma_start
start-Started t ch stale = let x = dma_start t ch stale in mark-Started ch x.0 x.1

pub stream_start-Started :
    (t : Tpce) (ch : ℕ) (stale : ℤ) → Started ch (tpce_dma_stream_start t ch stale)
unfolding tpce_dma_stream_start
stream_start-Started t ch stale = let x = enable_stream_irq t ch in enable-Started ch stale x.0 x.1
