-- ===== src/System/Safety.antt =====
-- The links between channels and mappings, in the states that the system reaches.
use tpce2drv.Prelude.{ℕ, ◌≡◌, ◌≢◌, arith, none, some}
use tpce2drv.Types.{MapInfo}
use tpce2drv.Device.{Tpce}
use tpce2drv.Dma.Links.{completion-SameLinks}
use tpce2drv.Dma.Stop.{Polls}
use tpce2drv.Dma.Stop.Laws.{abort-SameLinks}
use tpce2drv.Interrupts.Links.{isr-SameLinks, tasklet-SameLinks}
use tpce2drv.Request.{init_dma_info, tpce_safe_dma_unmap}
use tpce2drv.Request.Init.{init-Inits}
use tpce2drv.System.{
  Step, interrupt, tasklet, work, set_up, start, abort, reset, lock, unlock, Reach, done, followed,
}
use tpce2drv.System.Links.{
  IsLinked, SameLinks-IsLinked, init-IsLinked, reset-IsLinked, dispatch-IsLinked,
}
use tpce2drv.System.Unlock.{unlock-IsLinked, lock-IsLinked}

step-IsLinked : (t t' : Tpce) → Step t t' → IsLinked t → IsLinked t'
step-IsLinked _ _ (interrupt t irqreg seq) l = SameLinks-IsLinked t _ (isr-SameLinks t irqreg seq) l
step-IsLinked _ _ (tasklet t int_stat) l = SameLinks-IsLinked t _ (tasklet-SameLinks t int_stat) l
step-IsLinked _ _ (work t ch) l = SameLinks-IsLinked t _ (completion-SameLinks t ch) l
step-IsLinked _ _ (set_up t ch req env below unused) l =
    init-IsLinked t ch req (init_dma_info t ch req env) below unused (init-Inits t ch req env) l
step-IsLinked _ _ (start t ch stale) l = dispatch-IsLinked t ch stale l
step-IsLinked _ _ (abort t ch polls) l = SameLinks-IsLinked t _ (abort-SameLinks t ch polls) l
step-IsLinked _ _ (reset t ch polls) l = reset-IsLinked t ch polls l
step-IsLinked _ _ (lock s ctx m fresh unused) l = lock-IsLinked s ctx m fresh l
step-IsLinked _ _ (unlock t id m polls f) l = (unlock-IsLinked t id m polls f l).0

-- From a linked state, whatever steps the threads take, in whatever order, as long as no request is set
-- up on a mapping that notes a channel and no start writes outside of the page table: a free channel notes no mapping, no state is illegal, and a
-- channel notes only mappings that exist and that note it.
pub Reach-IsLinked : (t t' : Tpce) → Reach t t' → IsLinked t → IsLinked t'
Reach-IsLinked t _ (done _) l = l
Reach-IsLinked t _ (followed _ u v r s b) l = step-IsLinked u v s (Reach-IsLinked t u r l)

-- In every state that is reached by such steps from a linked one, none of which writes outside of the page
-- table, a mapping that is given back is gone,
-- and no channel notes it: none of them runs a transfer on it.
pub Reach-unlock :
    (t t' : Tpce) (id : ℕ) (m : MapInfo) (polls : Polls)
    → IsLinked t
    → Reach t t'
    → t'.dma_mappings id ≡ some m
    → let freed = tpce_safe_dma_unmap t' id m polls in
      (freed.dma_mappings id ≡ none) × ((ch : ℕ) → (freed.dma_info ch).map_info ≢ some id)
unfolding tpce_safe_dma_unmap
Reach-unlock t t' id m polls l r f =
    (ground arith, (unlock-IsLinked t' id m polls f (Reach-IsLinked t t' r l)).1)
