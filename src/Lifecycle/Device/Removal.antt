-- ===== src/Lifecycle/Device/Removal.antt =====
-- linux/main.c: what tpce_device_remove gives back, and the device that it leaves.
use tpce2drv.Prelude.{
  ℕ, zero, suc, ◌<◌, ◌==◌, if◌then◌else◌, ◌≡◌, ◌≢◌, refl, arith, ap, ◌∙◌, true, false, none, List,
  ◌∷◌, some, Bool-cases, inl, inr, ==_iff, sym,
}
use tpce2drv.Ledger.{held, remove}
use tpce2drv.Dma.Memory.{without_buffers}
use tpce2drv.Device.{with_info, Tpce, ChannelState, idle, ok, iowrite32}
use tpce2drv.Dma.Stop.{Polls}
use tpce2drv.Dma.Stop.Laws.{free_mem-idle}
use tpce2drv.Request.{reset_dma_info}
use tpce2drv.Request.Laws.{reset-idle}
use tpce2drv.Request.Reset.{reset-SameBut}
use tpce2drv.Interrupts.{irq_enable_reg}
use tpce2drv.Lifecycle.{
  Resource, code, memory, io_buffer, minor_number, tasklet, cdev, device, Probe, released,
  tpce_pci_free,
}
use tpce2drv.Lifecycle.Pci.{HoldsPci, pci_free-held}
use tpce2drv.Lifecycle.Device.{
  has_driver_buffer, free_dma, unregister, tpce_dma_free, shut_down, drop_reference,
  tpce_device_remove,
}
use tpce2drv.Lifecycle.Device.Balance.{device_resources}

-- The three resets, one after the other.
reset_all : Tpce → (ℕ → Polls) → Tpce
reset_all t polls =
    reset_dma_info (reset_dma_info (reset_dma_info t 0 (polls 0)) 1 (polls 1)) 2 (polls 2)

-- Every channel is free after them, whatever it did, and the same mappings exist.
record IsQuiet (t t' : Tpce) : Type 0 where
  all_idle : (ch : ℕ) → ch < 3 → (t'.dma_info ch).state ≡ idle
  mapped : has_driver_buffer t' ≡ has_driver_buffer t
  refs : t'.refs ≡ t.refs
  going : t'.going_away ≡ t.going_away

reset_all-IsQuiet : (t : Tpce) (polls : ℕ → Polls) → IsQuiet t (reset_all t polls)
unfolding reset_all
reset_all-IsQuiet t polls =
    let a = reset_dma_info t 0 (polls 0) in
    let b = reset_dma_info a 1 (polls 1) in
    let f = reset-SameBut t 0 (polls 0) in
    let g = reset-SameBut a 1 (polls 1) in
    let h = reset-SameBut b 2 (polls 2) in
    let first : (a.dma_info 0).state ≡ idle = reset-idle t 0 (polls 0) in
    let second : (b.dma_info 1).state ≡ idle = reset-idle a 1 (polls 1) in
    record {
      all_idle = λ ch lt.
          quiet (λ k. ((reset_dma_info b 2 (polls 2)).dma_info k).state) ch lt
            (ap (λ i. i.state) (h.others 0 (λ e. absurd (omega arith)))
              ∙ ap (λ i. i.state) (g.others 0 (λ e. absurd (omega arith)))
              ∙ first)
            (ap (λ i. i.state) (h.others 1 (λ e. absurd (omega arith))) ∙ second)
            (reset-idle b 2 (polls 2));
      mapped = h.mapped 1 ∙ g.mapped 1 ∙ f.mapped 1;
      refs = h.same_refs ∙ g.same_refs ∙ f.same_refs;
      going = h.same_going ∙ g.same_going ∙ f.same_going;
    }
  where
    quiet :
        (s : ℕ → ChannelState) (ch : ℕ)
        → ch < 3
        → s 0 ≡ idle
        → s 1 ≡ idle
        → s 2 ≡ idle
        → s ch ≡ idle
    quiet s zero lt x y z = x
    quiet s (suc zero) lt x y z = y
    quiet s (suc (suc zero)) lt x y z = z
    quiet s (suc (suc (suc n))) lt x y z = absurd (omega arith)

-- A channel without its buffers
freed_info : Tpce → ℕ → Tpce
freed_info t ch = with_info t ch (without_buffers (t.dma_info ch))

freed_info-states :
    (t : Tpce) (ch j : ℕ) → ((freed_info t ch).dma_info j).state ≡ (t.dma_info j).state
unfolding freed_info
freed_info-states t ch j = elim (Bool-cases (j == ch)) [
  | inl y ↦
      let here : j ≡ ch = (==_iff j ch).0 y in rw y (ap (λ k. (t.dma_info k).state) (sym here))
  | inr n ↦ rw n refl
]

-- `tpce_dma_free` of a device with free channels
dma_free-idle :
    (t : Tpce) (polls : ℕ → Polls)
    → ((ch : ℕ) → ch < 3 → (t.dma_info ch).state ≡ idle)
    → tpce_dma_free t polls
      ≡ freed_info (freed_info (freed_info (record t { dma_mappings = λ _. none }) 0) 1) 2
unfolding tpce_dma_free freed_info
dma_free-idle t polls h =
    let t0 = record t { dma_mappings = λ _. none } in
    let t1 = freed_info t0 0 in
    let t2 = freed_info t1 1 in
    let first : (t0.dma_info 0).state ≡ idle = h 0 (omega arith) in
    let second : (t1.dma_info 1).state ≡ idle = freed_info-states t0 0 1 ∙ h 1 (omega arith) in
    let third : (t2.dma_info 2).state ≡ idle =
      freed_info-states t1 1 2 ∙ freed_info-states t0 0 2 ∙ h 2 (omega arith) in
    rw
      (
        free_mem-idle t0 0 (polls 0) first,
        free_mem-idle t1 1 (polls 1) second,
        free_mem-idle t2 2 (polls 2) third,
      )
      refl

-- What is true of the device when it is gone. `rest` is held if the removal drops the last
-- reference, and the memory of the device besides if a file is still open.
unfoldable pub IsRemoved : List Resource → Probe → Probe → Type 0
IsRemoved rest p q =
    (held code q.log ≡ some (if p.tpce.refs == 1 then rest else memory ∷ rest))
    × ((j : ℕ) → q.devs j ≡ (if j == p.minor then false else p.devs j))
    × (q.tpce.going_away ≡ true)
    × ((ch : ℕ) → ch < 3 → (q.tpce.dma_info ch).state ≡ idle)
    × ((id : ℕ) → q.tpce.dma_mappings id ≡ none)

-- The resources that the start acquired before those of the PCI part, less the tasklet
abbrev basics_left : List Resource → List Resource
basics_left rest = minor_number ∷ io_buffer ∷ memory ∷ rest

-- After the tasklet and the DMA part are stopped, the PCI resources are left.
stopped-HoldsPci :
    (p : Probe) (t : Tpce) (polls : ℕ → Polls) (rest : List Resource)
    → held code p.log ≡ some (device_resources p.tpce rest)
    → (p.bars 0).vaddr ≢ 0
    → (p.bars 1).vaddr ≢ 0
    → has_driver_buffer t ≡ has_driver_buffer p.tpce
    → HoldsPci (basics_left rest) (
      free_dma polls (record (released tasklet (released cdev (released device p))) { tpce = t }),
      ok 0,
    )
unfolding HoldsPci free_dma held remove
stopped-HoldsPci p t polls rest h v w same = elim (Bool-cases (has_driver_buffer p.tpce)) [
  | inl e ↦ (rw (same, e, held) (rw (h, e, held) refl), v, w)
  | inr e ↦ (rw (same, e, held) (rw (h, e, held) refl), v, w)
]

-- The device that is going away, as the resets find it
abbrev leaving : Tpce → Tpce
leaving t = iowrite32 (record t { going_away = true }) irq_enable_reg 0

shut_down-IsQuiet : (t : Tpce) (polls : ℕ → Polls) → IsQuiet (leaving t) (shut_down t polls)
unfolding shut_down reset_all
shut_down-IsQuiet t polls = reset_all-IsQuiet (leaving t) polls

-- The device after the second half
record IsGone (t t' : Tpce) : Type 0 where
  states : (ch : ℕ) → ch < 3 → (t'.dma_info ch).state ≡ idle
  unmapped : (id : ℕ) → t'.dma_mappings id ≡ none
  same_refs : t'.refs ≡ t.refs
  marked : t'.going_away ≡ true

gone : (t : Tpce) (polls : ℕ → Polls) → IsGone t (tpce_dma_free (shut_down t polls) polls)
unfolding freed_info
gone t polls =
    let s = shut_down t polls in
    let quiet = shut_down-IsQuiet t polls in
    let t0 = record s { dma_mappings = λ _. none } in
    rw (dma_free-idle s polls quiet.all_idle) (record {
      states = λ ch lt.
          freed_info-states (freed_info (freed_info t0 0) 1) 2 ch
          ∙ freed_info-states (freed_info t0 0) 1 ch
          ∙ freed_info-states t0 0 ch
          ∙ quiet.all_idle ch lt;
      unmapped = λ id. refl;
      same_refs = quiet.refs;
      marked = quiet.going;
    })

-- The end of the removal
drop-held :
    (q : Probe) (rest : List Resource)
    → held code q.log ≡ some (basics_left rest)
    → held code (drop_reference (released io_buffer (released minor_number (unregister q)))).log
      ≡ some (if q.tpce.refs == 1 then rest else memory ∷ rest)
unfolding held remove
drop-held q rest h = elim (Bool-cases (q.tpce.refs == 1)) [
  | inl e ↦ rw (e, held) (rw (h, held) refl)
  | inr e ↦ rw (e, held) (rw (h, held) refl)
]

-- Whatever a device has done since its start: if it still holds what the start acquired, the removal
-- gives everything back but the memory that open files refer to, takes the device out of the table,
-- marks it, and leaves all channels free and no mapping.
pub device_remove-IsRemoved :
    (p : Probe) (polls : ℕ → Polls) (rest : List Resource)
    → held code p.log ≡ some (device_resources p.tpce rest)
    → (p.bars 0).vaddr ≢ 0
    → (p.bars 1).vaddr ≢ 0
    → p.drvdata ≡ true
    → IsRemoved rest p (tpce_device_remove p polls)
unfolding IsRemoved tpce_device_remove tpce_pci_free free_dma shut_down held remove
device_remove-IsRemoved p polls rest h v w d =
    let s = shut_down p.tpce polls in
    let g = gone p.tpce polls in
    let p1 = record (released tasklet (released cdev (released device p))) { tpce = s } in
    let after =
      pci_free-held (free_dma polls p1) (basics_left rest)
        (stopped-HoldsPci p s polls rest h v w (shut_down-IsQuiet p.tpce polls).mapped) in
    let last =
      drop-held (tpce_pci_free (free_dma polls p1)) rest after
      ∙ ap (λ n. some (if n == 1 then rest else memory ∷ rest)) g.same_refs in
    rw d (last, (λ j. refl), g.marked, g.states, g.unmapped)
