-- ===== src/Dma/Stop/Laws.antt =====
-- What an abort changes, and what it leaves alone.
use tpce2drv.Prelude.{
  ℕ, if◌then◌else◌, ◌≡◌, ◌≢◌, ◌⊎◌, refl, arith, true, false, Bool-cases, inl, inr, Option, none,
  some, List, ◌∷◌, Bool, ap, ◌∙◌,
}
use tpce2drv.Device.{
  Tpce, ChannelState, idle, initialized, running, complete, error, illegal, is_running, dma_csr,
  prefetcher_csr, with_info,
}
use tpce2drv.Dma.{disable_stream_irq, irq_bit, clear_irq}
use tpce2drv.Dma.Stop.{Polls, tpce_dma_abort, tpce_dma_free_descriptors_mem, reset_dma_controller}
use tpce2drv.Device.Links.{SameLinks, SameLinks-refl, with_info-after}
use tpce2drv.Dma.Memory.{without_buffers}

-- Where the state of a channel goes when it is aborted.
abbrev pub aborted : ChannelState → ChannelState
aborted running = error
aborted s = s

-- The writes of a reset, for the controller of a channel.
abbrev pub reset_writes : ℕ → Bool → List (ℕ × ℕ) → List (ℕ × ℕ)
reset_writes channel timeout log =
    if timeout
    then (prefetcher_csr channel 0, 4) ∷ log
    else (dma_csr channel 4, 2) ∷ (prefetcher_csr channel 0, 4) ∷ log

-- The parts of the device that the two first calls of an abort leave as they were.
record Untouched (t t' : Tpce) : Type 0 where
  infos : t'.dma_info ≡ t.dma_info
  mappings : t'.dma_mappings ≡ t.dma_mappings
  table : t'.page_table ≡ t.page_table
  refs : t'.refs ≡ t.refs
  going : t'.going_away ≡ t.going_away

clear-Untouched : (t : Tpce) (o : Option ℕ) → Untouched t (clear_irq t o)
clear-Untouched t none = record {
  infos = refl;
  mappings = refl;
  table = refl;
  refs = refl;
  going = refl;
}
clear-Untouched t (some k) = record {
  infos = refl;
  mappings = refl;
  table = refl;
  refs = refl;
  going = refl;
}

clear-writes : (t : Tpce) (o : Option ℕ) → (clear_irq t o).bar2_writes ≡ t.bar2_writes
clear-writes t none = refl
clear-writes t (some k) = refl

-- The device before the state of the channel is set.
abbrev stopped : Tpce → ℕ → Polls → Tpce
stopped t ch polls = reset_dma_controller (disable_stream_irq t ch) ch polls

stopped-Untouched : (t : Tpce) (ch : ℕ) (polls : Polls) → Untouched t (stopped t ch polls)
unfolding reset_dma_controller disable_stream_irq
stopped-Untouched t ch polls =
    let u = clear-Untouched t (irq_bit ch) in
    elim (Bool-cases polls.prefetcher_timeout) [
      | inl e ↦
          rw (e, stopped)
            (record {
              infos = u.infos;
              mappings = u.mappings;
              table = u.table;
              refs = u.refs;
              going = u.going;
            })
      | inr e ↦
          rw (e, stopped)
            (record {
              infos = u.infos;
              mappings = u.mappings;
              table = u.table;
              refs = u.refs;
              going = u.going;
            })
    ]

stopped-writes :
    (t : Tpce) (ch : ℕ) (polls : Polls)
    → (stopped t ch polls).bar2_writes
      ≡ reset_writes (t.dma_info ch).params.channel polls.prefetcher_timeout t.bar2_writes
unfolding reset_dma_controller disable_stream_irq
stopped-writes t ch polls =
    let u = clear-Untouched t (irq_bit ch) in
    let w = clear-writes t (irq_bit ch) in
    let c = ap (λ f. (f ch).params.channel) u.infos in
    elim (Bool-cases polls.prefetcher_timeout) [
      | inl e ↦ rw (e, stopped, c, w) refl
      | inr e ↦ rw (e, stopped, c, w) refl
    ]

abort_if :
    (t : Tpce) (ch : ℕ) (polls : Polls) (b : Bool)
    → is_running (t.dma_info ch).state ≡ b
    → tpce_dma_abort t ch polls ≡ (
        let t1 = stopped t ch polls in
        if b then with_info t1 ch (record (t1.dma_info ch) { state = error }) else t1)
unfolding tpce_dma_abort
abort_if t ch polls b e =
    let u = stopped-Untouched t ch polls in
    let same : is_running ((stopped t ch polls).dma_info ch).state ≡ b =
      ap (λ f. is_running (f ch).state) u.infos ∙ e in
    ap
      (λ r.
        let t1 = stopped t ch polls in
        if r then with_info t1 ch (record (t1.dma_info ch) { state = error }) else t1)
      same

aborted-cases :
    (s : ChannelState)
    → ((is_running s ≡ true) × (aborted s ≡ error)) ⊎ ((is_running s ≡ false) × (aborted s ≡ s))
aborted-cases idle = inr (refl, refl)
aborted-cases initialized = inr (refl, refl)
aborted-cases running = inl (refl, refl)
aborted-cases complete = inr (refl, refl)
aborted-cases error = inr (refl, refl)
aborted-cases (illegal n) = inr (refl, refl)

-- An abort turns a running transfer into an error and leaves every other state as it is. It resets
-- the controller that the last request of the channel named, which is controller 0 for a channel
-- that has had no request, whatever its number. No other channel, no mapping and no slot of the page
-- table changes.
pub abort-effect :
    (t : Tpce) (ch : ℕ) (polls : Polls)
    → let t' = tpce_dma_abort t ch polls in
      ((t'.dma_info ch).state ≡ aborted (t.dma_info ch).state)
      × (t'.bar2_writes
          ≡ reset_writes (t.dma_info ch).params.channel polls.prefetcher_timeout t.bar2_writes)
      × ((j : ℕ) → j ≢ ch → t'.dma_info j ≡ t.dma_info j)
      × (t'.dma_mappings ≡ t.dma_mappings)
      × (t'.page_table ≡ t.page_table)
abort-effect t ch polls =
    let u = stopped-Untouched t ch polls in
    let w = stopped-writes t ch polls in
    elim (aborted-cases (t.dma_info ch).state) [
      | inl (r, a) ↦
          rw (abort_if t ch polls true r, a)
            (ground arith, w, (λ j ne. ground arith ∙ ap (λ f. f j) u.infos), u.mappings, u.table)
      | inr (r, a) ↦
          rw (abort_if t ch polls false r, a)
            (
              ap (λ f. (f ch).state) u.infos,
              w,
              (λ j ne. ap (λ f. f j) u.infos),
              u.mappings,
              u.table,
            )
    ]

-- Nor do the count of references and the mark of a device that is going away.
pub abort-rest :
    (t : Tpce) (ch : ℕ) (polls : Polls)
    → let t' = tpce_dma_abort t ch polls in (t'.refs ≡ t.refs) × (t'.going_away ≡ t.going_away)
abort-rest t ch polls =
    let u = stopped-Untouched t ch polls in
    elim (aborted-cases (t.dma_info ch).state) [
      | inl (r, a) ↦ rw (abort_if t ch polls true r) (u.refs, u.going)
      | inr (r, a) ↦ rw (abort_if t ch polls false r) (u.refs, u.going)
    ]

-- The buffers of a free channel are released without an abort.
pub free_mem-idle :
    (t : Tpce) (ch : ℕ) (polls : Polls)
    → (t.dma_info ch).state ≡ idle
    → tpce_dma_free_descriptors_mem t ch polls ≡ with_info t ch (without_buffers (t.dma_info ch))
unfolding tpce_dma_free_descriptors_mem
free_mem-idle t ch polls e = rw (ap is_running e) refl

pub abort-SameLinks : (t : Tpce) (ch : ℕ) (polls : Polls) → SameLinks t (tpce_dma_abort t ch polls)
abort-SameLinks t ch polls =
    let t1 = stopped t ch polls in
    let u = stopped-Untouched t ch polls in
    elim (aborted-cases (t.dma_info ch).state) [
      | inl (r, a) ↦ rw (abort_if t ch polls true r) (
          with_info-after t t1 ch (record (t1.dma_info ch) { state = error }) u.infos u.mappings
            refl (λ o h. refl))
      | inr (r, a) ↦ rw (abort_if t ch polls false r) (SameLinks-refl t t1 u.infos u.mappings)
    ]
