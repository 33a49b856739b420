-- ===== src/Lifecycle/Device/Balance.antt =====
-- linux/main.c: what tpce_device_init holds, label by label.
use tpce2drv.Prelude.{
  ℕ, ◌+◌, ◌==◌, if◌then◌else◌, ◌≡◌, ◌≢◌, refl, sym, arith, ap, ◌∙◌, Bool, true, false, List, ◌∷◌,
  some, update, Bool-cases, inl, inr, ==_iff, ==_iff, ==_iff, ==_iff, ==_iff, ==_iff,
}
use tpce2drv.Ledger.{held, remove}
use tpce2drv.Device.{Tpce, Errno, eio, Result, Result-cases, failed, ok}
use tpce2drv.Dma.Stop.{Polls}
use tpce2drv.Lifecycle.{
  Resource, code, memory, io_buffer, minor_number, tasklet, driver_buffer, cdev, device, Probe,
  acquired, released, tpce_pci_init, tpce_pci_free,
}
use tpce2drv.Lifecycle.Pci.{pci_resources, HoldsPci, pci_init-HoldsPci, pci_free-held}
use tpce2drv.Lifecycle.Keeps.{entry, pci_init-entry}
use tpce2drv.Lifecycle.Device.{
  Created, absent, broken, created, InitEnv, has_driver_buffer, start_dma, started_dma, free_dma,
  register, unregister, error_pci_init, error_dma_init, error_cdev_add, error_device_create,
  device_of, add_device, init_dma, allocated, take_minor, tpce_device_init, tpce_dma_init,
  reset_events,
}

-- What a device holds after the PCI part, before the character device.
abbrev pub basics : List Resource → List Resource
basics rest = tasklet ∷ minor_number ∷ io_buffer ∷ memory ∷ rest

-- The driver's buffer, if it is there.
abbrev pub with_buffer : Tpce → List Resource → List Resource
with_buffer t rest = if has_driver_buffer t then driver_buffer ∷ rest else rest

-- All that a device holds.
abbrev pub device_resources : Tpce → List Resource → List Resource
device_resources t rest = device ∷ cdev ∷ with_buffer t (pci_resources (basics rest))

-- The entry of a device in the table, with the entries and the count before.
record Entered (devs : ℕ → Bool) (count : ℕ) (p : Probe) : Type 0 where
  was_free : devs p.minor ≡ false
  entered : p.devs ≡ update devs p.minor true
  counted : p.count ≡ count + 1
  attached : p.drvdata ≡ true

Entered-same :
    (devs : ℕ → Bool) (count : ℕ) (p q : Probe)
    → entry q ≡ entry p
    → Entered devs count p
    → Entered devs count q
Entered-same devs count p q e en =
    let minors = ap (λ x. x.3) e in
    record {
      was_free = rw minors en.was_free;
      entered = rw minors (ap (λ x. x.0) e ∙ en.entered);
      counted = ap (λ x. x.1) e ∙ en.counted;
      attached = ap (λ x. x.2) e ∙ en.attached;
    }

-- After a start: a failure leaves `rest` held and the table as it was; a success holds the device's
-- resources and has entered the device in the table.
unfoldable pub IsStarted : (ℕ → Bool) → ℕ → List Resource → Probe × Result ℕ → Type 0
IsStarted devs count rest (p, failed e) =
    (held code p.log ≡ some rest) × ((j : ℕ) → p.devs j ≡ devs j) × (p.count ≡ count)
IsStarted devs count rest (p, ok n) =
    (held code p.log ≡ some (device_resources p.tpce rest))
    × ((p.bars 0).vaddr ≢ 0)
    × ((p.bars 1).vaddr ≢ 0)
    × (p.drvdata ≡ true)
    × (p.devs ≡ update devs p.minor true)
    × (p.count ≡ count + 1)

module _ (devs : ℕ → Bool) (count : ℕ) (rest : List Resource) where
  unregister-devs : (p : Probe) → Entered devs count p → (j : ℕ) → (unregister p).devs j ≡ devs j
  unregister-devs p en j =
      let before = ap (λ f. f j) en.entered in
      elim (Bool-cases (j == p.minor)) [
        | inl e ↦ let here : j ≡ p.minor = (==_iff j p.minor).0 e in rw (e, here) (sym en.was_free)
        | inr e ↦ rw e (before ∙ rw e refl)
      ]

  pci_label :
      (p : Probe) (e : Errno)
      → Entered devs count p
      → held code p.log ≡ some (basics rest)
      → IsStarted devs count rest (error_pci_init p, failed e)
  unfolding IsStarted held remove
  pci_label p e en h = (rw (h, held) refl, unregister-devs p en, omega (arith, en.counted))

  dma_label :
      (p : Probe) (e : Errno)
      → Entered devs count p
      → HoldsPci (basics rest) (p, ok 0)
      → IsStarted devs count rest (error_dma_init p, failed e)
  unfolding tpce_pci_free error_dma_init
  dma_label p e en h =
      pci_label (tpce_pci_free p) e
        (record {
          was_free = en.was_free;
          entered = en.entered;
          counted = en.counted;
          attached = en.attached;
        })
        (pci_free-held p (basics rest) h)

  -- What is held once the DMA part is started, or has failed to start.
  HoldsDma : Probe × Result ℕ → Type 0
  HoldsDma (p, failed e) = HoldsPci (basics rest) (p, ok 0)
  HoldsDma (p, ok n) =
      (held code p.log ≡ some (with_buffer p.tpce (pci_resources (basics rest))))
      × ((p.bars 0).vaddr ≢ 0)
      × ((p.bars 1).vaddr ≢ 0)

  started-HoldsDma :
      (p : Probe) (x : Tpce × Result ℕ)
      → HoldsPci (basics rest) (p, ok 0)
      → HoldsDma (started_dma p x)
  unfolding HoldsDma HoldsPci held
  started-HoldsDma p (t, failed e) h = h
  started-HoldsDma p (t, ok n) (h, v, w) = elim (Bool-cases (has_driver_buffer t)) [
    | inl e ↦ (rw (e, held) (rw (h, held) refl), v, w)
    | inr e ↦ (rw e h, v, w)
  ]

  started-Entered :
      (p : Probe) (x : Tpce × Result ℕ)
      → Entered devs count p
      → Entered devs count (started_dma p x).0
  started-Entered p (t, failed e) en = record {
    was_free = en.was_free;
    entered = en.entered;
    counted = en.counted;
    attached = en.attached;
  }
  started-Entered p (t, ok n) en = record {
    was_free = en.was_free;
    entered = en.entered;
    counted = en.counted;
    attached = en.attached;
  }

  free_dma-HoldsPci :
      (p : Probe) (polls : ℕ → Polls)
      → HoldsDma (p, ok 0)
      → HoldsPci (basics rest) (free_dma polls p, ok 0)
  unfolding HoldsDma HoldsPci held remove free_dma
  free_dma-HoldsPci p polls (h, v, w) = elim (Bool-cases (has_driver_buffer p.tpce)) [
    | inl e ↦ (rw (e, held) (rw (h, e, held) refl), v, w)
    | inr e ↦ (rw e (h ∙ rw e refl), v, w)
  ]

  cdev_label :
      (p : Probe) (e : Errno) (polls : ℕ → Polls)
      → Entered devs count p
      → HoldsDma (p, ok 0)
      → IsStarted devs count rest (error_cdev_add polls p, failed e)
  unfolding free_dma error_dma_init
  cdev_label p e polls en h =
      dma_label (free_dma polls p) e
        (record {
          was_free = en.was_free;
          entered = en.entered;
          counted = en.counted;
          attached = en.attached;
        })
        (free_dma-HoldsPci p polls h)

  device_label :
      (p : Probe) (e : Errno) (polls : ℕ → Polls)
      → Entered devs count p
      → HoldsDma (p, ok 0)
      → IsStarted devs count rest (error_device_create polls (acquired cdev p), failed e)
  unfolding HoldsDma held remove
  device_label p e polls en (h, v, w) =
      cdev_label (released cdev (acquired cdev p)) e polls
        (record {
          was_free = en.was_free;
          entered = en.entered;
          counted = en.counted;
          attached = en.attached;
        })
        (rw (h, held) refl, v, w)

  add_device-IsStarted :
      (env : InitEnv) (x : Probe × Result ℕ)
      → env.create_device ≢ broken
      → Entered devs count x.0
      → HoldsDma x
      → IsStarted devs count rest (add_device env x)
  unfolding HoldsDma IsStarted add_device held
  add_device-IsStarted env (p, failed e) ne en h = dma_label p eio en h
  add_device-IsStarted env (p, ok n) ne en (h, v, w) = elim (Result-cases env.add_cdev) [
    | inl (e, q) ↦ rw (q, add_device) (cdev_label p e env.polls en (h, v, w))
    | inr (k, q) ↦ rw (q, add_device) (attach env.create_device ne)
  ]
    where
      attach : (c : Created) → c ≢ broken → IsStarted devs count rest (device_of env p c)
      attach absent unbroken = device_label p eio env.polls en (h, v, w)
      attach broken unbroken = absurd (unbroken refl)
      attach created unbroken = (rw (h, held) refl, v, w, en.attached, en.entered, en.counted)

  init_dma-IsStarted :
      (env : InitEnv) (x : Probe × Result ℕ)
      → env.create_device ≢ broken
      → Entered devs count x.0
      → HoldsPci (basics rest) x
      → IsStarted devs count rest (init_dma env x)
  unfolding HoldsPci init_dma start_dma
  init_dma-IsStarted env (p, failed e) ne en h = pci_label p e en h
  init_dma-IsStarted env (p, ok n) ne en h =
      let p1 = record p { tpce = reset_events p.tpce } in
      let x = tpce_dma_init p1.tpce env.dma_mask env.buffer in
      add_device-IsStarted env (started_dma p1 x) ne
        (started-Entered p1 x (record {
          was_free = en.was_free;
          entered = en.entered;
          counted = en.counted;
          attached = en.attached;
        }))
        (started-HoldsDma p1 x h)

take_minor-IsStarted :
    (p : Probe) (env : InitEnv) (rest : List Resource) (r : Result ℕ)
    → held code p.log ≡ some rest
    → env.create_device ≢ broken
    → ((minor : ℕ) → r ≡ ok minor → p.devs minor ≡ false)
    → IsStarted p.devs p.count rest (take_minor env (acquired io_buffer (allocated p)) r)
unfolding IsStarted held remove
take_minor-IsStarted p env rest (failed e) h ne fresh = (rw (h, held) refl, (λ j. refl), refl)
take_minor-IsStarted p env rest (ok minor) h ne fresh =
    let p3 =
      acquired tasklet
        (register minor (acquired minor_number (acquired io_buffer (allocated p)))) in
    let en : Entered p.devs p.count p3 = record {
      was_free = fresh minor refl;
      entered = refl;
      counted = refl;
      attached = refl;
    } in
    let x = tpce_pci_init p3 env.pci in
    init_dma-IsStarted p.devs p.count rest env x ne
      (Entered-same p.devs p.count p3 x.0 (pci_init-entry p3 env.pci) en)
      (pci_init-HoldsPci p3 env.pci (basics rest) (rw (h, held) refl) refl refl)

-- Whatever the kernel's functions give, unless device_create gives an error pointer: a start that
-- fails holds what was held before, and the table of devices is as it was; one that returns 0 holds
-- the resources of the device and has entered it under its number. ida_alloc_range gives no number
-- that is in use.
pub device_init-IsStarted :
    (p : Probe) (env : InitEnv) (rest : List Resource)
    → held code p.log ≡ some rest
    → env.create_device ≢ broken
    → ((minor : ℕ) → env.minor ≡ ok minor → p.devs minor ≡ false)
    → IsStarted p.devs p.count rest (tpce_device_init p env)
unfolding IsStarted tpce_device_init held remove
device_init-IsStarted p env rest h ne fresh = elim (Bool-cases env.has_memory) [
  | inr e ↦ rw e (h, (λ j. refl), refl)
  | inl e ↦ elim (Bool-cases env.has_io_buffer) [
    | inr w ↦ rw (e, w) (rw (h, held) refl, (λ j. refl), refl)
    | inl w ↦ rw (e, w) (take_minor-IsStarted p env rest env.minor h ne fresh)
  ]
]
