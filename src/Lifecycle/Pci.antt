-- ===== src/Lifecycle/Pci.antt =====
-- linux/main.c: what tpce_pci_init and tpce_pci_free hold, on every path.
use tpce2drv.Prelude.{
  ℕ, ◌==◌, ◌||◌, leb, ◌≡◌, ◌≢◌, refl, arith, false, List, ◌∷◌, some, Bool-cases, inl, inr,
}
use tpce2drv.Ledger.{held, remove}
use tpce2drv.Device.{Result, Result-cases, failed, ok, einval, enomem, Errno}
use tpce2drv.Lifecycle.{
  Resource, code, pci_device, regions, irq_vectors, irq, bar, Probe, PciEnv, Bar, with_bar,
  num_bars, acquired, released, map_pci_bar, map_second_bar, request_interrupt, tpce_pci_init,
  tpce_pci_free, error_bar2, error_irq,
}

-- The PCI resources of a device, the last one acquired first.
abbrev pub pci_resources : List Resource → List Resource
pci_resources rest = irq ∷ irq_vectors ∷ bar 1 ∷ bar 0 ∷ regions ∷ pci_device ∷ rest

-- After a failure only `rest` is held; after a success the PCI resources are held too, and both BARs
-- have an address.
unfoldable pub HoldsPci : List Resource → Probe × Result ℕ → Type 0
HoldsPci rest (p, failed e) = held code p.log ≡ some rest
HoldsPci rest (p, ok n) =
    (held code p.log ≡ some (pci_resources rest)) × ((p.bars 0).vaddr ≢ 0) × ((p.bars 1).vaddr ≢ 0)

-- The same for one BAR.
HoldsBar : ℕ → List Resource → Probe × Result ℕ → Type 0
HoldsBar i rest (p, failed e) = (held code p.log ≡ some rest) × ((p.bars i).vaddr ≡ 0)
HoldsBar i rest (p, ok n) = (held code p.log ≡ some (bar i ∷ rest)) × ((p.bars i).vaddr ≢ 0)

bar-failed :
    (i : ℕ) (rest : List Resource) (p : Probe) (e : Errno)
    → held code p.log ≡ some rest
    → (p.bars i).vaddr ≡ 0
    → HoldsBar i rest (p, failed e)
unfolding HoldsBar
bar-failed i rest p e h z = (h, z)

with_bar-failed :
    (i : ℕ) (rest : List Resource) (p : Probe) (b : Bar) (e : Errno)
    → held code p.log ≡ some rest
    → b.vaddr ≡ 0
    → HoldsBar i rest (with_bar p i b, failed e)
unfolding HoldsBar
with_bar-failed i rest p b e h z = (h, ground (arith, z))

with_bar-ok :
    (i : ℕ) (rest : List Resource) (p : Probe) (b : Bar)
    → held code p.log ≡ some rest
    → b.vaddr ≢ 0
    → HoldsBar i rest (acquired (bar i) (with_bar p i b), ok 0)
unfolding HoldsBar held
with_bar-ok i rest p b h z = (rw (h, held) refl, ground (arith, z))

map_bar-HoldsBar :
    (p : Probe) (resource i : ℕ) (env : PciEnv) (rest : List Resource)
    → held code p.log ≡ some rest
    → (p.bars i).vaddr ≡ 0
    → HoldsBar i rest (map_pci_bar p resource i env)
unfolding map_pci_bar
map_bar-HoldsBar p resource i env rest h z =
    let found : Bar = record (p.bars i) { paddr = env.start resource; size = env.len resource } in
    let mapped : Bar = record found { vaddr = env.ioremap resource } in
    elim (Bool-cases (leb num_bars i)) [
      | inl e ↦ rw e (bar-failed i rest p einval h z)
      | inr e ↦ elim (Bool-cases (env.start resource == 0 || env.len resource == 0)) [
        | inl y ↦ rw (e, y) (with_bar-failed i rest p found enomem h z)
        | inr y ↦ elim (Bool-cases (env.ioremap resource == 0)) [
          | inl w ↦ rw (e, y, w) (with_bar-failed i rest p mapped enomem h (ground (arith, w)))
          | inr w ↦ rw (e, y, w) (with_bar-ok i rest p mapped h (ground (arith, w)))
        ]
      ]
    ]

-- The other BAR is left alone.
map_bar-other :
    (p : Probe) (resource i j : ℕ) (env : PciEnv)
    → j ≢ i
    → (map_pci_bar p resource i env).0.bars j ≡ p.bars j
unfolding map_pci_bar
map_bar-other p resource i j env ne = ground arith

is_not_null : (v : ℕ) → v ≢ 0 → (v == 0) ≡ false
is_not_null v h = ground (arith, h)

-- What the labels give back.
error_bar2-held :
    (p : Probe) (rest : List Resource)
    → held code p.log ≡ some (bar 0 ∷ regions ∷ pci_device ∷ rest)
    → (p.bars 0).vaddr ≢ 0
    → held code (error_bar2 p).log ≡ some rest
unfolding held remove
error_bar2-held p rest h n = rw (is_not_null (p.bars 0).vaddr n) (rw (h, held) refl)

error_irq-held :
    (p : Probe) (rest : List Resource)
    → held code p.log ≡ some (bar 1 ∷ bar 0 ∷ regions ∷ pci_device ∷ rest)
    → (p.bars 0).vaddr ≢ 0
    → (p.bars 1).vaddr ≢ 0
    → held code (error_irq p).log ≡ some rest
unfolding held remove
error_irq-held p rest h n z =
    rw (is_not_null (p.bars 0).vaddr n, is_not_null (p.bars 1).vaddr z) (rw (h, held) refl)

request_interrupt-HoldsPci :
    (env : PciEnv) (rest : List Resource) (x : Probe × Result ℕ)
    → HoldsBar 1 (bar 0 ∷ regions ∷ pci_device ∷ rest) x
    → (x.0.bars 0).vaddr ≢ 0
    → HoldsPci rest (request_interrupt env x)
unfolding HoldsBar HoldsPci request_interrupt held remove
request_interrupt-HoldsPci env rest (p, failed e) (h, z) n = error_bar2-held p rest h n
request_interrupt-HoldsPci env rest (p, ok k) (h, z) n = elim (Result-cases env.alloc_irq_vectors) [
  | inl (e, q) ↦ rw (q, request_interrupt) (error_irq-held p rest h n z)
  | inr (nvec, q) ↦ elim (Result-cases env.request_irq) [
    | inl (e, w) ↦
        let p1 = record (released irq_vectors (acquired irq_vectors p)) {
          irq_number = env.irq_vector;
        } in
        rw (q, w, request_interrupt) (error_irq-held p1 rest (rw (h, held) refl) n z)
    | inr (k, w) ↦ rw (q, w, request_interrupt) (rw (h, held) refl, n, z)
  ]
]

map_second-HoldsPci :
    (env : PciEnv) (rest : List Resource) (x : Probe × Result ℕ)
    → HoldsBar 0 (regions ∷ pci_device ∷ rest) x
    → (x.0.bars 1).vaddr ≡ 0
    → HoldsPci rest (map_second_bar env x)
unfolding HoldsBar HoldsPci map_second_bar held remove
map_second-HoldsPci env rest (p, failed e) (h, z) n = rw (h, held) refl
map_second-HoldsPci env rest (p, ok k) (h, z) n =
    request_interrupt-HoldsPci env rest (map_pci_bar p 2 1 env)
      (map_bar-HoldsBar p 2 1 env (bar 0 ∷ regions ∷ pci_device ∷ rest) h n)
      (rw (map_bar-other p 2 1 0 env (λ e. absurd (omega arith))) z)

-- For BARs without an address, whatever the kernel's functions give: tpce_pci_init that fails holds
-- nothing that was not held before; one that returns 0 holds the device, its regions, both BARs, the
-- vectors and the interrupt.
pub pci_init-HoldsPci :
    (p : Probe) (env : PciEnv) (rest : List Resource)
    → held code p.log ≡ some rest
    → (p.bars 0).vaddr ≡ 0
    → (p.bars 1).vaddr ≡ 0
    → HoldsPci rest (tpce_pci_init p env)
unfolding HoldsPci tpce_pci_init held remove
pci_init-HoldsPci p env rest h z n = elim (Result-cases env.enable) [
  | inl (e, q) ↦ rw (q, tpce_pci_init) h
  | inr (k, q) ↦ elim (Result-cases env.request_regions) [
    | inl (e, w) ↦ rw (q, w, tpce_pci_init) (rw (h, held) refl)
    | inr (k, w) ↦
        let p1 = acquired regions (acquired pci_device p) in
        rw (q, w, tpce_pci_init)
          (map_second-HoldsPci env rest (map_pci_bar p1 0 0 env)
            (map_bar-HoldsBar p1 0 0 env (regions ∷ pci_device ∷ rest) (rw (h, held) refl) z)
            (rw (map_bar-other p1 0 0 1 env (λ e. absurd (omega arith))) n))
  ]
]

-- And then tpce_pci_free gives all of it back.
pub pci_free-held :
    (p : Probe) (rest : List Resource)
    → HoldsPci rest (p, ok 0)
    → held code (tpce_pci_free p).log ≡ some rest
unfolding HoldsPci tpce_pci_free held remove
pci_free-held p rest (h, n, z) =
    rw (is_not_null (p.bars 0).vaddr n, is_not_null (p.bars 1).vaddr z) (rw (h, held) refl)
