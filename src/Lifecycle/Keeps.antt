-- ===== src/Lifecycle/Keeps.antt =====
-- linux/main.c: the parts of the state that tpce_pci_init and tpce_pci_free do not touch.
use tpce2drv.Prelude.{ℕ, ◌≡◌, refl, Bool, inl, inr, arith, ◌∙◌}
use tpce2drv.Device.{Tpce, Result, Result-cases, failed, ok}
use tpce2drv.Lifecycle.{
  Probe, PciEnv, acquired, map_pci_bar, map_second_bar, request_interrupt, tpce_pci_init,
  tpce_pci_free, regions, pci_device,
}

-- What they leave alone.
abbrev pub entry : Probe → (ℕ → Bool) × ℕ × Bool × ℕ × Tpce
entry p = (p.devs, p.count, p.drvdata, p.minor, p.tpce)

map_bar-entry :
    (p : Probe) (resource i : ℕ) (env : PciEnv) → entry (map_pci_bar p resource i env).0 ≡ entry p
unfolding map_pci_bar
map_bar-entry p resource i env = ground arith

interrupt-entry :
    (env : PciEnv) (x : Probe × Result ℕ) → entry (request_interrupt env x).0 ≡ entry x.0
unfolding request_interrupt
interrupt-entry env (p, failed e) = refl
interrupt-entry env (p, ok n) = elim (Result-cases env.alloc_irq_vectors) [
  | inl (e, q) ↦ rw (q, request_interrupt) refl
  | inr (nvec, q) ↦ elim (Result-cases env.request_irq) [
    | inl (e, w) ↦ rw (q, w, request_interrupt) refl
    | inr (k, w) ↦ rw (q, w, request_interrupt) refl
  ]
]

second-entry : (env : PciEnv) (x : Probe × Result ℕ) → entry (map_second_bar env x).0 ≡ entry x.0
unfolding map_second_bar
second-entry env (p, failed e) = refl
second-entry env (p, ok n) = interrupt-entry env (map_pci_bar p 2 1 env) ∙ map_bar-entry p 2 1 env

pub pci_init-entry : (p : Probe) (env : PciEnv) → entry (tpce_pci_init p env).0 ≡ entry p
unfolding tpce_pci_init
pci_init-entry p env = elim (Result-cases env.enable) [
  | inl (e, q) ↦ rw (q, tpce_pci_init) refl
  | inr (k, q) ↦ elim (Result-cases env.request_regions) [
    | inl (e, w) ↦ rw (q, w, tpce_pci_init) refl
    | inr (k, w) ↦
        let p1 = acquired regions (acquired pci_device p) in
        rw (q, w, tpce_pci_init)
          (second-entry env (map_pci_bar p1 0 0 env) ∙ map_bar-entry p1 0 0 env)
  ]
]

pub pci_free-entry : (p : Probe) → entry (tpce_pci_free p) ≡ entry p
unfolding tpce_pci_free
pci_free-entry p = refl
