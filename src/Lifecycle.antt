-- ===== src/Lifecycle.antt =====
-- linux/main.c: the start and the removal of a device. This file holds the PCI resources:
-- map_pci_bar, tpce_pci_init and tpce_pci_free. What is acquired and released is logged; what the
-- kernel's functions give is in `PciEnv`.
pub mod Device
pub mod Module
pub mod Pci
pub mod Keeps
mod Examples
use tpce2drv.Prelude.{
  ℕ, ◌==◌, leb, if◌then◌else◌, ◌||◌, Bool, true, false, List, [], ◌∷◌, update, ◌+◌,
}
use tpce2drv.Ledger.{Act, acquire, release}
use tpce2drv.Device.{Tpce, einval, enomem, Result, failed, ok}

-- What a device holds. `device` is the node in /dev, `driver_buffer` the mapping with the id
-- TPCE_DMA_DRIVER_BUFFER_ID.
pub data Resource : Type 0 where
  memory io_buffer minor_number tasklet : Resource
  pci_device regions irq_vectors irq : Resource
  bar : ℕ → Resource
  driver_buffer cdev device : Resource

abbrev pub code : Resource → ℕ
code memory = 0
code io_buffer = 1
code minor_number = 2
code tasklet = 3
code pci_device = 4
code regions = 5
code irq_vectors = 6
code irq = 7
code driver_buffer = 8
code cdev = 9
code device = 10
code (bar i) = 11 + i

-- `pci_bar_info`; a null pointer is the address 0.
pub record Bar : Type 0 where
  pub paddr : ℕ
  pub size : ℕ
  pub vaddr : ℕ

-- `tpce_devices`, the fields of `tpce_dev` that only the start and the removal use, the number of the
-- interrupt and the driver data in `pci_dev`, and the log.
pub record Probe : Type 0 where
  pub devs : ℕ → Bool
  pub count : ℕ
  pub drvdata : Bool
  pub tpce : Tpce
  pub minor : ℕ
  pub bars : ℕ → Bar
  pub irq_number : ℕ
  pub bus_master : Bool
  pub log : List (Act Resource)

abbrev pub acquired : Resource → Probe → Probe
acquired r p = record p { log = acquire r ∷ p.log }

abbrev pub released : Resource → Probe → Probe
released r p = record p { log = release r ∷ p.log }

-- The start, the length and the mapped address of each PCI resource, 0 where there is none, and how
-- the other calls end.
pub record PciEnv : Type 0 where
  pub enable : Result ℕ
  pub request_regions : Result ℕ
  pub start : ℕ → ℕ
  pub len : ℕ → ℕ
  pub ioremap : ℕ → ℕ
  pub alloc_irq_vectors : Result ℕ
  pub irq_vector : ℕ
  pub request_irq : Result ℕ

-- TPCE_NUM_BARS. DEVICE_COUNT_RESOURCE is the kernel's; both callers name one of the six BARs.
abbrev pub num_bars : ℕ
num_bars = 2

abbrev pub with_bar : Probe → ℕ → Bar → Probe
with_bar p mempos b = record p { bars = update p.bars mempos b }

pub map_pci_bar : Probe → ℕ → ℕ → PciEnv → Probe × Result ℕ
map_pci_bar p resource mempos env =
    let found : Bar = record (p.bars mempos) {
      paddr = env.start resource;
      size = env.len resource;
    } in
    let mapped : Bar = record found { vaddr = env.ioremap resource } in
    if leb num_bars mempos
    then (p, failed einval)
    else if env.start resource == 0 || env.len resource == 0
    then (with_bar p mempos found, failed enomem)
    else if env.ioremap resource == 0
    then (with_bar p mempos mapped, failed enomem)
    else (acquired (bar mempos) (with_bar p mempos mapped), ok 0)

-- `if (bars[i].vaddr) iounmap(…)`
abbrev pub unmap_bar : ℕ → Probe → Probe
unmap_bar i p = record p { log = if (p.bars i).vaddr == 0 then p.log else release (bar i) ∷ p.log }

-- The labels of `tpce_pci_init`, from the last one up.
abbrev pub error_regions : Probe → Probe
error_regions p = released pci_device p

abbrev pub error_bar0 : Probe → Probe
error_bar0 p = error_regions (released regions p)

abbrev pub error_bar2 : Probe → Probe
error_bar2 p = error_bar0 (unmap_bar 0 p)

abbrev pub error_irq : Probe → Probe
error_irq p = error_bar2 (unmap_bar 1 p)

abbrev pub error_request_irq : Probe → Probe
error_request_irq p = error_irq (released irq_vectors p)

-- `tpce_pci_init` once both BARs are mapped.
pub request_interrupt : PciEnv → Probe × Result ℕ → Probe × Result ℕ
request_interrupt env (p, failed e) = (error_bar2 p, failed e)
request_interrupt env (p, ok n) = elim env.alloc_irq_vectors [
  | failed e ↦ (error_irq p, failed e)
  | ok nvec ↦
      let p1 = record (acquired irq_vectors p) { irq_number = env.irq_vector } in
      elim env.request_irq [
        | failed e ↦ (error_request_irq p1, failed e)
        | ok n ↦ (record (acquired irq p1) { bus_master = true }, ok 0)
      ]
]

-- `tpce_pci_init` once the first BAR is mapped.
pub map_second_bar : PciEnv → Probe × Result ℕ → Probe × Result ℕ
unfolding request_interrupt map_pci_bar
map_second_bar env (p, failed e) = (error_bar0 p, failed e)
map_second_bar env (p, ok n) = request_interrupt env (map_pci_bar p 2 1 env)

pub tpce_pci_init : Probe → PciEnv → Probe × Result ℕ
unfolding map_second_bar map_pci_bar
tpce_pci_init p env = elim env.enable [
  | failed e ↦ (p, failed e)
  | ok n ↦
      let p1 = acquired pci_device p in
      elim env.request_regions [
        | failed e ↦ (error_regions p1, failed e)
        | ok n ↦ map_second_bar env (map_pci_bar (acquired regions p1) 0 0 env)
      ]
]

pub tpce_pci_free : Probe → Probe
tpce_pci_free p =
    let p1 = released irq_vectors (released irq p) in
    released pci_device (released regions (unmap_bar 1 (unmap_bar 0 p1)))
