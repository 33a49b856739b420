-- ===== src/Lifecycle/Examples.antt =====
-- Starts that fail late, a removal, and the loading of the driver, at concrete values.
use tpce2drv.Prelude.{◌==◌, if◌then◌else◌, refl, arith, true, false, [], ◌∷◌, some}
use tpce2drv.Ledger.{acquire, held}
use tpce2drv.Device.{enomem, ebusy, failed, ok}
use tpce2drv.Device.Sample.{running_device, sample_mapping}
use tpce2drv.Dma.Stop.{Polls}
use tpce2drv.Buffers.{AllocEnv}
use tpce2drv.Lifecycle.{
  Probe, PciEnv, tpce_pci_init, memory, io_buffer, minor_number, tasklet, pci_device, regions,
  irq_vectors, irq, bar, driver_buffer, cdev, device,
}
use tpce2drv.Lifecycle.Pci.{HoldsPci, pci_init-HoldsPci}
use tpce2drv.Lifecycle.Device.{
  InitEnv, broken, created, zero_tpce, zero_bar, tpce_device_init, tpce_device_remove,
}
use tpce2drv.Lifecycle.Device.Balance.{IsStarted, device_init-IsStarted}
use tpce2drv.Lifecycle.Device.Removal.{IsRemoved, device_remove-IsRemoved}
use tpce2drv.Lifecycle.Module.{Driver, DriverEnv, IsLoaded, drv_init, drv_init-IsLoaded}

abbrev empty_probe : Probe
empty_probe = record {
  devs = λ _. false;
  count = 0;
  drvdata = false;
  tpce = zero_tpce;
  minor = 0;
  bars = λ _. zero_bar;
  irq_number = 0;
  bus_master = false;
  log = [];
}

-- The interrupt is taken.
abbrev no_irq : PciEnv
no_irq = record {
  enable = ok 0;
  request_regions = ok 0;
  start = λ i. 0xf0000000;
  len = λ i. 4096;
  ioremap = λ i. 0x1000;
  alloc_irq_vectors = ok 1;
  irq_vector = 33;
  request_irq = failed ebusy;
}

pci_init-HoldsPci_example : HoldsPci [] (tpce_pci_init empty_probe no_irq)
unfolding held
pci_init-HoldsPci_example = pci_init-HoldsPci empty_probe no_irq [] refl refl refl

abbrev in_time : Polls
in_time = record { prefetcher_timeout = false; csr_state = 0; stop_timeout = false }

abbrev all_memory : AllocEnv
all_memory = record {
  has_info = true;
  has_pages = true;
  has_virtual = true;
  sg_alloc = ok 0;
  dma_map = ok [];
  xa = ok 0;
}

-- All goes well up to the character device.
abbrev no_cdev : InitEnv
no_cdev = record {
  has_memory = true;
  has_io_buffer = true;
  minor = ok 3;
  pci = record no_irq { request_irq = ok 0 };
  dma_mask = ok 0;
  buffer = all_memory;
  add_cdev = failed enomem;
  create_device = created;
  polls = λ _. in_time;
}

device_init-IsStarted_example :
    IsStarted empty_probe.devs 0 [] (tpce_device_init empty_probe no_cdev)
unfolding held
device_init-IsStarted_example =
    device_init-IsStarted empty_probe no_cdev [] refl (λ e. absurd (cc e)) (λ m e. refl)

-- A device with its own buffer that is running a transfer, and a second file that is open.
abbrev running_probe : Probe
running_probe = record empty_probe {
  devs = λ i. i == 3;
  count = 1;
  drvdata = true;
  minor = 3;
  tpce = record running_device {
    dma_mappings = λ id. if id == 1 then some sample_mapping else running_device.dma_mappings id;
    refs = 2;
  };
  bars = λ i. record { paddr = 0xf0000000; size = 4096; vaddr = 0x1000 };
  log =
      acquire device
      ∷ acquire cdev
      ∷ acquire driver_buffer
      ∷ acquire irq
      ∷ acquire irq_vectors
      ∷ acquire (bar 1)
      ∷ acquire (bar 0)
      ∷ acquire regions
      ∷ acquire pci_device
      ∷ acquire tasklet
      ∷ acquire minor_number
      ∷ acquire io_buffer
      ∷ acquire memory
      ∷ [];
}

device_remove-IsRemoved_example :
    IsRemoved [] running_probe (tpce_device_remove running_probe (λ _. in_time))
unfolding held
device_remove-IsRemoved_example =
    device_remove-IsRemoved running_probe (λ _. in_time) [] refl (λ e. absurd (omega arith))
      (λ e. absurd (omega arith)) refl

abbrev unloaded : Driver
unloaded = record { devs = λ _. true; count = 7; cl = broken; log = [] }

-- The class cannot be made, and then the driver cannot be registered.
abbrev no_class : DriverEnv
no_class = record { alloc_region = ok 0; create_class = broken; register = failed ebusy }

drv_init-IsLoaded_example : IsLoaded [] (drv_init unloaded no_class)
unfolding held
drv_init-IsLoaded_example = drv_init-IsLoaded unloaded no_class [] refl
