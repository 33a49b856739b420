-- ===== src/Lifecycle/Device.antt =====
-- linux/main.c: the start and the removal of a device, and from linux/dma.c the first and the last
-- function of its DMA part. Locks, wait queues, work structures and messages are left out.
pub mod Balance
pub mod Removal
use tpce2drv.Prelude.{
  ℕ, ◌+◌, ◌-◌, ◌*◌, ◌==◌, leb, if◌then◌else◌, Bool, true, false, not, ◌||◌, none, some, is_some, [],
  ◌∷◌, update,
}
use tpce2drv.Types.{bidirectional}
use tpce2drv.PageTable.{empty_table}
use tpce2drv.Device.{
  Tpce, idle, idle_info, enomem, eio, enodev, Errno, Result, failed, ok, with_info, iowrite32,
}
use tpce2drv.Dma.Stop.{Polls, tpce_dma_free_descriptors_mem}
use tpce2drv.Buffers.{AllocEnv, error_ptr, null_ptr, mapping, Mapped, tpce_dma_alloc_buffer}
use tpce2drv.Request.{reset_dma_info}
use tpce2drv.Request.Ioctl.{Session}
use tpce2drv.Request.Legacy.{driver_buffer_id, driver_buffer_size}
use tpce2drv.Interrupts.{irq_enable_reg}
use tpce2drv.Ledger.{acquire, release}
use tpce2drv.Lifecycle.{
  memory, io_buffer, minor_number, tasklet, driver_buffer, cdev, device, Bar, Probe, PciEnv,
  acquired, released, tpce_pci_init, tpce_pci_free,
}

-- What a call that creates an object gives: a null pointer, an error pointer, or the object
pub data Created : Type 0 where
  absent broken created : Created

-- What the start of a device meets. `minor` is what `ida_alloc_range` gives.
pub record InitEnv : Type 0 where
  pub has_memory : Bool
  pub has_io_buffer : Bool
  pub minor : Result ℕ
  pub pci : PciEnv
  pub dma_mask : Result ℕ
  pub buffer : AllocEnv
  pub add_cdev : Result ℕ
  pub create_device : Created
  pub polls : ℕ → Polls

abbrev pub zero_tpce : Tpce
zero_tpce = record {
  dma_mappings = λ _. none;
  page_table = empty_table;
  dma_info = λ _. idle_info;
  hw_status = 0;
  hw_pending = false;
  irqsrc = 0;
  fast_irq_mask = 0;
  refs = 0;
  going_away = false;
  bar2_writes = [];
}

abbrev pub zero_bar : Bar
zero_bar = record { paddr = 0; size = 0; vaddr = 0 }

-- The end of `tpce_dma_init`; the buffer's id is fixed.
abbrev pub keep_driver_buffer : Tpce → Mapped → Tpce × Result ℕ
keep_driver_buffer t (error_ptr e) = (t, failed e)
keep_driver_buffer t null_ptr = (t, ok 0)
keep_driver_buffer t (mapping m) = (
  record t {
    dma_mappings =
        update t.dma_mappings driver_buffer_id (some (record m { id = driver_buffer_id }));
  },
  ok 0,
)

pub tpce_dma_init : Tpce → Result ℕ → AllocEnv → Tpce × Result ℕ
tpce_dma_init t dma_mask env = elim dma_mask [
  | failed e ↦ (t, failed e)
  | ok n ↦
      keep_driver_buffer (record t { dma_mappings = λ _. none })
        (tpce_dma_alloc_buffer driver_buffer_size bidirectional env).1
]

-- `tpce_dma_free`: all mappings, then the descriptor buffers of the channels.
pub tpce_dma_free : Tpce → (ℕ → Polls) → Tpce
tpce_dma_free t polls =
    let t0 = tpce_dma_free_descriptors_mem (record t { dma_mappings = λ _. none }) 0 (polls 0) in
    let t1 = tpce_dma_free_descriptors_mem t0 1 (polls 1) in
    tpce_dma_free_descriptors_mem t1 2 (polls 2)

-- Both, with what they do to the driver's own buffer.
abbrev pub has_driver_buffer : Tpce → Bool
has_driver_buffer t = is_some (t.dma_mappings driver_buffer_id)

abbrev pub started_dma : Probe → Tpce × Result ℕ → Probe × Result ℕ
started_dma p (t, failed e) = (record p { tpce = t }, failed e)
started_dma p (t, ok n) = (
  record p { tpce = t; log = if has_driver_buffer t then acquire driver_buffer ∷ p.log else p.log },
  ok n,
)

abbrev pub start_dma : InitEnv → Probe → Probe × Result ℕ
unfolding tpce_dma_init
start_dma env p = started_dma p (tpce_dma_init p.tpce env.dma_mask env.buffer)

abbrev pub free_dma : (ℕ → Polls) → Probe → Probe
unfolding tpce_dma_free
free_dma polls p = record p {
  tpce = tpce_dma_free p.tpce polls;
  log = if has_driver_buffer p.tpce then release driver_buffer ∷ p.log else p.log;
}

-- The entry of a device in `tpce_devices`, and the driver data of the PCI device
abbrev pub register : ℕ → Probe → Probe
register minor p = record p {
  devs = update p.devs minor true;
  count = p.count + 1;
  drvdata = true;
  minor = minor;
  tpce = record p.tpce { refs = 1; going_away = false };
}

abbrev pub unregister : Probe → Probe
unregister p = record p { devs = update p.devs p.minor false; count = p.count - 1; drvdata = false }

-- The labels of `tpce_device_init`, from the last one up.
abbrev pub error_alloc2 : Probe → Probe
error_alloc2 p = released memory p

abbrev pub error_ida : Probe → Probe
error_ida p = error_alloc2 (released io_buffer p)

abbrev pub error_pci_init : Probe → Probe
error_pci_init p = error_ida (released minor_number (unregister (released tasklet p)))

abbrev pub error_dma_init : Probe → Probe
unfolding tpce_pci_free
error_dma_init p = error_pci_init (tpce_pci_free p)

abbrev pub error_cdev_add : (ℕ → Polls) → Probe → Probe
error_cdev_add polls p = error_dma_init (free_dma polls p)

abbrev pub error_device_create : (ℕ → Polls) → Probe → Probe
error_device_create polls p = error_cdev_add polls (released cdev p)

-- The states of the channels and the events, set after `tpce_pci_init`.
abbrev pub reset_events : Tpce → Tpce
reset_events t = record t {
  hw_status = 0;
  hw_pending = false;
  dma_info = λ ch. if leb 3 ch then t.dma_info ch else record (t.dma_info ch) { state = idle };
}

-- What `device_create` gives, once the character device is added. An error pointer from `device_create` passes the
-- test and is then read through; the sysfs attribute may be missing.
abbrev pub device_of : InitEnv → Probe → Created → Probe × Result ℕ
device_of env p absent = (error_device_create env.polls (acquired cdev p), failed eio)
device_of env p broken = (acquired cdev p, failed Errno.undefined)
device_of env p created = (acquired device (acquired cdev p), ok 0)

-- `tpce_device_init` once the DMA part is started.
pub add_device : InitEnv → Probe × Result ℕ → Probe × Result ℕ
unfolding error_dma_init
add_device env (p, failed e) = (error_dma_init p, failed eio)
add_device env (p, ok n) = elim env.add_cdev [
  | failed e ↦ (error_cdev_add env.polls p, failed e)
  | ok n ↦ device_of env p env.create_device
]

-- `tpce_device_init` once the PCI resources are there.
pub init_dma : InitEnv → Probe × Result ℕ → Probe × Result ℕ
unfolding add_device tpce_dma_init
init_dma env (p, failed e) = (error_pci_init p, failed e)
init_dma env (p, ok n) = add_device env (start_dma env (record p { tpce = reset_events p.tpce }))

-- `tpce_device_init` once `find_free_minor` has returned; where that is a negative number the source
-- leaves `ret` at 0.
abbrev pub take_minor : InitEnv → Probe → Result ℕ → Probe × Result ℕ
take_minor env p (failed e) = (error_ida p, failed eio)
take_minor env p (ok minor) =
    init_dma env
      (tpce_pci_init (acquired tasklet (register minor (acquired minor_number p))) env.pci)

-- `kzalloc` of the device
abbrev pub allocated : Probe → Probe
allocated p = acquired memory (record p { tpce = zero_tpce; bars = λ _. zero_bar })

pub tpce_device_init : Probe → InitEnv → Probe × Result ℕ
unfolding init_dma tpce_pci_init
tpce_device_init p env =
    let started = take_minor env (acquired io_buffer (allocated p)) env.minor in
    if not env.has_memory
    then (p, failed enomem)
    else if not env.has_io_buffer
    then (error_alloc2 (allocated p), failed enomem)
    else started

-- The first half of `tpce_device_remove`: no new user, no new interrupt, every channel free.
pub shut_down : Tpce → (ℕ → Polls) → Tpce
shut_down t polls =
    let t1 = iowrite32 (record t { going_away = true }) irq_enable_reg 0 in
    reset_dma_info (reset_dma_info (reset_dma_info t1 0 (polls 0)) 1 (polls 1)) 2 (polls 2)

-- `refcount_dec_and_test` and `kfree` at the end of the removal
abbrev pub drop_reference : Probe → Probe
drop_reference p = record p {
  tpce = record p.tpce { refs = p.tpce.refs - 1 };
  log = if p.tpce.refs == 1 then release memory ∷ p.log else p.log;
}

pub tpce_device_remove : Probe → (ℕ → Polls) → Probe
unfolding shut_down tpce_pci_free tpce_dma_free
tpce_device_remove p polls =
    let p1 = released tasklet (released cdev (released device p)) in
    let p2 = tpce_pci_free (free_dma polls (record p1 { tpce = shut_down p.tpce polls })) in
    if p.drvdata
    then drop_reference (released io_buffer (released minor_number (unregister p2)))
    else p

-- `tpce_open`; `t` is the device that the entry in `tpce_devices` points to.
abbrev pub tpce_open : (ℕ → Bool) → ℕ → Tpce → Bool → Result Session
tpce_open devs minor t has_memory =
    if leb 16 minor || not (devs minor)
    then failed enodev
    else if t.going_away
    then failed enodev
    else if not has_memory
    then failed enomem
    else ok (record { device = record t { refs = t.refs + 1 }; sublist = [] })
