-- ===== src/Request/Ioctl.antt =====
-- linux/request.c: the handlers of the ioctl commands and their dispatch, and from linux/main.c the
-- commands that are not dispatched, the release of a file, and the ends of a memory mapping. The
-- buffer of a command is taken as the value that the command reads from it.
use tpce2drv.Prelude.{
  u32, ℕ, ◌==◌, leb, ltb, if◌then◌else◌, Bool, false, not, ◌&&◌, ◌||◌, Option, none, some, List, [],
  ◌∷◌, max, update, ◌-◌, ◌^◌, ◌%◌,
}
use tpce2drv.Types.{MapInfo, num_channels}
use tpce2drv.Device.{
  Tpce, ChannelState, idle, initialized, running, complete, error, illegal, Errno, einval, eio,
  enosys, enotty, eperm, enodev, enomem, efault, kernel, Result, failed, ok,
}
use tpce2drv.Dma.Stop.{Polls, tpce_dma_abort}
use tpce2drv.Buffers.{
  BufIn, LockEnv, Mapped, error_ptr, null_ptr, mapping, tpce_dma_lock_user_buffer,
}
use tpce2drv.Request.{
  Request, Env, validate_dma_request, dma_execute, reset_dma_info, tpce_safe_dma_unmap,
}
use tpce2drv.Request.Legacy.{Read, DataRead, StepEnv, ioc_dma_read_request, ioc_dma_read_request_a}

-- `T_PCI_DEV_REG`
pub record DevReg : Type 0 where
  pub offset : ℕ
  pub addr_space : ℕ
  pub size : ℕ
  pub value : ℕ

-- The access that a register command makes: the address space, the offset, the bytes and, for a
-- write, the value. Without one the source returns 0 or does nothing.
pub record Access : Type 0 where
  pub addr_space : ℕ
  pub offset : ℕ
  pub bytes : ℕ
  pub value : ℕ

abbrev is_width : ℕ → Bool
is_width size = size == 1 || size == 2 || size == 4

-- `ioc_bar_read`: the access, if there is one. `bar_size` are the sizes of the BARs.
abbrev pub ioc_bar_read : (ℕ → ℕ) → DevReg → Option Access
ioc_bar_read bar_size r =
    if ltb (bar_size r.addr_space) r.offset || not (is_width r.size)
    then none
    else some (record { addr_space = r.addr_space; offset = r.offset; bytes = r.size; value = 0 })

pub ioc_bar_write : (ℕ → ℕ) → DevReg → Result (Option Access)
ioc_bar_write bar_size r =
    if ltb (bar_size r.addr_space) r.offset
    then failed einval
    else if is_width r.size
    then ok (
        some (record {
          addr_space = r.addr_space;
          offset = r.offset;
          bytes = r.size;
          value = r.value % 2 ^ (if r.size == 1 then 8 else if r.size == 2 then 16 else 32);
        }))
    else ok none

-- `ioc_config_readwrite` on the width of the access; the access itself is the kernel's.
pub ioc_config_readwrite : ℕ → Result ℕ
ioc_config_readwrite size = if is_width size then ok 0 else failed einval

-- A file context keeps the ids of the mappings that it owns, in order.
pub record Session : Type 0 where
  pub device : Tpce
  pub sublist : List ℕ

abbrev pub remove_id : ℕ → List ℕ → List ℕ
remove_id id [] = []
remove_id id (x ∷ xs) = if x == id then xs else x ∷ remove_id id xs

abbrev pub add_last : List ℕ → ℕ → List ℕ
add_last [] id = id ∷ []
add_last (x ∷ xs) id = x ∷ add_last xs id

-- What `ioc_lock_dma_buffer` does with the mapping: it is stored, and gets its owner. A null pointer
-- passes the test `IS_ERR` and is then written through.
unfoldable pub keep_mapping : Session → ℕ → Mapped → Session × Result ℕ
keep_mapping s ctx (error_ptr e) = (s, failed e)
keep_mapping s ctx null_ptr = (s, failed Errno.undefined)
keep_mapping s ctx (mapping m) = (
  record {
    device = record s.device {
      dma_mappings = update s.device.dma_mappings m.id (some (record m { owner = some ctx }));
    };
    sublist = add_last s.sublist m.id;
  },
  ok m.id,
)

pub ioc_lock_dma_buffer : Session → ℕ → BufIn → LockEnv → Session × Result ℕ
unfolding keep_mapping
ioc_lock_dma_buffer s ctx b env = keep_mapping s ctx (tpce_dma_lock_user_buffer b env).1

abbrev pub is_owner : MapInfo → ℕ → Bool
is_owner m ctx = elim m.owner [ none ↦ false | some o ↦ o == ctx ]

pub ioc_unlock_dma_buffer : Session → ℕ → ℕ → Polls → Session × Result ℕ
ioc_unlock_dma_buffer s ctx id polls = elim (s.device.dma_mappings id) [
  | none ↦ (s, failed einval)
  | some m ↦ if not (is_owner m ctx) then (s, failed eperm) else (
    record { device = tpce_safe_dma_unmap s.device id m polls; sublist = remove_id id s.sublist },
    ok 0,
  )
]

pub ioc_dma_execute : Tpce → ℕ → Request → Env → Tpce × Result ℕ
ioc_dma_execute t ctx req env = elim (validate_dma_request t req (some ctx)) [
  | failed e ↦ (t, failed e)
  | ok n ↦ dma_execute t req env
]

pub ioc_dma_cancel : Tpce → ℕ → Polls → Tpce × Result ℕ
ioc_dma_cancel t channel polls =
    if leb num_channels channel
    then (t, failed einval)
    else (reset_dma_info (tpce_dma_abort t channel polls) channel polls, ok 0)

-- The commands, with what they read from their buffer
pub data Command : Type 0 where
  bar_read bar_write : DevReg → Command
  bar_block_read bar_block_write event dma_flush dma_status : Command
  lock_buffer : BufIn → LockEnv → Command
  unlock_buffer : (id : ℕ) → Polls → Command
  dma_read : (dst : ℕ) → Read → (ℕ → StepEnv) → Command
  dma_write : Command
  config_readwrite : (size : ℕ) → Command
  dma_read2 : DataRead → (ℕ → StepEnv) → Command
  execute : Request → Env → Command
  cancel : (channel : ℕ) → Polls → Command
  unknown : Command

-- The size of the buffer that `validate_size` asks for: the larger of the sizes of the two types.
-- 0 where there is no such test.
pub required_size : Command → ℕ
required_size (bar_read r) = 24
required_size (bar_write r) = 24
required_size (lock_buffer b env) = 32
required_size (unlock_buffer id polls) = 4
required_size (dma_read dst r envs) = 24
required_size dma_write = 24
required_size (config_readwrite size) = 16
required_size (dma_read2 d envs) = 88
required_size (execute req env) = 64
required_size (cancel channel polls) = 4
required_size _ = 0

abbrev on_device : Session → Tpce × Result ℕ → Session × Result ℕ
on_device s (t, r) = (record s { device = t }, r)

abbrev written : Session → Result (Option Access) → Session × Result ℕ
written s (failed e) = (s, failed e)
written s (ok a) = (s, ok 0)

-- The handler that each command is given to.
pub handle : Session → ℕ → (ℕ → ℕ) → Command → Session × Result ℕ
unfolding ioc_bar_write ioc_config_readwrite ioc_lock_dma_buffer ioc_unlock_dma_buffer
    ioc_dma_execute ioc_dma_cancel
handle s ctx bar_size (bar_read r) = (s, ok 0)
handle s ctx bar_size (bar_write r) = written s (ioc_bar_write bar_size r)
handle s ctx bar_size (lock_buffer b env) = ioc_lock_dma_buffer s ctx b env
handle s ctx bar_size (unlock_buffer id polls) = ioc_unlock_dma_buffer s ctx id polls
handle s ctx bar_size (dma_read dst r envs) = on_device s (ioc_dma_read_request s.device dst r envs)
handle s ctx bar_size dma_write = (s, failed enosys)
handle s ctx bar_size (config_readwrite size) = (s, ioc_config_readwrite size)
handle s ctx bar_size (dma_read2 d envs) = on_device s (ioc_dma_read_request_a s.device d envs)
handle s ctx bar_size (execute req env) = on_device s (ioc_dma_execute s.device ctx req env)
handle s ctx bar_size (cancel channel polls) = on_device s (ioc_dma_cancel s.device channel polls)
handle s ctx bar_size event = (s, failed eio)
handle s ctx bar_size dma_status = (s, failed eio)
handle s ctx bar_size unknown = (s, failed enotty)
handle s ctx bar_size _ = (s, failed enosys)

pub tpce_dispatch_ioc : Session → ℕ → (ℕ → ℕ) → ℕ → Command → Session × Result ℕ
unfolding required_size handle
tpce_dispatch_ioc s ctx bar_size size command =
    if ltb size (required_size command) then (s, failed einval) else handle s ctx bar_size command

-- How the copies of the buffer from and to user space and its allocation end, in `tpce_ioctl`.
pub record CopyEnv : Type 0 where
  pub interrupted : Bool
  pub has_memory : Bool
  pub copied_in : Bool
  pub copied_out : Bool

-- TPCE_IOBUFFERSIZE
abbrev pub io_buffer_size : ℕ
io_buffer_size = 128

-- The end of `tpce_ioctl`, where the result is copied out.
abbrev copy_out : ℕ → CopyEnv → Session × Result ℕ → Session × Result ℕ
copy_out out_size env (s, failed e) = (s, failed e)
copy_out out_size env (s, ok n) =
    if ltb 0 out_size && not env.copied_out then (s, failed efault) else (s, ok n)

-- `tpce_ioctl` for the commands that are dispatched; -EINTR is the kernel's 4. The size of the buffer is a
-- `u32`. A copy of more bytes than `INT_MAX` fails in `copy_from_user`.
abbrev pub tpce_ioctl : Session → ℕ → (ℕ → ℕ) → ℕ → ℕ → CopyEnv → Command → Session × Result ℕ
unfolding tpce_dispatch_ioc
tpce_ioctl s ctx bar_size in_size out_size env command =
    let size = u32 (max in_size out_size) in
    if env.interrupted
    then (s, failed (kernel 4))
    else if s.device.going_away
    then (s, failed enodev)
    else if ltb io_buffer_size size && not env.has_memory
    then (s, failed enomem)
    else if ltb 0 in_size && not env.copied_in
    then (s, failed efault)
    else copy_out out_size env (tpce_dispatch_ioc s ctx bar_size size command)

-- The number that TPCE_IOC_DMA_STATUS gives for a state.
abbrev pub state_number : ChannelState → ℕ
state_number idle = 0
state_number initialized = 1
state_number running = 3
state_number complete = 4
state_number error = 5
state_number (illegal n) = n

-- TPCE_IOC_DMA_STATUS. Its input is copied to the device's buffer without a test of its size.
abbrev pub ioc_dma_status : Tpce → ℕ → CopyEnv → ℕ → Result ℕ
ioc_dma_status t in_size env channel =
    if ltb io_buffer_size in_size
    then failed Errno.undefined
    else if not env.copied_in
    then failed efault
    else if leb num_channels channel
    then failed einval
    else if not env.copied_out
    then failed efault
    else ok (state_number (t.dma_info channel).state)

-- `tpce_compat_ioctl`
abbrev pub tpce_compat_ioctl : Command → Result ℕ
tpce_compat_ioctl command = failed enotty

-- The loop of `tpce_release` over the mappings of the file.
unfoldable pub release_all : Tpce → List ℕ → Polls → Tpce
release_all t [] polls = t
release_all t (id ∷ ids) polls = elim (t.dma_mappings id) [
  | none ↦ release_all t ids polls
  | some m ↦ release_all (tpce_safe_dma_unmap t id m polls) ids polls
]

-- `tpce_release`: the device, and whether it is freed with the last reference.
abbrev pub tpce_release : Session → Polls → Tpce × Bool
tpce_release s polls =
    let t = release_all s.device s.sublist polls in (record t { refs = t.refs - 1 }, t.refs == 1)
