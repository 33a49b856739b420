-- ===== src/Request/Legacy.antt =====
-- linux/request.c: the older requests, which read into the driver's buffer and copy from there. The
-- two parts of `ioc_dma_read_request_a` are the plan, the reads and copies that it makes, and the
-- execution of the plan. An `unsigned int` wraps at 32 bits.
pub mod Ring
pub mod Plans
pub mod Delivered
pub mod Short
mod Examples
use tpce2drv.Prelude.{
  ℕ, suc, ◌+◌, ◌-◌, ◌*◌, ◌/◌, ◌%◌, ◌^◌, ◌==◌, leb, ltb, if◌then◌else◌, Bool, false, not, ◌&&◌, ◌||◌,
  none, some, List, [], ◌∷◌, ◌++◌, bit_and, u16, u32, u8, sub32,
}
use tpce2drv.Types.{zero_params, channel_info, from_device, mode_default, num_channels}
use tpce2drv.Device.{Tpce, einval, enodev, efault, Result, failed, ok}
use tpce2drv.Request.{Request, Env, validate_dma_request, dma_execute}

-- TPCE_DMA_DRIVER_BUFFER_ID and TPCE_DMA_DRIVER_BUFFER_SIZE
abbrev pub driver_buffer_id : ℕ
driver_buffer_id = 1

abbrev pub driver_buffer_size : ℕ
driver_buffer_size = 1024 * 1024

-- A read into the driver's buffer
pub record Read : Type 0 where
  pub device_addr : ℕ
  pub bytes_total : ℕ
  pub read_stride : ℕ
  pub write_stride : ℕ
  pub channel : ℕ
  pub burst_count : ℕ

-- The request that `read_kernel_dma_buffer` makes.
pub kernel_request : Read → Request
kernel_request r =
    let ci = channel_info r.channel in
    record {
      id = driver_buffer_id;
      params = record zero_params {
        device_addr = r.device_addr;
        bytes_total = r.bytes_total;
        read_stride = if ci.max_stride == 0 then 0 else r.read_stride;
        write_stride = if ci.max_stride == 0 then 0 else r.write_stride;
        channel = r.channel;
        burst_count = if ci.max_burst == 0 then 0 else r.burst_count;
        transfer_mode = mode_default;
        direction = from_device;
      };
      descriptors = false;
      descriptors_size = 0;
      descriptors_type = 0;
    }

abbrev pub read_kernel_dma_buffer : Tpce → Read → Env → Tpce × Result ℕ
unfolding kernel_request
read_kernel_dma_buffer t r env =
    if leb num_channels r.channel || ltb driver_buffer_size r.bytes_total
    then (t, failed einval)
    else elim (validate_dma_request t (kernel_request r) none) [
      | failed e ↦ (t, failed e)
      | ok n ↦ dma_execute t (kernel_request r) env
    ]

-- A copy from the driver's buffer to user space, at an offset of each
pub record Copy : Type 0 where
  pub dst : ℕ
  pub copy_offset : ℕ
  pub copy_len : ℕ

abbrev has_kernel_buffer : Tpce → Bool
has_kernel_buffer t = elim (t.dma_mappings driver_buffer_id) [ none ↦ false | some m ↦ m.buf_drv ]

-- `copied` tells whether `copy_to_user` succeeds, if it is called.
abbrev pub copy_kernel_dma_to_user : Tpce → Copy → Bool → Result ℕ
copy_kernel_dma_to_user t c copied =
    if c.copy_len == 0
    then ok 0
    else if not (has_kernel_buffer t)
    then failed enodev
    else if ltb driver_buffer_size c.copy_offset
        || ltb (driver_buffer_size - c.copy_offset) c.copy_len
    then failed einval
    else if copied
    then ok 0
    else failed efault

pub data Step : Type 0 where
  read : Read → Step
  copy : Copy → Step

-- What each step meets.
pub record StepEnv : Type 0 where
  pub env : Env
  pub copied : Bool

-- The steps one after the other, up to the first error. `envs` gives what the n-th step meets.
pub run_steps : Tpce → List Step → (ℕ → StepEnv) → Tpce × Result ℕ
run_steps t [] envs = (t, ok 0)
run_steps t (read r ∷ steps) envs =
    let (t1, res) = read_kernel_dma_buffer t r (envs 0).env in
    elim res [ failed e ↦ (t1, failed e) | ok n ↦ run_steps t1 steps (λ k. envs (suc k)) ]
run_steps t (copy c ∷ steps) envs = elim (copy_kernel_dma_to_user t c (envs 0).copied) [
  | failed e ↦ (t, failed e)
  | ok n ↦ run_steps t steps (λ k. envs (suc k))
]

-- `read_kernel_dma_to_user`
abbrev pub read_to_user : ℕ → Read → ℕ → ℕ → List Step
read_to_user dst r copy_offset copy_len =
    read r ∷ copy (record { dst = dst; copy_offset = copy_offset; copy_len = copy_len }) ∷ []

abbrev pub ioc_dma_read_request : Tpce → ℕ → Read → (ℕ → StepEnv) → Tpce × Result ℕ
unfolding run_steps
ioc_dma_read_request t dst r envs = run_steps t (read_to_user dst r 0 r.bytes_total) envs

-- The fields of `T_DMA_TPCE_DATA_READ` that the code reads
pub record DataRead : Type 0 where
  pub address : ℕ
  pub input : ℕ
  pub dma_channel : ℕ
  pub mux8_channel_en : ℕ
  pub next_address : ℕ
  pub addr_block_size : ℕ
  pub addr_block_nr : ℕ
  pub count : ℕ
  pub data_ptr : ℕ
  pub burst_count : ℕ

-- `~((in->AddrBlockSize * 2) - 1)`
pub block_mask : DataRead → ℕ
block_mask d = 2 ^ 32 - 1 - sub32 (u32 (d.addr_block_size * 2)) 1

-- `x & 0xFFFFFFF8`
abbrev pub round8 : ℕ → ℕ
round8 x = bit_and x 0xFFFFFFF8

pub ch_addr : DataRead → ℕ
ch_addr d =
    if d.mux8_channel_en == 0
    then if ltb d.input 4 then d.input * 0x10000000 else 0
    else if ltb d.input 8
    then d.input * 0x8000000
    else 0

abbrev pub stride : DataRead → ℕ
stride d = u16 d.next_address

abbrev pub overread : DataRead → ℕ
overread d = if d.address % 4 * 2 == 0 && stride d == 1 then 0 else 8

abbrev pub read_of : DataRead → ℕ → ℕ → Read
read_of d device_addr bytes_total = record {
  device_addr = device_addr;
  bytes_total = bytes_total;
  read_stride = stride d;
  write_stride = 1;
  channel = u8 d.dma_channel;
  burst_count = d.burst_count;
}

abbrev pub block_addr : DataRead → ℕ
block_addr d = u32 (d.addr_block_nr * d.addr_block_size * 2)

-- The branch without a roll-over of the address.
pub plan_straight : DataRead → List Step
unfolding block_mask ch_addr
plan_straight d =
    let over = overread d in
    let over1 = if ltb (u32 (round8 d.count + over)) d.count then over + 8 else over in
    let masked = bit_and (u32 (d.address * 2)) (2 ^ 32 - 1 - block_mask d) in
    let dev_addr = u32 (0x40000000 + masked + block_addr d + ch_addr d) in
    let dma_len = if ltb d.count 8 then 16 else u32 (round8 d.count + over1) in
    read_to_user d.data_ptr (read_of d (round8 dev_addr) dma_len) (d.address % 4 * 2) d.count

-- The branch for a count beyond the block: the whole block is read, and copied in two parts.
pub plan_block : DataRead → List Step
unfolding ch_addr
plan_block d =
    let dev_addr = u32 (0x40000000 + block_addr d + ch_addr d) in
    let upper = u32 (sub32 d.addr_block_size d.address * 2) in
    read (read_of d (round8 dev_addr) (u32 (round8 d.count + overread d)))
    ∷ copy (record { dst = d.data_ptr; copy_offset = u32 (d.address * 2); copy_len = upper })
    ∷ copy (record { dst = d.data_ptr + upper; copy_offset = 0; copy_len = u32 (d.address * 2) })
    ∷ []

-- The first count and the offset of the branch below. Here the stride is not 0, since with stride
-- 0 the address does not roll over.
abbrev pub first_count : DataRead → ℕ → ℕ × ℕ
first_count d room =
    let whole = room / stride d in
    let rest = room % stride d in
    if stride d == 1
    then (room, 0)
    else if rest == 0
    then (whole, 0)
    else (u32 (bit_and whole 0xFFFFFFFE + 2), rest)

-- A read of `lcount` bytes from `start` and one of `lcount2` bytes from `dev_addr2`
abbrev pub read_parts : DataRead → ℕ → ℕ → ℕ → ℕ → ℕ → List Step
read_parts d start lcount offset dev_addr2 lcount2 =
    let len1 = u32 (round8 lcount + overread d) in
    let len2 = u32 (round8 lcount2 + overread d) in
    (if lcount == 0 then [] else read_to_user d.data_ptr (read_of d start len1) offset lcount)
    ++ (if lcount2 == 0
        then []
        else read_to_user (d.data_ptr + lcount)
            (read_of d dev_addr2 (if ltb len2 8 then 16 else len2)) 0 lcount2)

-- The branch that reads in two parts, up to the end of the block and from its start. The test
-- `lcount + lcount2 != Count` never holds for numbers that wrap.
pub plan_split : DataRead → List Step
unfolding block_mask ch_addr
plan_split d =
    let masked = bit_and (u32 (d.address * 2)) (2 ^ 32 - 1 - block_mask d) in
    let dev_addr = u32 (0x40000000 + masked + block_addr d + ch_addr d) in
    let block_start = bit_and masked (block_mask d) in
    let block_end = u32 (block_start + d.addr_block_size * 2) in
    let (lcount, offset) = first_count d (sub32 block_end masked) in
    let lcount2 = sub32 d.count lcount in
    let start = if stride d == 1 then round8 dev_addr else bit_and dev_addr 0xFFFFFFFE in
    let dev_addr2 = u32 (0x40000000 + block_start + block_addr d + offset + ch_addr d) in
    read_parts d start lcount offset dev_addr2 lcount2

-- `a1 == a2`: the last byte lies in the same block as the first. For stride 1 the product is the
-- count, so that both branches of the source are this one.
pub rolls_over : DataRead → Bool
unfolding block_mask
rolls_over d =
    let a1 = bit_and (u32 (d.address * 2)) (block_mask d) in
    let a2 = bit_and (u32 (d.address * 2 + d.count * stride d)) (block_mask d) in not (a1 == a2)

pub plan_read : DataRead → List Step
unfolding plan_straight plan_block plan_split rolls_over
plan_read d =
    if not (rolls_over d)
    then plan_straight d
    else if ltb d.addr_block_size (d.count / 2)
    then plan_block d
    else plan_split d

abbrev pub ioc_dma_read_request_a : Tpce → DataRead → (ℕ → StepEnv) → Tpce × Result ℕ
unfolding run_steps plan_read
ioc_dma_read_request_a t d envs =
    if leb num_channels d.dma_channel || ltb driver_buffer_size d.count
    then (t, failed einval)
    else run_steps t (plan_read d) envs
