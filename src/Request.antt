-- ===== src/Request.antt =====
-- linux/request.c: the checks of a request, the set-up of a channel, the run of a transfer, and the
-- release of the channel. What the kernel and the hardware do is in `Env`.
pub mod Stream
pub mod Ioctl
pub mod Legacy
pub mod Laws
pub mod Init
pub mod Reset
pub mod Unmap
mod Examples
use tpce2drv.Prelude.{
  ℕ, zero, suc, ◌+◌, ◌-◌, ◌*◌, ◌/◌, ◌%◌, ◌^◌, ◌==◌, leb, ltb, if◌then◌else◌, Bool, true, false, not,
  ◌&&◌, ◌||◌, Option, none, some, ℤ, pos, negsuc, pos_part, u32, update,
}
use tpce2drv.Types.{
  Descriptor, descriptor_size, TransferParams, zero_params, MapInfo, ChannelInfo, channel_info,
  bidirectional, to_device, from_device, mode_default, mode_stream, num_channels,
}
use tpce2drv.PageTable.{pcie_page_free_by_channel_id}
use tpce2drv.Descriptors.{tpce_max_descriptors_needed}
use tpce2drv.Descriptors.Params.{DmaErr, invalid_chn, ParamCheck, flags, tpce_validate_dma_params}
use tpce2drv.Descriptors.Fill.Control.{Generated, tpce_generate_descriptors}
use tpce2drv.Descriptors.Memory.{tpce_validate_desc_mem}
use tpce2drv.Device.{
  Tpce, DmaInfo, ChannelState, idle, initialized, running, complete, error, illegal, Errno, einval,
  ebusy, eio, emsgsize, efault, enodev, etimedout, undefined, Result, failed, ok, with_info,
  is_idle, mapping_is_busy, tpce_dma_has_terminating_descriptor,
}
use tpce2drv.Dma.{tpce_dma_start, tpce_dma_stream_start}
use tpce2drv.Dma.Memory.{Got, tpce_dma_alloc_descriptors_mem}
use tpce2drv.Dma.Stop.{Polls, tpce_dma_abort}
use tpce2drv.Request.Stream.{tpce_init_stream_info, tpce_free_stream_info}

-- `tpce_dma_request`; `descriptors` tells whether the pointer is not null.
pub record Request : Type 0 where
  pub id : ℕ
  pub params : TransferParams
  pub descriptors : Bool
  pub descriptors_size : ℕ
  pub descriptors_type : ℕ

-- What a request meets: the allocations, the descriptors that `copy_from_user` gives if it can, the
-- first value of the variable `slot`, the polls of registers, what other threads do while the
-- request waits, and what the wait gives: the time that is left, or a negative number.
pub record Env : Type 0 where
  pub got : Got
  pub user_descriptors : Option (ℕ → Descriptor)
  pub has_stream_memory : Bool
  pub stale : ℤ
  pub polls : Polls
  pub meanwhile : Tpce → Tpce
  pub wait : ℤ

-- TPCE_MAX_DESCRIPTORS_SIZE and TPCE_MSGMDA_PREFETCH_EXTENDED_DESC
abbrev pub max_descriptors_size : ℕ
max_descriptors_size = 256 * descriptor_size

abbrev pub prefetch_extended : ℕ
prefetch_extended = 4

-- `map_info->owner && map_info->owner != file_ctx`
abbrev pub foreign : Option ℕ → Option ℕ → Bool
foreign none ctx = false
foreign (some o) none = true
foreign (some o) (some c) = not (o == c)

-- The tests of the descriptors that come with a request.
abbrev pub check_user_descriptors : Request → Result ℕ
check_user_descriptors req =
    if not req.descriptors
    then ok 0
    else if ltb max_descriptors_size req.descriptors_size
    then failed emsgsize
    else if not (req.descriptors_type == prefetch_extended)
    then failed einval
    else if not (req.descriptors_size % descriptor_size == 0)
    then failed einval
    else ok 0

-- The tests once the mapping is found.
abbrev pub check_request : Tpce → Request → Option ℕ → MapInfo → Result ℕ
check_request t req file_ctx m =
    if foreign m.owner file_ctx
    then failed einval
    else if not (m.direction == bidirectional) && not (req.params.direction == m.direction)
    then failed einval
    else if not (is_idle (t.dma_info req.params.channel).state)
    then failed ebusy
    else if req.params.direction == to_device || req.params.direction == from_device
    then check_user_descriptors req
    else failed einval

abbrev pub validate_dma_request : Tpce → Request → Option ℕ → Result ℕ
validate_dma_request t req file_ctx =
    if leb num_channels req.params.channel then failed einval else elim (t.dma_mappings req.id) [
      | none ↦ failed einval
      | some m ↦ check_request t req file_ctx m
    ]

-- The first `n` entries of one buffer over those of another.
abbrev pub overwrite : ℕ → (ℕ → Descriptor) → (ℕ → Descriptor) → ℕ → Descriptor
overwrite n new old i = if ltb i n then new i else old i

-- The branch of `init_dma_info` for descriptors from user space.
abbrev pub take_user_descriptors :
    Request → MapInfo → DmaInfo → (ℕ → Descriptor) → Option (ℕ → Descriptor) → DmaInfo × Result ℕ
take_user_descriptors req m info desc none = (info, failed eio)
take_user_descriptors req m info desc (some user) =
    let count = req.descriptors_size / descriptor_size in
    let copied = overwrite count user desc in
    let info1 = record info { desc = some copied } in
    elim (tpce_validate_desc_mem (some m) (some copied) count (req.params.direction == to_device)) [
      | none ↦ (record info1 { desc_active = req.descriptors_size }, ok 0)
      | some e ↦ (info1, failed einval)
    ]

-- The same for descriptors that the driver makes. `alloc_size` is the size without the terminating
-- descriptor.
abbrev pub take_generated : Request → DmaInfo → Generated → DmaInfo × Result ℕ
take_generated req info (Generated.rejected e) = (info, failed einval)
take_generated req info Generated.out_of_bounds = (info, failed undefined)
take_generated req info (Generated.generated count buf) = (
  record info {
    desc = some buf;
    desc_size =
        if tpce_dma_has_terminating_descriptor req.params
        then u32 ((count + 1) * descriptor_size)
        else u32 (count * descriptor_size);
    desc_active = u32 (count * descriptor_size);
  },
  ok 0,
)

abbrev pub make_descriptors :
    Request → MapInfo → DmaInfo → (ℕ → Descriptor) → ℕ → DmaInfo × Result ℕ
make_descriptors req m info desc alloc_size =
    elim (tpce_validate_dma_params (some req.params) (some m)) [
      | ParamCheck.failed invalid_chn ↦ (info, failed einval)
      | ParamCheck.failed e ↦ (info, failed eio)
      | flags zero ↦ take_generated req info (
          tpce_generate_descriptors (some req.params) (some m) (some desc)
            (alloc_size / descriptor_size))
      | flags (suc n) ↦ (info, failed einval)
    ]

-- The end of `init_dma_info`.
abbrev pub adopt : Tpce → ℕ → Request → MapInfo → DmaInfo → Tpce
adopt t ch req m info =
    let t1 =
      with_info t ch
        (record info { params = req.params; map_info = some req.id; state = initialized }) in
    record t1 {
      dma_mappings = update t.dma_mappings req.id (some (record m { active_channel = pos ch }));
    }

abbrev pub adopt_stream : Tpce → ℕ → Request → MapInfo → DmaInfo → Result ℕ → Tpce × Result ℕ
adopt_stream t ch req m info (failed e) = (with_info t ch info, failed e)
adopt_stream t ch req m info (ok n) = (adopt t ch req m info, ok ch)

abbrev pub start_stream : Tpce → ℕ → Request → MapInfo → Env → DmaInfo → Tpce × Result ℕ
start_stream t ch req m env info =
    let (stream, r) = tpce_init_stream_info info.stream_info info.desc_size env.has_stream_memory in
    if req.params.transfer_mode == mode_stream
    then adopt_stream t ch req m (record info { stream_info = stream }) r
    else (adopt t ch req m info, ok ch)

-- Both buffers, if they are there.
abbrev pub copy_descriptors {ℓ} :
    {A : Type ℓ}
    → Option (ℕ → Descriptor)
    → Option (ℕ → Descriptor)
    → A
    → ((ℕ → Descriptor) → (ℕ → Descriptor) → A)
    → A
copy_descriptors (some desc) (some coherent) otherwise f = f desc coherent
copy_descriptors _ _ otherwise f = otherwise

-- The copy into the coherent buffer, and what follows.
abbrev pub finish_init : Tpce → ℕ → Request → MapInfo → Env → DmaInfo → Result ℕ → Tpce × Result ℕ
finish_init t ch req m env info (failed e) = (with_info t ch info, failed e)
finish_init t ch req m env info (ok n) =
    copy_descriptors info.desc info.desc_dma (with_info t ch info, failed undefined)
      λ desc coherent. start_stream t ch req m env (record info {
        desc_dma = some (overwrite (info.desc_size / descriptor_size) desc coherent);
      })

abbrev pub put_descriptors :
    Request → MapInfo → DmaInfo → (ℕ → Descriptor) → Env → ℕ → DmaInfo × Result ℕ
put_descriptors req m info desc env alloc_size =
    if req.descriptors
    then take_user_descriptors req m info desc env.user_descriptors
    else make_descriptors req m info desc alloc_size

-- `init_dma_info` once the descriptor memory is there.
abbrev pub fill_memory :
    Tpce → ℕ → Request → MapInfo → Env → ℕ → DmaInfo → Result ℕ → Tpce × Result ℕ
fill_memory t ch req m env alloc_size info (failed e) = (with_info t ch info, failed e)
fill_memory t ch req m env alloc_size info (ok n) = elim info.desc [
  | none ↦ (with_info t ch info, failed undefined)
  | some desc ↦
      let (info1, r) = put_descriptors req m info desc env alloc_size in
      finish_init t ch req m env info1 r
]

pub init_dma_info : Tpce → ℕ → Request → Env → Tpce × Result ℕ
init_dma_info t ch req env = elim (t.dma_mappings req.id) [
  | none ↦ (t, failed eio)
  | some m ↦
      let alloc_size =
        if req.descriptors
        then req.descriptors_size
        else u32 (tpce_max_descriptors_needed req.params * descriptor_size) in
      let size =
        if tpce_dma_has_terminating_descriptor req.params
        then u32 (alloc_size + descriptor_size)
        else alloc_size in
      let (info, r) = tpce_dma_alloc_descriptors_mem (t.dma_info ch) size env.got in
      fill_memory t ch req m env alloc_size info r
]

-- `if (info->map_info) { … }` of `reset_dma_info`
abbrev pub release_mapping : Tpce → Option ℕ → ℕ → Option MapInfo
release_mapping t none = t.dma_mappings
release_mapping t (some id) = elim (t.dma_mappings id) [
  | none ↦ t.dma_mappings
  | some m ↦ update t.dma_mappings id (some (record m { active_channel = negsuc 0 }))
]

-- The statements of `reset_dma_info` after the switch.
unfoldable pub release_channel : Tpce → ℕ → Tpce
release_channel t ch =
    let info = t.dma_info ch in
    let streaming = info.params.transfer_mode == mode_stream in
    with_info
      (record t {
        page_table = pcie_page_free_by_channel_id t.page_table ch;
        dma_mappings = release_mapping t info.map_info;
      })
      ch
      (record info {
        map_info = none;
        stream_info =
            if streaming then tpce_free_stream_info info.stream_info else info.stream_info;
        desc_size = 0;
        state = idle;
      })

unfoldable pub reset_dma_info : Tpce → ℕ → Polls → Tpce
unfolding release_channel
reset_dma_info t ch polls = elim (t.dma_info ch).state [
  | idle ↦ t
  | running ↦ release_channel (tpce_dma_abort t ch polls) ch
  | illegal n ↦
      with_info (record t { page_table = pcie_page_free_by_channel_id t.page_table ch }) ch
        (record (t.dma_info ch) { state = idle })
  | _ ↦ release_channel t ch
]

unfoldable pub dma_dispatch : Tpce → ℕ → ℤ → Tpce × Result ℕ
dma_dispatch t ch stale =
    let mode = (t.dma_info ch).params.transfer_mode in
    if mode == mode_default
    then tpce_dma_start t ch stale
    else if mode == mode_stream
    then tpce_dma_stream_start t ch stale
    else (t, failed einval)

-- `tpce_dma_wait_until_completed`, from the result of `wait_event_killable_timeout`
abbrev pub tpce_dma_wait_until_completed : ℤ → Result ℕ
tpce_dma_wait_until_completed (negsuc n) = failed (Errno.kernel (n + 1))
tpce_dma_wait_until_completed (pos zero) = failed etimedout
tpce_dma_wait_until_completed (pos (suc n)) = ok 0

-- `dma_execute` after `dma_dispatch`
abbrev pub after_dispatch : ℕ → Env → Tpce → Result ℕ → Tpce × Result ℕ
after_dispatch ch env t (failed e) = (reset_dma_info t ch env.polls, failed e)
after_dispatch ch env t (ok n) =
    if (t.dma_info ch).params.transfer_mode == mode_stream
    then (t, ok 0)
    else (reset_dma_info (env.meanwhile t) ch env.polls, tpce_dma_wait_until_completed env.wait)

abbrev pub after_init : ℕ → Env → Tpce → Result ℕ → Tpce × Result ℕ
after_init ch env t (failed e) = (t, failed e)
after_init ch env t (ok n) = let (t1, r) = dma_dispatch t ch env.stale in after_dispatch ch env t1 r

unfoldable pub dma_execute : Tpce → Request → Env → Tpce × Result ℕ
unfolding init_dma_info
dma_execute t req env =
    let ch = req.params.channel in
    let (t1, r) = init_dma_info t ch req env in
    if leb num_channels ch then (t, failed einval) else after_init ch env t1 r

unfoldable pub tpce_safe_dma_unmap : Tpce → ℕ → MapInfo → Polls → Tpce
unfolding reset_dma_info
tpce_safe_dma_unmap t id m polls =
    let ch = pos_part m.active_channel in
    let t1 = if mapping_is_busy m then reset_dma_info (tpce_dma_abort t ch polls) ch polls else t in
    record t1 { dma_mappings = update t1.dma_mappings id none }
