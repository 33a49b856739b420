-- ===== src/Buffers.antt =====
-- linux/dma.c: the buffers that are mapped for transfers, with what is acquired and released on each
-- path. A log holds these acts, the last one first. What the kernel's functions give is in `AllocEnv`
-- and `LockEnv`.
pub mod Balance
mod Examples
use tpce2drv.Prelude.{
  ℕ, zero, suc, ◌+◌, ◌-◌, ◌*◌, ◌/◌, ◌%◌, ◌^◌, ◌==◌, ltb, if◌then◌else◌, Bool, true, false, not,
  ◌&&◌, ◌||◌, Option, none, some, List, [], ◌∷◌, length, negsuc, bit_and, u32, update,
}
use tpce2drv.Ledger.{Act, acquire, release}
use tpce2drv.Types.{MapInfo, SgEntry}
use tpce2drv.Device.{Tpce, Errno, einval, enomem, eio, efault, enobufs, Result, failed, ok}

-- `pages` are the pages of the kernel's buffer, or the pinned pages of a user's buffer.
pub data Resource : Type 0 where
  info pages virtual sg_list dma_map : Resource

-- An error pointer, a null pointer, or a mapping
pub data Mapped : Type 0 where
  error_ptr : Errno → Mapped
  null_ptr : Mapped
  mapping : MapInfo → Mapped

pub record AllocEnv : Type 0 where
  pub has_info : Bool
  pub has_pages : Bool
  pub has_virtual : Bool
  pub sg_alloc : Result ℕ
  pub dma_map : Result (List SgEntry)
  pub xa : Result ℕ

-- The labels of both functions, from the last one up.
abbrev pub error_alloc : List (Act Resource) → List (Act Resource)
error_alloc log = release info ∷ log

abbrev pub error_vmap : List (Act Resource) → List (Act Resource)
error_vmap log = error_alloc (release pages ∷ log)

abbrev pub error_sgt : List (Act Resource) → List (Act Resource)
error_sgt log = error_vmap (release virtual ∷ log)

abbrev pub error_map : List (Act Resource) → List (Act Resource)
error_map log = error_sgt (release sg_list ∷ log)

abbrev pub error_xa : List (Act Resource) → List (Act Resource)
error_xa log = error_map (release dma_map ∷ log)

abbrev is_power_of_2 : ℕ → Bool
is_power_of_2 n = not (n == 0) && bit_and n (n - 1) == 0

-- A mapping as `kvzalloc` and the first assignments leave it.
abbrev pub new_mapping : Bool → ℕ → ℕ → ℕ → MapInfo
new_mapping user size num_pages direction = record {
  owner = none;
  buf_usr = user;
  buf_drv = false;
  id = 0;
  size = size;
  num_pages = num_pages;
  direction = direction;
  active_channel = negsuc 0;
  sgt = [];
}

abbrev pub kernel_mapping : ℕ → ℕ → MapInfo
kernel_mapping size dir = record (new_mapping false size (size / 2 ^ 12) dir) { buf_drv = true }

-- The three last steps of `tpce_dma_alloc_buffer`: table, mapping, id.
pub alloc_mapping : MapInfo → AllocEnv → List (Act Resource) → List (Act Resource) × Mapped
alloc_mapping m env log = elim env.sg_alloc [
  | failed e ↦ (error_sgt log, error_ptr e)
  | ok n ↦
      let log1 = acquire sg_list ∷ log in
      elim env.dma_map [
        | failed e ↦ (error_map log1, error_ptr e)
        | ok ranges ↦
            let log2 = acquire dma_map ∷ log1 in
            elim env.xa [
              | failed e ↦ (error_xa log2, error_ptr e)
              | ok id ↦ (log2, mapping (record m { sgt = ranges; id = id }))
            ]
      ]
]

pub tpce_dma_alloc_buffer : ℕ → ℕ → AllocEnv → List (Act Resource) × Mapped
unfolding alloc_mapping
tpce_dma_alloc_buffer size dir env =
    let num_pages = size / 2 ^ 12 in
    let m = kernel_mapping size dir in
    if dir == 3 || size == 0 || not (size % 4096 == 0) || not (is_power_of_2 num_pages)
    then ([], error_ptr einval)
    else if not env.has_info
    then ([], error_ptr enomem)
    else if not env.has_pages
    then (error_alloc (acquire info ∷ []), error_ptr enomem)
    else if not env.has_virtual
    then (error_vmap (acquire pages ∷ acquire info ∷ []), error_ptr eio)
    else alloc_mapping m env (acquire virtual ∷ acquire pages ∷ acquire info ∷ [])

-- What `tpce_dma_free_buffer` releases, after it has erased the id.
pub tpce_dma_free_buffer : List (Act Resource) → List (Act Resource)
tpce_dma_free_buffer log =
    release info ∷ release pages ∷ release virtual ∷ release sg_list ∷ release dma_map ∷ log

-- `tpce_dma_buf_in`; `buf` is the address, `ranges` tells whether that pointer is not null.
pub record BufIn : Type 0 where
  pub buf : ℕ
  pub size : ℕ
  pub ranges : Bool
  pub ranges_size : ℕ
  pub direction : ℕ

pub record LockEnv : Type 0 where
  pub has_info : Bool
  pub pinned : Result ℕ
  pub sg_alloc : Result ℕ
  pub dma_map : Result (List SgEntry)
  pub has_ranges_memory : Bool
  pub copied : Bool
  pub xa : Result ℕ

-- `copy_dma_page_info`; a `tpce_dma_range` has 16 bytes.
pub copy_dma_page_info : BufIn → List SgEntry → LockEnv → Result ℕ
copy_dma_page_info b ranges env =
    if not b.ranges
    then ok 0
    else if ltb (b.ranges_size / 16) (length ranges)
    then failed enobufs
    else if not env.has_ranges_memory
    then failed enomem
    else if env.copied
    then ok 0
    else failed efault

-- The labels of `tpce_dma_lock_user_buffer`; there is no virtual mapping to take back.
abbrev pub error_partial_pin : List (Act Resource) → List (Act Resource)
error_partial_pin log = release info ∷ release pages ∷ log

abbrev pub error_user_map : List (Act Resource) → List (Act Resource)
error_user_map log = error_partial_pin (release sg_list ∷ log)

abbrev pub error_copy_usr : List (Act Resource) → List (Act Resource)
error_copy_usr log = error_user_map (release dma_map ∷ log)

-- The steps of `tpce_dma_lock_user_buffer` after all pages are pinned. A failure of the first one
-- leaves `err` null.
pub lock_mapping : BufIn → MapInfo → LockEnv → List (Act Resource) → List (Act Resource) × Mapped
unfolding copy_dma_page_info
lock_mapping b m env log = elim env.sg_alloc [
  | failed e ↦ (error_partial_pin log, null_ptr)
  | ok n ↦
      let log1 = acquire sg_list ∷ log in
      elim env.dma_map [
        | failed e ↦ (error_user_map log1, error_ptr e)
        | ok ranges ↦
            let log2 = acquire dma_map ∷ log1 in
            elim (copy_dma_page_info b ranges env) [
              | failed e ↦ (error_copy_usr log2, error_ptr e)
              | ok n ↦ elim env.xa [
                | failed e ↦ (error_copy_usr log2, error_ptr e)
                | ok id ↦ (log2, mapping (record m { sgt = ranges; id = id }))
              ]
            ]
      ]
]

-- The number of pages that the buffer touches; the sum of offset and size is a uint32_t.
abbrev pub user_pages : BufIn → ℕ
user_pages b = (u32 (b.buf % 4096 + b.size) + 4096 - 1) / 4096

pub tpce_dma_lock_user_buffer : BufIn → LockEnv → List (Act Resource) × Mapped
unfolding lock_mapping
tpce_dma_lock_user_buffer b env =
    if not (b.size % 64 == 0)
    then ([], error_ptr einval)
    else if not env.has_info
    then ([], error_ptr enomem)
    else elim env.pinned [
      | failed e ↦ (error_alloc (acquire info ∷ []), error_ptr e)
      | ok n ↦
          let log = acquire pages ∷ acquire info ∷ [] in
          if ltb n (user_pages b)
          then (error_partial_pin log, error_ptr efault)
          else lock_mapping b (new_mapping (not (b.buf == 0)) b.size n b.direction) env log
    ]

-- What `tpce_dma_unlock_user_buffer` releases, after it has erased the id.
pub tpce_dma_unlock_user_buffer : List (Act Resource) → List (Act Resource)
tpce_dma_unlock_user_buffer log =
    release info ∷ release pages ∷ release sg_list ∷ release dma_map ∷ log

-- `tpce_dma_free_mapping`
pub tpce_dma_free_mapping : MapInfo → List (Act Resource) → List (Act Resource)
unfolding tpce_dma_unlock_user_buffer tpce_dma_free_buffer
tpce_dma_free_mapping m log =
    if m.buf_usr
    then tpce_dma_unlock_user_buffer log
    else if m.buf_drv
    then tpce_dma_free_buffer log
    else log
