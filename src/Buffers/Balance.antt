-- ===== src/Buffers/Balance.antt =====
-- linux/dma.c: what the two functions that make a mapping hold, on every path.
use tpce2drv.Prelude.{
  ℕ, ◌==◌, if◌then◌else◌, ◌≡◌, ◌≢◌, refl, Bool, true, false, not, inl, inr, List, [], ◌∷◌, arith,
  Option, none, some,
}
use tpce2drv.Ledger.{Act, acquire, release}
use tpce2drv.Types.{MapInfo}
use tpce2drv.Device.{Errno, einval, enomem, eio, efault, Result-cases}
use tpce2drv.Buffers.{
  Resource, info, pages, virtual, sg_list, dma_map, Mapped, error_ptr, null_ptr, mapping, AllocEnv,
  LockEnv, BufIn, alloc_mapping, tpce_dma_alloc_buffer, tpce_dma_free_mapping, lock_mapping,
  tpce_dma_lock_user_buffer, copy_dma_page_info, tpce_dma_unlock_user_buffer, tpce_dma_free_buffer,
  kernel_mapping, new_mapping,
}

-- What is held after the acts of a log; `none` once something is released that is not held on top.
unfoldable pub holds : List (Act Resource) → Option (List Resource)
holds [] = some []
holds (acquire r ∷ log) = elim (holds log) [ none ↦ none | some held ↦ some (r ∷ held) ]
holds (release r ∷ log) = elim (holds log) [ none ↦ none | some held ↦ pop r held ]
  where
    same : Resource → Resource → Bool
    same info info = true
    same pages pages = true
    same virtual virtual = true
    same sg_list sg_list = true
    same dma_map dma_map = true
    same _ _ = false

    pop : Resource → List Resource → Option (List Resource)
    pop r [] = none
    pop r (x ∷ held) = if same r x then some held else none

-- Without a mapping nothing is held; with one, `tpce_dma_free_mapping` releases all that is held.
unfoldable pub IsBalanced : List (Act Resource) × Mapped → Type 0
IsBalanced (log, error_ptr e) = holds log ≡ some []
IsBalanced (log, null_ptr) = holds log ≡ some []
IsBalanced (log, mapping m) = holds (tpce_dma_free_mapping m log) ≡ some []

IsBalanced-if :
    (b : Bool) (x y : List (Act Resource) × Mapped)
    → IsBalanced x
    → IsBalanced y
    → IsBalanced (if b then x else y)
IsBalanced-if true x y h k = h
IsBalanced-if false x y h k = k

alloc_mapping-IsBalanced :
    (m : MapInfo) (env : AllocEnv)
    → m.buf_usr ≡ false
    → m.buf_drv ≡ true
    → IsBalanced (alloc_mapping m env (acquire virtual ∷ acquire pages ∷ acquire info ∷ []))
unfolding alloc_mapping IsBalanced holds tpce_dma_free_mapping tpce_dma_free_buffer
alloc_mapping-IsBalanced m env u d = elim (Result-cases env.sg_alloc) [
  | inl (e, q) ↦ rw q refl
  | inr (n, q) ↦ elim (Result-cases env.dma_map) [
    | inl (e, w) ↦ rw (q, w) refl
    | inr (ranges, w) ↦ elim (Result-cases env.xa) [
      | inl (e, x) ↦ rw (q, w, x) refl
      | inr (id, x) ↦ rw (q, w, x) (rw (u, d) refl)
    ]
  ]
]

-- The early errors, with nothing held, and after one or two acquisitions.
early : (e : Errno) → IsBalanced ([], error_ptr e)
unfolding IsBalanced holds
early e = refl

after_info : (e : Errno) → IsBalanced (release info ∷ acquire info ∷ [], error_ptr e)
unfolding IsBalanced holds
after_info e = refl

after_pages :
    (e : Errno)
    → IsBalanced (release info ∷ release pages ∷ acquire pages ∷ acquire info ∷ [], error_ptr e)
unfolding IsBalanced holds
after_pages e = refl

-- Whatever the kernel's functions give, an allocation that fails holds nothing afterwards, and the
-- release of a mapping that it returns gives back all that it holds, in the opposite order.
pub alloc_buffer-IsBalanced :
    (size dir : ℕ) (env : AllocEnv) → IsBalanced (tpce_dma_alloc_buffer size dir env)
unfolding tpce_dma_alloc_buffer
alloc_buffer-IsBalanced size dir env = IsBalanced-if _ _ _ (early einval) (
    IsBalanced-if _ _ _ (early enomem) (
      IsBalanced-if _ _ _ (after_info enomem) (
        IsBalanced-if _ _ _ (after_pages eio)
          (alloc_mapping-IsBalanced (kernel_mapping size dir) env refl refl))))

lock_mapping-IsBalanced :
    (b : BufIn) (m : MapInfo) (env : LockEnv)
    → m.buf_usr ≡ true
    → IsBalanced (lock_mapping b m env (acquire pages ∷ acquire info ∷ []))
unfolding lock_mapping IsBalanced holds tpce_dma_free_mapping tpce_dma_unlock_user_buffer
lock_mapping-IsBalanced b m env u = elim (Result-cases env.sg_alloc) [
  | inl (e, q) ↦ rw q refl
  | inr (n, q) ↦ elim (Result-cases env.dma_map) [
    | inl (e, w) ↦ rw (q, w) refl
    | inr (ranges, w) ↦ elim (Result-cases (copy_dma_page_info b ranges env)) [
      | inl (e, y) ↦ rw (q, w, y) refl
      | inr (k, y) ↦ elim (Result-cases env.xa) [
        | inl (e, x) ↦ rw (q, w, y, x) refl
        | inr (id, x) ↦ rw (q, w, y, x) (rw u refl)
      ]
    ]
  ]
]

-- The same for a user's buffer at another address than 0.
pub lock_user_buffer-IsBalanced :
    (b : BufIn) (env : LockEnv) → b.buf ≢ 0 → IsBalanced (tpce_dma_lock_user_buffer b env)
unfolding tpce_dma_lock_user_buffer
lock_user_buffer-IsBalanced b env h = elim (Result-cases env.pinned) [
  | inl (e, q) ↦
      rw q (IsBalanced-if _ _ _ (early einval) (IsBalanced-if _ _ _ (early enomem) (after_info e)))
  | inr (n, q) ↦ rw q (
      IsBalanced-if _ _ _ (early einval) (
        IsBalanced-if _ _ _ (early enomem) (
          IsBalanced-if _ _ _ (after_pages efault) (
            lock_mapping-IsBalanced b (new_mapping (not (b.buf == 0)) b.size n b.direction) env
              (ground (arith, h))))))
]
