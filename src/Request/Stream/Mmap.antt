-- ===== src/Request/Stream/Mmap.antt =====
-- linux/main.c: `tpce_mmap` and the close of a mapped area, with the mutex of the device.
use tpce2drv.Prelude.{
  ℕ, suc, ◌+◌, ◌==◌, leb, if◌then◌else◌, ◌≡◌, refl, arith, ap, sym, Bool, true, false, not, ◌&&◌,
  ◌||◌, none, some, is_some, bit_and, Bool-cases, Option-cases, inl, inr,
}
use tpce2drv.Types.{num_channels}
use tpce2drv.Device.{
  Tpce, StreamInfo, einval, enosys, enodev, Errno, Result, Result-cases, failed, ok, with_info,
}
use tpce2drv.Request.Stream.{tpce_init_stream_info, tpce_free_stream_info}
use tpce2drv.Request.Stream.Count.{IsCounted}

-- What a mapping meets: the lock, the memory of a new state, and `remap_vmalloc_range`.
pub record MmapEnv : Type 0 where
  pub lock : Result ℕ
  pub has_memory : Bool
  pub remap : Result ℕ

-- The device, whether its mutex is still held when the call returns, and the result
pub record Mapping : Type 0 where
  pub device : Tpce
  pub locked : Bool
  pub result : Result ℕ

abbrev pub with_stream : Tpce → ℕ → StreamInfo → Tpce
with_stream t ch s = with_info t ch (record (t.dma_info ch) { stream_info = s })

-- `vma_stream_info_close`
abbrev pub vma_stream_info_close : Tpce → ℕ → Tpce
unfolding tpce_free_stream_info
vma_stream_info_close t ch = with_stream t ch (tpce_free_stream_info (t.dma_info ch).stream_info)

-- The end of `tpce_mmap`, after the mutex is released. The label `error_remap` gives the count back.
abbrev pub remap_state : Tpce → ℕ → Result ℕ → Mapping
remap_state t ch (ok n) = record { device = t; locked = false; result = ok 0 }
remap_state t ch (failed e) = record {
  device = vma_stream_info_close t ch;
  locked = false;
  result = failed e;
}

-- `if (!info->state) { … } else { … }`
pub add_user : StreamInfo → ℕ → Bool → StreamInfo × Result ℕ
unfolding tpce_init_stream_info
add_user info desc_size has_memory = elim info.state [
  | none ↦ tpce_init_stream_info info desc_size has_memory
  | some s ↦ (record info { state_refs = info.state_refs + 1 }, ok 0)
]

-- Where `tpce_init_stream_info` fails the mutex stays locked.
abbrev pub count_user : Tpce → ℕ → MmapEnv → StreamInfo × Result ℕ → Mapping
count_user t ch env (s, failed e) = record { device = t; locked = true; result = failed e }
count_user t ch env (s, ok n) = remap_state (with_stream t ch s) ch env.remap

-- A channel's stream state. A device that is going away is refused with the mutex locked.
pub map_stream : Tpce → ℕ → MmapEnv → Mapping
unfolding add_user
map_stream t ch env =
    let used = add_user (t.dma_info ch).stream_info (t.dma_info ch).desc_size env.has_memory in
    if t.going_away
    then record { device = t; locked = true; result = failed enodev }
    else count_user t ch env used

abbrev unlocked : Tpce → Errno → Mapping
unlocked t e = record { device = t; locked = false; result = failed e }

-- `off` is the page offset and `size` the size of the area. Offsets 0 and 2 are the BARs, 0x10 to
-- 0x12 the streams.
abbrev pub tpce_mmap : Tpce → ℕ → ℕ → MmapEnv → Mapping
unfolding map_stream
tpce_mmap t off size env =
    let channel = bit_and off 0xf in
    if off == 0 || off == 2
    then unlocked t enosys
    else if not (off == 0x10 || off == 0x11 || off == 0x12)
    then unlocked t einval
    else if not (size == 4096)
    then unlocked t einval
    else if leb num_channels channel
    then unlocked t einval
    else elim env.lock [ failed e ↦ unlocked t e | ok n ↦ map_stream t channel env ]

-- The same number of users, and a state if there was one.
pub record SameUse (s s' : StreamInfo) : Type 0 where
  pub refs : s'.state_refs ≡ s.state_refs
  pub exists_state : is_some s'.state ≡ is_some s.state

-- A failed mapping changes no count, and a mapped area gives its count back when it is closed.
unfoldable pub IsUndone : Tpce → ℕ → Mapping → Type 0
IsUndone t ch x = elim x.result [
  | failed e ↦ SameUse (t.dma_info ch).stream_info (x.device.dma_info ch).stream_info
  | ok n ↦
      SameUse (t.dma_info ch).stream_info
        ((vma_stream_info_close x.device ch).dma_info ch).stream_info
]

-- The count without the user that was added last.
free_added :
    (s s' : StreamInfo)
    → s'.state_refs ≡ s.state_refs + 1
    → is_some s'.state ≡ true
    → IsCounted s
    → SameUse s (tpce_free_stream_info s')
unfolding tpce_free_stream_info IsCounted
free_added s s' refs there c =
    let e : s'.state_refs ≡ suc s.state_refs = omega (arith, refs) in
    record {
      refs = rw (e, tpce_free_stream_info) refl;
      exists_state =
          rw (e, tpce_free_stream_info)
            (elim (Bool-cases (s.state_refs == 0)) [
              | inl y ↦ rw y (ground (arith, c))
              | inr n ↦ rw n (ground (arith, c, there))
            ]);
    }

-- What is true of the user that is counted before the area is made.
IsAdded : StreamInfo → StreamInfo × Result ℕ → Type 0
IsAdded s (s', failed e) = Unit
IsAdded s (s', ok n) = (s'.state_refs ≡ s.state_refs + 1) × (is_some s'.state ≡ true)

refused :
    (t : Tpce) (ch : ℕ)
    → IsUndone t ch (record { device = t; locked = true; result = failed enodev })
unfolding IsUndone
refused t ch = record { refs = refl; exists_state = refl }

close-with_stream :
    (t : Tpce) (ch : ℕ) (s : StreamInfo)
    → ((vma_stream_info_close (with_stream t ch s) ch).dma_info ch).stream_info
      ≡ tpce_free_stream_info s
unfolding vma_stream_info_close
close-with_stream t ch s = let here : (ch == ch) ≡ true = ground arith in rw here refl

count_user-IsUndone :
    (t : Tpce) (ch : ℕ) (env : MmapEnv) (x : StreamInfo × Result ℕ)
    → IsCounted (t.dma_info ch).stream_info
    → IsAdded (t.dma_info ch).stream_info x
    → IsUndone t ch (count_user t ch env x)
unfolding IsAdded IsUndone vma_stream_info_close
count_user-IsUndone t ch env (s, failed e) c a = record { refs = refl; exists_state = refl }
count_user-IsUndone t ch env (s, ok n) c (refs, there) =
    let undone = free_added (t.dma_info ch).stream_info s refs there c in
    elim (Result-cases env.remap) [
      | inl (e, q) ↦ rw (q, remap_state, close-with_stream t ch s) undone
      | inr (k, q) ↦ rw (q, remap_state, close-with_stream t ch s) undone
    ]

-- A failure to count a user: no state and no memory for one.
IsRefused : Bool → StreamInfo × Result ℕ → Type 0
IsRefused refused (s, failed e) = refused ≡ true
IsRefused refused (s, ok n) = refused ≡ false

abbrev pub no_memory_for : StreamInfo → Bool → Bool
no_memory_for info has_memory = not (is_some info.state) && not has_memory

add_user-IsAdded :
    (info : StreamInfo) (size : ℕ) (has_memory : Bool)
    → IsCounted info
    → IsAdded info (add_user info size has_memory)
      × IsRefused (no_memory_for info has_memory) (add_user info size has_memory)
unfolding add_user tpce_init_stream_info IsAdded IsRefused IsCounted
add_user-IsAdded info size has_memory c = elim (Option-cases info.state) [
  | inr (s, q) ↦ rw (q, add_user) ((refl, ap is_some q), refl)
  | inl q ↦ elim (Bool-cases has_memory) [
    | inl m ↦
        rw (q, add_user)
          (rw (q, tpce_init_stream_info, m) ((ground (arith, c, ap is_some q), refl), refl))
    | inr m ↦ rw (q, add_user) (rw (q, tpce_init_stream_info, m) (tt, refl))
  ]
]

IsUndone-if :
    (t : Tpce) (ch : ℕ) (b : Bool) (x y : Mapping)
    → IsUndone t ch x
    → IsUndone t ch y
    → IsUndone t ch (if b then x else y)
IsUndone-if t ch true x y h k = h
IsUndone-if t ch false x y h k = k

-- For a counted state: a failing map_stream leaves the number of users and the presence of the state
-- as they were, also when the area cannot be made after the user is counted, and after a success the
-- close of the area brings both back.
pub map_stream-IsUndone :
    (t : Tpce) (ch : ℕ) (env : MmapEnv)
    → IsCounted (t.dma_info ch).stream_info
    → IsUndone t ch (map_stream t ch env)
unfolding map_stream
map_stream-IsUndone t ch env c =
    let info = (t.dma_info ch).stream_info in
    let size = (t.dma_info ch).desc_size in
    IsUndone-if t ch t.going_away (record { device = t; locked = true; result = failed enodev })
      (count_user t ch env (add_user info size env.has_memory)) (refused t ch)
      (count_user-IsUndone t ch env (add_user info size env.has_memory) c
        (add_user-IsAdded info size env.has_memory c).0)

count_user-locked :
    (t : Tpce) (ch : ℕ) (env : MmapEnv) (x : StreamInfo × Result ℕ) (b : Bool)
    → IsRefused b x
    → (count_user t ch env x).locked ≡ b
unfolding IsRefused
count_user-locked t ch env (s, failed e) b h = sym h
count_user-locked t ch env (s, ok n) b h = elim (Result-cases env.remap) [
  | inl (e, q) ↦ rw (q, remap_state) (sym h)
  | inr (k, q) ↦ rw (q, remap_state) (sym h)
]

locked-if :
    (b : Bool) (x y : Mapping) (c : Bool)
    → x.locked ≡ true
    → y.locked ≡ c
    → (if b then x else y).locked ≡ (b || c)
locked-if true x y c h k = h
locked-if false x y c h k = k

-- For a counted state, tpce_mmap past its checks returns with the mutex of the device locked exactly
-- if the device is going away, or if a new state is needed and there is no memory for it.
pub map_stream-locked :
    (t : Tpce) (ch : ℕ) (env : MmapEnv)
    → IsCounted (t.dma_info ch).stream_info
    → (map_stream t ch env).locked
      ≡ (t.going_away || no_memory_for (t.dma_info ch).stream_info env.has_memory)
unfolding map_stream
map_stream-locked t ch env c =
    let info = (t.dma_info ch).stream_info in
    let used = add_user info (t.dma_info ch).desc_size env.has_memory in
    let h = (add_user-IsAdded info (t.dma_info ch).desc_size env.has_memory c).1 in
    locked-if t.going_away (record { device = t; locked = true; result = failed enodev })
      (count_user t ch env used) (no_memory_for info env.has_memory) refl
      (count_user-locked t ch env used (no_memory_for info env.has_memory) h)
