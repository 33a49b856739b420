-- ===== src/Request/Init.antt =====
-- linux/request.c: what `init_dma_info` does to the links between channels and mappings.
use tpce2drv.Prelude.{
  ℕ, zero, suc, ◌==◌, ◌/◌, if◌then◌else◌, ◌≡◌, refl, sym, ap, ◌∙◌, Bool, true, false, Option, none,
  some, pos, inl, inr, subst, Bool-cases, Option-cases, is_some, ==_iff, update,
}
use tpce2drv.Types.{to_device, Descriptor, MapInfo, mode_stream}
use tpce2drv.Device.{einval, Errno, with_info, Tpce, DmaInfo, initialized, Result, failed, ok}
use tpce2drv.Device.Links.{Link, link_of, links}
use tpce2drv.Dma.Memory.{
  with_buffers, without_buffers, Got, no_buffer, no_coherent, both, tpce_dma_alloc_descriptors_mem,
}
use tpce2drv.Descriptors.Params.{
  ParamCheck, flags, null_ptr, invalid_chn, desc_buf, invalid_desc, other, tpce_validate_dma_params,
}
use tpce2drv.Descriptors.Memory.{tpce_validate_desc_mem}
use tpce2drv.Descriptors.Fill.Control.{Generated}
use tpce2drv.Request.{
  Request, Env, take_user_descriptors, take_generated, make_descriptors, start_stream, adopt,
  adopt_stream, copy_descriptors, finish_init, fill_memory, put_descriptors, overwrite,
  init_dma_info,
}

-- The parts of `init_dma_info` that work on the record of the channel keep both.
HasLink : Link → DmaInfo × Result ℕ → Type 0
HasLink s (info, r) = link_of info ≡ s

HasLink-if :
    (b : Bool) (x y : DmaInfo × Result ℕ) (s : Link)
    → HasLink s x
    → HasLink s y
    → HasLink s (if b then x else y)
HasLink-if true x y s h k = h
HasLink-if false x y s h k = k

with_buffers-HasLink :
    (b : Bool) (info : DmaInfo) (size : ℕ) (got : Got)
    → HasLink (link_of info) (with_buffers (if b then without_buffers info else info) size got)
unfolding HasLink
with_buffers-HasLink true info size no_buffer = refl
with_buffers-HasLink true info size no_coherent = refl
with_buffers-HasLink true info size (both a c) = refl
with_buffers-HasLink false info size no_buffer = refl
with_buffers-HasLink false info size no_coherent = refl
with_buffers-HasLink false info size (both a c) = refl

same_link : (info : DmaInfo) (s : Link) (r : Result ℕ) → link_of info ≡ s → HasLink s (info, r)
unfolding HasLink
same_link info s r e = e

alloc_mem-HasLink :
    (info : DmaInfo) (size : ℕ) (got : Got)
    → HasLink (link_of info) (tpce_dma_alloc_descriptors_mem info size got)
unfolding tpce_dma_alloc_descriptors_mem
alloc_mem-HasLink info size got =
    HasLink-if _ _ _ (link_of info) (same_link info (link_of info) (failed einval) refl) (
      HasLink-if _ _ _ (link_of info)
        (same_link (record info { desc_size = size }) (link_of info) (ok 0) refl)
        (with_buffers-HasLink (is_some info.desc_dma) info size got))

take_user-HasLink :
    (req : Request) (m : MapInfo) (info : DmaInfo) (desc : ℕ → Descriptor)
    (user : Option (ℕ → Descriptor))
    → HasLink (link_of info) (take_user_descriptors req m info desc user)
unfolding HasLink
take_user-HasLink req m info desc none = refl
take_user-HasLink req m info desc (some user) =
    let count = req.descriptors_size / 64 in
    elim (Option-cases (
      tpce_validate_desc_mem (some m) (some (overwrite count user desc)) count
        (req.params.direction == to_device))) [
          | inl e ↦ rw (e, take_user_descriptors) refl
          | inr (x, e) ↦ rw (e, take_user_descriptors) refl
        ]

generated-HasLink :
    (req : Request) (info : DmaInfo) (g : Generated)
    → HasLink (link_of info) (take_generated req info g)
unfolding HasLink
generated-HasLink req info (Generated.rejected e) = refl
generated-HasLink req info Generated.out_of_bounds = refl
generated-HasLink req info (Generated.generated n buf) = refl

make-HasLink :
    (req : Request) (m : MapInfo) (info : DmaInfo) (desc : ℕ → Descriptor) (size : ℕ)
    → HasLink (link_of info) (make_descriptors req m info desc size)
unfolding HasLink
make-HasLink req m info desc size = checked _ refl
  where
    checked :
        (c : ParamCheck)
        → tpce_validate_dma_params (some req.params) (some m) ≡ c
        → HasLink (link_of info) (make_descriptors req m info desc size)
    checked (ParamCheck.failed null_ptr) e = rw (e, make_descriptors) refl
    checked (ParamCheck.failed invalid_chn) e = rw (e, make_descriptors) refl
    checked (ParamCheck.failed desc_buf) e = rw (e, make_descriptors) refl
    checked (ParamCheck.failed invalid_desc) e = rw (e, make_descriptors) refl
    checked (ParamCheck.failed other) e = rw (e, make_descriptors) refl
    checked (flags zero) e = rw (e, make_descriptors) (generated-HasLink req info _)
    checked (flags (suc n)) e = rw (e, make_descriptors) refl

put-HasLink :
    (req : Request) (m : MapInfo) (info : DmaInfo) (desc : ℕ → Descriptor) (env : Env) (size : ℕ)
    → HasLink (link_of info) (put_descriptors req m info desc env size)
put-HasLink req m info desc env size =
    HasLink-if req.descriptors (take_user_descriptors req m info desc env.user_descriptors)
      (make_descriptors req m info desc size) (link_of info)
      (take_user-HasLink req m info desc env.user_descriptors) (make-HasLink req m info desc size)

-- A failure leaves all links and mappings as they were; a success notes the mapping in the channel and
-- the channel in the mapping.
unfoldable pub Inits : Tpce → ℕ → Request → Tpce × Result ℕ → Type 0
Inits t ch req (t', failed e) =
    (t'.dma_mappings ≡ t.dma_mappings) × ((j : ℕ) → links t' j ≡ links t j)
Inits t ch req (t', ok n) =
    (m : MapInfo) × (t.dma_mappings req.id ≡ some m)
    × (t'.dma_mappings ≡ update t.dma_mappings req.id (some (record m { active_channel = pos ch })))
    × ((j : ℕ) → links t' j ≡ (if j == ch then (initialized, some req.id) else links t j))

module _ (t : Tpce) (ch : ℕ) (req : Request) where
  Inits-if :
      (b : Bool) (x y : Tpce × Result ℕ)
      → Inits t ch req x
      → Inits t ch req y
      → Inits t ch req (if b then x else y)
  Inits-if true x y h k = h
  Inits-if false x y h k = k

  Inits-failed :
      (info : DmaInfo) (e : Errno)
      → link_of info ≡ links t ch
      → Inits t ch req (with_info t ch info, failed e)
  unfolding Inits
  Inits-failed info e h = (
    refl,
    λ j. elim (Bool-cases (j == ch)) [
      | inl y ↦ let here : j ≡ ch = (==_iff j ch).0 y in rw y (h ∙ ap (links t) (sym here))
      | inr n ↦ rw n refl
    ],
  )

  adopt-Inits :
      (m : MapInfo) (info : DmaInfo) (n : ℕ)
      → t.dma_mappings req.id ≡ some m
      → Inits t ch req (adopt t ch req m info, ok n)
  unfolding Inits
  adopt-Inits m info n f =
      (m, f, refl, λ j. elim (Bool-cases (j == ch)) [ inl y ↦ rw y refl | inr z ↦ rw z refl ])

  adopt_stream-Inits :
      (m : MapInfo) (info : DmaInfo) (r : Result ℕ)
      → t.dma_mappings req.id ≡ some m
      → link_of info ≡ links t ch
      → Inits t ch req (adopt_stream t ch req m info r)
  adopt_stream-Inits m info (failed e) f h = Inits-failed info e h
  adopt_stream-Inits m info (ok n) f h = adopt-Inits m info ch f

  start_stream-Inits :
      (m : MapInfo) (env : Env) (info : DmaInfo)
      → t.dma_mappings req.id ≡ some m
      → link_of info ≡ links t ch
      → Inits t ch req (start_stream t ch req m env info)
  start_stream-Inits m env info f h =
      Inits-if (req.params.transfer_mode == mode_stream) _ _ (adopt_stream-Inits m _ _ f h)
        (adopt-Inits m info ch f)

  finish_init-Inits :
      (m : MapInfo) (env : Env) (x : DmaInfo × Result ℕ)
      → t.dma_mappings req.id ≡ some m
      → HasLink (links t ch) x
      → Inits t ch req (finish_init t ch req m env x.0 x.1)
  unfolding HasLink
  finish_init-Inits m env (info, failed e) f h = Inits-failed info e h
  finish_init-Inits m env (info, ok n) f h = buffers_cases info.desc info.desc_dma
    where
      buffers_cases :
          (a b : Option (ℕ → Descriptor))
          → Inits t ch req (
              copy_descriptors a b
                (with_info t ch info, failed Errno.undefined)
                λ desc coherent.
                  start_stream t ch req m env (record info {
                    desc_dma = some (overwrite (info.desc_size / 64) desc coherent);
                  }))
      buffers_cases (some a) (some b) =
          start_stream-Inits m env
            (record info { desc_dma = some (overwrite (info.desc_size / 64) a b) }) f h
      buffers_cases (some a) none = Inits-failed info Errno.undefined h
      buffers_cases none b = Inits-failed info Errno.undefined h

  fill_memory-Inits :
      (m : MapInfo) (env : Env) (size : ℕ) (x : DmaInfo × Result ℕ)
      → t.dma_mappings req.id ≡ some m
      → HasLink (links t ch) x
      → Inits t ch req (fill_memory t ch req m env size x.0 x.1)
  unfolding HasLink
  fill_memory-Inits m env size (info, failed e) f h = Inits-failed info e h
  fill_memory-Inits m env size (info, ok n) f h = elim (Option-cases info.desc) [
    | inl e ↦ rw (e, fill_memory) (Inits-failed info Errno.undefined h)
    | inr (desc, e) ↦
        rw (e, fill_memory)
          (finish_init-Inits m env (put_descriptors req m info desc env size) f (
            subst (λ x. HasLink x (put_descriptors req m info desc env size)) h
              (put-HasLink req m info desc env size)))
  ]

-- Whatever the request and its environment are: a set-up that fails changes no mapping and neither the
-- state nor the mapping of a channel; one that succeeds notes the mapping in its channel, which is
-- initialised then, and the channel in the mapping, and changes no other.
pub init-Inits :
    (t : Tpce) (ch : ℕ) (req : Request) (env : Env) → Inits t ch req (init_dma_info t ch req env)
unfolding init_dma_info Inits
init-Inits t ch req env = elim (Option-cases (t.dma_mappings req.id)) [
  | inl e ↦ rw (e, init_dma_info) (refl, λ j. refl)
  | inr (m, e) ↦
      rw (e, init_dma_info)
        (fill_memory-Inits t ch req m env _ _ e (alloc_mem-HasLink (t.dma_info ch) _ env.got))
]
