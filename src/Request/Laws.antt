-- ===== src/Request/Laws.antt =====
-- linux/request.c: the release of a channel, and the channel after a request.
use tpce2drv.Prelude.{
  ℕ, ℤ, ◌<◌, ◌==◌, leb, ◌≡◌, ◌⊎◌, refl, arith, some, ap, ◌∙◌, negsuc, inl, inr, Bool-cases,
}
use tpce2drv.Types.{MapInfo, mode_stream, mode_default}
use tpce2drv.PageTable.Slots.{IsValid, entry}
use tpce2drv.PageTable.Laws.{free_by_channel-entries, without}
use tpce2drv.Device.{
  einval, Tpce, ChannelState, idle, initialized, running, complete, error, illegal, Result, failed,
  ok,
}
use tpce2drv.Dma.Started.{Started, start-Started, stream_start-Started}
use tpce2drv.Dma.Stop.{Polls, tpce_dma_abort}
use tpce2drv.Request.Init.{Inits, init-Inits}
use tpce2drv.Request.{
  Request, Env, release_mapping, release_channel, reset_dma_info, dma_execute, after_init,
  after_dispatch, dma_dispatch, init_dma_info,
}

release_channel-state : (t : Tpce) (ch : ℕ) → ((release_channel t ch).dma_info ch).state ≡ idle
unfolding release_channel
release_channel-state t ch = ground arith

reset_from :
    (t : Tpce) (ch : ℕ) (polls : Polls) (s : ChannelState)
    → (t.dma_info ch).state ≡ s
    → ((reset_dma_info t ch polls).dma_info ch).state ≡ idle
unfolding reset_dma_info
reset_from t ch polls idle e = rw (e, reset_dma_info) e
reset_from t ch polls initialized e = rw (e, reset_dma_info) (release_channel-state t ch)
reset_from t ch polls running e =
    rw (e, reset_dma_info) (release_channel-state (tpce_dma_abort t ch polls) ch)
reset_from t ch polls complete e = rw (e, reset_dma_info) (release_channel-state t ch)
reset_from t ch polls error e = rw (e, reset_dma_info) (release_channel-state t ch)
reset_from t ch polls (illegal n) e = rw (e, reset_dma_info) (ground arith)

-- Whatever state a channel is in, it is free after `reset_dma_info`.
pub reset-idle :
    (t : Tpce) (ch : ℕ) (polls : Polls) → ((reset_dma_info t ch polls).dma_info ch).state ≡ idle
reset-idle t ch polls = reset_from t ch polls (t.dma_info ch).state refl

-- After the release of a channel its mapping is free for others, exactly the slots of the channel are
-- empty, and the other ones are as before.
pub release-frees :
    (t : Tpce) (ch id : ℕ) (m : MapInfo)
    → IsValid t.page_table
    → ch < 3
    → (t.dma_info ch).map_info ≡ some id
    → t.dma_mappings id ≡ some m
    → ((release_channel t ch).dma_mappings id ≡ some (record m { active_channel = negsuc 0 }))
      × ((j : ℕ)
          → j < 16
          → entry (release_channel t ch).page_table j ≡ without ch (entry t.page_table j))
unfolding release_channel
release-frees t ch id m v h e f =
    (rw (e, release_mapping, f) (ground arith), (free_by_channel-entries t.page_table ch v).1)

-- The channel is free, or it runs a stream, its state is RUNNING, and the result is 0.
unfoldable pub IsSettled : ℕ → Tpce × Result ℕ → Type 0
IsSettled ch (t, r) =
    ((t.dma_info ch).state ≡ idle)
    ⊎ ((r ≡ ok 0)
        × ((t.dma_info ch).params.transfer_mode ≡ mode_stream)
        × ((t.dma_info ch).state ≡ running))

dispatch-Started : (t : Tpce) (ch : ℕ) (stale : ℤ) → Started ch (dma_dispatch t ch stale)
unfolding dma_dispatch Started
dispatch-Started t ch stale =
    let mode = (t.dma_info ch).params.transfer_mode in
    elim (Bool-cases (mode == mode_default)) [
      | inl e ↦ rw e (start-Started t ch stale)
      | inr e ↦ elim (Bool-cases (mode == mode_stream)) [
        | inl f ↦ rw (e, f) (stream_start-Started t ch stale)
        | inr f ↦ rw (e, f) tt
      ]
    ]

after_dispatch-IsSettled :
    (ch : ℕ) (env : Env) (t : Tpce) (r : Result ℕ)
    → Started ch (t, r)
    → IsSettled ch (after_dispatch ch env t r)
unfolding IsSettled Started
after_dispatch-IsSettled ch env t (failed e) s = inl (reset-idle t ch env.polls)
after_dispatch-IsSettled ch env t (ok n) s =
    elim (Bool-cases ((t.dma_info ch).params.transfer_mode == mode_stream)) [
      | inl e ↦ rw e (inr (refl, ground arith, s))
      | inr e ↦ rw e (inl (reset-idle (env.meanwhile t) ch env.polls))
    ]

IsSettled-idle :
    (ch : ℕ) (t : Tpce) (r : Result ℕ) → (t.dma_info ch).state ≡ idle → IsSettled ch (t, r)
unfolding IsSettled
IsSettled-idle ch t r h = inl h

after_init-IsSettled :
    (t : Tpce) (ch : ℕ) (req : Request) (env : Env) (x : Tpce × Result ℕ)
    → (t.dma_info ch).state ≡ idle
    → Inits t ch req x
    → IsSettled ch (after_init ch env x.0 x.1)
unfolding Inits IsSettled
after_init-IsSettled t ch req env (t1, failed e) h (k, same) = inl (ap (λ l. l.0) (same ch) ∙ h)
after_init-IsSettled t ch req env (t1, ok n) h k =
    let x = dma_dispatch t1 ch env.stale in
    after_dispatch-IsSettled ch env x.0 x.1 (dispatch-Started t1 ch env.stale)

-- A request on a free channel leaves the channel free, whatever fails and whatever other threads do
-- meanwhile, unless it has started a stream: then it returns 0 and the channel is RUNNING.
pub execute-IsSettled :
    (t : Tpce) (req : Request) (env : Env)
    → (t.dma_info req.params.channel).state ≡ idle
    → IsSettled req.params.channel (dma_execute t req env)
unfolding dma_execute
execute-IsSettled t req env h =
    let ch = req.params.channel in
    let init = init_dma_info t ch req env in
    elim (Bool-cases (leb 3 ch)) [
      | inl e ↦ rw e (IsSettled-idle ch t (failed einval) h)
      | inr e ↦ rw e (after_init-IsSettled t ch req env init h (init-Inits t ch req env))
    ]
