-- ===== src/System/Examples.antt =====
-- A device that runs a transfer: a request, the end of a file, and the interrupt of the transfer.
use tpce2drv.Prelude.{
  ℕ, ◌==◌, ◌≡◌, ◌≢◌, refl, ap, sym, arith, true, false, none, some, [], ◌∷◌, pos, negsuc,
  Bool-cases, inl, inr, ==_iff, All,
}
use tpce2drv.Types.{MapInfo, zero_params, zero_descriptor, from_device}
use tpce2drv.Device.Sample.{sample_device, running_device, sample_mapping}
use tpce2drv.Dma.Memory.{both}
use tpce2drv.Dma.Stop.{Polls}
use tpce2drv.Request.{Request, Env, tpce_safe_dma_unmap, init_dma_info}
use tpce2drv.Request.Init.{Inits, init-Inits}
use tpce2drv.Request.Ioctl.{Session, tpce_release}
use tpce2drv.Interrupts.{tpce_dma_work}
use tpce2drv.System.{Reach, done, followed, work}
use tpce2drv.System.Links.{IsLinked, some_injective}
use tpce2drv.System.Unlock.{NotNoted}
use tpce2drv.System.Safety.{Reach-IsLinked, Reach-unlock}
use tpce2drv.System.Execute.{release-AllGone}

abbrev in_time : Polls
in_time = record { prefetcher_timeout = false; csr_state = 0; stop_timeout = false }

abbrev busy : MapInfo
busy = record sample_mapping { active_channel = pos 2 }

running_device-IsLinked : IsLinked running_device
running_device-IsLinked = record {
  fit = λ ch. elim (Bool-cases (ch == 2)) [ inl y ↦ rw y refl | inr n ↦ rw n refl ];
  link = λ ch id. elim (Bool-cases (ch == 2)) [
    | inl y ↦ rw y λ e.
        let same : ch ≡ 2 = (==_iff ch 2).0 y in
        let here : (id == 2) ≡ true = ground (arith, some_injective 2 id e) in
        (omega (arith, same), (busy, rw here refl, ap pos (sym same)))
    | inr n ↦ rw n λ e. absurd (cc e)
  ];
}

-- The transfer has ended.
ended : Reach running_device (tpce_dma_work running_device 2)
ended = followed running_device running_device _ (done running_device) (work running_device 2) refl

Reach-IsLinked_example : IsLinked (tpce_dma_work running_device 2)
Reach-IsLinked_example =
    Reach-IsLinked running_device (tpce_dma_work running_device 2) ended running_device-IsLinked

Reach-unlock_example :
    let freed = tpce_safe_dma_unmap (tpce_dma_work running_device 2) 2 busy in_time in
    (freed.dma_mappings 2 ≡ none) × ((ch : ℕ) → (freed.dma_info ch).map_info ≢ some 2)
Reach-unlock_example =
    Reach-unlock running_device (tpce_dma_work running_device 2) 2 busy in_time
      running_device-IsLinked ended refl

abbrev sample_request : Request
sample_request = record {
  id = 2;
  params = record zero_params {
    bytes_total = 4096;
    channel = 2;
    direction = from_device;
    burst_count = 32;
  };
  descriptors = false;
  descriptors_size = 0;
  descriptors_type = 0;
}

abbrev sample_env : Env
sample_env = record {
  got = both 0x3c0000 (λ _. zero_descriptor);
  user_descriptors = none;
  has_stream_memory = true;
  stale = negsuc 0;
  polls = in_time;
  meanwhile = λ t. tpce_dma_work t 2;
  wait = pos 100;
}

init-Inits_example :
    Inits sample_device 2 sample_request (init_dma_info sample_device 2 sample_request sample_env)
init-Inits_example = init-Inits sample_device 2 sample_request sample_env

-- The file that owns the mapping
abbrev file : Session
file = record { device = running_device; sublist = 2 ∷ [] }

release-AllGone_example :
    let t' = (tpce_release file in_time).0 in
    All (λ id. (t'.dma_mappings id ≡ none) × NotNoted t' id) (2 ∷ [])
release-AllGone_example = release-AllGone file in_time running_device-IsLinked
