-- ===== src/Request/Examples.antt =====
-- A request that is run, a mapping that is taken back, and a stream's count, at concrete values.
use tpce2drv.Prelude.{ℕ, ◌≡◌, ◌<◌, refl, arith, false, true, none, some, pos, negsuc}
use tpce2drv.Types.{zero_descriptor, zero_params, MapInfo, from_device}
use tpce2drv.PageTable.Laws.{without}
use tpce2drv.PageTable.Slots.{IsValid, entry}
use tpce2drv.Device.{StreamInfo, idle, enomem, failed, ok, no_stream}
use tpce2drv.Request.Stream.Mmap.{
  MmapEnv, map_stream, IsUndone, map_stream-IsUndone, map_stream-locked,
}
use tpce2drv.Device.Sample.{sample_device, running_device, sample_mapping}
use tpce2drv.Dma.Memory.{both}
use tpce2drv.Dma.Stop.{Polls}
use tpce2drv.Request.{Request, Env, dma_execute, release_channel, tpce_safe_dma_unmap}
use tpce2drv.Request.Laws.{IsSettled, execute-IsSettled, release-frees}
use tpce2drv.Request.Unmap.{safe_unmap-idle}
use tpce2drv.Request.Stream.Count.{IsCounted}

abbrev in_time : Polls
in_time = record { prefetcher_timeout = false; csr_state = 0; stop_timeout = false }

abbrev sample_request : Request
sample_request = record {
  id = 2;
  params = record zero_params {
    bytes_total = 4096;
    channel = 2;
    direction = from_device;
    burst_count = 32;
  };
  descriptors = false;
  descriptors_size = 0;
  descriptors_type = 0;
}

abbrev sample_env : Env
sample_env = record {
  got = both 0x3c0000 (λ _. zero_descriptor);
  user_descriptors = none;
  has_stream_memory = true;
  stale = negsuc 0;
  polls = in_time;
  meanwhile = λ t. t;
  wait = pos 100;
}

execute-IsSettled_example : IsSettled 2 (dma_execute sample_device sample_request sample_env)
execute-IsSettled_example = execute-IsSettled sample_device sample_request sample_env refl

abbrev busy : MapInfo
busy = record sample_mapping { active_channel = pos 2 }

running_device-IsValid : IsValid running_device.page_table
running_device-IsValid = record { mask16 = omega arith; in_bounds = refl }

release-frees_example :
    ((release_channel running_device 2).dma_mappings 2
      ≡ some (record busy { active_channel = negsuc 0 }))
    × ((j : ℕ)
        → j < 16
        → entry (release_channel running_device 2).page_table j
          ≡ without 2 (entry running_device.page_table j))
release-frees_example =
    release-frees running_device 2 2 busy running_device-IsValid (omega arith) refl refl

safe_unmap-idle_example :
    let t' = tpce_safe_dma_unmap running_device 2 busy in_time in
    ((t'.dma_info 2).state ≡ idle) × (t'.dma_mappings 2 ≡ none)
safe_unmap-idle_example = safe_unmap-idle running_device 2 2 busy in_time refl (omega arith)

no_stream-IsCounted : IsCounted no_stream
unfolding IsCounted
no_stream-IsCounted = refl

-- Two areas show the same state.
abbrev shared : StreamInfo
shared = record no_stream { state = some (record { produced = 0; consumed = 0 }); state_refs = 2 }

abbrev new_area : MmapEnv
new_area = record { lock = ok 0; has_memory = true; remap = failed enomem }

map_stream-IsUndone_example : IsUndone sample_device 2 (map_stream sample_device 2 new_area)
map_stream-IsUndone_example = map_stream-IsUndone sample_device 2 new_area no_stream-IsCounted

map_stream-locked_example :
    (map_stream sample_device 2 (record new_area { has_memory = false })).locked ≡ true
map_stream-locked_example =
    map_stream-locked sample_device 2 (record new_area { has_memory = false }) no_stream-IsCounted
