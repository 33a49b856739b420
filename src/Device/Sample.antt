-- ===== src/Device/Sample.antt =====
-- A device at rest, a mapping of two ranges and a device that streams, for the examples.
use tpce2drv.Prelude.{◌==◌, if◌then◌else◌, none, some, negsuc, pos, [], ◌∷◌, List, false, true}
use tpce2drv.Types.{zero_params, MapInfo, SgEntry}
use tpce2drv.PageTable.{empty_table}
use tpce2drv.Device.{Tpce, running, idle_info}

abbrev pub two_ranges : List SgEntry
two_ranges =
    record { dma_address = 0x100000; dma_len = 4096; offset = 0 }
    ∷ record { dma_address = 0x240000; dma_len = 8192; offset = 0 }
    ∷ []

abbrev pub sample_mapping : MapInfo
sample_mapping = record {
  owner = some 7;
  buf_usr = true;
  buf_drv = false;
  id = 2;
  size = 12288;
  num_pages = 3;
  direction = 2;
  active_channel = negsuc 0;
  sgt = two_ranges;
}

abbrev pub sample_device : Tpce
sample_device = record {
  dma_mappings = λ id. if id == 2 then some sample_mapping else none;
  page_table = empty_table;
  dma_info = λ ch. idle_info;
  hw_status = 0;
  hw_pending = false;
  irqsrc = 0;
  fast_irq_mask = 0x400;
  refs = 1;
  going_away = false;
  bar2_writes = [];
}

-- Channel 2 runs a transfer on the mapping.
abbrev pub running_device : Tpce
running_device = record sample_device {
  dma_mappings =
      λ id. if id == 2 then some (record sample_mapping { active_channel = pos 2 }) else none;
  dma_info = λ ch.
      if ch == 2
      then record idle_info {
        params = record zero_params { channel = 2 };
        map_info = some 2;
        state = running;
      }
      else idle_info;
}
