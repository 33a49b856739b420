-- ===== src/Buffers/Examples.antt =====
-- Buffers at concrete values: the last step of an allocation fails, a pinned buffer is mapped.
use tpce2drv.Prelude.{arith, true, [], ◌∷◌, List}
use tpce2drv.Types.{SgEntry}
use tpce2drv.Device.{ebusy, failed, ok}
use tpce2drv.Buffers.{AllocEnv, LockEnv, BufIn, tpce_dma_alloc_buffer, tpce_dma_lock_user_buffer}
use tpce2drv.Buffers.Balance.{IsBalanced, alloc_buffer-IsBalanced, lock_user_buffer-IsBalanced}

abbrev one_range : List SgEntry
one_range = record { dma_address = 0x100000; dma_len = 8192; offset = 0 } ∷ []

abbrev id_is_taken : AllocEnv
id_is_taken = record {
  has_info = true;
  has_pages = true;
  has_virtual = true;
  sg_alloc = ok 0;
  dma_map = ok one_range;
  xa = failed ebusy;
}

abbrev all_succeeds : LockEnv
all_succeeds = record {
  has_info = true;
  pinned = ok 2;
  sg_alloc = ok 0;
  dma_map = ok one_range;
  has_ranges_memory = true;
  copied = true;
  xa = ok 5;
}

abbrev two_pages : BufIn
two_pages = record { buf = 0x7f0000; size = 8192; ranges = true; ranges_size = 64; direction = 2 }

alloc_buffer-IsBalanced_example : IsBalanced (tpce_dma_alloc_buffer 8192 0 id_is_taken)
alloc_buffer-IsBalanced_example = alloc_buffer-IsBalanced 8192 0 id_is_taken

lock_user_buffer-IsBalanced_example : IsBalanced (tpce_dma_lock_user_buffer two_pages all_succeeds)
lock_user_buffer-IsBalanced_example =
    lock_user_buffer-IsBalanced two_pages all_succeeds (λ e. absurd (omega arith))
