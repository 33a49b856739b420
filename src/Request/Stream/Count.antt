-- ===== src/Request/Stream/Count.antt =====
-- linux/request.c: the state of a stream and the count of its users.
use tpce2drv.Prelude.{ℕ, ◌≡◌, ltb, ◌+◌, ◌⊎◌, some, none, is_some}
use tpce2drv.Device.{StreamInfo, Result, ok, failed, enomem}

-- The state is there if and only if the count is not 0.
unfoldable pub IsCounted : StreamInfo → Type 0
IsCounted info = is_some info.state ≡ ltb 0 info.state_refs

-- The use of a stream's state counts one user more and resets the counters, or there is no memory for
-- the first use and nothing changes.
unfoldable pub Used : StreamInfo → StreamInfo × Result ℕ → Type 0
Used info (after, r) =
    ((r ≡ ok 0)
      × (after.state_refs ≡ info.state_refs + 1)
      × (after.state ≡ some (record { produced = 0; consumed = 0 })))
    ⊎ ((r ≡ failed enomem) × (info.state ≡ none) × (after ≡ info))
