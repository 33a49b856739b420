-- ===== src/Request/Legacy/Short.antt =====
-- linux/request.c: a read of `ioc_dma_read_request_a` that is shorter than its copy.
use tpce2drv.Prelude.{
  ◌+◌, ◌-◌, ◌*◌, ◌%◌, ◌^◌, ◌≤◌, ◌<◌, ltb, if◌then◌else◌, false, ◌≡◌, arith, none, u32,
}
use tpce2drv.Request.Legacy.{DataRead, round8, overread, plan_straight, rolls_over, plan_read}
use tpce2drv.Request.Legacy.Ring.{round8_lem}
use tpce2drv.Request.Legacy.Delivered.{nothing, deliver, read_to_user-beyond}

straight_length :
    (d : DataRead)
    → d.next_address ≡ 1
    → (8 ≤ d.count) × (d.count < 2 ^ 31)
    → 8 < d.address % 4 * 2 + d.count % 8
    → let over1 =
        if ltb (u32 (round8 d.count + overread d)) d.count then overread d + 8 else overread d in
      (if ltb d.count 8 then 16 else u32 (round8 d.count + over1))
      ≤ d.address % 4 * 2 + (d.count - 1)
straight_length d one c h =
    let r = round8_lem d.count (omega (arith, c.1)) in ground (arith, r, one, c.0, c.1, h)

-- A request with stride 1 for at least 8 bytes that stay in one block reads less than it copies when its
-- first byte is so far from a multiple of 8 that the last bytes lie in one more word: the last byte
-- that is copied is one that no read has brought.
pub plan_read-short :
    (d : DataRead)
    → d.next_address ≡ 1
    → rolls_over d ≡ false
    → (8 ≤ d.count) × (d.count < 2 ^ 31)
    → 8 < d.address % 4 * 2 + d.count % 8
    → (deliver (plan_read d) nothing).user (d.data_ptr + (d.count - 1)) ≡ none
unfolding plan_read plan_straight
plan_read-short d one same c h = rw same (
    read_to_user-beyond d.data_ptr _ (d.address % 4 * 2) d.count (d.count - 1) (omega (arith, c.0))
      (straight_length d one c h))
