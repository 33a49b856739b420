-- ===== src/Descriptors/Fill/Fields.antt =====
-- Reading back what the setters of a descriptor write.
use tpce2drv.Prelude.{
  ℕ, zero, suc, ◌+◌, ◌/◌, ◌%◌, ◌^◌, ◌<◌, ◌==◌, if◌then◌else◌, ◌≡◌, arith, List, [], ◌∷◌, u32,
  bit_and,
}
use tpce2drv.Prelude.Bits.Masks.{bit_and-low, bit_or-fields}
use tpce2drv.Types.{Descriptor, TransferParams, channel_info, from_device}
use tpce2drv.Descriptors.Span.{Segment}
use tpce2drv.Descriptors.Fill.{
  tpce_desc_set_write_64, tpce_desc_get_write, tpce_desc_set_read_64, tpce_desc_get_read,
  set_addresses,
}

-- A 64-bit address is read back from the two halves that the setter wrote.
pub get_write-set_write_64 :
    (d : Descriptor) (v : ℕ) → v < 2 ^ 64 → tpce_desc_get_write (tpce_desc_set_write_64 d v) ≡ v
unfolding tpce_desc_get_write tpce_desc_set_write_64
get_write-set_write_64 d v h =
    omega (arith, bit_and-low 32 v, bit_or-fields 32 (u32 (v / 2 ^ 32)) (bit_and v 0xffffffff))

-- The same for the address that is read from.
pub get_read-set_read_64 :
    (d : Descriptor) (v : ℕ) → v < 2 ^ 64 → tpce_desc_get_read (tpce_desc_set_read_64 d v) ≡ v
unfolding tpce_desc_get_read tpce_desc_set_read_64
get_read-set_read_64 d v h =
    omega (arith, bit_and-low 32 v, bit_or-fields 32 (u32 (v / 2 ^ 32)) (bit_and v 0xffffffff))

-- The host's and the device's side of a descriptor, by the direction of the transfer.
unfoldable pub describe : TransferParams → Descriptor → Segment
describe p d = record {
  bus = if p.direction == from_device then tpce_desc_get_write d else tpce_desc_get_read d;
  dev = if p.direction == from_device then d.read_address_low else d.write_address_low;
  len = d.transfer_length;
}

-- The device's side holds the address, or zero where the channel has a streaming port there.
unfoldable pub port : TransferParams → ℕ → ℕ
port p a =
    if (if p.direction == from_device
      then (channel_info p.channel).has_stream_read
      else (channel_info p.channel).has_stream_write)
    then 0
    else u32 a

pub describe-set_addresses :
    (p : TransferParams) (bus a len : ℕ) (d : Descriptor)
    → bus < 2 ^ 64
    → describe p (set_addresses p bus (u32 a) len d)
      ≡ record { bus = bus; dev = port p a; len = len }
unfolding describe port set_addresses tpce_desc_get_write tpce_desc_get_read
describe-set_addresses p bus a len d h =
    ground (arith, bit_and-low 32 bus, bit_or-fields 32 (u32 (bus / 2 ^ 32)) (bus % 2 ^ 32))

-- The pieces in `n` entries of a buffer from index `i` on.
abbrev pub held : TransferParams → (ℕ → Descriptor) → ℕ → ℕ → List Segment
held p buf i zero = []
held p buf i (suc n) = describe p (buf i) ∷ held p buf (i + 1) n
