-- ===== src/Address/Safety.antt =====
-- What `ParseAddressFromReader` does on every input.
use mini_ss.Common.{ℕ, ◌+◌, ◌≤◌, ◌<◌, ◌≢◌, arith, ltb, ◌==◌}
use mini_ss.Common.Bytes.{IsBytes}
use mini_ss.Stream.{
  panics, Io, read_full, slice, byte_at, ◌>>=◌, ◌>>◌, addr_type_not_supported, short_buffer,
  buf_length,
}
use mini_ss.Stream.Safe.{
  IsReady, Safe, Always, Safe-if, Safe-weaken, Safe-buf_length, Good-ne-panics, Safe-bind,
  Safe-fail, Safe-read_full, Safe-byte_at, Safe-slice,
}
use mini_ss.Address.Defs.{parse_address_from_reader, read_address}
use mini_ss.Address.Wire.{max_address_buffer_size}

abbrev max : ℕ
max = max_address_buffer_size

-- A piece of `n` bytes, and the address that ends at `size`.
read_piece :
    (off n size : ℕ)
    → off + n ≤ max
    → size ≤ max
    → Safe max IsBytes (do read_full off n; slice 0 size)
read_piece off n size h k =
    Safe-bind max Always IsBytes (read_full off n) (λ _. slice 0 size) (Safe-read_full max off n h)
      λ _ _.
        Safe-weaken max _ IsBytes (slice 0 size) (λ a q. q.1) (Safe-slice max 0 size (omega arith))

read_domain-Safe :
    Safe max IsBytes (do read_full 1 1; n ← byte_at 1; read_full 2 (n + 2); slice 0 (1 + 1 + n + 2))
read_domain-Safe =
    Safe-bind max Always IsBytes (read_full 1 1) _ (Safe-read_full max 1 1 (omega arith)) λ _ _.
      Safe-bind max (λ v. v < 256) IsBytes (byte_at 1) _ (Safe-byte_at max 1 (omega arith))
        λ n small. read_piece 2 (n + 2) (1 + 1 + n + 2) (omega arith) (omega arith)

read_address-Safe : (t : ℕ) → Safe max IsBytes (read_address t)
unfolding read_address
read_address-Safe t = Safe-if max IsBytes (t == 3) _ _ read_domain-Safe (
    Safe-if max IsBytes (t == 1) _ _ (read_piece 1 6 7 (omega arith) (omega arith)) (
      Safe-if max IsBytes (t == 4) _ _ (read_piece 1 18 19 (omega arith) (omega arith))
        (Safe-fail max IsBytes addr_type_not_supported)))

pub parse_address_from_reader-Safe : Safe max IsBytes parse_address_from_reader
unfolding parse_address_from_reader
parse_address_from_reader-Safe =
    Safe-bind max Always IsBytes buf_length _ (Safe-buf_length max) λ n _.
      Safe-if max IsBytes (ltb n 1) _ _ (Safe-fail max IsBytes short_buffer) (
        Safe-bind max Always IsBytes (read_full 0 1) _ (Safe-read_full max 0 1 (omega arith)) λ _ _.
          Safe-bind max (λ v. v < 256) IsBytes (byte_at 0) _ (Safe-byte_at max 0 (omega arith))
            λ t _. read_address-Safe t)

-- With a buffer of `MaxAddressBufferSize` bytes no index or slice expression is out of range,
-- whatever the peer sends.
pub parse_address_from_reader-ne-panics :
    (s : Io) → IsReady max_address_buffer_size s → (parse_address_from_reader s).0 ≢ panics
parse_address_from_reader-ne-panics s h =
    Good-ne-panics max IsBytes (parse_address_from_reader s)
      (parse_address_from_reader-Safe.run s h)
