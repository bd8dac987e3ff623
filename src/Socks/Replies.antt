-- ===== src/Socks/Replies.antt =====
-- What `request` of ss/socks.go reads and what it answers.
use mini_ss.Common.{ℕ, ◌+◌, ◌≤◌, ◌≡◌, refl, ap, ◌∙◌, some, [], ◌∷◌, ◌++◌, length, replicate, arith}
use mini_ss.Common.Bytes.{Bytes, codes}
use mini_ss.Stream.{ok, splice, put_byte, copy_at, slice, length-splice, write, version5_invalid}
use mini_ss.Stream.Fill.{splice_nil, slice_seen, first_seen, after, put_next, copy_next}
use mini_ss.Address.Defs.{to4, write_port, write_address, parse_address_from_host_port}
use mini_ss.Address.Wire.{Addr, encode, IsAddr, max_address_buffer_size}
use mini_ss.Address.Reader.{parse_address_from_reader-encode}
use mini_ss.Socks.Accepts.{expect_byte-read, read_front}
use mini_ss.Socks.Request.{
  SocksNet, read_request, bind_addr, reply_success, reply_bound, handle_cmd_connect,
}

abbrev pub asked : ℕ → ℕ → Bytes → Bytes → Bytes
asked cmd rsv dst rest = 5 ∷ cmd ∷ rsv ∷ (dst ++ rest)

-- The buffer when a request was read.
abbrev pub filled : ℕ → ℕ → Bytes → Bytes → Bytes
filled cmd rsv dst b = splice 0 dst (splice 0 (cmd ∷ rsv ∷ []) (splice 0 (5 ∷ []) b))

pub length-filled : (cmd rsv : ℕ) (dst b : Bytes) → length (filled cmd rsv dst b) ≡ length b
length-filled cmd rsv dst b =
    length-splice 0 dst (splice 0 (cmd ∷ rsv ∷ []) (splice 0 (5 ∷ []) b))
    ∙ length-splice 0 (cmd ∷ rsv ∷ []) (splice 0 (5 ∷ []) b)
    ∙ length-splice 0 (5 ∷ []) b

pub read_request-read :
    (cmd rsv : ℕ) (x : Addr) (rest output b : Bytes)
    → IsAddr x
    → max_address_buffer_size ≤ length b
    → read_request (record { input = asked cmd rsv (encode x) rest; output = output; buf = b }) ≡ (
      ok (cmd, encode x),
      record { input = rest; output = output; buf = filled cmd rsv (encode x) b },
    )
unfolding read_request
read_request-read cmd rsv x rest output b h room =
    let b1 : Bytes = splice 0 (5 ∷ []) b in
    let size : length b1 ≡ length b = length-splice 0 (5 ∷ []) b in
    let b2 : Bytes = splice 0 (cmd ∷ rsv ∷ []) b1 in
    let size2 : length b2 ≡ length b = length-splice 0 (cmd ∷ rsv ∷ []) b1 ∙ size in
    simp
      (
        expect_byte-read 5 version5_invalid (cmd ∷ rsv ∷ (encode x ++ rest)) output b (omega arith),
        read_front (cmd ∷ rsv ∷ []) (encode x ++ rest) output b1 (omega arith),
        first_seen cmd (rsv ∷ []) (encode x ++ rest) output b1 (omega arith),
        parse_address_from_reader-encode x rest output b2 h (omega (arith, size2, room)),
      )
      refl

-- The reply of a success.
abbrev pub success : Bytes → Bytes
success bind = 5 ∷ 0 ∷ 0 ∷ bind

reply_success-write :
    (bind input output b : Bytes)
    → 3 + length bind ≤ length b
    → reply_success bind (record { input = input; output = output; buf = b })
      ≡ (ok tt, after (success bind) input (output ++ success bind) b)
unfolding reply_success write
reply_success-write bind input output b h = ground (
  arith,
  splice_nil b,
  put_next [] input output b 5 (omega arith),
  put_next (5 ∷ []) input output b 0 (omega arith),
  put_next (5 ∷ 0 ∷ []) input output b 0 (omega arith),
  copy_next (5 ∷ 0 ∷ 0 ∷ []) input output b bind (omega arith),
  slice_seen (success bind) output b (omega arith) input,
)

-- 0.0.0.0 as net.ParseIP gives it, and the address with port 0.
abbrev pub any_ip : Bytes
any_ip = replicate 10 0 ++ (255 ∷ 255 ∷ replicate 4 0)

abbrev pub any_addr : Bytes
any_addr = 1 ∷ replicate 6 0

bind_addr-any :
    (net : SocksNet)
    → net.net_ip.parse_ip (codes "0.0.0.0") ≡ some any_ip
    → bind_addr net (codes "0.0.0.0") 0 ≡ ok any_addr
unfolding parse_address_from_host_port write_address to4 write_port put_byte copy_at slice splice
bind_addr-any net e = ground (arith, e)

pub handle_cmd_connect-write :
    (net : SocksNet) (input output b : Bytes)
    → net.net_ip.parse_ip (codes "0.0.0.0") ≡ some any_ip
    → max_address_buffer_size ≤ length b
    → handle_cmd_connect net (record { input = input; output = output; buf = b })
      ≡ (ok tt, after (success any_addr) input (output ++ success any_addr) b)
unfolding handle_cmd_connect
handle_cmd_connect-write net input output b e room =
    ap (λ o. reply_bound o (record { input = input; output = output; buf = b }))
      (bind_addr-any net e)
    ∙ reply_success-write any_addr input output b (omega arith)
