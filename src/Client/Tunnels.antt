-- ===== src/Client/Tunnels.antt =====
-- The TCP tunnels that NewShadowsocksClient starts, and the texts of the configuration file that
-- they come from.
use mini_ss.Common.{
  ◌≡◌, refl, Bool, true, false, ◌&&◌, if◌then◌else◌, List, [], ◌∷◌, map, arith, ◌==◌,
}
use mini_ss.Common.Bytes.{Bytes}
use mini_ss.Stream.{ok, panics}
use mini_ss.Config.LocalPart.{cut_at, split_tun_addr_info}
use mini_ss.Client.Defs.{Listener, tcp_tun, tun_listener, tun_listeners}

abbrev pub has_separator : Bytes → Bool
has_separator [] = false
has_separator (b ∷ bs) = if b == b'=' then true else has_separator bs

abbrev pub all_separated : List Bytes → Bool
all_separated [] = true
all_separated (t ∷ ts) = has_separator t && all_separated ts

-- Both sides of the first "=" of a text.
abbrev pub tunnel_of : Bytes → Listener
tunnel_of text = tcp_tun (cut_at b'=' text).0 (cut_at b'=' text).1

cut_at-found : (t : Bytes) → (cut_at b'=' t).2 ≡ has_separator t
unfolding cut_at
cut_at-found [] = refl
cut_at-found (b ∷ bs) = ground (arith, cut_at-found bs)

tun_listener-split :
    (t : Bytes)
    → tun_listener (split_tun_addr_info t) ≡ (if has_separator t then ok (tunnel_of t) else panics)
unfolding split_tun_addr_info
tun_listener-split t = ground (arith, cut_at-found t)

-- The tunnels of the addresses of a configuration file: where each text has a "=", the two sides of
-- it, in their order; where one has none, the start of the client panics, although splitTunAddrInfo
-- has an error for it.
pub tun_listeners-split :
    (ts : List Bytes)
    → tun_listeners (map split_tun_addr_info ts)
      ≡ (if all_separated ts then ok (map tunnel_of ts) else panics)
unfolding tun_listeners
tun_listeners-split [] = refl
tun_listeners-split (t ∷ ts) = ground (arith, tun_listener-split t, tun_listeners-split ts)
