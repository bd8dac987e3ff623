-- ===== src/Selector/Laws.antt =====
-- What a name stands for after a proxy was added.
use mini_ss.Common.{◌≡◌, refl, not, ◌&&◌, if◌then◌else◌, arith}
use mini_ss.Common.Bytes.{Bytes, bytes_beq, Bytes_comparable}
use mini_ss.Trie.Defs.{is_empty}
use mini_ss.Ordmap.Laws.{load-store_entry}
use mini_ss.Selector.Defs.{Selector, by_proxy, add_proxy, select_stream, select_packet}

module _ {T U : Type 0} where
  -- After AddProxy the name, unless it is empty, stands for the new relayer, every other name stands
  -- for what it stood for, and packets go where they went.
  pub select_stream-add_proxy :
      (s : Selector T U) (name : Bytes) (relayer : T) (q : Bytes)
      → (select_stream (add_proxy s name relayer) q
          ≡ (if bytes_beq name q && not (is_empty q) then by_proxy relayer else select_stream s q))
        × (select_packet (add_proxy s name relayer) q ≡ select_packet s q)
  unfolding select_stream select_packet add_proxy
  select_stream-add_proxy s name relayer q =
      (ground (arith, load-store_entry s.tcp_proxy_node name relayer q), refl)
