-- ===== src/Selector/Defs.antt =====
-- selector/selector.go. `T` and `U` are the relayers of the proxies for streams and for packets,
-- which relay/ makes from the context that AddProxy and AddPacketProxy are given.
use mini_ss.Common.{none, some, if◌then◌else◌}
use mini_ss.Common.Bytes.{Bytes, Bytes_comparable}
use mini_ss.Trie.Defs.{is_empty}
use mini_ss.Ordmap.Defs.{OrderedMap, empty_map, store_entry, load}

pub record Selector (T U : Type 0) : Type 0 where
  pub tcp_proxy_node : OrderedMap Bytes T
  pub udp_proxy_node : OrderedMap Bytes U

-- A direct connection, or one by a relayer.
pub data Invoker {ℓ} (R : Type ℓ) : Type ℓ where
  directly : Invoker R
  by_proxy : R → Invoker R

module _ {T U : Type 0} where
  abbrev pub new_selector : Selector T U
  new_selector = record { tcp_proxy_node = empty_map; udp_proxy_node = empty_map }

  unfoldable pub add_proxy : Selector T U → Bytes → T → Selector T U
  add_proxy s proxy relayer = record s {
    tcp_proxy_node = store_entry s.tcp_proxy_node proxy relayer;
  }

  unfoldable pub add_packet_proxy : Selector T U → Bytes → U → Selector T U
  add_packet_proxy s proxy relayer = record s {
    udp_proxy_node = store_entry s.udp_proxy_node proxy relayer;
  }

  unfoldable pub select_stream : Selector T U → Bytes → Invoker T
  select_stream s proxy =
      if is_empty proxy
      then directly
      else elim (load s.tcp_proxy_node proxy) [ some r ↦ by_proxy r | none ↦ directly ]

  unfoldable pub select_packet : Selector T U → Bytes → Invoker U
  select_packet s proxy =
      if is_empty proxy
      then directly
      else elim (load s.udp_proxy_node proxy) [ some r ↦ by_proxy r | none ↦ directly ]
