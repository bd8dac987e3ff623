-- ===== src/Client/Defs.antt =====
-- NewShadowsocksClient and initServerOption of ss/ss_client.go. `T` and `U` are the relayers that a
-- server's options stand for, for streams and for packets; `relayers` is what the ciphers, the SSR
-- protocols and relay/ make of them, `none` where Fatal ends the program. The default interface of
-- the system is `route`.
use mini_ss.Common.{◌+◌, ◌*◌, ◌^◌, not, List, [], ◌∷◌, ◌++◌, Option, none, some, if◌then◌else◌}
use mini_ss.Common.Bytes.{Bytes, codes}
use mini_ss.Stream.{Outcome, ok, err, panics}
use mini_ss.Trie.Defs.{is_empty}
use mini_ss.Socks.Auth.{Auth}
use mini_ss.Rule.Ruler.{Ruler}
use mini_ss.Selector.Defs.{Selector, add_proxy, add_packet_proxy}
use mini_ss.Options.Settings.{
  ServerOptions, LocalOptions, zero_local, EnhancerConfig, Globals, Settings, SsOption, apply_all,
}

-- defaultSSLocalOpts: the prefix is 198.18.0.1/16.
unfoldable pub default_local_opts : LocalOptions
default_local_opts = record zero_local {
  enhancer_config = record (zero_local.enhancer_config) {
    tun_name = codes "utun3";
    tun_inet4_address = (198 * 2 ^ 24 + 18 * 2 ^ 16 + 1, 16) ∷ [];
  };
}

abbrev pub default_name : Bytes
default_name = codes "<Default>"

unfoldable pub detect_interface : Option Bytes → Globals → Globals
detect_interface route g =
    if g.default_options.auto_detect_interface
    then elim route [
      | some name ↦ record g {
        default_options = record (g.default_options) { outbound_interface = name };
      }
      | none ↦ g
    ]
    else g

-- A proxy that is alone and has no name gets one, and is the global one, if no other is.
abbrev pub name_alone : Settings → ServerOptions → Option Ruler → Outcome Settings
name_alone s o none = panics
name_alone s o (some r) =
    if is_empty r.global_to
    then ok (record s {
      server_opts = record o { name = default_name } ∷ [];
      globals = record (s.globals) { match_ruler = some (record r { global_to = default_name }) };
    })
    else ok s

unfoldable pub name_single : Settings → Outcome Settings
name_single s = elim s.server_opts [
  | [] ↦ ok s
  | o ∷ os ↦ elim os [
    | [] ↦ if is_empty o.name then name_alone s o s.globals.match_ruler else ok s
    | p ∷ ps ↦ ok s
  ]
]

-- The servers that are started.
pub data Listener : Type 0 where
  tcp_tun : Bytes → Bytes → Listener
  mixed : Bytes → Option Auth → Option Auth → Listener
  http_proxy : Bytes → Option Auth → Listener
  socks_proxy : Bytes → Option Auth → Listener

-- `addrs[0]` and `addrs[1]`
abbrev pub tun_listener : List Bytes → Outcome Listener
tun_listener (here ∷ remote ∷ more) = ok (tcp_tun here remote)
tun_listener (here ∷ []) = panics
tun_listener [] = panics

unfoldable pub tun_listeners : List (List Bytes) → Outcome (List Listener)
tun_listeners [] = ok []
tun_listeners (a ∷ as_) =
    let more = tun_listeners as_ in
    elim (tun_listener a) [
      | ok l ↦ elim more [ ok ls ↦ ok (l ∷ ls) | err e ↦ err e | panics ↦ panics ]
      | err e ↦ err e
      | panics ↦ panics
    ]

unfoldable pub proxy_listeners : LocalOptions → List Listener
proxy_listeners l =
    if not (is_empty l.mixed_addr)
    then mixed l.mixed_addr l.http_auth l.socks_auth ∷ []
    else (if not (is_empty l.http_addr) then http_proxy l.http_addr l.http_auth ∷ [] else [])
      ++ (if not (is_empty l.socks_addr) then socks_proxy l.socks_addr l.socks_auth ∷ [] else [])

pub record Client (T U : Type 0) : Type 0 where
  pub settings : Settings
  pub selector : Selector T U
  pub listeners : List Listener
  pub enhancer : Option EnhancerConfig

module _ {T U : Type 0} where
  -- The last lines of initServerOption.
  abbrev pub add_server : Selector T U → ServerOptions → T → U → Selector T U
  add_server s o stream packet =
      let added = add_proxy s o.name stream in
      if o.udp then add_packet_proxy added o.name packet else added

  unfoldable pub init_server_option :
      (ServerOptions → Option (T × U)) → Selector T U → ServerOptions → Outcome (Selector T U)
  init_server_option relayers s o = elim (relayers o) [
    | some (stream, packet) ↦ ok (add_server s o stream packet)
    | none ↦ panics
  ]

  unfoldable pub init_servers :
      (ServerOptions → Option (T × U)) → Selector T U → List ServerOptions → Outcome (Selector T U)
  unfolding init_server_option
  init_servers relayers s [] = ok s
  init_servers relayers s (o ∷ os) = elim (init_server_option relayers s o) [
    | ok s' ↦ init_servers relayers s' os
    | err e ↦ err e
    | panics ↦ panics
  ]

  abbrev pub finish :
      Settings → Outcome (Selector T U) → Outcome (List Listener) → Outcome (Client T U)
  finish s (ok sel) (ok tuns) = ok (record {
    settings = s;
    selector = sel;
    listeners = tuns ++ proxy_listeners s.local_opts;
    enhancer = if s.local_opts.enable_tun then some s.local_opts.enhancer_config else none;
  })
  finish s (ok sel) (err e) = err e
  finish s (ok sel) panics = panics
  finish s (err e) tuns = err e
  finish s panics tuns = panics

  -- `g` are the variables of other packages, and `sel` is selector.ProxySelector.
  unfoldable pub new_client :
      (ServerOptions → Option (T × U))
      → Option Bytes
      → Globals
      → Selector T U
      → List SsOption
      → Outcome (Client T U)
  unfolding apply_all detect_interface name_single init_servers tun_listeners proxy_listeners
      default_local_opts
  new_client relayers route g sel opts =
      elim (apply_all opts
        (record { server_opts = []; local_opts = default_local_opts; globals = g })) [
          | ok s ↦ elim (name_single (record s { globals = detect_interface route s.globals })) [
            | ok t ↦
                finish t (init_servers relayers sel t.server_opts)
                  (tun_listeners t.local_opts.tcp_tun_addr)
            | err e ↦ err e
            | panics ↦ panics
          ]
          | err e ↦ err e
          | panics ↦ panics
        ]
