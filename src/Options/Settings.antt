-- ===== src/Options/Settings.antt =====
-- What the options of ss/option.go are applied to: the fields of ssOptions, and the variables of
-- other packages that some of them set.
use mini_ss.Common.{ℕ, Bool, false, List, [], ◌∷◌, Option, none, some}
use mini_ss.Common.Bytes.{Bytes}
use mini_ss.Stream.{Outcome, ok, err, panics}
use mini_ss.Socks.Auth.{Auth}
use mini_ss.Rule.Ruler.{Ruler}
use mini_ss.Options.Defs.{DefaultOptions, TransportOptions}

-- transport.Type
pub data TransportType : Type 0 where
  tcp quic_type websocket obfs_type grpc_type ssh_type : TransportType

-- ssr.ShadowsocksROption
pub record SsrOption : Type 0 where
  pub protocol : Bytes
  pub protocol_param : Bytes
  pub obfs : Bytes
  pub obfs_param : Bytes

pub record ServerOptions : Type 0 where
  pub name : Bytes
  pub addr : Bytes
  pub method : Bytes
  pub password : Bytes
  pub transport : TransportType
  pub udp : Bool
  pub opts : Option TransportOptions
  pub ssr : Bool
  pub ssr_opt : SsrOption

abbrev pub zero_server : ServerOptions
zero_server = record {
  name = [];
  addr = [];
  method = [];
  password = [];
  transport = tcp;
  udp = false;
  opts = none;
  ssr = false;
  ssr_opt = record { protocol = []; protocol_param = []; obfs = []; obfs_param = [] };
}

-- The fields of enhancer.EnhancerConfig that are set. An address prefix is its address and length,
-- and an address with a port is both.
pub record EnhancerConfig : Type 0 where
  pub tun_name : Bytes
  pub tun_inet4_address : List (ℕ × ℕ)
  pub tun_mtu : ℕ
  pub tun_auto_route : Bool
  pub fake_dns : Bytes
  pub disable_rewrite : Bool
  pub dns_hijack : List (ℕ × ℕ)

-- proxy.MimtOption
pub record MitmConfig : Type 0 where
  pub enable : Bool
  pub proxy : Bytes
  pub ca_path : Bytes
  pub key_path : Bytes
  pub capacity : ℕ
  pub interval : ℕ
  pub expire_second : ℕ

pub record LocalOptions : Type 0 where
  pub socks_addr : Bytes
  pub http_addr : Bytes
  pub mixed_addr : Bytes
  pub socks_auth : Option Auth
  pub http_auth : Option Auth
  pub tcp_tun_addr : List (List Bytes)
  pub system_proxy : Bool
  pub enable_tun : Bool
  pub lookup_hosts_file : Bool
  pub enhancer_config : EnhancerConfig
  pub mitm_config : MitmConfig

abbrev pub zero_local : LocalOptions
zero_local = record {
  socks_addr = [];
  http_addr = [];
  mixed_addr = [];
  socks_auth = none;
  http_auth = none;
  tcp_tun_addr = [];
  system_proxy = false;
  enable_tun = false;
  lookup_hosts_file = false;
  enhancer_config = record {
    tun_name = [];
    tun_inet4_address = [];
    tun_mtu = 0;
    tun_auto_route = false;
    fake_dns = [];
    disable_rewrite = false;
    dns_hijack = [];
  };
  mitm_config = record {
    enable = false;
    proxy = [];
    ca_path = [];
    key_path = [];
    capacity = 0;
    interval = 0;
    expire_second = 0;
  };
}

-- options.DefaultOptions, resolver.DefaultDomainFilter, resolver.DefaultDnsNameservers and
-- rule.MatchRuler
pub record Globals : Type 0 where
  pub default_options : DefaultOptions
  pub domain_filter : List Bytes
  pub dns_nameservers : List Bytes
  pub match_ruler : Option Ruler

pub record Settings : Type 0 where
  pub server_opts : List ServerOptions
  pub local_opts : LocalOptions
  pub globals : Globals

-- `applyTo` of an option; an index out of range, a type assertion or a nil pointer panics.
abbrev pub SsOption : Type 0
SsOption = Settings → Outcome Settings

-- The options in their order.
unfoldable pub apply_all : List SsOption → SsOption
apply_all [] s = ok s
apply_all (o ∷ os) s = elim (o s) [ ok s' ↦ apply_all os s' | err e ↦ err e | panics ↦ panics ]

-- A write to a field of `so.serverOpts[0]`.
abbrev pub set_server : (ServerOptions → ServerOptions) → SsOption
set_server f s = elim s.server_opts [
  | [] ↦ panics
  | o ∷ os ↦ ok (record s { server_opts = f o ∷ os })
]

-- A write through `so.serverOpts[0].opts`, which `f` has a case for or does not.
abbrev pub set_transport : (TransportOptions → Option TransportOptions) → SsOption
set_transport f s = elim s.server_opts [
  | [] ↦ panics
  | o ∷ os ↦ elim (o.opts) [
    | none ↦ panics
    | some t ↦ elim (f t) [
      | some t' ↦ ok (record s { server_opts = record o { opts = some t' } ∷ os })
      | none ↦ panics
    ]
  ]
]

abbrev pub set_local : (LocalOptions → LocalOptions) → SsOption
set_local f s = ok (record s { local_opts = f s.local_opts })

abbrev pub set_globals : (Globals → Globals) → SsOption
set_globals f s = ok (record s { globals = f s.globals })
