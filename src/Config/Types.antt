-- ===== src/Config/Types.antt =====
-- The structs of config/config.go; a pointer is an Option, and an `int` its 64-bit pattern. The log
-- options, which no modelled function reads, are left out.
use mini_ss.Common.{ℕ, Bool, List, Option}
use mini_ss.Common.Bytes.{Bytes}

pub record TlsOption : Type 0 where
  pub mode : Bytes
  pub hostname : Bytes
  pub key_path : Bytes
  pub cert_path : Bytes
  pub ca_path : Bytes

pub record WsOption : Type 0 where
  pub path : Bytes
  pub host : Bytes
  pub compress : Bool
  pub tls : TlsOption

pub record ObfsOption : Type 0 where
  pub host : Bytes

pub record QuicOption : Type 0 where
  pub conns : ℕ
  pub keep_alive : ℕ
  pub max_idle_timeout : ℕ
  pub handshake_idle_timeout : ℕ
  pub tls : TlsOption

pub record GrpcOption : Type 0 where
  pub send_buffer_size : ℕ
  pub recv_buffer_size : ℕ
  pub tls : TlsOption

pub record SshOption : Type 0 where
  pub user : Bytes
  pub password : Bytes
  pub private_key : Bytes
  pub public_key : Bytes
  pub authorized_key : Bytes

pub record SsrConfig : Type 0 where
  pub protocol : Bytes
  pub protocol_param : Bytes
  pub obfs : Bytes
  pub obfs_param : Bytes

pub record ServerConfig : Type 0 where
  pub disable : Bool
  pub server_type : Bytes
  pub name : Bytes
  pub addr : Bytes
  pub password : Bytes
  pub method : Bytes
  pub transport : Bytes
  pub udp : Bool
  pub ws : Option WsOption
  pub obfs : Option ObfsOption
  pub quic : Option QuicOption
  pub grpc : Option GrpcOption
  pub ssh : Option SshOption
  pub ssr : Option SsrConfig

pub record TunOption : Type 0 where
  pub enable : Bool
  pub name : Bytes
  pub cidr : Bytes
  pub mtu : ℕ
  pub auto_route : Bool
  pub dns_hijack : List Bytes

pub record DnsOption : Type 0 where
  pub listen : Bytes
  pub domain_filter : List Bytes
  pub nameservers : List Bytes
  pub disable_rewrite : Bool

pub record MitmFakeCertPool : Type 0 where
  pub capacity : ℕ
  pub interval : ℕ
  pub expire_second : ℕ

pub record MitmOption : Type 0 where
  pub enable : Bool
  pub proxy : Bytes
  pub ca_path : Bytes
  pub key_path : Bytes
  pub fake_cert_pool : Option MitmFakeCertPool

pub record LocalConfig : Type 0 where
  pub socks_addr : Bytes
  pub http_addr : Bytes
  pub socks_auth : Bytes
  pub http_auth : Bytes
  pub mixed_addr : Bytes
  pub tcp_tun_addr : List Bytes
  pub system_proxy : Bool
  pub lookup_hosts_file : Bool
  pub mitm : Option MitmOption
  pub tun : Option TunOption
  pub dns : Option DnsOption

-- Domain, DomainKeyword and DomainSuffix, which have the same fields.
pub record DomainConfig : Type 0 where
  pub proxy : Bytes
  pub action : Bytes
  pub value : List Bytes

-- GeoIP and IPCidr
pub record AddressConfig : Type 0 where
  pub resolve : Bool
  pub proxy : Bytes
  pub action : Bytes
  pub value : List Bytes

pub record MatchConfig : Type 0 where
  pub others : Bytes
  pub domains : List DomainConfig
  pub domain_keywords : List DomainConfig
  pub domain_suffixs : List DomainConfig
  pub geoips : List AddressConfig
  pub ip_cidrs : List AddressConfig

pub record RulesConfig : Type 0 where
  pub mode : Bytes
  pub direct_to : Bytes
  pub global_to : Bytes
  pub match_rules : Option MatchConfig

pub record Config : Type 0 where
  pub server : List ServerConfig
  pub local_part : Option LocalConfig
  pub iface : Bytes
  pub auto_detect_iface : Bool
  pub rules : Option RulesConfig
