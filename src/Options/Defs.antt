-- ===== src/Options/Defs.antt =====
-- options/option.go: the options of the transports, with their defaults. An `int` is its 64-bit
-- pattern, and so is a time.Duration, which counts nanoseconds.
use mini_ss.Common.{ℕ, ◌*◌, ◌%◌, ◌^◌, ◌&&◌, Bool, false, [], ltb, not, ◌==◌}
use mini_ss.Common.Bytes.{Bytes, codes}

-- time.Second * time.Duration(n)
unfoldable pub seconds : ℕ → ℕ
seconds n = (10 ^ 9 * n) % 2 ^ 64

-- `0 < n` of an `int`
unfoldable pub is_positive : ℕ → Bool
is_positive n = not (n == 0) && ltb n (2 ^ 63)

pub data TlsMode : Type 0 where
  no_tls tls mtls : TlsMode

pub record TlsOptions : Type 0 where
  pub mode : TlsMode
  pub ca_file : Bytes
  pub key_file : Bytes
  pub cert_file : Bytes
  pub hostname : Bytes

abbrev pub zero_tls : TlsOptions
zero_tls = record { mode = no_tls; ca_file = []; key_file = []; cert_file = []; hostname = [] }

pub record WsOptions : Type 0 where
  pub tls_options : TlsOptions
  pub host : Bytes
  pub path : Bytes
  pub snd_buffer : ℕ
  pub rev_buffer : ℕ
  pub compress : Bool
  pub user_agent : Bytes

abbrev pub user_agent_text : Bytes
user_agent_text =
    codes
      "Mozilla/5.0 (Macintosh; Intel Mac OS X 10_15_7) AppleWebKit/537.36 (KHTML, like Gecko) Chrome/106.0.0.0 Safari/537.36"

-- DefaultWsOptions
unfoldable pub default_ws_options : WsOptions
default_ws_options = record {
  tls_options = zero_tls;
  host = codes "www.baidu.com";
  path = codes "/ws";
  snd_buffer = 4096;
  rev_buffer = 4096;
  compress = false;
  user_agent = user_agent_text;
}

pub record ObfsOptions : Type 0 where
  pub host : Bytes

unfoldable pub default_obfs_options : ObfsOptions
default_obfs_options = record { host = codes "www.baidu.com" }

pub record QuicOptions : Type 0 where
  pub tls_options : TlsOptions
  pub handshake_idle_timeout : ℕ
  pub keep_alive_period : ℕ
  pub max_idle_timeout : ℕ
  pub conns : ℕ

unfoldable pub default_quic_options : QuicOptions
unfolding seconds
default_quic_options = record {
  tls_options = zero_tls;
  handshake_idle_timeout = seconds 5;
  keep_alive_period = seconds 30;
  max_idle_timeout = seconds 30;
  conns = 3;
}

pub record GrpcOptions : Type 0 where
  pub tls_options : TlsOptions
  pub snd_buffer : ℕ
  pub rev_buffer : ℕ

unfoldable pub default_grpc_options : GrpcOptions
default_grpc_options = record { tls_options = zero_tls; snd_buffer = 0; rev_buffer = 0 }

pub record SshOptions : Type 0 where
  pub user : Bytes
  pub password : Bytes
  pub private_key : Bytes
  pub public_key : Bytes
  pub authorized_key : Bytes

unfoldable pub default_ssh_options : SshOptions
default_ssh_options = record {
  user = [];
  password = [];
  private_key = [];
  public_key = [];
  authorized_key = [];
}

-- *DefaultOptions, which `outbound_interface` and `auto_detect_interface` are the fields of.
pub record DefaultOptions : Type 0 where
  pub outbound_interface : Bytes
  pub auto_detect_interface : Bool

-- The interface Options: which of the pointers it holds.
pub data TransportOptions : Type 0 where
  plain : DefaultOptions → TransportOptions
  ws : WsOptions → TransportOptions
  obfs : ObfsOptions → TransportOptions
  quic : QuicOptions → TransportOptions
  grpc : GrpcOptions → TransportOptions
  ssh : SshOptions → TransportOptions
