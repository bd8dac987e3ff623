-- ===== src/Config/Description.antt =====
-- What a server of the configuration file describes, field by field.
use mini_ss.Common.{true, Option, none, some, if◌then◌else◌, List, [], ◌∷◌}
use mini_ss.Common.Bytes.{Bytes, codes, bytes_beq}
use mini_ss.Options.Defs.{
  TlsMode, no_tls, tls, mtls, TlsOptions, WsOptions, QuicOptions, GrpcOptions, SshOptions,
  TransportOptions, ws, obfs, quic, grpc, ssh, seconds, is_positive, user_agent_text,
}
use mini_ss.Options.Settings.{
  TransportType, quic_type, websocket, obfs_type, grpc_type, ssh_type, SsrOption, ServerOptions,
  zero_server,
}
use mini_ss.Config.Types.{
  ServerConfig, TlsOption, WsOption, ObfsOption, QuicOption, GrpcOption, SshOption, SsrConfig,
}

abbrev pub tls_mode_of : Bytes → TlsMode
tls_mode_of text =
    if bytes_beq text (codes "tls")
    then tls
    else if bytes_beq text (codes "mtls")
    then mtls
    else no_tls

abbrev pub tls_of : TlsOption → TlsOptions
tls_of t = record {
  mode = tls_mode_of t.mode;
  ca_file = t.ca_path;
  key_file = t.key_path;
  cert_file = t.cert_path;
  hostname = t.hostname;
}

abbrev pub ws_of : WsOption → WsOptions
ws_of w = record {
  tls_options = tls_of w.tls;
  host = w.host;
  path = w.path;
  snd_buffer = 4096;
  rev_buffer = 4096;
  compress = w.compress;
  user_agent = user_agent_text;
}

abbrev pub quic_of : QuicOption → QuicOptions
quic_of q = record {
  tls_options = tls_of q.tls;
  handshake_idle_timeout = seconds q.handshake_idle_timeout;
  keep_alive_period = seconds q.keep_alive;
  max_idle_timeout = seconds q.max_idle_timeout;
  conns = if is_positive q.conns then q.conns else 3;
}

abbrev pub grpc_of : GrpcOption → GrpcOptions
grpc_of g = record {
  tls_options = tls_of g.tls;
  snd_buffer = g.send_buffer_size;
  rev_buffer = g.recv_buffer_size;
}

abbrev pub ssh_of : SshOption → SshOptions
ssh_of s = record {
  user = s.user;
  password = s.password;
  private_key = s.private_key;
  public_key = s.public_key;
  authorized_key = s.authorized_key;
}

abbrev pub ssr_of : SsrConfig → SsrOption
ssr_of s = record {
  protocol = s.protocol;
  protocol_param = s.protocol_param;
  obfs = s.obfs;
  obfs_param = s.obfs_param;
}

-- What the transport of a server adds to it.
abbrev pub over_tcp : ServerOptions
over_tcp = zero_server

abbrev pub over : TransportType → TransportOptions → ServerOptions
over t o = record zero_server { transport = t; opts = some o }

abbrev pub over_ssr : SsrConfig → ServerOptions
over_ssr s = record zero_server { ssr = true; ssr_opt = ssr_of s }

abbrev pub described_by {ℓ} : {A : Type ℓ} → (A → ServerOptions) → Option A → Option ServerOptions
described_by f none = none
described_by f (some a) = some (f a)

-- `none` where the options of the transport are missing.
unfoldable pub transport_of : ServerConfig → Option ServerOptions
transport_of c =
    if bytes_beq c.transport (codes "ws")
    then described_by (λ w. over websocket (ws (ws_of w))) c.ws
    else if bytes_beq c.transport (codes "obfs")
    then described_by (λ (o : ObfsOption). over obfs_type (obfs (record { host = o.host }))) c.obfs
    else if bytes_beq c.transport (codes "quic")
    then described_by (λ q. over quic_type (quic (quic_of q))) c.quic
    else if bytes_beq c.transport (codes "grpc")
    then described_by (λ g. over grpc_type (grpc (grpc_of g))) c.grpc
    else if bytes_beq c.transport (codes "ssh")
    then described_by (λ s. over ssh_type (ssh (ssh_of s))) c.ssh
    else if bytes_beq c.transport (codes "default")
    then (if bytes_beq c.server_type (codes "ssr")
        then described_by over_ssr c.ssr
        else some over_tcp)
    else some over_tcp

abbrev pub named : ServerConfig → ServerOptions → ServerOptions
named c o = record o {
  name = c.name;
  addr = c.addr;
  method = c.method;
  password = c.password;
  udp = c.udp;
}

-- The servers of a configuration that are not disabled, `none` where one lacks its options.
unfoldable pub servers_of : List ServerConfig → Option (List ServerOptions)
unfolding transport_of
servers_of [] = some []
servers_of (c ∷ cs) =
    let more = servers_of cs in
    if c.disable then more else elim (transport_of c) [
      | some o ↦ elim more [ some os ↦ some (named c o ∷ os) | none ↦ none ]
      | none ↦ none
    ]
