-- ===== src/Options/Transports.antt =====
-- The options of ss/option.go that choose a transport or set an option of it. A type assertion
-- to the options of another transport panics.
use mini_ss.Common.{ℕ, true, Option, none, some, if◌then◌else◌}
use mini_ss.Common.Bytes.{Bytes}
use mini_ss.Options.Defs.{
  TlsMode, TransportOptions, ws, obfs, quic, grpc, ssh, WsOptions, ObfsOptions, QuicOptions,
  GrpcOptions, SshOptions, default_ws_options, default_obfs_options, default_quic_options,
  default_grpc_options, default_ssh_options, is_positive,
}
use mini_ss.Options.Settings.{
  SsOption, set_server, set_transport, quic_type, websocket, obfs_type, grpc_type, ssh_type,
}
use mini_ss.Stream.{ok}

-- `so.serverOpts[0].opts.(*options.WsOptions)`
abbrev pub as_ws : (WsOptions → WsOptions) → TransportOptions → Option TransportOptions
as_ws f (ws o) = some (ws (f o))
as_ws f t = none

abbrev pub on_ws : (WsOptions → WsOptions) → SsOption
on_ws f = set_transport (as_ws f)

-- `so.serverOpts[0].opts.(*options.ObfsOptions)`
abbrev pub as_obfs : (ObfsOptions → ObfsOptions) → TransportOptions → Option TransportOptions
as_obfs f (obfs o) = some (obfs (f o))
as_obfs f t = none

abbrev pub on_obfs : (ObfsOptions → ObfsOptions) → SsOption
on_obfs f = set_transport (as_obfs f)

-- `so.serverOpts[0].opts.(*options.QuicOptions)`
abbrev pub as_quic : (QuicOptions → QuicOptions) → TransportOptions → Option TransportOptions
as_quic f (quic o) = some (quic (f o))
as_quic f t = none

abbrev pub on_quic : (QuicOptions → QuicOptions) → SsOption
on_quic f = set_transport (as_quic f)

-- `so.serverOpts[0].opts.(*options.GrpcOptions)`
abbrev pub as_grpc : (GrpcOptions → GrpcOptions) → TransportOptions → Option TransportOptions
as_grpc f (grpc o) = some (grpc (f o))
as_grpc f t = none

abbrev pub on_grpc : (GrpcOptions → GrpcOptions) → SsOption
on_grpc f = set_transport (as_grpc f)

-- `so.serverOpts[0].opts.(*options.SshOptions)`
abbrev pub as_ssh : (SshOptions → SshOptions) → TransportOptions → Option TransportOptions
as_ssh f (ssh o) = some (ssh (f o))
as_ssh f t = none

abbrev pub on_ssh : (SshOptions → SshOptions) → SsOption
on_ssh f = set_transport (as_ssh f)

unfoldable pub with_ws_transport : SsOption
with_ws_transport =
    set_server λ o. record o { transport = websocket; opts = some (ws default_ws_options) }

unfoldable pub with_ws_host : Bytes → SsOption
with_ws_host host = on_ws λ o. record o { host = host }

unfoldable pub with_ws_path : Bytes → SsOption
with_ws_path path = on_ws λ o. record o { path = path }

unfoldable pub with_ws_snd_rev_buffer : ℕ → ℕ → SsOption
with_ws_snd_rev_buffer snd rev = on_ws λ o. record o { snd_buffer = snd; rev_buffer = rev }

unfoldable pub with_ws_compress : SsOption
with_ws_compress = on_ws λ o. record o { compress = true }

unfoldable pub with_ws_user_agent : Bytes → SsOption
with_ws_user_agent agent = on_ws λ o. record o { user_agent = agent }

unfoldable pub with_ws_tls : TlsMode → SsOption
with_ws_tls mode = on_ws λ o. record o { tls_options = record (o.tls_options) { mode = mode } }

unfoldable pub with_ws_hostname : Bytes → SsOption
with_ws_hostname text =
    on_ws λ o. record o { tls_options = record (o.tls_options) { hostname = text } }

unfoldable pub with_ws_cert_path : Bytes → SsOption
with_ws_cert_path text =
    on_ws λ o. record o { tls_options = record (o.tls_options) { cert_file = text } }

unfoldable pub with_ws_key_path : Bytes → SsOption
with_ws_key_path text =
    on_ws λ o. record o { tls_options = record (o.tls_options) { key_file = text } }

unfoldable pub with_ws_ca_path : Bytes → SsOption
with_ws_ca_path text =
    on_ws λ o. record o { tls_options = record (o.tls_options) { ca_file = text } }

unfoldable pub with_obfs_transport : SsOption
with_obfs_transport =
    set_server λ o. record o { transport = obfs_type; opts = some (obfs default_obfs_options) }

unfoldable pub with_obfs_host : Bytes → SsOption
with_obfs_host host = on_obfs λ o. record o { host = host }

unfoldable pub with_quic_transport : SsOption
with_quic_transport =
    set_server λ o. record o { transport = quic_type; opts = some (quic default_quic_options) }

unfoldable pub with_quic_handshake_idle_timeout : ℕ → SsOption
with_quic_handshake_idle_timeout timeout =
    on_quic λ o. record o { handshake_idle_timeout = timeout }

unfoldable pub with_quic_keep_alive_period : ℕ → SsOption
with_quic_keep_alive_period timeout = on_quic λ o. record o { keep_alive_period = timeout }

unfoldable pub with_quic_max_idle_timeout : ℕ → SsOption
with_quic_max_idle_timeout timeout = on_quic λ o. record o { max_idle_timeout = timeout }

unfoldable pub with_quic_conns : ℕ → SsOption
with_quic_conns conns s =
    if is_positive conns then on_quic (λ o. record o { conns = conns }) s else ok s

unfoldable pub with_quic_tls : TlsMode → SsOption
with_quic_tls mode = on_quic λ o. record o { tls_options = record (o.tls_options) { mode = mode } }

unfoldable pub with_quic_hostname : Bytes → SsOption
with_quic_hostname text =
    on_quic λ o. record o { tls_options = record (o.tls_options) { hostname = text } }

unfoldable pub with_quic_cert_path : Bytes → SsOption
with_quic_cert_path text =
    on_quic λ o. record o { tls_options = record (o.tls_options) { cert_file = text } }

unfoldable pub with_quic_key_path : Bytes → SsOption
with_quic_key_path text =
    on_quic λ o. record o { tls_options = record (o.tls_options) { key_file = text } }

unfoldable pub with_quic_ca_path : Bytes → SsOption
with_quic_ca_path text =
    on_quic λ o. record o { tls_options = record (o.tls_options) { ca_file = text } }

unfoldable pub with_grpc_transport : SsOption
with_grpc_transport =
    set_server λ o. record o { transport = grpc_type; opts = some (grpc default_grpc_options) }

unfoldable pub with_grpc_snd_rev_buffer : ℕ → ℕ → SsOption
with_grpc_snd_rev_buffer snd rev = on_grpc λ o. record o { snd_buffer = snd; rev_buffer = rev }

unfoldable pub with_grpc_tls : TlsMode → SsOption
with_grpc_tls mode = on_grpc λ o. record o { tls_options = record (o.tls_options) { mode = mode } }

unfoldable pub with_grpc_hostname : Bytes → SsOption
with_grpc_hostname text =
    on_grpc λ o. record o { tls_options = record (o.tls_options) { hostname = text } }

unfoldable pub with_grpc_cert_path : Bytes → SsOption
with_grpc_cert_path text =
    on_grpc λ o. record o { tls_options = record (o.tls_options) { cert_file = text } }

unfoldable pub with_grpc_key_path : Bytes → SsOption
with_grpc_key_path text =
    on_grpc λ o. record o { tls_options = record (o.tls_options) { key_file = text } }

unfoldable pub with_grpc_ca_path : Bytes → SsOption
with_grpc_ca_path text =
    on_grpc λ o. record o { tls_options = record (o.tls_options) { ca_file = text } }

unfoldable pub with_ssh_transport : SsOption
with_ssh_transport =
    set_server λ o. record o { transport = ssh_type; opts = some (ssh default_ssh_options) }

unfoldable pub with_ssh_user : Bytes → SsOption
with_ssh_user text = on_ssh λ o. record o { user = text }

unfoldable pub with_ssh_password : Bytes → SsOption
with_ssh_password text = on_ssh λ o. record o { password = text }

unfoldable pub with_ssh_private_key : Bytes → SsOption
with_ssh_private_key text = on_ssh λ o. record o { private_key = text }

unfoldable pub with_ssh_public_key : Bytes → SsOption
with_ssh_public_key text = on_ssh λ o. record o { public_key = text }

unfoldable pub with_ssh_authorized_key : Bytes → SsOption
with_ssh_authorized_key text = on_ssh λ o. record o { authorized_key = text }
