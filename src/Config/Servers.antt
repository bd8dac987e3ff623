-- ===== src/Config/Servers.antt =====
-- BuildServerOptions and DeleteServerConfig of config/config.go.
use mini_ss.Common.{List, [], ◌∷◌, ◌++◌, Option, none, some, if◌then◌else◌}
use mini_ss.Common.Bytes.{Bytes, codes, bytes_beq}
use mini_ss.Stream.{Outcome, ok, err, panics}
use mini_ss.Options.Defs.{
  TlsMode, tls, mtls, seconds, default_ws_options, default_obfs_options, default_quic_options,
  default_grpc_options, default_ssh_options,
}
use mini_ss.Options.Settings.{SsOption}
use mini_ss.Options.Server.{
  with_server_compose, with_server_name, with_server_addr, with_udp_relay, with_enable_ssr,
  with_ssr_protocol, with_ssr_protocol_param, with_ssr_obfs, with_obfs_param, with_method,
  with_password,
}
use mini_ss.Options.Transports.{
  with_ws_transport, with_ws_host, with_ws_path, with_ws_compress, with_ws_tls, with_ws_hostname,
  with_ws_cert_path, with_ws_key_path, with_ws_ca_path, with_obfs_transport, with_obfs_host,
  with_quic_transport, with_quic_handshake_idle_timeout, with_quic_keep_alive_period,
  with_quic_max_idle_timeout, with_quic_conns, with_quic_tls, with_quic_hostname,
  with_quic_cert_path, with_quic_key_path, with_quic_ca_path, with_grpc_transport,
  with_grpc_snd_rev_buffer, with_grpc_tls, with_grpc_hostname, with_grpc_cert_path,
  with_grpc_key_path, with_grpc_ca_path, with_ssh_transport, with_ssh_user, with_ssh_password,
  with_ssh_private_key, with_ssh_public_key, with_ssh_authorized_key,
}
use mini_ss.Options.Local.{with_outbound_interface, with_auto_detect_interface}
use mini_ss.Config.Types.{
  Config, ServerConfig, WsOption, ObfsOption, QuicOption, GrpcOption, SshOption, SsrConfig,
}

-- The first server with the name is deleted.
unfoldable pub delete_named : List ServerConfig → Bytes → List ServerConfig
delete_named [] name = []
delete_named (c ∷ cs) name =
    let rest = delete_named cs name in if bytes_beq c.name name then cs else c ∷ rest

unfoldable pub delete_server_config : Config → Bytes → Config
unfolding delete_named
delete_server_config cfg name = record cfg { server = delete_named cfg.server name }

-- The option for the text of a TLS mode, if it is one.
abbrev pub tls_parts : (TlsMode → SsOption) → Bytes → List SsOption
tls_parts with_tls mode =
    if bytes_beq mode (codes "tls")
    then with_tls tls ∷ []
    else if bytes_beq mode (codes "mtls")
    then with_tls mtls ∷ []
    else []

unfoldable pub ws_parts : WsOption → List SsOption
unfolding with_ws_transport with_ws_host with_ws_path with_ws_cert_path with_ws_key_path
    with_ws_ca_path with_ws_hostname with_ws_compress with_ws_tls default_ws_options
ws_parts w =
    with_ws_transport
    ∷ with_ws_host w.host
    ∷ with_ws_path w.path
    ∷ with_ws_cert_path w.tls.cert_path
    ∷ with_ws_key_path w.tls.key_path
    ∷ with_ws_ca_path w.tls.ca_path
    ∷ with_ws_hostname w.tls.hostname
    ∷ ((if w.compress then with_ws_compress ∷ [] else []) ++ tls_parts with_ws_tls w.tls.mode)

unfoldable pub obfs_parts : ObfsOption → List SsOption
unfolding with_obfs_transport with_obfs_host default_obfs_options
obfs_parts o = with_obfs_transport ∷ with_obfs_host o.host ∷ []

unfoldable pub quic_parts : QuicOption → List SsOption
unfolding with_quic_transport with_quic_conns with_quic_keep_alive_period with_quic_max_idle_timeout
    with_quic_handshake_idle_timeout with_quic_cert_path with_quic_key_path with_quic_ca_path
    with_quic_hostname with_quic_tls default_quic_options
quic_parts q =
    with_quic_transport
    ∷ with_quic_conns q.conns
    ∷ with_quic_keep_alive_period (seconds q.keep_alive)
    ∷ with_quic_max_idle_timeout (seconds q.max_idle_timeout)
    ∷ with_quic_handshake_idle_timeout (seconds q.handshake_idle_timeout)
    ∷ with_quic_cert_path q.tls.cert_path
    ∷ with_quic_key_path q.tls.key_path
    ∷ with_quic_ca_path q.tls.ca_path
    ∷ with_quic_hostname q.tls.hostname
    ∷ tls_parts with_quic_tls q.tls.mode

unfoldable pub grpc_parts : GrpcOption → List SsOption
unfolding with_grpc_transport with_grpc_snd_rev_buffer with_grpc_cert_path with_grpc_key_path
    with_grpc_ca_path with_grpc_hostname with_grpc_tls default_grpc_options
grpc_parts g =
    with_grpc_transport
    ∷ with_grpc_snd_rev_buffer g.send_buffer_size g.recv_buffer_size
    ∷ with_grpc_cert_path g.tls.cert_path
    ∷ with_grpc_key_path g.tls.key_path
    ∷ with_grpc_ca_path g.tls.ca_path
    ∷ with_grpc_hostname g.tls.hostname
    ∷ tls_parts with_grpc_tls g.tls.mode

unfoldable pub ssh_parts : SshOption → List SsOption
unfolding with_ssh_transport with_ssh_user with_ssh_password with_ssh_private_key
    with_ssh_public_key with_ssh_authorized_key default_ssh_options
ssh_parts s =
    with_ssh_transport
    ∷ with_ssh_user s.user
    ∷ with_ssh_password s.password
    ∷ with_ssh_private_key s.private_key
    ∷ with_ssh_public_key s.public_key
    ∷ with_ssh_authorized_key s.authorized_key
    ∷ []

unfoldable pub ssr_parts : SsrConfig → List SsOption
unfolding with_enable_ssr with_ssr_protocol with_ssr_protocol_param with_ssr_obfs with_obfs_param
ssr_parts s =
    with_enable_ssr
    ∷ with_ssr_protocol s.protocol
    ∷ with_ssr_protocol_param s.protocol_param
    ∷ with_ssr_obfs s.obfs
    ∷ with_obfs_param s.obfs_param
    ∷ []

-- A nil pointer to the options of the transport panics.
abbrev pub parts_of : {A : Type 0} → (A → List SsOption) → Option A → Outcome (List SsOption)
parts_of f none = panics
parts_of f (some a) = ok (f a)

unfoldable pub transport_parts : ServerConfig → Outcome (List SsOption)
unfolding ws_parts obfs_parts quic_parts grpc_parts ssh_parts ssr_parts
transport_parts c =
    if bytes_beq c.transport (codes "ws")
    then parts_of ws_parts c.ws
    else if bytes_beq c.transport (codes "obfs")
    then parts_of obfs_parts c.obfs
    else if bytes_beq c.transport (codes "quic")
    then parts_of quic_parts c.quic
    else if bytes_beq c.transport (codes "grpc")
    then parts_of grpc_parts c.grpc
    else if bytes_beq c.transport (codes "ssh")
    then parts_of ssh_parts c.ssh
    else if bytes_beq c.transport (codes "default")
    then (if bytes_beq c.server_type (codes "ssr") then parts_of ssr_parts c.ssr else ok [])
    else ok []

unfoldable pub common_parts : ServerConfig → List SsOption
unfolding with_server_name with_server_addr with_method with_password with_udp_relay
common_parts c =
    with_server_name c.name
    ∷ with_server_addr c.addr
    ∷ with_method c.method
    ∷ with_password c.password
    ∷ with_udp_relay c.udp
    ∷ []

-- One round of the loop.
unfoldable pub server_option : ServerConfig → Outcome SsOption
unfolding transport_parts common_parts
server_option c = elim (transport_parts c) [
  | ok parts ↦ ok (with_server_compose (parts ++ common_parts c))
  | err e ↦ err e
  | panics ↦ panics
]

unfoldable pub server_loop : List ServerConfig → Outcome (List SsOption)
unfolding server_option
server_loop [] = ok []
server_loop (c ∷ cs) =
    let more = server_loop cs in
    if c.disable then more else elim (server_option c) [
      | ok o ↦ elim more [ ok os ↦ ok (o ∷ os) | err e ↦ err e | panics ↦ panics ]
      | err e ↦ err e
      | panics ↦ panics
    ]

unfoldable pub build_server_options : Config → Outcome (List SsOption)
unfolding server_loop
build_server_options cfg = elim (server_loop cfg.server) [
  | ok os ↦ ok (
      os
      ++ (with_outbound_interface cfg.iface
          ∷ with_auto_detect_interface cfg.auto_detect_iface
          ∷ []))
  | err e ↦ err e
  | panics ↦ panics
]
