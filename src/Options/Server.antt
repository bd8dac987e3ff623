-- ===== src/Options/Server.antt =====
-- The options of ss/option.go that set a field of one server.
use mini_ss.Common.{Bool, true, List, [], ◌∷◌, ◌++◌, some}
use mini_ss.Common.Bytes.{Bytes}
use mini_ss.Stream.{ok, err, panics}
use mini_ss.Options.Defs.{plain}
use mini_ss.Options.Settings.{
  zero_server, zero_local, tcp, Settings, SsOption, apply_all, set_server,
}

-- The settings that WithServerCompose starts from.
abbrev pub fresh : Settings → Settings
fresh s = record s { server_opts = zero_server ∷ []; local_opts = zero_local }

-- Go applies the parts when the composed option is made, which is before it is applied. That is the
-- same for parts that only read and write the server; with_default_transport reads the default
-- options, and here it sees what an option applied in between has written.
unfoldable pub with_server_compose : List SsOption → SsOption
unfolding apply_all
with_server_compose opts s = elim (apply_all opts (fresh s)) [
  | ok o ↦ ok (record s { server_opts = s.server_opts ++ o.server_opts; globals = o.globals })
  | err e ↦ err e
  | panics ↦ panics
]

unfoldable pub with_server_name : Bytes → SsOption
with_server_name name = set_server λ o. record o { name = name }

unfoldable pub with_server_addr : Bytes → SsOption
with_server_addr addr = set_server λ o. record o { addr = addr }

unfoldable pub with_udp_relay : Bool → SsOption
with_udp_relay enable = set_server λ o. record o { udp = enable }

unfoldable pub with_enable_ssr : SsOption
with_enable_ssr = set_server λ o. record o { ssr = true }

unfoldable pub with_ssr_protocol : Bytes → SsOption
with_ssr_protocol text =
    set_server λ o. record o { ssr_opt = record (o.ssr_opt) { protocol = text } }

unfoldable pub with_ssr_protocol_param : Bytes → SsOption
with_ssr_protocol_param text =
    set_server λ o. record o { ssr_opt = record (o.ssr_opt) { protocol_param = text } }

unfoldable pub with_ssr_obfs : Bytes → SsOption
with_ssr_obfs text = set_server λ o. record o { ssr_opt = record (o.ssr_opt) { obfs = text } }

unfoldable pub with_obfs_param : Bytes → SsOption
with_obfs_param text =
    set_server λ o. record o { ssr_opt = record (o.ssr_opt) { obfs_param = text } }

unfoldable pub with_method : Bytes → SsOption
with_method method = set_server λ o. record o { method = method }

unfoldable pub with_password : Bytes → SsOption
with_password password = set_server λ o. record o { password = password }

-- The options are a copy of *DefaultOptions.
unfoldable pub with_default_transport : SsOption
with_default_transport s =
    set_server (λ o. record o { transport = tcp; opts = some (plain s.globals.default_options) }) s
