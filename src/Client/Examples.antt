-- ===== src/Client/Examples.antt =====
-- The witnesses of the client's set-up: a client with one server and a tunnel.
use mini_ss.Common.{
  ℕ, ◌≡◌, ◌≢◌, ◌⊎◌, refl, Option, none, some, List, [], ◌∷◌, true, map, if◌then◌else◌,
}
use mini_ss.Common.Bytes.{Bytes, codes, Bytes_comparable}
use mini_ss.Stream.{ok, panics}
use mini_ss.Rule.Item.{global}
use mini_ss.Rule.Matcher.{Env}
use mini_ss.Rule.Ruler.{Ruler}
use mini_ss.Selector.Defs.{by_proxy, add_proxy, select_stream}
use mini_ss.Selector.Examples.{nobody}
use mini_ss.Options.Settings.{ServerOptions, zero_server, Globals, Settings, SsOption, apply_all}
use mini_ss.Options.Server.{with_server_compose, with_server_addr, with_method}
use mini_ss.Options.Local.{with_ruler, with_tcp_tun_addr, with_socks_addr}
use mini_ss.Config.LocalPart.{split_tun_addr_info}
use mini_ss.Client.Defs.{
  Client, tcp_tun, socks_proxy, default_name, tun_listeners, new_client, default_local_opts,
}
use mini_ss.Client.Proxies.{relayer_for}
use mini_ss.Client.Startup.{starting, SentTo, alone, new_client_lem, new_client-alone}
use mini_ss.Client.Listeners.{Serves}
use mini_ss.Client.Tunnels.{all_separated, tunnel_of, tun_listeners-split}

abbrev globals : Globals
globals = record {
  default_options = record { outbound_interface = []; auto_detect_interface = true };
  domain_filter = [];
  dns_nameservers = [];
  match_ruler = none;
}

abbrev ruler : Ruler
ruler = record { rule_mode = global; matched = none; ms = []; direct_to = []; global_to = [] }

abbrev options : List SsOption
options =
    with_server_compose (with_server_addr (codes "h:1") ∷ with_method (codes "none") ∷ [])
    ∷ with_socks_addr (codes ":1080")
    ∷ with_tcp_tun_addr ((codes "a" ∷ codes "b" ∷ []) ∷ [])
    ∷ with_ruler ruler
    ∷ []

-- Every server stands for the relayers 5 and 6.
abbrev relayers : ServerOptions → Option (ℕ × ℕ)
relayers o = some (5, 6)

abbrev interface : Option Bytes
interface = some (codes "en0")

-- The server as the options leave it, and the settings, before the server has a name.
abbrev server : ServerOptions
server = record zero_server { addr = codes "h:1"; method = codes "none" }

abbrev applied : Settings
applied = record {
  server_opts = server ∷ [];
  local_opts = record default_local_opts {
    socks_addr = codes ":1080";
    tcp_tun_addr = (codes "a" ∷ codes "b" ∷ []) ∷ [];
  };
  globals = record globals { match_ruler = some ruler };
}

abbrev client : Client ℕ ℕ
client = record {
  settings = alone interface applied server ruler;
  selector = add_proxy nobody default_name 5;
  listeners = tcp_tun (codes "a") (codes "b") ∷ socks_proxy (codes ":1080") none ∷ [];
  enhancer = none;
}

by_options : apply_all options (starting globals) ≡ ok applied
unfolding apply_all with_server_compose with_server_addr with_method with_socks_addr
    with_tcp_tun_addr with_ruler default_local_opts
by_options = refl

made : new_client relayers interface globals nobody options ≡ ok client
unfolding new_client with_server_compose with_server_addr with_method with_socks_addr
    with_tcp_tun_addr with_ruler
made = refl

new_client_example :
    (select_stream client.selector (codes "p")
      ≡ relayer_for relayers client.settings.server_opts
          (codes "p")
          (select_stream nobody (codes "p")))
    × Serves client.settings.local_opts client.listeners
new_client_example =
    new_client_lem relayers interface globals nobody options client (codes "p") made

abbrev env : Env
env = record {
  parse_addr = λ s. none;
  print_addr = λ ip. [];
  lookup_host = λ s. none;
  country = λ ip. [];
  prefix_contains = λ s ip. some true;
}

new_client-alone_example :
    (client.settings ≡ alone interface applied server ruler)
    × (select_stream client.selector default_name ≡ by_proxy 5)
    × ((ruler.rule_mode ≢ global) ⊎ SentTo env ruler (codes "a.com") default_name)
new_client-alone_example =
    new_client-alone relayers interface globals nobody options client applied server ruler 5 6 env
      (codes "a.com") made by_options refl refl refl refl refl

abbrev texts : List Bytes
texts = codes "a=b" ∷ codes "c" ∷ []

tun_listeners-split_example :
    tun_listeners (map split_tun_addr_info texts)
    ≡ (if all_separated texts then ok (map tunnel_of texts) else panics)
tun_listeners-split_example = tun_listeners-split texts
