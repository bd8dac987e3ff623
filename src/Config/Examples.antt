-- ===== src/Config/Examples.antt =====
-- The witnesses of the configuration file: one server over WebSocket with TLS, one that is disabled,
-- and a rule for all others.
use mini_ss.Common.{◌≡◌, refl, Option, none, some, [], ◌∷◌, ◌++◌, Bool, true, false}
use mini_ss.Common.Bytes.{codes, bytes_beq}
use mini_ss.Stream.{ok}
use mini_ss.Rule.Item.{RuleItem, match_mode}
use mini_ss.Trie.Defs.{get_child}
use mini_ss.Rule.Matcher.{other_rule, insert_rules}
use mini_ss.Rule.Ruler.{Ruler, new_ruler, match_target}
use mini_ss.Rule.Choice.{FirstHit}
use mini_ss.Rule.Examples.{env}
use mini_ss.Options.Settings.{Settings, zero_local}
use mini_ss.Options.Local.{NetText}
use mini_ss.Config.Types.{Config, ServerConfig, LocalConfig, MatchConfig, RulesConfig}
use mini_ss.Config.Rules.{others_item, build_ruler, mode_of}
use mini_ss.Config.LocalPart.{build_ss_local_options}
use mini_ss.Config.Apply.{run_built}
use mini_ss.Config.RuleLaws.{ruler_with, leading, match_target-others}
use mini_ss.Config.Whole.{configured, run_built-build_ss_local_options}

abbrev net : NetText
net = record {
  parse_prefix = λ s. some (1, 16);
  split_host_port = λ s. ([], []);
  join_host_port = λ h p. h ++ b':' ∷ p;
  parse_addr_port = λ s. none;
}

abbrev server : Bool → ServerConfig
server off = record {
  disable = off;
  server_type = [];
  name = codes "s";
  addr = codes "h:1";
  password = [];
  method = codes "none";
  transport = codes "ws";
  udp = true;
  ws = some (record {
    path = codes "/w";
    host = [];
    compress = true;
    tls = record { mode = codes "tls"; hostname = []; key_path = []; cert_path = []; ca_path = [] };
  });
  obfs = none;
  quic = none;
  grpc = none;
  ssh = none;
  ssr = none;
}

abbrev here : LocalConfig
here = record {
  socks_addr = codes ":1080";
  http_addr = [];
  socks_auth = codes "u:p";
  http_auth = [];
  mixed_addr = [];
  tcp_tun_addr = codes "a=b" ∷ [];
  system_proxy = true;
  lookup_hosts_file = false;
  mitm = none;
  tun = none;
  dns = none;
}

abbrev others : MatchConfig
others = record {
  others = codes "s";
  domains = [];
  domain_keywords = [];
  domain_suffixs = [];
  geoips = [];
  ip_cidrs = [];
}

abbrev rules : RulesConfig
rules = record { mode = codes "match"; direct_to = []; global_to = []; match_rules = some others }

abbrev config : Config
config = record {
  server = server false ∷ server true ∷ [];
  local_part = some here;
  iface = [];
  auto_detect_iface = false;
  rules = some rules;
}

abbrev settings : Settings
settings = record {
  server_opts = [];
  local_opts = zero_local;
  globals = record {
    default_options = record { outbound_interface = []; auto_detect_interface = false };
    domain_filter = [];
    dns_nameservers = [];
    match_ruler = none;
  };
}

build_ss_local_options_example :
    run_built (build_ss_local_options net config) settings ≡ configured net config settings
build_ss_local_options_example = run_built-build_ss_local_options net config settings

-- The ruler of the rules, with the item that matched.
abbrev ruler : Option RuleItem → Ruler
ruler m =
    record (ruler_with match_mode [] [] (leading others ++ other_rule (others_item others) ∷ [])) {
      matched = m;
    }

built : build_ruler config ≡ ok (ruler none)
unfolding build_ruler bytes_beq mode_of others_item new_ruler
built = refl

settled :
    match_target env (ruler none) (codes "a.com")
    ≡ ok (true, ruler (some (others_item others)), codes "a.com")
unfolding match_target bytes_beq others_item get_child insert_rules
settled = refl

match_target-others_example :
    (item : RuleItem) × FirstHit env (ruler none).ms (codes "a.com") item (codes "a.com")
    × ((ruler (some (others_item others))).matched ≡ some item)
    × (true ≡ item.accept)
unfolding mode_of bytes_beq
match_target-others_example =
    match_target-others env config rules others (ruler none) (ruler (some (others_item others)))
      (codes "a.com") (codes "a.com") true refl refl refl refl built settled
