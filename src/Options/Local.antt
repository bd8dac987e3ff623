-- ===== src/Options/Local.antt =====
-- The options of ss/option.go that set what the client runs locally, and those that set a variable
-- of another package.
use mini_ss.Common.{
  ℕ, Bool, true, ◌||◌, List, [], ◌∷◌, ◌++◌, Option, none, some, if◌then◌else◌, ◌==◌,
}
use mini_ss.Common.Bytes.{Bytes, codes, bytes_beq}
use mini_ss.Trie.Defs.{is_empty}
use mini_ss.Socks.Auth.{new_auth}
use mini_ss.Rule.Matcher.{contains_text}
use mini_ss.Rule.Ruler.{Ruler}
use mini_ss.Options.Settings.{EnhancerConfig, MitmConfig, SsOption, set_local, set_globals}

-- What is asked of net and net/netip. `split_host_port` gives the host and port, which are empty
-- where it fails.
pub record NetText : Type 0 where
  pub parse_prefix : Bytes → Option (ℕ × ℕ)
  pub split_host_port : Bytes → Bytes × Bytes
  pub join_host_port : Bytes → Bytes → Bytes
  pub parse_addr_port : Bytes → Option (ℕ × ℕ)

abbrev pub set_enhancer : (EnhancerConfig → EnhancerConfig) → SsOption
set_enhancer f = set_local λ l. record l { enhancer_config = f l.enhancer_config }

abbrev pub set_mitm : (MitmConfig → MitmConfig) → SsOption
set_mitm f = set_local λ l. record l { mitm_config = f l.mitm_config }

unfoldable pub with_enable_tun : SsOption
with_enable_tun = set_local λ l. record l { enable_tun = true }

unfoldable pub with_tun_name : Bytes → SsOption
with_tun_name name = set_enhancer λ e. record e { tun_name = name }

unfoldable pub with_tun_cidr : NetText → Bytes → SsOption
with_tun_cidr net cidr = set_enhancer λ e. elim (net.parse_prefix cidr) [
  | some prefix ↦ record e { tun_inet4_address = prefix ∷ [] }
  | none ↦ e
]

unfoldable pub with_tun_mtu : ℕ → SsOption
with_tun_mtu mtu = set_enhancer λ e. record e { tun_mtu = mtu }

unfoldable pub with_tun_auto_route : Bool → SsOption
with_tun_auto_route auto_route = set_enhancer λ e. record e { tun_auto_route = auto_route }

-- strings.ReplaceAll of "any" by "0.0.0.0"
unfoldable pub replace_any : Bytes → Bytes
replace_any (a ∷ b ∷ c ∷ rest) =
    let replaced = codes "0.0.0.0" ++ replace_any rest in
    let kept = a ∷ replace_any (b ∷ c ∷ rest) in
    if a == b'a' then (if b == b'n' then (if c == b'y' then replaced else kept) else kept) else kept
replace_any text = text

-- The address that one round of the loop looks at: "any" replaced, and the port 53 if it has none.
unfoldable pub hijack_addr : NetText → Bytes → Bytes × Bytes
unfolding replace_any
hijack_addr net given =
    let addr = if contains_text given (codes "any") then replace_any given else given in
    let (host, port) = net.split_host_port addr in
    if is_empty host || is_empty port
    then (net.join_host_port addr (codes "53"), codes "53")
    else (addr, port)

unfoldable pub hijacked : NetText → List Bytes → List (ℕ × ℕ)
unfolding hijack_addr
hijacked net [] = []
hijacked net (given ∷ rest) =
    let (addr, port) = hijack_addr net given in
    let more = hijacked net rest in
    if bytes_beq port (codes "53")
    then elim (net.parse_addr_port addr) [ some ap ↦ ap ∷ more | none ↦ more ]
    else more

unfoldable pub with_tun_dns_hijack : NetText → List Bytes → SsOption
unfolding hijacked
with_tun_dns_hijack net dns =
    set_enhancer λ e. record e { dns_hijack = e.dns_hijack ++ hijacked net dns }

unfoldable pub with_fake_dns_domain_filter : List Bytes → SsOption
with_fake_dns_domain_filter domain = set_globals λ g. record g { domain_filter = domain }

unfoldable pub with_fake_dns_server : Bytes → SsOption
with_fake_dns_server addr = set_enhancer λ e. record e { fake_dns = addr }

unfoldable pub with_fake_dns_disable_rewrite : Bool → SsOption
with_fake_dns_disable_rewrite disable = set_enhancer λ e. record e { disable_rewrite = disable }

unfoldable pub with_outbound_interface : Bytes → SsOption
with_outbound_interface name =
    set_globals
      λ g. record g { default_options = record (g.default_options) { outbound_interface = name } }

unfoldable pub with_auto_detect_interface : Bool → SsOption
with_auto_detect_interface enable = set_globals λ g. record g {
  default_options = record (g.default_options) { auto_detect_interface = enable };
}

unfoldable pub with_default_dns_nameservers : List Bytes → SsOption
with_default_dns_nameservers ns =
    set_globals λ g. if is_empty ns then g else record g { dns_nameservers = ns }

unfoldable pub with_ruler : Ruler → SsOption
with_ruler ruler = set_globals λ g. record g { match_ruler = some ruler }

unfoldable pub with_system_proxy : SsOption
with_system_proxy = set_local λ l. record l { system_proxy = true }

unfoldable pub with_lookup_hosts_file : SsOption
with_lookup_hosts_file = set_local λ l. record l { lookup_hosts_file = true }

unfoldable pub with_socks_user_info : Bytes → Bytes → SsOption
with_socks_user_info username password =
    set_local λ l. record l { socks_auth = new_auth username password }

unfoldable pub with_socks_addr : Bytes → SsOption
with_socks_addr addr = set_local λ l. record l { socks_addr = addr }

unfoldable pub with_http_addr : Bytes → SsOption
with_http_addr addr = set_local λ l. record l { http_addr = addr }

unfoldable pub with_http_user_info : Bytes → Bytes → SsOption
with_http_user_info username password =
    set_local λ l. record l { http_auth = new_auth username password }

unfoldable pub with_mixed_addr : Bytes → SsOption
with_mixed_addr addr = set_local λ l. record l { mixed_addr = addr }

unfoldable pub with_tcp_tun_addr : List (List Bytes) → SsOption
with_tcp_tun_addr addrs = set_local λ l. record l { tcp_tun_addr = addrs }

unfoldable pub with_mitm : Bool → SsOption
with_mitm enable = set_mitm λ m. record m { enable = enable }

unfoldable pub with_mitm_proxy : Bytes → SsOption
with_mitm_proxy proxy = set_mitm λ m. record m { proxy = proxy }

unfoldable pub with_mitm_ca_path : Bytes → SsOption
with_mitm_ca_path path = set_mitm λ m. record m { ca_path = path }

unfoldable pub with_mitm_key_path : Bytes → SsOption
with_mitm_key_path path = set_mitm λ m. record m { key_path = path }

unfoldable pub with_mitm_fake_cert_pool : ℕ → ℕ → ℕ → SsOption
with_mitm_fake_cert_pool capacity interval expire =
    set_mitm λ m. record m { capacity = capacity; interval = interval; expire_second = expire }
