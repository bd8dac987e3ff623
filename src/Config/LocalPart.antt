-- ===== src/Config/LocalPart.antt =====
-- BuildLocalOptions and BuildSSLocalOptions of config/config.go, with the splitting of texts.
use mini_ss.Common.{
  ℕ, ◌%◌, ◌^◌, Bool, true, false, not, List, [], ◌∷◌, ◌++◌, map, Option, none, some, if◌then◌else◌,
  ◌==◌,
}
use mini_ss.Common.Bytes.{Bytes}
use mini_ss.Stream.{Outcome, ok, err, panics}
use mini_ss.Trie.Defs.{is_empty}
use mini_ss.Options.Settings.{SsOption}
use mini_ss.Options.Local.{
  NetText, with_enable_tun, with_tun_name, with_tun_cidr, with_tun_mtu, with_tun_auto_route,
  with_tun_dns_hijack, with_fake_dns_domain_filter, with_fake_dns_server,
  with_fake_dns_disable_rewrite, with_default_dns_nameservers, with_ruler, with_system_proxy,
  with_lookup_hosts_file, with_socks_user_info, with_socks_addr, with_http_addr,
  with_http_user_info, with_mixed_addr, with_tcp_tun_addr, with_mitm, with_mitm_proxy,
  with_mitm_ca_path, with_mitm_key_path, with_mitm_fake_cert_pool,
}
use mini_ss.Config.Types.{Config, LocalConfig, MitmOption, MitmFakeCertPool, TunOption, DnsOption}
use mini_ss.Config.Rules.{build_ruler}
use mini_ss.Config.Servers.{build_server_options}

-- strings.Cut at one byte: before, after, and whether it is there.
unfoldable pub cut_at : ℕ → Bytes → Bytes × Bytes × Bool
cut_at sep [] = ([], [], false)
cut_at sep (b ∷ bs) =
    let (before, after, found) = cut_at sep bs in
    if b == sep then ([], bs, true) else (b ∷ before, after, found)

unfoldable pub split_auth_info : Bytes → Bytes × Bytes
unfolding cut_at
split_auth_info auth = let (username, password, found) = cut_at b':' auth in (username, password)

-- An error gives the nil slice, which the caller takes.
unfoldable pub split_tun_addr_info : Bytes → List Bytes
unfolding cut_at
split_tun_addr_info addr =
    let (here, remote, found) = cut_at b'=' addr in if found then here ∷ remote ∷ [] else []

abbrev pub socks_user : Bytes → SsOption
socks_user auth =
    let (username, password) = split_auth_info auth in with_socks_user_info username password

abbrev pub http_user : Bytes → SsOption
http_user auth =
    let (username, password) = split_auth_info auth in with_http_user_info username password

unfoldable pub listen_parts : LocalConfig → List SsOption
unfolding split_auth_info
listen_parts l =
    if not (is_empty l.mixed_addr)
    then with_mixed_addr l.mixed_addr ∷ http_user l.http_auth ∷ socks_user l.socks_auth ∷ []
    else (if not (is_empty l.socks_addr)
        then with_socks_addr l.socks_addr ∷ socks_user l.socks_auth ∷ []
        else [])
      ++ (if not (is_empty l.http_addr)
          then with_http_addr l.http_addr ∷ http_user l.http_auth ∷ []
          else [])

abbrev pub pool_parts : Option MitmFakeCertPool → List SsOption
pool_parts none = []
pool_parts (some p) = with_mitm_fake_cert_pool p.capacity p.interval p.expire_second ∷ []

unfoldable pub mitm_parts : Option MitmOption → List SsOption
mitm_parts none = []
mitm_parts (some m) =
    if m.enable
    then with_mitm m.enable
      ∷ with_mitm_proxy m.proxy
      ∷ with_mitm_ca_path m.ca_path
      ∷ with_mitm_key_path m.key_path
      ∷ pool_parts m.fake_cert_pool
    else []

-- uint32(Mtu)
abbrev pub uint32 : ℕ → ℕ
uint32 n = n % 2 ^ 32

abbrev pub tun_settings : NetText → TunOption → List SsOption
tun_settings net t =
    with_enable_tun
    ∷ with_tun_name t.name
    ∷ with_tun_cidr net t.cidr
    ∷ with_tun_mtu (uint32 t.mtu)
    ∷ with_tun_dns_hijack net t.dns_hijack
    ∷ with_tun_auto_route t.auto_route
    ∷ []

-- Without a DNS part, Fatal ends the program, as a panic does.
unfoldable pub tun_parts : NetText → Option TunOption → Option DnsOption → Outcome (List SsOption)
tun_parts net none dns = ok []
tun_parts net (some t) dns =
    if t.enable then elim dns [ none ↦ panics | some d ↦ ok (tun_settings net t) ] else ok []

unfoldable pub dns_parts : Option DnsOption → List SsOption
dns_parts none = []
dns_parts (some d) =
    with_fake_dns_server d.listen
    ∷ with_fake_dns_disable_rewrite d.disable_rewrite
    ∷ with_fake_dns_domain_filter d.domain_filter
    ∷ with_default_dns_nameservers d.nameservers
    ∷ []

unfoldable pub switch_parts : LocalConfig → List SsOption
switch_parts l =
    (if l.system_proxy then with_system_proxy ∷ [] else [])
    ++ (if l.lookup_hosts_file then with_lookup_hosts_file ∷ [] else [])

-- The parts of a local configuration, where the ruler is built and the TUN part is in order.
unfoldable pub build_local : NetText → Config → LocalConfig → Outcome (List SsOption)
unfolding listen_parts split_tun_addr_info mitm_parts tun_parts dns_parts switch_parts build_ruler
build_local net cfg l = elim (build_ruler cfg) [
  | ok ruler ↦ elim (tun_parts net l.tun l.dns) [
    | ok tun ↦ ok (
        listen_parts l
        ++ (with_tcp_tun_addr (map split_tun_addr_info l.tcp_tun_addr)
            ∷ with_ruler ruler
            ∷ (mitm_parts l.mitm ++ (tun ++ (dns_parts l.dns ++ switch_parts l)))))
    | err e ↦ err e
    | panics ↦ panics
  ]
  | err e ↦ err e
  | panics ↦ panics
]

unfoldable pub build_local_options : NetText → Config → Outcome (List SsOption)
unfolding build_local
build_local_options net cfg = elim (cfg.local_part) [
  | some l ↦ build_local net cfg l
  | none ↦ panics
]

unfoldable pub build_ss_local_options : NetText → Config → Outcome (List SsOption)
unfolding build_server_options build_local_options
build_ss_local_options net cfg = elim (build_server_options cfg) [
  | ok os ↦ elim (build_local_options net cfg) [
    | ok more ↦ ok (os ++ more)
    | err e ↦ err e
    | panics ↦ panics
  ]
  | err e ↦ err e
  | panics ↦ panics
]
