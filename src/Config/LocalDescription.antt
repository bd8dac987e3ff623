-- ===== src/Config/LocalDescription.antt =====
-- What the local part of the configuration file describes, field by field.
use mini_ss.Common.{
  ◌==◌, Bool, true, false, not, ◌&&◌, ◌||◌, Option, none, some, if◌then◌else◌, [], ◌∷◌, ◌++◌, map,
}
use mini_ss.Common.Bytes.{Bytes}
use mini_ss.Trie.Defs.{is_empty}
use mini_ss.Socks.Auth.{Auth, new_auth}
use mini_ss.Rule.Ruler.{Ruler}
use mini_ss.Options.Settings.{LocalOptions, EnhancerConfig, MitmConfig, Globals, Settings}
use mini_ss.Options.Local.{NetText, hijacked}
use mini_ss.Config.Types.{LocalConfig, MitmOption, MitmFakeCertPool, TunOption, DnsOption}
use mini_ss.Config.LocalPart.{split_tun_addr_info, uint32}

-- A text up to its first colon, which is all of it where it has none, and what stands behind that.
abbrev pub before_colon : Bytes → Bytes
before_colon [] = []
before_colon (b ∷ bs) = if b == b':' then [] else b ∷ before_colon bs

abbrev pub behind_colon : Bytes → Bytes
behind_colon [] = []
behind_colon (b ∷ bs) = if b == b':' then bs else behind_colon bs

-- The credentials in a text: the username, a colon and the password.
abbrev pub auth_of : Bytes → Option Auth
auth_of text = new_auth (before_colon text) (behind_colon text)

-- A mixed address takes the place of the other two, and the credentials of both go with it.
abbrev pub listening : LocalConfig → LocalOptions → LocalOptions
listening l o =
    let mixed = not (is_empty l.mixed_addr) in
    let socks = not (is_empty l.socks_addr) in
    let http = not (is_empty l.http_addr) in
    record o {
      mixed_addr = if mixed then l.mixed_addr else o.mixed_addr;
      socks_addr = if not mixed && socks then l.socks_addr else o.socks_addr;
      http_addr = if not mixed && http then l.http_addr else o.http_addr;
      socks_auth = if mixed || socks then auth_of l.socks_auth else o.socks_auth;
      http_auth = if mixed || http then auth_of l.http_auth else o.http_auth;
    }

abbrev pub pooled : Option MitmFakeCertPool → MitmConfig → MitmConfig
pooled none c = c
pooled (some p) c = record c {
  capacity = p.capacity;
  interval = p.interval;
  expire_second = p.expire_second;
}

abbrev pub mitm_of : Option MitmOption → MitmConfig → MitmConfig
mitm_of none c = c
mitm_of (some m) c =
    if m.enable
    then pooled m.fake_cert_pool
        (record c { enable = true; proxy = m.proxy; ca_path = m.ca_path; key_path = m.key_path })
    else c

-- A CIDR that does not parse leaves the address as it was.
abbrev pub tun_of : NetText → TunOption → EnhancerConfig → EnhancerConfig
tun_of net t e = record e {
  tun_name = t.name;
  tun_inet4_address = elim (net.parse_prefix t.cidr) [
    | some prefix ↦ prefix ∷ []
    | none ↦ e.tun_inet4_address
  ];
  tun_mtu = uint32 t.mtu;
  tun_auto_route = t.auto_route;
  dns_hijack = e.dns_hijack ++ hijacked net t.dns_hijack;
}

abbrev pub with_tun : NetText → Option TunOption → LocalOptions → LocalOptions
with_tun net none o = o
with_tun net (some t) o =
    if t.enable
    then record o { enable_tun = true; enhancer_config = tun_of net t o.enhancer_config }
    else o

abbrev pub with_dns : Option DnsOption → LocalOptions → LocalOptions
with_dns none o = o
with_dns (some d) o = record o {
  enhancer_config = record (o.enhancer_config) {
    fake_dns = d.listen;
    disable_rewrite = d.disable_rewrite;
  };
}

abbrev pub switched : LocalConfig → LocalOptions → LocalOptions
switched l o = record o {
  system_proxy = l.system_proxy || o.system_proxy;
  lookup_hosts_file = l.lookup_hosts_file || o.lookup_hosts_file;
}

abbrev pub resolving : Option DnsOption → Globals → Globals
resolving none g = g
resolving (some d) g = record g {
  domain_filter = d.domain_filter;
  dns_nameservers = if is_empty d.nameservers then g.dns_nameservers else d.nameservers;
}

-- A TUN device needs a DNS part.
abbrev pub tun_lacks_dns : Option TunOption → Option DnsOption → Bool
tun_lacks_dns none dns = false
tun_lacks_dns (some t) none = t.enable
tun_lacks_dns (some t) (some d) = false

unfoldable pub locally : NetText → LocalConfig → Ruler → Settings → Settings
locally net l ruler s = record s {
  local_opts = switched l (
      with_dns l.dns (
        with_tun net l.tun (record (listening l s.local_opts) {
          tcp_tun_addr = map split_tun_addr_info l.tcp_tun_addr;
          mitm_config = mitm_of l.mitm s.local_opts.mitm_config;
        })));
  globals = resolving l.dns (record (s.globals) { match_ruler = some ruler });
}
