-- ===== src/Config/LocalLaws.antt =====
-- The options that BuildLocalOptions makes, applied, against the description of the local part.
use mini_ss.Common.{
  ◌≡◌, refl, ◌∙◌, ◌⊎◌, true, false, Option, none, some, if◌then◌else◌, List, [], ◌∷◌, ◌++◌, map,
  inl, inr, Bool-cases, Option-cases, arith,
}
use mini_ss.Common.Bytes.{Bytes}
use mini_ss.Stream.{Outcome, ok, err, panics, Outcome-cases}
use mini_ss.Rule.Ruler.{Ruler}
use mini_ss.Options.Settings.{Settings, SsOption, apply_all}
use mini_ss.Options.Local.{
  NetText, with_tcp_tun_addr, with_ruler, with_enable_tun, with_tun_name, with_tun_cidr,
  with_tun_mtu, with_tun_auto_route, with_tun_dns_hijack, with_fake_dns_domain_filter,
  with_fake_dns_server, with_fake_dns_disable_rewrite, with_default_dns_nameservers,
  with_system_proxy, with_lookup_hosts_file, with_socks_user_info, with_socks_addr, with_http_addr,
  with_http_user_info, with_mixed_addr, with_mitm, with_mitm_proxy, with_mitm_ca_path,
  with_mitm_key_path, with_mitm_fake_cert_pool,
}
use mini_ss.Config.Types.{Config, LocalConfig, MitmOption, TunOption, DnsOption}
use mini_ss.Config.Rules.{build_ruler}
use mini_ss.Config.LocalPart.{
  listen_parts, mitm_parts, tun_parts, tun_settings, dns_parts, switch_parts, build_local,
  build_local_options, split_tun_addr_info, cut_at, split_auth_info,
}
use mini_ss.Config.LocalDescription.{
  before_colon, behind_colon, listening, mitm_of, tun_of, with_tun, with_dns, switched, resolving,
  tun_lacks_dns, locally,
}
use mini_ss.Config.ServerLaws.{apply_all-append_ok}
use mini_ss.Config.Apply.{run_built}

cut_at-colon :
    (t : Bytes) → ((cut_at b':' t).0 ≡ before_colon t) × ((cut_at b':' t).1 ≡ behind_colon t)
unfolding cut_at
cut_at-colon [] = (refl, refl)
cut_at-colon (b ∷ bs) =
    let (before, behind) = cut_at-colon bs in (ground (arith, before), ground (arith, behind))

split_auth_info-colon : (t : Bytes) → split_auth_info t ≡ (before_colon t, behind_colon t)
unfolding split_auth_info
split_auth_info-colon t = let (before, behind) = cut_at-colon t in ground (arith, before, behind)

listen_parts-listening :
    (l : LocalConfig) (s : Settings)
    → apply_all (listen_parts l) s ≡ ok (record s { local_opts = listening l s.local_opts })
unfolding apply_all listen_parts with_mixed_addr with_socks_addr with_http_addr with_http_user_info
    with_socks_user_info
listen_parts-listening l s =
    ground (arith, split_auth_info-colon l.socks_auth, split_auth_info-colon l.http_auth)

mitm_parts-mitm_of :
    (m : Option MitmOption) (s : Settings)
    → apply_all (mitm_parts m) s
      ≡ ok (record s {
        local_opts = record (s.local_opts) { mitm_config = mitm_of m s.local_opts.mitm_config };
      })
unfolding apply_all mitm_parts with_mitm with_mitm_proxy with_mitm_ca_path with_mitm_key_path
    with_mitm_fake_cert_pool
mitm_parts-mitm_of none s = refl
mitm_parts-mitm_of (some m) s = ground arith

tun_settings-tun_of :
    (net : NetText) (t : TunOption) (s : Settings)
    → apply_all (tun_settings net t) s
      ≡ ok (record s {
        local_opts = record (s.local_opts) {
          enable_tun = true;
          enhancer_config = tun_of net t s.local_opts.enhancer_config;
        };
      })
unfolding apply_all with_enable_tun with_tun_name with_tun_cidr with_tun_mtu with_tun_auto_route
    with_tun_dns_hijack
tun_settings-tun_of net t s = ground arith

dns_parts-with_dns :
    (d : Option DnsOption) (s : Settings)
    → apply_all (dns_parts d) s
      ≡ ok (record s { local_opts = with_dns d s.local_opts; globals = resolving d s.globals })
unfolding apply_all dns_parts with_fake_dns_domain_filter with_fake_dns_server
    with_fake_dns_disable_rewrite with_default_dns_nameservers
dns_parts-with_dns none s = refl
dns_parts-with_dns (some d) s = ground arith

switch_parts-switched :
    (l : LocalConfig) (s : Settings)
    → apply_all (switch_parts l) s ≡ ok (record s { local_opts = switched l s.local_opts })
unfolding apply_all switch_parts with_system_proxy with_lookup_hosts_file
switch_parts-switched l s = ground arith

-- The part of the TUN device, where it is in order.
abbrev TunSettled : NetText → Option TunOption → Option DnsOption → Type 0
TunSettled net t d =
    ((tun_lacks_dns t d ≡ true) × (tun_parts net t d ≡ panics))
    ⊎ ((tun_lacks_dns t d ≡ false)
        × (parts : List SsOption) × (tun_parts net t d ≡ ok parts)
        × ((s : Settings)
            → apply_all parts s ≡ ok (record s { local_opts = with_tun net t s.local_opts })))

tun_parts-TunSettled :
    (net : NetText) (t : Option TunOption) (d : Option DnsOption) → TunSettled net t d
unfolding tun_parts apply_all
tun_parts-TunSettled net none d = inr (refl, [], refl, λ s. refl)
tun_parts-TunSettled net (some t) none = elim (Bool-cases (t.enable)) [
  | inl on ↦ inl (on, ground (arith, on))
  | inr off ↦ inr (off, [], ground (arith, off), λ s. ground (arith, off))
]
tun_parts-TunSettled net (some t) (some d) = elim (Bool-cases (t.enable)) [
  | inl on ↦ inr (
    refl,
    tun_settings net t,
    ground (arith, on),
    λ s. ground (arith, on, tun_settings-tun_of net t s),
  )
  | inr off ↦ inr (refl, [], ground (arith, off), λ s. ground (arith, off))
]

with_addr_and_ruler :
    (addrs : List (List Bytes)) (ruler : Ruler) (more : List SsOption) (s : Settings)
    → apply_all (with_tcp_tun_addr addrs ∷ with_ruler ruler ∷ more) s
      ≡ apply_all more (record s {
        local_opts = record (s.local_opts) { tcp_tun_addr = addrs };
        globals = record (s.globals) { match_ruler = some ruler };
      })
unfolding apply_all with_tcp_tun_addr with_ruler
with_addr_and_ruler addrs ruler more s = refl

-- All parts, one behind the other.
apply_local :
    (net : NetText) (l : LocalConfig) (ruler : Ruler) (tun : List SsOption) (s : Settings)
    → ((t : Settings)
        → apply_all tun t ≡ ok (record t { local_opts = with_tun net l.tun t.local_opts }))
    → apply_all
        (listen_parts l
          ++ (with_tcp_tun_addr (map split_tun_addr_info l.tcp_tun_addr)
              ∷ with_ruler ruler
              ∷ (mitm_parts l.mitm ++ (tun ++ (dns_parts l.dns ++ switch_parts l)))))
        s
      ≡ ok (locally net l ruler s)
unfolding locally
apply_local net l ruler tun s h =
    let s1 : Settings = record s { local_opts = listening l s.local_opts } in
    let s2 : Settings = record s1 {
      local_opts = record (s1.local_opts) { tcp_tun_addr = map split_tun_addr_info l.tcp_tun_addr };
      globals = record (s.globals) { match_ruler = some ruler };
    } in
    let s3 : Settings = record s2 {
      local_opts = record (s2.local_opts) { mitm_config = mitm_of l.mitm s.local_opts.mitm_config };
    } in
    let s4 : Settings = record s3 { local_opts = with_tun net l.tun s3.local_opts } in
    let s5 : Settings = record s4 {
      local_opts = with_dns l.dns s4.local_opts;
      globals = resolving l.dns s4.globals;
    } in
    apply_all-append_ok (listen_parts l) _ s s1 (listen_parts-listening l s)
    ∙ (with_addr_and_ruler _ ruler _ s1
        ∙ (apply_all-append_ok (mitm_parts l.mitm) _ s2 s3 (mitm_parts-mitm_of l.mitm s2)
            ∙ (apply_all-append_ok tun _ s3 s4 (h s3)
                ∙ (apply_all-append_ok (dns_parts l.dns) _ s4 s5 (dns_parts-with_dns l.dns s4)
                    ∙ switch_parts-switched l s5))))

-- What the local part amounts to.
abbrev pub local_result : NetText → Config → LocalConfig → Settings → Outcome Settings
local_result net cfg l s = elim (build_ruler cfg) [
  | ok ruler ↦ if tun_lacks_dns l.tun l.dns then panics else ok (locally net l ruler s)
  | err e ↦ err e
  | panics ↦ panics
]

run_built-build_local :
    (net : NetText) (cfg : Config) (l : LocalConfig) (s : Settings)
    → run_built (build_local net cfg l) s ≡ local_result net cfg l s
unfolding build_local
run_built-build_local net cfg l s = elim (Outcome-cases (build_ruler cfg)) [
  | inr (inl (e, bad)) ↦ ground (arith, bad)
  | inr (inr bad) ↦ ground (arith, bad)
  | inl (ruler, made) ↦ elim (tun_parts-TunSettled net l.tun l.dns) [
    | inl (lacks, bad) ↦ ground (arith, made, lacks, bad)
    | inr (has, tun, parts, applied) ↦
        ground (arith, made, has, parts, apply_local net l ruler tun s applied)
  ]
]

-- The options of BuildLocalOptions, applied, leave the local part of the settings and the ruler as
-- the configuration describes them. They panic where there is no local part, where the ruler cannot
-- be built, or where the TUN device is enabled and there is no DNS part.
pub run_built-build_local_options :
    (net : NetText) (cfg : Config) (s : Settings)
    → run_built (build_local_options net cfg) s
      ≡ elim (cfg.local_part) [ some l ↦ local_result net cfg l s | none ↦ panics ]
unfolding build_local_options
run_built-build_local_options net cfg s = elim (Option-cases (cfg.local_part)) [
  | inl absent ↦ ground (arith, absent)
  | inr (l, there) ↦ ground (arith, there, run_built-build_local net cfg l s)
]
