-- ===== src/Config/Rules.antt =====
-- BuildRuler of config/config.go.
use mini_ss.Common.{Bool, true, false, List, [], ◌∷◌, map, none, some, if◌then◌else◌}
use mini_ss.Common.Bytes.{Bytes, codes, bytes_beq}
use mini_ss.Stream.{Outcome, panics}
use mini_ss.Rule.Item.{
  RuleItem, RuleMode, global, direct, match_mode, RuleType, rule_domain, rule_domain_keyword,
  rule_domain_suffix, rule_geoip, rule_ip_cidr, rule_others,
}
use mini_ss.Rule.Ruler.{Ruler, new_ruler}
use mini_ss.Config.Types.{Config, RulesConfig, MatchConfig, DomainConfig, AddressConfig}

abbrev pub is_accept : Bytes → Bool
is_accept action = bytes_beq action (codes "accept")

unfoldable pub domain_item_of : RuleType → DomainConfig → RuleItem
domain_item_of t r = record {
  rule_mode = match_mode;
  rule_type = some t;
  proxy = r.proxy;
  value = r.value;
  resolve = false;
  accept = is_accept r.action;
}

unfoldable pub address_item_of : RuleType → AddressConfig → RuleItem
address_item_of t r = record {
  rule_mode = match_mode;
  rule_type = some t;
  proxy = r.proxy;
  value = r.value;
  resolve = r.resolve;
  accept = is_accept r.action;
}

unfoldable pub others_item : MatchConfig → RuleItem
others_item m = record {
  rule_mode = match_mode;
  rule_type = some rule_others;
  proxy = m.others;
  value = [];
  resolve = false;
  accept = true;
}

-- The rules, in the order of IndexToRuleType.
unfoldable pub rules_of : MatchConfig → List (List RuleItem)
unfolding domain_item_of address_item_of others_item
rules_of m =
    map (domain_item_of rule_domain) m.domains
    ∷ map (domain_item_of rule_domain_keyword) m.domain_keywords
    ∷ map (domain_item_of rule_domain_suffix) m.domain_suffixs
    ∷ map (address_item_of rule_geoip) m.geoips
    ∷ map (address_item_of rule_ip_cidr) m.ip_cidrs
    ∷ (others_item m ∷ [])
    ∷ []

unfoldable pub mode_of : Bytes → RuleMode
mode_of text =
    if bytes_beq text (codes "global")
    then global
    else if bytes_beq text (codes "direct")
    then direct
    else match_mode

-- In MATCH mode rules are needed: Fatal ends the program, as a panic does.
unfoldable pub build_match : RulesConfig → Outcome Ruler
unfolding rules_of
build_match rules = elim (rules.match_rules) [
  | some m ↦ new_ruler match_mode rules.direct_to rules.global_to (rules_of m)
  | none ↦ panics
]

unfoldable pub build_ruler : Config → Outcome Ruler
unfolding mode_of build_match
build_ruler cfg = elim (cfg.rules) [
  | none ↦ new_ruler direct [] [] []
  | some rules ↦ elim (mode_of rules.mode) [
    | global ↦ new_ruler global rules.direct_to rules.global_to []
    | direct ↦ new_ruler direct rules.direct_to rules.global_to []
    | match_mode ↦ build_match rules
  ]
]
