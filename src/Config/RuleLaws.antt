-- ===== src/Config/RuleLaws.antt =====
-- The ruler that BuildRuler makes, and its matches.
use mini_ss.Common.{
  ◌≡◌, sym, ap, subst, Bool, true, false, Option, none, some, List, [], ◌∷◌, ◌++◌, map, inl, inr,
  arith,
}
use mini_ss.Common.Bytes.{Bytes}
use mini_ss.Stream.{ok, panics}
use mini_ss.Trie.Defs.{is_empty}
use mini_ss.Rule.Item.{
  RuleItem, RuleMode, global, direct, match_mode, rule_domain, rule_domain_keyword,
  rule_domain_suffix, rule_geoip, rule_ip_cidr,
}
use mini_ss.Rule.Matcher.{
  Env, Matcher, Matched, match_one, new_domain_rule, new_domain_suffix_rule, domain_keyword_rule,
  geoip_rule, ip_cidr_rule, other_rule,
}
use mini_ss.Rule.Ruler.{Ruler, new_ruler, match_target, strategy}
use mini_ss.Rule.Choice.{FirstHit, NoHit, missed, match_target-Reported, ok_inj}
use mini_ss.Config.Types.{Config, RulesConfig, MatchConfig}
use mini_ss.Config.Rules.{build_ruler, mode_of, others_item, domain_item_of, address_item_of}

-- The matchers but the last.
abbrev pub leading : MatchConfig → List Matcher
leading m =
    new_domain_rule (map (domain_item_of rule_domain) m.domains)
    ∷ domain_keyword_rule none (map (domain_item_of rule_domain_keyword) m.domain_keywords)
    ∷ new_domain_suffix_rule (map (domain_item_of rule_domain_suffix) m.domain_suffixs)
    ∷ geoip_rule none (map (address_item_of rule_geoip) m.geoips)
    ∷ ip_cidr_rule none (map (address_item_of rule_ip_cidr) m.ip_cidrs)
    ∷ []

abbrev pub ruler_with : RuleMode → Bytes → Bytes → List Matcher → Ruler
ruler_with mode to_direct to_global ms = record {
  rule_mode = mode;
  matched = none;
  ms = ms;
  direct_to = strategy to_direct;
  global_to = strategy to_global;
}

-- The ruler that a configuration describes, `none` where it is in MATCH mode without rules.
abbrev pub ruler_of : Option RulesConfig → Option Ruler
ruler_of none = some (ruler_with direct [] [] [])
ruler_of (some r) = elim (mode_of r.mode) [
  | global ↦ some (ruler_with global r.direct_to r.global_to [])
  | direct ↦ some (ruler_with direct r.direct_to r.global_to [])
  | match_mode ↦ elim (r.match_rules) [
    | some m ↦ some (
        ruler_with match_mode r.direct_to r.global_to
          (leading m ++ other_rule (others_item m) ∷ []))
    | none ↦ none
  ]
]

-- BuildRuler makes the ruler that the configuration describes: its mode, the six matchers in the
-- order of the rule types, and no item matched. It fails only in MATCH mode without rules.
pub build_ruler-ruler_of :
    (cfg : Config) → build_ruler cfg ≡ elim (ruler_of cfg.rules) [ some r ↦ ok r | none ↦ panics ]
unfolding build_ruler new_ruler
build_ruler-ruler_of cfg = ground arith

NoHit-last :
    (env : Env) (ms : List Matcher) (o : RuleItem) (target last : Bytes)
    → NoHit env (ms ++ other_rule o ∷ []) target last
    → is_empty o.proxy ≡ true
unfolding match_one
NoHit-last env [] o target last (missed one miss rest) =
    let hit = ap (λ (x : Matched). x.hit) (ok_inj one) in ground (arith, hit, miss)
NoHit-last env (m ∷ ms) o target last (missed one miss rest) = NoHit-last env ms o _ last rest

-- A ruler of BuildRuler in MATCH mode whose rules name a proxy for all others: a match that does not
-- panic is always settled by the first matcher that hits, and the answer is whether its item accepts.
pub match_target-others :
    (env : Env) (cfg : Config) (rules : RulesConfig) (m : MatchConfig) (r r' : Ruler)
    (target last : Bytes) (answer : Bool)
    → cfg.rules ≡ some rules
    → mode_of rules.mode ≡ match_mode
    → rules.match_rules ≡ some m
    → is_empty m.others ≡ false
    → build_ruler cfg ≡ ok r
    → match_target env r target ≡ ok (answer, r', last)
    → (item : RuleItem) × FirstHit env r.ms target item last
      × (r'.matched ≡ some item)
      × (answer ≡ item.accept)
unfolding others_item
match_target-others env cfg rules m r r' target last answer there mode with_rules others built
      matched =
    let made : Ruler =
      ruler_with match_mode rules.direct_to rules.global_to
        (leading m ++ other_rule (others_item m) ∷ []) in
    let same : ok made ≡ ok r =
      ground (arith, build_ruler-ruler_of cfg, there, mode, with_rules, built) in
    let kind : r.rule_mode ≡ match_mode = sym (ap (λ (x : Ruler). x.rule_mode) (ok_inj same)) in
    elim (match_target-Reported env r target (answer, r', last) kind matched) [
      | inl hit ↦ hit
      | inr (never, kept, no_answer) ↦
          let ends : NoHit env (leading m ++ other_rule (others_item m) ∷ []) target last =
            subst (λ (ms : List Matcher). NoHit env ms target last)
              (sym (ap (λ (x : Ruler). x.ms) (ok_inj same))) never in
          absurd
            (ground (arith, NoHit-last env (leading m) (others_item m) target last ends, others))
    ]
