-- ===== src/Rule/Matcher.antt =====
-- The matchers of rule/: domain.go, domain_suffix.go, domain_keyword.go, geoip.go, ipcidr.go,
-- others.go, match.go. A matcher is a value with the item that it matched last; a match returns
-- the matcher and the target after it, since it may replace a domain name by its address.
use mini_ss.Common.{
  ℕ, Bool, true, false, not, ◌&&◌, ◌||◌, List, [], ◌∷◌, ◌++◌, Option, none, some, if◌then◌else◌,
  ◌==◌,
}
use mini_ss.Common.Bytes.{Bytes, codes, bytes_beq}
use mini_ss.Stream.{Outcome, ok, err, panics}
use mini_ss.Trie.Defs.{Node, data_of, new_node, insert, search, is_empty}
use mini_ss.Rule.Item.{
  RuleItem, RuleType, rule_domain, rule_domain_keyword, rule_domain_suffix, rule_geoip,
  rule_ip_cidr, rule_others,
}

-- What the rules ask of others. An address is a number; `parse_addr` is netip.ParseAddr, and
-- `print_addr` its String; `lookup_host` is the resolver's answer for a name, if it is valid;
-- `country` is geoip.QueryCountryByIP, where `none` is the address that is not valid; and
-- `prefix_contains` is the test of netip.MustParsePrefix, `none` where that panics.
pub record Env : Type 0 where
  pub parse_addr : Bytes → Option ℕ
  pub print_addr : ℕ → Bytes
  pub lookup_host : Bytes → Option ℕ
  pub country : Option ℕ → Bytes
  pub prefix_contains : Bytes → Option ℕ → Option Bool

pub data Matcher : Type 0 where
  domain_rule : Option RuleItem → Node RuleItem → Matcher
  domain_suffix_rule : Option RuleItem → Node RuleItem → Matcher
  domain_keyword_rule : Option RuleItem → List RuleItem → Matcher
  geoip_rule : Option RuleItem → List RuleItem → Matcher
  ip_cidr_rule : Option RuleItem → List RuleItem → Matcher
  other_rule : RuleItem → Matcher

-- An invalid domain is skipped: the error of `Insert` is not read.
abbrev pub insert_or_skip : Node RuleItem → Bytes → RuleItem → Node RuleItem
insert_or_skip t domain item = elim (insert t domain item) [ some t' ↦ t' | none ↦ t ]

-- The inner loop of newDomainRule and newDomainSuffixRule; `front` is "" or "+.".
unfoldable pub insert_values : Bytes → Node RuleItem → List Bytes → RuleItem → Node RuleItem
insert_values front t [] item = t
insert_values front t (v ∷ vs) item =
    insert_values front (insert_or_skip t (front ++ v) item) vs item

unfoldable pub insert_rules : Bytes → Node RuleItem → List RuleItem → Node RuleItem
unfolding insert_values
insert_rules front t [] = t
insert_rules front t (r ∷ rs) = insert_rules front (insert_values front t r.value r) rs

abbrev pub new_domain_rule : List RuleItem → Matcher
new_domain_rule rules = domain_rule none (insert_rules [] new_node rules)

abbrev pub new_domain_suffix_rule : List RuleItem → Matcher
new_domain_suffix_rule rules = domain_suffix_rule none (insert_rules (codes "+.") new_node rules)

-- newRuleMatcher: the rule OTHERS takes the first of its items.
unfoldable pub new_rule_matcher : RuleType → List RuleItem → Outcome Matcher
unfolding insert_rules
new_rule_matcher rule_domain rules = ok (new_domain_rule rules)
new_rule_matcher rule_domain_suffix rules = ok (new_domain_suffix_rule rules)
new_rule_matcher rule_domain_keyword rules = ok (domain_keyword_rule none rules)
new_rule_matcher rule_geoip rules = ok (geoip_rule none rules)
new_rule_matcher rule_ip_cidr rules = ok (ip_cidr_rule none rules)
new_rule_matcher rule_others [] = panics
new_rule_matcher rule_others (r ∷ rs) = ok (other_rule r)

-- strings.HasPrefix and strings.Contains
unfoldable pub has_prefix : Bytes → Bytes → Bool
has_prefix s [] = true
has_prefix [] (p ∷ ps) = false
has_prefix (b ∷ s) (p ∷ ps) = b == p && has_prefix s ps

unfoldable pub contains_text : Bytes → Bytes → Bool
unfolding has_prefix
contains_text [] keyword = is_empty keyword
contains_text (b ∷ s) keyword = has_prefix (b ∷ s) keyword || contains_text s keyword

abbrev pub any_keyword : Bytes → List Bytes → Bool
any_keyword target [] = false
any_keyword target (k ∷ ks) = contains_text target k || any_keyword target ks

-- The two loops of domainKeywordRule.Match.
unfoldable pub first_keyword : Bytes → List RuleItem → Option RuleItem
unfolding contains_text
first_keyword target [] = none
first_keyword target (r ∷ rs) =
    if any_keyword target r.value then some r else first_keyword target rs

-- The item of domainKeywordRule.Match: none for an empty target, even where a keyword is empty.
unfoldable pub keyword_item : Bytes → List RuleItem → Option RuleItem
unfolding first_keyword
keyword_item target rs = if is_empty target then none else first_keyword target rs

-- The target after the resolving part of a geoip or IP-CIDR round.
abbrev pub resolved : Env → Bool → Bytes → Bytes
resolved env false target = target
resolved env true target = elim (env.parse_addr target) [
  | some ip ↦ target
  | none ↦ elim (env.lookup_host target) [ some ip ↦ env.print_addr ip | none ↦ target ]
]

abbrev pub any_country : Env → Option ℕ → List Bytes → Bool
any_country env ip [] = false
any_country env ip (v ∷ vs) = bytes_beq v (env.country ip) || any_country env ip vs

unfoldable pub geoip_item : Env → Bytes → List RuleItem → Option RuleItem × Bytes
geoip_item env target [] = (none, target)
geoip_item env target (r ∷ rs) =
    let next = resolved env r.resolve target in
    let rest = geoip_item env next rs in
    if any_country env (env.parse_addr next) r.value then (some r, next) else rest

-- Whether a subnet has the address; a panic where one before that does not parse.
abbrev pub any_subnet : Env → Option ℕ → List Bytes → Outcome Bool
any_subnet env ip [] = ok false
any_subnet env ip (v ∷ vs) =
    let rest = any_subnet env ip vs in
    elim (env.prefix_contains v ip) [ none ↦ panics | some true ↦ ok true | some false ↦ rest ]

unfoldable pub ip_cidr_item : Env → Bytes → List RuleItem → Outcome (Option RuleItem × Bytes)
ip_cidr_item env target [] = ok (none, target)
ip_cidr_item env target (r ∷ rs) =
    let next = resolved env r.resolve target in
    let rest = ip_cidr_item env next rs in
    elim (any_subnet env (env.parse_addr next) r.value) [
      | ok true ↦ ok (some r, next)
      | ok false ↦ rest
      | err e ↦ err e
      | panics ↦ panics
    ]

-- What a match gives: whether it matched, the matcher and the target after it.
pub record Matched : Type 0 where
  pub hit : Bool
  pub matcher : Matcher
  pub target : Bytes

-- The item found, or the result of the match before.
abbrev pub report :
    (Option RuleItem → Matcher) → Option RuleItem → Option RuleItem → Bytes → Matched
report make last (some r) target = record { hit = true; matcher = make (some r); target = target }
report make last none target = record { hit = false; matcher = make last; target = target }

-- The item of a search of the domain trie.
unfoldable pub domain_item : Node RuleItem → Bytes → Option RuleItem
unfolding search
domain_item t target =
    if is_empty target then none else elim (search t target) [ some n ↦ data_of n | none ↦ none ]

unfoldable pub match_one : Env → Matcher → Bytes → Outcome Matched
unfolding domain_item keyword_item geoip_item ip_cidr_item
match_one env (domain_rule last t) target =
    ok (report (λ r. domain_rule r t) last (domain_item t target) target)
match_one env (domain_suffix_rule last t) target =
    ok (report (λ r. domain_suffix_rule r t) last (domain_item t target) target)
match_one env (domain_keyword_rule last rs) target =
    ok (report (λ r. domain_keyword_rule r rs) last (keyword_item target rs) target)
match_one env (geoip_rule last rs) target =
    let (found, next) = geoip_item env target rs in
    ok (report (λ r. geoip_rule r rs) last found next)
match_one env (ip_cidr_rule last rs) target = elim (ip_cidr_item env target rs) [
  | ok (found, next) ↦ ok (report (λ r. ip_cidr_rule r rs) last found next)
  | err e ↦ err e
  | panics ↦ panics
]
match_one env (other_rule r) target =
    ok (record { hit = not (is_empty r.proxy); matcher = other_rule r; target = target })

-- MatchedResult
unfoldable pub matched_result : Matcher → Option RuleItem
matched_result (domain_rule last t) = last
matched_result (domain_suffix_rule last t) = last
matched_result (domain_keyword_rule last rs) = last
matched_result (geoip_rule last rs) = last
matched_result (ip_cidr_rule last rs) = last
matched_result (other_rule r) = some r
