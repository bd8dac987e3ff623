-- ===== src/Rule/Examples.antt =====
-- Tests and witnesses of the rules: a ruler with a keyword, a domain suffix and an OTHERS rule.
use mini_ss.Common.{◌≡◌, ◌≢◌, refl, inl, List, [], ◌∷◌, Option, none, some, true, false}
use mini_ss.Common.Bytes.{Bytes, codes, bytes_beq}
use mini_ss.Stream.{ok, panics}
use mini_ss.Trie.Defs.{
  Node, new_node, insert, insert_path, get_child, add_child, valid_and_split_domain,
}
use mini_ss.Rule.Item.{RuleItem, match_mode, rule_domain}
use mini_ss.Rule.Matcher.{
  Env, domain_suffix_rule, domain_keyword_rule, geoip_rule, ip_cidr_rule, domain_rule, other_rule,
  insert_rules, domain_item, first_keyword, keyword_item,
}
use mini_ss.Rule.Ruler.{Ruler, new_ruler, match_target, select}
use mini_ss.Rule.Domains.{target_labels, ValueMatches, paths_of}
use mini_ss.Rule.Keywords.{HasKeyword}
use mini_ss.Rule.Verdicts.{KeywordVerdict, keyword_item_lem, DomainVerdict, domain_item_lem}
use mini_ss.Rule.Choice.{Reported, match_target-Reported, select-match_target}
use mini_ss.Rule.Names.{reserved, select-reserved}

-- Nothing resolves, and every subnet has every address.
abbrev pub env : Env
env = record {
  parse_addr = λ s. none;
  print_addr = λ ip. [];
  lookup_host = λ s. none;
  country = λ ip. [];
  prefix_contains = λ s ip. some true;
}

abbrev item_of : Bytes → Bytes → RuleItem
item_of value proxy = record {
  rule_mode = match_mode;
  rule_type = some rule_domain;
  proxy = proxy;
  value = value ∷ [];
  resolve = false;
  accept = true;
}

abbrev keyword_rule : RuleItem
keyword_rule = item_of (codes "ads") (codes "q")

abbrev suffix_rule : RuleItem
suffix_rule = item_of (codes "a.com") (codes "p")

abbrev others_rule : RuleItem
others_rule = item_of [] (codes "global")

abbrev all_rules : List (List RuleItem)
all_rules = [] ∷ (keyword_rule ∷ []) ∷ (suffix_rule ∷ []) ∷ [] ∷ [] ∷ (others_rule ∷ []) ∷ []

abbrev suffixes : Node RuleItem
suffixes = insert_rules (codes "+.") new_node (suffix_rule ∷ [])

-- The ruler that NewRuler makes, with the results of its matches.
abbrev ruler_after : Option RuleItem → Option RuleItem → Ruler
ruler_after m by_suffix = record {
  rule_mode = match_mode;
  matched = m;
  ms =
      domain_rule none new_node
      ∷ domain_keyword_rule none (keyword_rule ∷ [])
      ∷ domain_suffix_rule by_suffix suffixes
      ∷ geoip_rule none []
      ∷ ip_cidr_rule none []
      ∷ other_rule others_rule
      ∷ [];
  direct_to = [];
  global_to = codes "g";
}

abbrev target : Bytes
target = codes "x.a.com"

made : new_ruler match_mode (codes "direct") (codes "g") all_rules ≡ ok (ruler_after none none)
unfolding new_ruler bytes_beq
made = refl

matched_suffix :
    match_target env (ruler_after none none) target
    ≡ ok (true, ruler_after (some suffix_rule) (some suffix_rule), target)
unfolding match_target insert_rules get_child insert bytes_beq insert_path add_child
matched_suffix = refl

selected : select (ruler_after (some suffix_rule) (some suffix_rule)) ≡ ok (codes "p")
unfolding select bytes_beq
selected = refl

-- What no other rule matches goes to the strategy of the mode GLOBAL.
matched_other :
    match_target env (ruler_after none none) (codes "b.org")
    ≡ ok (true, ruler_after (some others_rule) none, codes "b.org")
unfolding match_target insert_rules get_child insert bytes_beq insert_path add_child
matched_other = refl

selected_other : select (ruler_after (some others_rule) none) ≡ ok (codes "g")
unfolding select bytes_beq
selected_other = refl

abbrev labels : List Bytes
labels = codes "com" ∷ codes "a" ∷ codes "x" ∷ []

found_suffix : domain_item suffixes target ≡ some suffix_rule
unfolding domain_item insert_rules get_child insert bytes_beq insert_path add_child
found_suffix = refl

labels_of_target : target_labels target ≡ some labels
unfolding target_labels
labels_of_target = refl

suffix_fits : ValueMatches (codes "+.") (suffix_rule ∷ []) suffix_rule labels
unfolding paths_of valid_and_split_domain bytes_beq
suffix_fits =
    ((codes "com" ∷ codes "a" ∷ [] ∷ []), (inl refl, codes "a.com", inl refl, inl refl), refl)

has_keyword : HasKeyword (codes "my.ads.org") keyword_rule
has_keyword = (codes "ads", inl refl, (codes "my.", codes ".org", refl))

by_keyword : keyword_item (codes "my.ads.org") (suffix_rule ∷ keyword_rule ∷ []) ≡ some keyword_rule
unfolding keyword_item first_keyword
by_keyword = refl

domain_item_example :
    DomainVerdict
      (codes "+.")
      (suffix_rule ∷ [])
      target
      (domain_item (insert_rules (codes "+.") new_node (suffix_rule ∷ [])) target)
domain_item_example = domain_item_lem (codes "+.") (suffix_rule ∷ []) target

keyword_item_example :
    KeywordVerdict
      (codes "my.ads.org")
      (suffix_rule ∷ keyword_rule ∷ [])
      (keyword_item (codes "my.ads.org") (suffix_rule ∷ keyword_rule ∷ []))
keyword_item_example = keyword_item_lem (codes "my.ads.org") (suffix_rule ∷ keyword_rule ∷ [])

match_target-Reported_example :
    Reported env
      (ruler_after none none)
      target
      (true, ruler_after (some suffix_rule) (some suffix_rule), target)
match_target-Reported_example =
    match_target-Reported env (ruler_after none none) target
      (true, ruler_after (some suffix_rule) (some suffix_rule), target) refl matched_suffix

select-match_target_example : select (ruler_after (some suffix_rule) (some suffix_rule)) ≢ panics
select-match_target_example =
    select-match_target env (ruler_after none none)
      (ruler_after (some suffix_rule) (some suffix_rule)) target target matched_suffix

select-reserved_example : reserved (codes "p") ≡ false
select-reserved_example =
    select-reserved env match_mode (codes "direct") (codes "g") all_rules (ruler_after none none)
      (ruler_after (some suffix_rule) (some suffix_rule)) target target true (codes "p") made
      matched_suffix selected
