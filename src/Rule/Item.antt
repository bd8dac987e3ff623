-- ===== src/Rule/Item.antt =====
-- rule/rule.go: modes, types and rule items.
use mini_ss.Common.{Bool, Option, List, [], ◌∷◌}
use mini_ss.Common.Bytes.{Bytes}

pub data RuleMode : Type 0 where
  global direct match_mode : RuleMode

-- In the order of IndexToRuleType.
pub data RuleType : Type 0 where
  rule_domain rule_domain_keyword rule_domain_suffix rule_geoip rule_ip_cidr rule_others : RuleType

abbrev pub index_to_rule_type : List RuleType
index_to_rule_type =
    rule_domain ∷ rule_domain_keyword ∷ rule_domain_suffix ∷ rule_geoip ∷ rule_ip_cidr ∷ rule_others
    ∷ []

-- The rule type of the item that the modes GLOBAL and DIRECT make is empty: `none`.
pub record RuleItem : Type 0 where
  pub rule_mode : RuleMode
  pub rule_type : Option RuleType
  pub proxy : Bytes
  pub value : List Bytes
  pub resolve : Bool
  pub accept : Bool
