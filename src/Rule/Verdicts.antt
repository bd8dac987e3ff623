-- ===== src/Rule/Verdicts.antt =====
-- The items of the keyword, domain and domain suffix matchers, and when they give none.
use mini_ss.Common.{
  true, false, ◌⊎◌, inl, inr, Bool, if◌then◌else◌, ◌≡◌, refl, List, Option, none, some, arith,
}
use mini_ss.Common.Bytes.{Bytes}
use mini_ss.Trie.Defs.{new_node, is_empty}
use mini_ss.Rule.Item.{RuleItem}
use mini_ss.Rule.Matcher.{first_keyword, keyword_item, insert_rules, domain_item}
use mini_ss.Rule.Keywords.{FirstWith, HasKeyword, first_keyword-FirstWith, HasKeyword-first_keyword}
use mini_ss.Rule.Domains.{
  Has, target_labels, ValueMatches, domain_item-ValueMatches, ValueMatches-domain_item,
}

abbrev pub KeywordVerdict : Bytes → List RuleItem → Option RuleItem → Type 0
KeywordVerdict target rs (some item) = (is_empty target ≡ false) × FirstWith target rs item
KeywordVerdict target rs none =
    (is_empty target ≡ true) ⊎ (((r : RuleItem) × Has r rs × HasKeyword target r) → ⊥)

-- The keyword matcher gives, for a target that is not empty, the first item with a keyword that stands
-- somewhere in the target, and it gives none only where the target is empty or no item has one.
pub keyword_item_lem :
    (target : Bytes) (rs : List RuleItem) → KeywordVerdict target rs (keyword_item target rs)
unfolding keyword_item
keyword_item_lem target rs = guarded (is_empty target) refl
  where
    go :
        is_empty target ≡ false
        → (o : Option RuleItem) → first_keyword target rs ≡ o
        → KeywordVerdict target rs o
    go full (some item) e = (full, first_keyword-FirstWith target rs item e)
    go full none e = inr λ (r, has, with_keyword).
        let (item, finds) = HasKeyword-first_keyword target rs r has with_keyword in
        absurd (ground (arith, e, finds))

    guarded :
        (b : Bool)
        → is_empty target ≡ b
        → KeywordVerdict target rs (if b then none else first_keyword target rs)
    guarded true e = inl e
    guarded false e = go e (first_keyword target rs) refl

-- One of the values of the item, behind the prefix of the matcher, matches the target's labels.
abbrev pub Fits : Bytes → List RuleItem → Bytes → RuleItem → Type 0
Fits front rules target item =
    (labels : List Bytes) × (target_labels target ≡ some labels)
    × ValueMatches front rules item labels

abbrev pub DomainVerdict : Bytes → List RuleItem → Bytes → Option RuleItem → Type 0
DomainVerdict front rules target (some item) = Fits front rules target item
DomainVerdict front rules target none = ((item : RuleItem) × Fits front rules target item) → ⊥

-- The item that a domain or domain suffix matcher finds for a target is one of its rules, and one of
-- the values of that rule, behind the prefix of the matcher, matches the labels of the target; it
-- finds none only where no value of a rule matches.
pub domain_item_lem :
    (front : Bytes) (rules : List RuleItem) (target : Bytes)
    → DomainVerdict front rules target (domain_item (insert_rules front new_node rules) target)
domain_item_lem front rules target =
    go (domain_item (insert_rules front new_node rules) target) refl
  where
    go :
        (o : Option RuleItem)
        → domain_item (insert_rules front new_node rules) target ≡ o
        → DomainVerdict front rules target o
    go (some item) e = domain_item-ValueMatches front rules target item e
    go none e = λ (item, (labels, good, fits)).
        let (r, finds) = ValueMatches-domain_item front rules target labels item good fits in
        absurd (ground (arith, e, finds))
