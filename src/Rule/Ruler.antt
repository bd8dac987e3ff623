-- ===== src/Rule/Ruler.antt =====
-- rule/rule.go: the ruler and its choice of a proxy. `matched` is nil until a match sets it.
use mini_ss.Common.{Bool, true, false, not, ◌||◌, List, [], ◌∷◌, Option, none, some, if◌then◌else◌}
use mini_ss.Common.Bytes.{Bytes, codes, bytes_beq}
use mini_ss.Stream.{Outcome, ok, err, panics, empty_global_proxy_node, rule_match_dropped}
use mini_ss.Trie.Defs.{is_empty}
use mini_ss.Rule.Item.{RuleItem, RuleMode, global, direct, match_mode, index_to_rule_type, RuleType}
use mini_ss.Rule.Matcher.{Env, Matcher, Matched, new_rule_matcher, match_one, matched_result}

pub record Ruler : Type 0 where
  pub rule_mode : RuleMode
  pub matched : Option RuleItem
  pub ms : List Matcher
  pub direct_to : Bytes
  pub global_to : Bytes

-- The loop of NewRuler, which indexes IndexToRuleType by the position of the rules.
unfoldable pub new_matchers : List RuleType → List (List RuleItem) → Outcome (List Matcher)
unfolding new_rule_matcher
new_matchers types [] = ok []
new_matchers [] (rules ∷ rest) = panics
new_matchers (t ∷ types) (rules ∷ rest) =
    let more = new_matchers types rest in
    elim (new_rule_matcher t rules) [
      | ok m ↦ elim more [ ok ms ↦ ok (m ∷ ms) | err e ↦ err e | panics ↦ panics ]
      | err e ↦ err e
      | panics ↦ panics
    ]

-- The names "direct" and "global" are no proxies.
unfoldable pub strategy : Bytes → Bytes
strategy to = if bytes_beq to (codes "direct") || bytes_beq to (codes "global") then [] else to

unfoldable pub new_ruler : RuleMode → Bytes → Bytes → List (List RuleItem) → Outcome Ruler
unfolding new_matchers strategy
new_ruler mode direct_to global_to all_rules = elim (new_matchers index_to_rule_type all_rules) [
  | ok ms ↦ ok (record {
    rule_mode = mode;
    matched = none;
    ms = ms;
    direct_to = strategy direct_to;
    global_to = strategy global_to;
  })
  | err e ↦ err e
  | panics ↦ panics
]

-- The item of the modes GLOBAL and DIRECT.
abbrev pub auto_select : RuleMode → RuleItem
auto_select mode = record {
  rule_mode = mode;
  rule_type = none;
  proxy = codes "auto-select";
  value = [];
  resolve = false;
  accept = true;
}

-- The loop of `Match`: the answer, the item that matched, the matchers and the target after it.
pub record Scan : Type 0 where
  pub answer : Bool
  pub item : Option RuleItem
  pub ms : List Matcher
  pub target : Bytes

abbrev pub after_one : Matcher → Scan → Scan
after_one m s = record s { ms = m ∷ s.ms }

-- The answer where a matcher has matched: its item decides.
abbrev pub decide : Matched → List Matcher → Outcome Scan
decide r rest = elim (matched_result r.matcher) [
  | none ↦ panics
  | some item ↦
      ok (record {
        answer = item.accept;
        item = some item;
        ms = r.matcher ∷ rest;
        target = r.target;
      })
]

unfoldable pub scan : Env → List Matcher → Bytes → Outcome Scan
unfolding match_one matched_result
scan env [] target = ok (record { answer = false; item = none; ms = []; target = target })
scan env (m ∷ ms) target = elim (match_one env m target) [
  | ok r ↦ if r.hit then decide r ms else elim (scan env ms r.target) [
    | ok s ↦ ok (after_one r.matcher s)
    | err e ↦ err e
    | panics ↦ panics
  ]
  | err e ↦ err e
  | panics ↦ panics
]

-- Where nothing matches, `matched` stays as it was.
abbrev pub scanned : Ruler → Scan → Ruler
scanned r s = record r { matched = elim s.item [ some i ↦ some i | none ↦ r.matched ]; ms = s.ms }

-- The answer, the ruler and the target after `Match`.
unfoldable pub match_target : Env → Ruler → Bytes → Outcome (Bool × Ruler × Bytes)
unfolding scan
match_target env r target = elim (r.rule_mode) [
  | global ↦ ok (true, record r { matched = some (auto_select global) }, target)
  | direct ↦ ok (true, record r { matched = some (auto_select direct) }, target)
  | match_mode ↦ elim (scan env r.ms target) [
    | ok s ↦ ok (s.answer, scanned r s, s.target)
    | err e ↦ err e
    | panics ↦ panics
  ]
]

abbrev pub select_global : Ruler → Outcome Bytes
select_global r = if is_empty r.global_to then err empty_global_proxy_node else ok r.global_to

abbrev pub select_direct : Ruler → Outcome Bytes
select_direct r = ok r.direct_to

-- `Select`: the proxy, where "" is a direct connection.
unfoldable pub select : Ruler → Outcome Bytes
select r = elim (r.matched) [
  | none ↦ panics
  | some item ↦ elim (item.rule_mode) [
    | match_mode ↦
        if bytes_beq item.proxy (codes "global")
        then select_global r
        else if bytes_beq item.proxy (codes "direct")
        then select_direct r
        else if not (is_empty item.proxy)
        then ok item.proxy
        else err rule_match_dropped
    | global ↦ select_global r
    | direct ↦ select_direct r
  ]
]
