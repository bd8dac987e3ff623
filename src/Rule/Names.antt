-- ===== src/Rule/Names.antt =====
-- rule/rule.go: the words "direct" and "global" among the proxies.
use mini_ss.Common.{
  ◌≡◌, refl, sym, ap, inl, inr, Bool, true, false, ◌||◌, List, none, some, arith, Bool-cases,
  Option-cases, subst,
}
use mini_ss.Common.Bytes.{Bytes, codes, bytes_beq}
use mini_ss.Stream.{Outcome, ok, Outcome-cases}
use mini_ss.Trie.Defs.{is_empty}
use mini_ss.Rule.Item.{RuleItem, RuleMode, global, direct, index_to_rule_type}
use mini_ss.Rule.Matcher.{Env, Matcher}
use mini_ss.Rule.Ruler.{
  Ruler, scan, scanned, match_target, select, select_global, select_direct, auto_select, strategy,
  new_ruler, new_matchers,
}
use mini_ss.Rule.Choice.{ok_inj, RuleMode-cases}

abbrev pub reserved : Bytes → Bool
reserved name = bytes_beq name (codes "direct") || bytes_beq name (codes "global")

-- The two strategies of a ruler.
abbrev pub strategies : Ruler → Bytes × Bytes
strategies r = (r.direct_to, r.global_to)

abbrev pub NoneReserved : Bytes × Bytes → Type 0
NoneReserved (to_direct, to_global) = (reserved to_direct ≡ false) × (reserved to_global ≡ false)

strategy-reserved : (to : Bytes) → reserved (strategy to) ≡ false
unfolding strategy bytes_beq
strategy-reserved to = elim (Bool-cases (reserved to)) [
  | inl is ↦ rw is refl
  | inr is_not ↦ rw is_not is_not
]

new_ruler-NoneReserved :
    (mode : RuleMode) (direct_to global_to : Bytes) (all_rules : List (List RuleItem)) (r : Ruler)
    → new_ruler mode direct_to global_to all_rules ≡ ok r
    → NoneReserved (strategies r)
unfolding new_ruler
new_ruler-NoneReserved mode direct_to global_to all_rules r e =
    elim (Outcome-cases (new_matchers index_to_rule_type all_rules)) [
      | inr (inl (x, bad)) ↦ absurd (ground (arith, bad))
      | inr (inr bad) ↦ absurd (ground (arith, bad))
      | inl (ms, good) ↦
          let made : made_by ms ≡ ok r = ground (arith, good) in
          subst (λ (x : Ruler). NoneReserved (strategies x)) (ok_inj made)
            (strategy-reserved direct_to, strategy-reserved global_to)
    ]
  where
    made_by : List Matcher → Outcome Ruler
    made_by ms = ok (record {
      rule_mode = mode;
      matched = none;
      ms = ms;
      direct_to = strategy direct_to;
      global_to = strategy global_to;
    })

match_target-strategies :
    (env : Env) (r r' : Ruler) (target last : Bytes) (answer : Bool)
    → match_target env r target ≡ ok (answer, r', last)
    → strategies r' ≡ strategies r
unfolding match_target
match_target-strategies env r r' target last answer e = elim (RuleMode-cases (r.rule_mode)) [
  | inr (inl mode) ↦
      let at : by_mode global ≡ ok (answer, r', last) = ground (arith, mode) in told (ok_inj at)
  | inr (inr mode) ↦
      let at : by_mode direct ≡ ok (answer, r', last) = ground (arith, mode) in told (ok_inj at)
  | inl mode ↦ elim (Outcome-cases (scan env r.ms target)) [
    | inr (inl (x, bad)) ↦ absurd (ground (arith, bad, mode))
    | inr (inr bad) ↦ absurd (ground (arith, bad, mode))
    | inl (s, good) ↦
        let whole : Outcome (Bool × Ruler × Bytes) = ok (s.answer, scanned r s, s.target) in
        let at : whole ≡ ok (answer, r', last) = ground (arith, good, mode) in told (ok_inj at)
  ]
]
  where
    by_mode : RuleMode → Outcome (Bool × Ruler × Bytes)
    by_mode m = ok (true, record r { matched = some (auto_select m) }, target)

    left_in : Bool × Ruler × Bytes → Bytes × Bytes
    left_in (a, q, t) = strategies q

    told : {x : Bool × Ruler × Bytes} → x ≡ (answer, r', last) → strategies r' ≡ left_in x
    told h = sym (ap (λ x. left_in x) h)

select_global-reserved :
    (r : Ruler) (p : Bytes)
    → NoneReserved (strategies r)
    → select_global r ≡ ok p
    → reserved p ≡ false
select_global-reserved r p (d, g) e = elim (Bool-cases (is_empty r.global_to)) [
  | inl bad ↦ absurd (ground (arith, bad))
  | inr good ↦
      let at : ok r.global_to ≡ ok p = ground (arith, good) in
      subst (λ (x : Bytes). reserved x ≡ false) (ok_inj at) g
]

select_direct-reserved :
    (r : Ruler) (p : Bytes)
    → NoneReserved (strategies r)
    → select_direct r ≡ ok p
    → reserved p ≡ false
select_direct-reserved r p (d, g) e = subst (λ (x : Bytes). reserved x ≡ false) (ok_inj e) d

select-NoneReserved :
    (r : Ruler) (p : Bytes) → NoneReserved (strategies r) → select r ≡ ok p → reserved p ≡ false
unfolding select
select-NoneReserved r p h e = elim (Option-cases (r.matched)) [
  | inl nothing ↦ absurd (ground (arith, nothing))
  | inr (item, has) ↦
      let by_global = select_global-reserved r p h in
      let by_direct = select_direct-reserved r p h in
      elim (RuleMode-cases (item.rule_mode)) [
        | inr (inl mode) ↦ by_global (ground (arith, has, mode))
        | inr (inr mode) ↦ by_direct (ground (arith, has, mode))
        | inl mode ↦ elim (Bool-cases (bytes_beq item.proxy (codes "global"))) [
          | inl is_global ↦ by_global (ground (arith, has, mode, is_global))
          | inr not_global ↦ elim (Bool-cases (bytes_beq item.proxy (codes "direct"))) [
            | inl is_direct ↦ by_direct (ground (arith, has, mode, not_global, is_direct))
            | inr not_direct ↦ elim (Bool-cases (is_empty item.proxy)) [
              | inl blank ↦ absurd (ground (arith, has, mode, not_global, not_direct, blank))
              | inr given ↦
                  let at : ok item.proxy ≡ ok p =
                    ground (arith, has, mode, not_global, not_direct, given) in
                  subst (λ (x : Bytes). reserved x ≡ false) (ok_inj at)
                    (ground (arith, not_global, not_direct))
            ]
          ]
        ]
      ]
]

-- A proxy that `Select` gives after a match of a ruler of `NewRuler` is never named "direct" or
-- "global": those words are resolved, or mean no proxy.
pub select-reserved :
    (env : Env) (mode : RuleMode) (direct_to global_to : Bytes) (all_rules : List (List RuleItem))
    (r r' : Ruler) (target last : Bytes) (answer : Bool) (p : Bytes)
    → new_ruler mode direct_to global_to all_rules ≡ ok r
    → match_target env r target ≡ ok (answer, r', last)
    → select r' ≡ ok p
    → reserved p ≡ false
select-reserved env mode direct_to global_to all_rules r r' target last answer p made matched
      chosen =
    select-NoneReserved r' p
      (subst (λ (x : Bytes × Bytes). NoneReserved x)
        (sym (match_target-strategies env r r' target last answer matched))
        (new_ruler-NoneReserved mode direct_to global_to all_rules r made))
      chosen
