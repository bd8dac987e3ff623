-- ===== src/Rule/Choice.antt =====
-- rule/rule.go: which item `Match` settles on, and what `Select` makes of it.
use mini_ss.Common.{
  ◌≡◌, ◌≢◌, refl, sym, ap, subst, ◌⊎◌, inl, inr, Bool, true, false, List, [], ◌∷◌, Option, none,
  some, arith, Bool-cases, Option-cases,
}
use mini_ss.Common.Bytes.{Bytes}
use mini_ss.Stream.{Outcome, ok, err, panics, Outcome-cases}
use mini_ss.Rule.Item.{RuleItem, RuleMode, global, direct, match_mode}
use mini_ss.Rule.Matcher.{Env, Matcher, Matched, match_one, matched_result}
use mini_ss.Rule.Ruler.{
  Ruler, Scan, scan, scanned, decide, after_one, match_target, select, auto_select,
}

-- What the loop over the matchers promises: the first matcher that hits has the item, and the
-- matchers before it may have replaced the target.
pub data FirstHit (env : Env) : List Matcher → Bytes → RuleItem → Bytes → Type 0 where
  here :
      {m : Matcher} {ms : List Matcher} {target : Bytes} {r : Matched} {item : RuleItem}
      → match_one env m target ≡ ok r
      → r.hit ≡ true
      → matched_result r.matcher ≡ some item
      → FirstHit env (m ∷ ms) target item r.target
  there :
      {m : Matcher} {ms : List Matcher} {target last : Bytes} {r : Matched} {item : RuleItem}
      → match_one env m target ≡ ok r
      → r.hit ≡ false
      → FirstHit env ms r.target item last
      → FirstHit env (m ∷ ms) target item last

pub data NoHit (env : Env) : List Matcher → Bytes → Bytes → Type 0 where
  at_end : {target : Bytes} → NoHit env [] target target
  missed :
      {m : Matcher} {ms : List Matcher} {target last : Bytes} {r : Matched}
      → match_one env m target ≡ ok r
      → r.hit ≡ false
      → NoHit env ms r.target last
      → NoHit env (m ∷ ms) target last

-- What a scan stands for.
abbrev pub Settled : Env → List Matcher → Bytes → Scan → Type 0
Settled env ms target s =
    ((item : RuleItem) × FirstHit env ms target item s.target
      × (s.item ≡ some item)
      × (s.answer ≡ item.accept))
    ⊎ (NoHit env ms target s.target × (s.item ≡ none) × (s.answer ≡ false))

pub ok_inj {ℓ} : {A : Type ℓ} {a b : A} → ok a ≡ ok b → a ≡ b
ok_inj {a = a} e = ap (λ o. elim o [ ok x ↦ x | err x ↦ a | panics ↦ a ]) e

decided :
    (env : Env) (m : Matcher) (ms : List Matcher) (target : Bytes) (r : Matched) (s : Scan)
    → match_one env m target ≡ ok r
    → r.hit ≡ true
    → decide r ms ≡ ok s
    → Settled env (m ∷ ms) target s
decided env m ms target r s one hit e = elim (Option-cases (matched_result r.matcher)) [
  | inl missing ↦ absurd (ground (arith, missing))
  | inr (item, has) ↦
      let here_is : ok (record {
        answer = item.accept;
        item = some item;
        ms = r.matcher ∷ ms;
        target = r.target;
      })
          ≡ ok s =
        ground (arith, has) in
      subst (λ (x : Scan). Settled env (m ∷ ms) target x) (ok_inj here_is)
        (inl (item, here one hit has, refl, refl))
]

Settled-there :
    (env : Env) (m : Matcher) (ms : List Matcher) (target : Bytes) (r : Matched) (s : Scan)
    → match_one env m target ≡ ok r
    → r.hit ≡ false
    → Settled env ms r.target s
    → Settled env (m ∷ ms) target (after_one r.matcher s)
Settled-there env m ms target r s one miss (inl (item, first, has, answer)) =
    inl (item, there one miss first, has, answer)
Settled-there env m ms target r s one miss (inr (never, has, answer)) =
    inr (missed one miss never, has, answer)

pub scan-Settled :
    (env : Env) (ms : List Matcher) (target : Bytes) (s : Scan)
    → scan env ms target ≡ ok s
    → Settled env ms target s
unfolding scan
scan-Settled env [] target s e =
    subst (λ (x : Scan). Settled env [] target x) (ok_inj e) (inr (at_end, refl, refl))
scan-Settled env (m ∷ ms) target s e = elim (Outcome-cases (match_one env m target)) [
  | inr (inl (x, bad)) ↦ absurd (ground (arith, bad))
  | inr (inr bad) ↦ absurd (ground (arith, bad))
  | inl (r, one) ↦ elim (Bool-cases (r.hit)) [
    | inl hit ↦ decided env m ms target r s one hit (ground (arith, one, hit))
    | inr miss ↦ elim (Outcome-cases (scan env ms r.target)) [
      | inr (inl (x, bad)) ↦ absurd (ground (arith, one, miss, bad))
      | inr (inr bad) ↦ absurd (ground (arith, one, miss, bad))
      | inl (rest, next) ↦
          let whole : ok (after_one r.matcher rest) ≡ ok s = ground (arith, one, miss, next) in
          subst (λ (x : Scan). Settled env (m ∷ ms) target x) (ok_inj whole)
            (Settled-there env m ms target r rest one miss (scan-Settled env ms r.target rest next))
    ]
  ]
]

-- What the answer of `Match` in MATCH mode stands for.
abbrev pub Reported : Env → Ruler → Bytes → Bool × Ruler × Bytes → Type 0
Reported env r target (answer, r', last) =
    ((item : RuleItem) × FirstHit env r.ms target item last
      × (r'.matched ≡ some item)
      × (answer ≡ item.accept))
    ⊎ (NoHit env r.ms target last × (r'.matched ≡ r.matched) × (answer ≡ false))

reported :
    (env : Env) (r : Ruler) (target : Bytes) (s : Scan)
    → Settled env r.ms target s
    → Reported env r target (s.answer, scanned r s, s.target)
reported env r target s (inl (item, first, has, ans)) = inl (item, first, ground (arith, has), ans)
reported env r target s (inr (never, has, ans)) = inr (never, ground (arith, has), ans)

-- In MATCH mode, where Match does not panic, the first matcher that hits decides: its item is what
-- `matched` becomes, and the answer is whether that item accepts. Where no matcher hits, the answer
-- is false and `matched` is still what an earlier match left.
pub match_target-Reported :
    (env : Env) (r : Ruler) (target : Bytes) (result : Bool × Ruler × Bytes)
    → r.rule_mode ≡ match_mode
    → match_target env r target ≡ ok result
    → Reported env r target result
unfolding match_target
match_target-Reported env r target result mode e = elim (Outcome-cases (scan env r.ms target)) [
  | inr (inl (x, bad)) ↦ absurd (ground (arith, bad, mode))
  | inr (inr bad) ↦ absurd (ground (arith, bad, mode))
  | inl (s, good) ↦
      let whole : Outcome (Bool × Ruler × Bytes) = ok (s.answer, scanned r s, s.target) in
      let at : whole ≡ ok result = ground (arith, good, mode) in
      subst (λ (x : Bool × Ruler × Bytes). Reported env r target x) (ok_inj at)
        (reported env r target s (scan-Settled env r.ms target s good))
]

select_matched : (r : Ruler) (item : RuleItem) → r.matched ≡ some item → select r ≢ panics
unfolding select
select_matched r item e p = ground (arith, e)

pub RuleMode-cases : (m : RuleMode) → (m ≡ match_mode) ⊎ ((m ≡ global) ⊎ (m ≡ direct))
RuleMode-cases global = inr (inl refl)
RuleMode-cases direct = inr (inr refl)
RuleMode-cases match_mode = inl refl

-- A match that answers true has set the item: `Select` then gives a proxy or an error and does not
-- dereference nil, whatever the mode.
pub select-match_target :
    (env : Env) (r r' : Ruler) (target last : Bytes)
    → match_target env r target ≡ ok (true, r', last)
    → select r' ≢ panics
unfolding match_target
select-match_target env r r' target last e = elim (RuleMode-cases (r.rule_mode)) [
  | inl matching ↦ elim (match_target-Reported env r target (true, r', last) matching e) [
    | inl (item, first, has, ans) ↦ select_matched r' item has
    | inr (never, same, ans) ↦ absurd (ground arith)
  ]
  | inr (inl mode) ↦
      let done : by_mode global ≡ ok (true, r', last) = ground (arith, mode) in
      select_matched r' (auto_select global) (sym (ap (λ x. now_matched x) (ok_inj done)))
  | inr (inr mode) ↦
      let done : by_mode direct ≡ ok (true, r', last) = ground (arith, mode) in
      select_matched r' (auto_select direct) (sym (ap (λ x. now_matched x) (ok_inj done)))
]
  where
    by_mode : RuleMode → Outcome (Bool × Ruler × Bytes)
    by_mode m = ok (true, record r { matched = some (auto_select m) }, target)

    now_matched : Bool × Ruler × Bytes → Option RuleItem
    now_matched (a, q, t) = q.matched
