-- ===== src/Rule/Keywords.antt =====
-- rule/domain_keyword.go against what it means for a text to contain a keyword.
use mini_ss.Common.{
  ◌≡◌, refl, ap, subst, ◌⊎◌, inl, inr, true, List, [], ◌∷◌, ◌++◌, some, arith, Bool-cases,
}
use mini_ss.Common.Bytes.{Bytes}
use mini_ss.Rule.Item.{RuleItem}
use mini_ss.Rule.Matcher.{has_prefix, contains_text, any_keyword, first_keyword}
use mini_ss.Rule.Domains.{Has}

-- The keyword stands somewhere in the text.
abbrev pub Contains : Bytes → Bytes → Type 0
Contains text keyword = (before : Bytes) × (after : Bytes) × (text ≡ before ++ (keyword ++ after))

abbrev pub HasKeyword : Bytes → RuleItem → Type 0
HasKeyword text r = (k : Bytes) × Has k r.value × Contains text k

has_prefix-append : (s p : Bytes) → has_prefix s p ≡ true → (after : Bytes) × (s ≡ p ++ after)
unfolding has_prefix
has_prefix-append s [] h = (s, refl)
has_prefix-append [] (q ∷ p) h = absurd (ground arith)
has_prefix-append (b ∷ s) (q ∷ p) h =
    let (after, e) = has_prefix-append s p (ground arith) in (after, ground (arith, e))

append-has_prefix : (p after : Bytes) → has_prefix (p ++ after) p ≡ true
unfolding has_prefix
append-has_prefix [] after = refl
append-has_prefix (q ∷ p) after = ground (arith, append-has_prefix p after)

contains_text-Contains : (s k : Bytes) → contains_text s k ≡ true → Contains s k
unfolding contains_text
contains_text-Contains [] [] h = ([], [], refl)
contains_text-Contains [] (q ∷ k) h = absurd (ground arith)
contains_text-Contains (b ∷ s) k h = elim (Bool-cases (has_prefix (b ∷ s) k)) [
  | inl here ↦ let (after, e) = has_prefix-append (b ∷ s) k here in ([], after, e)
  | inr later ↦
      let (before, after, e) = contains_text-Contains s k (ground (arith, later)) in
      (b ∷ before, after, ap (λ (t : Bytes). b ∷ t) e)
]

contains_text-append : (before k after : Bytes) → contains_text (before ++ (k ++ after)) k ≡ true
unfolding contains_text has_prefix
contains_text-append [] [] [] = refl
contains_text-append [] [] (b ∷ after) = refl
contains_text-append [] (q ∷ k) after = ground (arith, append-has_prefix (q ∷ k) after)
contains_text-append (b ∷ before) k after = ground (arith, contains_text-append before k after)

any_keyword-Has :
    (text : Bytes) (ks : List Bytes)
    → any_keyword text ks ≡ true
    → (k : Bytes) × Has k ks × Contains text k
any_keyword-Has text [] h = absurd (ground arith)
any_keyword-Has text (k ∷ ks) h = elim (Bool-cases (contains_text text k)) [
  | inl here ↦ (k, inl refl, contains_text-Contains text k here)
  | inr later ↦ let (x, has, c) = any_keyword-Has text ks (ground (arith, later)) in (x, inr has, c)
]

Has-any_keyword :
    (text : Bytes) (ks : List Bytes) (k : Bytes)
    → Has k ks
    → Contains text k
    → any_keyword text ks ≡ true
Has-any_keyword text [] k h c = absurd h
Has-any_keyword text (x ∷ ks) k (inl same) (before, after, e) =
    let here : contains_text text k ≡ true = rw e (contains_text-append before k after) in
    ground (arith, here, same)
Has-any_keyword text (x ∷ ks) k (inr has) c = ground (arith, Has-any_keyword text ks k has c)

-- The items before it do not have the text, and it does.
abbrev pub FirstWith : Bytes → List RuleItem → RuleItem → Type 0
FirstWith text [] item = ⊥
FirstWith text (r ∷ rs) item =
    ((item ≡ r) × HasKeyword text r) ⊎ ((HasKeyword text r → ⊥) × FirstWith text rs item)

-- The item that the keyword matcher gives is the first with a keyword that the target contains.
pub first_keyword-FirstWith :
    (target : Bytes) (rs : List RuleItem) (item : RuleItem)
    → first_keyword target rs ≡ some item
    → FirstWith target rs item
unfolding first_keyword
first_keyword-FirstWith target [] item e = absurd (ground arith)
first_keyword-FirstWith target (r ∷ rs) item e = elim (Bool-cases (any_keyword target r.value)) [
  | inl hit ↦ inl (ground (arith, hit), any_keyword-Has target r.value hit)
  | inr miss ↦ inr (
    (λ (k, has, c). absurd (ground (arith, miss, Has-any_keyword target r.value k has c))),
    first_keyword-FirstWith target rs item (ground (arith, miss)),
  )
]

-- Where an item has a keyword that the target contains, the keyword matcher gives an item.
pub HasKeyword-first_keyword :
    (target : Bytes) (rs : List RuleItem) (r : RuleItem)
    → Has r rs
    → HasKeyword target r
    → (item : RuleItem) × (first_keyword target rs ≡ some item)
unfolding first_keyword
HasKeyword-first_keyword target [] r has h = absurd has
HasKeyword-first_keyword target (x ∷ rs) r (inl same) h =
    let (k, has, c) = subst (λ (i : RuleItem). HasKeyword target i) same h in
    (x, ground (arith, Has-any_keyword target x.value k has c))
HasKeyword-first_keyword target (x ∷ rs) r (inr later) h =
    elim (Bool-cases (any_keyword target x.value)) [
      | inl hit ↦ (x, ground (arith, hit))
      | inr miss ↦
          let (item, e) = HasKeyword-first_keyword target rs r later h in
          (item, ground (arith, miss, e))
    ]
