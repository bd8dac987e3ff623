-- ===== src/Rule/Domains.antt =====
-- The domain and domain suffix matchers: the tries that newDomainRule and newDomainSuffixRule
-- build, and the item that a search of one gives.
use mathlib.Core.List.{reverse}
use mini_ss.Common.{
  ◌≡◌, refl, sym, ◌∙◌, ◌⊎◌, inl, inr, Bool, true, false, ◌||◌, List, [], ◌∷◌, ◌++◌, Option, none,
  some, if◌then◌else◌, arith, Option-cases, Bool-cases,
}
use mini_ss.Common.Bytes.{Bytes, bytes_beq, bytes_beq_iff}
use mini_ss.Trie.Defs.{
  Node, data_of, new_node, insert, insert_parts, insert_path, search, search_parts,
  valid_and_split_domain, search_path, is_empty, dot_wildcard, complex_wildcard,
}
use mini_ss.Trie.Paths.{path_beq, data_at, data_at-insert_path, data_at-new_node}
use mini_ss.Trie.Search.{matches, found, found-with_data, search_path-Stored, search_path_finds}
use mini_ss.Rule.Item.{RuleItem}
use mini_ss.Rule.Matcher.{insert_or_skip, insert_values, insert_rules, domain_item}

abbrev pub Has : {A : Type 0} → A → List A → Type 0
Has x [] = ⊥
Has x (y ∷ ys) = (x ≡ y) ⊎ Has x ys

-- The paths that a rule's value stands for: itself, and for `+.` also its subdomains.
abbrev pub paths_of_parts : List Bytes → List (List Bytes)
paths_of_parts [] = []
paths_of_parts (first ∷ rest) =
    if bytes_beq first complex_wildcard
    then reverse (dot_wildcard ∷ rest) ∷ reverse rest ∷ []
    else reverse (first ∷ rest) ∷ []

unfoldable pub paths_of : Bytes → List (List Bytes)
paths_of domain = elim (valid_and_split_domain domain) [
  | some parts ↦ paths_of_parts parts
  | none ↦ []
]

abbrev pub any_path : List (List Bytes) → List Bytes → Bool
any_path [] q = false
any_path (p ∷ ps) q = path_beq p q || any_path ps q

path_beq-eq : (p q : List Bytes) → path_beq p q ≡ true → p ≡ q
path_beq-eq [] [] h = refl
path_beq-eq [] (y ∷ q) h = absurd (ground arith)
path_beq-eq (x ∷ p) [] h = absurd (ground arith)
path_beq-eq (x ∷ p) (y ∷ q) h = ground (arith, bytes_beq_iff x y, path_beq-eq p q)

path_beq_refl : (p : List Bytes) → path_beq p p ≡ true
path_beq_refl [] = refl
path_beq_refl (x ∷ p) = ground (arith, bytes_beq_iff x x, path_beq_refl p)

any_path-Has : (ps : List (List Bytes)) (q : List Bytes) → any_path ps q ≡ true → Has q ps
any_path-Has [] q h = absurd (ground arith)
any_path-Has (p ∷ ps) q h = elim (Bool-cases (path_beq p q)) [
  | inl here ↦ inl (sym (path_beq-eq p q here))
  | inr there ↦ inr (any_path-Has ps q (ground (arith, there)))
]

Has-any_path : (ps : List (List Bytes)) (q : List Bytes) → Has q ps → any_path ps q ≡ true
Has-any_path [] q h = absurd h
Has-any_path (p ∷ ps) q (inl e) = rw e (ground (arith, path_beq_refl p))
Has-any_path (p ∷ ps) q (inr h) = ground (arith, Has-any_path ps q h)

-- One value sets its paths to the item and no other.
data_at-insert_parts :
    (t : Node RuleItem) (parts : List Bytes) (item : RuleItem) (q : List Bytes)
    → data_at (insert_parts t parts item) q
      ≡ (if any_path (paths_of_parts parts) q then some item else data_at t q)
data_at-insert_parts t [] item q = refl
data_at-insert_parts t (first ∷ rest) item q =
    elim (Bool-cases (bytes_beq first complex_wildcard)) [
      | inl plus ↦ rw plus (
          data_at-insert_path (insert_path t (reverse rest) item) (reverse (dot_wildcard ∷ rest))
            item q
          ∙ ground (arith, data_at-insert_path t (reverse rest) item q))
      | inr plain ↦ rw plain (data_at-insert_path t (reverse (first ∷ rest)) item q ∙ ground arith)
    ]

data_at-insert_or_skip :
    (t : Node RuleItem) (domain : Bytes) (item : RuleItem) (q : List Bytes)
    → data_at (insert_or_skip t domain item) q
      ≡ (if any_path (paths_of domain) q then some item else data_at t q)
unfolding insert paths_of
data_at-insert_or_skip t domain item q = elim (Option-cases (valid_and_split_domain domain)) [
  | inl invalid ↦ ground (arith, invalid)
  | inr (parts, valid) ↦ ground (arith, valid, data_at-insert_parts t parts item q)
]

-- An item that was inserted for a path: one of its values stands for the path.
abbrev pub Inserted : Bytes → List RuleItem → RuleItem → List Bytes → Type 0
Inserted front rules item q =
    Has item rules × (v : Bytes) × Has v item.value × Has q (paths_of (front ++ v))

data_at-insert_values :
    (front : Bytes) (t : Node RuleItem) (vs : List Bytes) (item : RuleItem) (q : List Bytes)
    (d : RuleItem)
    → data_at (insert_values front t vs item) q ≡ some d
    → ((d ≡ item) × (v : Bytes) × Has v vs × Has q (paths_of (front ++ v))) ⊎ (data_at t q ≡ some d)
unfolding insert_values
data_at-insert_values front t [] item q d e = inr e
data_at-insert_values front t (v ∷ vs) item q d e =
    let one = data_at-insert_or_skip t (front ++ v) item q in
    elim (data_at-insert_values front (insert_or_skip t (front ++ v) item) vs item q d e) [
      | inl (same, w, has, path) ↦ inl (same, w, inr has, path)
      | inr before ↦ elim (Bool-cases (any_path (paths_of (front ++ v)) q)) [
        | inl hit ↦ inl (ground (arith, one, hit, before), v, inl refl, any_path-Has _ q hit)
        | inr miss ↦ inr (ground (arith, one, miss, before))
      ]
    ]

data_at-insert_rules :
    (front : Bytes) (t : Node RuleItem) (rules : List RuleItem) (q : List Bytes) (d : RuleItem)
    → data_at (insert_rules front t rules) q ≡ some d
    → Inserted front rules d q ⊎ (data_at t q ≡ some d)
unfolding insert_rules
data_at-insert_rules front t [] q d e = inr e
data_at-insert_rules front t (r ∷ rs) q d e =
    elim (data_at-insert_rules front (insert_values front t r.value r) rs q d e) [
      | inl (has, v, has_v, path) ↦ inl (inr has, v, has_v, path)
      | inr before ↦ elim (data_at-insert_values front t r.value r q d before) [
        | inl (same, v, has_v, path) ↦ rw same (inl (inl refl, v, has_v, path))
        | inr older ↦ inr older
      ]
    ]

-- A path that has data keeps some.
abbrev pub HasData : Node RuleItem → List Bytes → Type 0
HasData t q = (d : RuleItem) × (data_at t q ≡ some d)

insert_or_skip-HasData :
    (t : Node RuleItem) (domain : Bytes) (item : RuleItem) (q : List Bytes)
    → (any_path (paths_of domain) q ≡ true) ⊎ HasData t q
    → HasData (insert_or_skip t domain item) q
insert_or_skip-HasData t domain item q (inl hit) =
    (item, ground (arith, data_at-insert_or_skip t domain item q, hit))
insert_or_skip-HasData t domain item q (inr (d, at)) =
    elim (Bool-cases (any_path (paths_of domain) q)) [
      | inl hit ↦ (item, ground (arith, data_at-insert_or_skip t domain item q, hit))
      | inr miss ↦ (d, ground (arith, data_at-insert_or_skip t domain item q, miss, at))
    ]

insert_values-HasData :
    (front : Bytes) (t : Node RuleItem) (vs : List Bytes) (item : RuleItem) (q : List Bytes)
    → ((v : Bytes) × Has v vs × Has q (paths_of (front ++ v))) ⊎ HasData t q
    → HasData (insert_values front t vs item) q
unfolding insert_values
insert_values-HasData front t [] item q (inl (v, has, path)) = absurd has
insert_values-HasData front t [] item q (inr at) = at
insert_values-HasData front t (w ∷ vs) item q (inl (v, inl same, path)) =
    insert_values-HasData front (insert_or_skip t (front ++ w) item) vs item q (
      inr
        (insert_or_skip-HasData t (front ++ w) item q (inl (Has-any_path _ q (rw (← same) path)))))
insert_values-HasData front t (w ∷ vs) item q (inl (v, inr has, path)) =
    insert_values-HasData front (insert_or_skip t (front ++ w) item) vs item q (inl (v, has, path))
insert_values-HasData front t (w ∷ vs) item q (inr at) =
    insert_values-HasData front (insert_or_skip t (front ++ w) item) vs item q
      (inr (insert_or_skip-HasData t (front ++ w) item q (inr at)))

insert_rules-HasData :
    (front : Bytes) (t : Node RuleItem) (rules : List RuleItem) (q : List Bytes)
    → ((r : RuleItem) × Inserted front rules r q) ⊎ HasData t q
    → HasData (insert_rules front t rules) q
unfolding insert_rules
insert_rules-HasData front t [] q (inl (r, (has, v, has_v, path))) = absurd has
insert_rules-HasData front t [] q (inr at) = at
insert_rules-HasData front t (s ∷ rs) q (inl (r, (inl same, v, has, path))) =
    insert_rules-HasData front (insert_values front t s.value s) rs q
      (inr (insert_values-HasData front t s.value s q (inl (v, rw (← same) has, path))))
insert_rules-HasData front t (s ∷ rs) q (inl (r, (inr later, v, has, path))) =
    insert_rules-HasData front (insert_values front t s.value s) rs q
      (inl (r, (later, v, has, path)))
insert_rules-HasData front t (s ∷ rs) q (inr at) =
    insert_rules-HasData front (insert_values front t s.value s) rs q
      (inr (insert_values-HasData front t s.value s q (inr at)))

-- The labels of a target that a search can find, the last first.
abbrev pub labels_of_parts : List Bytes → Option (List Bytes)
labels_of_parts [] = none
labels_of_parts (first ∷ rest) = if is_empty first then none else some (reverse (first ∷ rest))

unfoldable pub target_labels : Bytes → Option (List Bytes)
unfolding valid_and_split_domain
target_labels target =
    if is_empty target
    then none
    else elim (valid_and_split_domain target) [ some parts ↦ labels_of_parts parts | none ↦ none ]

data_of_search_parts :
    (t : Node RuleItem) (parts : List Bytes)
    → found (search_parts t parts)
      ≡ elim (labels_of_parts parts) [ some labels ↦ found (search_path t labels) | none ↦ none ]
data_of_search_parts t [] = refl
data_of_search_parts t ([] ∷ rest) = refl
data_of_search_parts t ((b ∷ bs) ∷ rest) =
    found-with_data (search_path t (reverse ((b ∷ bs) ∷ rest)))

domain_item-labels :
    (t : Node RuleItem) (target : Bytes)
    → domain_item t target
      ≡ elim (target_labels target) [ some labels ↦ found (search_path t labels) | none ↦ none ]
unfolding domain_item target_labels search
domain_item-labels t [] = refl
domain_item-labels t (b ∷ bs) = elim (Option-cases (valid_and_split_domain (b ∷ bs))) [
  | inl invalid ↦ ground (arith, invalid)
  | inr (parts, valid) ↦
      ground (arith, valid, found-data (search_parts t parts), data_of_search_parts t parts)
]
  where
    found-data :
        (m : Option (Node RuleItem)) → elim m [ some n ↦ data_of n | none ↦ none ] ≡ found m
    found-data none = refl
    found-data (some n) = refl

-- A value of a rule matches the labels of a target.
abbrev pub ValueMatches : Bytes → List RuleItem → RuleItem → List Bytes → Type 0
ValueMatches front rules item labels =
    (q : List Bytes) × Inserted front rules item q × (matches q labels ≡ true)

-- The item that the matcher finds for a domain is one of its rules, and has a value that matches
-- the domain.
pub domain_item-ValueMatches :
    (front : Bytes) (rules : List RuleItem) (target : Bytes) (item : RuleItem)
    → domain_item (insert_rules front new_node rules) target ≡ some item
    → (labels : List Bytes) × (target_labels target ≡ some labels)
      × ValueMatches front rules item labels
domain_item-ValueMatches front rules target item e = elim (Option-cases (target_labels target)) [
  | inl bad ↦ absurd (ground (arith, bad, domain_item-labels trie target))
  | inr (labels, good) ↦
      let at : found (search_path trie labels) ≡ some item =
        ground (arith, good, domain_item-labels trie target) in
      let (q, stored, fits) = search_path-Stored trie labels at in
      elim (data_at-insert_rules front new_node rules q item stored) [
        | inl inserted ↦ (labels, good, (q, inserted, fits))
        | inr nothing ↦ absurd (ground (arith, nothing, data_at-new_node {D = RuleItem} q))
      ]
]
  where
    trie : Node RuleItem
    trie = insert_rules front new_node rules

-- Where a value of a rule matches the domain, the matcher finds an item.
pub ValueMatches-domain_item :
    (front : Bytes) (rules : List RuleItem) (target : Bytes) (labels : List Bytes) (item : RuleItem)
    → target_labels target ≡ some labels
    → ValueMatches front rules item labels
    → (r : RuleItem) × (domain_item (insert_rules front new_node rules) target ≡ some r)
ValueMatches-domain_item front rules target labels item good (q, inserted, fits) =
    let (d, at) = insert_rules-HasData front new_node rules q (inl (item, inserted)) in
    let (r, has) = search_path_finds trie labels q d at fits in
    (r, ground (arith, domain_item-labels trie target, good, has))
  where
    trie : Node RuleItem
    trie = insert_rules front new_node rules
