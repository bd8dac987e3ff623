-- ===== src/Trie/Defs.antt =====
-- util/trie/node.go and util/trie/domain.go. No two nodes share a child, so a trie is a tree, and
-- what Go writes through a pointer returns the new tree. `Data` is nil at a node that no path ends
-- at; the callers insert data that is not nil.
use mini_ss.Common.{
  ◌-◌, Bool, true, false, not, ◌&&◌, List, [], ◌∷◌, ◌++◌, Option, none, some, ◌==◌, length, get_or,
  if◌then◌else◌,
}
use mathlib.Core.List.{reverse}
use mini_ss.Common.Bytes.{Bytes, codes, bytes_beq}

mutual
  pub data Node {ℓ} (D : Type ℓ) : Type ℓ where
    node : Option D → Children D → Node D

  pub data Children {ℓ} (D : Type ℓ) : Type ℓ where
    no_child : Children D
    child : Bytes → Node D → Children D → Children D

abbrev pub wildcard : Bytes
wildcard = codes "*"

abbrev pub dot_wildcard : Bytes
dot_wildcard = []

abbrev pub complex_wildcard : Bytes
complex_wildcard = codes "+"

module _ {ℓ} {D : Type ℓ} where
  abbrev pub data_of : Node D → Option D
  data_of (node d cs) = d

  abbrev pub children_of : Node D → Children D
  children_of (node d cs) = cs

  unfoldable pub child_in : Children D → Bytes → Option (Node D)
  child_in no_child s = none
  child_in (child k n cs) s = if bytes_beq k s then some n else child_in cs s

  unfoldable pub get_child : Node D → Bytes → Option (Node D)
  unfolding child_in
  get_child n s = child_in (children_of n) s

  unfoldable pub put_child_in : Children D → Bytes → Node D → Children D
  put_child_in no_child s c = child s c no_child
  put_child_in (child k n cs) s c =
      if bytes_beq k s then child k c cs else child k n (put_child_in cs s c)

  -- `n.children[s] = child`
  unfoldable pub add_child : Node D → Bytes → Node D → Node D
  unfolding put_child_in
  add_child n s c = node (data_of n) (put_child_in (children_of n) s c)

  abbrev pub new_node : Node D
  new_node = node none no_child

  -- The child of a part, made if it is missing.
  abbrev pub child_or_new : Node D → Bytes → Node D
  child_or_new n s = elim (get_child n s) [ some c ↦ c | none ↦ new_node ]

  -- The loop of `insert`: the parts from the last to the first.
  unfoldable pub insert_path : Node D → List Bytes → D → Node D
  insert_path n [] d = node (some d) (children_of n)
  insert_path n (part ∷ path) d = add_child n part (insert_path (child_or_new n part) path d)

  -- `n != nil && n.Data != nil`
  abbrev pub with_data : Option (Node D) → Option (Node D)
  with_data none = none
  with_data (some (node none cs)) = none
  with_data (some (node (some d) cs)) = some (node (some d) cs)

  abbrev pub or_else : Option (Node D) → Option (Node D) → Option (Node D)
  or_else none m = m
  or_else (some n) m = some n

  abbrev pub try_child : Option (Node D) → (Node D → Option (Node D)) → Option (Node D)
  try_child none f = none
  try_child (some c) f = with_data (f c)

  -- `search`: the static part, then the wildcard, then what the dot wildcard has.
  unfoldable pub search_path : Node D → List Bytes → Option (Node D)
  search_path n [] = some n
  search_path n (part ∷ path) = or_else (try_child (get_child n part) (λ c. search_path c path)) (
      or_else (try_child (get_child n wildcard) (λ c. search_path c path))
        (get_child n dot_wildcard))

-- strings.Split(domain, "."): never empty.
unfoldable pub split_onto : Bytes → Bytes → List Bytes
split_onto part [] = part ∷ []
split_onto part (b ∷ bs) =
    let next = split_onto (part ++ b ∷ []) bs in
    let rest = split_onto [] bs in if b == b'.' then part ∷ rest else next

abbrev pub split_domain : Bytes → List Bytes
split_domain domain = split_onto [] domain

abbrev pub is_empty {ℓ} : {A : Type ℓ} → List A → Bool
is_empty [] = true
is_empty (x ∷ xs) = false

abbrev pub none_empty : List Bytes → Bool
none_empty [] = true
none_empty (p ∷ ps) = not (is_empty p) && none_empty ps

-- The checks behind the split.
abbrev pub valid_parts : List Bytes → Option (List Bytes)
valid_parts [] = none
valid_parts (p ∷ []) = if is_empty p then none else some (p ∷ [])
valid_parts (p ∷ q ∷ ps) = if none_empty (q ∷ ps) then some (p ∷ q ∷ ps) else none

unfoldable pub valid_and_split_domain : Bytes → Option (List Bytes)
unfolding split_onto
valid_and_split_domain domain =
    if not (is_empty domain) && get_or domain (length domain - 1) 0 == b'.'
    then none
    else valid_parts (split_domain domain)

module _ {ℓ} {D : Type ℓ} where
  -- What `Insert` does with the parts of a valid domain.
  abbrev pub insert_parts : Node D → List Bytes → D → Node D
  insert_parts root [] d = root
  insert_parts root (first ∷ rest) d =
      if bytes_beq first complex_wildcard
      then insert_path (insert_path root (reverse rest) d) (reverse (dot_wildcard ∷ rest)) d
      else insert_path root (reverse (first ∷ rest)) d

  -- The trie after it; `none` is ErrInvalidDomain.
  unfoldable pub insert : Node D → Bytes → D → Option (Node D)
  unfolding valid_and_split_domain
  insert root domain d = elim (valid_and_split_domain domain) [
    | some parts ↦ some (insert_parts root parts d)
    | none ↦ none
  ]

  abbrev pub search_parts : Node D → List Bytes → Option (Node D)
  search_parts root [] = none
  search_parts root (first ∷ rest) =
      if is_empty first then none else with_data (search_path root (reverse (first ∷ rest)))

  unfoldable pub search : Node D → Bytes → Option (Node D)
  unfolding valid_and_split_domain search_path
  search root domain = elim (valid_and_split_domain domain) [
    | some parts ↦ search_parts root parts
    | none ↦ none
  ]
