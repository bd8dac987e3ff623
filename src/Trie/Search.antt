-- ===== src/Trie/Search.antt =====
-- `search` against the patterns that a trie stores.
use mini_ss.Common.{
  ◌≡◌, ◌≢◌, refl, sym, ◌∙◌, ◌⊎◌, inl, inr, ap, Bool, true, false, ◌&&◌, ◌||◌, List, [], ◌∷◌, Option,
  none, some, arith, Option-cases,
}
use mini_ss.Common.Bytes.{Bytes, bytes_beq, bytes_beq_iff}
use mini_ss.Trie.Defs.{
  Node, node, data_of, get_child, wildcard, dot_wildcard, with_data, try_child, search_path,
  is_empty,
}
use mini_ss.Trie.Paths.{data_at}

-- A pattern against the labels of a domain, both from the last label: a label matches itself, the
-- wildcard one label, and the dot wildcard at the end of the pattern one label or more.
abbrev pub matches : List Bytes → List Bytes → Bool
matches [] [] = true
matches [] (l ∷ ls) = false
matches (p ∷ ps) [] = false
matches (p ∷ ps) (l ∷ ls) =
    ((bytes_beq p l || bytes_beq p wildcard) && matches ps ls)
    || (bytes_beq p dot_wildcard && is_empty ps)

match_cases :
    (p l : Bytes) (ps ls : List Bytes)
    → matches (p ∷ ps) (l ∷ ls) ≡ true
    → ((p ≡ l) × (matches ps ls ≡ true))
      ⊎ (((p ≡ wildcard) × (matches ps ls ≡ true)) ⊎ ((p ≡ dot_wildcard) × (ps ≡ [])))
match_cases p l [] ls m =
    ground (arith, bytes_beq_iff p l, bytes_beq_iff p wildcard, bytes_beq_iff p dot_wildcard)
match_cases p l (q ∷ ps) ls m =
    ground (arith, bytes_beq_iff p l, bytes_beq_iff p wildcard, bytes_beq_iff p dot_wildcard)

module _ {ℓ} {D : Type ℓ} where
  -- What a search finds: the data of the node, if it has any.
  abbrev pub found : Option (Node D) → Option D
  found none = none
  found (some n) = data_of n

  pub found-with_data : (m : Option (Node D)) → found (with_data m) ≡ found m
  found-with_data none = refl
  found-with_data (some (node none cs)) = refl
  found-with_data (some (node (some d) cs)) = refl

  -- A result of `with_data` has data.
  with_data-some :
      (m : Option (Node D)) (n : Node D) → with_data m ≡ some n → (d : D) × (data_of n ≡ some d)
  with_data-some none n e = absurd (ground arith)
  with_data-some (some (node none cs)) n e = absurd (ground arith)
  with_data-some (some (node (some d) cs)) n e = (d, ground arith)

  -- Where a branch of the search finds something, it is below that child, and it has data.
  try_child-some :
      (o : Option (Node D)) (f : Node D → Option (Node D)) (m : Node D)
      → try_child o f ≡ some m
      → (c : Node D) × (o ≡ some c) × (found (f c) ≡ data_of m)
  try_child-some none f m e = absurd (ground arith)
  try_child-some (some c) f m e =
      (c, refl, sym (found-with_data (f c)) ∙ ap (λ (r : Option (Node D)). found r) e)

  -- A stored pattern that matches, with its data.
  abbrev pub Stored : Node D → List Bytes → D → Type ℓ
  Stored n labels d =
      (pattern : List Bytes) × (data_at n pattern ≡ some d) × (matches pattern labels ≡ true)

  Stored-below :
      (n c : Node D) (p l : Bytes) (ls : List Bytes) (d : D)
      → get_child n p ≡ some c
      → (bytes_beq p l || bytes_beq p wildcard) ≡ true
      → Stored c ls d
      → Stored n (l ∷ ls) d
  unfolding data_at
  Stored-below n c p l ls d below fits (q, at, m) =
      (p ∷ q, ground (arith, below, at), ground (arith, fits, m))

  Stored-dot :
      (n c : Node D) (l : Bytes) (ls : List Bytes) (d : D)
      → get_child n dot_wildcard ≡ some c
      → data_of c ≡ some d
      → Stored n (l ∷ ls) d
  unfolding data_at
  Stored-dot n c l ls d below at = (
    dot_wildcard ∷ [],
    ground (arith, below, at),
    ground (arith, bytes_beq_iff dot_wildcard dot_wildcard),
  )

  -- What a search finds is stored under a pattern that matches.
  pub search_path-Stored :
      (n : Node D) (labels : List Bytes) {d : D}
      → found (search_path n labels) ≡ some d
      → Stored n labels d
  unfolding search_path data_at
  search_path-Stored n [] e = ([], e, refl)
  search_path-Stored n (l ∷ ls) {d} e = elim (Option-cases (try_child (get_child n l) into)) [
    | inr (m, first) ↦
        let (c, below, at) = try_child-some (get_child n l) into m first in
        Stored-below n c l l ls d below (ground (arith, bytes_beq_iff l l))
          (search_path-Stored c ls (at ∙ ground (arith, first)))
    | inl first ↦ elim (Option-cases (try_child (get_child n wildcard) into)) [
      | inr (m, second) ↦
          let (c, below, at) = try_child-some (get_child n wildcard) into m second in
          Stored-below n c wildcard l ls d below (ground (arith, bytes_beq_iff wildcard wildcard))
            (search_path-Stored c ls (at ∙ ground (arith, first, second)))
      | inl second ↦ elim (Option-cases (get_child n dot_wildcard)) [
        | inl third ↦ absurd (ground (arith, first, second, third))
        | inr (c, below) ↦ Stored-dot n c l ls d below (ground (arith, first, second, below))
      ]
    ]
  ]
    where
      into : Node D → Option (Node D)
      into c = search_path c ls

  try_child_data :
      (o : Option (Node D)) (f : Node D → Option (Node D)) (m : Node D)
      → try_child o f ≡ some m
      → (d : D) × (data_of m ≡ some d)
  try_child_data none f m e = absurd (ground arith)
  try_child_data (some c) f m e = with_data-some (f c) m e

  -- Where something is found below a child, its branch succeeds.
  try_child-found :
      (o : Option (Node D)) (f : Node D → Option (Node D)) (c : Node D) (d : D)
      → o ≡ some c
      → found (f c) ≡ some d
      → try_child o f ≢ none
  try_child-found o f c d e q n = found_absurd (f c) (ground arith)
    where
      found_absurd : (m : Option (Node D)) → (found m ≡ some d) × (with_data m ≡ none) → ⊥
      found_absurd none (a, b) = ground arith
      found_absurd (some (node none cs)) (a, b) = ground arith
      found_absurd (some (node (some x) cs)) (a, b) = ground arith

  -- The child at the first part of a stored pattern.
  child_of_pattern :
      (n : Node D) (p : Bytes) (ps : List Bytes) (d : D)
      → data_at n (p ∷ ps) ≡ some d
      → (c : Node D) × (get_child n p ≡ some c) × (data_at c ps ≡ some d)
  unfolding data_at
  child_of_pattern n p ps d e = elim (Option-cases (get_child n p)) [
    | inl missing ↦ absurd (ground (arith, missing))
    | inr (c, below) ↦ (c, below, ground (arith, below))
  ]

  -- A search finds something where a stored pattern matches.
  pub search_path_finds :
      (n : Node D) (labels pattern : List Bytes) (d : D)
      → data_at n pattern ≡ some d
      → matches pattern labels ≡ true
      → (d' : D) × (found (search_path n labels) ≡ some d')
  unfolding search_path data_at
  search_path_finds n [] [] d e m = (d, e)
  search_path_finds n [] (p ∷ ps) d e m = absurd (ground arith)
  search_path_finds n (l ∷ ls) [] d e m = absurd (ground arith)
  search_path_finds n (l ∷ ls) (p ∷ ps) d e m =
      elim (Option-cases (try_child (get_child n l) into)) [
        | inr (x, first) ↦
            let (d', has) = try_child_data (get_child n l) into x first in
            (d', ground (arith, first, has))
        | inl first ↦ elim (Option-cases (try_child (get_child n wildcard) into)) [
          | inr (x, second) ↦
              let (d', has) = try_child_data (get_child n wildcard) into x second in
              (d', ground (arith, first, second, has))
          | inl second ↦
              let (c, below, rest) = child_of_pattern n p ps d e in
              elim (match_cases p l ps ls m) [
                | inl (same, deeper) ↦
                    let (d', at) = search_path_finds c ls ps d rest deeper in
                    absurd (try_child-found (get_child n l) into c d' (rw (← same) below) at first)
                | inr (inl (same, deeper)) ↦
                    let (d', at) = search_path_finds c ls ps d rest deeper in
                    absurd (
                      try_child-found (get_child n wildcard) into c d' (rw (← same) below) at
                        second)
                | inr (inr (same, over)) ↦
                    let here : get_child n dot_wildcard ≡ some c = rw (← same) below in
                    (d, ground (arith, first, second, here, rest, over))
              ]
        ]
      ]
    where
      into : Node D → Option (Node D)
      into c = search_path c ls

  -- The data of the domain itself come before those of any wildcard.
  pub search_path_exact :
      (n : Node D) (labels : List Bytes) (d : D)
      → data_at n labels ≡ some d
      → found (search_path n labels) ≡ some d
  unfolding search_path data_at
  search_path_exact n [] d e = e
  search_path_exact n (l ∷ ls) d e =
      let (c, below, rest) = child_of_pattern n l ls d e in
      let ih = search_path_exact c ls d rest in
      elim (Option-cases (try_child (get_child n l) into)) [
        | inl first ↦ absurd (try_child-found (get_child n l) into c d below ih first)
        | inr (m, first) ↦
            let (c', below', at) = try_child-some (get_child n l) into m first in
            ground (arith, first, at, below, below', ih)
      ]
    where
      into : Node D → Option (Node D)
      into c = search_path c ls
