-- ===== src/Trie/Paths.antt =====
-- What a trie stores: the data at each path. An insertion sets one path and no other.
use mini_ss.Common.{
  ◌≡◌, refl, inl, inr, Bool, true, false, ◌&&◌, List, [], ◌∷◌, Option, none, some, if◌then◌else◌,
  arith, Option-cases,
}
use mini_ss.Common.Bytes.{Bytes, bytes_beq, bytes_beq_iff}
use mini_ss.Trie.Defs.{
  Node, Children, node, no_child, child, data_of, children_of, child_in, get_child, put_child_in,
  add_child, new_node, child_or_new, insert_path,
}

abbrev pub path_beq : List Bytes → List Bytes → Bool
path_beq [] [] = true
path_beq [] (q ∷ qs) = false
path_beq (p ∷ ps) [] = false
path_beq (p ∷ ps) (q ∷ qs) = bytes_beq p q && path_beq ps qs

module _ {ℓ} {D : Type ℓ} where
  -- The data at the end of a path.
  unfoldable pub data_at : Node D → List Bytes → Option D
  data_at n [] = data_of n
  data_at n (p ∷ ps) = elim (get_child n p) [ some c ↦ data_at c ps | none ↦ none ]

  child_in-put_child_in :
      (cs : Children D) (s : Bytes) (c : Node D) (q : Bytes)
      → child_in (put_child_in cs s c) q ≡ (if bytes_beq s q then some c else child_in cs q)
  unfolding child_in put_child_in
  child_in-put_child_in no_child s c q = refl
  child_in-put_child_in (child k n cs) s c q = ground (
    arith,
    bytes_beq_iff k s,
    bytes_beq_iff k q,
    bytes_beq_iff s q,
    child_in-put_child_in cs s c q,
  )

  get_child-add_child :
      (n : Node D) (s : Bytes) (c : Node D) (q : Bytes)
      → get_child (add_child n s c) q ≡ (if bytes_beq s q then some c else get_child n q)
  unfolding get_child add_child
  get_child-add_child n s c q = child_in-put_child_in (children_of n) s c q

  data_of-add_child : (n : Node D) (s : Bytes) (c : Node D) → data_of (add_child n s c) ≡ data_of n
  unfolding add_child
  data_of-add_child n s c = refl

  pub data_at-new_node : (q : List Bytes) → data_at (new_node {D = D}) q ≡ none
  unfolding data_at get_child child_in
  data_at-new_node [] = refl
  data_at-new_node (p ∷ ps) = refl

  get_child_node :
      (n : Node D) (d : Option D) (q : Bytes) → get_child (node d (children_of n)) q ≡ get_child n q
  unfolding get_child
  get_child_node n d q = refl

  -- After an insertion the path has the data, and every other path what it had.
  pub data_at-insert_path :
      (n : Node D) (p : List Bytes) (d : D) (q : List Bytes)
      → data_at (insert_path n p d) q ≡ (if path_beq p q then some d else data_at n q)
  unfolding data_at insert_path
  data_at-insert_path n [] d [] = refl
  data_at-insert_path n [] d (b ∷ qs) = ground (arith, get_child_node n (some d) b)
  data_at-insert_path n (a ∷ ps) d [] = data_of-add_child n a _
  data_at-insert_path n (a ∷ ps) d (b ∷ qs) =
      let step = get_child-add_child n a (insert_path (child_or_new n a) ps d) b in
      let ih = data_at-insert_path (child_or_new n a) ps d qs in
      elim (Option-cases (get_child n a)) [
        | inl missing ↦ ground (arith, step, missing, ih, data_at-new_node qs, bytes_beq_iff a b)
        | inr (c, there) ↦ ground (arith, step, there, ih, bytes_beq_iff a b)
      ]
