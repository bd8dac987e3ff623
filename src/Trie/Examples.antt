-- ===== src/Trie/Examples.antt =====
-- Tests and witnesses of the trie: one that has `+.a.com` and `b.com`.
use mini_ss.Common.{◌≡◌, refl, List, [], ◌∷◌, Option, none, some, ℕ}
use mini_ss.Common.Bytes.{Bytes, codes, bytes_beq}
use mini_ss.Trie.Defs.{
  Node, new_node, get_child, add_child, insert_parts, insert_path, search, search_path, data_of,
  complex_wildcard, valid_and_split_domain,
}
use mini_ss.Trie.Paths.{data_at}
use mini_ss.Trie.Search.{found, search_path_exact}
use mini_ss.Trie.Complete.{Answer, search_path_lem}

abbrev last_label : Bytes
last_label = codes "com"

abbrev b_com : List Bytes
b_com = last_label ∷ codes "b" ∷ []

abbrev x_a_com : List Bytes
x_a_com = last_label ∷ codes "a" ∷ codes "x" ∷ []

abbrev sample : Node ℕ
sample =
    insert_path (insert_parts new_node (complex_wildcard ∷ codes "a" ∷ last_label ∷ []) 1) b_com 2

data_of_search : Option (Node ℕ) → Option ℕ
data_of_search none = none
data_of_search (some n) = data_of n

subdomain : data_of_search (search sample (codes "x.a.com")) ≡ some 1
unfolding search insert_path data_of_search get_child add_child bytes_beq
subdomain = refl

plain : data_of_search (search sample (codes "a.com")) ≡ some 1
unfolding search insert_path data_of_search get_child add_child bytes_beq
plain = refl

unknown : data_of_search (search sample (codes "c.com")) ≡ none
unfolding search insert_path data_of_search get_child add_child bytes_beq
unknown = refl

trailing_dot : valid_and_split_domain (codes "a.com.") ≡ none
unfolding valid_and_split_domain
trailing_dot = refl

finds_sub : found (search_path sample x_a_com) ≡ some 1
unfolding search_path insert_path get_child add_child bytes_beq
finds_sub = refl

stores_b : data_at sample b_com ≡ some 2
unfolding data_at insert_path get_child add_child bytes_beq
stores_b = refl

stores_sub : data_at sample (last_label ∷ codes "a" ∷ [] ∷ []) ≡ some 1
unfolding data_at insert_path get_child add_child bytes_beq
stores_sub = refl

search_path_example : Answer sample x_a_com (found (search_path sample x_a_com))
search_path_example = search_path_lem sample x_a_com

search_path_exact_example : found (search_path sample b_com) ≡ some 2
search_path_exact_example = search_path_exact sample b_com 2 stores_b
