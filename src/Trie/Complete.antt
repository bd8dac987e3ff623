-- ===== src/Trie/Complete.antt =====
-- What a search of a trie finds, and what is stored where it finds nothing.
use mini_ss.Common.{◌≡◌, refl, true, List, Option, none, some, arith}
use mini_ss.Common.Bytes.{Bytes}
use mini_ss.Trie.Defs.{Node, search_path}
use mini_ss.Trie.Paths.{data_at}
use mini_ss.Trie.Search.{matches, found, Stored, search_path-Stored, search_path_finds}

module _ {ℓ} {D : Type ℓ} where
  -- Some pattern that is stored matches the labels.
  abbrev pub SomeMatch : Node D → List Bytes → Type ℓ
  SomeMatch n labels =
      (pattern : List Bytes) × (d : D) × (data_at n pattern ≡ some d)
      × (matches pattern labels ≡ true)

  -- What the search of the labels is right to give.
  abbrev pub Answer : Node D → List Bytes → Option D → Type ℓ
  Answer n labels (some d) = Stored n labels d
  Answer n labels none = SomeMatch n labels → ⊥

  -- A search of a trie for the labels of a domain gives data that are stored under a pattern that
  -- matches them, label by label, by `*` for one label, or by the dot wildcard for one label or more;
  -- it gives none only where no stored pattern matches.
  pub search_path_lem :
      (n : Node D) (labels : List Bytes) → Answer n labels (found (search_path n labels))
  search_path_lem n labels = go (found (search_path n labels)) refl
    where
      go : (o : Option D) → found (search_path n labels) ≡ o → Answer n labels o
      go (some d) e = search_path-Stored n labels e
      go none e = λ (pattern, d, at, fits).
          let (other, finds) = search_path_finds n labels pattern d at fits in
          absurd (ground (arith, e, finds))
