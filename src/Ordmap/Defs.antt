-- ===== src/Ordmap/Defs.antt =====
-- The operations of util/ordmap/map.go. Before the first `Store` the list is nil, and the map, which
-- is nil too, answers as an empty one. A *list.Element of the map is its handle and its Value, which
-- the element still has after it was removed from the list. `Range` and `UnorderedRange` are given as what they visit.
use mini_ss.Common.{ℕ, Bool, List, [], ◌∷◌, Option, none, some, if◌then◌else◌}
use mini_ss.Common.Dict.{Comparable, find, store, delete}
use mini_ss.Cache.LinkedList.{LinkedList, new, list_len, front, push_back, remove}

pub record OrderedMap {ℓ} (K V : Type ℓ) : Type ℓ where
  pub dict : List (K × (ℕ × (K × V)))
  pub ll : Option (LinkedList (K × V))

module _ {ℓ} {K V : Type ℓ} ⦃c : Comparable K⦄ where
  abbrev pub empty_map : OrderedMap K V
  empty_map = record { dict = []; ll = none }

  -- The list behind a nil pointer has no elements.
  abbrev pub list_of : OrderedMap K V → LinkedList (K × V)
  list_of m = elim (m.ll) [ some l ↦ l | none ↦ new ]

  unfoldable pub size : OrderedMap K V → ℕ
  size m = elim (m.ll) [ some l ↦ list_len l | none ↦ 0 ]

  unfoldable pub store_entry : OrderedMap K V → K → V → OrderedMap K V
  store_entry m key value =
      let (h, l) = push_back (list_of m) (key, value) in
      record { dict = store m.dict key (h, (key, value)); ll = some l }

  unfoldable pub load : OrderedMap K V → K → Option V
  load m key = elim (find m.dict key) [ some (h, e) ↦ some e.1 | none ↦ none ]

  unfoldable pub delete_entry : OrderedMap K V → K → OrderedMap K V
  delete_entry m key = elim (find m.dict key) [
    | some (h, e) ↦ record { dict = delete m.dict key; ll = some (remove (list_of m) h) }
    | none ↦ m
  ]

  unfoldable pub first : OrderedMap K V → Option V
  first m = elim (m.ll) [
    | some l ↦ elim (front l) [ some (h, e) ↦ some e.1 | none ↦ none ]
    | none ↦ none
  ]

  -- The entries that `Range` hands to `f`, which stops where `f` answers false.
  abbrev pub visits : (K → V → Bool) → List (ℕ × (K × V)) → List (K × V)
  visits f [] = []
  visits f ((h, (k, v)) ∷ xs) = let rest = visits f xs in (k, v) ∷ (if f k v then rest else [])

  unfoldable pub range : OrderedMap K V → (K → V → Bool) → List (K × V)
  range m f = elim (m.ll) [ some l ↦ visits f l.elems | none ↦ [] ]
