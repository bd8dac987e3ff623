-- ===== src/Ordmap/Examples.antt =====
-- Tests and witnesses of the ordered map.
use mini_ss.Common.{ℕ, suc, ◌≡◌, refl, arith, true, [], ◌∷◌, none, some, if◌then◌else◌, ◌==◌}
use mini_ss.Common.Dict.{find, store, delete, ℕ_comparable}
use mini_ss.Cache.LinkedList.{value_at, drop_handle}
use mini_ss.Ordmap.Defs.{OrderedMap, empty_map, size, store_entry, load, delete_entry, first, range}
use mini_ss.Ordmap.Laws.{
  IsOrdered, Listed, Unlisted, load-operations, store_entry-IsOrdered, operations-IsOrdered,
}

empty-IsOrdered : IsOrdered (empty_map {K = ℕ} {V = ℕ})
unfolding find value_at
empty-IsOrdered = record {
  has_key = λ k h e at. absurd (ground (arith, at));
  later = λ h e at. absurd (ground (arith, at));
}

abbrev two : OrderedMap ℕ ℕ
two = store_entry (store_entry empty_map 1 10) 2 20

two-IsOrdered : IsOrdered two
two-IsOrdered =
    store_entry-IsOrdered (store_entry empty_map 1 10) 2 20
      (store_entry-IsOrdered empty_map 1 10 empty-IsOrdered)

grows : size (store_entry two 1 11) ≡ suc (size two)
unfolding size store_entry
grows = refl

-- The element of a value that was stored again is still the first, also after its key was deleted.
stale : first (delete_entry (store_entry two 1 11) 1) ≡ some 10
unfolding first store_entry delete_entry store delete find drop_handle
stale = refl

visited : range two (λ k v. true) ≡ (1, 10) ∷ (2, 20) ∷ []
unfolding range store_entry
visited = refl

load-operations_example :
    (load (store_entry two 1 11) 2 ≡ (if 1 == 2 then some 11 else load two 2))
    × (load (delete_entry two 1) 2 ≡ (if 1 == 2 then none else load two 2))
    × Unlisted two (delete_entry two 1) (find two.dict 1)
    × Listed (store_entry two 1 11) 2 (load (store_entry two 1 11) 2)
    × Listed (delete_entry two 1) 2 (load (delete_entry two 1) 2)
load-operations_example = load-operations two 1 11 2 two-IsOrdered

operations-IsOrdered_example : IsOrdered (store_entry two 1 11) × IsOrdered (delete_entry two 1)
operations-IsOrdered_example = operations-IsOrdered two 1 11 two-IsOrdered
