-- ===== src/Cache/Examples.antt =====
-- A cache of two entries in use, and the theorems about it there.
use mini_ss.Common.{ℕ, ◌≡◌, refl, true, false, [], ◌∷◌, arith}
use mini_ss.Common.Dict.{ℕ_comparable, find, store, delete}
use mini_ss.Stream.{ok}
use mini_ss.Cache.LinkedList.{value_at, drop_handle, update_at}
use mini_ss.Cache.Defs.{
  CacheEntry, LruCache, Options, new_cache, contains, delete_element, refresh, get_element, get,
  push_entry, set_new, set, delete_key, cleanup_step, cleanup,
}
use mini_ss.Cache.Spec.{without, spec_get, spec_set}
use mini_ss.Cache.Index.{handle_of}
use mini_ss.Cache.Refinement.{IsCache, view, seen_get}
use mini_ss.Cache.Writes.{Yields, set-Yields, delete_key-IsCache}
use mini_ss.Cache.Cleanup.{unexpired, cleanup-IsCache}
use mini_ss.Cache.Reads.{get-set, get-Refines}

program : Unit {0}
unfolding value_at drop_handle update_at find store delete contains delete_element refresh
    get_element get push_entry set_new set delete_key cleanup_step cleanup
program = tt

abbrev opts : Options
opts = record {
  max_size = 2;
  expiration = 15;
  evicts = true;
  update_cache_exp_on_get = false;
  delete_exp_cache_on_get = true;
}

abbrev entry : ℕ → ℕ → ℕ → CacheEntry ℕ ℕ
entry k v t = record { key = k; value = v; expires = t }

-- Key 7 was set at time 0 and key 8 at time 10.
abbrev two : LruCache ℕ ℕ
two = record {
  lru = record { next = 2; elems = (0, entry 7 70 15) ∷ (1, entry 8 80 25) ∷ [] };
  cache = (7, 0) ∷ (8, 1) ∷ [];
  opts = opts;
}

two-IsCache : IsCache two
unfolding find handle_of value_at
two-IsCache = record {
  linked = λ k. refl;
  distinct = (refl, refl, (refl, refl, tt));
  fresh = omega arith;
  bounded = omega arith;
}

empty-IsCache : IsCache (new_cache {K = ℕ} {V = ℕ} opts)
unfolding find handle_of
empty-IsCache = record { linked = λ k. refl; distinct = tt; fresh = tt; bounded = omega arith }

-- A third key evicts key 7; a hit on key 7 first makes it evict key 8.
evicts_oldest :
    set two 12 9 90
    ≡ ok (
      record two {
        lru = record { next = 3; elems = (1, entry 8 80 25) ∷ (2, entry 9 90 27) ∷ [] };
        cache = (8, 1) ∷ (9, 2) ∷ [];
      },
      (7, 70) ∷ [],
    )
unfolding program
evicts_oldest = refl

after_hit : ((get two 12 7).1).0.lru.elems ≡ (1, entry 8 80 25) ∷ (0, entry 7 70 15) ∷ []
unfolding program
after_hit = refl

get-Refines_example :
    (seen_get (get two 12 7) ≡ spec_get opts (view two) 12 7) × IsCache ((get two 12 7).1).0
get-Refines_example = get-Refines two 12 7 two-IsCache

set-Yields_example : Yields (set two 12 9 90) (spec_set opts (view two) 12 9 90)
set-Yields_example = set-Yields two 12 9 90 two-IsCache (omega arith)

delete_key-IsCache_example :
    IsCache (delete_key two 7).0 × (view (delete_key two 7).0 ≡ without (view two) 7)
delete_key-IsCache_example = delete_key-IsCache two 7 two-IsCache

cleanup-IsCache_example :
    IsCache (cleanup two 20 (1 ∷ 0 ∷ [])).0
    × (view (cleanup two 20 (1 ∷ 0 ∷ [])).0 ≡ unexpired 20 (view two))
unfolding find
cleanup-IsCache_example = cleanup-IsCache two 20 (1 ∷ 0 ∷ []) two-IsCache (λ key h e. ground arith)

get-set_example :
    (get
      (record two {
        lru = record { next = 3; elems = (1, entry 8 80 25) ∷ (2, entry 9 90 27) ∷ [] };
        cache = (8, 1) ∷ (9, 2) ∷ [];
      })
      20
      9).0
    ≡ ok 90
get-set_example = get-set two _ 12 20 9 90 two-IsCache (omega arith) evicts_oldest (omega arith)
