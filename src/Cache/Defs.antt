-- ===== src/Cache/Defs.antt =====
-- The functions of util/cache/cache.go as one goroutine runs them: each takes the locks for its
-- whole body. `now` is what `timeNowFn` gives, in nanoseconds, and the sums of times do not reach
-- 2 ^ 63. The calls of `evictFn` are returned, in order, as the pairs that it is given.
use mini_ss.Common.{
  ℕ, ◌+◌, Bool, true, false, List, [], ◌∷◌, ◌++◌, Option, none, some, ◌==◌, leb, if◌then◌else◌,
}
use mini_ss.Common.Dict.{Comparable, find, store, delete}
use mini_ss.Stream.{Outcome, ok, err, panics, cache_not_found, cache_expired}
use mini_ss.Cache.LinkedList.{
  LinkedList, new, value_at, update_at, list_len, front, push_back, remove, move_to_back,
}

-- The options that the modelled functions read.
pub record Options : Type 0 where
  pub max_size : ℕ
  pub expiration : ℕ
  pub evicts : Bool
  pub update_cache_exp_on_get : Bool
  pub delete_exp_cache_on_get : Bool

pub record CacheEntry {ℓ} (K V : Type ℓ) : Type ℓ where
  pub key : K
  pub value : V
  pub expires : ℕ

pub record LruCache {ℓ} (K V : Type ℓ) : Type ℓ where
  pub lru : LinkedList (CacheEntry K V)
  pub cache : List (K × ℕ)
  pub opts : Options

-- A cache and the evictions on the way to it.
abbrev pub Evicting {ℓ} : Type ℓ → Type ℓ → Type ℓ
Evicting K V = LruCache K V × List (K × V)

module _ {ℓ} {K V : Type ℓ} ⦃c : Comparable K⦄ where
  abbrev pub new_cache : Options → LruCache K V
  new_cache opts = record { lru = new; cache = []; opts = opts }

  unfoldable pub contains : LruCache K V → K → Bool
  contains l key = elim (find l.cache key) [ some h ↦ true | none ↦ false ]

  -- `c.delete(ele)` of the element with the entry `e`
  unfoldable pub delete_element : LruCache K V → ℕ → CacheEntry K V → Evicting K V
  delete_element l h e = (
    record l { lru = remove l.lru h; cache = delete l.cache e.key },
    if l.opts.evicts then (e.key, e.value) ∷ [] else [],
  )

  -- `c.lru.MoveToBack(ele)` after the entry was written.
  unfoldable pub refresh : LruCache K V → ℕ → CacheEntry K V → LruCache K V
  refresh l h e = record l {
    lru = move_to_back (record (l.lru) { elems = update_at l.lru.elems h e }) h;
  }

  -- The branch of `Get` with an element. A handle in the map that is not in the list cannot occur.
  unfoldable pub get_element :
      LruCache K V → ℕ → ℕ → Option (CacheEntry K V) → Outcome V × Evicting K V
  get_element l now h none = (panics, (l, []))
  get_element l now h (some e) =
      if leb e.expires now
      then (
        err cache_expired,
        if l.opts.delete_exp_cache_on_get then delete_element l h e else (l, []),
      )
      else (
        ok e.value,
        (
          refresh l h (
              if l.opts.update_cache_exp_on_get
              then record e { expires = now + l.opts.expiration }
              else e),
          [],
        ),
      )

  unfoldable pub get : LruCache K V → ℕ → K → Outcome V × Evicting K V
  unfolding get_element
  get l now key = elim (find l.cache key) [
    | some h ↦ get_element l now h (value_at l.lru.elems h)
    | none ↦ (err cache_not_found, (l, []))
  ]

  -- The end of `Set`, where the key is new and there is room.
  unfoldable pub push_entry : LruCache K V → ℕ → K → V → LruCache K V
  push_entry l now key value =
      let (h, lru') =
        push_back l.lru (record { key = key; value = value; expires = now + l.opts.expiration }) in
      record l { lru = lru'; cache = store l.cache key h }

  -- `Set` of a key that is not in the map. With `maxSize` 0 there is no front element to delete.
  unfoldable pub set_new : LruCache K V → ℕ → K → V → Outcome (Evicting K V)
  unfolding push_entry
  set_new l now key value =
      if list_len l.lru == l.opts.max_size
      then elim (front l.lru) [
        | none ↦ panics
        | some x ↦
            let (l', evicted) = delete_element l x.0 x.1 in
            ok (push_entry l' now key value, evicted)
      ]
      else ok (push_entry l now key value, [])

  unfoldable pub set : LruCache K V → ℕ → K → V → Outcome (Evicting K V)
  unfolding set_new
  set l now key value = elim (find l.cache key) [
    | some h ↦ elim (value_at l.lru.elems h) [
      | none ↦ panics
      | some e ↦
          ok (refresh l h (record e { value = value; expires = now + l.opts.expiration }), [])
    ]
    | none ↦ set_new l now key value
  ]

  unfoldable pub delete_key : LruCache K V → K → Evicting K V
  delete_key l key = elim (find l.cache key) [
    | some h ↦ elim (value_at l.lru.elems h) [ some e ↦ delete_element l h e | none ↦ (l, []) ]
    | none ↦ (l, [])
  ]

  -- One round of the second loop of `cleanup`.
  unfoldable pub cleanup_step : LruCache K V → ℕ → ℕ → Evicting K V
  cleanup_step l now h = elim (value_at l.lru.elems h) [
    | some e ↦ if leb e.expires now then delete_element l h e else (l, [])
    | none ↦ (l, [])
  ]

  -- `cleanup` where the first loop has collected the elements in the order `handles`, which Go
  -- leaves open.
  unfoldable pub cleanup : LruCache K V → ℕ → List ℕ → Evicting K V
  cleanup l now [] = (l, [])
  cleanup l now (h ∷ handles) =
      let (l', evicted) = cleanup_step l now h in
      let (l'', more) = cleanup l' now handles in (l'', evicted ++ more)
