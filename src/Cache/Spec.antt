-- ===== src/Cache/Spec.antt =====
-- The abstract cache: the entries alone, the least recently used first, with neither handles nor a
-- map. What `Get`, `Set`, `Delete` and the background cleanup promise is stated here.
use mini_ss.Common.{
  ℕ, ◌+◌, List, [], ◌∷◌, ◌++◌, Option, none, some, ◌==◌, leb, length, if◌then◌else◌,
}
use mini_ss.Common.Dict.{Comparable}
use mini_ss.Stream.{Outcome, ok, err, cache_not_found, cache_expired}
use mini_ss.Cache.Defs.{Options, CacheEntry}

module _ {ℓ} {K V : Type ℓ} ⦃c : Comparable K⦄ where
  -- The entry of a key, and the entries without it.
  unfoldable pub entry_of : List (CacheEntry K V) → K → Option (CacheEntry K V)
  entry_of [] k = none
  entry_of (e ∷ es) k = if c.same e.key k then some e else entry_of es k

  unfoldable pub without : List (CacheEntry K V) → K → List (CacheEntry K V)
  without [] k = []
  without (e ∷ es) k = let rest = without es k in if c.same e.key k then rest else e ∷ rest

  abbrev pub eviction : Options → CacheEntry K V → List (K × V)
  eviction o e = if o.evicts then (e.key, e.value) ∷ [] else []

  -- A result, the entries after it and the evictions.
  abbrev pub spec_get_entry :
      Options
      → List (CacheEntry K V)
      → ℕ
      → CacheEntry K V
      → Outcome V × List (CacheEntry K V) × List (K × V)
  spec_get_entry o es now e =
      if leb e.expires now
      then (
        err cache_expired,
        if o.delete_exp_cache_on_get then without es e.key else es,
        if o.delete_exp_cache_on_get then eviction o e else [],
      )
      else (
        ok e.value,
        without es e.key
            ++ (if o.update_cache_exp_on_get then record e { expires = now + o.expiration } else e)
              ∷ [],
        [],
      )

  unfoldable pub spec_get :
      Options → List (CacheEntry K V) → ℕ → K → Outcome V × List (CacheEntry K V) × List (K × V)
  spec_get o es now key = elim (entry_of es key) [
    | some e ↦ spec_get_entry o es now e
    | none ↦ (err cache_not_found, es, [])
  ]

  abbrev pub stamped : Options → ℕ → K → V → CacheEntry K V
  stamped o now key value = record { key = key; value = value; expires = now + o.expiration }

  unfoldable pub spec_set :
      Options → List (CacheEntry K V) → ℕ → K → V → List (CacheEntry K V) × List (K × V)
  spec_set o es now key value = elim (entry_of es key) [
    | some e ↦ (without es key ++ stamped o now key value ∷ [], [])
    | none ↦
        if length es == o.max_size
        then elim es [
          | [] ↦ ([], [])
          | oldest ∷ rest ↦ (rest ++ stamped o now key value ∷ [], eviction o oldest)
        ]
        else (es ++ stamped o now key value ∷ [], [])
  ]
