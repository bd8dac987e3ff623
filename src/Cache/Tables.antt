-- ===== src/Cache/Tables.antt =====
-- What a cache has for each key, after Get and Set. This is how a client of the cache sees it.
use mini_ss.Common.{
  ℕ, ◌≡◌, ◌<◌, refl, sym, ap, ◌∙◌, ◌⊎◌, inl, inr, true, false, List, [], ◌∷◌, ◌++◌, Option, none,
  some, if◌then◌else◌, leb, length, ◌==◌, arith, Option-cases, Bool-cases, List-cases,
}
use mini_ss.Common.Dict.{Comparable}
use mini_ss.Stream.{Outcome, ok, err, cache_not_found, cache_expired}
use mini_ss.Cache.Defs.{
  CacheEntry, LruCache, Evicting, get, set, get_element, set_new, refresh, delete_element,
  push_entry,
}
use mini_ss.Cache.Spec.{entry_of, without, spec_get, spec_set, stamped, eviction}
use mini_ss.Cache.Index.{Elems, entries, IsDistinct, handle_of-entry_of}
use mini_ss.Cache.Refinement.{IsCache, view, get-spec_get}
use mini_ss.Cache.Reads.{entry_of-without}
use mini_ss.Cache.Writes.{set-Yields}

module _ {ℓ} {K V : Type ℓ} ⦃c : Comparable K⦄ where
  abbrev pub value_in : List (CacheEntry K V) → K → Option V
  value_in es k = elim (entry_of es k) [ some e ↦ some e.value | none ↦ none ]

  -- The value that is stored for a key, whether it has expired or not.
  abbrev pub stored : LruCache K V → K → Option V
  stored l k = value_in (view l) k

  entry_of-key :
      (es : List (CacheEntry K V)) (k : K) (e : CacheEntry K V) → entry_of es k ≡ some e → e.key ≡ k
  unfolding entry_of
  entry_of-key [] k e at = absurd (ground arith)
  entry_of-key (x ∷ es) k e at = ground (arith, at, entry_of-key es k e, c.same_iff x.key k)

  entry_of-append :
      (es : List (CacheEntry K V)) (e : CacheEntry K V) (q : K)
      → entry_of (es ++ e ∷ []) q
        ≡ elim (entry_of es q) [ some x ↦ some x | none ↦ if c.same e.key q then some e else none ]
  unfolding entry_of
  entry_of-append [] e q = ground arith
  entry_of-append (x ∷ es) e q = ground (arith, entry_of-append es e q)

  value_in-moved :
      (es : List (CacheEntry K V)) (e : CacheEntry K V) (q : K)
      → entry_of es e.key ≡ some e
      → value_in (without es e.key ++ e ∷ []) q ≡ value_in es q
  value_in-moved es e q at = ground (
    arith,
    entry_of-append (without es e.key) e q,
    entry_of-without es e.key q,
    at,
    c.same_iff e.key q,
  )

  pub value_in-without :
      (es : List (CacheEntry K V)) (k q : K)
      → value_in (without es k) q ≡ (if c.same k q then none else value_in es q)
  value_in-without es k q = ground (arith, entry_of-without es k q)

  pub get-opts : (l : LruCache K V) (now : ℕ) (key : K) → ((get l now key).1).0.opts ≡ l.opts
  unfolding get get_element refresh delete_element
  get-opts l now key = ground arith

  -- What Get did, where expired values are deleted and the time of a value is not renewed.
  pub record Missed (l : LruCache K V) (key : K) (r : Outcome V × Evicting K V) : Type ℓ where
    pub absent : stored l key ≡ none
    pub fails : r.0 ≡ err cache_not_found
    pub same : (q : K) → stored (r.1).0 q ≡ stored l q
    pub nothing : (r.1).1 ≡ []

  pub record Expired (l : LruCache K V) (key : K) (r : Outcome V × Evicting K V) (v : V)
      : Type ℓ where
    pub old : stored l key ≡ some v
    pub fails : r.0 ≡ err cache_expired
    pub gone : (q : K) → stored (r.1).0 q ≡ (if c.same key q then none else stored l q)
    pub evicted : (r.1).1 ≡ (if l.opts.evicts then (key, v) ∷ [] else [])

  pub record Hit (l : LruCache K V) (key : K) (r : Outcome V × Evicting K V) (v : V) : Type ℓ where
    pub there : stored l key ≡ some v
    pub gives : r.0 ≡ ok v
    pub same : (q : K) → stored (r.1).0 q ≡ stored l q
    pub nothing : (r.1).1 ≡ []

  abbrev pub Got : LruCache K V → K → Outcome V × Evicting K V → Type ℓ
  Got l key r = Missed l key r ⊎ (((v : V) × Expired l key r v) ⊎ ((v : V) × Hit l key r v))

  pub get-Got :
      (l : LruCache K V) (now : ℕ) (key : K)
      → IsCache l
      → l.opts.delete_exp_cache_on_get ≡ true
      → l.opts.update_cache_exp_on_get ≡ false
      → Got l key (get l now key)
  unfolding spec_get
  get-Got l now key v deletes keeps =
      let seen = get-spec_get l now key v in
      elim (Option-cases (entry_of (view l) key)) [
        | inl absent ↦
            let at_end : view ((get l now key).1).0 ≡ view l = ground (arith, seen, absent) in
            inl (record {
              absent = ground (arith, absent);
              fails = ground (arith, seen, absent);
              same = λ q. ap (λ es. value_in es q) at_end;
              nothing = ground (arith, seen, absent);
            })
        | inr (e, at) ↦
            let named = entry_of-key (view l) key e at in
            elim (Bool-cases (leb e.expires now)) [
              | inl late ↦
                  let at_end : view ((get l now key).1).0 ≡ without (view l) key =
                    ground (arith, seen, at, late, deletes, named) in
                  inr (
                    inl (
                      e.value,
                      record {
                        old = ground (arith, at);
                        fails = ground (arith, seen, at, late);
                        gone =
                            λ q. ap (λ es. value_in es q) at_end ∙ value_in-without (view l) key q;
                        evicted = ground (arith, seen, at, late, deletes, named);
                      },
                    ))
              | inr early ↦
                  let at_end : view ((get l now key).1).0 ≡ without (view l) e.key ++ e ∷ [] =
                    ground (arith, seen, at, early, keeps) in
                  let here : entry_of (view l) e.key ≡ some e =
                    ap (λ k. entry_of (view l) k) named ∙ at in
                  inr (
                    inr (
                      e.value,
                      record {
                        there = ground (arith, at);
                        gives = ground (arith, seen, at, early);
                        same =
                            λ q. ap (λ es. value_in es q) at_end ∙ value_in-moved (view l) e q here;
                        nothing = ground (arith, seen, at, early);
                      },
                    ))
            ]
      ]

  -- A Set of a key that is not there: where the cache was full, the oldest value is evicted.
  pub record Stores (l : LruCache K V) (key : K) (v : V) (l' : LruCache K V)
      (evicted : List (K × V)) : Type ℓ where
    pub valid : IsCache l'
    pub options : l'.opts ≡ l.opts
    pub now_there : stored l' key ≡ some v
    pub change :
        ((evicted ≡ []) × ((q : K) → c.same key q ≡ false → stored l' q ≡ stored l q))
        ⊎ ((k : K) × (old : V) × (stored l k ≡ some old)
            × (evicted ≡ (if l.opts.evicts then (k, old) ∷ [] else []))
            × ((q : K)
                → c.same key q ≡ false
                → stored l' q ≡ (if c.same k q then none else stored l q)))

  pub set-opts :
      (l : LruCache K V) (now : ℕ) (key : K) (v : V) (l' : LruCache K V) (evicted : List (K × V))
      → set l now key v ≡ ok (l', evicted)
      → l'.opts ≡ l.opts
  unfolding set set_new refresh delete_element push_entry
  set-opts l now key v l' evicted e = ground (arith, e)

  first_key :
      (xs : Elems K V) (o : CacheEntry K V) (rest : List (CacheEntry K V))
      → IsDistinct xs
      → entries xs ≡ o ∷ rest
      → entry_of rest o.key ≡ none
  first_key [] o rest d e = absurd (ground (arith, e))
  first_key (x ∷ xs) o rest d e = ground (arith, e, handle_of-entry_of xs (x.1).key d.1)

  -- A new entry behind the others, and behind all but the oldest.
  value_in-added :
      (es : List (CacheEntry K V)) (e : CacheEntry K V) (q : K)
      → entry_of es e.key ≡ none
      → value_in (es ++ e ∷ []) q ≡ (if c.same e.key q then some e.value else value_in es q)
  value_in-added es e q absent = ground (arith, entry_of-append es e q, absent, c.same_iff e.key q)

  value_in-rest :
      (o : CacheEntry K V) (rest : List (CacheEntry K V)) (q : K)
      → entry_of rest o.key ≡ none
      → value_in rest q ≡ (if c.same o.key q then none else value_in (o ∷ rest) q)
  unfolding entry_of
  value_in-rest o rest q absent = ground (arith, absent, c.same_iff o.key q)

  entry_of_rest :
      (o : CacheEntry K V) (rest : List (CacheEntry K V)) (k : K)
      → entry_of (o ∷ rest) k ≡ none
      → entry_of rest k ≡ none
  unfolding entry_of
  entry_of_rest o rest k e = ground (arith, e)

  stored_first :
      (o : CacheEntry K V) (rest : List (CacheEntry K V)) → value_in (o ∷ rest) o.key ≡ some o.value
  unfolding entry_of
  stored_first o rest = ground (arith, c.same_iff o.key o.key)

  pub set-Stores :
      (l : LruCache K V) (now : ℕ) (key : K) (v : V)
      → IsCache l
      → 0 < l.opts.max_size
      → stored l key ≡ none
      → (l' : LruCache K V) × (evicted : List (K × V)) × (set l now key v ≡ ok (l', evicted))
        × Stores l key v l' evicted
  unfolding spec_set
  set-Stores l now key v valid positive absent =
      let e = stamped l.opts now key v in
      let new : entry_of (view l) key ≡ none = ground (arith, absent) in
      let (l', gives, valid', seen) = set-Yields l now key v valid positive in
      elim (Bool-cases (length (view l) == l.opts.max_size)) [
        | inr room ↦
            let at_end : view l' ≡ view l ++ e ∷ [] = ground (arith, seen, new, room) in
            let here : (q : K) → stored l' q ≡ (if c.same key q then some v else stored l q) =
              λ q. ap (λ es. value_in es q) at_end ∙ value_in-added (view l) e q new in
            (
              l',
              [],
              ground (arith, gives, new, room),
              record {
                valid = valid';
                options = set-opts l now key v l' _ gives;
                now_there = ground (arith, here key, c.same_iff key key);
                change = inl (refl, λ q other. ground (arith, here q, other));
              },
            )
        | inl full ↦ elim (List-cases (view l)) [
          | inl empty ↦ absurd (ground (arith, full, empty, positive))
          | inr (o, rest, all) ↦
              let alone = first_key l.lru.elems o rest valid.distinct all in
              let at_end : view l' ≡ rest ++ e ∷ [] = ground (arith, seen, new, full, all) in
              let new_there : entry_of rest key ≡ none =
                ground (arith, entry_of_rest o rest key, all, new) in
              let here : (q : K)
                  → stored l' q ≡ (if c.same key q then some v else value_in rest q) =
                λ q. ap (λ es. value_in es q) at_end ∙ value_in-added rest e q new_there in
              let before : (q : K)
                  → value_in rest q ≡ (if c.same o.key q then none else stored l q) =
                λ q.
                  value_in-rest o rest q alone
                  ∙ ap (λ es. if c.same o.key q then none else value_in es q) (sym all) in
              (
                l',
                eviction l.opts o,
                ground (arith, gives, new, full, all),
                record {
                  valid = valid';
                  options = set-opts l now key v l' _ gives;
                  now_there = ground (arith, here key, c.same_iff key key);
                  change = inr (
                    o.key,
                    o.value,
                    ground (arith, stored_first o rest, all),
                    refl,
                    λ q other. ground (arith, here q, other, before q),
                  );
                },
              )
        ]
      ]
