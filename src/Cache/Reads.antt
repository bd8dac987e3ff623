-- ===== src/Cache/Reads.antt =====
-- What a `Get` sees after a `Set`.
use mini_ss.Common.{
  ℕ, ◌+◌, ◌≡◌, ◌<◌, refl, ap, subst, ◌∙◌, List, [], ◌∷◌, ◌++◌, none, some, if◌then◌else◌, arith,
  lt→leb_false,
}
use mini_ss.Common.Dict.{Comparable}
use mini_ss.Stream.{Outcome, ok}
use mini_ss.Cache.Defs.{CacheEntry, LruCache, Options, get, set}
use mini_ss.Cache.Spec.{entry_of, without, spec_get, spec_set, stamped}
use mini_ss.Cache.Refinement.{IsCache, view, seen_get, get-spec_get, get-IsCache}
use mini_ss.Cache.Writes.{set-Yields}

module _ {ℓ} {K V : Type ℓ} ⦃c : Comparable K⦄ where
  pub entry_of-without :
      (es : List (CacheEntry K V)) (k q : K)
      → entry_of (without es k) q ≡ (if c.same k q then none else entry_of es q)
  unfolding entry_of without
  entry_of-without [] k q = ground arith
  entry_of-without (e ∷ es) k q =
      ground
        (arith, entry_of-without es k q, c.same_iff k q, c.same_iff e.key q, c.same_iff e.key k)

  entry_of-last :
      (es : List (CacheEntry K V)) (e : CacheEntry K V)
      → entry_of es e.key ≡ none
      → entry_of (es ++ e ∷ []) e.key ≡ some e
  unfolding entry_of
  entry_of-last [] e h = ground (arith, c.same_iff e.key e.key)
  entry_of-last (x ∷ es) e h = ground (arith, entry_of-last es e)

  entry_of-tail :
      (x : CacheEntry K V) (es : List (CacheEntry K V)) (k : K)
      → entry_of (x ∷ es) k ≡ none
      → entry_of es k ≡ none
  unfolding entry_of
  entry_of-tail x es k h = ground arith

  entry_of-spec_set :
      (o : Options) (es : List (CacheEntry K V)) (now : ℕ) (key : K) (value : V)
      → 0 < o.max_size
      → entry_of (spec_set o es now key value).0 key ≡ some (stamped o now key value)
  unfolding spec_set
  entry_of-spec_set o [] now key value positive =
      ground (arith, entry_of-last [] (stamped o now key value), entry_of_nil key)
    where
      entry_of_nil : (k : K) → entry_of {V = V} [] k ≡ none
      entry_of_nil k = unfold entry_of in refl
  entry_of-spec_set o (x ∷ es) now key value positive = ground (
    arith,
    entry_of-last (without (x ∷ es) key) (stamped o now key value),
    entry_of-without (x ∷ es) key key,
    c.same_iff key key,
    entry_of-last es (stamped o now key value),
    entry_of-tail x es key,
    entry_of-last (x ∷ es) (stamped o now key value),
  )

  -- A value that was set is found until it expires.
  pub get-set :
      (l l' : LruCache K V) (now later : ℕ) (key : K) (value : V) {evicted : List (K × V)}
      → IsCache l
      → 0 < l.opts.max_size
      → set l now key value ≡ ok (l', evicted)
      → later < now + l.opts.expiration
      → (get l' later key).0 ≡ ok value
  unfolding spec_get
  get-set l l' now later key value v positive done early =
      let (l'', gives, valid, seen) = set-Yields l now key value v positive in
      let same : l'' ≡ l' = cc in
      let entry : entry_of (view l'') key ≡ some (stamped l.opts now key value) =
        rw seen (entry_of-spec_set l.opts (view l) now key value positive) in
      let answer : (get l'' later key).0 ≡ ok value =
        ap (λ (r : Outcome V × List (CacheEntry K V) × List (K × V)). r.0)
          (get-spec_get l'' later key valid)
        ∙ ground (arith, entry, lt→leb_false (now + l.opts.expiration) later early) in
      subst (λ m. (get m later key).0 ≡ ok value) same answer

  -- Get on a valid cache keeps the invariant (the map gives the handle of the element with a key, no
  -- key and no handle occurs twice, and there are at most maxSize elements) and gives the result, the
  -- entries and the evictions of the abstract cache: not found, expired (with the entry deleted where
  -- that option is set), or the value with the entry moved to the back.
  pub get-Refines :
      (l : LruCache K V) (now : ℕ) (key : K)
      → IsCache l
      → (seen_get (get l now key) ≡ spec_get l.opts (view l) now key)
        × IsCache ((get l now key).1).0
  get-Refines l now key v = (get-spec_get l now key v, get-IsCache l now key v)
