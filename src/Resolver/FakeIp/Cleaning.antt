-- ===== src/Resolver/FakeIp/Cleaning.antt =====
-- The background check of the host cache of resolver/fakeip.go, which releases the addresses of the
-- records that have expired.
use mini_ss.Common.{
  ℕ, ◌≡◌, refl, sym, ap, subst, ◌∙◌, true, false, Option, none, some, List, [], ◌∷◌, ◌++◌,
  if◌then◌else◌, inl, inr, Bool-cases, leb, arith,
}
use mini_ss.Common.Bytes.{Bytes, Bytes_comparable}
use mini_ss.Common.Dict.{Comparable, ℕ_comparable}
use mini_ss.Cache.LinkedList.{value_at}
use mini_ss.Cache.Defs.{
  Options, CacheEntry, LruCache, Evicting, cleanup, cleanup_step, delete_element,
}
use mini_ss.Cache.Index.{element_of}
use mini_ss.Cache.Refinement.{IsCache, view, view-delete_element, delete_element-IsCache}
use mini_ss.Cache.Cleanup.{handle_at}
use mini_ss.Cache.Tables.{stored, value_in, value_in-without}
use mini_ss.Resolver.Pool.Defs.{IpPool, release}
use mini_ss.Resolver.FakeIp.Defs.{
  Record, FakeIpResolver, cache_options, on_release_fake_ip, with_cache, clean_hosts, clean_ips,
}
use mini_ss.Resolver.FakeIp.Finds.{
  IsFakeIp, Settled, Settled-none, Settled-one, evicts_one, with_ips-IsFakeIp,
}

-- Any cache keeps its invariant and its options.
module _ {ℓ} {K V : Type ℓ} ⦃c : Comparable K⦄ where
  abbrev Keeps : Options → LruCache K V → Type ℓ
  Keeps o l = IsCache l × (l.opts ≡ o)

  step-Keeps :
      (o : Options) (l : LruCache K V) (now h : ℕ) → Keeps o l → Keeps o (cleanup_step l now h).0
  unfolding cleanup_step
  step-Keeps o l now h v = go (value_at l.lru.elems h) refl
    where
      deleted :
          (e : CacheEntry K V) → value_at l.lru.elems h ≡ some e → Keeps o (delete_element l h e).0
      deleted e holds =
          unfold delete_element in
          (
            delete_element-IsCache l v.0 e.key h e (handle_at l.lru.elems h e v.0.distinct holds)
                holds refl,
            v.1,
          )

      go :
          (found : Option (CacheEntry K V))
          → value_at l.lru.elems h ≡ found
          → Keeps o
              (elim found as (λ x. Evicting K V) [
                | some e ↦ if leb e.expires now then delete_element l h e else (l, [])
                | none ↦ (l, [])
              ]).0
      go none e = v
      go (some e) at = elim (Bool-cases (leb e.expires now)) [
        | inl late ↦ simp late (deleted e at)
        | inr early ↦ simp early v
      ]

  cleanup-Keeps :
      (o : Options) (l : LruCache K V) (now : ℕ) (handles : List ℕ)
      → Keeps o l
      → Keeps o (cleanup l now handles).0
  unfolding cleanup
  cleanup-Keeps o l now [] v = v
  cleanup-Keeps o l now (h ∷ hs) v =
      cleanup-Keeps o (cleanup_step l now h).0 now hs (step-Keeps o l now h v)

module _ {Msg : Type 0} where
  on_release_fake_ip-append :
      (pool : IpPool) (xs ys : List (Bytes × Record Msg))
      → on_release_fake_ip pool (xs ++ ys) ≡ on_release_fake_ip (on_release_fake_ip pool xs) ys
  unfolding on_release_fake_ip
  on_release_fake_ip-append pool [] ys = refl
  on_release_fake_ip-append pool (x ∷ xs) ys =
      on_release_fake_ip-append (release pool (x.1).fake_ip).1 xs ys

  -- A round of the check is right where its cache and its evictions are.
  Settled-IsFakeIp :
      (r : FakeIpResolver Msg) (l : LruCache Bytes (Record Msg)) (ev : List (Bytes × Record Msg))
      → IsFakeIp r
      → IsCache l
      → l.opts ≡ cache_options true
      → Settled r l ev
      → IsFakeIp (with_cache r (l, ev))
  Settled-IsFakeIp r l ev v valid has s = record {
    valid_pool = s.pool_kept;
    valid_cache = valid;
    valid_ips = v.valid_ips;
    cache_has = has;
    ips_have = v.ips_have;
    held = s.now_held;
  }

  deleted-IsFakeIp :
      (r : FakeIpResolver Msg) (h : ℕ) (e : CacheEntry Bytes (Record Msg))
      → IsFakeIp r
      → value_at r.cache.lru.elems h ≡ some e
      → IsFakeIp (with_cache r (delete_element r.cache h e))
  unfolding delete_element
  deleted-IsFakeIp r h e v holds =
      let at = handle_at r.cache.lru.elems h e v.valid_cache.distinct holds in
      let (e', holds', entry, named) =
        element_of r.cache.lru.elems e.key v.valid_cache.distinct at in
      let there : stored r.cache e.key ≡ some e.value = ground (arith, entry, holds, holds') in
      let gone = view-delete_element r.cache v.valid_cache e.key h e at holds refl in
      Settled-IsFakeIp r (delete_element r.cache h e).0 (delete_element r.cache h e).1 v
        (delete_element-IsCache r.cache v.valid_cache e.key h e at holds refl) v.cache_has
        (subst (Settled r (delete_element r.cache h e).0) (sym (evicts_one r (e.key, e.value) v)) (
          Settled-one r (delete_element r.cache h e).0 e.key e.value v there
            (λ q. ap (λ es. value_in es q) gone ∙ value_in-without (view r.cache) e.key q)))

  step-IsFakeIp :
      (r : FakeIpResolver Msg) (now h : ℕ)
      → IsFakeIp r
      → IsFakeIp (with_cache r (cleanup_step r.cache now h))
  unfolding cleanup_step
  step-IsFakeIp r now h v = go (value_at r.cache.lru.elems h) refl
    where
      same : IsFakeIp (with_cache r (r.cache, []))
      same =
          Settled-IsFakeIp r r.cache [] v v.valid_cache v.cache_has
            (Settled-none r r.cache v (λ q. refl))

      go :
          (o : Option (CacheEntry Bytes (Record Msg)))
          → value_at r.cache.lru.elems h ≡ o
          → IsFakeIp (
              with_cache r (elim o [
                | some e ↦ if leb e.expires now then delete_element r.cache h e else (r.cache, [])
                | none ↦ (r.cache, [])
              ]))
      go none e = same
      go (some e) at = elim (Bool-cases (leb e.expires now)) [
        | inl late ↦ simp late (deleted-IsFakeIp r h e v at)
        | inr early ↦ simp early same
      ]

  clean_hosts-step :
      (r : FakeIpResolver Msg) (now h : ℕ) (hs : List ℕ)
      → clean_hosts r now (h ∷ hs) ≡ clean_hosts (with_cache r (cleanup_step r.cache now h)) now hs
  unfolding clean_hosts cleanup
  clean_hosts-step r now h hs =
      let (l', ev) = cleanup_step r.cache now h in
      ap (λ p. record r { cache = (cleanup l' now hs).0; pool = p })
        (on_release_fake_ip-append r.pool ev (cleanup l' now hs).1)

  -- The background check of the host cache keeps the invariant.
  pub clean_hosts-IsFakeIp :
      (r : FakeIpResolver Msg) (now : ℕ) (handles : List ℕ)
      → IsFakeIp r
      → IsFakeIp (clean_hosts r now handles)
  clean_hosts-IsFakeIp r now [] v = nothing
    where
      nothing : IsFakeIp (clean_hosts r now [])
      nothing = unfold clean_hosts cleanup on_release_fake_ip in v
  clean_hosts-IsFakeIp r now (h ∷ hs) v = subst IsFakeIp (sym (clean_hosts-step r now h hs)) (
      clean_hosts-IsFakeIp (with_cache r (cleanup_step r.cache now h)) now hs
        (step-IsFakeIp r now h v))

  -- The background check of the cache of the addresses keeps it too.
  pub clean_ips-IsFakeIp :
      (r : FakeIpResolver Msg) (now : ℕ) (handles : List ℕ)
      → IsFakeIp r
      → IsFakeIp (clean_ips r now handles)
  unfolding clean_ips
  clean_ips-IsFakeIp r now handles v =
      let kept =
        cleanup-Keeps (cache_options false) r.ip_cache now handles (v.valid_ips, v.ips_have) in
      with_ips-IsFakeIp r (cleanup r.ip_cache now handles).0 v kept.0 kept.1
