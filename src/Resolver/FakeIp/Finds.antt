-- ===== src/Resolver/FakeIp/Finds.antt =====
-- The invariant of the fake IP resolver, and that `find` and FindByIP keep it.
use mini_ss.Common.{
  ℕ, ◌≡◌, sym, ap, subst, ◌∙◌, true, false, none, some, List, [], ◌∷◌, if◌then◌else◌, inl, inr,
  arith,
}
use mini_ss.Common.Bytes.{Bytes, Bytes_comparable}
use mini_ss.Common.Dict.{ℕ_comparable}
use mini_ss.Stream.{Outcome, ok, err, panics}
use mini_ss.Cache.Defs.{LruCache, get}
use mini_ss.Cache.Refinement.{IsCache, get-IsCache}
use mini_ss.Cache.Tables.{stored, Got, get-Got, get-opts}
use mini_ss.Resolver.Pool.Defs.{release}
use mini_ss.Resolver.Pool.Laws.{IsPool}
use mini_ss.Resolver.FakeIp.Defs.{
  Record, FakeIpResolver, cache_options, on_release_fake_ip, with_cache, find_record, find_by_ip,
}
use mini_ss.Resolver.FakeIp.Ledger.{
  Held, Held-same, Held-drop, release-IsPool, dropped, dropped_self,
}

module _ {Msg : Type 0} where
  -- The records of the hosts hold addresses of the pool that are taken, each its own; the pool and
  -- the caches have their invariants and the caches their options.
  pub record IsFakeIp (r : FakeIpResolver Msg) : Type 0 where
    pub valid_pool : IsPool r.pool
    pub valid_cache : IsCache r.cache
    pub valid_ips : IsCache r.ip_cache
    pub cache_has : r.cache.opts ≡ cache_options true
    pub ips_have : r.ip_cache.opts ≡ cache_options false
    pub held : Held r.pool (stored r.cache)

  -- A cache of hosts after some values were evicted and their addresses released.
  pub record Settled (r : FakeIpResolver Msg) (cache : LruCache Bytes (Record Msg))
      (evicted : List (Bytes × Record Msg)) : Type 0 where
    pub pool_kept : IsPool (on_release_fake_ip r.pool evicted)
    pub now_held : Held (on_release_fake_ip r.pool evicted) (stored cache)

  pub Settled-none :
      (r : FakeIpResolver Msg) (l : LruCache Bytes (Record Msg))
      → IsFakeIp r
      → ((q : Bytes) → stored l q ≡ stored r.cache q)
      → Settled r l []
  unfolding on_release_fake_ip
  Settled-none r l v same = record {
    pool_kept = v.valid_pool;
    now_held = Held-same r.pool (stored r.cache) (stored l) v.held same;
  }

  pub Settled-one :
      (r : FakeIpResolver Msg) (l : LruCache Bytes (Record Msg)) (host : Bytes) (x : Record Msg)
      → IsFakeIp r
      → stored r.cache host ≡ some x
      → ((q : Bytes) → stored l q ≡ dropped (stored r.cache) host q)
      → Settled r l ((host, x) ∷ [])
  unfolding on_release_fake_ip
  Settled-one r l host x v at gone = record {
    pool_kept = release-IsPool r.pool (stored r.cache) host x v.valid_pool v.held at;
    now_held =
        Held-same (release r.pool x.fake_ip).1 (dropped (stored r.cache) host) (stored l)
          (Held-drop r.pool (stored r.cache) host x v.valid_pool v.held at) gone;
  }

  -- The evictions of the host cache call the callback.
  pub evicts_one :
      (r : FakeIpResolver Msg) (x : Bytes × Record Msg)
      → IsFakeIp r
      → (if r.cache.opts.evicts then x ∷ [] else []) ≡ x ∷ []
  evicts_one r x v = ground (arith, ap (λ o. o.evicts) v.cache_has)

  Got-Settled :
      (r : FakeIpResolver Msg) (host : Bytes) (res : Outcome (Record Msg))
      (l : LruCache Bytes (Record Msg)) (ev : List (Bytes × Record Msg))
      → IsFakeIp r
      → Got r.cache host (res, (l, ev))
      → Settled r l ev
  Got-Settled r host res l ev v (inl m) =
      subst (Settled r l) (sym m.nothing) (Settled-none r l v m.same)
  Got-Settled r host res l ev v (inr (inl (x, e))) =
      subst (Settled r l) (sym (e.evicted ∙ evicts_one r (host, x) v))
        (Settled-one r l host x v e.old e.gone)
  Got-Settled r host res l ev v (inr (inr (x, h))) =
      subst (Settled r l) (sym h.nothing) (Settled-none r l v h.same)

  host-Got :
      (r : FakeIpResolver Msg) (now : ℕ) (host : Bytes)
      → IsFakeIp r
      → Got r.cache host (get r.cache now host)
  host-Got r now host v =
      get-Got r.cache now host v.valid_cache (ap (λ o. o.delete_exp_cache_on_get) v.cache_has)
        (ap (λ o. o.update_cache_exp_on_get) v.cache_has)

  pub find_record-IsFakeIp :
      (r : FakeIpResolver Msg) (now : ℕ) (host : Bytes)
      → IsFakeIp r
      → IsFakeIp (find_record r now host).1
  unfolding find_record
  find_record-IsFakeIp r now host v =
      let settled =
        Got-Settled r host (get r.cache now host).0 ((get r.cache now host).1).0
          ((get r.cache now host).1).1 v (host-Got r now host v) in
      record {
        valid_pool = settled.pool_kept;
        valid_cache = get-IsCache r.cache now host v.valid_cache;
        valid_ips = v.valid_ips;
        cache_has = get-opts r.cache now host ∙ v.cache_has;
        ips_have = v.ips_have;
        held = settled.now_held;
      }

  -- What `find` gives: a record of the host, or an error where the host then has none.
  abbrev pub Found : Bytes → Outcome (Record Msg) × FakeIpResolver Msg → Type 0
  Found host (ok x, r') = (stored r'.cache host ≡ some x) × (x.domain ≡ host)
  Found host (err e, r') = stored r'.cache host ≡ none
  Found host (panics, r') = ⊥

  Got-Found :
      (r : FakeIpResolver Msg) (host : Bytes) (res : Outcome (Record Msg))
      (l : LruCache Bytes (Record Msg)) (ev : List (Bytes × Record Msg))
      → IsFakeIp r
      → Got r.cache host (res, (l, ev))
      → Found host (res, with_cache r (l, ev))
  Got-Found r host res l ev v (inl m) =
      subst (λ o. Found host (o, with_cache r (l, ev))) (sym m.fails) (m.same host ∙ m.absent)
  Got-Found r host res l ev v (inr (inl (x, e))) =
      subst (λ o. Found host (o, with_cache r (l, ev))) (sym e.fails)
        (e.gone host ∙ dropped_self (stored r.cache) host)
  Got-Found r host res l ev v (inr (inr (x, h))) =
      subst (λ o. Found host (o, with_cache r (l, ev))) (sym h.gives)
        (h.same host ∙ h.there, v.held.named host x h.there)

  pub find_record-Found :
      (r : FakeIpResolver Msg) (now : ℕ) (host : Bytes)
      → IsFakeIp r
      → Found host (find_record r now host)
  unfolding find_record
  find_record-Found r now host v =
      Got-Found r host (get r.cache now host).0 ((get r.cache now host).1).0
        ((get r.cache now host).1).1 v (host-Got r now host v)

  pub with_ips-IsFakeIp :
      (r : FakeIpResolver Msg) (ips : LruCache ℕ (Record Msg))
      → IsFakeIp r
      → IsCache ips
      → ips.opts ≡ cache_options false
      → IsFakeIp (record r { ip_cache = ips })
  with_ips-IsFakeIp r ips v valid has = record {
    valid_pool = v.valid_pool;
    valid_cache = v.valid_cache;
    valid_ips = valid;
    cache_has = v.cache_has;
    ips_have = has;
    held = v.held;
  }

  pub find_by_ip-IsFakeIp :
      (r : FakeIpResolver Msg) (now ip : ℕ) → IsFakeIp r → IsFakeIp (find_by_ip r now ip).1
  unfolding find_by_ip
  find_by_ip-IsFakeIp r now ip v = go (get r.ip_cache now ip).0
    where
      after : FakeIpResolver Msg
      after = record r { ip_cache = ((get r.ip_cache now ip).1).0 }

      kept : IsFakeIp after
      kept =
          with_ips-IsFakeIp r _ v (get-IsCache r.ip_cache now ip v.valid_ips)
            (get-opts r.ip_cache now ip ∙ v.ips_have)

      go :
          (o : Outcome (Record Msg))
          → IsFakeIp
              (elim o as (λ x. Outcome (Record Msg) × FakeIpResolver Msg) [
                | ok found ↦ find_record after now found.domain
                | err e ↦ (err e, after)
                | panics ↦ (panics, after)
              ]).1
      go (ok found) = find_record-IsFakeIp after now found.domain kept
      go (err e) = kept
      go panics = kept
