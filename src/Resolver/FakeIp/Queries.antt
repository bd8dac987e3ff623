-- ===== src/Resolver/FakeIp/Queries.antt =====
-- query of resolver/fakeip.go, and the resolver that newFakeIPResolver makes.
use mini_ss.Common.{
  List, ℕ, ◌+◌, ◌%◌, ◌≡◌, sym, ap, subst, ◌∙◌, ◌⊎◌, true, Option, none, some, [], ◌∷◌, ◌++◌, get_or,
  inl, inr, arith, Bool-cases,
}
use mini_ss.Common.Bytes.{Bytes, Bytes_comparable}
use mini_ss.Common.Dict.{ℕ_comparable}
use mini_ss.Stream.{Error, Outcome, ok, err, panics, no_available_fake_ip}
use mini_ss.Cache.Tables.{stored}
use mini_ss.Resolver.Pool.Defs.{
  IpPool, allocate, available, is_available, candidate, take_index, u32,
}
use mini_ss.Resolver.Pool.Allocation.{allocate-Takes, allocate-error}
use mini_ss.Resolver.FakeIp.Defs.{
  DnsLib, Record, FakeIpResolver, trim_domain, find_record, find_by_ip, clean_hosts, clean_ips,
  fake_reply, new_record, make_for, make_new_fake_dns_record, query, query_after, answer_again,
  reply_of,
}
use mini_ss.Resolver.FakeIp.Ledger.{allocate-Reserved}
use mini_ss.Resolver.FakeIp.Finds.{
  IsFakeIp, Found, find_record-IsFakeIp, find_record-Found, find_by_ip-IsFakeIp,
}
use mini_ss.Resolver.FakeIp.Cleaning.{clean_hosts-IsFakeIp, clean_ips-IsFakeIp}
use mini_ss.Resolver.FakeIp.Records.{Saved, save-Saved}

-- Allocate gives an address, or fails and leaves the pool.
allocate_cases :
    (pool : IpPool) (host : Bytes)
    → ((ip : ℕ) × (pool' : IpPool) × (allocate pool host ≡ (ok ip, pool')))
      ⊎ (allocate pool host ≡ (err no_available_fake_ip, pool))
unfolding allocate
allocate_cases pool host = elim (Bool-cases (get_or pool.flags (candidate pool host) true)) [
  | inl full ↦ inr (ground (arith, full))
  | inr free ↦ inl (
    (pool.hmin + candidate pool host) % u32,
    take_index pool (candidate pool host),
    ground (arith, free),
  )
]

module _ {Msg : Type 0} (dns : DnsLib Msg) where
  -- A new record is made, or the pool has no address and nothing changes.
  abbrev pub Made :
      FakeIpResolver Msg → ℕ → Bytes → Msg → Outcome (Record Msg) × FakeIpResolver Msg → Type 0
  Made r now host request result =
      ((ip : ℕ) × (is_available r.pool ip ≡ true)
        × Saved dns (r.replies ++ fake_reply dns request host ip ∷ []) now
            (new_record dns r host request ip) result)
      ⊎ ((available r.pool ≡ 0) × (result ≡ (err no_available_fake_ip, r)))

  pub make_new-Made :
      (r : FakeIpResolver Msg) (now : ℕ) (host : Bytes) (request : Msg)
      → IsFakeIp r
      → stored r.cache host ≡ none
      → Made r now host request (make_new_fake_dns_record dns r now host request)
  unfolding make_new_fake_dns_record
  make_new-Made r now host request v absent = elim (allocate_cases r.pool host) [
    | inl (ip, pool', e) ↦ inl (
      ip,
      (allocate-Takes r.pool pool' host v.valid_pool e).was_free,
      subst
          (λ a.
            Saved dns (r.replies ++ fake_reply dns request host ip ∷ []) now
              (new_record dns r host request ip) (make_for dns r now host request a))
          (sym e)
          (save-Saved dns r pool' _ now (new_record dns r host request ip) v
            (allocate-Reserved r.pool pool' (stored r.cache) host ip v.valid_pool v.held e) absent),
    )
    | inr e ↦ inr ((allocate-error r.pool host).0 e, ap (make_for dns r now host request) e)
  ]

  pub Made-IsFakeIp :
      (r : FakeIpResolver Msg) (now : ℕ) (host : Bytes) (request : Msg)
      (result : Outcome (Record Msg) × FakeIpResolver Msg)
      → IsFakeIp r
      → Made r now host request result
      → IsFakeIp result.1
  Made-IsFakeIp r now host request result v (inl (ip, free, s)) = s.kept
  Made-IsFakeIp r now host request result v (inr (full, e)) = subst (λ o. IsFakeIp o.1) (sym e) v

  answer_again-IsFakeIp :
      (r : FakeIpResolver Msg) (req : Msg) (i : ℕ)
      → IsFakeIp r
      → IsFakeIp (answer_again dns r req i)
  answer_again-IsFakeIp r req i v = record {
    valid_pool = v.valid_pool;
    valid_cache = v.valid_cache;
    valid_ips = v.valid_ips;
    cache_has = v.cache_has;
    ips_have = v.ips_have;
    held = v.held;
  }

  query_after-IsFakeIp :
      (now : ℕ) (host : Bytes) (req : Msg) (o : Outcome (Record Msg)) (r : FakeIpResolver Msg)
      → IsFakeIp r
      → Found host (o, r)
      → IsFakeIp (query_after dns now host req (o, r)).1
  query_after-IsFakeIp now host req (ok x) r v found = answer_again-IsFakeIp r req x.reply v
  query_after-IsFakeIp now host req (err e) r v absent =
      go (make_new_fake_dns_record dns r now host req)
        (Made-IsFakeIp r now host req _ v (make_new-Made r now host req v absent))
    where
      go :
          (result : Outcome (Record Msg) × FakeIpResolver Msg)
          → IsFakeIp result.1
          → IsFakeIp (reply_of dns result).1
      go (ok x, s) k = k
      go (err e, s) k = k
      go (panics, s) k = k
  query_after-IsFakeIp now host req panics r v found = absurd found

  pub query-IsFakeIp :
      (r : FakeIpResolver Msg) (now : ℕ) (req : Msg) → IsFakeIp r → IsFakeIp (query dns r now req).1
  unfolding query
  query-IsFakeIp r now req v = go (dns.question_name req)
    where
      go :
          (o : Option Bytes)
          → IsFakeIp
              (elim o as (λ x. Outcome ℕ × FakeIpResolver Msg) [
                | none ↦ (panics, r)
                | some name ↦
                    query_after dns now
                      (trim_domain name)
                      req
                      (find_record r now (trim_domain name))
              ]).1
      go none = v
      go (some name) =
          query_after-IsFakeIp now (trim_domain name) req (find_record r now (trim_domain name)).0
            (find_record r now (trim_domain name)).1
            (find_record-IsFakeIp r now (trim_domain name) v)
            (find_record-Found r now (trim_domain name) v)

  -- The operations of the resolver, the background checks of its caches among them, keep its
  -- invariant: each record in the cache of the hosts has its host and an address of the pool that is
  -- taken, no two hosts have the same address, and the pool and both caches have their own
  -- invariants.
  pub operations-IsFakeIp :
      (r : FakeIpResolver Msg) (now ip : ℕ) (host : Bytes) (req : Msg) (handles : List ℕ)
      → IsFakeIp r
      → IsFakeIp (query dns r now req).1
        × IsFakeIp (find_record r now host).1
        × IsFakeIp (find_by_ip r now ip).1
        × IsFakeIp (clean_hosts r now handles)
        × IsFakeIp (clean_ips r now handles)
  operations-IsFakeIp r now ip host req handles v = (
    query-IsFakeIp r now req v,
    find_record-IsFakeIp r now host v,
    find_by_ip-IsFakeIp r now ip v,
    clean_hosts-IsFakeIp r now handles v,
    clean_ips-IsFakeIp r now handles v,
  )

  -- A query for a host that has no record.
  pub query_new :
      (r : FakeIpResolver Msg) (now : ℕ) (req : Msg) (name : Bytes) (e : Error)
      → dns.question_name req ≡ some name
      → (find_record r now (trim_domain name)).0 ≡ err e
      → query dns r now req
        ≡ reply_of dns (
            make_new_fake_dns_record dns
              (find_record r now (trim_domain name)).1
              now
              (trim_domain name)
              req)
  unfolding query
  query_new r now req name e asks missing =
      ap (asked) asks
      ∙ ap
          (λ o.
            query_after dns now (trim_domain name) req
              (o, (find_record r now (trim_domain name)).1))
          missing
    where
      asked : Option Bytes → Outcome ℕ × FakeIpResolver Msg
      asked o = elim o [
        | none ↦ (panics, r)
        | some n ↦ query_after dns now (trim_domain n) req (find_record r now (trim_domain n))
      ]
