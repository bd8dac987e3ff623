-- ===== src/Resolver/FakeIp/Records.antt =====
-- makeNewFakeDnsRecord and query of resolver/fakeip.go: what becomes of the pool and of both caches,
-- and where a new address leads.
use mini_ss.Common.{
  ℕ, ◌+◌, ◌<◌, ◌≡◌, refl, sym, ap, subst, ◌∙◌, false, none, some, List, inl, inr, arith,
}
use mini_ss.Common.Bytes.{Bytes, Bytes_comparable}
use mini_ss.Common.Dict.{ℕ_comparable}
use mini_ss.Stream.{Outcome, ok, err, panics}
use mini_ss.Cache.Defs.{LruCache, get, set}
use mini_ss.Cache.Writes.{set-Yields}
use mini_ss.Cache.Reads.{get-set}
use mini_ss.Cache.Tables.{stored, Stores, set-Stores, set-opts}
use mini_ss.Resolver.Pool.Defs.{IpPool, is_available, release}
use mini_ss.Resolver.Pool.Laws.{IsPool}
use mini_ss.Resolver.FakeIp.Defs.{
  DnsLib, Record, FakeIpResolver, ttl, on_release_fake_ip, with_cache, find_record, find_by_ip,
  save_ip, save,
}
use mini_ss.Resolver.FakeIp.Ledger.{Held, Reserved, Reserved-drop, Reserved-put, dropped}
use mini_ss.Resolver.FakeIp.Finds.{IsFakeIp, with_ips-IsFakeIp, evicts_one}

module _ {Msg : Type 0} (dns : DnsLib Msg) where
  -- What saving a new record gives: it succeeds, keeps the invariant, the address is taken, and the record is found by its
  -- address until it expires.
  pub record Saved (replies : List Msg) (now : ℕ) (saved : Record Msg)
      (result : Outcome (Record Msg) × FakeIpResolver Msg) : Type 0 where
    pub succeeds : result.0 ≡ ok saved
    pub kept : IsFakeIp result.1
    pub said : result.1.replies ≡ replies
    pub now_taken : is_available result.1.pool saved.fake_ip ≡ false
    pub leads_back :
        (later : ℕ) → later < now + ttl → (find_by_ip result.1 later saved.fake_ip).0 ≡ ok saved

  -- The pool and the host cache after the record was put in.
  put_host :
      (r : FakeIpResolver Msg) (pool : IpPool) (x : Record Msg) (l : LruCache Bytes (Record Msg))
      (ev : List (Bytes × Record Msg))
      → IsFakeIp r
      → Reserved pool (stored r.cache) x.fake_ip
      → Stores r.cache x.domain x l ev
      → IsPool (on_release_fake_ip pool ev) × Held (on_release_fake_ip pool ev) (stored l)
  unfolding on_release_fake_ip
  put_host r pool x l ev v res s = elim (s.change) [
    | inl (nothing, same) ↦
        subst
          (λ e. IsPool (on_release_fake_ip pool e) × Held (on_release_fake_ip pool e) (stored l))
          (sym nothing)
          (
            res.valid,
            Reserved-put pool (stored r.cache) (stored l) x.fake_ip x res refl s.now_there same,
          )
    | inr (k, old, at, one, gone) ↦
        let less = Reserved-drop pool (stored r.cache) x.fake_ip k old res at in
        subst
          (λ e. IsPool (on_release_fake_ip pool e) × Held (on_release_fake_ip pool e) (stored l))
          (sym (one ∙ evicts_one r (k, old) v))
          (
            less.valid,
            Reserved-put (release pool old.fake_ip).1 (dropped (stored r.cache) k) (stored l)
                x.fake_ip x less refl s.now_there gone,
          )
  ]

  -- Where the record is in both caches, its address leads to it.
  led_back :
      (r : FakeIpResolver Msg) (x : Record Msg) (later : ℕ)
      → (get r.ip_cache later x.fake_ip).0 ≡ ok x
      → (get r.cache later x.domain).0 ≡ ok x
      → (find_by_ip r later x.fake_ip).0 ≡ ok x
  unfolding find_by_ip find_record
  led_back r x later by_ip by_host = ap (λ o. (looked_up o).0) by_ip ∙ by_host
    where
      after : FakeIpResolver Msg
      after = record r { ip_cache = ((get r.ip_cache later x.fake_ip).1).0 }

      looked_up : Outcome (Record Msg) → Outcome (Record Msg) × FakeIpResolver Msg
      looked_up o = elim o [
        | ok found ↦ find_record after later found.domain
        | err e ↦ (err e, after)
        | panics ↦ (panics, after)
      ]

  -- The second half of saving: the record is put into the cache of the addresses.
  save_ip-Saved :
      (r : FakeIpResolver Msg) (now : ℕ) (x : Record Msg)
      → IsFakeIp r
      → stored r.cache x.domain ≡ some x
      → ((later : ℕ) → later < now + ttl → (get r.cache later x.domain).0 ≡ ok x)
      → Saved r.replies now x (save_ip dns r now x (set r.ip_cache now x.fake_ip x))
  save_ip-Saved r now x v there by_host =
      let positive : 0 < r.ip_cache.opts.max_size =
        subst (λ o. 0 < o.max_size) (sym v.ips_have) (omega arith) in
      let (l', gives, valid, seen) = set-Yields r.ip_cache now x.fake_ip x v.valid_ips positive in
      let has = set-opts r.ip_cache now x.fake_ip x l' _ gives ∙ v.ips_have in
      let expires : r.ip_cache.opts.expiration ≡ ttl = ap (λ o. o.expiration) v.ips_have in
      subst (λ o. Saved r.replies now x (save_ip dns r now x o)) (sym gives)
        (record {
          succeeds = refl;
          kept = with_ips-IsFakeIp r l' v valid has;
          said = refl;
          now_taken = v.held.taken x.domain x there;
          leads_back = λ later early.
              led_back (record r { ip_cache = l' }) x later
                (get-set r.ip_cache l' now later x.fake_ip x v.valid_ips positive gives
                  (subst (λ t. later < now + t) (sym expires) early))
                (by_host later early);
        })

  -- A record whose address was just taken, for a host that has none.
  pub save-Saved :
      (r : FakeIpResolver Msg) (pool : IpPool) (replies : List Msg) (now : ℕ) (x : Record Msg)
      → IsFakeIp r
      → Reserved pool (stored r.cache) x.fake_ip
      → stored r.cache x.domain ≡ none
      → Saved replies now x (
          save dns (record r { pool = pool; replies = replies }) now x (set r.cache now x.domain x))
  save-Saved r pool replies now x v res absent =
      let positive : 0 < r.cache.opts.max_size =
        subst (λ o. 0 < o.max_size) (sym v.cache_has) (omega arith) in
      let (l', ev, gives, s) = set-Stores r.cache now x.domain x v.valid_cache positive absent in
      let (pool_kept, now_held) = put_host r pool x l' ev v res s in
      let expires : r.cache.opts.expiration ≡ ttl = ap (λ o. o.expiration) v.cache_has in
      let kept : IsFakeIp (with_cache (record r { pool = pool; replies = replies }) (l', ev)) =
        record {
          valid_pool = pool_kept;
          valid_cache = s.valid;
          valid_ips = v.valid_ips;
          cache_has = s.options ∙ v.cache_has;
          ips_have = v.ips_have;
          held = now_held;
        } in
      subst
        (λ o. Saved replies now x (save dns (record r { pool = pool; replies = replies }) now x o))
        (sym gives)
        (save_ip-Saved (with_cache (record r { pool = pool; replies = replies }) (l', ev)) now x
          kept s.now_there
          (λ later early.
            get-set r.cache l' now later x.domain x v.valid_cache positive gives
              (subst (λ t. later < now + t) (sym expires) early)))
