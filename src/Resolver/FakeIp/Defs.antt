-- ===== src/Resolver/FakeIp/Defs.antt =====
-- The functions of resolver/fakeip.go, each of which runs at one time `now`. A *dns.Msg that a
-- record keeps is a number of `replies`, since a query writes to the message that the record has.
use mini_ss.Common.{
  ℕ, suc, ◌*◌, ◌^◌, Bool, true, false, Option, none, some, List, [], ◌∷◌, ◌++◌, length, set,
  get_elem?, ◌==◌, if◌then◌else◌,
}
use mini_ss.Common.Bytes.{Bytes, Bytes_comparable}
use mini_ss.Common.Dict.{ℕ_comparable}
use mini_ss.Stream.{Outcome, ok, err, panics, no_available_fake_ip}
use mini_ss.Resolver.Pool.Defs.{Prefix, IpPool, new_ip_pool, allocate_for, allocate, release}
use mini_ss.Cache.Defs.{Options, LruCache, new_cache, get, set as set_cached, cleanup}

-- What is asked of the DNS library: the name of the first question, SetReply, and the parts of a
-- new message.
pub record DnsLib (Msg : Type 0) : Type 0 where
  pub question_name : Msg → Option Bytes
  pub empty_msg : Msg
  pub set_reply : Msg → Msg → Msg
  pub with_recursion_available : Msg → Msg
  pub fqdn : Bytes → Bytes
  pub append_a : Msg → Bytes → ℕ → ℕ → Msg

pub record Record (Msg : Type 0) : Type 0 where
  pub domain : Bytes
  pub fake_ip : ℕ
  pub query : Msg
  pub reply : ℕ

-- DefaultFakeIPDnsRecordTTL, in seconds and in nanoseconds.
abbrev pub ttl_seconds : ℕ
ttl_seconds = 60

abbrev pub ttl : ℕ
ttl = ttl_seconds * 10 ^ 9

abbrev pub cache_options : Bool → Options
cache_options evicts = record {
  max_size = 4096;
  expiration = ttl;
  evicts = evicts;
  update_cache_exp_on_get = false;
  delete_exp_cache_on_get = true;
}

pub record FakeIpResolver (Msg : Type 0) : Type 0 where
  pub pool : IpPool
  pub cache : LruCache Bytes (Record Msg)
  pub ip_cache : LruCache ℕ (Record Msg)
  pub dns_ip : Option ℕ
  pub tun_prefix : Prefix
  pub replies : List Msg

-- TrimDomain of util/dnsutil: a dot at the end is dropped.
unfoldable pub trim_domain : Bytes → Bytes
trim_domain [] = []
trim_domain (b ∷ bs) =
    let rest = b ∷ trim_domain bs in
    elim bs [ [] ↦ if b == b'.' then [] else b ∷ [] | x ∷ xs ↦ rest ]

module _ {Msg : Type 0} where
  -- The resolver where the address of the TUN device has been taken.
  abbrev pub with_tun : Prefix → ℕ → IpPool → FakeIpResolver Msg
  with_tun cidr tun_ip pool =
      let (dns_ip, pool') = allocate_for pool (suc tun_ip) in
      record {
        pool = pool';
        cache = new_cache (cache_options true);
        ip_cache = new_cache (cache_options false);
        dns_ip = dns_ip;
        tun_prefix = record { addr = tun_ip; bits = pool.bits };
        replies = [];
      }

  -- The address after 255.255.255.255 is not valid, and As4 of it panics in `ipToInt`.
  abbrev pub with_pool : Prefix → Option ℕ × IpPool → Outcome (FakeIpResolver Msg)
  with_pool cidr (none, pool) = err no_available_fake_ip
  with_pool cidr (some tun_ip, pool) =
      if suc tun_ip == 2 ^ 32 then panics else ok (with_tun cidr tun_ip pool)

  unfoldable pub new_fake_ip_resolver : Prefix → Outcome (FakeIpResolver Msg)
  unfolding new_ip_pool allocate_for
  new_fake_ip_resolver cidr = elim (new_ip_pool cidr) [
    | ok pool ↦ with_pool cidr (allocate_for pool cidr.addr)
    | err e ↦ err e
    | panics ↦ panics
  ]

  -- onReleaseFakeIP for each of the evicted values, in order.
  unfoldable pub on_release_fake_ip : IpPool → List (Bytes × Record Msg) → IpPool
  unfolding release
  on_release_fake_ip pool [] = pool
  on_release_fake_ip pool (e ∷ es) = on_release_fake_ip (release pool (e.1).fake_ip).1 es

  abbrev pub with_cache :
      FakeIpResolver Msg
      → LruCache Bytes (Record Msg) × List (Bytes × Record Msg)
      → FakeIpResolver Msg
  with_cache r (cache, evicted) = record r {
    cache = cache;
    pool = on_release_fake_ip r.pool evicted;
  }

  -- `find`
  unfoldable pub find_record :
      FakeIpResolver Msg → ℕ → Bytes → Outcome (Record Msg) × FakeIpResolver Msg
  unfolding get on_release_fake_ip
  find_record r now host =
      let (result, after) = get r.cache now host in (result, with_cache r after)

  -- The background check of the two caches, where the elements were collected in this order.
  unfoldable pub clean_hosts : FakeIpResolver Msg → ℕ → List ℕ → FakeIpResolver Msg
  unfolding cleanup on_release_fake_ip
  clean_hosts r now handles = with_cache r (cleanup r.cache now handles)

  unfoldable pub clean_ips : FakeIpResolver Msg → ℕ → List ℕ → FakeIpResolver Msg
  unfolding cleanup
  clean_ips r now handles = record r { ip_cache = (cleanup r.ip_cache now handles).0 }

  unfoldable pub find_by_ip : FakeIpResolver Msg → ℕ → ℕ → Outcome (Record Msg) × FakeIpResolver Msg
  unfolding get find_record
  find_by_ip r now ip =
      let (result, after) = get r.ip_cache now ip in
      let r' = record r { ip_cache = after.0 } in
      elim result [
        | ok found ↦ find_record r' now found.domain
        | err e ↦ (err e, r')
        | panics ↦ (panics, r')
      ]

  module _ (dns : DnsLib Msg) where
    -- The answer to a request: the address, for as long as the record is kept.
    abbrev pub fake_reply : Msg → Bytes → ℕ → Msg
    fake_reply request host ip =
        dns.append_a (dns.with_recursion_available (dns.set_reply dns.empty_msg request))
          (dns.fqdn host) ttl_seconds ip

    abbrev pub new_record : FakeIpResolver Msg → Bytes → Msg → ℕ → Record Msg
    new_record r host request ip = record {
      domain = host;
      fake_ip = ip;
      query = request;
      reply = length r.replies;
    }

    abbrev pub save_ip :
        FakeIpResolver Msg
        → ℕ
        → Record Msg
        → Outcome (LruCache ℕ (Record Msg) × List (ℕ × Record Msg))
        → Outcome (Record Msg) × FakeIpResolver Msg
    save_ip r now saved (ok after) = (ok saved, record r { ip_cache = after.0 })
    save_ip r now saved (err e) = (err e, r)
    save_ip r now saved panics = (panics, r)

    -- The record is put into both caches.
    abbrev pub save :
        FakeIpResolver Msg
        → ℕ
        → Record Msg
        → Outcome (LruCache Bytes (Record Msg) × List (Bytes × Record Msg))
        → Outcome (Record Msg) × FakeIpResolver Msg
    save r now saved (ok after) =
        save_ip (with_cache r after) now saved (set_cached r.ip_cache now saved.fake_ip saved)
    save r now saved (err e) = (err e, r)
    save r now saved panics = (panics, r)

    -- The address of a pool is always valid.
    abbrev pub make_for :
        FakeIpResolver Msg
        → ℕ
        → Bytes
        → Msg
        → Outcome ℕ × IpPool
        → Outcome (Record Msg) × FakeIpResolver Msg
    make_for r now host request (ok ip, pool) =
        let saved = new_record r host request ip in
        let r' = record r { pool = pool; replies = r.replies ++ fake_reply request host ip ∷ [] } in
        save r' now saved (set_cached r.cache now host saved)
    make_for r now host request (err e, pool) = (err e, record r { pool = pool })
    make_for r now host request (panics, pool) = (panics, record r { pool = pool })

    unfoldable pub make_new_fake_dns_record :
        FakeIpResolver Msg → ℕ → Bytes → Msg → Outcome (Record Msg) × FakeIpResolver Msg
    unfolding allocate set_cached on_release_fake_ip
    make_new_fake_dns_record r now host request = make_for r now host request (allocate r.pool host)

    -- `record.Reply.SetReply(req)` of a record that was found.
    abbrev pub answer_again : FakeIpResolver Msg → Msg → ℕ → FakeIpResolver Msg
    answer_again r req i = record r {
      replies = elim (get_elem? r.replies i) [
        | some m ↦ set r.replies i (dns.set_reply m req)
        | none ↦ r.replies
      ];
    }

    abbrev pub reply_of : Outcome (Record Msg) × FakeIpResolver Msg → Outcome ℕ × FakeIpResolver Msg
    reply_of (ok found, r) = (ok found.reply, r)
    reply_of (err e, r) = (err e, r)
    reply_of (panics, r) = (panics, r)

    abbrev pub query_after :
        ℕ → Bytes → Msg → Outcome (Record Msg) × FakeIpResolver Msg → Outcome ℕ × FakeIpResolver Msg
    query_after now domain req (ok found, r) = (ok found.reply, answer_again r req found.reply)
    query_after now domain req (err e, r) = reply_of (make_new_fake_dns_record r now domain req)
    query_after now domain req (panics, r) = (panics, r)

    -- `query`, which gives the number of the answer. A request without a question panics.
    unfoldable pub query : FakeIpResolver Msg → ℕ → Msg → Outcome ℕ × FakeIpResolver Msg
    unfolding find_record make_new_fake_dns_record trim_domain
    query r now req = elim (dns.question_name req) [
      | none ↦ (panics, r)
      | some name ↦ query_after now (trim_domain name) req (find_record r now (trim_domain name))
    ]
