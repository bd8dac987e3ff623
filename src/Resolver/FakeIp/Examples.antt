-- ===== src/Resolver/FakeIp/Examples.antt =====
-- The witnesses of the fake IP resolver: a network of two addresses more than the TUN device and the
-- DNS server take, and one query.
use mini_ss.Common.{
  Bool, ℕ, List, ◌+◌, ◌*◌, ◌^◌, ◌≡◌, ◌≢◌, refl, true, false, some, [], ◌∷◌, ◌++◌, replicate, arith,
}
use mini_ss.Common.Bytes.{Bytes, codes, Bytes_comparable}
use mini_ss.Common.Dict.{ℕ_comparable, find}
use mini_ss.Stream.{ok, err, cache_not_found}
use mini_ss.Cache.Defs.{new_cache, get}
use mini_ss.Resolver.Pool.Defs.{Prefix, available, mask_of, make_pool, masked, last_of}
use mini_ss.Resolver.FakeIp.Defs.{
  DnsLib, FakeIpResolver, trim_domain, cache_options, find_record, find_by_ip, clean_hosts,
  clean_ips, query, new_fake_ip_resolver,
}
use mini_ss.Resolver.FakeIp.Finds.{IsFakeIp}
use mini_ss.Resolver.FakeIp.Queries.{operations-IsFakeIp}
use mini_ss.Resolver.FakeIp.Answers.{Reading, LeadsBack, query-LeadsBack}
use mini_ss.Resolver.FakeIp.Start.{IsStarted, new_fake_ip_resolver-IsStarted}

-- A message with one question.
record Message : Type 0 where
  id : ℕ
  question : Bytes
  recursion : Bool
  answers : List (Bytes × ℕ × ℕ)

abbrev dns : DnsLib Message
dns = record {
  question_name = λ m. some m.question;
  empty_msg = record { id = 0; question = []; recursion = false; answers = [] };
  set_reply = λ m req. record m { id = req.id; question = req.question };
  with_recursion_available = λ m. record m { recursion = true };
  fqdn = λ host. host ++ b'.' ∷ [];
  append_a = λ m host ttl ip. record m { answers = m.answers ++ (host, ttl, ip) ∷ [] };
}

reading : Reading dns
reading = record {
  Question = Bytes;
  id_of = λ m. m.id;
  question_of = λ m. m.question;
  recursion_of = λ m. m.recursion;
  answers_of = λ m. m.answers;
  empty_answers = refl;
  reply_id = λ m req. refl;
  reply_question = λ m req. refl;
  reply_answers = λ m req. refl;
  recursion_id = λ m. refl;
  recursion_question = λ m. refl;
  recursion_answers = λ m. refl;
  recursion_set = λ m. refl;
  append_recursion = λ m name seconds ip. refl;
  append_id = λ m name seconds ip. refl;
  append_question = λ m name seconds ip. refl;
  append_answers = λ m name seconds ip. refl;
}

-- 10.0.0.1/29
abbrev cidr : Prefix
cidr = record { addr = 10 * 2 ^ 24 + 1; bits = 29 }

abbrev first : FakeIpResolver Message
first = record {
  pool = record {
    hmin = 10 * 2 ^ 24 + 1;
    hmax = 10 * 2 ^ 24 + 6;
    bits = 29;
    flags = true ∷ true ∷ replicate 4 false;
  };
  cache = new_cache (cache_options true);
  ip_cache = new_cache (cache_options false);
  dns_ip = some (10 * 2 ^ 24 + 2);
  tun_prefix = cidr;
  replies = [];
}

starts : new_fake_ip_resolver cidr ≡ ok first
unfolding new_fake_ip_resolver mask_of make_pool masked last_of
starts = refl

new_fake_ip_resolver_example : IsStarted first
new_fake_ip_resolver_example = new_fake_ip_resolver-IsStarted cidr first (omega arith) starts

first-IsFakeIp : IsFakeIp first
first-IsFakeIp = (new_fake_ip_resolver-IsStarted cidr first (omega arith) starts).0

abbrev asked : Bytes
asked = codes "a.com."

abbrev request : Message
request = record { id = 7; question = asked; recursion = false; answers = [] }

operations-IsFakeIp_example :
    IsFakeIp (query dns first 0 request).1
    × IsFakeIp (find_record first 0 asked).1
    × IsFakeIp (find_by_ip first 0 7).1
    × IsFakeIp (clean_hosts first 0 (0 ∷ []))
    × IsFakeIp (clean_ips first 0 (0 ∷ []))
operations-IsFakeIp_example =
    operations-IsFakeIp dns first 0 7 asked request (0 ∷ []) first-IsFakeIp

missing : (find_record first 5 (trim_domain asked)).0 ≡ err cache_not_found
unfolding find_record get trim_domain find
missing = refl

has_free : available (find_record first 5 (trim_domain asked)).1.pool ≢ 0
unfolding find_record get available trim_domain find
has_free = λ e. ground (arith, e)

query-LeadsBack_example :
    LeadsBack dns reading 60 request
      (trim_domain asked)
      (find_record first 5 (trim_domain asked)).1.pool
      (query dns first 5 request)
query-LeadsBack_example =
    query-LeadsBack dns reading first 5 60 request asked cache_not_found first-IsFakeIp refl missing
      has_free (omega arith)
