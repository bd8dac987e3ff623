-- ===== src/Resolver/FakeIp/Answers.antt =====
-- What a query of resolver/fakeip.go is answered with, and the resolver that newFakeIPResolver makes.
use mini_ss.Common.{
  Bool, true, false, ℕ, ◌+◌, ◌<◌, ◌≡◌, ◌≢◌, refl, sym, ap, subst, ◌∙◌, none, some, List, [], ◌∷◌,
  ◌++◌, length, get_elem?, inl, inr,
}
use mini_ss.Common.Bytes.{Bytes, Bytes_comparable}
use mini_ss.Common.Dict.{ℕ_comparable}
use mini_ss.Stream.{Error, Outcome, ok, err}
use mini_ss.Cache.Tables.{stored}
use mini_ss.Resolver.Pool.Defs.{IpPool, available, is_available}
use mini_ss.Resolver.FakeIp.Defs.{
  DnsLib, Record, FakeIpResolver, ttl, trim_domain, find_record, find_by_ip, fake_reply, new_record,
  query, reply_of,
}
use mini_ss.Resolver.FakeIp.Finds.{IsFakeIp, Found, find_record-IsFakeIp, find_record-Found}
use mini_ss.Resolver.FakeIp.Queries.{Made, make_new-Made, query_new}

get_elem?-last : {A : Type 0} (xs : List A) (x : A) → get_elem? (xs ++ x ∷ []) (length xs) ≡ some x
get_elem?-last [] x = refl
get_elem?-last (y ∷ ys) x = get_elem?-last ys x

-- What can be read off a message: its id, its first question, whether recursion is
-- available, and the A records of its answer, each a name, a time to live and an address.
pub record Reading {Msg : Type 0} (dns : DnsLib Msg) : Type 1 where
  pub Question : Type 0
  pub id_of : Msg → ℕ
  pub question_of : Msg → Question
  pub recursion_of : Msg → Bool
  pub answers_of : Msg → List (Bytes × ℕ × ℕ)
  -- A new message has no answer; SetReply copies the id and the question of the request and leaves the
  -- answer; the other parts of a message are set one at a time.
  pub empty_answers : answers_of dns.empty_msg ≡ []
  pub reply_id : (m req : Msg) → id_of (dns.set_reply m req) ≡ id_of req
  pub reply_question : (m req : Msg) → question_of (dns.set_reply m req) ≡ question_of req
  pub reply_answers : (m req : Msg) → answers_of (dns.set_reply m req) ≡ answers_of m
  pub recursion_id : (m : Msg) → id_of (dns.with_recursion_available m) ≡ id_of m
  pub recursion_question : (m : Msg) → question_of (dns.with_recursion_available m) ≡ question_of m
  pub recursion_answers : (m : Msg) → answers_of (dns.with_recursion_available m) ≡ answers_of m
  pub recursion_set : (m : Msg) → recursion_of (dns.with_recursion_available m) ≡ true
  pub append_recursion :
      (m : Msg) (name : Bytes) (seconds ip : ℕ)
      → recursion_of (dns.append_a m name seconds ip) ≡ recursion_of m
  pub append_id :
      (m : Msg) (name : Bytes) (seconds ip : ℕ) → id_of (dns.append_a m name seconds ip) ≡ id_of m
  pub append_question :
      (m : Msg) (name : Bytes) (seconds ip : ℕ)
      → question_of (dns.append_a m name seconds ip) ≡ question_of m
  pub append_answers :
      (m : Msg) (name : Bytes) (seconds ip : ℕ)
      → answers_of (dns.append_a m name seconds ip) ≡ answers_of m ++ (name, seconds, ip) ∷ []

module _ {Msg : Type 0} (dns : DnsLib Msg) (reads : Reading dns) where
  -- A message that answers the request: its id, its question, recursion available, and one A
  -- record of the host, kept for 60 seconds, with the address.
  pub record Answers (req : Msg) (host : Bytes) (ip : ℕ) (m : Msg) : Type 0 where
    pub same_id : reads.id_of m ≡ reads.id_of req
    pub same_question : reads.question_of m ≡ reads.question_of req
    pub recursion : reads.recursion_of m ≡ true
    pub one_address : reads.answers_of m ≡ (dns.fqdn host, 60, ip) ∷ []

  fake_reply-Answers :
      (req : Msg) (host : Bytes) (ip : ℕ) → Answers req host ip (fake_reply dns req host ip)
  fake_reply-Answers req host ip =
      let empty = dns.set_reply dns.empty_msg req in
      let bare = dns.with_recursion_available empty in
      record {
        same_id =
            reads.append_id bare (dns.fqdn host) 60 ip
            ∙ (reads.recursion_id empty ∙ reads.reply_id dns.empty_msg req);
        same_question =
            reads.append_question bare (dns.fqdn host) 60 ip
            ∙ (reads.recursion_question empty ∙ reads.reply_question dns.empty_msg req);
        recursion = reads.append_recursion bare (dns.fqdn host) 60 ip ∙ reads.recursion_set empty;
        one_address =
            reads.append_answers bare (dns.fqdn host) 60 ip
            ∙ ap (λ (xs : List (Bytes × ℕ × ℕ)). xs ++ (dns.fqdn host, 60, ip) ∷ [])
                (reads.recursion_answers empty
                  ∙ (reads.reply_answers dns.empty_msg req ∙ reads.empty_answers));
      }

  -- The answer to a query is a message with an address that was free in `pool`, is taken after, and
  -- leads back to the host.
  abbrev pub LeadsBack : ℕ → Msg → Bytes → IpPool → Outcome ℕ × FakeIpResolver Msg → Type 0
  LeadsBack later req host pool result =
      (x : Record Msg) × (m : Msg) × (result.0 ≡ ok x.reply)
      × (get_elem? result.1.replies x.reply ≡ some m)
      × Answers req host x.fake_ip m
      × (is_available pool x.fake_ip ≡ true)
      × (is_available result.1.pool x.fake_ip ≡ false)
      × (x.domain ≡ host)
      × ((find_by_ip result.1 later x.fake_ip).0 ≡ ok x)

  reply_of_ok :
      (result : Outcome (Record Msg) × FakeIpResolver Msg) (x : Record Msg)
      → result.0 ≡ ok x
      → reply_of dns result ≡ (ok x.reply, result.1)
  reply_of_ok (o, r) x e = ap (λ p. reply_of dns (p, r)) e

  led :
      (r : FakeIpResolver Msg) (now later : ℕ) (req : Msg) (host : Bytes)
      (result : Outcome (Record Msg) × FakeIpResolver Msg)
      → later < now + ttl
      → available r.pool ≢ 0
      → Made dns r now host req result
      → LeadsBack later req host r.pool (reply_of dns result)
  led r now later req host result early free (inr (full, e)) = absurd (free full)
  led r now later req host result early free (inl (ip, was_free, s)) =
      let x = new_record dns r host req ip in
      subst (LeadsBack later req host r.pool) (sym (reply_of_ok result x s.succeeds)) (
        x,
        fake_reply dns req host ip,
        refl,
        ap (λ rs. get_elem? rs (length r.replies)) s.said
            ∙ get_elem?-last r.replies (fake_reply dns req host ip),
        fake_reply-Answers req host ip,
        was_free,
        s.now_taken,
        refl,
        s.leads_back later early,
      )

  -- A query for a host that has no record, where the pool then has a free address, is answered with the
  -- id and the question of the request and one A record of that host, whose address was free before
  -- and is taken after; and on the resolver that the query leaves, FindByIP of that address at any
  -- time until the record expires gives the record of the host. Conditions: the resolver has its
  -- invariant, and what can be read of a message is what SetReply and the DNS library set.
  pub query-LeadsBack :
      (r : FakeIpResolver Msg) (now later : ℕ) (req : Msg) (name : Bytes) (e : Error)
      → IsFakeIp r
      → dns.question_name req ≡ some name
      → (find_record r now (trim_domain name)).0 ≡ err e
      → available (find_record r now (trim_domain name)).1.pool ≢ 0
      → later < now + ttl
      → LeadsBack later req
          (trim_domain name)
          (find_record r now (trim_domain name)).1.pool
          (query dns r now req)
  query-LeadsBack r now later req name e v asks missing free early =
      let host = trim_domain name in
      let after = (find_record r now host).1 in
      let absent : stored after.cache host ≡ none =
        subst (λ o. Found host (o, after)) missing (find_record-Found r now host v) in
      subst (LeadsBack later req host after.pool)
        (sym (query_new dns r now req name e asks missing))
        (led after now later req host _ early free
          (make_new-Made dns after now host req (find_record-IsFakeIp r now host v) absent))
