-- ===== src/Resolver/FakeIp/Ledger.antt =====
-- Which addresses of the pool the records of a table hold, and what Allocate, Release and a change of
-- the table make of that.
use mini_ss.Common.{
  ℕ, ◌⊎◌, ◌≡◌, ◌≢◌, sym, ap, ◌∙◌, true, false, Option, none, some, if◌then◌else◌, inl, inr,
  Bool-cases, arith,
}
use mini_ss.Common.Bytes.{Bytes, bytes_beq, bytes_beq_iff}
use mini_ss.Stream.{ok}
use mini_ss.Resolver.Pool.Defs.{IpPool, contains, is_available, index, release, allocate}
use mini_ss.Resolver.Pool.Laws.{IsPool}
use mini_ss.Resolver.Pool.Allocation.{Frees, allocate-Takes, release-Frees}
use mini_ss.Resolver.FakeIp.Defs.{Record}

contains-release : (pool : IpPool) (ip j : ℕ) → contains (release pool ip).1 j ≡ contains pool j
unfolding contains index release
contains-release pool ip j = ground arith

contains-allocate :
    (pool : IpPool) (host : Bytes) (j : ℕ) → contains (allocate pool host).1 j ≡ contains pool j
unfolding contains index allocate
contains-allocate pool host j = ground arith

is_available-contains :
    (pool : IpPool) (ip : ℕ) → is_available pool ip ≡ true → contains pool ip ≡ true
unfolding contains is_available
is_available-contains pool ip e = ground (arith, e)

module _ {Msg : Type 0} where
  -- Each record has its host and an address that is taken, and no two hosts share an address.
  pub record Held (pool : IpPool) (f : Bytes → Option (Record Msg)) : Type 0 where
    pub named : (k : Bytes) (x : Record Msg) → f k ≡ some x → x.domain ≡ k
    pub inside : (k : Bytes) (x : Record Msg) → f k ≡ some x → contains pool x.fake_ip ≡ true
    pub taken : (k : Bytes) (x : Record Msg) → f k ≡ some x → is_available pool x.fake_ip ≡ false
    pub apart :
        (k q : Bytes) (x y : Record Msg)
        → f k ≡ some x
        → f q ≡ some y
        → x.fake_ip ≡ y.fake_ip
        → k ≡ q

  -- The table without a host.
  abbrev pub dropped : (Bytes → Option (Record Msg)) → Bytes → Bytes → Option (Record Msg)
  dropped f k q = if bytes_beq k q then none else f q

  pub dropped_self : (f : Bytes → Option (Record Msg)) (k : Bytes) → dropped f k k ≡ none
  dropped_self f k = ground (arith, bytes_beq_iff k k)

  dropped_at :
      (f : Bytes → Option (Record Msg)) (k q : Bytes) (y : Record Msg)
      → dropped f k q ≡ some y
      → (k ≢ q) × (f q ≡ some y)
  dropped_at f k q y e = elim (Bool-cases (bytes_beq k q)) [
    | inl same ↦ absurd (ground (arith, e, same))
    | inr other ↦
        (λ same. absurd (ground (arith, other, bytes_beq_iff k q, same)), ground (arith, e, other))
  ]

  pub Held-same :
      (pool : IpPool) (f g : Bytes → Option (Record Msg))
      → Held pool f
      → ((q : Bytes) → g q ≡ f q)
      → Held pool g
  Held-same pool f g h same = record {
    named = λ k x at. h.named k x (sym (same k) ∙ at);
    inside = λ k x at. h.inside k x (sym (same k) ∙ at);
    taken = λ k x at. h.taken k x (sym (same k) ∙ at);
    apart = λ k q x y at at'. h.apart k q x y (sym (same k) ∙ at) (sym (same q) ∙ at');
  }

  module _ (pool : IpPool) (f : Bytes → Option (Record Msg)) (k : Bytes) (x : Record Msg)
      (v : IsPool pool) (h : Held pool f) (at : f k ≡ some x) where
    freed : Frees pool (release pool x.fake_ip).1 x.fake_ip
    freed = (release-Frees pool x.fake_ip v (h.inside k x at)).1

    other_ip : (q : Bytes) (y : Record Msg) → k ≢ q → f q ≡ some y → y.fake_ip ≢ x.fake_ip
    other_ip q y ne at' same = ne (h.apart k q x y at at' (sym same))

    -- To drop a host is to release its address.
    pub Held-drop : Held (release pool x.fake_ip).1 (dropped f k)
    Held-drop = record {
      named = λ q y e. h.named q y (dropped_at f k q y e).1;
      inside = λ q y e.
          contains-release pool x.fake_ip y.fake_ip ∙ h.inside q y (dropped_at f k q y e).1;
      taken = λ q y e.
          let (ne, at') = dropped_at f k q y e in
          freed.others y.fake_ip (other_ip q y ne at') ∙ h.taken q y at';
      apart =
          λ q q' y y' e e'. h.apart q q' y y' (dropped_at f k q y e).1 (dropped_at f k q' y' e').1;
    }

    pub release-IsPool : IsPool (release pool x.fake_ip).1
    release-IsPool = freed.kept

  -- An address is taken that no record of the table has.
  pub record Reserved (pool : IpPool) (f : Bytes → Option (Record Msg)) (ip : ℕ) : Type 0 where
    pub held : Held pool f
    pub valid : IsPool pool
    pub here : contains pool ip ≡ true
    pub used : is_available pool ip ≡ false
    pub new : (k : Bytes) (x : Record Msg) → f k ≡ some x → x.fake_ip ≢ ip

  pub allocate-Reserved :
      (pool pool' : IpPool) (f : Bytes → Option (Record Msg)) (host : Bytes) (ip : ℕ)
      → IsPool pool
      → Held pool f
      → allocate pool host ≡ (ok ip, pool')
      → Reserved pool' f ip
  allocate-Reserved pool pool' f host ip v h e =
      let takes = allocate-Takes pool pool' host v e in
      let same : (j : ℕ) → contains pool' j ≡ contains pool j =
        λ j. ap (λ p. contains p.1 j) (sym e) ∙ contains-allocate pool host j in
      let apart_from : (k : Bytes) (x : Record Msg) → f k ≡ some x → x.fake_ip ≢ ip =
        λ k x at same_ip. absurd (ground (arith, h.taken k x at, takes.was_free, same_ip)) in
      record {
        held = record {
          named = h.named;
          inside = λ k x at. same x.fake_ip ∙ h.inside k x at;
          taken = λ k x at. takes.others x.fake_ip (apart_from k x at) ∙ h.taken k x at;
          apart = h.apart;
        };
        valid = takes.kept;
        here = same ip ∙ is_available-contains pool ip takes.was_free;
        used = takes.now_used;
        new = apart_from;
      }

  pub Reserved-drop :
      (pool : IpPool) (f : Bytes → Option (Record Msg)) (ip : ℕ) (k : Bytes) (x : Record Msg)
      → Reserved pool f ip
      → f k ≡ some x
      → Reserved (release pool x.fake_ip).1 (dropped f k) ip
  Reserved-drop pool f ip k x r at = record {
    held = Held-drop pool f k x r.valid r.held at;
    valid = release-IsPool pool f k x r.valid r.held at;
    here = contains-release pool x.fake_ip ip ∙ r.here;
    used =
        (freed pool f k x r.valid r.held at).others ip (λ same. r.new k x at (sym same)) ∙ r.used;
    new = λ q y e. r.new q y (dropped_at f k q y e).1;
  }

  -- What stands at a host where a record was put.
  put_at :
      (f g : Bytes → Option (Record Msg)) (x : Record Msg) (q : Bytes) (y : Record Msg)
      → g x.domain ≡ some x
      → ((k : Bytes) → bytes_beq x.domain k ≡ false → g k ≡ f k)
      → g q ≡ some y
      → ((x.domain ≡ q) × (x ≡ y)) ⊎ (f q ≡ some y)
  put_at f g x q y there others e = elim (Bool-cases (bytes_beq x.domain q)) [
    | inl same ↦
        let equal : x.domain ≡ q = (bytes_beq_iff x.domain q).0 same in
        let both : some x ≡ some y = sym there ∙ ap g equal ∙ e in inl (equal, ground (arith, both))
    | inr other ↦ inr (sym (others q other) ∙ e)
  ]

  -- A record with the address is put into the table.
  pub Reserved-put :
      (pool : IpPool) (f g : Bytes → Option (Record Msg)) (ip : ℕ) (x : Record Msg)
      → Reserved pool f ip
      → x.fake_ip ≡ ip
      → g x.domain ≡ some x
      → ((q : Bytes) → bytes_beq x.domain q ≡ false → g q ≡ f q)
      → Held pool g
  Reserved-put pool f g ip x r has there others = record {
    named = λ q y e. elim (put_at f g x q y there others e) [
      | inl (same, one) ↦ sym (ap (λ (z : Record Msg). z.domain) one) ∙ same
      | inr old ↦ r.held.named q y old
    ];
    inside = λ q y e. elim (put_at f g x q y there others e) [
      | inl (same, one) ↦
          ap (λ (z : Record Msg). contains pool z.fake_ip) (sym one)
          ∙ ap (contains pool) has
          ∙ r.here
      | inr old ↦ r.held.inside q y old
    ];
    taken = λ q y e. elim (put_at f g x q y there others e) [
      | inl (same, one) ↦
          ap (λ (z : Record Msg). is_available pool z.fake_ip) (sym one)
          ∙ ap (is_available pool) has
          ∙ r.used
      | inr old ↦ r.held.taken q y old
    ];
    apart = λ q q' y y' e e' shared. elim (put_at f g x q y there others e) [
      | inl (same, one) ↦ elim (put_at f g x q' y' there others e') [
        | inl (same', one') ↦ sym same ∙ same'
        | inr old' ↦
            absurd
              (r.new q' y' old' (sym shared ∙ ap (λ (z : Record Msg). z.fake_ip) (sym one) ∙ has))
      ]
      | inr old ↦ elim (put_at f g x q' y' there others e') [
        | inl (same', one') ↦
            absurd (r.new q y old (shared ∙ ap (λ (z : Record Msg). z.fake_ip) (sym one') ∙ has))
        | inr old' ↦ r.held.apart q q' y y' old old' shared
      ]
    ];
  }
