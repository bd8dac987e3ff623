-- ===== src/Resolver/FakeIp/Start.antt =====
-- The resolver that newFakeIPResolver of resolver/fakeip.go makes.
use mini_ss.Common.{
  ℕ, suc, ◌==◌, ◌^◌, ◌<◌, ◌≡◌, refl, sym, ap, subst, ◌∙◌, true, false, Option, none, some, inl, inr,
  arith, Bool-cases, leb, leb→le,
}
use native.Mathlib.Decide.{ℕ_discrete}
use mini_ss.Common.Bytes.{Bytes_comparable}
use mini_ss.Common.Dict.{ℕ_comparable, Comparable, find}
use mini_ss.Stream.{Outcome, ok, err, panics}
use mini_ss.Rule.Choice.{ok_inj}
use mini_ss.Cache.Defs.{Options, new_cache}
use mini_ss.Cache.Index.{handle_of}
use mini_ss.Cache.Spec.{entry_of}
use mini_ss.Cache.Refinement.{IsCache}
use mini_ss.Cache.Tables.{stored}
use mini_ss.Resolver.Pool.Defs.{
  Prefix, IpPool, is_available, contains, new_ip_pool, allocate_for, u32,
}
use mini_ss.Resolver.Pool.Laws.{IsPool, pool_of, new_ip_pool_lem, pool_of-IsPool}
use mini_ss.Resolver.Pool.Allocation.{FallsBack, allocate_for-FallsBack, allocate_for_inside}
use mini_ss.Resolver.FakeIp.Defs.{
  FakeIpResolver, cache_options, with_tun, with_pool, new_fake_ip_resolver,
}
use mini_ss.Resolver.FakeIp.Ledger.{Held}
use mini_ss.Resolver.FakeIp.Finds.{IsFakeIp}

-- What allocateFor does: the pool stays valid, the address it gives is taken, and an address that was
-- taken stays taken.
pub record Allocates (pool : IpPool) (result : Option ℕ × IpPool) : Type 0 where
  pub valid : IsPool result.1
  pub gives : (ip : ℕ) → result.0 ≡ some ip → is_available result.1 ip ≡ false
  pub keeps : (j : ℕ) → is_available pool j ≡ false → is_available result.1 j ≡ false

Allocates-outside :
    (pool : IpPool) (result : Option ℕ × IpPool)
    → IsPool pool
    → FallsBack pool result
    → Allocates pool result
Allocates-outside pool (some ip, pool') v t = record {
  valid = t.kept;
  gives = λ j e. ground (arith, e, t.now_used);
  keeps = λ j used. t.others j (λ same. absurd (ground (arith, used, t.was_free, same))) ∙ used;
}
Allocates-outside pool (none, pool') v (full, same) = record {
  valid = subst IsPool (sym same) v;
  gives = λ j e. absurd (ground (arith, e));
  keeps = λ j used. ap (λ p. is_available p j) same ∙ used;
}

allocate_for-Allocates :
    (pool : IpPool) (ip : ℕ) → IsPool pool → Allocates pool (allocate_for pool ip)
allocate_for-Allocates pool ip v = elim (Bool-cases (contains pool ip)) [
  | inr outside ↦
      Allocates-outside pool (allocate_for pool ip) v (allocate_for-FallsBack pool ip v outside)
  | inl inside ↦
      let (gives, used, others, valid) = allocate_for_inside pool ip v inside in
      record {
        valid = valid;
        gives = λ j e. ground (arith, gives, e, used);
        keeps = λ j taken. elim (ℕ_discrete j ip) [
          | yes same ↦ ap (is_available (allocate_for pool ip).1) same ∙ used
          | no differs ↦ others j differs ∙ taken
        ];
      }
]

empty-IsCache :
    {K V : Type 0} ⦃c : Comparable K⦄ (o : Options) → IsCache (new_cache {K = K} {V = V} o)
unfolding find handle_of
empty-IsCache o = record { linked = λ k. refl; distinct = tt; fresh = tt; bounded = omega arith }

module _ {Msg : Type 0} where
  empty-Held : (pool : IpPool) → Held {Msg = Msg} pool (stored (new_cache (cache_options true)))
  unfolding entry_of
  empty-Held pool = record {
    named = λ k x e. absurd (ground (arith, e));
    inside = λ k x e. absurd (ground (arith, e));
    taken = λ k x e. absurd (ground (arith, e));
    apart = λ k q x y e e' same. absurd (ground (arith, e));
  }

  -- The resolver that starts with a pool whose TUN address is taken.
  with_tun-IsFakeIp :
      (cidr : Prefix) (ip : ℕ) (pool : IpPool)
      → IsPool pool
      → is_available pool ip ≡ false
      → IsFakeIp (with_tun {Msg = Msg} cidr ip pool)
        × (is_available (with_tun {Msg = Msg} cidr ip pool).pool ip ≡ false)
  with_tun-IsFakeIp cidr ip pool v used =
      let second = allocate_for-Allocates pool (suc ip) v in
      (
        record {
          valid_pool = second.valid;
          valid_cache = empty-IsCache (cache_options true);
          valid_ips = empty-IsCache (cache_options false);
          cache_has = refl;
          ips_have = refl;
          held = empty-Held (allocate_for pool (suc ip)).1;
        },
        second.keeps ip used,
      )

  -- What a started resolver has: its invariant, and the address of the TUN device taken.
  abbrev pub IsStarted : FakeIpResolver Msg → Type 0
  IsStarted r = IsFakeIp r × (is_available r.pool r.tun_prefix.addr ≡ false)

  started :
      (cidr : Prefix) (pool : IpPool) (result : Option ℕ × IpPool) (r : FakeIpResolver Msg)
      → Allocates pool result
      → with_pool cidr result ≡ ok r
      → IsStarted r
  started cidr pool (none, pool') r a e = absurd (ground (arith, e))
  started cidr pool (some ip, pool') r a e = elim (Bool-cases (suc ip == 2 ^ 32)) [
    | inl last ↦ absurd (ground (arith, e, last))
    | inr before ↦
        let whole : ok (with_tun cidr ip pool') ≡ ok r = ground (arith, e, before) in
        subst IsStarted (ok_inj whole) (with_tun-IsFakeIp cidr ip pool' a.valid (a.gives ip refl))
  ]

  -- The resolver that newFakeIPResolver makes for a prefix has the invariant, and the address of its
  -- TUN device is taken. Condition: the address of the prefix is below 2 ^ 32.
  pub new_fake_ip_resolver-IsStarted :
      (cidr : Prefix) (r : FakeIpResolver Msg)
      → cidr.addr < u32
      → new_fake_ip_resolver cidr ≡ ok r
      → IsStarted r
  unfolding new_fake_ip_resolver
  new_fake_ip_resolver-IsStarted cidr r small e =
      let pool = pool_of cidr in
      let makes = new_ip_pool_lem cidr small in
      elim (Bool-cases (leb cidr.bits 31)) [
        | inr big ↦ absurd (ground (arith, e, makes, big))
        | inl few ↦
            let made : new_ip_pool cidr ≡ ok pool = ground (arith, makes, few) in
            let valid = (pool_of-IsPool cidr small (leb→le _ _ few)).0 in
            let rest : with_pool cidr (allocate_for pool cidr.addr) ≡ ok r =
              sym (ap starting made) ∙ e in
            started cidr pool (allocate_for pool cidr.addr) r
              (allocate_for-Allocates pool cidr.addr valid) rest
      ]
    where
      starting : Outcome IpPool → Outcome (FakeIpResolver Msg)
      starting o = elim o [
        | ok pool ↦ with_pool cidr (allocate_for pool cidr.addr)
        | err x ↦ err x
        | panics ↦ panics
      ]
