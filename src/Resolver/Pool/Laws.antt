-- ===== src/Resolver/Pool/Laws.antt =====
-- What a pool is, and that every operation of resolver/pool.go keeps it and does what it promises.
use native.Mathlib.Nat.{pow-le-pow_right}
use native.Mathlib.Decide.{ℕ_discrete}
use mini_ss.Common.{
  ℕ, ◌+◌, ◌-◌, ◌%◌, ◌^◌, ◌≤◌, ◌<◌, ◌≡◌, ap, false, arith, length, replicate, if◌then◌else◌, ◌==◌,
  leb, length-replicate,
}
use mini_ss.Stream.{ok, err, no_available_fake_ip}
use mini_ss.Resolver.Pool.Defs.{
  u32, Prefix, masked, IpPool, make_pool, new_ip_pool, capacity, available,
}
use mini_ss.Resolver.Pool.Flags.{count_free-replicate}
use mini_ss.Resolver.Pool.Prefixes.{hosts, hosts_bounds, mask_of_lem, last_of_lem, masked-lt}

-- The flags are those of the addresses from `hmin` to `hmax`, which fit in 32 bits.
pub record IsPool (pool : IpPool) : Type 0 where
  pub ordered : pool.hmin ≤ pool.hmax
  pub small : pool.hmax < u32
  pub sized : length pool.flags ≡ pool.hmax - pool.hmin + 1

-- The pool that a prefix gets: two addresses for 31 bits, and all but the first and the last of
-- the network for fewer.
abbrev pub pool_of : Prefix → IpPool
pool_of p =
    if p.bits == 31
    then record { hmin = masked p; hmax = masked p + 1; bits = p.bits; flags = replicate 2 false }
    else record {
      hmin = masked p + 1;
      hmax = masked p + hosts p.bits - 2;
      bits = p.bits;
      flags = replicate (hosts p.bits - 2) false;
    }

hosts_small : (bits : ℕ) → bits ≤ 30 → 4 ≤ hosts bits
hosts_small bits h = pow-le-pow_right {n = 2} (omega arith) {i = 2} {j = 32 - bits} (omega arith)

make_pool_lem :
    (p : Prefix) (hmin hmax n : ℕ)
    → hmin ≤ hmax
    → hmax < u32
    → n ≡ hmax - hmin + 1
    → n < u32
    → make_pool p hmin hmax
      ≡ record { hmin = hmin; hmax = hmax; bits = p.bits; flags = replicate n false }
unfolding make_pool
make_pool_lem p hmin hmax n h small e few =
    let count : (hmax + u32 - hmin + 1) % u32 ≡ n = omega arith in rw count

module _ (p : Prefix) (small : p.addr < u32) where
  new_pool_31 : p.bits ≡ 31 → new_ip_pool p ≡ ok (pool_of p)
  unfolding new_ip_pool
  new_pool_31 e =
      let two : hosts p.bits ≡ 2 = ap hosts e in
      ground (
        arith,
        e,
        two,
        mask_of_lem p.bits,
        last_of_lem p,
        masked-lt p small,
        make_pool_lem p (masked p) (masked p + 1) 2,
      )

  new_pool_30 : p.bits ≤ 30 → new_ip_pool p ≡ ok (pool_of p)
  unfolding new_ip_pool
  new_pool_30 h =
      let m : ℕ = hosts p.bits in
      let lo : 4 ≤ m = hosts_small p.bits h in
      let hi : m ≤ u32 = (hosts_bounds p.bits).1 in
      let top : masked p + m ≤ u32 = masked-lt p small in
      let first : (masked p + 1) % u32 ≡ masked p + 1 = omega arith in
      let last : (masked p + (m - 1) + u32 - 1) % u32 ≡ masked p + m - 2 = omega arith in
      ground (
        arith,
        first,
        last,
        lo,
        hi,
        mask_of_lem p.bits,
        last_of_lem p,
        make_pool_lem p (masked p + 1) (masked p + m - 2) (m - 2) (omega arith) (omega arith)
            (omega arith) (omega arith),
      )

  no_pool : 31 < p.bits → new_ip_pool p ≡ err no_available_fake_ip
  unfolding new_ip_pool
  no_pool h =
      let none_left : 32 - p.bits ≡ 0 = omega arith in
      let one : hosts p.bits ≡ 1 = ap (λ (n : ℕ). 2 ^ n) none_left in
      ground (arith, one, mask_of_lem p.bits)

  -- A prefix of at most 31 bits has a pool, and no other has.
  pub new_ip_pool_lem :
      new_ip_pool p ≡ (if leb p.bits 31 then ok (pool_of p) else err no_available_fake_ip)
  new_ip_pool_lem = ground (arith, new_pool_31, new_pool_30, no_pool)

  pub pool_of-IsPool :
      p.bits ≤ 31 → IsPool (pool_of p) × (available (pool_of p) ≡ capacity (pool_of p))
  unfolding available capacity
  pool_of-IsPool few =
      let m : ℕ = hosts p.bits in
      let top : masked p + m ≤ u32 = masked-lt p small in
      elim (ℕ_discrete p.bits 31) [
        | yes e ↦
            let two : m ≡ 2 = ap hosts e in ground (arith, e, two, top, count_free-replicate 2)
        | no e ↦
            let lo : 4 ≤ m = hosts_small p.bits (omega arith) in
            ground (arith, lo, top, length-replicate (m - 2) false, count_free-replicate (m - 2))
      ]
