-- ===== src/Resolver/Pool/Defs.antt =====
-- The functions of resolver/pool.go.
use Prim.Native.Nat.{bit_or}
use mini_ss.Common.{
  ℕ, suc, ◌+◌, ◌-◌, ◌*◌, ◌/◌, ◌%◌, ◌^◌, Bool, true, false, not, ◌&&◌, Option, none, some, List, [],
  ◌∷◌, ◌==◌, leb, length, get_or, set, replicate, if◌then◌else◌,
}
use mini_ss.Common.Bytes.{Bytes}
use mini_ss.Stream.{Outcome, ok, err, no_available_fake_ip}

abbrev pub u32 : ℕ
u32 = 2 ^ 32

-- netip.Prefix of an IPv4 address; `IsValid` and `Masked().Addr()` as `netip` documents them.
pub record Prefix : Type 0 where
  pub addr : ℕ
  pub bits : ℕ

abbrev pub is_valid : Prefix → Bool
is_valid p = leb p.bits 32

unfoldable pub masked : Prefix → ℕ
masked p = p.addr / 2 ^ (32 - p.bits) * 2 ^ (32 - p.bits)

pub record IpPool : Type 0 where
  pub hmin : ℕ
  pub hmax : ℕ
  pub bits : ℕ
  pub flags : List Bool

-- `0xFFFFFFFF << (32 - bits)` in a uint32.
unfoldable pub mask_of : ℕ → ℕ
mask_of bits = 0xffffffff * 2 ^ (32 - bits) % u32

-- `base | (^mask & 0xFFFFFFFF)`
unfoldable pub last_of : ℕ → ℕ → ℕ
last_of base mask = bit_or base (0xffffffff - mask)

-- The pool of the hosts `hmin` to `hmax`, in uint32 arithmetic.
unfoldable pub make_pool : Prefix → ℕ → ℕ → IpPool
make_pool p hmin hmax = record {
  hmin = hmin;
  hmax = hmax;
  bits = p.bits;
  flags = replicate ((hmax + u32 - hmin + 1) % u32) false;
}

unfoldable pub new_ip_pool : Prefix → Outcome IpPool
new_ip_pool p =
    let base = masked p in
    let mask = mask_of p.bits in
    let last = last_of base mask in
    if not (is_valid p)
    then err no_available_fake_ip
    else if mask == 0xffffffff
    then err no_available_fake_ip
    else if mask == 0xfffffffe
    then ok (make_pool p base last)
    else ok (make_pool p ((base + 1) % u32) ((last + u32 - 1) % u32))

unfoldable pub capacity : IpPool → ℕ
capacity pool = length pool.flags

-- The number of flags that are not set.
unfoldable pub count_free : List Bool → ℕ
count_free [] = 0
count_free (used ∷ flags) = if used then count_free flags else suc (count_free flags)

unfoldable pub available : IpPool → ℕ
unfolding count_free
available pool = count_free pool.flags

-- `none` stands for the index -1.
unfoldable pub index : IpPool → ℕ → Option ℕ
index pool ip = if leb pool.hmin ip && leb ip pool.hmax then some (ip - pool.hmin) else none

unfoldable pub contains : IpPool → ℕ → Bool
unfolding index
contains pool ip = elim (index pool ip) [ some i ↦ true | none ↦ false ]

unfoldable pub is_available : IpPool → ℕ → Bool
unfolding index
is_available pool ip = elim (index pool ip) [
  | some i ↦ not (get_or pool.flags i true)
  | none ↦ false
]

-- The first flag that is not set.
unfoldable pub first_free : List Bool → Option ℕ
first_free [] = none
first_free (used ∷ flags) =
    if used then elim (first_free flags) [ some i ↦ some (suc i) | none ↦ none ] else some 0

abbrev pub take_index : IpPool → ℕ → IpPool
take_index pool i = record pool { flags = set pool.flags i true }

-- The address, and the pool after it; `none` where nothing is free.
unfoldable pub allocate_for : IpPool → ℕ → Option ℕ × IpPool
unfolding index first_free
allocate_for pool ip = elim (index pool ip) [
  | some i ↦ (some ip, take_index pool i)
  | none ↦ elim (first_free pool.flags) [
    | some i ↦ (some ((pool.hmin + i) % u32), take_index pool i)
    | none ↦ (none, pool)
  ]
]

unfoldable pub release : IpPool → ℕ → Bool × IpPool
unfolding index
release pool ip = elim (index pool ip) [
  | some i ↦ (true, record pool { flags = set pool.flags i false })
  | none ↦ (false, pool)
]

-- hash/adler32: two sums modulo 65521, the second in the high half.
unfoldable pub adler32_from : ℕ → ℕ → Bytes → ℕ
adler32_from a b [] = b * 2 ^ 16 + a
adler32_from a b (x ∷ xs) = adler32_from ((a + x) % 65521) ((b + (a + x)) % 65521) xs

unfoldable pub adler32 : Bytes → ℕ
unfolding adler32_from
adler32 xs = adler32_from 1 0 xs

-- The index that `Allocate` tries: the hash's, or the first free one if that is taken.
unfoldable pub candidate : IpPool → Bytes → ℕ
unfolding adler32 capacity first_free
candidate pool host =
    let start = adler32 host % capacity pool in
    if get_or pool.flags start true
    then elim (first_free pool.flags) [ some i ↦ i | none ↦ start ]
    else start

unfoldable pub allocate : IpPool → Bytes → Outcome ℕ × IpPool
allocate pool host =
    let i = candidate pool host in
    if get_or pool.flags i true
    then (err no_available_fake_ip, pool)
    else (ok ((pool.hmin + i) % u32), take_index pool i)
