-- ===== src/Resolver/Pool/Allocation.antt =====
-- `Allocate`, `allocateFor` and `Release`: what they take, what they give back, and when they fail.
use mini_ss.Common.{
  ℕ, suc, ◌+◌, ◌-◌, ◌%◌, ◌≤◌, ◌<◌, ◌≡◌, ◌≢◌, ◌↔◌, refl, ◌∙◌, inl, inr, true, false, Option, none,
  some, arith, length, get_or, if◌then◌else◌, Option-cases, Bool-cases, length-set, get_or-set_self,
  get_or-set_ne,
}
use mini_ss.Common.Bytes.{Bytes}
use mini_ss.Stream.{ok, err, no_available_fake_ip}
use mini_ss.Resolver.Pool.Defs.{
  u32, IpPool, available, contains, is_available, first_free, take_index, allocate_for, release,
  candidate, allocate,
}
use mini_ss.Resolver.Pool.Flags.{
  first_free-some, first_free-none, full_flags, in_range, count_free-take, count_free-put,
}
use mini_ss.Resolver.Pool.Laws.{IsPool}

-- The pool after one free address was taken: only that address has changed.
pub record Takes (pool pool' : IpPool) (ip : ℕ) : Type 0 where
  pub was_free : is_available pool ip ≡ true
  pub now_used : is_available pool' ip ≡ false
  pub others : (j : ℕ) → j ≢ ip → is_available pool' j ≡ is_available pool j
  pub counted : available pool ≡ suc (available pool')
  pub kept : IsPool pool'

take_free :
    (pool : IpPool) (i : ℕ)
    → IsPool pool
    → get_or pool.flags i true ≡ false
    → Takes pool (take_index pool i) ((pool.hmin + i) % u32)
unfolding is_available available
take_free pool i v free =
    let here : i < length pool.flags = in_range pool.flags i free in
    let address : (pool.hmin + i) % u32 ≡ pool.hmin + i =
      omega (arith, v.ordered, v.small, v.sized) in
    let back : pool.hmin + i - pool.hmin ≡ i = omega arith in
    rw address (record {
      was_free = ground (arith, free, back, v.ordered, v.sized, here);
      now_used = ground (arith, back, get_or-set_self pool.flags i true true here);
      others = λ j h. ground (arith, get_or-set_ne pool.flags i (j - pool.hmin) true true, h);
      counted = count_free-take pool.flags i free;
      kept = record {
        ordered = v.ordered;
        small = v.small;
        sized = length-set pool.flags i true ∙ v.sized;
      };
    })

-- The index that `Allocate` settles on is free, if any is.
candidate_free :
    (pool : IpPool) (host : Bytes)
    → get_or pool.flags (candidate pool host) true ≡ true
    → available pool ≡ 0
unfolding candidate available
candidate_free pool host used = elim (Option-cases (first_free pool.flags)) [
  | inl full ↦ first_free-none pool.flags full
  | inr (i, found) ↦ let free = first_free-some pool.flags found in ground (arith, found, free)
]

-- A successful `Allocate` takes one address that was free.
pub allocate-Takes :
    (pool pool' : IpPool) (host : Bytes) {ip : ℕ}
    → IsPool pool
    → allocate pool host ≡ (ok ip, pool')
    → Takes pool pool' ip
unfolding allocate
allocate-Takes pool pool' host v e =
    elim (Bool-cases (get_or pool.flags (candidate pool host) true)) [
      | inl used ↦ ground (arith, used)
      | inr free ↦ ground (arith, free, take_free pool (candidate pool host) v free)
    ]

-- It fails exactly where every address is taken, and then leaves the pool as it was.
pub allocate-error :
    (pool : IpPool) (host : Bytes)
    → (allocate pool host ≡ (err no_available_fake_ip, pool)) ↔ (available pool ≡ 0)
unfolding allocate available
allocate-error pool host = (
  λ e. elim (Bool-cases (get_or pool.flags (candidate pool host) true)) [
    | inl used ↦ candidate_free pool host used
    | inr free ↦ ground (arith, free)
  ],
  λ full. ground (arith, full_flags pool.flags (candidate pool host) full),
)

-- The pool after a release: the address is free, every other as it was, and the count has grown
-- by one if the address was taken.
pub record Frees (pool pool' : IpPool) (ip : ℕ) : Type 0 where
  pub now_free : is_available pool' ip ≡ true
  pub others : (j : ℕ) → j ≢ ip → is_available pool' j ≡ is_available pool j
  pub counted :
      available pool' ≡ (if is_available pool ip then available pool else suc (available pool))
  pub kept : IsPool pool'

-- The index of an address of the pool lies in the slice.
contains_range :
    (pool : IpPool) (ip : ℕ)
    → IsPool pool
    → contains pool ip ≡ true
    → (pool.hmin ≤ ip) × (ip ≤ pool.hmax) × (ip - pool.hmin < length pool.flags)
unfolding contains
contains_range pool ip v e =
    let lo : pool.hmin ≤ ip = ground arith in
    let hi : ip ≤ pool.hmax = ground arith in (lo, hi, omega (arith, v.sized))

-- `Release` of an address of the pool frees it.
pub release-Frees :
    (pool : IpPool) (ip : ℕ)
    → IsPool pool
    → contains pool ip ≡ true
    → ((release pool ip).0 ≡ true) × Frees pool (release pool ip).1 ip
unfolding release is_available available
release-Frees pool ip v e =
    let i : ℕ = ip - pool.hmin in
    let (lo, hi, here) = contains_range pool ip v e in
    (
      ground (arith, lo, hi),
      record {
        now_free = ground (arith, lo, hi, get_or-set_self pool.flags i false true here);
        others =
            λ j h. ground (arith, lo, hi, get_or-set_ne pool.flags i (j - pool.hmin) false true, h);
        counted = ground (arith, lo, hi, count_free-put pool.flags i here);
        kept = ground (arith, lo, hi, v.ordered, v.small, v.sized, length-set pool.flags i false);
      },
    )

pub release_outside :
    (pool : IpPool) (ip : ℕ) → contains pool ip ≡ false → release pool ip ≡ (false, pool)
unfolding release contains
release_outside pool ip e = ground arith

-- What `allocateFor` gives for an address that the pool does not have: the first free one.
abbrev pub FallsBack : IpPool → Option ℕ × IpPool → Type 0
FallsBack pool (some ip, pool') = Takes pool pool' ip
FallsBack pool (none, pool') = (available pool ≡ 0) × (pool' ≡ pool)

pub allocate_for-FallsBack :
    (pool : IpPool) (ip : ℕ)
    → IsPool pool
    → contains pool ip ≡ false
    → FallsBack pool (allocate_for pool ip)
unfolding allocate_for contains available
allocate_for-FallsBack pool ip v e = elim (Option-cases (first_free pool.flags)) [
  | inl full ↦
      let gives : allocate_for pool ip ≡ (none, pool) = ground (arith, full) in
      rw gives (first_free-none pool.flags full, refl)
  | inr (i, found) ↦
      let gives : allocate_for pool ip ≡ (some ((pool.hmin + i) % u32), take_index pool i) =
        ground (arith, found) in
      rw gives (take_free pool i v (first_free-some pool.flags found).0)
]

-- An address of the pool is taken itself, whether it was free or not.
pub allocate_for_inside :
    (pool : IpPool) (ip : ℕ)
    → IsPool pool
    → contains pool ip ≡ true
    → ((allocate_for pool ip).0 ≡ some ip)
      × (is_available (allocate_for pool ip).1 ip ≡ false)
      × ((j : ℕ) → j ≢ ip → is_available (allocate_for pool ip).1 j ≡ is_available pool j)
      × IsPool (allocate_for pool ip).1
unfolding allocate_for is_available
allocate_for_inside pool ip v e =
    let i : ℕ = ip - pool.hmin in
    let (lo, hi, here) = contains_range pool ip v e in
    (
      ground (arith, lo, hi),
      ground (arith, lo, hi, get_or-set_self pool.flags i true true here),
      λ j h. ground (arith, lo, hi, get_or-set_ne pool.flags i (j - pool.hmin) true true, h),
      ground (arith, lo, hi, v.ordered, v.small, v.sized, length-set pool.flags i true),
    )
