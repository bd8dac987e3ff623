-- ===== src/Resolver/Pool/Examples.antt =====
-- Runs of the pool, and its theorems at 10.0.0.0/30 and its two hosts.
use mini_ss.Common.{
  ℕ, ◌+◌, ◌*◌, ◌^◌, ◌≡◌, ◌≢◌, ◌↔◌, refl, true, false, some, [], ◌∷◌, arith, leb, if◌then◌else◌,
}
use mini_ss.Common.Bytes.{codes}
use mini_ss.Stream.{ok, err, no_available_fake_ip}
use mini_ss.Resolver.Pool.Defs.{
  Prefix, IpPool, masked, mask_of, last_of, make_pool, new_ip_pool, capacity, available, index,
  contains, is_available, first_free, allocate_for, release, candidate, allocate, adler32,
}
use mini_ss.Resolver.Pool.Laws.{IsPool, pool_of, new_ip_pool_lem, pool_of-IsPool}
use mini_ss.Resolver.Pool.Allocation.{
  Takes, Frees, FallsBack, allocate-Takes, allocate-error, release-Frees, allocate_for-FallsBack,
  allocate_for_inside,
}

program : Unit {0}
unfolding masked mask_of last_of make_pool new_ip_pool capacity available index contains
    is_available first_free allocate_for release candidate allocate
program = tt

abbrev ten : ℕ
ten = 10 * 2 ^ 24

abbrev slash30 : Prefix
slash30 = record { addr = ten + 3; bits = 30 }

abbrev two : IpPool
two = record { hmin = ten + 1; hmax = ten + 2; bits = 30; flags = false ∷ false ∷ [] }

abbrev one_left : IpPool
one_left = record two { flags = true ∷ false ∷ [] }

abbrev full : IpPool
full = record two { flags = true ∷ true ∷ [] }

two-IsPool : IsPool two
two-IsPool = omega arith

one_left-IsPool : IsPool one_left
one_left-IsPool = omega arith

full-IsPool : IsPool full
full-IsPool = omega arith

made : new_ip_pool slash30 ≡ ok two
unfolding program
made = refl

hashed : adler32 (codes "Wikipedia") ≡ 0x11E60398
unfolding adler32
hashed = refl

taken : (allocate one_left (codes "a.io")) ≡ (ok (ten + 2), full)
unfolding program
taken = refl

new_ip_pool_example :
    new_ip_pool slash30 ≡ (if leb 30 31 then ok (pool_of slash30) else err no_available_fake_ip)
new_ip_pool_example = new_ip_pool_lem slash30 (omega arith)

pool_of-IsPool_example :
    IsPool (pool_of slash30) × (available (pool_of slash30) ≡ capacity (pool_of slash30))
pool_of-IsPool_example = pool_of-IsPool slash30 (omega arith) (omega arith)

allocate-Takes_example : Takes one_left full (ten + 2)
allocate-Takes_example = allocate-Takes one_left full (codes "a.io") one_left-IsPool taken

allocate-error_example :
    (allocate full (codes "a.io") ≡ (err no_available_fake_ip, full)) ↔ (available full ≡ 0)
allocate-error_example = allocate-error full (codes "a.io")

release-Frees_example :
    ((release full (ten + 1)).0 ≡ true) × Frees full (release full (ten + 1)).1 (ten + 1)
unfolding program
release-Frees_example = release-Frees full (ten + 1) full-IsPool refl

allocate_for-FallsBack_example : FallsBack one_left (allocate_for one_left 7)
unfolding program
allocate_for-FallsBack_example = allocate_for-FallsBack one_left 7 one_left-IsPool refl

inside_example :
    ((allocate_for two (ten + 1)).0 ≡ some (ten + 1))
    × (is_available (allocate_for two (ten + 1)).1 (ten + 1) ≡ false)
    × ((j : ℕ) → j ≢ ten + 1 → is_available (allocate_for two (ten + 1)).1 j ≡ is_available two j)
    × IsPool (allocate_for two (ten + 1)).1
unfolding contains
inside_example = allocate_for_inside two (ten + 1) two-IsPool refl
