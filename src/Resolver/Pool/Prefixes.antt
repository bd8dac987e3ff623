-- ===== src/Resolver/Pool/Prefixes.antt =====
-- The uint32 arithmetic of `newIPPool`: what the mask, the shift and the bitwise or come to.
use Prim.Native.Nat.{bit_or, digits, bit_or-bitwise, max}
use native.Mathlib.Nat.{pow-suc, pow-le-pow_right, div-lt_iff_lt-mul, mul-le-mul_right}
use mini_ss.Common.{
  ℕ, zero, suc, ◌+◌, ◌-◌, ◌*◌, ◌/◌, ◌%◌, ◌^◌, ◌≤◌, ◌<◌, ◌≡◌, refl, ap, arith, sym, ◌∙◌,
}
use mini_ss.Resolver.Pool.Defs.{u32, Prefix, masked, mask_of, last_of}

-- The digits of `x` or `y`, at most `fuel` of them for `x`.
abbrev or_within : ℕ → ℕ → ℕ → ℕ
or_within fuel x y = digits (λ rest. rest) max fuel x y

-- Fuel that covers the first number is enough.
or_within_enough : (x fuel more y : ℕ) → x ≤ fuel → or_within (fuel + more) x y ≡ or_within fuel x y
or_within_enough zero zero zero y h = refl
or_within_enough zero zero (suc more) y h = let e : zero + suc more ≡ suc more = omega arith in rw e
or_within_enough (suc x) zero more y h = elim h [ ]
or_within_enough zero (suc fuel) more y h =
    let e : suc fuel + more ≡ suc (fuel + more) = omega arith in rw e
or_within_enough (suc x) (suc fuel) more y h =
    let e : suc fuel + more ≡ suc (fuel + more) = omega arith in
    rw e (
      ap (λ (t : ℕ). t * 2 + max (suc x % 2) (y % 2))
        (or_within_enough (suc x / 2) fuel more (y / 2) (omega arith)))

bit_or_nothing : (y : ℕ) → bit_or 0 y ≡ y
bit_or_nothing y = bit_or-bitwise 0 y

bit_or_halves : (x y : ℕ) → bit_or x y ≡ bit_or (x / 2) (y / 2) * 2 + max (x % 2) (y % 2)
bit_or_halves zero y = omega (arith, bit_or_nothing y, bit_or_nothing (y / 2))
bit_or_halves (suc x) y =
    let half : ℕ = suc x / 2 in
    let e : half + (x - half) ≡ x = omega arith in
    let short = or_within_enough half half (x - half) (y / 2) (omega arith) in
    let long : or_within x half (y / 2) ≡ bit_or half (y / 2) =
      (rw e at short) ∙ sym (bit_or-bitwise half (y / 2)) in
    bit_or-bitwise (suc x) y ∙ ap (λ (t : ℕ). t * 2 + max (suc x % 2) (y % 2)) long

bit_or_empty : (bound x : ℕ) → x ≤ bound → bit_or x 0 ≡ x
bit_or_empty bound zero h = refl
bit_or_empty zero (suc x) h = elim h [ ]
bit_or_empty (suc bound) (suc x) h =
    let ih = bit_or_empty bound (suc x / 2) (omega arith) in
    omega (arith, ih, bit_or_halves (suc x) 0)

-- Where the low bits of one number are zero and the other has no more, `or` adds.
pub bit_or-add : (k q r : ℕ) → r < 2 ^ k → bit_or (q * 2 ^ k) r ≡ q * 2 ^ k + r
bit_or-add zero q r h =
    let none_left : r ≡ 0 = omega arith in
    rw none_left (omega (arith, bit_or_empty (q * 1) (q * 1) (omega arith)))
bit_or-add (suc k) q r h =
    let t : ℕ = q * 2 ^ k in
    let double : 2 ^ suc k ≡ 2 * 2 ^ k = omega (arith, pow-suc 2 k) in
    let whole : q * 2 ^ suc k ≡ 2 * t = rw double (omega arith) in
    let half : (2 * t) / 2 ≡ t = omega arith in
    let ih : bit_or t (r / 2) ≡ t + r / 2 = bit_or-add k q (r / 2) (omega arith) in
    rw whole (bit_or_halves (2 * t) r ∙ rw (half, ih) (omega arith))

-- The size of the network of a prefix.
abbrev pub hosts : ℕ → ℕ
hosts bits = 2 ^ (32 - bits)

pub hosts_bounds : (bits : ℕ) → (1 ≤ hosts bits) × (hosts bits ≤ u32)
hosts_bounds bits = (
  pow-le-pow_right {n = 2} (omega arith) {i = 0} {j = 32 - bits} (omega arith),
  pow-le-pow_right {n = 2} (omega arith) {i = 32 - bits} {j = 32} (omega arith),
)

pub mask_of_lem : (bits : ℕ) → mask_of bits ≡ u32 - hosts bits
unfolding mask_of
mask_of_lem bits = let b = hosts_bounds bits in omega (arith, b.0, b.1)

pub last_of_lem : (p : Prefix) → last_of (masked p) (mask_of p.bits) ≡ masked p + (hosts p.bits - 1)
unfolding last_of masked
last_of_lem p =
    let b = hosts_bounds p.bits in
    let complement : 0xffffffff - mask_of p.bits ≡ hosts p.bits - 1 =
      omega (arith, b.0, b.1, mask_of_lem p.bits) in
    rw complement
      (bit_or-add (32 - p.bits) (p.addr / hosts p.bits) (hosts p.bits - 1) (omega (arith, b.0)))

pow_sum : (i j : ℕ) → 2 ^ (i + j) ≡ 2 ^ i * 2 ^ j
pow_sum i zero = let e : i + zero ≡ i = omega arith in rw e (omega arith)
pow_sum i (suc j) =
    let e : i + suc j ≡ suc (i + j) = omega arith in
    rw e (
      omega (
        arith,
        pow-suc 2 (i + j),
        pow-suc 2 j,
        pow_sum i j,
        ap (λ (t : ℕ). 2 ^ i * t) (pow-suc 2 j),
      ))

pow_split : (j : ℕ) → j ≤ 32 → u32 ≡ 2 ^ (32 - j) * 2 ^ j
pow_split j h =
    let e : (32 - j) + j ≡ 32 = omega arith in ap (λ (n : ℕ). 2 ^ n) (sym e) ∙ pow_sum (32 - j) j

-- The network of an address lies within the 32 bits: its size divides 2 ^ 32.
pub masked-lt : (p : Prefix) → p.addr < u32 → masked p + hosts p.bits ≤ u32
unfolding masked
masked-lt p small =
    let j : ℕ = 32 - p.bits in
    let whole : u32 ≡ 2 ^ (32 - j) * hosts p.bits = pow_split j (omega arith) in
    let q : ℕ = p.addr / hosts p.bits in
    let below : q < 2 ^ (32 - j) =
      (div-lt_iff_lt-mul {k = hosts p.bits} {x = p.addr} {y = 2 ^ (32 - j)}
          (hosts_bounds p.bits).0).1
        (rw (← whole) small) in
    let scaled : suc q * hosts p.bits ≤ 2 ^ (32 - j) * hosts p.bits =
      mul-le-mul_right (hosts p.bits) below in
    omega (arith, whole, scaled)
