-- ===== src/Resolver/Pool/Flags.antt =====
-- The flag slice of the pool: what a search and a write do to the number of free flags.
use mini_ss.Common.{
  ℕ, zero, suc, ◌<◌, ◌≡◌, refl, ap, inl, inr, Bool, true, false, none, some, List, [], ◌∷◌, arith,
  length, get_or, set, replicate, if◌then◌else◌, Option-cases,
}
use mini_ss.Resolver.Pool.Defs.{count_free, first_free}

pub first_free-some :
    (fs : List Bool) {i : ℕ} → first_free fs ≡ some i → (get_or fs i true ≡ false) × (i < length fs)
unfolding first_free
first_free-some [] e = cc
first_free-some (true ∷ fs) {i} e = elim (Option-cases (first_free fs)) [
  | inl n ↦ ground (arith, n)
  | inr (j, q) ↦ let ih = first_free-some fs q in ground (arith, q, ih)
]
first_free-some (false ∷ fs) e = ground arith

pub first_free-none : (fs : List Bool) → first_free fs ≡ none → count_free fs ≡ 0
unfolding first_free count_free
first_free-none [] e = refl
first_free-none (true ∷ fs) e = ground (arith, first_free-none fs)
first_free-none (false ∷ fs) e = ground arith

pub full_flags : (fs : List Bool) (i : ℕ) → count_free fs ≡ 0 → get_or fs i true ≡ true
unfolding count_free
full_flags [] i e = refl
full_flags (true ∷ fs) zero e = refl
full_flags (true ∷ fs) (suc i) e = full_flags fs i e
full_flags (false ∷ fs) i e = absurd (omega arith)

-- A read outside of the slice gives the default.
pub in_range : (fs : List Bool) (i : ℕ) → get_or fs i true ≡ false → i < length fs
in_range [] i e = cc
in_range (b ∷ fs) zero e = omega arith
in_range (b ∷ fs) (suc i) e = omega (arith, in_range fs i e)

pub count_free-take :
    (fs : List Bool) (i : ℕ)
    → get_or fs i true ≡ false
    → count_free fs ≡ suc (count_free (set fs i true))
unfolding count_free
count_free-take [] i e = cc
count_free-take (b ∷ fs) zero e = ground arith
count_free-take (true ∷ fs) (suc i) e = count_free-take fs i e
count_free-take (false ∷ fs) (suc i) e = ap suc (count_free-take fs i e)

pub count_free-put :
    (fs : List Bool) (i : ℕ)
    → i < length fs
    → count_free (set fs i false)
      ≡ (if get_or fs i true then suc (count_free fs) else count_free fs)
unfolding count_free
count_free-put [] i h = elim h [ ]
count_free-put (true ∷ fs) zero h = refl
count_free-put (false ∷ fs) zero h = refl
count_free-put (true ∷ fs) (suc i) h = count_free-put fs i (omega arith)
count_free-put (false ∷ fs) (suc i) h = ground (arith, count_free-put fs i (omega arith))

pub count_free-replicate : (n : ℕ) → count_free (replicate n false) ≡ n
unfolding count_free
count_free-replicate zero = refl
count_free-replicate (suc n) = ap suc (count_free-replicate n)
