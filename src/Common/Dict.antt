-- ===== src/Common/Dict.antt =====
-- Go's maps as association lists over keys that can be compared, and the laws of their operations.
use Prim.Native.Nat.{ℕ}
use mathlib.Core.Path.{◌≡◌, refl}
use mathlib.Core.Logic.{◌↔◌}
use mathlib.Core.Bool.{Bool, true}
use mathlib.Core.Option.{Option, none, some}
use mathlib.Core.List.{List, [], ◌∷◌}
use native.Mathlib.Omega.{arith}
use mini_ss.Common.Tests.{◌==◌, ==_iff, if◌then◌else◌}

-- Go's `comparable`: the test `==` of a type, which decides its equality.
pub record Comparable {ℓ} (K : Type ℓ) : Type ℓ where
  pub same : K → K → Bool
  pub same_iff : (a b : K) → (same a b ≡ true) ↔ (a ≡ b)

instance abbrev pub ℕ_comparable : Comparable ℕ
ℕ_comparable = record { same = ◌==◌; same_iff = ==_iff }

module _ {ℓ κ} {K : Type ℓ} {V : Type κ} ⦃c : Comparable K⦄ where
  -- `m[k]`
  unfoldable pub find : List (K × V) → K → Option V
  find [] k = none
  find (e ∷ m) k = if c.same e.0 k then some e.1 else find m k

  -- `m[k] = v`
  unfoldable pub store : List (K × V) → K → V → List (K × V)
  store [] k v = (k, v) ∷ []
  store (e ∷ m) k v = if c.same e.0 k then (k, v) ∷ m else e ∷ store m k v

  -- `delete(m, k)`
  unfoldable pub delete : List (K × V) → K → List (K × V)
  delete [] k = []
  delete (e ∷ m) k = let rest = delete m k in if c.same e.0 k then rest else e ∷ rest

  pub find-store :
      (m : List (K × V)) (k : K) (v : V) (q : K)
      → find (store m k v) q ≡ (if c.same k q then some v else find m q)
  unfolding find store
  find-store [] k v q = refl
  find-store (e ∷ m) k v q =
      ground (arith, find-store m k v q, c.same_iff k q, c.same_iff e.0 q, c.same_iff e.0 k)

  pub find-delete :
      (m : List (K × V)) (k q : K) → find (delete m k) q ≡ (if c.same k q then none else find m q)
  unfolding find delete
  find-delete [] k q = ground arith
  find-delete (e ∷ m) k q =
      ground (arith, find-delete m k q, c.same_iff k q, c.same_iff e.0 q, c.same_iff e.0 k)
