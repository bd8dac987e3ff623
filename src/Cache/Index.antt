-- ===== src/Cache/Index.antt =====
-- The list of elements and the map of handles describe one list of entries.
use mini_ss.Common.{
  ℕ, suc, ◌≡◌, ◌<◌, ◌≢◌, refl, ◌∙◌, inl, inr, List, [], ◌∷◌, ◌++◌, Option, none, some, ◌==◌,
  if◌then◌else◌, map, arith, Bool-cases,
}
use mini_ss.Common.Dict.{Comparable}
use mini_ss.Cache.LinkedList.{value_at, drop_handle, drop_handle_absent, value_at-drop_handle}
use mini_ss.Cache.Defs.{CacheEntry}
use mini_ss.Cache.Spec.{entry_of, without}

abbrev pub Elems {ℓ} : Type ℓ → Type ℓ → Type ℓ
Elems K V = List (ℕ × CacheEntry K V)

-- Every handle is below `n`.
abbrev pub Below {ℓ} : {A : Type ℓ} → ℕ → List (ℕ × A) → Type 0
Below n [] = Unit
Below n (x ∷ xs) = (x.0 < n) × Below n xs

module _ {ℓ} {K V : Type ℓ} where
  abbrev pub entries : Elems K V → List (CacheEntry K V)
  entries = map (λ x. x.1)

module _ {ℓ} {K V : Type ℓ} ⦃c : Comparable K⦄ where
  -- The handle of the first element with a key.
  unfoldable pub handle_of : Elems K V → K → Option ℕ
  handle_of [] k = none
  handle_of (x ∷ xs) k = if c.same (x.1).key k then some x.0 else handle_of xs k

  -- No handle and no key occurs twice.
  abbrev pub IsDistinct : Elems K V → Type ℓ
  IsDistinct [] = Unit
  IsDistinct (x ∷ xs) = (value_at xs x.0 ≡ none) × (handle_of xs (x.1).key ≡ none) × IsDistinct xs

  pub handle_of-entry_of :
      (xs : Elems K V) (k : K) → handle_of xs k ≡ none → entry_of (entries xs) k ≡ none
  unfolding handle_of entry_of
  handle_of-entry_of [] k e = refl
  handle_of-entry_of (x ∷ xs) k e = ground (arith, handle_of-entry_of xs k)

  -- The element of a key.
  pub element_of :
      (xs : Elems K V) (k : K) {h : ℕ}
      → IsDistinct xs
      → handle_of xs k ≡ some h
      → (e : CacheEntry K V) × (value_at xs h ≡ some e)
        × (entry_of (entries xs) k ≡ some e)
        × (e.key ≡ k)
  unfolding handle_of entry_of value_at
  element_of [] k d e = absurd (ground arith)
  element_of (x ∷ xs) k {h} d e = elim (Bool-cases (c.same (x.1).key k)) [
    | inl here ↦ (x.1, ground (arith, here), rw here, (c.same_iff _ k).0 here)
    | inr there ↦
        let found : handle_of xs k ≡ some h = ground (arith, there) in
        let (y, at, entry, key) = element_of xs k d.2 found in
        (y, ground (arith, at, d.0), rw (there, entry), key)
  ]

  handle_of-drop_handle-none :
      (xs : Elems K V) (h : ℕ) (k : K)
      → handle_of xs k ≡ none
      → handle_of (drop_handle xs h) k ≡ none
  unfolding handle_of drop_handle
  handle_of-drop_handle-none [] h k e = refl
  handle_of-drop_handle-none (x ∷ xs) h k e = ground (arith, handle_of-drop_handle-none xs h k)

  pub drop_handle-IsDistinct :
      (xs : Elems K V) (h : ℕ) → IsDistinct xs → IsDistinct (drop_handle xs h)
  unfolding drop_handle
  drop_handle-IsDistinct [] h d = tt
  drop_handle-IsDistinct (x ∷ xs) h d = elim (Bool-cases (x.0 == h)) [
    | inl here ↦ rw here (drop_handle-IsDistinct xs h d.2)
    | inr there ↦ rw there (
      ground (arith, value_at-drop_handle xs h x.0, d.0),
      handle_of-drop_handle-none xs h _ d.1,
      drop_handle-IsDistinct xs h d.2,
    )
  ]

  pub drop_handle-Below : (n : ℕ) (xs : Elems K V) (h : ℕ) → Below n xs → Below n (drop_handle xs h)
  unfolding drop_handle
  drop_handle-Below n [] h b = tt
  drop_handle-Below n (x ∷ xs) h b = elim (Bool-cases (x.0 == h)) [
    | inl here ↦ rw here (drop_handle-Below n xs h b.1)
    | inr there ↦ rw there (b.0, drop_handle-Below n xs h b.1)
  ]

  pub without_absent :
      (es : List (CacheEntry K V)) (k : K) → entry_of es k ≡ none → without es k ≡ es
  unfolding without entry_of
  without_absent [] k e = refl
  without_absent (x ∷ es) k e = ground (arith, without_absent es k)

  -- To drop the element of a key is to drop the key.
  pub drop_handle-without :
      (xs : Elems K V) (k : K) {h : ℕ}
      → IsDistinct xs
      → handle_of xs k ≡ some h
      → entries (drop_handle xs h) ≡ without (entries xs) k
  unfolding handle_of drop_handle without
  drop_handle-without [] k d e = refl
  drop_handle-without (x ∷ xs) k {h} d e = elim (Bool-cases (c.same (x.1).key k)) [
    | inl here ↦
        let same_handle : x.0 ≡ h = ground (arith, here) in
        ground (
          arith,
          here,
          same_handle,
          drop_handle_absent xs x.0 d.0,
          without_absent (entries xs) k
              (rw (← (c.same_iff _ k).0 here) (handle_of-entry_of xs _ d.1)),
        )
    | inr there ↦
        let found : handle_of xs k ≡ some h = ground (arith, there) in
        let (y, at, entry, key) = element_of xs k d.2 found in
        let ih = drop_handle-without xs k d.2 found in ground (arith, there, ih, at, d.0)
  ]

  -- What the map must say after the element of a key was dropped.
  pub handle_of-drop_handle :
      (xs : Elems K V) (k q : K) {h : ℕ}
      → IsDistinct xs
      → handle_of xs k ≡ some h
      → handle_of (drop_handle xs h) q ≡ (if c.same k q then none else handle_of xs q)
  unfolding handle_of drop_handle
  handle_of-drop_handle [] k q d e = absurd (ground arith)
  handle_of-drop_handle (x ∷ xs) k q {h} d e = elim (Bool-cases (c.same (x.1).key k)) [
    | inl here ↦
        let same_handle : x.0 ≡ h = ground (arith, here) in
        let key : (x.1).key ≡ k = (c.same_iff _ k).0 here in
        let gone : handle_of xs k ≡ none = rw (← key) d.1 in
        ground (
          arith,
          here,
          same_handle,
          drop_handle_absent xs x.0 d.0,
          c.same_iff k q,
          c.same_iff (x.1).key q,
          gone,
        )
    | inr there ↦
        let found : handle_of xs k ≡ some h = ground (arith, there) in
        let (y, at, entry, key) = element_of xs k d.2 found in
        let ih = handle_of-drop_handle xs k q d.2 found in
        ground (
          arith,
          there,
          ih,
          at,
          d.0,
          c.same_iff k q,
          c.same_iff (x.1).key q,
          c.same_iff (x.1).key k,
        )
  ]

  pub handle_of-append :
      (xs : Elems K V) (h : ℕ) (e : CacheEntry K V) (q : K)
      → handle_of (xs ++ (h, e) ∷ []) q
        ≡ elim (handle_of xs q) [ none ↦ if c.same e.key q then some h else none | some g ↦ some g ]
  unfolding handle_of
  handle_of-append [] h e q = ground arith
  handle_of-append (x ∷ xs) h e q = ground (arith, handle_of-append xs h e q)

  value_at_last :
      (xs : Elems K V) (h g : ℕ) (e : CacheEntry K V)
      → value_at xs g ≡ none
      → g ≢ h
      → value_at (xs ++ (h, e) ∷ []) g ≡ none
  unfolding value_at
  value_at_last [] h g e a n = ground arith
  value_at_last (x ∷ xs) h g e a n = ground (arith, value_at_last xs h g e)

  -- A new element at the back, with a handle and a key that are not there.
  pub append-IsDistinct :
      (xs : Elems K V) (h : ℕ) (e : CacheEntry K V)
      → IsDistinct xs
      → value_at xs h ≡ none
      → handle_of xs e.key ≡ none
      → IsDistinct (xs ++ (h, e) ∷ [])
  unfolding value_at handle_of
  append-IsDistinct [] h e d a b = (refl, refl, tt)
  append-IsDistinct (x ∷ xs) h e d a b = (
    value_at_last xs h x.0 e d.0 (ground arith),
    handle_of-append xs h e (x.1).key
        ∙ ground (arith, d.1, c.same_iff e.key (x.1).key, c.same_iff (x.1).key e.key),
    append-IsDistinct xs h e d.2 (ground arith) (ground arith),
  )

  pub append-Below :
      (n : ℕ) (xs : Elems K V) (h : ℕ) (e : CacheEntry K V)
      → Below n xs
      → h < n
      → Below n (xs ++ (h, e) ∷ [])
  append-Below n [] h e b l = (l, tt)
  append-Below n (x ∷ xs) h e b l = (b.0, append-Below n xs h e b.1 l)

  pub Below-suc : (n : ℕ) (xs : Elems K V) → Below n xs → Below (suc n) xs
  Below-suc n [] b = tt
  Below-suc n (x ∷ xs) b = (omega (arith, b.0), Below-suc n xs b.1)

  -- The handle that is given next is new.
  pub value_at-Below : (n : ℕ) (xs : Elems K V) → Below n xs → value_at xs n ≡ none
  unfolding value_at
  value_at-Below n [] b = refl
  value_at-Below n (x ∷ xs) b = ground (arith, b.0, value_at-Below n xs b.1)

  pub Below-at :
      (n : ℕ) (xs : Elems K V) (h : ℕ) (e : CacheEntry K V)
      → Below n xs
      → value_at xs h ≡ some e
      → h < n
  unfolding value_at
  Below-at n [] h e b q = absurd (ground arith)
  Below-at n (x ∷ xs) h e b q = ground (arith, b.0, Below-at n xs h e b.1)
