-- ===== src/Cache/Cleanup.antt =====
-- The background cleanup removes the expired entries and no other.
use mini_ss.Common.{
  ℕ, ◌≡◌, refl, sym, ap, ◌∙◌, inl, inr, Bool, true, false, List, [], ◌∷◌, some, ◌==◌, ◌||◌,
  if◌then◌else◌, arith, Option-cases, Bool-cases, ==_iff, leb,
}
use mini_ss.Common.Dict.{Comparable, find}
use mini_ss.Cache.LinkedList.{value_at, drop_handle, value_at-drop_handle, drop_handle_absent}
use mini_ss.Cache.Defs.{CacheEntry, LruCache, delete_element, cleanup_step, cleanup}
use mini_ss.Cache.Index.{Elems, entries, handle_of, IsDistinct}
use mini_ss.Cache.Refinement.{IsCache, view, delete_element-IsCache}

-- The entries that have not expired at `now`.
unfoldable pub unexpired {ℓ} : {K V : Type ℓ} → ℕ → List (CacheEntry K V) → List (CacheEntry K V)
unexpired now [] = []
unexpired now (e ∷ es) = if leb e.expires now then unexpired now es else e ∷ unexpired now es

abbrev pub has : List ℕ → ℕ → Bool
has [] h = false
has (x ∷ xs) h = x == h || has xs h

module _ {ℓ} {K V : Type ℓ} ⦃c : Comparable K⦄ where
  -- The element at a handle is the one of its key.
  pub handle_at :
      (xs : Elems K V) (h : ℕ) (e : CacheEntry K V)
      → IsDistinct xs
      → value_at xs h ≡ some e
      → handle_of xs e.key ≡ some h
  unfolding value_at handle_of
  handle_at [] h e d q = absurd (ground arith)
  handle_at (x ∷ xs) h e d q = elim (Bool-cases (x.0 == h)) [
    | inl here ↦
        let same : x.1 ≡ e = ground (arith, here) in
        ground (arith, here, same, c.same_iff e.key e.key)
    | inr there ↦
        let ih = handle_at xs h e d.2 (ground (arith, there)) in
        ground (arith, ih, d.1, c.same_iff (x.1).key e.key)
  ]

  -- Dropping an expired element changes nothing that has not expired.
  unexpired-drop_handle :
      (now : ℕ) (xs : Elems K V) (h : ℕ) (e : CacheEntry K V)
      → IsDistinct xs
      → value_at xs h ≡ some e
      → leb e.expires now ≡ true
      → unexpired now (entries (drop_handle xs h)) ≡ unexpired now (entries xs)
  unfolding value_at drop_handle unexpired
  unexpired-drop_handle now [] h e d q old = absurd (ground arith)
  unexpired-drop_handle now (x ∷ xs) h e d q old = elim (Bool-cases (x.0 == h)) [
    | inl here ↦
        let same : x.1 ≡ e = ground (arith, here) in
        let handle : x.0 ≡ h = (==_iff _ _).0 here in
        ground (arith, here, same, handle, drop_handle_absent xs x.0 d.0)
    | inr there ↦
        let found : value_at xs h ≡ some e = ground (arith, there) in
        ground (arith, there, unexpired-drop_handle now xs h e d.2 found old)
  ]

  -- Every element that has expired is still to be visited.
  abbrev Covers : ℕ → Elems K V → List ℕ → Type ℓ
  Covers now xs handles =
      (h : ℕ) (e : CacheEntry K V)
      → value_at xs h ≡ some e
      → leb e.expires now ≡ true
      → has handles h ≡ true

  all_unexpired :
      (now : ℕ) (xs : Elems K V)
      → IsDistinct xs
      → Covers now xs []
      → unexpired now (entries xs) ≡ entries xs
  unfolding value_at unexpired
  all_unexpired now [] d cover = refl
  all_unexpired now (x ∷ xs) d cover = elim (Bool-cases (leb (x.1).expires now)) [
    | inl old ↦ absurd (ground (arith, cover x.0 x.1 (ground arith) old))
    | inr young ↦
        let rest : Covers now xs [] = λ h e q old. cover h e (ground (arith, q, d.0)) old in
        ground (arith, young, all_unexpired now xs d.2 rest)
  ]

  -- One round: the invariant holds, what has not expired stays, and the element is dealt with.
  record Swept (now h : ℕ) (handles : List ℕ) (l l' : LruCache K V) : Type ℓ where
    valid : IsCache l'
    kept : unexpired now (view l') ≡ unexpired now (view l)
    covers : Covers now l'.lru.elems handles

  delete_element_elems :
      (l : LruCache K V) (h : ℕ) (e : CacheEntry K V)
      → (delete_element l h e).0.lru.elems ≡ drop_handle l.lru.elems h
  unfolding delete_element
  delete_element_elems l h e = refl

  cleanup_step-Swept :
      (l : LruCache K V) (now h : ℕ) (handles : List ℕ)
      → IsCache l
      → Covers now l.lru.elems (h ∷ handles)
      → Swept now h handles l (cleanup_step l now h).0
  unfolding cleanup_step
  cleanup_step-Swept l now h handles v cover = elim (Option-cases (value_at l.lru.elems h)) [
    | inl gone ↦
        let gives : (cleanup_step l now h).0 ≡ l = ground (arith, gone) in
        rw gives (record {
          valid = v;
          kept = refl;
          covers = λ g e q old. ground (arith, cover g e q old, gone, q);
        })
    | inr (e, at) ↦ elim (Bool-cases (leb e.expires now)) [
      | inl old ↦
          let gives : cleanup_step l now h ≡ delete_element l h e = ground (arith, at, old) in
          let elems = delete_element_elems l h e in
          rw gives (record {
            valid =
                delete_element-IsCache l v e.key h e (handle_at l.lru.elems h e v.distinct at) at
                  refl;
            kept =
                ap (λ (xs : Elems K V). unexpired now (entries xs)) elems
                ∙ unexpired-drop_handle now l.lru.elems h e v.distinct at old;
            covers = λ g a q late.
                let before = value_at-drop_handle l.lru.elems h g in
                let there : value_at (drop_handle l.lru.elems h) g ≡ some a = rw elems at q in
                ground (arith, before, there, cover g a);
          })
      | inr young ↦
          let gives : (cleanup_step l now h).0 ≡ l = ground (arith, at, young) in
          rw gives (record {
            valid = v;
            kept = refl;
            covers = λ g a q late. ground (arith, cover g a q late, at, young, q);
          })
    ]
  ]

  cleanup-Swept :
      (l : LruCache K V) (now : ℕ) (handles : List ℕ)
      → IsCache l
      → Covers now l.lru.elems handles
      → IsCache (cleanup l now handles).0
        × (view (cleanup l now handles).0 ≡ unexpired now (view l))
  unfolding cleanup
  cleanup-Swept l now [] v cover = (v, sym (all_unexpired now l.lru.elems v.distinct cover))
  cleanup-Swept l now (h ∷ handles) v cover =
      let s = cleanup_step-Swept l now h handles v cover in
      let rest = cleanup-Swept (cleanup_step l now h).0 now handles s.valid s.covers in
      (rest.0, rest.1 ∙ s.kept)

  -- Where every element of the map was collected, in whatever order, the cleanup leaves the entries
  -- that have not expired, in their order, and keeps the invariant.
  pub cleanup-IsCache :
      (l : LruCache K V) (now : ℕ) (handles : List ℕ)
      → IsCache l
      → ((key : K) (h : ℕ) → find l.cache key ≡ some h → has handles h ≡ true)
      → IsCache (cleanup l now handles).0
        × (view (cleanup l now handles).0 ≡ unexpired now (view l))
  cleanup-IsCache l now handles v collected =
      cleanup-Swept l now handles v
        (λ h e q old. collected e.key h (v.linked e.key ∙ handle_at l.lru.elems h e v.distinct q))
