-- ===== src/Cache/Writes.antt =====
-- `Set` and `Delete` against the abstract cache.
use mini_ss.Common.{
  ℕ, suc, ◌+◌, ◌≡◌, ◌≤◌, ◌<◌, refl, sym, ap, subst, ◌∙◌, inl, inr, false, List, [], ◌∷◌, ◌++◌, none,
  some, ◌==◌, length, arith, Option-cases, Bool-cases, List-cases, ==_iff,
}
use mini_ss.Common.Dict.{Comparable}
use mini_ss.Stream.{Outcome, ok}
use mini_ss.Cache.LinkedList.{value_at, drop_handle, length-drop_handle_at, drop_handle_absent}
use mini_ss.Cache.Defs.{
  CacheEntry, LruCache, Evicting, delete_element, refresh, push_entry, set_new, set, delete_key,
}
use mini_ss.Cache.Spec.{entry_of, without, eviction, spec_set, stamped}
use mini_ss.Cache.Index.{
  Elems, entries, handle_of, IsDistinct, handle_of-entry_of, element_of, handle_of-drop_handle,
  without_absent,
}
use mini_ss.Cache.Refinement.{
  IsCache, view, view-delete_element, delete_element-IsCache, view-refresh, refresh-IsCache,
  view-push_entry, push_entry-IsCache, evicted-delete_element,
}

module _ {ℓ} {K V : Type ℓ} ⦃c : Comparable K⦄ where
  -- `r` succeeds with a cache in its invariant whose entries and evictions are these.
  abbrev pub Yields : Outcome (Evicting K V) → List (CacheEntry K V) × List (K × V) → Type ℓ
  Yields r step = (l' : LruCache K V) × (r ≡ ok (l', step.1)) × IsCache l' × (view l' ≡ step.0)

  length-entries : (xs : Elems K V) → length (entries xs) ≡ length xs
  length-entries [] = refl
  length-entries (x ∷ xs) = ap suc (length-entries xs)

  module _ (l : LruCache K V) (v : IsCache l) (now : ℕ) (key : K) (value : V) where
    set_old :
        (h : ℕ)
        → handle_of l.lru.elems key ≡ some h
        → Yields (set l now key value) (spec_set l.opts (view l) now key value)
    unfolding set spec_set
    set_old h at =
        let (e, holds, entry, named) = element_of l.lru.elems key v.distinct at in
        let e' : CacheEntry K V = record e { value = value; expires = now + l.opts.expiration } in
        let written : e' ≡ stamped l.opts now key value = ground (arith, named) in
        (
          refresh l h e',
          ground (arith, v.linked key, at, holds, entry),
          refresh-IsCache l v key h e at holds named e' named,
          ground (arith, entry, written, view-refresh l v key h e at holds named e' named),
        )

    set_room :
        handle_of l.lru.elems key ≡ none
        → (length l.lru.elems == l.opts.max_size) ≡ false
        → Yields (set l now key value) (spec_set l.opts (view l) now key value)
    unfolding set spec_set set_new
    set_room absent room = (
      push_entry l now key value,
      ground (
        arith,
        v.linked key,
        absent,
        room,
        handle_of-entry_of l.lru.elems key absent,
        length-entries l.lru.elems,
      ),
      push_entry-IsCache l v now key value absent (ground (arith, v.bounded)),
      ground (
        arith,
        absent,
        room,
        handle_of-entry_of l.lru.elems key absent,
        view-push_entry l v now key value absent,
        length-entries l.lru.elems,
      ),
    )

  -- The element at the front is found under its key and its handle, and dropping it leaves the rest.
  front_element :
      (x : ℕ × CacheEntry K V) (rest : Elems K V)
      → IsDistinct (x ∷ rest)
      → (handle_of (x ∷ rest) (x.1).key ≡ some x.0)
        × (value_at (x ∷ rest) x.0 ≡ some x.1)
        × (drop_handle (x ∷ rest) x.0 ≡ rest)
  unfolding handle_of value_at drop_handle
  front_element x rest d = (
    ground (arith, c.same_iff (x.1).key (x.1).key),
    ground arith,
    ground (arith, drop_handle_absent rest x.0 d.0),
  )

  delete_element_parts :
      (l : LruCache K V) (h : ℕ) (e : CacheEntry K V)
      → ((delete_element l h e).0.lru.elems ≡ drop_handle l.lru.elems h)
        × ((delete_element l h e).0.opts ≡ l.opts)
  unfolding delete_element
  delete_element_parts l h e = (refl, refl)

  module _ (l : LruCache K V) (v : IsCache l) (now : ℕ) (key : K) (value : V)
      (absent : handle_of l.lru.elems key ≡ none)
      (full : length l.lru.elems ≡ l.opts.max_size) where
    set_full :
        (x : ℕ × CacheEntry K V) (rest : Elems K V)
        → l.lru.elems ≡ x ∷ rest
        → Yields (set l now key value) (spec_set l.opts (view l) now key value)
    unfolding set spec_set set_new
    set_full x rest shape =
        let (at', holds', dropped') = front_element x rest (subst IsDistinct shape v.distinct) in
        let at : handle_of l.lru.elems (x.1).key ≡ some x.0 = rw shape at' in
        let holds : value_at l.lru.elems x.0 ≡ some x.1 = rw shape holds' in
        let l1 : LruCache K V = (delete_element l x.0 x.1).0 in
        let v1 : IsCache l1 = delete_element-IsCache l v (x.1).key x.0 x.1 at holds refl in
        let (left, same) = delete_element_parts l x.0 x.1 in
        let dropped : l1.lru.elems ≡ rest = left ∙ (rw shape dropped') in
        let rest_view : view l1 ≡ entries rest = ap (λ (xs : Elems K V). entries xs) dropped in
        let absent1 : handle_of l1.lru.elems key ≡ none = rw left (
          handle_of-drop_handle l.lru.elems (x.1).key key v.distinct at ∙ ground (arith, absent)) in
        let room : suc (length l1.lru.elems) ≤ l1.opts.max_size =
          rw (same, left)
            (omega (arith, length-drop_handle_at l.lru.elems x.0 x.1 holds, v.bounded)) in
        let view_full : view l ≡ x.1 ∷ entries rest = ap (λ (xs : Elems K V). entries xs) shape in
        let size : length (view l) ≡ l.opts.max_size = length-entries l.lru.elems ∙ full in
        let missing : entry_of (view l) key ≡ none = handle_of-entry_of l.lru.elems key absent in
        let spec : spec_set l.opts (view l) now key value
            ≡ (entries rest ++ stamped l.opts now key value ∷ [], eviction l.opts x.1) =
          ground (arith, missing, size, view_full) in
        (
          push_entry l1 now key value,
          ground (arith, v.linked key, absent, full, shape, spec, evicted-delete_element l x.0 x.1),
          push_entry-IsCache l1 v1 now key value absent1 room,
          ground (arith, view-push_entry l1 v1 now key value absent1, rest_view, same, spec),
        )

  -- `Set` yields what the abstract cache does, where `maxSize` is not 0: it never panics, keeps the
  -- invariant, and evicts the least recently used entry exactly where a new key meets a full cache.
  pub set-Yields :
      (l : LruCache K V) (now : ℕ) (key : K) (value : V)
      → IsCache l
      → 0 < l.opts.max_size
      → Yields (set l now key value) (spec_set l.opts (view l) now key value)
  set-Yields l now key value v positive = elim (Option-cases (handle_of l.lru.elems key)) [
    | inr (h, at) ↦ set_old l v now key value h at
    | inl absent ↦ elim (Bool-cases (length l.lru.elems == l.opts.max_size)) [
      | inr room ↦ set_room l v now key value absent room
      | inl full ↦
          let size : length l.lru.elems ≡ l.opts.max_size = (==_iff _ _).0 full in
          elim (List-cases l.lru.elems) [
            | inl empty ↦ absurd (omega (arith, ap length empty, size, positive))
            | inr (x, rest, shape) ↦ set_full l v now key value absent size x rest shape
          ]
    ]
  ]

  -- `Delete` removes the key and nothing else, and keeps the invariant.
  pub delete_key-IsCache :
      (l : LruCache K V) (key : K)
      → IsCache l
      → IsCache (delete_key l key).0 × (view (delete_key l key).0 ≡ without (view l) key)
  unfolding delete_key
  delete_key-IsCache l key v = elim (Option-cases (handle_of l.lru.elems key)) [
    | inl absent ↦
        let gives : (delete_key l key).0 ≡ l = ground (arith, absent, v.linked key) in
        rw gives (v, sym (without_absent (view l) key (handle_of-entry_of l.lru.elems key absent)))
    | inr (h, at) ↦
        let (e, holds, entry, named) = element_of l.lru.elems key v.distinct at in
        let gives : delete_key l key ≡ delete_element l h e =
          ground (arith, at, v.linked key, holds) in
        rw gives (
          delete_element-IsCache l v key h e at holds named,
          view-delete_element l v key h e at holds named,
        )
  ]
