-- ===== src/Cache/Refinement.antt =====
-- The invariant of the cache, and that `Get`, `Set` and `Delete` keep it and do what the abstract
-- cache does.
use mathlib.Core.List.{map-append}
use mini_ss.Common.{
  ℕ, suc, ◌+◌, ◌≡◌, ◌≤◌, refl, sym, ap, ◌∙◌, inl, inr, List, [], ◌∷◌, ◌++◌, none, some, length,
  arith, Option-cases, Bool-cases, leb, length-append,
}
use mini_ss.Common.Dict.{Comparable, find, find-store, find-delete}
use mini_ss.Stream.{Outcome}
use mini_ss.Cache.LinkedList.{
  value_at, drop_handle, value_at-drop_handle, value_at-update_at, length-drop_handle,
  length-drop_handle_at,
}
use mini_ss.Cache.Defs.{
  CacheEntry, LruCache, Evicting, delete_element, refresh, get_element, get, push_entry,
}
use mini_ss.Cache.Spec.{without, eviction, spec_get, stamped}
use mini_ss.Cache.Index.{
  Below, entries, handle_of, IsDistinct, handle_of-entry_of, element_of, drop_handle-IsDistinct,
  drop_handle-Below, drop_handle-without, handle_of-drop_handle, handle_of-append,
  append-IsDistinct, append-Below, Below-suc, value_at-Below, Below-at,
}

module _ {ℓ} {K V : Type ℓ} ⦃c : Comparable K⦄ where
  -- The map gives the handle of the element with a key; no key and no handle occurs twice; the
  -- next handle is new; and there are at most `maxSize` elements.
  pub record IsCache (l : LruCache K V) : Type ℓ where
    pub linked : (k : K) → find l.cache k ≡ handle_of l.lru.elems k
    pub distinct : IsDistinct l.lru.elems
    pub fresh : Below l.lru.next l.lru.elems
    pub bounded : length l.lru.elems ≤ l.opts.max_size

  abbrev pub view : LruCache K V → List (CacheEntry K V)
  view l = entries l.lru.elems

  module _ (l : LruCache K V) (v : IsCache l) (k : K) (h : ℕ) (e : CacheEntry K V)
      (at : handle_of l.lru.elems k ≡ some h) (holds : value_at l.lru.elems h ≡ some e)
      (named : e.key ≡ k) where
    pub view-delete_element : view (delete_element l h e).0 ≡ without (view l) k
    unfolding delete_element
    view-delete_element = drop_handle-without l.lru.elems k v.distinct at

    pub delete_element-IsCache : IsCache (delete_element l h e).0
    unfolding delete_element
    delete_element-IsCache = record {
      linked = λ q. ground (
        arith,
        named,
        find-delete l.cache e.key q,
        v.linked q,
        handle_of-drop_handle l.lru.elems k q v.distinct at,
      );
      distinct = drop_handle-IsDistinct l.lru.elems h v.distinct;
      fresh = drop_handle-Below l.lru.next l.lru.elems h v.fresh;
      bounded = omega (arith, length-drop_handle l.lru.elems h, v.bounded);
    }

    module _ (e' : CacheEntry K V) (named' : e'.key ≡ k) where
      refresh_elems : refresh l h e' ≡ record l {
        lru = record { next = l.lru.next; elems = drop_handle l.lru.elems h ++ (h, e') ∷ [] };
      }
      unfolding refresh
      refresh_elems = ground (arith, value_at-update_at l.lru.elems h e' e holds)

      pub view-refresh : view (refresh l h e') ≡ without (view l) k ++ e' ∷ []
      view-refresh = rw refresh_elems (
          map-append (λ (x : ℕ × CacheEntry K V). x.1) (drop_handle l.lru.elems h) ((h, e') ∷ [])
          ∙ ap (λ es. es ++ e' ∷ []) (drop_handle-without l.lru.elems k v.distinct at))

      pub refresh-IsCache : IsCache (refresh l h e')
      refresh-IsCache = rw refresh_elems (record {
        linked = λ q.
            v.linked q
            ∙ sym (
                handle_of-append (drop_handle l.lru.elems h) h e' q
                ∙ ground (
                  arith,
                  named',
                  handle_of-drop_handle l.lru.elems k q v.distinct at,
                  at,
                  c.same_iff k q,
                ));
        distinct =
            append-IsDistinct (drop_handle l.lru.elems h) h e'
              (drop_handle-IsDistinct l.lru.elems h v.distinct)
              (value_at-drop_handle l.lru.elems h h ∙ ground arith)
              (rw named' (
                handle_of-drop_handle l.lru.elems k k v.distinct at
                ∙ ground (arith, c.same_iff k k)));
        fresh =
            append-Below l.lru.next (drop_handle l.lru.elems h) h e'
              (drop_handle-Below l.lru.next l.lru.elems h v.fresh)
              (Below-at l.lru.next l.lru.elems h e v.fresh holds);
        bounded = omega (
          arith,
          length-append (drop_handle l.lru.elems h) ((h, e') ∷ []),
          length-drop_handle_at l.lru.elems h e holds,
          v.bounded,
        );
      })

  -- A new key, where there is room.
  module _ (l : LruCache K V) (v : IsCache l) (now : ℕ) (key : K) (value : V)
      (absent : handle_of l.lru.elems key ≡ none) where
    pub view-push_entry :
        view (push_entry l now key value) ≡ view l ++ stamped l.opts now key value ∷ []
    unfolding push_entry
    view-push_entry =
        map-append (λ (x : ℕ × CacheEntry K V). x.1) l.lru.elems
          ((l.lru.next, stamped l.opts now key value) ∷ [])

    pub push_entry-IsCache :
        suc (length l.lru.elems) ≤ l.opts.max_size → IsCache (push_entry l now key value)
    unfolding push_entry
    push_entry-IsCache room = record {
      linked = λ q.
          find-store l.cache key l.lru.next q
          ∙ sym (
              handle_of-append l.lru.elems l.lru.next (stamped l.opts now key value) q
              ∙ ground (arith, v.linked q, absent, c.same_iff key q));
      distinct =
          append-IsDistinct l.lru.elems l.lru.next (stamped l.opts now key value) v.distinct
            (value_at-Below l.lru.next l.lru.elems v.fresh) absent;
      fresh =
          append-Below (suc l.lru.next) l.lru.elems l.lru.next (stamped l.opts now key value)
            (Below-suc l.lru.next l.lru.elems v.fresh) (omega arith);
      bounded = omega (
        arith,
        room,
        length-append l.lru.elems ((l.lru.next, stamped l.opts now key value) ∷ []),
      );
    }

  pub evicted-delete_element :
      (l : LruCache K V) (h : ℕ) (e : CacheEntry K V) → (delete_element l h e).1 ≡ eviction l.opts e
  unfolding delete_element
  evicted-delete_element l h e = refl

  -- What an operation does, on the entries alone.
  abbrev pub seen_get : Outcome V × Evicting K V → Outcome V × List (CacheEntry K V) × List (K × V)
  seen_get r = (r.0, view (r.1).0, (r.1).1)

  -- `Get` answers, changes the entries and evicts as the abstract cache does.
  pub get-spec_get :
      (l : LruCache K V) (now : ℕ) (key : K)
      → IsCache l
      → seen_get (get l now key) ≡ spec_get l.opts (view l) now key
  unfolding get spec_get get_element
  get-spec_get l now key v = elim (Option-cases (handle_of l.lru.elems key)) [
    | inl absent ↦ ground (arith, absent, v.linked key, handle_of-entry_of l.lru.elems key absent)
    | inr (h, at) ↦
        let (e, holds, entry, named) = element_of l.lru.elems key v.distinct at in
        ground (
          arith,
          v.linked key,
          at,
          holds,
          entry,
          named,
          evicted-delete_element l h e,
          view-delete_element l v key h e at holds named,
          view-refresh l v key h e at holds named e named,
          view-refresh l v key h e at holds named (record e { expires = now + l.opts.expiration })
              named,
        )
  ]

  get_cases :
      (P : LruCache K V → Type ℓ) (l : LruCache K V) (now h : ℕ) (e : CacheEntry K V)
      → P l
      → P (delete_element l h e).0
      → ((e' : CacheEntry K V) → e'.key ≡ e.key → P (refresh l h e'))
      → P ((get_element l now h (some e)).1).0
  unfolding get_element
  get_cases P l now h e same deleted refreshed = elim (Bool-cases (leb e.expires now)) [
    | inl old ↦ simp old (elim (Bool-cases l.opts.delete_exp_cache_on_get) [
      | inl on ↦ simp on deleted
      | inr off ↦ simp off same
    ])
    | inr young ↦ simp young (elim (Bool-cases l.opts.update_cache_exp_on_get) [
      | inl on ↦ simp on (refreshed _ refl)
      | inr off ↦ simp off (refreshed e refl)
    ])
  ]

  -- `Get` keeps the invariant.
  pub get-IsCache :
      (l : LruCache K V) (now : ℕ) (key : K) → IsCache l → IsCache ((get l now key).1).0
  unfolding get
  get-IsCache l now key v = elim (Option-cases (handle_of l.lru.elems key)) [
    | inl absent ↦
        let gives : ((get l now key).1).0 ≡ l = ground (arith, absent, v.linked key) in rw gives v
    | inr (h, at) ↦
        let (e, holds, entry, named) = element_of l.lru.elems key v.distinct at in
        let gives : get l now key ≡ get_element l now h (some e) =
          ground (arith, v.linked key, at, holds) in
        rw gives (
          get_cases IsCache l now h e v (delete_element-IsCache l v key h e at holds named)
            λ e' same. refresh-IsCache l v key h e at holds named e' (same ∙ named))
  ]
