-- ===== src/Ordmap/Laws.antt =====
-- What the map answers after each operation.
use mini_ss.Common.{
  Option, ℕ, suc, ◌<◌, ◌≡◌, refl, sym, ap, subst, ◌∙◌, inl, inr, false, [], ◌∷◌, none, some,
  if◌then◌else◌, arith, Option-cases, Bool-cases, ◌==◌,
}
use mini_ss.Common.Dict.{Comparable, find, delete, find-store, find-delete}
use mini_ss.Cache.LinkedList.{value_at, remove, value_at-drop_handle, value_at-append}
use mini_ss.Ordmap.Defs.{OrderedMap, list_of, store_entry, load, delete_entry}

module _ {ℓ} {K V : Type ℓ} ⦃c : Comparable K⦄ where
  -- The element that the map gives a key has that key, and it is in the list under its handle; and no
  -- element has the handle that comes next.
  pub record IsOrdered (m : OrderedMap K V) : Type ℓ where
    pub has_key :
        (k : K) (h : ℕ) (e : K × V)
        → find m.dict k ≡ some (h, e)
        → (e.0 ≡ k) × (value_at (list_of m).elems h ≡ some e)
    pub later : (h : ℕ) (e : K × V) → value_at (list_of m).elems h ≡ some e → h < (list_of m).next

  fresh : (m : OrderedMap K V) → IsOrdered m → value_at (list_of m).elems (list_of m).next ≡ none
  fresh m o = elim (Option-cases (value_at (list_of m).elems (list_of m).next)) [
    | inl none_there ↦ none_there
    | inr (e, there) ↦ absurd (ground (arith, o.later (list_of m).next e there))
  ]

  value_at-pushed :
      (m : OrderedMap K V) (k : K) (v : V) (h : ℕ)
      → IsOrdered m
      → value_at (list_of (store_entry m k v)).elems h
        ≡ (if (list_of m).next == h then some (k, v) else value_at (list_of m).elems h)
  unfolding store_entry value_at
  value_at-pushed m k v h o =
      ground
        (arith, fresh m o, value_at-append (list_of m).elems (((list_of m).next, (k, v)) ∷ []) h)

  -- The handle of a key is an older one.
  older :
      (m : OrderedMap K V) (k : K) (h : ℕ) (e : K × V)
      → IsOrdered m
      → find m.dict k ≡ some (h, e)
      → ((list_of m).next == h) ≡ false
  older m k h e o at = ground (arith, o.later h e (o.has_key k h e at).1)

  find-store_entry :
      (m : OrderedMap K V) (k : K) (v : V) (q : K)
      → find (store_entry m k v).dict q
        ≡ (if c.same k q then some ((list_of m).next, (k, v)) else find m.dict q)
  unfolding store_entry
  find-store_entry m k v q = find-store m.dict k ((list_of m).next, (k, v)) q

  -- After a Store the key has the value, and every other key has what it had.
  pub load-store_entry :
      (m : OrderedMap K V) (k : K) (v : V) (q : K)
      → load (store_entry m k v) q ≡ (if c.same k q then some v else load m q)
  unfolding load
  load-store_entry m k v q = elim (Bool-cases (c.same k q)) [
    | inl same ↦ ground (arith, same, find-store_entry m k v q)
    | inr other ↦ ground (arith, other, find-store_entry m k v q)
  ]

  -- After a Delete the key is gone, and every other key has what it had.
  pub load-delete_entry :
      (m : OrderedMap K V) (k q : K)
      → load (delete_entry m k) q ≡ (if c.same k q then none else load m q)
  unfolding load delete_entry
  load-delete_entry m k q = elim (Option-cases (find m.dict k)) [
    | inl absent ↦ ground (arith, absent, c.same_iff k q)
    | inr ((h, e), there) ↦ ground (arith, there, find-delete m.dict k q)
  ]

  next-store_entry :
      (m : OrderedMap K V) (k : K) (v : V)
      → (list_of (store_entry m k v)).next ≡ suc (list_of m).next
  unfolding store_entry
  next-store_entry m k v = refl

  -- Store keeps the invariant.
  pub store_entry-IsOrdered :
      (m : OrderedMap K V) (k : K) (v : V) → IsOrdered m → IsOrdered (store_entry m k v)
  store_entry-IsOrdered m k v o = record {
    has_key = λ q h e at.
        let stored = find-store_entry m k v q in
        elim (Bool-cases (c.same k q)) [
          | inl same ↦
              let made : ((list_of m).next, (k, v)) ≡ (h, e) = ground (arith, stored, at, same) in
              (
                sym (ap (λ (p : ℕ × (K × V)). p.1.0) made) ∙ (c.same_iff k q).0 same,
                subst
                    (λ (p : ℕ × (K × V)).
                      value_at (list_of (store_entry m k v)).elems p.0 ≡ some p.1)
                    made (ground (arith, value_at-pushed m k v (list_of m).next o)),
              )
          | inr other ↦
              let before : find m.dict q ≡ some (h, e) = ground (arith, stored, at, other) in
              let (named, held) = o.has_key q h e before in
              (named, ground (arith, value_at-pushed m k v h o, held, older m q h e o before))
        ];
    later = λ h e at.
        ground (arith, at, value_at-pushed m k v h o, o.later h e, next-store_entry m k v);
  }

  -- Delete keeps the invariant.
  delete_entry-IsOrdered : (m : OrderedMap K V) (k : K) → IsOrdered m → IsOrdered (delete_entry m k)
  unfolding delete_entry
  delete_entry-IsOrdered m k o = elim (Option-cases (find m.dict k)) [
    | inl absent ↦
        let stays : m ≡ delete_entry m k = ground (arith, absent) in
        subst (λ (x : OrderedMap K V). IsOrdered x) stays o
    | inr ((g, x), there) ↦
        let done : record { dict = delete m.dict k; ll = some (remove (list_of m) g) }
            ≡ delete_entry m k =
          ground (arith, there) in
        subst (λ (m' : OrderedMap K V). IsOrdered m') done (removed g x there)
  ]
    where
      removed :
          (g : ℕ) (x : K × V)
          → find m.dict k ≡ some (g, x)
          → IsOrdered (record { dict = delete m.dict k; ll = some (remove (list_of m) g) })
      removed g x there = record {
        has_key = λ q h e at.
            let gone = find-delete m.dict k q in
            let before : find m.dict q ≡ some (h, e) = ground (arith, gone, at) in
            let (name_x, at_g) = o.has_key k g x there in
            let (name_e, at_h) = o.has_key q h e before in
            (
              name_e,
              ground (
                arith,
                gone,
                at,
                at_g,
                at_h,
                name_x,
                name_e,
                value_at-drop_handle (list_of m).elems g h,
                c.same_iff k q,
              ),
            );
        later =
            λ h e at. ground (arith, at, value_at-drop_handle (list_of m).elems g h, o.later h e);
      }

  -- Each operation that changes the map keeps the invariant: the element of each key has the key and is
  -- in the list, and the handles of the elements in the list have been given out.
  pub operations-IsOrdered :
      (m : OrderedMap K V) (k : K) (v : V)
      → IsOrdered m
      → IsOrdered (store_entry m k v) × IsOrdered (delete_entry m k)
  operations-IsOrdered m k v o = (store_entry-IsOrdered m k v o, delete_entry-IsOrdered m k o)

  -- What Load gives for a key stands in the list, with that key.
  abbrev pub Listed : OrderedMap K V → K → Option V → Type ℓ
  Listed m q (some w) = (h : ℕ) × (value_at (list_of m).elems h ≡ some (q, w))
  Listed m q none = Unit

  -- The list is without the element that was found, and is else as it was.
  abbrev pub Unlisted : OrderedMap K V → OrderedMap K V → Option (ℕ × (K × V)) → Type ℓ
  Unlisted before after (some (h, e)) =
      (g : ℕ)
      → value_at (list_of after).elems g
        ≡ (if h == g then none else value_at (list_of before).elems g)
  Unlisted before after none = after ≡ before

  IsOrdered-Listed : (m : OrderedMap K V) (q : K) → IsOrdered m → Listed m q (load m q)
  unfolding load
  IsOrdered-Listed m q o = go (find m.dict q) refl
    where
      go :
          (x : Option (ℕ × (K × V)))
          → find m.dict q ≡ x
          → Listed m q (elim x [ some (h, e) ↦ some e.1 | none ↦ none ])
      go none e = tt
      go (some (h, (k, v))) e =
          let (named, held) = o.has_key q h (k, v) e in (h, ground (arith, named, held))

  delete_entry-Unlisted :
      (m : OrderedMap K V) (k : K) → Unlisted m (delete_entry m k) (find m.dict k)
  unfolding delete_entry
  delete_entry-Unlisted m k = go (find m.dict k)
    where
      go :
          (x : Option (ℕ × (K × V)))
          → Unlisted m
              (elim x [
                | some (h, e) ↦ record { dict = delete m.dict k; ll = some (remove (list_of m) h) }
                | none ↦ m
              ])
              x
      go none = refl
      go (some (h, e)) = λ g. value_at-drop_handle (list_of m).elems h g

  -- After a Store the key has the value, after a Delete it has none, and after either every other key
  -- has what it had. A Delete takes the element of the key out of the list, and no other. On a map
  -- with the invariant, what Load gives for a key after either stands in the list with that key.
  pub load-operations :
      (m : OrderedMap K V) (k : K) (v : V) (q : K)
      → IsOrdered m
      → (load (store_entry m k v) q ≡ (if c.same k q then some v else load m q))
        × (load (delete_entry m k) q ≡ (if c.same k q then none else load m q))
        × Unlisted m (delete_entry m k) (find m.dict k)
        × Listed (store_entry m k v) q (load (store_entry m k v) q)
        × Listed (delete_entry m k) q (load (delete_entry m k) q)
  load-operations m k v q o = (
    load-store_entry m k v q,
    load-delete_entry m k q,
    delete_entry-Unlisted m k,
    IsOrdered-Listed (store_entry m k v) q (store_entry-IsOrdered m k v o),
    IsOrdered-Listed (delete_entry m k) q (delete_entry-IsOrdered m k o),
  )
