-- ===== src/Cache/LinkedList.antt =====
-- container/list as the program uses it. A `*list.Element` is a number, its handle; `next` is the
-- handle of the next element that is made. What is done with a handle that is not in the list
-- changes nothing, as in Go.
use mini_ss.Common.{
  ℕ, suc, ◌≤◌, ◌<◌, ◌≡◌, refl, List, [], ◌∷◌, ◌++◌, Option, none, some, arith, ◌==◌, length,
  if◌then◌else◌,
}

pub record LinkedList {ℓ} (A : Type ℓ) : Type ℓ where
  pub next : ℕ
  pub elems : List (ℕ × A)

module _ {ℓ} {A : Type ℓ} where
  abbrev pub new : LinkedList A
  new = record { next = 0; elems = [] }

  -- The value at a handle.
  unfoldable pub value_at : List (ℕ × A) → ℕ → Option A
  value_at [] h = none
  value_at (x ∷ xs) h = if x.0 == h then some x.1 else value_at xs h

  unfoldable pub drop_handle : List (ℕ × A) → ℕ → List (ℕ × A)
  drop_handle [] h = []
  drop_handle (x ∷ xs) h = let rest = drop_handle xs h in if x.0 == h then rest else x ∷ rest

  -- A write through the handle's `Value`.
  unfoldable pub update_at : List (ℕ × A) → ℕ → A → List (ℕ × A)
  update_at [] h a = []
  update_at (x ∷ xs) h a = if x.0 == h then (h, a) ∷ xs else x ∷ update_at xs h a

  abbrev pub list_len : LinkedList A → ℕ
  list_len l = length l.elems

  -- The handle and the value at the front.
  abbrev pub front : LinkedList A → Option (ℕ × A)
  front l = elim l.elems [ [] ↦ none | x ∷ xs ↦ some x ]

  abbrev pub push_back : LinkedList A → A → ℕ × LinkedList A
  push_back l a = (l.next, record { next = suc l.next; elems = l.elems ++ (l.next, a) ∷ [] })

  abbrev pub remove : LinkedList A → ℕ → LinkedList A
  remove l h = record l { elems = drop_handle l.elems h }

  abbrev pub move_to_back : LinkedList A → ℕ → LinkedList A
  move_to_back l h = elim (value_at l.elems h) [
    | none ↦ l
    | some a ↦ record l { elems = drop_handle l.elems h ++ (h, a) ∷ [] }
  ]

  pub drop_handle_absent :
      (xs : List (ℕ × A)) (h : ℕ) → value_at xs h ≡ none → drop_handle xs h ≡ xs
  unfolding value_at drop_handle
  drop_handle_absent [] h e = refl
  drop_handle_absent (x ∷ xs) h e = ground (arith, drop_handle_absent xs h)

  pub value_at-drop_handle :
      (xs : List (ℕ × A)) (h g : ℕ)
      → value_at (drop_handle xs h) g ≡ (if h == g then none else value_at xs g)
  unfolding value_at drop_handle
  value_at-drop_handle [] h g = ground arith
  value_at-drop_handle (x ∷ xs) h g = ground (arith, value_at-drop_handle xs h g)

  pub value_at-append :
      (xs ys : List (ℕ × A)) (g : ℕ)
      → value_at (xs ++ ys) g ≡ elim (value_at xs g) [ none ↦ value_at ys g | some a ↦ some a ]
  unfolding value_at
  value_at-append [] ys g = refl
  value_at-append (x ∷ xs) ys g = ground (arith, value_at-append xs ys g)

  pub value_at-update_at :
      (xs : List (ℕ × A)) (h : ℕ) (a b : A)
      → value_at xs h ≡ some b
      → (value_at (update_at xs h a) h ≡ some a)
        × (drop_handle (update_at xs h a) h ≡ drop_handle xs h)
  unfolding value_at update_at drop_handle
  value_at-update_at [] h a b e = absurd (ground arith)
  value_at-update_at (x ∷ xs) h a b e = ground (arith, value_at-update_at xs h a b)

  pub length-drop_handle : (xs : List (ℕ × A)) (h : ℕ) → length (drop_handle xs h) ≤ length xs
  unfolding drop_handle
  length-drop_handle [] h = omega arith
  length-drop_handle (x ∷ xs) h = ground (arith, length-drop_handle xs h)

  pub length-drop_handle_at :
      (xs : List (ℕ × A)) (h : ℕ) (a : A)
      → value_at xs h ≡ some a
      → length (drop_handle xs h) < length xs
  unfolding drop_handle value_at
  length-drop_handle_at [] h a e = absurd (ground arith)
  length-drop_handle_at (x ∷ xs) h a e =
      ground (arith, length-drop_handle xs h, length-drop_handle_at xs h a)
