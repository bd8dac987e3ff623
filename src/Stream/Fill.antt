-- ===== src/Stream/Fill.antt =====
-- A buffer that is filled from its front, by reads from the connection or by writes.
use mini_ss.Common.{
  ℕ, zero, suc, ◌+◌, ◌≤◌, ◌<◌, ◌≡◌, refl, ap, [], ◌∷◌, ◌++◌, arith, length, take, length-append,
  take-append, drop-append, le→ltb_false, le→leb, set, lt→ltb,
}
use mini_ss.Common.Bytes.{Bytes}
use mini_ss.Stream.{ok, Io, read_full, slice, byte_at, splice, length-splice, put_byte, copy_at}

-- What `xs` written at the front, and then `ys` behind it, leave.
pub splice-append :
    (xs ys b : Bytes) → splice (length xs) ys (splice 0 xs b) ≡ splice 0 (xs ++ ys) b
unfolding splice
splice-append [] ys b = refl
splice-append (x ∷ xs) ys [] = refl
splice-append (x ∷ xs) ys (y ∷ b) = ap (◌∷◌ x) (splice-append xs ys b)

pub take-splice : (xs b : Bytes) → length xs ≤ length b → take (length xs) (splice 0 xs b) ≡ xs
unfolding splice
take-splice [] b h = refl
take-splice (x ∷ xs) [] h = elim h [ ]
take-splice (x ∷ xs) (y ∷ b) h = ap (◌∷◌ x) (take-splice xs b (omega arith))

pub splice_nil : (b : Bytes) → splice 0 [] b ≡ b
unfolding splice
splice_nil b = refl

-- A state in which the bytes `seen` were read into the front of `b`.
abbrev pub after : Bytes → Bytes → Bytes → Bytes → Io
after seen input output b = record { input = input; output = output; buf = splice 0 seen b }

module _ (seen output b : Bytes) (fits : length seen ≤ length b) where
  pub read_next :
      (xs rest : Bytes)
      → length seen + length xs ≤ length b
      → read_full (length seen) (length xs) (after seen (xs ++ rest) output b)
        ≡ (ok tt, after (seen ++ xs) rest output b)
  unfolding read_full
  read_next xs rest h = rw (
    le→ltb_false (length (splice 0 seen b)) (length seen + length xs)
        (omega (arith, length-splice 0 seen b)),
    le→leb (length xs) (length (xs ++ rest)) (omega (arith, length-append xs rest)),
    take-append xs rest,
    drop-append xs rest,
    splice-append seen xs b,
  )

  pub slice_seen :
      (input : Bytes)
      → slice 0 (length seen) (after seen input output b) ≡ (ok seen, after seen input output b)
  unfolding slice
  slice_seen input = rw (
    le→ltb_false (length (splice 0 seen b)) (0 + length seen)
        (omega (arith, length-splice 0 seen b)),
    take-splice seen b fits,
  )

pub first_seen :
    (t : ℕ) (xs input output b : Bytes)
    → suc (length xs) ≤ length b
    → byte_at 0 (after (t ∷ xs) input output b) ≡ (ok t, after (t ∷ xs) input output b)
unfolding byte_at splice
first_seen t xs input output [] h = elim h [ ]
first_seen t xs input output (y ∷ b) h = ground arith

pub second_seen :
    (t n : ℕ) (xs input output b : Bytes)
    → suc (suc (length xs)) ≤ length b
    → byte_at 1 (after (t ∷ n ∷ xs) input output b) ≡ (ok n, after (t ∷ n ∷ xs) input output b)
unfolding byte_at splice
second_seen t n xs input output [] h = elim h [ ]
second_seen t n xs input output (y ∷ []) h = ground arith
second_seen t n xs input output (y ∷ z ∷ b) h = ground arith

set-splice : (b : Bytes) (i v : ℕ) → set b i v ≡ splice i (v ∷ []) b
unfolding splice
set-splice [] zero v = refl
set-splice [] (suc i) v = refl
set-splice (y ∷ b) zero v = refl
set-splice (y ∷ b) (suc i) v = ap (◌∷◌ y) (set-splice b i v)

module _ (seen input output b : Bytes) where
  pub put_next :
      (v : ℕ)
      → length seen < length b
      → put_byte (length seen) v (after seen input output b)
        ≡ (ok tt, after (seen ++ v ∷ []) input output b)
  unfolding put_byte
  put_next v h = rw (
    lt→ltb (length seen) (length (splice 0 seen b)) (omega (arith, length-splice 0 seen b)),
    set-splice (splice 0 seen b) (length seen) v,
    splice-append seen (v ∷ []) b,
  )

  pub copy_next :
      (xs : Bytes)
      → length seen ≤ length b
      → copy_at (length seen) xs (after seen input output b)
        ≡ (ok tt, after (seen ++ xs) input output b)
  unfolding copy_at
  copy_next xs h = rw (
    le→ltb_false (length (splice 0 seen b)) (length seen) (omega (arith, length-splice 0 seen b)),
    splice-append seen xs b,
  )
