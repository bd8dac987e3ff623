-- ===== src/Stream/Safe.antt =====
-- Code over a connection and a buffer that never panics: a postcondition that composes.
use mini_ss.Common.{
  ℕ, zero, suc, ◌+◌, ◌≤◌, ◌<◌, ◌≡◌, ◌≢◌, Bool, true, false, [], ◌∷◌, arith, leb, length, take, drop,
  get_or, set, if◌then◌else◌, le→ltb_false, length-set, lt→ltb, length-take, length-drop,
}
use mini_ss.Common.Bytes.{Bytes, IsBytes}
use mini_ss.Stream.{
  Error, Outcome, ok, err, panics, Io, M, read_error, read_full, slice, byte_at, put_byte, copy_at,
  write, splice, length-splice, ◌>>=◌, continue, fail, buf_length,
}

-- The buffer has at least `n` bytes, and all bytes are bytes.
pub record IsReady (n : ℕ) (s : Io) : Type 0 where
  pub room : n ≤ length s.buf
  pub input_bytes : IsBytes s.input
  pub buf_bytes : IsBytes s.buf

-- No panic; a result that holds `Q`; and the state is fit to go on with.
abbrev pub Good : {A : Type 0} → ℕ → (A → Type 0) → Outcome A × Io → Type 0
Good n Q (ok a, s) = Q a × IsReady n s
Good n Q (err e, s) = IsReady n s
Good n Q (panics, s) = ⊥

pub record Safe {A : Type 0} (n : ℕ) (Q : A → Type 0) (m : M A) : Type 0 where
  pub run : (s : Io) → IsReady n s → Good n Q (m s)

bytes-drop : (n : ℕ) (xs : Bytes) → IsBytes xs → IsBytes (drop n xs)
bytes-drop zero xs h = h
bytes-drop (suc n) [] h = h
bytes-drop (suc n) (x ∷ xs) h = bytes-drop n xs h.1

bytes-take : (n : ℕ) (xs : Bytes) → IsBytes xs → IsBytes (take n xs)
bytes-take zero xs h = tt
bytes-take (suc n) [] h = h
bytes-take (suc n) (x ∷ xs) h = (h.0, bytes-take n xs h.1)

bytes-set : (xs : Bytes) (i v : ℕ) → IsBytes xs → v < 256 → IsBytes (set xs i v)
bytes-set [] i v h q = h
bytes-set (x ∷ xs) zero v h q = (q, h.1)
bytes-set (x ∷ xs) (suc i) v h q = (h.0, bytes-set xs i v h.1 q)

bytes-splice : (off : ℕ) (xs b : Bytes) → IsBytes xs → IsBytes b → IsBytes (splice off xs b)
unfolding splice
bytes-splice zero [] b hx hb = hb
bytes-splice zero (x ∷ xs) [] hx hb = hb
bytes-splice zero (x ∷ xs) (y ∷ b) hx hb = (hx.0, bytes-splice zero xs b hx.1 hb.1)
bytes-splice (suc off) xs [] hx hb = hb
bytes-splice (suc off) xs (y ∷ b) hx hb = (hb.0, bytes-splice off xs b hx hb.1)

bytes-get_or : (xs : Bytes) (i : ℕ) → IsBytes xs → get_or xs i 0 < 256
bytes-get_or [] i h = omega arith
bytes-get_or (x ∷ xs) zero h = h.0
bytes-get_or (x ∷ xs) (suc i) h = bytes-get_or xs i h.1

-- The rule for a chain of steps.
pub Safe-bind :
    {A B : Type 0} (n : ℕ) (Q : A → Type 0) (R : B → Type 0) (m : M A) (f : A → M B)
    → Safe n Q m
    → ((a : A) → Q a → Safe n R (f a))
    → Safe n R (m >>= f)
Safe-bind {A} {B} n Q R m f hm hf = record { run = λ s h. go (m s) (hm.run s h) }
  where
    go : (r : Outcome A × Io) → Good n Q r → Good n R (continue r f)
    go (ok a, s') (q, h') = (hf a q).run s' h'
    go (err e, s') g = g
    go (panics, s') g = g

pub Safe-fail : {A : Type 0} (n : ℕ) (Q : A → Type 0) (e : Error) → Safe n Q (fail {A = A} e)
Safe-fail n Q e = record { run = λ s h. h }

abbrev pub Always : {A : Type 0} → A → Type 0
Always a = Unit

read_full-Good :
    (n off k : ℕ) → off + k ≤ n → (s : Io) → IsReady n s → Good n Always (read_full off k s)
unfolding read_full
read_full-Good n off k fits s h =
    rw (le→ltb_false (length s.buf) (off + k) (omega arith))
      (go (leb k (length s.input)) (read_error s.input))
  where
    ready :
        (i xs : Bytes)
        → IsBytes i
        → IsBytes xs
        → IsReady n (record s { input = i; buf = splice off xs s.buf })
    ready i xs hi hx = record {
      room = omega (arith, length-splice off xs s.buf);
      input_bytes = hi;
      buf_bytes = bytes-splice off xs s.buf hx h.buf_bytes;
    }

    go :
        (b : Bool) (e : Error)
        → Good n Always (
            if b
            then (
              ok tt,
              record s { input = drop k s.input; buf = splice off (take k s.input) s.buf },
            )
            else (err e, record s { input = []; buf = splice off s.input s.buf }))
    go true e =
        (tt, ready _ _ (bytes-drop k s.input h.input_bytes) (bytes-take k s.input h.input_bytes))
    go false e = ready _ _ tt h.input_bytes

pub Safe-read_full : (n off k : ℕ) → off + k ≤ n → Safe n Always (read_full off k)
Safe-read_full n off k fits = record { run = read_full-Good n off k fits }

pub Safe-byte_at : (n i : ℕ) → i < n → Safe n (λ v. v < 256) (byte_at i)
unfolding byte_at
Safe-byte_at n i fits = record {
  run = λ s h. rw (lt→ltb i (length s.buf) (omega arith)) (bytes-get_or s.buf i h.buf_bytes, h);
}

pub Safe-slice :
    (n off k : ℕ) → off + k ≤ n → Safe n (λ xs. (length xs ≡ k) × IsBytes xs) (slice off k)
unfolding slice
Safe-slice n off k fits = record {
  run = λ s h. rw (le→ltb_false (length s.buf) (off + k) (omega arith)) (
    (
      omega (arith, length-take k (drop off s.buf), length-drop off s.buf),
      bytes-take k _ (bytes-drop off s.buf h.buf_bytes),
    ),
    h,
  );
}

pub Safe-put_byte : (n i v : ℕ) → i < n → v < 256 → Safe n Always (put_byte i v)
unfolding put_byte
Safe-put_byte n i v fits q = record {
  run = λ s h. rw (lt→ltb i (length s.buf) (omega arith)) (
    tt,
    record {
      room = omega (arith, length-set s.buf i v);
      input_bytes = h.input_bytes;
      buf_bytes = bytes-set s.buf i v h.buf_bytes q;
    },
  );
}

pub Safe-copy_at : (n off : ℕ) (xs : Bytes) → off ≤ n → IsBytes xs → Safe n Always (copy_at off xs)
unfolding copy_at
Safe-copy_at n off xs fits hx = record {
  run = λ s h. rw (le→ltb_false (length s.buf) off (omega arith)) (
    tt,
    record {
      room = omega (arith, length-splice off xs s.buf);
      input_bytes = h.input_bytes;
      buf_bytes = bytes-splice off xs s.buf hx h.buf_bytes;
    },
  );
}

pub Safe-write : (n : ℕ) (xs : Bytes) → Safe n Always (write xs)
unfolding write
Safe-write n xs = record {
  run = λ s h. (tt, record { room = h.room; input_bytes = h.input_bytes; buf_bytes = h.buf_bytes });
}

pub Safe-if :
    {A : Type 0} (n : ℕ) (Q : A → Type 0) (b : Bool) (m k : M A)
    → Safe n Q m
    → Safe n Q k
    → Safe n Q (if b then m else k)
Safe-if n Q true m k hm hk = hm
Safe-if n Q false m k hm hk = hk

pub Safe-weaken :
    {A : Type 0} (n : ℕ) (Q R : A → Type 0) (m : M A)
    → ((a : A) → Q a → R a)
    → Safe n Q m
    → Safe n R m
Safe-weaken {A} n Q R m f hm = record { run = λ s h. go (m s) (hm.run s h) }
  where
    go : (r : Outcome A × Io) → Good n Q r → Good n R r
    go (ok a, s') (q, h') = (f a q, h')
    go (err e, s') g = g
    go (panics, s') g = g

pub Safe-buf_length : (n : ℕ) → Safe n Always buf_length
Safe-buf_length n = record { run = λ s h. (tt, h) }

-- What the rule is for.
pub Good-ne-panics :
    {A : Type 0} (n : ℕ) (Q : A → Type 0) (r : Outcome A × Io) → Good n Q r → r.0 ≢ panics
Good-ne-panics n Q (ok a, s) g = λ e. cc
Good-ne-panics n Q (err x, s) g = λ e. cc
Good-ne-panics n Q (panics, s) g = absurd g
