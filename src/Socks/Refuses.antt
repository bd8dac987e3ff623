-- ===== src/Socks/Refuses.antt =====
-- The negotiation on every input, read backwards: what the client must have sent where the server
-- accepts it.
use mini_ss.Common.{
  ℕ, ◌+◌, ◌≤◌, ◌≡◌, refl, sym, ap, ◌∙◌, subst, inl, inr, arith, ◌==◌, some, true, false, Bool, [],
  ◌∷◌, ◌++◌, length, take, drop, get_or, ltb, leb, Bool-cases, take-append-drop, length-take,
}
use mini_ss.Common.Bytes.{Bytes}
use mini_ss.Stream.{
  Error, Outcome, ok, err, panics, Io, M, pure, read_full, byte_at, slice, put_byte, write, splice,
  continue,
}
use mini_ss.Stream.Fill.{take-splice}
use mini_ss.Socks.Auth.{Auth, validate}
use mini_ss.Socks.Defs.{
  recast, or_error, expect_byte, read_text, reply_two, answer, authenticate, read_methods,
  negotiate,
}
use mini_ss.Socks.Accepts.{greeting, credentials}

-- A chain that succeeds: its first step did, and the rest from there.
continue-ok :
    {A B : Type 0} (r : Outcome A × Io) (f : A → M B) (b : B) (s' : Io)
    → continue r f ≡ (ok b, s')
    → (a : A) × (s : Io) × (r ≡ (ok a, s)) × (f a s ≡ (ok b, s'))
continue-ok (ok a, s) f b s' e = (a, s, refl, e)
continue-ok (err x, s) f b s' e = absurd (ground arith)
continue-ok (panics, s) f b s' e = absurd (ground arith)

recast-ok :
    {A : Type 0} (x : Error) (r : Outcome A × Io) (a : A) (s : Io)
    → recast x r ≡ (ok a, s)
    → r ≡ (ok a, s)
recast-ok x (ok a', s') a s e = e
recast-ok x (err y, s') a s e = absurd (ground arith)
recast-ok x (panics, s') a s e = absurd (ground arith)

-- A read that succeeds took `n` bytes from the input to the front of the buffer.
abbrev Took : ℕ → Io → Io → Type 0
Took n s s' =
    (xs : Bytes) × (length xs ≡ n)
    × (n ≤ length s.buf)
    × (s.input ≡ xs ++ s'.input)
    × (s'.buf ≡ splice 0 xs s.buf)

read_full-Took : (n : ℕ) (s s' : Io) → read_full 0 n s ≡ (ok tt, s') → Took n s s'
unfolding read_full
read_full-Took n s s' e = elim (Bool-cases (ltb (length s.buf) (0 + n))) [
  | inl short ↦ absurd (ground (arith, short))
  | inr room ↦ elim (Bool-cases (leb n (length s.input))) [
    | inr few ↦ absurd (ground (arith, room, few))
    | inl enough ↦
        let next : Io = record s {
          input = drop n s.input;
          buf = splice 0 (take n s.input) s.buf;
        } in
        let whole : Outcome (Unit {0}) × Io = (ok tt, next) in
        let done : whole ≡ (ok tt, s') = ground (arith, room, enough) in
        let many : n ≤ length s.input = ground (arith, enough) in
        let fits : n ≤ length s.buf = ground (arith, room) in
        subst (λ (x : Io). Took n s x) (ap (λ (p : Outcome (Unit {0}) × Io). p.1) done)
          (
            take n s.input,
            omega (arith, length-take n s.input, many),
            fits,
            sym (take-append-drop n s.input),
            refl,
          )
  ]
]

-- The byte that a read of one byte leaves in front.
byte_at-ok : (b : ℕ) (s s' : Io) → byte_at 0 s ≡ (ok b, s') → (s' ≡ s) × (b ≡ get_or s.buf 0 0)
unfolding byte_at
byte_at-ok b s s' e = elim (Bool-cases (ltb 0 (length s.buf))) [
  | inr short ↦ absurd (ground (arith, short))
  | inl room ↦ (ground (arith, room), ground (arith, room))
]

-- A read of one byte, and then a look at it.
read_byte-ok :
    (b : ℕ) (s s1 s2 : Io)
    → read_full 0 1 s ≡ (ok tt, s1)
    → byte_at 0 s1 ≡ (ok b, s2)
    → s.input ≡ b ∷ s2.input
unfolding splice
read_byte-ok b s s1 s2 e look =
    let (xs, size, fits, taken, left) = read_full-Took 1 s s1 e in
    let (same, is) = byte_at-ok b s1 s2 look in go xs s.buf size fits taken left same is
  where
    go :
        (xs buf : Bytes)
        → length xs ≡ 1
        → 1 ≤ length buf
        → s.input ≡ xs ++ s1.input
        → s1.buf ≡ splice 0 xs buf
        → s2 ≡ s1
        → b ≡ get_or s1.buf 0 0
        → s.input ≡ b ∷ s2.input
    go [] buf size fits taken left same is = absurd (ground arith)
    go (x ∷ y ∷ xs) buf size fits taken left same is = absurd (ground arith)
    go (x ∷ []) [] size fits taken left same is = absurd (ground arith)
    go (x ∷ []) (c ∷ buf) size fits taken left same is =
        let first : b ≡ x = is ∙ ap (λ (q : Bytes). get_or q 0 0) left in
        let rest : s2.input ≡ s1.input = ap (λ (t : Io). t.input) same in
        ground (arith, taken, first, rest)

expect_byte-ok :
    (v : ℕ) (e : Error) (s s' : Io) → expect_byte v e s ≡ (ok tt, s') → s.input ≡ v ∷ s'.input
unfolding expect_byte
expect_byte-ok v e s s' h =
    let (u, s1, first, then_) = continue-ok (or_error e (read_full 0 1) s) _ tt s' h in
    let (b, s2, look, last) = continue-ok (byte_at 0 s1) _ tt s' then_ in
    elim (Bool-cases (b == v)) [
      | inr other ↦ absurd (ground (arith, other, last))
      | inl same ↦
          let taken = read_byte-ok b s s1 s2 (recast-ok e (read_full 0 1 s) tt s1 first) look in
          let here : pure tt s2 ≡ (ok tt, s') = ground (arith, same, last) in
          let rest : s2.input ≡ s'.input = ap (λ (p : Outcome (Unit {0}) × Io). p.1.input) here in
          ground (arith, taken, rest, same)
    ]

slice-ok :
    (n : ℕ) (xs : Bytes) (s s' : Io) → slice 0 n s ≡ (ok xs, s') → (s' ≡ s) × (xs ≡ take n s.buf)
unfolding slice
slice-ok n xs s s' e = elim (Bool-cases (ltb (length s.buf) (0 + n))) [
  | inl short ↦ absurd (ground (arith, short))
  | inr room ↦ (ground (arith, room), ground (arith, room))
]

-- A read of `n` bytes, and then the text that they are.
read_slice-ok :
    (n : ℕ) (xs : Bytes) (s s1 s2 : Io)
    → read_full 0 n s ≡ (ok tt, s1)
    → slice 0 n s1 ≡ (ok xs, s2)
    → (s.input ≡ xs ++ s2.input) × (length xs ≡ n)
read_slice-ok n xs s s1 s2 e cut =
    let (ys, size, fits, taken, left) = read_full-Took n s s1 e in
    let (same, is) = slice-ok n xs s1 s2 cut in
    let room : length ys ≤ length s.buf = omega (arith, size, fits) in
    let front : take n s1.buf ≡ ys =
      ap (λ (q : Bytes). take n q) left
      ∙ (ap (λ (k : ℕ). take k (splice 0 ys s.buf)) (sym size) ∙ take-splice ys s.buf room) in
    let text : xs ≡ ys = is ∙ front in
    let rest : s2.input ≡ s1.input = ap (λ (t : Io). t.input) same in
    (ground (arith, taken, text, rest), ground (arith, text, size))

read_text-ok :
    (e : Error) (xs : Bytes) (s s' : Io)
    → read_text e s ≡ (ok xs, s')
    → s.input ≡ length xs ∷ (xs ++ s'.input)
unfolding read_text
read_text-ok e xs s s' h =
    let (u, s1, first, then_) = continue-ok (read_full 0 1 s) _ xs s' h in
    let (n, s2, look, last) = continue-ok (byte_at 0 s1) _ xs s' then_ in
    elim (Bool-cases (n == 0)) [
      | inl zero_length ↦ absurd (ground (arith, zero_length, last))
      | inr some_length ↦
          let taken = read_byte-ok n s s1 s2 first look in
          let body : continue (read_full 0 n s2) (λ _. slice 0 n) ≡ (ok xs, s') =
            ground (arith, some_length, last) in
          let (v, s3, got, cut) = continue-ok (read_full 0 n s2) (λ _. slice 0 n) xs s' body in
          let (text, size) = read_slice-ok n xs s2 s3 s' got cut in
          ground (arith, taken, text, size)
    ]

put_byte-ok : (i v : ℕ) (s s' : Io) → put_byte i v s ≡ (ok tt, s') → s'.input ≡ s.input
unfolding put_byte
put_byte-ok i v s s' e = elim (Bool-cases (ltb i (length s.buf))) [
  | inr short ↦ absurd (ground (arith, short))
  | inl room ↦ ground (arith, room)
]

reply_two-ok : (x y : ℕ) (s s' : Io) → reply_two x y s ≡ (ok tt, s') → s'.input ≡ s.input
unfolding reply_two write
reply_two-ok x y s s' h =
    let (u, s1, first, then_) = continue-ok (put_byte 0 x s) _ tt s' h in
    let (v, s2, second, more) = continue-ok (put_byte 1 y s1) _ tt s' then_ in
    let (bytes, s3, cut, last) = continue-ok (slice 0 2 s2) _ tt s' more in
    let one = put_byte-ok 0 x s s1 first in
    let two = put_byte-ok 1 y s1 s2 second in
    let three : s3.input ≡ s2.input = ap (λ (t : Io). t.input) (slice-ok 2 bytes s2 s3 cut).0 in
    let four : s3.input ≡ s'.input = ap (λ (p : Outcome (Unit {0}) × Io). p.1.input) last in
    sym four ∙ (three ∙ (two ∙ one))

answer-ok :
    (valid : Bool) (s s' : Io)
    → answer valid s ≡ (ok tt, s')
    → (valid ≡ true) × (s'.input ≡ s.input)
answer-ok true s s' h = (refl, reply_two-ok 1 0 s s' h)
answer-ok false s s' h =
    let (u, s1, first, last) = continue-ok (reply_two 1 1 s) _ tt s' h in absurd (ground arith)

authenticate-ok :
    (a : Auth) (s s' : Io)
    → authenticate a s ≡ (ok tt, s')
    → (user : Bytes) × (pass : Bytes) × (s.input ≡ credentials user pass s'.input)
      × (validate a user pass ≡ true)
unfolding authenticate
authenticate-ok a s s' h =
    let (u, s1, first, then_) = continue-ok (expect_byte 1 _ s) _ tt s' h in
    let (user, s2, second, more) = continue-ok (read_text _ s1) _ tt s' then_ in
    let (pass, s3, third, last) = continue-ok (read_text _ s2) _ tt s' more in
    let (valid, same) = answer-ok (validate a user pass) s3 s' last in
    (
      user,
      pass,
      ground (
        arith,
        expect_byte-ok 1 _ s s1 first,
        read_text-ok _ user s1 s2 second,
        read_text-ok _ pass s2 s3 third,
        same,
      ),
      valid,
    )

read_methods-ok :
    (s s' : Io)
    → read_methods s ≡ (ok tt, s')
    → (methods : Bytes) × (s.input ≡ length methods ∷ (methods ++ s'.input))
unfolding read_methods
read_methods-ok s s' h =
    let (u, s1, first, then_) = continue-ok (or_error _ (read_full 0 1) s) _ tt s' h in
    let (n, s2, look, last) = continue-ok (byte_at 0 s1) _ tt s' then_ in
    let taken = read_byte-ok n s s1 s2 (recast-ok _ (read_full 0 1 s) tt s1 first) look in
    elim (Bool-cases (n == 0)) [
      | inl nothing ↦ absurd (ground (arith, nothing, last))
      | inr offered ↦
          let body : read_full 0 n s2 ≡ (ok tt, s') = ground (arith, offered, last) in
          let (ms, size, fits, text, left) = read_full-Took n s2 s' body in
          (ms, ground (arith, taken, text, size))
    ]

-- Where a server with credentials accepts a client, the client sent a greeting and then a user name
-- and a password that are valid, and exactly these bytes were read.
pub negotiate-credentials :
    (a : Auth) (s s' : Io)
    → negotiate (some a) s ≡ (ok tt, s')
    → (methods : Bytes) × (user : Bytes) × (pass : Bytes) × (s.input
        ≡ greeting methods (credentials user pass s'.input))
      × (validate a user pass ≡ true)
unfolding negotiate
negotiate-credentials a s s' h =
    let (u, s1, first, then_) = continue-ok (expect_byte 5 _ s) _ tt s' h in
    let (v, s2, second, more) = continue-ok (read_methods s1) _ tt s' then_ in
    let (w, s3, third, last) = continue-ok (reply_two 5 2 s2) _ tt s' more in
    let (methods, offered) = read_methods-ok s1 s2 second in
    let (user, pass, sent, valid) = authenticate-ok a s3 s' last in
    (
      methods,
      user,
      pass,
      ground (arith, expect_byte-ok 5 _ s s1 first, offered, reply_two-ok 5 2 s2 s3 third, sent),
      valid,
    )
