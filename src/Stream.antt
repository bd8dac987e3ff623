-- ===== src/Stream.antt =====
-- What the handlers use of Go's standard library: errors as values, and a connection that is read
-- through `io.ReadFull` into a buffer and written by `Write`. `input` holds the bytes that the peer
-- has sent and that are not read yet, after which it closes; `output` the bytes written to it.
-- A slice expression or an index out of range panics. `Safe` has the rule
-- for code that does not; `Fill` says what a buffer holds that is filled from its front.
pub mod Safe
pub mod Fill
use mini_ss.Common.{
  ℕ, zero, suc, ◌+◌, ◌≤◌, ◌<◌, ◌≡◌, refl, ◌⊎◌, inl, inr, Bool, true, false, List, [], ◌∷◌, ◌++◌,
  arith, leb, ltb, length, take, drop, get_or, set, if◌then◌else◌, length-append, length-take,
  length-drop, length-set, le→leb, le→ltb_false,
}
use mini_ss.Common.Bytes.{Bytes}

-- The errors of the modelled packages; `other` stands for one made by code outside of them.
pub data Error : Type 0 where
  eof unexpected_eof short_buffer : Error
  addr_type_not_supported domain_length_too_long invalid_host_or_port : Error
  version5_invalid version1_invalid unsupported_method unsupported_req_cmd auth_failure : Error
  auth_user_short_length auth_password_short_length : Error
  empty_global_proxy_node rule_match_dropped : Error
  cache_not_found cache_expired no_available_fake_ip : Error
  other : ℕ → Error

pub data Outcome {ℓ} (A : Type ℓ) : Type ℓ where
  ok : A → Outcome A
  err : Error → Outcome A
  panics : Outcome A

pub Outcome-cases {ℓ} :
    {A : Type ℓ} (o : Outcome A)
    → ((a : A) × (o ≡ ok a)) ⊎ (((e : Error) × (o ≡ err e)) ⊎ (o ≡ panics))
Outcome-cases (ok a) = inl (a, refl)
Outcome-cases (err e) = inr (inl (e, refl))
Outcome-cases panics = inr (inr refl)

pub record Io : Type 0 where
  pub input : Bytes
  pub output : Bytes
  pub buf : Bytes

abbrev pub M : Type 0 → Type 0
M A = Io → Outcome A × Io

abbrev pub continue {ℓ κ} :
    {A : Type ℓ} {B : Type κ} → Outcome A × Io → (A → Io → Outcome B × Io) → Outcome B × Io
continue (ok a, s) f = f a s
continue (err e, s) f = (err e, s)
continue (panics, s) f = (panics, s)

infixl 5 ◌>>=◌ ◌>>◌
abbrev pub ◌>>=◌ : {A B : Type 0} → M A → (A → M B) → M B
◌>>=◌ m f s = continue (m s) f

abbrev pub ◌>>◌ : {B : Type 0} → M (Unit {0}) → M B → M B
m >> k = m >>= λ _. k

abbrev pub pure : {A : Type 0} → A → M A
pure a s = (ok a, s)

abbrev pub fail : {A : Type 0} → Error → M A
fail e s = (err e, s)

abbrev pub crash : {A : Type 0} → M A
crash s = (panics, s)

-- `xs` written over the bytes of `b` that begin at `off`, as `copy(b[off:], xs)` does.
unfoldable pub splice : ℕ → Bytes → Bytes → Bytes
splice zero [] b = b
splice zero (x ∷ xs) [] = []
splice zero (x ∷ xs) (y ∷ b) = x ∷ splice zero xs b
splice (suc off) xs [] = []
splice (suc off) xs (y ∷ b) = y ∷ splice off xs b

pub length-splice : (off : ℕ) (xs b : Bytes) → length (splice off xs b) ≡ length b
unfolding splice
length-splice zero [] b = refl
length-splice zero (x ∷ xs) [] = refl
length-splice zero (x ∷ xs) (y ∷ b) = omega (arith, length-splice zero xs b)
length-splice (suc off) xs [] = refl
length-splice (suc off) xs (y ∷ b) = omega (arith, length-splice off xs b)

-- The error of a `ReadFull` that meets the end after the bytes `got`.
abbrev pub read_error : Bytes → Error
read_error [] = eof
read_error (x ∷ xs) = unexpected_eof

-- `io.ReadFull(conn, b[off:off+n])`
unfoldable pub read_full : ℕ → ℕ → M (Unit {0})
read_full off n s =
    if ltb (length s.buf) (off + n)
    then (panics, s)
    else if leb n (length s.input)
    then (ok tt, record s { input = drop n s.input; buf = splice off (take n s.input) s.buf })
    else (err (read_error s.input), record s { input = []; buf = splice off s.input s.buf })

-- `b[i]`
unfoldable pub byte_at : ℕ → M ℕ
byte_at i s = if ltb i (length s.buf) then (ok (get_or s.buf i 0), s) else (panics, s)

-- `b[off:off+n]`
unfoldable pub slice : ℕ → ℕ → M Bytes
slice off n s =
    if ltb (length s.buf) (off + n) then (panics, s) else (ok (take n (drop off s.buf)), s)

-- `b[i] = v`
unfoldable pub put_byte : ℕ → ℕ → M (Unit {0})
put_byte i v s =
    if ltb i (length s.buf) then (ok tt, record s { buf = set s.buf i v }) else (panics, s)

-- `copy(b[off:], xs)`
unfoldable pub copy_at : ℕ → Bytes → M (Unit {0})
copy_at off xs s =
    if ltb (length s.buf) off then (panics, s) else (ok tt, record s { buf = splice off xs s.buf })

-- `conn.Write(xs)`
unfoldable pub write : Bytes → M (Unit {0})
write xs s = (ok tt, record s { output = s.output ++ xs })

abbrev pub buf_length : M ℕ
buf_length s = (ok (length s.buf), s)
