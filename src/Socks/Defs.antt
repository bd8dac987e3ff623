-- ===== src/Socks/Defs.antt =====
-- ss/socks.go: `negotiate` and `auth` of socks5Server. The buffer is that of the connection state;
-- the error of a `Write` is not read by the code, and here a write succeeds.
use mini_ss.Common.{ℕ, Bool, true, false, Option, none, some, if◌then◌else◌, ◌==◌}
use mini_ss.Common.Bytes.{Bytes}
use mini_ss.Stream.{
  Error, Outcome, ok, err, panics, Io, M, ◌>>=◌, ◌>>◌, pure, fail, read_full, byte_at, slice,
  put_byte, write, version5_invalid, version1_invalid, unsupported_method, auth_failure,
  auth_user_short_length, auth_password_short_length,
}
use mini_ss.Socks.Auth.{Auth, validate}

abbrev pub max_socks_buffer_size : ℕ
max_socks_buffer_size = 515

-- The result where an error is answered with another.
abbrev pub recast : {A : Type 0} → Error → Outcome A × Io → Outcome A × Io
recast e (ok a, s) = (ok a, s)
recast e (err x, s) = (err e, s)
recast e (panics, s) = (panics, s)

abbrev pub or_error : {A : Type 0} → Error → M A → M A
or_error e m s = recast e (m s)

-- A byte that has to be `v`.
unfoldable pub expect_byte : ℕ → Error → M (Unit {0})
expect_byte v e = do or_error e (read_full 0 1); b ← byte_at 0; if b == v then pure tt else fail e

-- A text behind the byte of its length, which is not 0.
unfoldable pub read_text : Error → M Bytes
read_text e = do
  read_full 0 1
  n ← byte_at 0
  if n == 0 then fail e else (do read_full 0 n; slice 0 n)

-- The first two bytes of the buffer are set and written.
unfoldable pub reply_two : ℕ → ℕ → M (Unit {0})
reply_two a b = do put_byte 0 a; put_byte 1 b; bytes ← slice 0 2; write bytes

abbrev pub answer : Bool → M (Unit {0})
answer true = reply_two 1 0
answer false = do reply_two 1 1; fail auth_failure

-- `auth`
unfoldable pub authenticate : Auth → M (Unit {0})
unfolding expect_byte read_text reply_two
authenticate a = do
  expect_byte 1 version1_invalid
  username ← read_text auth_user_short_length
  password ← read_text auth_password_short_length
  answer (validate a username password)

abbrev pub method : Option Auth → ℕ
method none = 0
method (some a) = 2

abbrev pub authenticate_if : Option Auth → M (Unit {0})
authenticate_if none = pure tt
authenticate_if (some a) = authenticate a

-- The bytes of the methods that the client offers.
unfoldable pub read_methods : M (Unit {0})
read_methods = do
  or_error unsupported_method (read_full 0 1)
  n ← byte_at 0
  if n == 0 then fail unsupported_method else read_full 0 n

unfoldable pub negotiate : Option Auth → M (Unit {0})
unfolding authenticate read_methods
negotiate auth = do
  expect_byte 5 version5_invalid
  read_methods
  reply_two 5 (method auth)
  authenticate_if auth
