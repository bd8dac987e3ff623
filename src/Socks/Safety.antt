-- ===== src/Socks/Safety.antt =====
-- The negotiation on every input.
use mini_ss.Common.{ℕ, ◌<◌, ◌≢◌, arith, ◌==◌, Option, none, some, true, false, Bool}
use mini_ss.Common.Bytes.{IsBytes}
use mini_ss.Stream.{
  Error, Outcome, ok, err, panics, Io, M, pure, read_full, byte_at, slice, put_byte, write,
}
use mini_ss.Stream.Safe.{
  IsReady, Safe, Good, Always, Safe-if, Safe-weaken, Good-ne-panics, Safe-bind, Safe-fail,
  Safe-read_full, Safe-byte_at, Safe-slice, Safe-put_byte, Safe-write,
}
use mini_ss.Socks.Auth.{Auth, validate}
use mini_ss.Socks.Defs.{
  max_socks_buffer_size, recast, or_error, expect_byte, read_text, reply_two, answer, authenticate,
  method, authenticate_if, read_methods, negotiate,
}

abbrev max : ℕ
max = max_socks_buffer_size

Safe-pure : Safe max Always (pure tt)
Safe-pure = record { run = λ s h. (tt, h) }

Safe-or_error :
    {A : Type 0} (e : Error) (Q : A → Type 0) (m : M A) → Safe max Q m → Safe max Q (or_error e m)
Safe-or_error {A} e Q m hm = record { run = λ s h. go (m s) (hm.run s h) }
  where
    go : (r : Outcome A × Io) → Good max Q r → Good max Q (recast e r)
    go (ok a, s') g = g
    go (err x, s') g = g
    go (panics, s') g = g

expect_byte-Safe : (v : ℕ) (e : Error) → Safe max Always (expect_byte v e)
unfolding expect_byte
expect_byte-Safe v e =
    Safe-bind max Always Always (or_error e (read_full 0 1)) _
      (Safe-or_error e Always (read_full 0 1) (Safe-read_full max 0 1 (omega arith)))
      λ _ _.
        Safe-bind max (λ b. b < 256) Always (byte_at 0) _ (Safe-byte_at max 0 (omega arith))
          λ b _. Safe-if max Always (b == v) _ _ Safe-pure (Safe-fail max Always e)

read_text-Safe : (e : Error) → Safe max IsBytes (read_text e)
unfolding read_text
read_text-Safe e =
    Safe-bind max Always IsBytes (read_full 0 1) _ (Safe-read_full max 0 1 (omega arith)) λ _ _.
      Safe-bind max (λ n. n < 256) IsBytes (byte_at 0) _ (Safe-byte_at max 0 (omega arith))
        λ n small. Safe-if max IsBytes (n == 0) _ _ (Safe-fail max IsBytes e) (
          Safe-bind max Always IsBytes (read_full 0 n) (λ _. slice 0 n)
            (Safe-read_full max 0 n (omega arith))
            λ _ _.
              Safe-weaken max _ IsBytes (slice 0 n) (λ a q. q.1) (Safe-slice max 0 n (omega arith)))

reply_two-Safe : (a b : ℕ) → a < 256 → b < 256 → Safe max Always (reply_two a b)
unfolding reply_two
reply_two-Safe a b ha hb =
    Safe-bind max Always Always (put_byte 0 a) _ (Safe-put_byte max 0 a (omega arith) ha) λ _ _.
      Safe-bind max Always Always (put_byte 1 b) _ (Safe-put_byte max 1 b (omega arith) hb) λ _ _.
        Safe-bind max _ Always (slice 0 2) write (Safe-slice max 0 2 (omega arith))
          λ xs _. Safe-write max xs

answer-Safe : (valid : Bool) → Safe max Always (answer valid)
answer-Safe true = reply_two-Safe 1 0 (omega arith) (omega arith)
answer-Safe false =
    Safe-bind max Always Always (reply_two 1 1) _ (reply_two-Safe 1 1 (omega arith) (omega arith))
      λ _ _. Safe-fail max Always _

authenticate-Safe : (a : Auth) → Safe max Always (authenticate a)
unfolding authenticate
authenticate-Safe a = Safe-bind max Always Always (expect_byte 1 _) _ (expect_byte-Safe 1 _) λ _ _.
    Safe-bind max IsBytes Always (read_text _) _ (read_text-Safe _) λ user _.
      Safe-bind max IsBytes Always (read_text _) _ (read_text-Safe _)
        λ pass _. answer-Safe (validate a user pass)

authenticate_if-Safe : (auth : Option Auth) → Safe max Always (authenticate_if auth)
authenticate_if-Safe none = Safe-pure
authenticate_if-Safe (some a) = authenticate-Safe a

method_small : (auth : Option Auth) → method auth < 256
method_small none = omega arith
method_small (some a) = omega arith

read_methods-Safe : Safe max Always read_methods
unfolding read_methods
read_methods-Safe =
    Safe-bind max Always Always (or_error _ (read_full 0 1)) _
      (Safe-or_error _ Always (read_full 0 1) (Safe-read_full max 0 1 (omega arith)))
      λ _ _.
        Safe-bind max (λ n. n < 256) Always (byte_at 0) _ (Safe-byte_at max 0 (omega arith))
          λ n small.
            Safe-if max Always (n == 0) _ _ (Safe-fail max Always _)
              (Safe-read_full max 0 n (omega arith))

pub negotiate-Safe : (auth : Option Auth) → Safe max Always (negotiate auth)
unfolding negotiate
negotiate-Safe auth = Safe-bind max Always Always (expect_byte 5 _) _ (expect_byte-Safe 5 _) λ _ _.
    Safe-bind max Always Always read_methods _ read_methods-Safe λ _ _.
      Safe-bind max Always Always (reply_two 5 (method auth)) _
        (reply_two-Safe 5 (method auth) (omega arith) (method_small auth))
        λ _ _. authenticate_if-Safe auth

-- With a buffer of `MaxSocksBufferSize` bytes no index or slice expression of the negotiation is
-- out of range, whatever the client sends.
pub negotiate-ne-panics :
    (auth : Option Auth) (s : Io) → IsReady max_socks_buffer_size s → (negotiate auth s).0 ≢ panics
negotiate-ne-panics auth s h =
    Good-ne-panics max Always (negotiate auth s) ((negotiate-Safe auth).run s h)
