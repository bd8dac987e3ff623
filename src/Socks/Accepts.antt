-- ===== src/Socks/Accepts.antt =====
-- The negotiation of a client that keeps to the protocol: what is read and what is answered.
use mini_ss.Common.{
  ℕ, suc, ◌+◌, ◌≤◌, ◌≡◌, refl, ◌∙◌, arith, Option, none, some, true, false, Bool, [], ◌∷◌, ◌++◌,
  length,
}
use mini_ss.Common.Bytes.{Bytes}
use mini_ss.Stream.{
  Error, Outcome, ok, err, Io, read_full, write, splice, length-splice, auth_failure,
  version1_invalid, version5_invalid, auth_user_short_length, auth_password_short_length,
}
use mini_ss.Stream.Fill.{splice_nil, read_next, slice_seen, first_seen, after, put_next}
use mini_ss.Socks.Auth.{Auth, validate}
use mini_ss.Socks.Defs.{
  expect_byte, read_text, reply_two, answer, authenticate, method, authenticate_if, read_methods,
  negotiate,
}

-- A read of `xs` at the front of the buffer.
pub read_front :
    (xs rest output b : Bytes)
    → length xs ≤ length b
    → read_full 0 (length xs) (record { input = xs ++ rest; output = output; buf = b })
      ≡ (ok tt, after xs rest output b)
unfolding splice
read_front xs rest output b h = read_next [] output b (omega arith) xs rest (omega arith)

pub expect_byte-read :
    (v : ℕ) (e : Error) (rest output b : Bytes)
    → 1 ≤ length b
    → expect_byte v e (record { input = v ∷ rest; output = output; buf = b })
      ≡ (ok tt, after (v ∷ []) rest output b)
unfolding expect_byte
expect_byte-read v e rest output b h = ground (
  arith,
  read_front (v ∷ []) rest output b (omega arith),
  first_seen v [] rest output b (omega arith),
)

read_text-read :
    (e : Error) (xs rest output b : Bytes)
    → 1 ≤ length xs
    → suc (length xs) ≤ length b
    → read_text e (record { input = length xs ∷ (xs ++ rest); output = output; buf = b })
      ≡ (ok xs, after xs rest output (splice 0 (length xs ∷ []) b))
unfolding read_text
read_text-read e xs rest output b h room =
    let size : length (splice 0 (length xs ∷ []) b) ≡ length b =
      length-splice 0 (length xs ∷ []) b in
    ground (
      arith,
      size,
      read_front (length xs ∷ []) (xs ++ rest) output b (omega arith),
      first_seen (length xs) [] (xs ++ rest) output b (omega arith),
      read_front xs rest output (splice 0 (length xs ∷ []) b) (omega arith),
      slice_seen xs output (splice 0 (length xs ∷ []) b) (omega arith) rest,
    )

reply_two-write :
    (x y : ℕ) (input output b : Bytes)
    → 2 ≤ length b
    → reply_two x y (record { input = input; output = output; buf = b })
      ≡ (ok tt, after (x ∷ y ∷ []) input (output ++ (x ∷ y ∷ [])) b)
unfolding reply_two write
reply_two-write x y input output b h = ground (
  arith,
  splice_nil b,
  put_next [] input output b x (omega arith),
  put_next (x ∷ []) input output b y (omega arith),
  slice_seen (x ∷ y ∷ []) output b (omega arith) input,
)

-- How a call ends: its result, and what is then unread and written.
abbrev pub Ends : Outcome (Unit {0}) → Bytes → Bytes → Outcome (Unit {0}) × Io → Type 0
Ends result input output (r, s) = (r ≡ result) × (s.input ≡ input) × (s.output ≡ output)

abbrev pub credentials : Bytes → Bytes → Bytes → Bytes
credentials user pass rest = 1 ∷ length user ∷ (user ++ (length pass ∷ (pass ++ rest)))

abbrev pub status : Bool → ℕ
status true = 0
status false = 1

abbrev pub verdict : Bool → Outcome (Unit {0})
verdict true = ok tt
verdict false = err auth_failure

answer-Ends :
    (valid : Bool) (input output b : Bytes)
    → 2 ≤ length b
    → Ends
        (verdict valid)
        input
        (output ++ (1 ∷ status valid ∷ []))
        (answer valid (record { input = input; output = output; buf = b }))
answer-Ends true input output b h = simp (reply_two-write 1 0 input output b h) (refl, refl, refl)
answer-Ends false input output b h = simp (reply_two-write 1 1 input output b h) (refl, refl, refl)

authenticate-Ends :
    (a : Auth) (user pass rest output b : Bytes)
    → 1 ≤ length user
    → 1 ≤ length pass
    → suc (length user) ≤ length b
    → suc (length pass) ≤ length b
    → Ends
        (verdict (validate a user pass))
        rest
        (output ++ (1 ∷ status (validate a user pass) ∷ []))
        (authenticate a (record { input = credentials user pass rest; output = output; buf = b }))
unfolding authenticate
authenticate-Ends a user pass rest output b hu hp ru rp =
    let b1 : Bytes = splice 0 (1 ∷ []) b in
    let b2 : Bytes = splice 0 user (splice 0 (length user ∷ []) b1) in
    let b3 : Bytes = splice 0 pass (splice 0 (length pass ∷ []) b2) in
    let size1 : length b1 ≡ length b = length-splice 0 (1 ∷ []) b in
    let size2 : length b2 ≡ length b =
      length-splice 0 user (splice 0 (length user ∷ []) b1)
      ∙ (length-splice 0 (length user ∷ []) b1 ∙ size1) in
    let size3 : length b3 ≡ length b =
      length-splice 0 pass (splice 0 (length pass ∷ []) b2)
      ∙ (length-splice 0 (length pass ∷ []) b2 ∙ size2) in
    let more : Bytes = length pass ∷ (pass ++ rest) in
    simp
      (
        expect_byte-read 1 version1_invalid (length user ∷ (user ++ more)) output b (omega arith),
        read_text-read auth_user_short_length user more output b1 hu (omega arith),
        read_text-read auth_password_short_length pass rest output b2 hp (omega arith),
      )
      (answer-Ends (validate a user pass) rest output b3 (omega arith))

abbrev pub greeting : Bytes → Bytes → Bytes
greeting methods rest = 5 ∷ length methods ∷ (methods ++ rest)

read_methods-read :
    (methods rest output b : Bytes)
    → 1 ≤ length methods
    → suc (length methods) ≤ length b
    → read_methods (record { input = length methods ∷ (methods ++ rest); output = output; buf = b })
      ≡ (ok tt, after methods rest output (splice 0 (length methods ∷ []) b))
unfolding read_methods
read_methods-read methods rest output b h room =
    let size : length (splice 0 (length methods ∷ []) b) ≡ length b =
      length-splice 0 (length methods ∷ []) b in
    ground (
      arith,
      size,
      read_front (length methods ∷ []) (methods ++ rest) output b (omega arith),
      first_seen (length methods) [] (methods ++ rest) output b (omega arith),
      read_front methods rest output (splice 0 (length methods ∷ []) b) (omega arith),
    )

-- The state in which the reply to a greeting is written.
greeted : Bytes → Bytes → Bytes → ℕ → Bytes
greeted methods output b m =
    splice 0 (5 ∷ m ∷ []) (splice 0 methods (splice 0 (length methods ∷ []) (splice 0 (5 ∷ []) b)))

length-greeted : (methods output b : Bytes) (m : ℕ) → length (greeted methods output b m) ≡ length b
unfolding greeted
length-greeted methods output b m =
    length-splice 0 (5 ∷ m ∷ []) _
    ∙ (length-splice 0 methods _
        ∙ (length-splice 0 (length methods ∷ []) _ ∙ length-splice 0 (5 ∷ []) b))

negotiate-greeted :
    (auth : Option Auth) (methods rest output b : Bytes)
    → 1 ≤ length methods
    → 2 + length methods ≤ length b
    → negotiate auth (record { input = greeting methods rest; output = output; buf = b })
      ≡ authenticate_if auth (record {
        input = rest;
        output = output ++ (5 ∷ method auth ∷ []);
        buf = greeted methods output b (method auth);
      })
unfolding negotiate greeted
negotiate-greeted auth methods rest output b h room =
    let b1 : Bytes = splice 0 (5 ∷ []) b in
    let b2 : Bytes = splice 0 methods (splice 0 (length methods ∷ []) b1) in
    let size1 : length b1 ≡ length b = length-splice 0 (5 ∷ []) b in
    let size2 : length b2 ≡ length b =
      length-splice 0 methods (splice 0 (length methods ∷ []) b1)
      ∙ (length-splice 0 (length methods ∷ []) b1 ∙ size1) in
    simp
      (
        expect_byte-read 5 version5_invalid (length methods ∷ (methods ++ rest)) output b
            (omega arith),
        read_methods-read methods rest output b1 h (omega arith),
        reply_two-write 5 (method auth) rest output b2 (omega arith),
      )
      refl

-- A server without credentials accepts every greeting that offers a method and has room in the
-- buffer, answers it with "no authentication", and reads nothing behind it.
pub negotiate-Ends :
    (methods rest output b : Bytes)
    → 1 ≤ length methods
    → 2 + length methods ≤ length b
    → Ends
        (ok tt)
        rest
        (output ++ (5 ∷ 0 ∷ []))
        (negotiate none (record { input = greeting methods rest; output = output; buf = b }))
negotiate-Ends methods rest output b h room =
    simp (negotiate-greeted none methods rest output b h room) (refl, refl, refl)

-- A server with credentials that is sent a greeting, a user name and a password, none of them empty
-- and each with room in the buffer, asks for them, reads them and nothing behind them, and accepts
-- exactly those that are valid: the status is 0, or it is 1 and the result an error.
pub negotiate-credentials-Ends :
    (a : Auth) (methods user pass rest output b : Bytes)
    → 1 ≤ length methods
    → 1 ≤ length user
    → 1 ≤ length pass
    → 2 + length methods ≤ length b
    → suc (length user) ≤ length b
    → suc (length pass) ≤ length b
    → Ends
        (verdict (validate a user pass))
        rest
        ((output ++ (5 ∷ 2 ∷ [])) ++ (1 ∷ status (validate a user pass) ∷ []))
        (negotiate (some a) (record {
          input = greeting methods (credentials user pass rest);
          output = output;
          buf = b;
        }))
negotiate-credentials-Ends a methods user pass rest output b hm hu hp rm ru rp =
    let size = length-greeted methods output b 2 in
    simp (negotiate-greeted (some a) methods (credentials user pass rest) output b hm rm) (
      authenticate-Ends a user pass rest (output ++ (5 ∷ 2 ∷ [])) (greeted methods output b 2) hu hp
        (omega arith) (omega arith))
