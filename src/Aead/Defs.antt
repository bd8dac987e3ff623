-- ===== src/Aead/Defs.antt =====
-- The functions of ss/aead/stream_conn.go. Seal and Open work in place in the code, on parts of a
-- buffer that do not overlap, so here they take and give bytes. `input` are the bytes that the peer
-- has sent and that are not read yet; a write to the connection succeeds.
use mini_ss.Common.{
  ℕ, zero, suc, ◌+◌, ◌*◌, ◌/◌, ◌%◌, ◌^◌, Option, none, some, List, [], ◌∷◌, ◌++◌, if◌then◌else◌,
  ◌==◌, leb, ltb, length, take, drop, get_or, replicate,
}
use mini_ss.Common.Bytes.{Bytes}
use mini_ss.Stream.{Error, Outcome, ok, err, panics, read_error, eof, other}

-- cipher.AEAD: the size of a nonce, by how much Seal lengthens, and Seal and Open of a nonce and a
-- text without additional data; `none` where Open does not authenticate.
pub record Aead : Type 0 where
  pub nonce_size : ℕ
  pub overhead : ℕ
  pub seal : Bytes → Bytes → Bytes
  pub open_sealed : Bytes → Bytes → Option Bytes

-- bufferpool.MaxTcpBufferSize
abbrev pub max_tcp_buffer_size : ℕ
max_tcp_buffer_size = 16384

-- `increment`: a number of bytes, the lowest first, that wraps.
unfoldable pub increment : Bytes → Bytes
increment [] = []
increment (b ∷ bs) =
    let rest = increment bs in let next = (b + 1) % 256 in if next == 0 then 0 ∷ rest else next ∷ bs

pub record StreamReader : Type 0 where
  pub input : Bytes
  pub remain : Bytes
  pub nonce : Bytes

abbrev pub new_stream_reader : Aead → Bytes → StreamReader
new_stream_reader a input = record { input = input; remain = []; nonce = replicate a.nonce_size 0 }

-- io.ReadFull of `n` bytes: the bytes, or the error, and what is left.
unfoldable pub read_bytes : ℕ → Bytes → Outcome Bytes × Bytes
read_bytes n input =
    if leb n (length input) then (ok (take n input), drop n input) else (err (read_error input), [])

-- The authentication failed.
abbrev pub message_authentication : Error
message_authentication = other 1

abbrev pub size_overflow : Error
size_overflow = other 2

-- One sealed text: it is read, opened, and the nonce incremented whether it opens or not.
abbrev pub opened : StreamReader → Option Bytes → Outcome Bytes × StreamReader
opened r (some text) = (ok text, record r { nonce = increment r.nonce })
opened r none = (err message_authentication, record r { nonce = increment r.nonce })

abbrev pub open_next : Aead → StreamReader → Outcome Bytes × Bytes → Outcome Bytes × StreamReader
open_next a r (ok sealed, input) =
    opened (record r { input = input }) (a.open_sealed r.nonce sealed)
open_next a r (err e, input) = (err e, record r { input = input })
open_next a r (panics, input) = (panics, record r { input = input })

unfoldable pub read_sealed : Aead → ℕ → StreamReader → Outcome Bytes × StreamReader
unfolding read_bytes increment
read_sealed a n r = open_next a r (read_bytes (n + a.overhead) r.input)

-- The size of a payload, high byte first.
abbrev pub size_of : Bytes → ℕ
size_of head = get_or head 0 0 * 2 ^ 8 + get_or head 1 0

-- `r.buf[:size+r.Overhead()]` of a buffer of MaxTcpBufferSize + Overhead bytes panics beyond it.
abbrev pub read_payload : Aead → ℕ → StreamReader → Outcome Bytes × StreamReader
read_payload a size r =
    if ltb (max_tcp_buffer_size + a.overhead) size
    then (err size_overflow, r)
    else if ltb (max_tcp_buffer_size + a.overhead) (size + a.overhead)
    then (panics, r)
    else read_sealed a size r

abbrev pub then_payload : Aead → Outcome Bytes × StreamReader → Outcome Bytes × StreamReader
then_payload a (ok head, r) = read_payload a (size_of head) r
then_payload a (err e, r) = (err e, r)
then_payload a (panics, r) = (panics, r)

-- `read`: the payload that the buffer then begins with.
unfoldable pub read_chunk : Aead → StreamReader → Outcome Bytes × StreamReader
unfolding read_sealed
read_chunk a r = then_payload a (read_sealed a 2 r)

abbrev pub copied : ℕ → Outcome Bytes × StreamReader → Outcome Bytes × StreamReader
copied room (ok payload, r) = (ok (take room payload), record r { remain = drop room payload })
copied room (err e, r) = (err e, r)
copied room (panics, r) = (panics, r)

-- `Read` into a slice of `room` bytes: the bytes that are copied into it.
unfoldable pub read : Aead → ℕ → StreamReader → Outcome Bytes × StreamReader
unfolding read_chunk
read a room r = elim (r.remain) [
  | [] ↦ copied room (read_chunk a r)
  | b ∷ bs ↦ (ok (take room r.remain), record r { remain = drop room r.remain })
]

-- What WriteTo has written, and its error; io.EOF is no error.
abbrev pub at_end : Error → Outcome (Unit {0})
at_end e = elim e [ eof ↦ ok tt | failure ↦ err failure ]

-- Out of fuel, which is one more than the bytes that are left and so is enough.
abbrev pub exhausted : Error
exhausted = other 3

-- The loop of WriteTo: what it writes to `w`, which takes all, how it ends, and the reader then.
unfoldable pub pump : Aead → ℕ → StreamReader → Bytes × Outcome (Unit {0}) × StreamReader
unfolding read_chunk
pump a zero r = ([], err exhausted, r)
pump a (suc fuel) r =
    let after = (read_chunk a r).1 in
    elim (read_chunk a r).0 [
      | ok payload ↦ let (out, end, last) = pump a fuel after in (payload ++ out, end, last)
      | err e ↦ ([], at_end e, after)
      | panics ↦ ([], panics, after)
    ]

unfoldable pub write_to : Aead → StreamReader → Bytes × Outcome (Unit {0}) × StreamReader
unfolding pump
write_to a r =
    let (out, end, last) = pump a (suc (length r.input)) (record r { remain = [] }) in
    (r.remain ++ out, end, last)

pub record StreamWriter : Type 0 where
  pub output : Bytes
  pub nonce : Bytes

abbrev pub new_stream_writer : Aead → Bytes → StreamWriter
new_stream_writer a output = record { output = output; nonce = replicate a.nonce_size 0 }

-- The two bytes of the size of a payload.
abbrev pub head_of : ℕ → Bytes
head_of n = n / 2 ^ 8 % 256 ∷ n % 256 ∷ []

-- The size and the payload, each sealed under a nonce of its own.
unfoldable pub write_chunk : Aead → StreamWriter → Bytes → StreamWriter
unfolding increment
write_chunk a w payload = record {
  output =
      w.output ++ (a.seal w.nonce (head_of (length payload)) ++ a.seal (increment w.nonce) payload);
  nonce = increment (increment w.nonce);
}

-- ReadFrom, where `reads` is what the calls of r.Read give, each at most MaxTcpBufferSize bytes, until
-- io.EOF; one that gives nothing writes nothing.
unfoldable pub read_from : Aead → StreamWriter → List Bytes → StreamWriter
unfolding write_chunk
read_from a w [] = w
read_from a w ([] ∷ reads) = read_from a w reads
read_from a w ((b ∷ bs) ∷ reads) = read_from a (write_chunk a w (b ∷ bs)) reads

-- What bytes.NewReader gives to reads of MaxTcpBufferSize bytes; the length of the text is enough
-- fuel.
unfoldable pub pieces : ℕ → Bytes → List Bytes
pieces zero text = []
pieces (suc fuel) [] = []
pieces (suc fuel) (b ∷ bs) =
    take max_tcp_buffer_size (b ∷ bs) ∷ pieces fuel (drop max_tcp_buffer_size (b ∷ bs))

-- `Write`
unfoldable pub write : Aead → StreamWriter → Bytes → StreamWriter
unfolding read_from pieces
write a w text = read_from a w (pieces (length text) text)

-- cipherx.AEADCipher: the AEAD of a salt.
pub record AeadCipher : Type 0 where
  pub salt_size : ℕ
  pub get_encrypter : Bytes → Outcome Aead
  pub get_decrypter : Bytes → Outcome Aead

-- streamConn, with the reader and the writer that its first Read and Write make.
pub record StreamConn : Type 0 where
  pub unread : Bytes
  pub written : Bytes
  pub reader : Option (Aead × StreamReader)
  pub writer : Option (Aead × StreamWriter)

abbrev pub new_stream_conn : Bytes → StreamConn
new_stream_conn unread = record { unread = unread; written = []; reader = none; writer = none }

abbrev pub decrypting : AeadCipher → Outcome Bytes × Bytes → Outcome (Aead × StreamReader)
decrypting c (ok salt, rest) = elim (c.get_decrypter salt) [
  | ok a ↦ ok (a, new_stream_reader a rest)
  | err e ↦ err e
  | panics ↦ panics
]
decrypting c (err e, rest) = err e
decrypting c (panics, rest) = panics

-- `initReader`, where there is no reader yet. What was read of the salt is gone where it fails.
unfoldable pub init_reader : AeadCipher → StreamConn → Outcome (Aead × StreamReader) × StreamConn
unfolding read_bytes
init_reader c s = elim (s.reader) [
  | some r ↦ (ok r, s)
  | none ↦
      let after = read_bytes c.salt_size s.unread in
      (decrypting c after, record s { unread = after.1 })
]

-- `initWriter`, with the salt that rand.Reader gives.
unfoldable pub init_writer : AeadCipher → Bytes → StreamConn → Outcome (Aead × StreamWriter)
init_writer c salt s = elim (s.writer) [
  | some w ↦ ok w
  | none ↦ elim (c.get_encrypter salt) [
    | ok a ↦ ok (a, new_stream_writer a (s.written ++ salt))
    | err e ↦ err e
    | panics ↦ panics
  ]
]

abbrev pub wrote : StreamConn → Aead → StreamWriter → StreamConn
wrote s a w = record s { written = w.output; writer = some (a, w) }

-- `Write` of the connection.
unfoldable pub conn_write : AeadCipher → Bytes → StreamConn → Bytes → Outcome StreamConn
unfolding init_writer write
conn_write c salt s text = elim (init_writer c salt s) [
  | ok aw ↦ ok (wrote s aw.0 (write aw.0 aw.1 text))
  | err e ↦ err e
  | panics ↦ panics
]

-- `ReadFrom` of the connection.
unfoldable pub conn_read_from : AeadCipher → Bytes → StreamConn → List Bytes → Outcome StreamConn
unfolding init_writer read_from
conn_read_from c salt s reads = elim (init_writer c salt s) [
  | ok aw ↦ ok (wrote s aw.0 (read_from aw.0 aw.1 reads))
  | err e ↦ err e
  | panics ↦ panics
]

abbrev pub did_read : StreamConn → Aead → StreamReader → StreamConn
did_read s a r = record s { unread = r.input; reader = some (a, r) }

-- `Read` of the connection into `room` bytes.
unfoldable pub conn_read : AeadCipher → ℕ → StreamConn → Outcome Bytes × StreamConn
unfolding init_reader read
conn_read c room s =
    let after = (init_reader c s).1 in
    elim (init_reader c s).0 [
      | ok ar ↦ let (result, r) = read ar.0 room ar.1 in (result, did_read after ar.0 r)
      | err e ↦ (err e, after)
      | panics ↦ (panics, after)
    ]

-- `WriteTo` of the connection: what is written, and how it ends.
unfoldable pub conn_write_to : AeadCipher → StreamConn → Bytes × Outcome (Unit {0}) × StreamConn
unfolding init_reader write_to
conn_write_to c s =
    let after = (init_reader c s).1 in
    elim (init_reader c s).0 [
      | ok ar ↦ let (out, end, r) = write_to ar.0 ar.1 in (out, end, did_read after ar.0 r)
      | err e ↦ ([], err e, after)
      | panics ↦ ([], panics, after)
    ]
