-- ===== src/Aead/Connection.antt =====
-- Two ends of the connection of ss/aead/stream_conn.go.
use mini_ss.Common.{◌≡◌, ap, subst, ◌∙◌, [], ◌++◌, length, replicate, arith}
use mini_ss.Common.Bytes.{Bytes}
use mini_ss.Stream.{Outcome, ok, err, panics}
use mini_ss.Aead.Defs.{
  Aead, StreamReader, write_to, pieces, write, AeadCipher, StreamConn, new_stream_conn, conn_write,
  conn_write_to, init_reader, init_writer, wrote, did_read, decrypting, new_stream_reader,
}
use mini_ss.Aead.RoundTrip.{
  IsPair, read_bytes-front, chunks, Pumped, write_to-chunks, read_from-chunks, pieces-Fit,
}

module _ (c : AeadCipher) (salt text unread : Bytes) (enc dec : Aead)
    (seals : c.get_encrypter salt ≡ ok enc) (unseals : c.get_decrypter salt ≡ ok dec)
    (pair : IsPair enc dec) (whole_salt : length salt ≡ c.salt_size) where
  zeros : Bytes
  zeros = replicate enc.nonce_size 0

  sent : Bytes
  sent = salt ++ chunks enc dec pair zeros (pieces (length text) text)

  after_write : StreamConn
  after_write =
      wrote (new_stream_conn unread) enc
        (write enc (record { output = salt; nonce = replicate enc.nonce_size 0 }) text)

  conn_write-gives : conn_write c salt (new_stream_conn unread) text ≡ ok after_write
  unfolding conn_write init_writer after_write
  conn_write-gives = ground (arith, seals)

  written-sent : after_write.written ≡ sent
  unfolding after_write write sent zeros
  written-sent =
      read_from-chunks enc dec pair (pieces (length text) text) salt (replicate enc.nonce_size 0)
        (pieces-Fit (length text) text (omega arith)).0

  -- The reader of a connection that was sent the salt and the chunks.
  reader-gives :
      (init_reader c (new_stream_conn sent)).0
      ≡ ok (
        dec,
        new_stream_reader dec
            (chunks enc dec pair (replicate enc.nonce_size 0) (pieces (length text) text)),
      )
  unfolding init_reader sent zeros
  reader-gives =
      ap (decrypting c) (
        read_bytes-front c.salt_size salt
          (chunks enc dec pair (replicate enc.nonce_size 0) (pieces (length text) text)) whole_salt)
      ∙ ground (arith, unseals)

  read-gives : Pumped enc dec pair text (
      write_to dec (
        new_stream_reader dec
          (chunks enc dec pair (replicate enc.nonce_size 0) (pieces (length text) text))))
  read-gives =
      let (fits, makes) = pieces-Fit (length text) text (omega arith) in
      let got =
        write_to-chunks enc dec pair (pieces (length text) text) (replicate enc.nonce_size 0)
          fits in
      subst
        (λ n. Pumped enc dec pair text (
          write_to dec (record {
            input = chunks enc dec pair (replicate enc.nonce_size 0) (pieces (length text) text);
            remain = [];
            nonce = replicate n 0;
          })))
        pair.same_nonce (got.0 ∙ makes, got.1)

  after_salt : StreamConn
  after_salt = (init_reader c (new_stream_conn sent)).1

  looked_up : Outcome (Aead × StreamReader) → Bytes × Outcome (Unit {0}) × StreamConn
  looked_up o = elim o [
    | ok ar ↦ let (out, end, r) = write_to ar.0 ar.1 in (out, end, did_read after_salt ar.0 r)
    | err e ↦ ([], err e, after_salt)
    | panics ↦ ([], panics, after_salt)
  ]

  reading :
      ((conn_write_to c (new_stream_conn sent)).0 ≡ text)
      × ((conn_write_to c (new_stream_conn sent)).1 ≡ ok tt)
  unfolding conn_write_to looked_up after_salt
  reading = (
    ap (λ o. (looked_up o).0) reader-gives ∙ read-gives.0,
    ap (λ o. (looked_up o).1) reader-gives ∙ read-gives.1,
  )

  -- What one end writes to a new connection, the other end reads: Write of a text succeeds, and where
  -- the bytes that it has put out are all that the other end is sent, WriteTo there writes exactly
  -- the text and ends without an error. Conditions: the cipher has an AEAD for the salt on both
  -- sides, the one opens what the other seals, and the salt has the cipher's length.
  pub conn_write-conn_write_to :
      (s : StreamConn) × (conn_write c salt (new_stream_conn unread) text ≡ ok s)
      × ((conn_write_to c (new_stream_conn s.written)).0 ≡ text)
      × ((conn_write_to c (new_stream_conn s.written)).1 ≡ ok tt)
  conn_write-conn_write_to = (
    after_write,
    conn_write-gives,
    ap (λ b. (conn_write_to c (new_stream_conn b)).0) written-sent ∙ reading.0,
    ap (λ b. (conn_write_to c (new_stream_conn b)).1) written-sent ∙ reading.1,
  )
