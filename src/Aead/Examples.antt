-- ===== src/Aead/Examples.antt =====
-- The witness of the encrypted stream, with a cipher that puts one byte behind each text, and a test
-- of a size that the reader's buffer does not hold.
use mini_ss.Common.{
  ◌-◌, ◌≡◌, refl, ap, ◌∙◌, some, [], ◌∷◌, ◌++◌, length, take, length-append, take-append, arith,
}
use mini_ss.Common.Bytes.{Bytes, codes}
use mini_ss.Stream.{ok, panics}
use mini_ss.Aead.Defs.{
  Aead, AeadCipher, StreamReader, StreamConn, new_stream_conn, read_payload, conn_write,
  conn_write_to,
}
use mini_ss.Aead.RoundTrip.{IsPair}
use mini_ss.Aead.Connection.{conn_write-conn_write_to}

abbrev marking : Aead
marking = record {
  nonce_size = 12;
  overhead = 1;
  seal = λ nonce text. text ++ 0 ∷ [];
  open_sealed = λ nonce sealed. some (take (length sealed - 1) sealed);
}

marking-IsPair : IsPair marking marking
marking-IsPair = record {
  same_nonce = refl;
  opens = λ nonce text. unmarked text;
  sealed_length = λ nonce text. length-append text (0 ∷ []);
}
  where
    unmarked :
        (text : Bytes) → some (take (length (text ++ 0 ∷ []) - 1) (text ++ 0 ∷ [])) ≡ some text
    unmarked text =
        let size : length (text ++ 0 ∷ []) - 1 ≡ length text =
          omega (arith, length-append text (0 ∷ [])) in
        ap (λ n. some (take n (text ++ 0 ∷ []))) size ∙ ap some (take-append text (0 ∷ []))

abbrev cipher : AeadCipher
cipher = record {
  salt_size = 2;
  get_encrypter = λ salt. ok marking;
  get_decrypter = λ salt. ok marking;
}

abbrev salt : Bytes
salt = 8 ∷ 9 ∷ []

conn_write_example :
    (s : StreamConn) × (conn_write cipher salt (new_stream_conn []) (codes "hello") ≡ ok s)
    × ((conn_write_to cipher (new_stream_conn s.written)).0 ≡ codes "hello")
    × ((conn_write_to cipher (new_stream_conn s.written)).1 ≡ ok tt)
conn_write_example =
    conn_write-conn_write_to cipher salt (codes "hello") [] marking marking refl refl marking-IsPair
      refl

-- The check of the size lets one through that the buffer is too short for.
too_long : (r : StreamReader) → read_payload marking 16385 r ≡ (panics, r)
too_long r = refl
