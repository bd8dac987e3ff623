-- ===== src/Aead/RoundTrip.antt =====
-- What the reader of ss/aead/stream_conn.go makes of what the writer wrote.
use mini_ss.Common.{
  ℕ, zero, suc, ◌+◌, ◌≤◌, ◌<◌, ◌≡◌, refl, sym, ap, subst, ◌∙◌, some, List, [], ◌∷◌, ◌++◌, length,
  min, ◌-◌, take, drop, length-append, take-append, drop-append, take-append-drop, length-take,
  length-drop, arith,
}
use mathlib.Core.List.{append_assoc, append-nil}
use mini_ss.Common.Bytes.{Bytes}
use mini_ss.Stream.{Outcome, ok, err, panics, eof}
use mini_ss.Aead.Defs.{
  Aead, max_tcp_buffer_size, increment, StreamReader, read_bytes, opened, open_next, read_sealed,
  size_of, read_payload, then_payload, read_chunk, at_end, pump, write_to, head_of, write_chunk,
  read_from, pieces,
}

-- What the one AEAD seals the other opens, and a sealed text is longer by the overhead.
pub record IsPair (enc dec : Aead) : Type 0 where
  pub same_nonce : enc.nonce_size ≡ dec.nonce_size
  pub opens : (nonce text : Bytes) → dec.open_sealed nonce (enc.seal nonce text) ≡ some text
  pub sealed_length :
      (nonce text : Bytes) → length (enc.seal nonce text) ≡ length text + dec.overhead

pub read_bytes-front :
    (n : ℕ) (xs rest : Bytes) → length xs ≡ n → read_bytes n (xs ++ rest) ≡ (ok xs, rest)
unfolding read_bytes
read_bytes-front n xs rest e =
    ground (arith, e, length-append xs rest, take-append xs rest, drop-append xs rest)

size_of-head : (n : ℕ) → n ≤ max_tcp_buffer_size → size_of (head_of n) ≡ n
size_of-head n h = omega (arith, h)

abbrev pub joined : List Bytes → Bytes
joined [] = []
joined (p ∷ ps) = p ++ joined ps

-- Each payload fits a chunk and has a byte.
abbrev pub Fit : List Bytes → Type 0
Fit [] = Unit
Fit (p ∷ ps) = (0 < length p) × (length p ≤ max_tcp_buffer_size) × Fit ps

module _ (enc dec : Aead) (pair : IsPair enc dec) where
  read_sealed-seal :
      (n : ℕ) (text rest remain nonce : Bytes)
      → length text ≡ n
      → read_sealed dec n
          (record { input = enc.seal nonce text ++ rest; remain = remain; nonce = nonce })
        ≡ (ok text, record { input = rest; remain = remain; nonce = increment nonce })
  unfolding read_sealed
  read_sealed-seal n text rest remain nonce e =
      let r : StreamReader = record {
        input = enc.seal nonce text ++ rest;
        remain = remain;
        nonce = nonce;
      } in
      let size : length (enc.seal nonce text) ≡ n + dec.overhead =
        pair.sealed_length nonce text ∙ ap (λ k. k + dec.overhead) e in
      ap (open_next dec r) (read_bytes-front (n + dec.overhead) (enc.seal nonce text) rest size)
      ∙ ap (opened (record r { input = rest })) (pair.opens nonce text)

  read_payload-small :
      (n : ℕ) (r : StreamReader)
      → n ≤ max_tcp_buffer_size
      → read_payload dec n r ≡ read_sealed dec n r
  read_payload-small n r h = ground (arith, h)

  -- The bytes of a chunk.
  abbrev pub chunk : Bytes → Bytes → Bytes
  chunk nonce payload =
      enc.seal nonce (head_of (length payload)) ++ enc.seal (increment nonce) payload

  read_chunk-chunk :
      (payload rest remain nonce : Bytes)
      → length payload ≤ max_tcp_buffer_size
      → read_chunk dec
          (record { input = chunk nonce payload ++ rest; remain = remain; nonce = nonce })
        ≡ (
          ok payload,
          record { input = rest; remain = remain; nonce = increment (increment nonce) },
        )
  unfolding read_chunk
  read_chunk-chunk payload rest remain nonce h =
      let second : Bytes = enc.seal (increment nonce) payload in
      let r : StreamReader = record {
        input = second ++ rest;
        remain = remain;
        nonce = increment nonce;
      } in
      ap (λ i. read_chunk dec (record { input = i; remain = remain; nonce = nonce }))
        (append_assoc (enc.seal nonce (head_of (length payload))) second rest)
      ∙ ap (then_payload dec)
          (read_sealed-seal 2 (head_of (length payload)) (second ++ rest) remain nonce refl)
      ∙ ap (λ n. read_payload dec n r) (size_of-head (length payload) h)
      ∙ read_payload-small (length payload) r h
      ∙ read_sealed-seal (length payload) payload rest remain (increment nonce) refl

  -- The chunks of the payloads, and the nonce behind them.
  abbrev pub chunks : Bytes → List Bytes → Bytes
  chunks nonce [] = []
  chunks nonce (p ∷ ps) = chunk nonce p ++ chunks (increment (increment nonce)) ps

  -- How a pump ends: what it wrote and its error.
  abbrev pub Pumped : Bytes → Bytes × Outcome (Unit {0}) × StreamReader → Type 0
  Pumped text r = (r.0 ≡ text) × (r.1 ≡ ok tt)

  -- The pump after its first chunk.
  abbrev pumped : ℕ → Outcome Bytes × StreamReader → Bytes × Outcome (Unit {0}) × StreamReader
  pumped fuel o = elim o.0 [
    | ok payload ↦ let (out, end, last) = pump dec fuel o.1 in (payload ++ out, end, last)
    | err e ↦ ([], at_end e, o.1)
    | panics ↦ ([], panics, o.1)
  ]

  read_chunk-end :
      (remain nonce : Bytes)
      → read_chunk dec (record { input = []; remain = remain; nonce = nonce })
        ≡ (err eof, record { input = []; remain = remain; nonce = nonce })
  unfolding read_chunk read_sealed read_bytes
  read_chunk-end remain nonce = ground arith

  pump-chunks :
      (ps : List Bytes) (fuel : ℕ) (remain nonce : Bytes)
      → Fit ps
      → length ps < fuel
      → Pumped
          (joined ps)
          (pump dec fuel (record { input = chunks nonce ps; remain = remain; nonce = nonce }))
  unfolding pump
  pump-chunks ps zero remain nonce f h = absurd (omega (arith, h))
  pump-chunks [] (suc fuel) remain nonce f h =
      subst (λ o. Pumped [] (pumped fuel o)) (sym (read_chunk-end remain nonce)) (refl, refl)
  pump-chunks (p ∷ ps) (suc fuel) remain nonce f h =
      let (wrote_rest, ended) =
        pump-chunks ps fuel remain (increment (increment nonce)) f.2 (omega (arith, h)) in
      subst (λ o. Pumped (p ++ joined ps) (pumped fuel o))
        (sym (read_chunk-chunk p (chunks (increment (increment nonce)) ps) remain nonce f.1))
        (ap (λ out. p ++ out) wrote_rest, ended)

  length-chunks : (nonce : Bytes) (ps : List Bytes) → length ps ≤ length (chunks nonce ps)
  length-chunks nonce [] = omega arith
  length-chunks nonce (p ∷ ps) =
      let later = increment (increment nonce) in
      let first = enc.seal nonce (head_of (length p)) in
      omega (
        arith,
        length-chunks later ps,
        length-append (chunk nonce p) (chunks later ps),
        length-append first (enc.seal (increment nonce) p),
        pair.sealed_length nonce (head_of (length p)),
      )

  pub write_to-chunks :
      (ps : List Bytes) (nonce : Bytes)
      → Fit ps
      → Pumped
          (joined ps)
          (write_to dec (record { input = chunks nonce ps; remain = []; nonce = nonce }))
  unfolding write_to
  write_to-chunks ps nonce f =
      pump-chunks ps (suc (length (chunks nonce ps))) [] nonce f
        (omega (arith, length-chunks nonce ps))

  -- The writer puts out the chunks of the payloads.
  pub read_from-chunks :
      (ps : List Bytes) (output nonce : Bytes)
      → Fit ps
      → (read_from enc (record { output = output; nonce = nonce }) ps).output
        ≡ output ++ chunks nonce ps
  unfolding read_from write_chunk
  read_from-chunks [] output nonce f = sym (append-nil output)
  read_from-chunks ([] ∷ ps) output nonce f = absurd (omega (arith, f.0))
  read_from-chunks ((b ∷ bs) ∷ ps) output nonce f =
      read_from-chunks ps (output ++ chunk nonce (b ∷ bs)) (increment (increment nonce)) f.2
      ∙ append_assoc output (chunk nonce (b ∷ bs)) (chunks (increment (increment nonce)) ps)

-- The pieces of a text fit, and make up the text.
pub pieces-Fit :
    (fuel : ℕ) (text : Bytes)
    → length text ≤ fuel
    → Fit (pieces fuel text) × (joined (pieces fuel text) ≡ text)
unfolding pieces
pieces-Fit zero [] h = (tt, refl)
pieces-Fit zero (b ∷ bs) h = absurd (omega (arith, h))
pieces-Fit (suc fuel) [] h = (tt, refl)
pieces-Fit (suc fuel) (b ∷ bs) h =
    let front = take max_tcp_buffer_size (b ∷ bs) in
    let behind = drop max_tcp_buffer_size (b ∷ bs) in
    let size : length front ≡ min max_tcp_buffer_size (length (b ∷ bs)) =
      length-take max_tcp_buffer_size (b ∷ bs) in
    let left : length behind ≡ length (b ∷ bs) - max_tcp_buffer_size =
      length-drop max_tcp_buffer_size (b ∷ bs) in
    let (fits, makes) = pieces-Fit fuel behind (omega (arith, left, h)) in
    (
      (omega (arith, size), omega (arith, size), fits),
      ap (λ t. front ++ t) makes ∙ take-append-drop max_tcp_buffer_size (b ∷ bs),
    )
