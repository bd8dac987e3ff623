-- ===== src/Address/Buffer.antt =====
-- `ParseAddressFromBuffer` against the wire format.
use native.Mathlib.Decide.{ℕ_discrete}
use mini_ss.Common.{
  subst, ℕ, take-add, suc, ◌+◌, ◌≤◌, ◌<◌, ◌≡◌, refl, ◌≢◌, sym, ap, ◌∙◌, [], ◌∷◌, ◌++◌, arith,
  length, take, drop, length-append, length-take, length-drop, take-append, take-append-drop,
  le→ltb_false,
}
use mini_ss.Common.Bytes.{Bytes, IsBytes}
use mini_ss.Stream.{Outcome, ok, err, panics}
use mini_ss.Address.Defs.{cut, parse_address_from_buffer}
use mini_ss.Address.Wire.{Addr, ipv4, ipv6, domain, encode, IsAddr}

cut-append : (n : ℕ) (xs ys : Bytes) → length xs ≡ n → cut n (xs ++ ys) ≡ ok xs
unfolding cut
cut-append n xs ys h =
    let fits : n ≤ length (xs ++ ys) = omega (arith, length-append xs ys) in
    rw (le→ltb_false (length (xs ++ ys)) n fits, ← h, take-append xs ys)

-- An address at the front of a buffer is read whole, and what follows it is left.
pub parse_address_from_buffer-encode :
    (x : Addr) (rest : Bytes)
    → IsAddr x
    → parse_address_from_buffer (encode x ++ rest) ≡ ok (encode x)
unfolding parse_address_from_buffer
parse_address_from_buffer-encode (ipv4 ip p) rest h =
    ground (arith, cut-append 7 (1 ∷ (ip ++ p)) rest (omega (arith, length-append ip p)))
parse_address_from_buffer-encode (ipv6 ip p) rest h =
    ground (arith, cut-append 19 (4 ∷ (ip ++ p)) rest (omega (arith, length-append ip p)))
parse_address_from_buffer-encode (domain d p) rest h = ground (
  arith,
  cut-append (1 + 1 + length d + 2) (3 ∷ length d ∷ (d ++ p)) rest
      (omega (arith, length-append d p)),
)

cut-ok : (n : ℕ) (b : Bytes) {a : Bytes} → cut n b ≡ ok a → (n ≤ length b) × (a ≡ take n b)
unfolding cut
cut-ok n b e = ground arith

-- What is read is an address, and it is the front of the buffer.
abbrev pub Reads : Bytes → Bytes → Type 0
Reads b a = (x : Addr) × (rest : Bytes) × IsAddr x × (a ≡ encode x) × (b ≡ a ++ rest)

-- A host of `n` bytes and the two of a port, and what follows them.
split_host :
    (n : ℕ) (b : Bytes)
    → n + 2 ≤ length b
    → (h : Bytes) × (p : Bytes) × (rest : Bytes) × (length h ≡ n)
      × (length p ≡ 2)
      × (take (n + 2) b ≡ h ++ p)
      × (b ≡ (h ++ p) ++ rest)
split_host n b fits = (
  take n b,
  take 2 (drop n b),
  drop (n + 2) b,
  omega (arith, length-take n b),
  omega (arith, length-take 2 (drop n b), length-drop n b),
  take-add n 2 b,
  rw (← take-add n 2 b, take-append-drop (n + 2) b),
)

Reads-ipv4 : (b : Bytes) {a : Bytes} → cut 7 (1 ∷ b) ≡ ok a → Reads (1 ∷ b) a
Reads-ipv4 b {a} e =
    let (fits, front) = cut-ok 7 (1 ∷ b) e in
    let (h, p, rest, lh, lp, whole, all) = split_host 4 b (omega arith) in
    (ipv4 h p, rest, (lh, lp), front ∙ ap (◌∷◌ 1) whole, ground arith)

Reads-ipv6 : (b : Bytes) {a : Bytes} → cut 19 (4 ∷ b) ≡ ok a → Reads (4 ∷ b) a
Reads-ipv6 b {a} e =
    let (fits, front) = cut-ok 19 (4 ∷ b) e in
    let (h, p, rest, lh, lp, whole, all) = split_host 16 b (omega arith) in
    (ipv6 h p, rest, (lh, lp), front ∙ ap (◌∷◌ 4) whole, ground arith)

Reads-domain :
    (n : ℕ) (b : Bytes) {a : Bytes}
    → n < 256
    → cut (1 + 1 + n + 2) (3 ∷ n ∷ b) ≡ ok a
    → Reads (3 ∷ n ∷ b) a
Reads-domain n b {a} small e =
    let (fits, front) = cut-ok (1 + 1 + n + 2) (3 ∷ n ∷ b) e in
    let (h, p, rest, lh, lp, whole, all) = split_host n b (omega arith) in
    let count : 1 + 1 + n + 2 ≡ suc (suc (n + 2)) = omega arith in
    let shape : a ≡ 3 ∷ n ∷ (h ++ p) = front ∙ rw count (ap (λ l. 3 ∷ n ∷ l) whole) in
    (domain h p, rest, (omega arith, lp), rw lh shape, rw (shape) (ap (λ l. 3 ∷ n ∷ l) all))

abbrev Sound : ℕ → Bytes → Bytes → Type 0
Sound t b a = parse_address_from_buffer (t ∷ b) ≡ ok a → Reads (t ∷ b) a

Sound-domain : (b : Bytes) {a : Bytes} → IsBytes b → Sound 3 b a
unfolding parse_address_from_buffer
Sound-domain [] h e = ground arith
Sound-domain (n ∷ b) h e = Reads-domain n b h.0 (ground arith)

Sound-ipv4 : (b : Bytes) {a : Bytes} → Sound 1 b a
unfolding parse_address_from_buffer
Sound-ipv4 b e = Reads-ipv4 b (ground arith)

Sound-ipv6 : (b : Bytes) {a : Bytes} → Sound 4 b a
unfolding parse_address_from_buffer
Sound-ipv6 b e = Reads-ipv6 b (ground arith)

Sound-other : (t : ℕ) (b : Bytes) {a : Bytes} → t ≢ 3 → t ≢ 1 → t ≢ 4 → Sound t b a
unfolding parse_address_from_buffer
Sound-other t b h3 h1 h4 e = ground arith

-- Whatever is accepted is an address at the front of the buffer.
pub parse_address_from_buffer-Reads :
    (b : Bytes) {a : Bytes} → IsBytes b → parse_address_from_buffer b ≡ ok a → Reads b a
unfolding parse_address_from_buffer
parse_address_from_buffer-Reads [] h e = ground arith
parse_address_from_buffer-Reads (t ∷ b) {a} h e = elim (ℕ_discrete t 3) [
  | yes q ↦ subst (λ k. Sound k b a) (sym q) (Sound-domain b h.1) e
  | no q3 ↦ elim (ℕ_discrete t 1) [
    | yes q ↦ subst (λ k. Sound k b a) (sym q) (Sound-ipv4 b) e
    | no q1 ↦ elim (ℕ_discrete t 4) [
      | yes q ↦ subst (λ k. Sound k b a) (sym q) (Sound-ipv6 b) e
      | no q4 ↦ Sound-other t b q3 q1 q4 e
    ]
  ]
]

-- An address stands at the front of the buffer.
abbrev pub Holds : Bytes → Type 0
Holds b = (x : Addr) × (rest : Bytes) × IsAddr x × (b ≡ encode x ++ rest)

abbrev pub Parsed : Bytes → Outcome Bytes → Type 0
Parsed b (ok a) = Reads b a
Parsed b (err e) = Holds b → ⊥
Parsed b panics = ⊥

Holds-ok : (b : Bytes) → Holds b → (a : Bytes) × (parse_address_from_buffer b ≡ ok a)
Holds-ok b (x, rest, good, same) =
    (encode x, ap parse_address_from_buffer same ∙ parse_address_from_buffer-encode x rest good)

parse_address_from_buffer-ne-panics : (b : Bytes) → parse_address_from_buffer b ≢ panics
unfolding parse_address_from_buffer cut
parse_address_from_buffer-ne-panics [] e = ground arith
parse_address_from_buffer-ne-panics (t ∷ []) e = ground arith
parse_address_from_buffer-ne-panics (t ∷ n ∷ b) e = ground arith

-- ParseAddressFromBuffer gives the address in the wire format at the front of a buffer of bytes,
-- whole and without what follows it; it gives an error only where no address stands there, and never
-- panics.
pub parse_address_from_buffer_lem : (b : Bytes) → IsBytes b → Parsed b (parse_address_from_buffer b)
parse_address_from_buffer_lem b h = go (parse_address_from_buffer b) refl
  where
    go : (r : Outcome Bytes) → parse_address_from_buffer b ≡ r → Parsed b r
    go (ok a) e = parse_address_from_buffer-Reads b h e
    go (err x) e = λ there. let (a, fine) = Holds-ok b there in absurd (ground (arith, e, fine))
    go panics e = parse_address_from_buffer-ne-panics b e
