-- ===== src/Config/ServerLaws.antt =====
-- The options that BuildServerOptions makes, applied, against the description of the servers.
use mini_ss.Common.{
  ◌≡◌, refl, ◌⊎◌, Bool, true, false, Option, none, some, if◌then◌else◌, List, [], ◌∷◌, ◌++◌, inl,
  inr, Bool-cases, arith,
}
use mini_ss.Common.Bytes.{Bytes, codes, bytes_beq}
use mini_ss.Stream.{Outcome, ok, err, panics, Outcome-cases}
use mini_ss.Options.Defs.{ws, obfs, quic, grpc, ssh}
use mini_ss.Options.Settings.{
  ServerOptions, zero_local, Settings, SsOption, apply_all, websocket, quic_type, grpc_type,
  obfs_type, ssh_type,
}
use mini_ss.Options.Server.{fresh}
use mini_ss.Config.Types.{
  ServerConfig, WsOption, ObfsOption, QuicOption, GrpcOption, SshOption, SsrConfig,
}
use mini_ss.Config.Servers.{
  ws_parts, obfs_parts, quic_parts, grpc_parts, ssh_parts, ssr_parts, common_parts, transport_parts,
  parts_of,
}
use mini_ss.Config.Description.{
  ws_of, quic_of, grpc_of, ssh_of, over, over_ssr, over_tcp, described_by, transport_of, named,
}

-- The settings inside of a composed option, whose server is `o`.
abbrev pub inside : Settings → ServerOptions → Settings
inside s o = record s { server_opts = o ∷ []; local_opts = zero_local }

pub apply_all-append :
    (xs ys : List SsOption) (s : Settings)
    → apply_all (xs ++ ys) s
      ≡ elim (apply_all xs s) [ ok x ↦ apply_all ys x | err e ↦ err e | panics ↦ panics ]
unfolding apply_all
apply_all-append [] ys s = refl
apply_all-append (x ∷ xs) ys s = elim (Outcome-cases (x s)) [
  | inl (t, done) ↦ ground (arith, done, apply_all-append xs ys t)
  | inr (inl (f, bad)) ↦ ground (arith, bad)
  | inr (inr bad) ↦ ground (arith, bad)
]

pub apply_all-append_ok :
    (xs ys : List SsOption) (s s' : Settings)
    → apply_all xs s ≡ ok s'
    → apply_all (xs ++ ys) s ≡ apply_all ys s'
apply_all-append_ok xs ys s s' e = ground (arith, e, apply_all-append xs ys s)

-- How a text stands to the two names of TLS modes.
tls_cases :
    (text : Bytes)
    → (bytes_beq text (codes "tls") ≡ true)
      ⊎ ((bytes_beq text (codes "tls") ≡ false) × (bytes_beq text (codes "mtls") ≡ true))
      ⊎ ((bytes_beq text (codes "tls") ≡ false) × (bytes_beq text (codes "mtls") ≡ false))
tls_cases text = elim (Bool-cases (bytes_beq text (codes "tls"))) [
  | inl one ↦ inl one
  | inr not_one ↦ elim (Bool-cases (bytes_beq text (codes "mtls"))) [
    | inl two ↦ inr (inl (not_one, two))
    | inr not_two ↦ inr (inr (not_one, not_two))
  ]
]

ws_parts-over :
    (w : WsOption) (s : Settings)
    → apply_all (ws_parts w) (fresh s) ≡ ok (inside s (over websocket (ws (ws_of w))))
unfolding apply_all ws_parts
ws_parts-over w s = elim (Bool-cases (w.compress)) [
  | inl packed ↦ elim (tls_cases w.tls.mode) [
    | inl one ↦ simp (packed, one) refl
    | inr (inl (not_one, two)) ↦ simp (packed, not_one, two) refl
    | inr (inr (not_one, not_two)) ↦ simp (packed, not_one, not_two) refl
  ]
  | inr bare ↦ elim (tls_cases w.tls.mode) [
    | inl one ↦ simp (bare, one) refl
    | inr (inl (not_one, two)) ↦ simp (bare, not_one, two) refl
    | inr (inr (not_one, not_two)) ↦ simp (bare, not_one, not_two) refl
  ]
]

obfs_parts-over :
    (o : ObfsOption) (s : Settings)
    → apply_all (obfs_parts o) (fresh s)
      ≡ ok (inside s (over obfs_type (obfs (record { host = o.host }))))
unfolding apply_all obfs_parts
obfs_parts-over o s = refl

quic_parts-over :
    (q : QuicOption) (s : Settings)
    → apply_all (quic_parts q) (fresh s) ≡ ok (inside s (over quic_type (quic (quic_of q))))
unfolding apply_all quic_parts
quic_parts-over q s = elim (tls_cases q.tls.mode) [
  | inl one ↦ ground (arith, one)
  | inr (inl (not_one, two)) ↦ ground (arith, not_one, two)
  | inr (inr (not_one, not_two)) ↦ ground (arith, not_one, not_two)
]

grpc_parts-over :
    (g : GrpcOption) (s : Settings)
    → apply_all (grpc_parts g) (fresh s) ≡ ok (inside s (over grpc_type (grpc (grpc_of g))))
unfolding apply_all grpc_parts
grpc_parts-over g s = elim (tls_cases g.tls.mode) [
  | inl one ↦ simp one refl
  | inr (inl (not_one, two)) ↦ simp (not_one, two) refl
  | inr (inr (not_one, not_two)) ↦ simp (not_one, not_two) refl
]

ssh_parts-over :
    (o : SshOption) (s : Settings)
    → apply_all (ssh_parts o) (fresh s) ≡ ok (inside s (over ssh_type (ssh (ssh_of o))))
unfolding apply_all ssh_parts
ssh_parts-over o s = refl

ssr_parts-over :
    (o : SsrConfig) (s : Settings) → apply_all (ssr_parts o) (fresh s) ≡ ok (inside s (over_ssr o))
unfolding apply_all ssr_parts
ssr_parts-over o s = refl

pub common_parts-named :
    (c : ServerConfig) (o : ServerOptions) (s : Settings)
    → apply_all (common_parts c) (inside s o) ≡ ok (inside s (named c o))
unfolding apply_all common_parts
common_parts-named c o s = refl

-- The parts of a transport make the server that it describes; they panic where it describes none.
abbrev pub Meets : Settings → Outcome (List SsOption) → Option ServerOptions → Type 0
Meets s (ok parts) (some o) = apply_all parts (fresh s) ≡ ok (inside s o)
Meets s (ok parts) none = ⊥
Meets s (err e) o = ⊥
Meets s panics none = Unit
Meets s panics (some o) = ⊥

pub record Describes (s : Settings) (p : Outcome (List SsOption)) (o : Option ServerOptions)
    : Type 0 where
  pub meets : Meets s p o

parts_of-Describes :
    {A : Type 0} (f : A → List SsOption) (g : A → ServerOptions) (o : Option A) (s : Settings)
    → ((a : A) → apply_all (f a) (fresh s) ≡ ok (inside s (g a)))
    → Describes s (parts_of f o) (described_by g o)
parts_of-Describes f g none s h = record { meets = tt }
parts_of-Describes f g (some a) s h = record { meets = h a }

Describes-if :
    (s : Settings) (b : Bool) (p q : Outcome (List SsOption)) (d e : Option ServerOptions)
    → Describes s p d
    → Describes s q e
    → Describes s (if b then p else q) (if b then d else e)
Describes-if s true p q d e h k = h
Describes-if s false p q d e h k = k

plain_tcp : (s : Settings) → Describes s (ok []) (some over_tcp)
unfolding apply_all
plain_tcp s = record { meets = refl }

pub transport_parts-Describes :
    (c : ServerConfig) (s : Settings) → Describes s (transport_parts c) (transport_of c)
unfolding transport_parts transport_of apply_all
transport_parts-Describes c s =
    Describes-if s (bytes_beq c.transport (codes "ws")) _ _ _ _
      (parts_of-Describes ws_parts _ c.ws s (λ w. ws_parts-over w s))
      (Describes-if s (bytes_beq c.transport (codes "obfs")) _ _ _ _
        (parts_of-Describes obfs_parts _ c.obfs s (λ o. obfs_parts-over o s))
        (Describes-if s (bytes_beq c.transport (codes "quic")) _ _ _ _
          (parts_of-Describes quic_parts _ c.quic s (λ q. quic_parts-over q s))
          (Describes-if s (bytes_beq c.transport (codes "grpc")) _ _ _ _
            (parts_of-Describes grpc_parts _ c.grpc s (λ g. grpc_parts-over g s))
            (Describes-if s (bytes_beq c.transport (codes "ssh")) _ _ _ _
              (parts_of-Describes ssh_parts _ c.ssh s (λ o. ssh_parts-over o s))
              (Describes-if s (bytes_beq c.transport (codes "default")) _ _ _ _
                (Describes-if s (bytes_beq c.server_type (codes "ssr")) _ _ _ _
                  (parts_of-Describes ssr_parts _ c.ssr s (λ o. ssr_parts-over o s)) (plain_tcp s))
                (plain_tcp s))))))
