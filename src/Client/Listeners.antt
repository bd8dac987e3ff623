-- ===== src/Client/Listeners.antt =====
-- What the listeners of NewShadowsocksClient ask of the clients of each protocol.
use mini_ss.Common.{
  ◌≡◌, refl, sym, ap, subst, ◌∙◌, if◌then◌else◌, Option, none, some, List, [], ◌∷◌, ◌++◌, inl, inr,
  arith, Bool-cases,
}
use mini_ss.Common.Bytes.{Bytes}
use mini_ss.Stream.{ok, Outcome-cases}
use mini_ss.Rule.Choice.{ok_inj}
use mini_ss.Socks.Auth.{Auth}
use mini_ss.Trie.Defs.{is_empty}
use mini_ss.Options.Settings.{LocalOptions}
use mini_ss.Client.Defs.{
  Listener, tcp_tun, mixed, http_proxy, socks_proxy, tun_listeners, proxy_listeners,
}

-- Where clients of HTTP are served, and by which credentials; of SOCKS; and the ends of the tunnels.
abbrev pub http_served : List Listener → List (Bytes × Option Auth)
http_served [] = []
http_served (mixed a h s ∷ ls) = (a, h) ∷ http_served ls
http_served (http_proxy a h ∷ ls) = (a, h) ∷ http_served ls
http_served (socks_proxy a s ∷ ls) = http_served ls
http_served (tcp_tun a b ∷ ls) = http_served ls

abbrev pub socks_served : List Listener → List (Bytes × Option Auth)
socks_served [] = []
socks_served (mixed a h s ∷ ls) = (a, s) ∷ socks_served ls
socks_served (socks_proxy a s ∷ ls) = (a, s) ∷ socks_served ls
socks_served (http_proxy a h ∷ ls) = socks_served ls
socks_served (tcp_tun a b ∷ ls) = socks_served ls

abbrev pub tunnels : List Listener → List (Bytes × Bytes)
tunnels [] = []
tunnels (tcp_tun a b ∷ ls) = (a, b) ∷ tunnels ls
tunnels (mixed a h s ∷ ls) = tunnels ls
tunnels (http_proxy a h ∷ ls) = tunnels ls
tunnels (socks_proxy a s ∷ ls) = tunnels ls

-- A protocol is served at the mixed address, or else at its own, or nowhere.
abbrev pub served_at : Bytes → Bytes → Option Auth → List (Bytes × Option Auth)
served_at both own auth =
    if is_empty both then (if is_empty own then [] else (own, auth) ∷ []) else (both, auth) ∷ []

-- The first two texts of each entry; `none` where one has fewer.
abbrev pub ends : List (List Bytes) → Option (List (Bytes × Bytes))
ends [] = some []
ends ([] ∷ ts) = none
ends ((a ∷ []) ∷ ts) = none
ends ((a ∷ b ∷ more) ∷ ts) = elim (ends ts) [ some es ↦ some ((a, b) ∷ es) | none ↦ none ]

-- The listeners serve what the options name.
pub record Serves (l : LocalOptions) (ls : List Listener) : Type 0 where
  pub http : http_served ls ≡ served_at l.mixed_addr l.http_addr l.http_auth
  pub socks : socks_served ls ≡ served_at l.mixed_addr l.socks_addr l.socks_auth
  pub tuns : some (tunnels ls) ≡ ends l.tcp_tun_addr

proxies-Serve :
    (l : LocalOptions)
    → (http_served (proxy_listeners l) ≡ served_at l.mixed_addr l.http_addr l.http_auth)
      × (socks_served (proxy_listeners l) ≡ served_at l.mixed_addr l.socks_addr l.socks_auth)
      × (tunnels (proxy_listeners l) ≡ [])
unfolding proxy_listeners
proxies-Serve l = elim (Bool-cases (is_empty l.mixed_addr)) [
  | inr both ↦ (ground (arith, both), ground (arith, both), ground (arith, both))
  | inl own ↦ elim (Bool-cases (is_empty l.http_addr)) [
    | inl e ↦ elim (Bool-cases (is_empty l.socks_addr)) [
      | inl e' ↦
          (ground (arith, own, e, e'), ground (arith, own, e, e'), ground (arith, own, e, e'))
      | inr e' ↦
          (ground (arith, own, e, e'), ground (arith, own, e, e'), ground (arith, own, e, e'))
    ]
    | inr e ↦ elim (Bool-cases (is_empty l.socks_addr)) [
      | inl e' ↦
          (ground (arith, own, e, e'), ground (arith, own, e, e'), ground (arith, own, e, e'))
      | inr e' ↦
          (ground (arith, own, e, e'), ground (arith, own, e, e'), ground (arith, own, e, e'))
    ]
  ]
]

-- The listeners of the tunnels, before others.
tuns-Serve :
    (ts : List (List Bytes)) (tuns more : List Listener)
    → tun_listeners ts ≡ ok tuns
    → tunnels more ≡ []
    → (http_served (tuns ++ more) ≡ http_served more)
      × (socks_served (tuns ++ more) ≡ socks_served more)
      × (some (tunnels (tuns ++ more)) ≡ ends ts)
unfolding tun_listeners
tuns-Serve [] tuns more e no_tuns =
    subst
      (λ (xs : List Listener).
        (http_served (xs ++ more) ≡ http_served more)
        × (socks_served (xs ++ more) ≡ socks_served more)
        × (some (tunnels (xs ++ more)) ≡ ends []))
      (ok_inj e) (refl, refl, ap (λ (t : List (Bytes × Bytes)). some t) no_tuns)
tuns-Serve ([] ∷ ts) tuns more e no_tuns = absurd (ground (arith, e))
tuns-Serve ((a ∷ []) ∷ ts) tuns more e no_tuns = absurd (ground (arith, e))
tuns-Serve ((a ∷ b ∷ cs) ∷ ts) tuns more e no_tuns = elim (Outcome-cases (tun_listeners ts)) [
  | inr (inl (x, e1)) ↦ absurd (ground (arith, e, e1))
  | inr (inr e1) ↦ absurd (ground (arith, e, e1))
  | inl (rest, e1) ↦
      let (h, s, t) = tuns-Serve ts rest more e1 no_tuns in
      let same : ok (tcp_tun a b ∷ rest) ≡ ok tuns = ground (arith, e, e1) in
      subst
        (λ (xs : List Listener).
          (http_served (xs ++ more) ≡ http_served more)
          × (socks_served (xs ++ more) ≡ socks_served more)
          × (some (tunnels (xs ++ more)) ≡ ends ((a ∷ b ∷ cs) ∷ ts)))
        (ok_inj same) (h, s, ground (arith, sym t))
]

-- The listeners that a client starts.
pub listeners-Serve :
    (l : LocalOptions) (tuns : List Listener)
    → tun_listeners l.tcp_tun_addr ≡ ok tuns
    → Serves l (tuns ++ proxy_listeners l)
listeners-Serve l tuns e =
    let (h, s, none_there) = proxies-Serve l in
    let (h', s', t) = tuns-Serve l.tcp_tun_addr tuns (proxy_listeners l) e none_there in
    record { http = h' ∙ h; socks = s' ∙ s; tuns = t }
