-- ===== src/Client/Proxies.antt =====
-- The proxies that the client can select.
use mini_ss.Common.{
  ◌≡◌, refl, sym, ap, ◌∙◌, not, ◌&&◌, Option, none, some, if◌then◌else◌, List, [], ◌∷◌, inl, inr,
  Bool-cases, Option-cases, arith,
}
use mini_ss.Common.Bytes.{Bytes, bytes_beq, Bytes_comparable}
use mini_ss.Stream.{ok}
use mini_ss.Rule.Choice.{ok_inj}
use mini_ss.Trie.Defs.{is_empty}
use mini_ss.Selector.Defs.{Selector, Invoker, by_proxy, add_proxy, add_packet_proxy, select_stream}
use mini_ss.Selector.Laws.{select_stream-add_proxy}
use mini_ss.Options.Settings.{ServerOptions}
use mini_ss.Client.Defs.{add_server, init_server_option, init_servers}

module _ {T U : Type 0} where
  -- Where a name leads that the servers are searched for from the last to the first.
  abbrev pub relayer_for :
      (ServerOptions → Option (T × U)) → List ServerOptions → Bytes → Invoker T → Invoker T
  relayer_for relayers [] q old = old
  relayer_for relayers (o ∷ os) q old = relayer_for relayers os q (elim (relayers o) [
    | some (stream, packet) ↦
        if bytes_beq o.name q && not (is_empty q) then by_proxy stream else old
    | none ↦ old
  ])

  select_stream-add_packet_proxy :
      (s : Selector T U) (name : Bytes) (p : U) (q : Bytes)
      → select_stream (add_packet_proxy s name p) q ≡ select_stream s q
  unfolding select_stream add_packet_proxy
  select_stream-add_packet_proxy s name p q = refl

  select_stream-add_server :
      (s : Selector T U) (o : ServerOptions) (stream : T) (packet : U) (q : Bytes)
      → select_stream (add_server s o stream packet) q
        ≡ (if bytes_beq o.name q && not (is_empty q) then by_proxy stream else select_stream s q)
  select_stream-add_server s o stream packet q =
      let added = (select_stream-add_proxy s o.name stream q).0 in
      elim (Bool-cases o.udp) [
        | inl e ↦
            simp e
              (select_stream-add_packet_proxy (add_proxy s o.name stream) o.name packet q ∙ added)
        | inr e ↦ simp e added
      ]

  init_servers-step :
      (relayers : ServerOptions → Option (T × U)) (s : Selector T U) (o : ServerOptions)
      (os : List ServerOptions) (p : T × U)
      → relayers o ≡ some p
      → init_servers relayers s (o ∷ os) ≡ init_servers relayers (add_server s o p.0 p.1) os
  unfolding init_servers init_server_option
  init_servers-step relayers s o os p e = ground (arith, e)

  -- After the servers are set up, a name stands for the last server that has it, and any other for
  -- what it stood for.
  pub select_stream-init_servers :
      (relayers : ServerOptions → Option (T × U)) (s s' : Selector T U) (os : List ServerOptions)
      (q : Bytes)
      → init_servers relayers s os ≡ ok s'
      → select_stream s' q ≡ relayer_for relayers os q (select_stream s q)
  unfolding init_servers init_server_option
  select_stream-init_servers relayers s s' [] q e = ap (λ t. select_stream t q) (sym (ok_inj e))
  select_stream-init_servers relayers s s' (o ∷ os) q e = elim (Option-cases (relayers o)) [
    | inl e1 ↦ absurd (ground (arith, e, e1))
    | inr (p, e1) ↦
        let added = add_server s o p.0 p.1 in
        let rest : init_servers relayers added os ≡ ok s' =
          sym (init_servers-step relayers s o os p e1) ∙ e in
        let first = select_stream-add_server s o p.0 p.1 q in
        simp e1 (
          select_stream-init_servers relayers added s' os q rest
          ∙ ap (λ i. relayer_for relayers os q i) first)
  ]
