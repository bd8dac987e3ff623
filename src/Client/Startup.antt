-- ===== src/Client/Startup.antt =====
-- NewShadowsocksClient of ss/ss_client.go: what a client that was made selects.
use mini_ss.Common.{
  ◌≡◌, ◌≢◌, ◌⊎◌, refl, sym, ap, subst, ◌∙◌, true, false, if◌then◌else◌, Option, none, some, List,
  [], ◌∷◌, ◌++◌, inl, inr, arith,
}
use mini_ss.Common.Bytes.{Bytes, bytes_beq, Bytes_comparable}
use mini_ss.Stream.{Outcome, ok, err, panics, Outcome-cases}
use mini_ss.Trie.Defs.{is_empty}
use mini_ss.Rule.Item.{global}
use mini_ss.Rule.Matcher.{Env}
use mini_ss.Rule.Ruler.{Ruler, match_target, select, auto_select}
use mini_ss.Rule.Choice.{ok_inj, RuleMode-cases}
use mini_ss.Client.Listeners.{Serves, listeners-Serve}
use mini_ss.Selector.Defs.{Selector, Invoker, by_proxy, select_stream}
use mini_ss.Options.Settings.{ServerOptions, Globals, Settings, SsOption, apply_all}
use mini_ss.Client.Defs.{
  Client, Listener, default_local_opts, default_name, detect_interface, name_single, init_servers,
  tun_listeners, proxy_listeners, finish, new_client,
}
use mini_ss.Client.Proxies.{relayer_for, select_stream-init_servers}

-- What the options are applied to.
abbrev pub starting : Globals → Settings
starting g = record { server_opts = []; local_opts = default_local_opts; globals = g }

-- The settings with the interface of the default route.
abbrev pub detected : Option Bytes → Settings → Settings
detected route s = record s { globals = detect_interface route s.globals }

-- The settings of a client with one server that has no name.
abbrev pub alone : Option Bytes → Settings → ServerOptions → Ruler → Settings
alone route s o r = record s {
  server_opts = record o { name = default_name } ∷ [];
  globals = record (detect_interface route s.globals) {
    match_ruler = some (record r { global_to = default_name });
  };
}

detect_interface-match_ruler :
    (route : Option Bytes) (g : Globals) → (detect_interface route g).match_ruler ≡ g.match_ruler
unfolding detect_interface
detect_interface-match_ruler route g = ground arith

name_single-alone :
    (route : Option Bytes) (s : Settings) (o : ServerOptions) (r : Ruler)
    → s.server_opts ≡ o ∷ []
    → is_empty o.name ≡ true
    → s.globals.match_ruler ≡ some r
    → is_empty r.global_to ≡ true
    → name_single (detected route s) ≡ ok (alone route s o r)
unfolding name_single
name_single-alone route s o r one no_name ruler no_global =
    ground (arith, one, no_name, ruler, no_global, detect_interface-match_ruler route s.globals)

-- With the global proxy `name`, a match settles the target, and the choice is that proxy.
abbrev pub SentTo : Env → Ruler → Bytes → Bytes → Type 0
SentTo env r target name =
    (after : Ruler) × (match_target env (record r { global_to = name }) target
      ≡ ok (true, after, target))
    × (select after ≡ ok name)

global-SentTo :
    (env : Env) (r : Ruler) (target name : Bytes)
    → r.rule_mode ≡ global
    → is_empty name ≡ false
    → SentTo env r target name
unfolding match_target select
global-SentTo env r target name mode named = (
  record r { global_to = name; matched = some (auto_select global) },
  ground (arith, mode),
  ground (arith, named),
)

sent_if_global :
    (env : Env) (r : Ruler) (target : Bytes)
    → (r.rule_mode ≢ global) ⊎ SentTo env r target default_name
sent_if_global env r target = elim (RuleMode-cases r.rule_mode) [
  | inl m ↦ inl (λ e. ground (arith, m, e))
  | inr (inl g) ↦ inr (global-SentTo env r target default_name g refl)
  | inr (inr d) ↦ inl (λ e. ground (arith, d, e))
]

module _ {T U : Type 0} where
  abbrev started :
      (ServerOptions → Option (T × U)) → Selector T U → Outcome Settings → Outcome (Client T U)
  started relayers sel r = elim r [
    | ok t ↦
        finish t (init_servers relayers sel t.server_opts) (tun_listeners t.local_opts.tcp_tun_addr)
    | err e ↦ err e
    | panics ↦ panics
  ]

  abbrev made : Settings → Selector T U → List Listener → Client T U
  made s sel tuns = record {
    settings = s;
    selector = sel;
    listeners = tuns ++ proxy_listeners s.local_opts;
    enhancer = if s.local_opts.enable_tun then some s.local_opts.enhancer_config else none;
  }

  -- The stages that a client has gone through.
  pub record Stages (relayers : ServerOptions → Option (T × U)) (route : Option Bytes) (g : Globals)
      (sel : Selector T U) (opts : List SsOption) (c : Client T U) : Type 0 where
    pub applied : Settings
    pub tuns : List Listener
    pub by_options : apply_all opts (starting g) ≡ ok applied
    pub by_name : name_single (detected route applied) ≡ ok c.settings
    pub by_servers : init_servers relayers sel c.settings.server_opts ≡ ok c.selector
    pub by_tuns : tun_listeners c.settings.local_opts.tcp_tun_addr ≡ ok tuns
    pub all_listeners : c.listeners ≡ tuns ++ proxy_listeners c.settings.local_opts

  pub new_client-Stages :
      (relayers : ServerOptions → Option (T × U)) (route : Option Bytes) (g : Globals)
      (sel : Selector T U) (opts : List SsOption) (c : Client T U)
      → new_client relayers route g sel opts ≡ ok c
      → Stages relayers route g sel opts c
  unfolding new_client
  new_client-Stages relayers route g sel opts c e =
      elim (Outcome-cases (apply_all opts (starting g))) [
        | inr (inl (x, e1)) ↦ absurd (ground (arith, e, e1))
        | inr (inr e1) ↦ absurd (ground (arith, e, e1))
        | inl (s, e1) ↦ elim (Outcome-cases (name_single (detected route s))) [
          | inr (inl (x, e2)) ↦ absurd (ground (arith, e, e1, e2))
          | inr (inr e2) ↦ absurd (ground (arith, e, e1, e2))
          | inl (t, e2) ↦ elim (Outcome-cases (init_servers relayers sel t.server_opts)) [
            | inr (inl (x, e3)) ↦ absurd (ground (arith, e, e1, e2, e3))
            | inr (inr e3) ↦ absurd (ground (arith, e, e1, e2, e3))
            | inl (sel', e3) ↦ elim (Outcome-cases (tun_listeners t.local_opts.tcp_tun_addr)) [
              | inr (inl (x, e4)) ↦ absurd (ground (arith, e, e1, e2, e3, e4))
              | inr (inr e4) ↦ absurd (ground (arith, e, e1, e2, e3, e4))
              | inl (tuns, e4) ↦
                  let all : finish t (ok sel') (ok tuns) ≡ ok c =
                    ground (arith, e, e1, e2, e3, e4) in
                  let same : made t sel' tuns ≡ c = ok_inj all in
                  subst (λ (x : Client T U). Stages relayers route g sel opts x) same
                    (record {
                      applied = s;
                      tuns = tuns;
                      by_options = e1;
                      by_name = e2;
                      by_servers = e3;
                      by_tuns = e4;
                      all_listeners = refl;
                    })
            ]
          ]
        ]
      ]

  -- A client that was made serves what its options name: HTTP and SOCKS at the mixed address, each with
  -- its own credentials, or else each at its own address, or nowhere, and the tunnels between the first
  -- two texts of each entry, in their order. Its selector gives for a name the last server that has it,
  -- and otherwise what it gave before. The names and the options are those of the client's settings.
  pub new_client_lem :
      (relayers : ServerOptions → Option (T × U)) (route : Option Bytes) (g : Globals)
      (sel : Selector T U) (opts : List SsOption) (c : Client T U) (q : Bytes)
      → new_client relayers route g sel opts ≡ ok c
      → (select_stream c.selector q
          ≡ relayer_for relayers c.settings.server_opts q (select_stream sel q))
        × Serves c.settings.local_opts c.listeners
  new_client_lem relayers route g sel opts c q e =
      let stages = new_client-Stages relayers route g sel opts c e in
      (
        select_stream-init_servers relayers sel c.selector c.settings.server_opts q
            stages.by_servers,
        subst (Serves c.settings.local_opts) (sym stages.all_listeners)
            (listeners-Serve c.settings.local_opts stages.tuns stages.by_tuns),
      )

  found :
      (relayers : ServerOptions → Option (T × U)) (o : ServerOptions) (stream : T) (packet : U)
      (old : Invoker T)
      → relayers (record o { name = default_name }) ≡ some (stream, packet)
      → relayer_for relayers (record o { name = default_name } ∷ []) default_name old
        ≡ by_proxy stream
  unfolding bytes_beq
  found relayers o stream packet old has = ground (arith, has)

  -- One server without a name, where the ruler names no global proxy: the client gives it the name
  -- "<Default>" and makes it the global proxy, the selector gives its relayer for that name, and, if
  -- the ruler is in GLOBAL mode, every target is sent to it. Conditions: the client was made, its
  -- options gave that server and that ruler, and the server stands for a relayer.
  pub new_client-alone :
      (relayers : ServerOptions → Option (T × U)) (route : Option Bytes) (g : Globals)
      (sel : Selector T U) (opts : List SsOption) (c : Client T U) (s : Settings)
      (o : ServerOptions) (r : Ruler) (stream : T) (packet : U) (env : Env) (target : Bytes)
      → new_client relayers route g sel opts ≡ ok c
      → apply_all opts (starting g) ≡ ok s
      → s.server_opts ≡ o ∷ []
      → is_empty o.name ≡ true
      → s.globals.match_ruler ≡ some r
      → is_empty r.global_to ≡ true
      → relayers (record o { name = default_name }) ≡ some (stream, packet)
      → (c.settings ≡ alone route s o r)
        × (select_stream c.selector default_name ≡ by_proxy stream)
        × ((r.rule_mode ≢ global) ⊎ SentTo env r target default_name)
  new_client-alone relayers route g sel opts c s o r stream packet env target e applied one no_name
        ruler no_global has =
      let stages = new_client-Stages relayers route g sel opts c e in
      let same : stages.applied ≡ s = ok_inj (sym stages.by_options ∙ applied) in
      let named : ok c.settings ≡ ok (alone route s o r) =
        sym stages.by_name
        ∙ ap (λ (x : Settings). name_single (detected route x)) same
        ∙ name_single-alone route s o r one no_name ruler no_global in
      let settings : c.settings ≡ alone route s o r = ok_inj named in
      let selected =
        select_stream-init_servers relayers sel c.selector c.settings.server_opts default_name
          stages.by_servers in
      (
        settings,
        selected
            ∙ (ap
                  (λ (x : Settings).
                    relayer_for relayers x.server_opts default_name
                      (select_stream sel default_name))
                  settings
                ∙ found relayers o stream packet (select_stream sel default_name) has),
        sent_if_global env r target,
      )
