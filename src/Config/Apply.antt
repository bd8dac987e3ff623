-- ===== src/Config/Apply.antt =====
-- BuildServerOptions and BuildSSLocalOptions, applied: what they leave in the settings.
use mini_ss.Common.{
  ◌≡◌, refl, sym, ap, ◌∙◌, Option, none, some, List, [], ◌∷◌, ◌++◌, inl, inr, Bool-cases, arith,
}
use mathlib.Core.List.{append_assoc, append-nil}
use mini_ss.Stream.{Outcome, ok, err, panics}
use mini_ss.Options.Settings.{ServerOptions, Settings, Globals, SsOption, apply_all}
use mini_ss.Options.Server.{fresh, with_server_compose}
use mini_ss.Options.Local.{with_outbound_interface, with_auto_detect_interface}
use mini_ss.Config.Types.{Config, ServerConfig}
use mini_ss.Config.Servers.{
  common_parts, transport_parts, server_option, server_loop, build_server_options,
}
use mini_ss.Config.Description.{transport_of, named, servers_of}
use mini_ss.Config.ServerLaws.{
  inside, apply_all-append, apply_all-append_ok, common_parts-named, transport_parts-Describes,
  Meets,
}

-- The options that were built, applied.
abbrev pub run_built : Outcome (List SsOption) → Settings → Outcome Settings
run_built (ok opts) s = apply_all opts s
run_built (err e) s = err e
run_built panics s = panics

abbrev pub add_servers : Settings → List ServerOptions → Settings
add_servers s os = record s { server_opts = s.server_opts ++ os }

-- What one server amounts to.
abbrev one_server : ServerConfig → Settings → Outcome (List SsOption) → Outcome SsOption
one_server c s p = elim p [
  | ok parts ↦ ok (with_server_compose (parts ++ common_parts c))
  | err e ↦ err e
  | panics ↦ panics
]

abbrev Made : ServerConfig → Settings → Outcome SsOption → Option ServerOptions → Type 0
Made c s (ok o) (some d) = o s ≡ ok (add_servers s (named c d ∷ []))
Made c s (ok o) none = ⊥
Made c s (err e) d = ⊥
Made c s panics none = Unit
Made c s panics (some d) = ⊥

abbrev composed : Settings → Outcome Settings → Outcome Settings
composed s r = elim r [
  | ok o ↦ ok (record s { server_opts = s.server_opts ++ o.server_opts; globals = o.globals })
  | err e ↦ err e
  | panics ↦ panics
]

one_server-Made :
    (c : ServerConfig) (s : Settings) (p : Outcome (List SsOption)) (d : Option ServerOptions)
    → Meets s p d
    → Made c s (one_server c s p) d
unfolding with_server_compose
one_server-Made c s (ok parts) (some o) m =
    let whole : apply_all (parts ++ common_parts c) (fresh s) ≡ ok (inside s (named c o)) =
      apply_all-append_ok parts (common_parts c) (fresh s) (inside s o) m
      ∙ common_parts-named c o s in
    ap (λ (r : Outcome Settings). composed s r) whole
one_server-Made c s (ok parts) none m = m
one_server-Made c s (err e) d m = m
one_server-Made c s panics none m = m
one_server-Made c s panics (some o) m = m

server_option-Made : (c : ServerConfig) (s : Settings) → Made c s (server_option c) (transport_of c)
unfolding server_option
server_option-Made c s =
    one_server-Made c s (transport_parts c) (transport_of c) (transport_parts-Describes c s).meets

abbrev described : Settings → Option (List ServerOptions) → Outcome Settings
described s (some os) = ok (add_servers s os)
described s none = panics

abbrev then_all : List SsOption → Outcome Settings → Outcome Settings
then_all os r = elim r [ ok x ↦ apply_all os x | err e ↦ err e | panics ↦ panics ]

-- One more option in front.
run_built-one :
    (c : ServerConfig) (s : Settings) (p : Outcome SsOption) (d : Option ServerOptions)
    (more : Outcome (List SsOption)) (rest : Option (List ServerOptions))
    → Made c s p d
    → ((t : Settings) → run_built more t ≡ described t rest)
    → run_built
        (elim p [
          | ok o ↦ elim more [ ok os ↦ ok (o ∷ os) | err e ↦ err e | panics ↦ panics ]
          | err e ↦ err e
          | panics ↦ panics
        ])
        s
      ≡ described s (elim d [
        | some o ↦ elim rest [ some os ↦ some (named c o ∷ os) | none ↦ none ]
        | none ↦ none
      ])
unfolding apply_all
run_built-one c s (ok o) (some d) (ok os) (some rs) m h =
    ap (λ (r : Outcome Settings). then_all os r) m
    ∙ (h (add_servers s (named c d ∷ []))
        ∙ ap (λ (l : List ServerOptions). ok (record s { server_opts = l }))
            (append_assoc s.server_opts (named c d ∷ []) rs))
run_built-one c s (ok o) (some d) (ok os) none m h =
    ap (λ (r : Outcome Settings). then_all os r) m ∙ h (add_servers s (named c d ∷ []))
run_built-one c s (ok o) (some d) (err e) (some rs) m h = absurd (ground (arith, h s))
run_built-one c s (ok o) (some d) (err e) none m h = absurd (ground (arith, h s))
run_built-one c s (ok o) (some d) panics (some rs) m h = absurd (ground (arith, h s))
run_built-one c s (ok o) (some d) panics none m h = refl
run_built-one c s (ok o) none more rest m h = absurd m
run_built-one c s (err e) d more rest m h = absurd m
run_built-one c s panics none more rest m h = refl
run_built-one c s panics (some d) more rest m h = absurd m

run_built-server_loop :
    (cs : List ServerConfig) (s : Settings)
    → run_built (server_loop cs) s ≡ described s (servers_of cs)
unfolding server_loop servers_of apply_all
run_built-server_loop [] s =
    ap (λ (l : List ServerOptions). ok (record s { server_opts = l }))
      (sym (append-nil s.server_opts))
run_built-server_loop (c ∷ cs) s = elim (Bool-cases (c.disable)) [
  | inl off ↦ simp off (run_built-server_loop cs s)
  | inr on ↦ simp on (
      run_built-one c s (server_option c) (transport_of c) (server_loop cs) (servers_of cs)
        (server_option-Made c s) (λ t. run_built-server_loop cs t))
]

-- The outbound interface, which is set behind the servers.
abbrev pub outbound : Config → Globals → Globals
outbound cfg g = record g {
  default_options = record {
    outbound_interface = cfg.iface;
    auto_detect_interface = cfg.auto_detect_iface;
  };
}

abbrev pub served : Config → Settings → List ServerOptions → Settings
served cfg s os = record s { server_opts = s.server_opts ++ os; globals = outbound cfg s.globals }

with_outbound :
    (cfg : Config) (t : Settings)
    → apply_all
        (with_outbound_interface cfg.iface ∷ with_auto_detect_interface cfg.auto_detect_iface ∷ [])
        t
      ≡ ok (record t { globals = outbound cfg t.globals })
unfolding apply_all with_outbound_interface with_auto_detect_interface
with_outbound cfg t = refl

-- The options of BuildServerOptions, applied, add the servers that the configuration describes, each
-- with the options of its transport and in their order, and set the outbound interface; they panic
-- where a server that is not disabled lacks the options of its transport.
pub run_built-build_server_options :
    (cfg : Config) (s : Settings)
    → run_built (build_server_options cfg) s
      ≡ elim (servers_of cfg.server) [ some os ↦ ok (served cfg s os) | none ↦ panics ]
unfolding build_server_options
run_built-build_server_options cfg s =
    go (server_loop cfg.server) (servers_of cfg.server) (run_built-server_loop cfg.server s)
  where
    go :
        (p : Outcome (List SsOption)) (d : Option (List ServerOptions))
        → run_built p s ≡ described s d
        → run_built
            (elim p [
              | ok os ↦ ok (
                  os
                  ++ (with_outbound_interface cfg.iface
                      ∷ with_auto_detect_interface cfg.auto_detect_iface
                      ∷ []))
              | err e ↦ err e
              | panics ↦ panics
            ])
            s
          ≡ elim d [ some os ↦ ok (served cfg s os) | none ↦ panics ]
    go (ok opts) (some os) e =
        apply_all-append_ok opts _ s (add_servers s os) e ∙ with_outbound cfg (add_servers s os)
    go (ok opts) none e = ground (
      arith,
      e,
      apply_all-append opts
          (with_outbound_interface cfg.iface
            ∷ with_auto_detect_interface cfg.auto_detect_iface
            ∷ [])
          s,
    )
    go (err x) (some os) e = absurd (ground (arith, e))
    go (err x) none e = absurd (ground (arith, e))
    go panics (some os) e = absurd (ground (arith, e))
    go panics none e = refl
