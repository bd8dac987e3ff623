-- ===== src/Config/Whole.antt =====
-- BuildSSLocalOptions of config/config.go, applied.
use mini_ss.Common.{◌≡◌, ◌≢◌, refl, none, some, List, ◌++◌, inl, inr, Option-cases, arith}
use mini_ss.Stream.{Error, Outcome, ok, err, panics}
use mini_ss.Options.Settings.{Settings, SsOption}
use mini_ss.Options.Local.{NetText}
use mini_ss.Config.Types.{Config}
use mini_ss.Config.Servers.{build_server_options}
use mini_ss.Config.LocalPart.{build_local_options, build_ss_local_options}
use mini_ss.Config.Description.{servers_of}
use mini_ss.Config.ServerLaws.{apply_all-append, apply_all-append_ok}
use mini_ss.Config.Apply.{run_built, served, run_built-build_server_options}
use mini_ss.Config.RuleLaws.{build_ruler-ruler_of}
use mini_ss.Config.LocalLaws.{local_result, run_built-build_local_options}

-- The settings that a configuration file describes.
abbrev pub configured : NetText → Config → Settings → Outcome Settings
configured net cfg s = elim (servers_of cfg.server) [
  | some os ↦ elim (cfg.local_part) [
    | some l ↦ local_result net cfg l (served cfg s os)
    | none ↦ panics
  ]
  | none ↦ panics
]

-- The options of both parts, in their order.
abbrev both : Outcome (List SsOption) → Outcome (List SsOption) → Outcome (List SsOption)
both p q = elim p [
  | ok os ↦ elim q [ ok more ↦ ok (os ++ more) | err e ↦ err e | panics ↦ panics ]
  | err e ↦ err e
  | panics ↦ panics
]

run_built-both :
    (p q : Outcome (List SsOption)) (s t : Settings)
    → run_built p s ≡ ok t
    → run_built (both p q) s ≡ run_built q t
run_built-both (ok os) (ok more) s t e = apply_all-append_ok os more s t e
run_built-both (ok os) (err x) s t e = refl
run_built-both (ok os) panics s t e = refl
run_built-both (err x) q s t e = absurd (ground (arith, e))
run_built-both panics q s t e = absurd (ground (arith, e))

run_built-both_panics :
    (p q : Outcome (List SsOption)) (s : Settings)
    → ((e : Error) → q ≢ err e)
    → run_built p s ≡ panics
    → run_built (both p q) s ≡ panics
run_built-both_panics (ok os) (ok more) s never e = ground (arith, e, apply_all-append os more s)
run_built-both_panics (ok os) (err x) s never e = absurd (never x refl)
run_built-both_panics (ok os) panics s never e = refl
run_built-both_panics (err x) q s never e = absurd (ground (arith, e))
run_built-both_panics panics q s never e = refl

build_local_options-ne-err :
    (net : NetText) (cfg : Config) (s : Settings) (e : Error) → build_local_options net cfg ≢ err e
build_local_options-ne-err net cfg s e bad =
    ground (arith, bad, run_built-build_local_options net cfg s, build_ruler-ruler_of cfg)

-- The options of a configuration file, applied, leave in the settings what it describes: its servers
-- that are not disabled, in their order and each with the options of its transport, the outbound
-- interface, the local part field by field, and the ruler. They panic where such a server lacks the
-- options of its transport, where there is no local part, where the ruler cannot be built, or where
-- the TUN device is enabled and there is no DNS part.
pub run_built-build_ss_local_options :
    (net : NetText) (cfg : Config) (s : Settings)
    → run_built (build_ss_local_options net cfg) s ≡ configured net cfg s
unfolding build_ss_local_options
run_built-build_ss_local_options net cfg s =
    let servers = run_built-build_server_options cfg s in
    elim (Option-cases (servers_of cfg.server)) [
      | inl lacks ↦
          let bad : run_built (build_server_options cfg) s ≡ panics =
            ground (arith, servers, lacks) in
          let whole : run_built (build_ss_local_options net cfg) s ≡ panics =
            run_built-both_panics (build_server_options cfg) (build_local_options net cfg) s
              (build_local_options-ne-err net cfg s) bad in
          ground (arith, lacks, whole)
      | inr (os, all) ↦
          let good : run_built (build_server_options cfg) s ≡ ok (served cfg s os) =
            ground (arith, servers, all) in
          let whole : run_built (build_ss_local_options net cfg) s
              ≡ run_built (build_local_options net cfg) (served cfg s os) =
            run_built-both (build_server_options cfg) (build_local_options net cfg) s
              (served cfg s os) good in
          ground (arith, all, whole, run_built-build_local_options net cfg (served cfg s os))
    ]
