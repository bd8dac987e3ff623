-- ===== src/Selector/Examples.antt =====
-- Tests of the selector: a name that no proxy has is a direct connection.
use mini_ss.Common.{◌≡◌, refl, ℕ}
use mini_ss.Common.Bytes.{codes, Bytes_comparable}
use mini_ss.Common.Dict.{find}
use mini_ss.Ordmap.Defs.{load}
use mini_ss.Selector.Defs.{Selector, directly, new_selector, select_stream}

abbrev pub nobody : Selector ℕ ℕ
nobody = new_selector

unknown_name : select_stream nobody (codes "q") ≡ directly
unfolding select_stream load find
unknown_name = refl
