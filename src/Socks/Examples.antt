-- ===== src/Socks/Examples.antt =====
-- Tests and witnesses of the negotiation: a server that asks for credentials, and one that does not.
use mini_ss.Common.{◌≡◌, ◌≢◌, ◌↔◌, refl, arith, true, none, some, [], ◌∷◌, ◌++◌, replicate}
use mini_ss.Common.Bytes.{Bytes, codes, bytes_beq}
use mini_ss.Stream.{
  ok, err, panics, Io, read_full, byte_at, slice, put_byte, write, splice, version5_invalid,
}
use mini_ss.Stream.Safe.{IsReady}
use mini_ss.Socks.Auth.{Auth, new_auth, validate, Accepted, validate-new_auth}
use mini_ss.Socks.Defs.{negotiate, max_socks_buffer_size}
use mini_ss.Socks.Safety.{negotiate-ne-panics}
use mini_ss.Socks.Accepts.{
  Ends, greeting, credentials, verdict, status, negotiate-Ends, negotiate-credentials-Ends,
}
use mini_ss.Socks.Refuses.{negotiate-credentials}

abbrev guarded : Auth
guarded = record { username = codes "me"; password = some (codes "pw") }

made_guarded : new_auth (codes "me") (codes "pw") ≡ some guarded
unfolding new_auth
made_guarded = refl

abbrev room : Bytes
room = 9 ∷ 9 ∷ 9 ∷ 9 ∷ []

abbrev client : Bytes → Bytes → Bytes → Io
client input output b = record { input = input; output = output; buf = b }

abbrev good_login : Bytes
good_login = greeting (2 ∷ []) (credentials (codes "me") (codes "pw") (7 ∷ []))

logs_in :
    negotiate (some guarded) (client good_login [] room)
    ≡ (ok tt, client (7 ∷ []) (5 ∷ 2 ∷ 1 ∷ 0 ∷ []) (1 ∷ 0 ∷ 9 ∷ 9 ∷ []))
unfolding negotiate read_full byte_at slice put_byte write splice validate bytes_beq
logs_in = refl

wrong_version :
    negotiate none (client (4 ∷ 1 ∷ []) [] room)
    ≡ (err version5_invalid, client (1 ∷ []) [] (4 ∷ 9 ∷ 9 ∷ 9 ∷ []))
unfolding negotiate read_full byte_at splice
wrong_version = refl

full_room : IsReady max_socks_buffer_size (client good_login [] (replicate 515 0))
full_room = record { room = omega arith; input_bytes = omega arith; buf_bytes = omega arith }

validate-new_auth_example :
    (validate guarded (codes "me") (codes "no") ≡ true)
    ↔ Accepted (codes "me") (codes "pw") (codes "me") (codes "no")
validate-new_auth_example =
    validate-new_auth guarded (codes "me") (codes "pw") (codes "me") (codes "no") made_guarded

negotiate-ne-panics_example :
    (negotiate (some guarded) (client good_login [] (replicate 515 0))).0 ≢ panics
negotiate-ne-panics_example =
    negotiate-ne-panics (some guarded) (client good_login [] (replicate 515 0)) full_room

negotiate-Ends_example :
    Ends
      (ok tt)
      (7 ∷ [])
      (5 ∷ 0 ∷ [])
      (negotiate none (client (greeting (0 ∷ []) (7 ∷ [])) [] room))
negotiate-Ends_example = negotiate-Ends (0 ∷ []) (7 ∷ []) [] room (omega arith) (omega arith)

negotiate-credentials-Ends_example :
    Ends
      (verdict (validate guarded (codes "me") (codes "no")))
      (7 ∷ [])
      (([] ++ (5 ∷ 2 ∷ [])) ++ (1 ∷ status (validate guarded (codes "me") (codes "no")) ∷ []))
      (negotiate
        (some guarded)
        (client (greeting (2 ∷ []) (credentials (codes "me") (codes "no") (7 ∷ []))) [] room))
negotiate-credentials-Ends_example =
    negotiate-credentials-Ends guarded (2 ∷ []) (codes "me") (codes "no") (7 ∷ []) [] room
      (omega arith) (omega arith) (omega arith) (omega arith) (omega arith) (omega arith)

negotiate-credentials_example :
    (methods : Bytes) × (user : Bytes) × (pass : Bytes) × (good_login
      ≡ greeting methods (credentials user pass (7 ∷ [])))
    × (validate guarded user pass ≡ true)
negotiate-credentials_example =
    negotiate-credentials guarded (client good_login [] room)
      (client (7 ∷ []) (5 ∷ 2 ∷ 1 ∷ 0 ∷ []) (1 ∷ 0 ∷ 9 ∷ 9 ∷ [])) logs_in
