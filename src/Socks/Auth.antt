-- ===== src/Socks/Auth.antt =====
-- ss/auth.go. net/url keeps a user name and, if it was given one, a password. A nil *Auth, which
-- asks for no credentials, is `none`.
use mini_ss.Common.{
  ◌≡◌, refl, ap, subst, ◌↔◌, ◌⊎◌, inl, inr, Bool, true, ◌&&◌, [], ◌∷◌, Option, none, some, arith,
}
use mini_ss.Common.Bytes.{Bytes, bytes_beq, bytes_beq_iff}

pub record Auth : Type 0 where
  pub username : Bytes
  pub password : Option Bytes

unfoldable pub new_auth : Bytes → Bytes → Option Auth
new_auth [] password = none
new_auth (b ∷ bs) [] = some (record { username = b ∷ bs; password = none })
new_auth (b ∷ bs) (c ∷ cs) = some (record { username = b ∷ bs; password = some (c ∷ cs) })

unfoldable pub validate : Auth → Bytes → Bytes → Bool
validate a username password = elim (a.password) [
  | some p ↦ bytes_beq username a.username && bytes_beq password p
  | none ↦ bytes_beq username a.username
]

abbrev pub Accepted : Bytes → Bytes → Bytes → Bytes → Type 0
Accepted username password user pass = (user ≡ username) × ((password ≡ []) ⊎ (pass ≡ password))

some_inj : {x y : Auth} → some x ≡ some y → x ≡ y
some_inj {x} e = ap (λ o. elim o [ some a ↦ a | none ↦ x ]) e

-- The credentials that an Auth of NewAuth accepts are its user name with, unless it was left empty,
-- its password.
pub validate-new_auth :
    (a : Auth) (username password user pass : Bytes)
    → new_auth username password ≡ some a
    → (validate a user pass ≡ true) ↔ Accepted username password user pass
unfolding new_auth validate
validate-new_auth a [] password user pass e = absurd (ground arith)
validate-new_auth a (b ∷ bs) [] user pass e =
    subst (λ (x : Auth). (validate x user pass ≡ true) ↔ Accepted (b ∷ bs) [] user pass)
      (some_inj e)
      (
        (λ h. (ground (arith, bytes_beq_iff user (b ∷ bs)), inl refl)),
        λ (u, p). ground (arith, bytes_beq_iff user (b ∷ bs)),
      )
validate-new_auth a (b ∷ bs) (c ∷ cs) user pass e =
    subst (λ (x : Auth). (validate x user pass ≡ true) ↔ Accepted (b ∷ bs) (c ∷ cs) user pass)
      (some_inj e)
      (
        (λ h. (
          ground (arith, bytes_beq_iff user (b ∷ bs)),
          inr (ground (arith, bytes_beq_iff user (b ∷ bs), bytes_beq_iff pass (c ∷ cs))),
        )),
        λ (u, p). ground (arith, bytes_beq_iff user (b ∷ bs), bytes_beq_iff pass (c ∷ cs)),
      )
