-- ===== src/Driver/Passwords.antt =====
-- `SimpleAuth` of auth.go knows one user.
use ftps_qftp_server.Prelude.{◌≡◌, refl, ◌↔◌, true, Bool-cases, inl, inr, arith}
use ftps_qftp_server.Text.{Bytes, bytes_eq}
use ftps_qftp_server.Text.Equality.{bytes_eq_self, bytes_eq→eq}
use ftps_qftp_server.Driver.{ok, SimpleAuth, check_simple_passwd}

accepted-eq :
    (a : SimpleAuth) (name pass : Bytes)
    → check_simple_passwd a name pass ≡ ok true
    → (name ≡ a.name) × (pass ≡ a.password)
unfolding check_simple_passwd
accepted-eq a name pass h = elim (Bool-cases (bytes_eq name a.name)) [
  | inl e ↦ elim (Bool-cases (bytes_eq pass a.password)) [
    | inl k ↦ (bytes_eq→eq name a.name e, bytes_eq→eq pass a.password k)
    | inr k ↦ absurd (ground (arith, h, e, k))
  ]
  | inr e ↦ absurd (ground (arith, h, e))
]

-- `SimpleAuth` accepts a name with a password if and only if they are its own, and it has no error.
pub check_simple_passwd_iff :
    (a : SimpleAuth) (name pass : Bytes)
    → (check_simple_passwd a name pass ≡ ok true) ↔ ((name ≡ a.name) × (pass ≡ a.password))
unfolding check_simple_passwd
check_simple_passwd_iff a name pass = (
  accepted-eq a name pass,
  λ (e, k). rw (e, k, bytes_eq_self a.name, bytes_eq_self a.password) refl,
)
