-- ===== src/Text/Equality.antt =====
-- The comparison of two texts decides their equality.
use ftps_qftp_server.Prelude.{◌≡◌, ◌≢◌, refl, true, false, ◌∷◌, [], arith, Bool-cases, inl, inr}
use ftps_qftp_server.Text.{Bytes, bytes_eq}

pub bytes_eq_self : (s : Bytes) → bytes_eq s s ≡ true
unfolding bytes_eq
bytes_eq_self [] = refl
bytes_eq_self (c ∷ s) = ground (arith, bytes_eq_self s)

pub bytes_eq→eq : (s t : Bytes) → bytes_eq s t ≡ true → s ≡ t
unfolding bytes_eq
bytes_eq→eq [] [] h = refl
bytes_eq→eq [] (d ∷ t) h = cc
bytes_eq→eq (c ∷ s) [] h = cc
bytes_eq→eq (c ∷ s) (d ∷ t) h = ground (arith, bytes_eq→eq s t)

pub bytes_eq-ne : (s t : Bytes) → bytes_eq s t ≡ false → s ≢ t
bytes_eq-ne s t h e = cc (bytes_eq_self s)

pub bytes_eq-ne_false : (s t : Bytes) → s ≢ t → bytes_eq s t ≡ false
bytes_eq-ne_false s t h = elim (Bool-cases (bytes_eq s t)) [
  | inl e ↦ absurd (h (bytes_eq→eq s t e))
  | inr e ↦ e
]
