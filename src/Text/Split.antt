-- ===== src/Text/Split.antt =====
-- `strings.Split` and `strings.SplitN` at a separator of one byte, and the laws of a split.
use ftps_qftp_server.Prelude.{
  ℕ, ◌≡◌, ◌≢◌, refl, List, [], ◌∷◌, ◌++◌, ◌==◌, All, arith, if◌then◌else◌, Bool-cases, inl, inr,
}
use ftps_qftp_server.Text.{Bytes}

-- A byte in front of the first part.
unfoldable pub push : ℕ → List Bytes → List Bytes
push c [] = (c ∷ []) ∷ []
push c (p ∷ ps) = (c ∷ p) ∷ ps

-- `strings.Split(s, sep)`: always at least one part.
unfoldable pub split : Bytes → ℕ → List Bytes
unfolding push
split [] sep = [] ∷ []
split (c ∷ s) sep = if c == sep then [] ∷ split s sep else push c (split s sep)

-- `strings.SplitN(s, sep, 2)`.
unfoldable pub split_two : Bytes → ℕ → List Bytes
unfolding push
split_two [] sep = [] ∷ []
split_two (c ∷ s) sep = if c == sep then [] ∷ s ∷ [] else push c (split_two s sep)

abbrev pub Lacks : ℕ → Bytes → Type 0
Lacks b = All (λ c. c ≢ b)

-- A part that lacks the separator is cut off whole.
pub split-append :
    (p s : Bytes) (sep : ℕ) → Lacks sep p → split (p ++ sep ∷ s) sep ≡ p ∷ split s sep
unfolding split
split-append [] s sep h = ground arith
split-append (c ∷ p) s sep (hc, hp) = ground (arith, split-append p s sep hp)

pub split_lacking : (p : Bytes) (sep : ℕ) → Lacks sep p → split p sep ≡ p ∷ []
unfolding split
split_lacking [] sep h = refl
split_lacking (c ∷ p) sep (hc, hp) = ground (arith, split_lacking p sep hp)

pub split_two-append :
    (p s : Bytes) (sep : ℕ) → Lacks sep p → split_two (p ++ sep ∷ s) sep ≡ p ∷ s ∷ []
unfolding split_two
split_two-append [] s sep h = ground arith
split_two-append (c ∷ p) s sep (hc, hp) = ground (arith, split_two-append p s sep hp)

pub split_two_lacking : (p : Bytes) (sep : ℕ) → Lacks sep p → split_two p sep ≡ p ∷ []
unfolding split_two
split_two_lacking [] sep h = refl
split_two_lacking (c ∷ p) sep (hc, hp) = ground (arith, split_two_lacking p sep hp)

push-Lacks :
    (c sep : ℕ) (ps : List Bytes) → c ≢ sep → All (Lacks sep) ps → All (Lacks sep) (push c ps)
unfolding push
push-Lacks c sep [] h _ = ((h, tt), tt)
push-Lacks c sep (p ∷ ps) h (hp, hps) = ((h, hp), hps)

-- No part of a split holds the separator.
pub split-Lacks : (s : Bytes) (sep : ℕ) → All (Lacks sep) (split s sep)
unfolding split
split-Lacks [] sep = (tt, tt)
split-Lacks (c ∷ s) sep = elim (Bool-cases (c == sep)) [
  | inl e ↦ rw e (tt, split-Lacks s sep)
  | inr e ↦ rw e (push-Lacks c sep (split s sep) (ground arith) (split-Lacks s sep))
]
