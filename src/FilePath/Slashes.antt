-- ===== src/FilePath/Slashes.antt =====
-- The replacements of slashes that follow a `filepath.Clean` in the source change nothing there.
use ftps_qftp_server.Prelude.{◌≡◌, refl, List, [], ◌∷◌, ◌++◌, All, arith}
use ftps_qftp_server.Text.{Bytes}
use ftps_qftp_server.Text.Split.{Lacks}
use ftps_qftp_server.Text.Scan.{replace, replace_from}
use ftps_qftp_server.FilePath.{slash, slashed, rooted_path}
use ftps_qftp_server.FilePath.Sandbox.{IsName}

abbrev pub one_slash : Bytes
one_slash = slash ∷ []

abbrev pub two_slashes : Bytes
two_slashes = slash ∷ slash ∷ []

-- Replacing the separator by a slash is the identity where the separator is a slash.
replace_one : (s : Bytes) → replace_from 0 one_slash one_slash s ≡ s
unfolding replace_from
replace_one [] = refl
replace_one (c ∷ s) = ground (arith, replace_one s)

pub replace_separator : (s : Bytes) → replace s one_slash one_slash ≡ s
unfolding replace
replace_separator s = replace_one s

replace_lacking :
    (p rest : Bytes)
    → Lacks slash p
    → replace_from 0 two_slashes one_slash (p ++ rest)
      ≡ p ++ replace_from 0 two_slashes one_slash rest
unfolding replace_from
replace_lacking [] rest h = refl
replace_lacking (c ∷ p) rest (hc, hp) = ground (arith, replace_lacking p rest hp)

replace_slash :
    (c rest : Bytes)
    → IsName c
    → replace_from 0 two_slashes one_slash (slash ∷ (c ++ rest))
      ≡ slash ∷ replace_from 0 two_slashes one_slash (c ++ rest)
unfolding replace_from
replace_slash [] rest n = absurd (n.not_empty refl)
replace_slash (c ∷ p) rest n = ground (arith, n.one_part.0)

replace_slashed :
    (cs : List Bytes)
    → All IsName cs
    → replace_from 0 two_slashes one_slash (slashed cs) ≡ slashed cs
unfolding slashed
replace_slashed [] h = unfold replace_from in refl
replace_slashed (c ∷ cs) (hc, hcs) =
    rw (replace_slash c _ hc, replace_lacking c _ hc.one_part, replace_slashed cs hcs)

pub replace_doubles :
    (cs : List Bytes)
    → All IsName cs
    → replace (rooted_path cs) two_slashes one_slash ≡ rooted_path cs
unfolding replace rooted_path
replace_doubles [] h = unfold replace_from in refl
replace_doubles (c ∷ cs) h = replace_slashed (c ∷ cs) h
