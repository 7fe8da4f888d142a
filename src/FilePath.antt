-- ===== src/FilePath.antt =====
-- Go's `filepath.Clean` on a Unix system, as its documentation states it: a path is walked part by
-- part over a stack of names, the innermost first.
pub mod Sandbox
pub mod Slashes
use mathlib.Core.List.{reverse}
use ftps_qftp_server.Prelude.{
  ◌≡◌, refl, ℕ, Bool, true, false, ◌||◌, List, [], ◌∷◌, ◌++◌, ◌==◌, if◌then◌else◌,
}
use ftps_qftp_server.Text.{Bytes, codes, bytes_eq}
use ftps_qftp_server.Text.Split.{split}

abbrev pub slash : ℕ
slash = b'/'

abbrev pub dot : Bytes
dot = b'.' ∷ []

abbrev pub dot_dot : Bytes
dot_dot = b'.' ∷ b'.' ∷ []

-- A step to the parent: above the root there is the root, above the start of a relative path "..".
unfoldable pub up : Bool → List Bytes → List Bytes
up true [] = []
up true (d ∷ stack) = stack
up false [] = dot_dot ∷ []
up false (d ∷ stack) = if bytes_eq d dot_dot then dot_dot ∷ d ∷ stack else stack

unfoldable pub enter : Bool → List Bytes → Bytes → List Bytes
unfolding up bytes_eq
enter rooted stack part =
    if bytes_eq part [] || bytes_eq part dot
    then stack
    else if bytes_eq part dot_dot
    then up rooted stack
    else part ∷ stack

unfoldable pub walk : Bool → List Bytes → List Bytes → List Bytes
unfolding enter
walk rooted stack [] = stack
walk rooted stack (part ∷ parts) = walk rooted (enter rooted stack part) parts

-- Every name behind a slash.
unfoldable pub slashed : List Bytes → Bytes
slashed [] = []
slashed (c ∷ cs) = slash ∷ (c ++ slashed cs)

unfoldable pub rooted_path : List Bytes → Bytes
unfolding slashed
rooted_path [] = slash ∷ []
rooted_path (c ∷ cs) = slashed (c ∷ cs)

unfoldable pub relative_path : List Bytes → Bytes
unfolding slashed
relative_path [] = dot
relative_path (c ∷ cs) = c ++ slashed cs

unfoldable pub starts_with_slash : Bytes → Bool
starts_with_slash [] = false
starts_with_slash (c ∷ s) = c == slash

-- `filepath.Clean(path)`.
unfoldable pub clean : Bytes → Bytes
unfolding starts_with_slash walk rooted_path relative_path split
clean path =
    if starts_with_slash path
    then rooted_path (reverse (walk true [] (split path slash)))
    else relative_path (reverse (walk false [] (split path slash)))

clean_example : clean (codes "/a//b/./../c") ≡ codes "/a/c"
unfolding clean codes
clean_example = refl

clean_relative_example : clean (codes "../x/../..") ≡ codes "../.."
unfolding clean codes
clean_relative_example = refl

clean_nothing : clean [] ≡ dot
unfolding clean
clean_nothing = refl
