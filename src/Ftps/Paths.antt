-- ===== src/Ftps/Paths.antt =====
-- `buildPath` of ftps/conn.go: it stays below the root, and it is a walk over the directory tree.
use mathlib.Core.List.{reverse, reverse-append, reverse-reverse}
use ftps_qftp_server.Prelude.{
  ◌≡◌, refl, sym, ap, ◌∙◌, true, List, [], ◌∷◌, ◌++◌, Bool-cases, inl, inr, All, ◌||◌,
  if◌then◌else◌,
}
use ftps_qftp_server.Text.{Bytes, codes, bytes_eq}
use ftps_qftp_server.Text.Split.{split}
use ftps_qftp_server.FilePath.{slash, walk, rooted_path, clean, starts_with_slash, dot_dot}
use ftps_qftp_server.FilePath.Sandbox.{
  IsName, IsSandboxed, clean_absolute, clean_below, clean_rooted, walk-names,
}
use ftps_qftp_server.FilePath.Slashes.{replace_doubles, replace_separator}
use ftps_qftp_server.Ftps.State.{Conn}
use ftps_qftp_server.Ftps.Connection.{build_path, uncleaned_path}

abbrev pub listing_option : Bytes
listing_option = b'-' ∷ b'a' ∷ []

-- The names that lead from the root to a file, given those that lead to the current directory: an
-- absolute path is walked from the root and any other from the current directory, except that the
-- empty name and "-a" stand for the current directory itself.
unfoldable pub resolve : List Bytes → Bytes → List Bytes
unfolding starts_with_slash bytes_eq
resolve cwd filename =
    if starts_with_slash filename
    then reverse (walk true [] (split filename slash))
    else if bytes_eq filename [] || bytes_eq filename listing_option
    then cwd
    else reverse (walk true (reverse cwd) (split filename slash))

clean-uncleaned :
    (c : Conn) (cwd : List Bytes) (filename : Bytes)
    → All IsName cwd
    → c.name_prefix ≡ rooted_path cwd
    → clean (uncleaned_path c filename) ≡ rooted_path (resolve cwd filename)
unfolding uncleaned_path resolve codes
clean-uncleaned c cwd filename h e = elim (Bool-cases (starts_with_slash filename)) [
  | inl a ↦ rw a (clean_absolute filename a)
  | inr a ↦ elim (Bool-cases (bytes_eq filename [])) [
    | inl b ↦ rw (a, b, e) (clean_rooted cwd h)
    | inr b ↦ elim (Bool-cases (bytes_eq filename listing_option)) [
      | inl d ↦ rw (a, b, d, e) (clean_rooted cwd h)
      | inr d ↦ rw (a, b, d, e) (clean_below cwd filename h)
    ]
  ]
]

resolve-IsName :
    (cwd : List Bytes) (filename : Bytes) → All IsName cwd → All IsName (resolve cwd filename)
unfolding resolve
resolve-IsName cwd filename h = elim (Bool-cases (starts_with_slash filename)) [
  | inl a ↦ rw a (walk-names [] filename tt)
  | inr a ↦ elim (Bool-cases (bytes_eq filename [] || bytes_eq filename listing_option)) [
    | inl b ↦ rw (a, b) h
    | inr b ↦ rw (a, b) (walk-names cwd filename h)
  ]
]

-- From a current directory that is an absolute path of names, `buildPath` of any name is the path of
-- the walk over the directory tree: from the root for an absolute name and from the current directory
-- for any other, with the empty name and "-a" for the current directory itself.
pub build_path-resolve :
    (c : Conn) (cwd : List Bytes) (filename : Bytes)
    → All IsName cwd
    → c.name_prefix ≡ rooted_path cwd
    → build_path c filename ≡ rooted_path (resolve cwd filename)
unfolding build_path
build_path-resolve c cwd filename h e =
    rw (clean-uncleaned c cwd filename h e, replace_doubles _ (resolve-IsName cwd filename h))
      (replace_separator (rooted_path (resolve cwd filename)))

-- Whatever name a client supplies, `buildPath` makes an absolute path of names of it, none of them
-- empty, "." or "..", if the current directory is such a path.
pub build_path-IsSandboxed :
    (c : Conn) (filename : Bytes) → IsSandboxed c.name_prefix → IsSandboxed (build_path c filename)
build_path-IsSandboxed c filename h = record {
  names = resolve h.names filename;
  all_names = resolve-IsName h.names filename h.all_names;
  spelled = build_path-resolve c h.names filename h.all_names h.spelled;
}

starts_with_slash-rooted : (cs : List Bytes) → starts_with_slash (rooted_path cs) ≡ true
unfolding starts_with_slash rooted_path
starts_with_slash-rooted [] = refl
starts_with_slash-rooted (c ∷ cs) = refl

rooted-resolve :
    (cwd : List Bytes) (p : Bytes)
    → starts_with_slash p ≡ true
    → rooted_path (resolve cwd p) ≡ clean p
unfolding resolve
rooted-resolve cwd p h = rw h (sym (clean_absolute p h))

-- An absolute path of names is built as itself, from any current directory that is such a path.
pub build_path-again :
    (c : Conn) (p : Bytes) → IsSandboxed c.name_prefix → IsSandboxed p → build_path c p ≡ p
build_path-again c p h k =
    build_path-resolve c h.names p h.all_names h.spelled
    ∙ rooted-resolve h.names p (ap starts_with_slash k.spelled ∙ starts_with_slash-rooted k.names)
    ∙ ap clean k.spelled
    ∙ clean_rooted k.names k.all_names
    ∙ sym k.spelled

resolve_parent : (cwd : List Bytes) (name : Bytes) → resolve (cwd ++ name ∷ []) dot_dot ≡ cwd
unfolding resolve walk split
resolve_parent cwd name = rw (reverse-append cwd (name ∷ [])) (reverse-reverse cwd)

-- From a directory below the root, ".." leads to the directory above it.
pub build_path-parent :
    (c : Conn) (cwd : List Bytes) (name : Bytes)
    → All IsName (cwd ++ name ∷ [])
    → c.name_prefix ≡ rooted_path (cwd ++ name ∷ [])
    → build_path c dot_dot ≡ rooted_path cwd
build_path-parent c cwd name h e =
    build_path-resolve c (cwd ++ name ∷ []) dot_dot h e ∙ ap rooted_path (resolve_parent cwd name)

resolve_root : resolve [] dot_dot ≡ []
unfolding resolve walk split
resolve_root = refl

-- At the root ".." leads nowhere.
pub build_path-root :
    (c : Conn) → c.name_prefix ≡ rooted_path [] → build_path c dot_dot ≡ rooted_path []
build_path-root c e = build_path-resolve c [] dot_dot tt e ∙ ap rooted_path resolve_root
