-- ===== src/FilePath/Sandbox.antt =====
-- What a cleaned absolute path looks like, and that cleaning is a walk over the directory tree.
use mathlib.Core.List.{reverse, reverse-reverse, reverse-append}
use ftps_qftp_server.Prelude.{
  ◌≡◌, ◌≢◌, refl, ap, ◌∙◌, true, List, [], ◌∷◌, ◌++◌, All, All-append, Bool-cases, inl, inr,
  append_assoc, append-nil,
}
use ftps_qftp_server.Text.{Bytes, bytes_eq}
use ftps_qftp_server.Text.Split.{split, split-append, split-Lacks, split_lacking, Lacks}
use ftps_qftp_server.Text.Equality.{bytes_eq-ne, bytes_eq-ne_false}
use ftps_qftp_server.FilePath.{
  starts_with_slash, slash, dot, dot_dot, up, enter, walk, slashed, rooted_path, clean,
}

-- A name of a file: not empty, no slash, and neither of the two that mean a directory.
pub record IsName (c : Bytes) : Type 0 where
  pub not_empty : c ≢ []
  pub not_dot : c ≢ dot
  pub not_dot_dot : c ≢ dot_dot
  pub one_part : Lacks slash c

-- An absolute path of names only: nothing in it leads out of the tree below the root.
pub record IsSandboxed (p : Bytes) : Type 0 where
  pub names : List Bytes
  pub all_names : All IsName names
  pub spelled : p ≡ rooted_path names

-- The name that a walk enters is no special part.
enter_name :
    (stack : List Bytes) (part : Bytes) → IsName part → enter true stack part ≡ part ∷ stack
unfolding enter
enter_name stack part n = rw (
  bytes_eq-ne_false part [] n.not_empty,
  bytes_eq-ne_false part dot n.not_dot,
  bytes_eq-ne_false part dot_dot n.not_dot_dot,
)

up-IsName : (stack : List Bytes) → All IsName stack → All IsName (up true stack)
unfolding up
up-IsName [] h = h
up-IsName (d ∷ stack) h = h.1

enter-IsName :
    (stack : List Bytes) (part : Bytes)
    → All IsName stack
    → Lacks slash part
    → All IsName (enter true stack part)
unfolding enter
enter-IsName stack part hs hp = elim (Bool-cases (bytes_eq part [])) [
  | inl e ↦ rw e hs
  | inr a ↦ elim (Bool-cases (bytes_eq part dot)) [
    | inl e ↦ rw (a, e) hs
    | inr b ↦ elim (Bool-cases (bytes_eq part dot_dot)) [
      | inl e ↦ rw (a, b, e) (up-IsName stack hs)
      | inr c ↦
          rw (a, b, c)
            (
              record {
                not_empty = bytes_eq-ne _ _ a;
                not_dot = bytes_eq-ne _ _ b;
                not_dot_dot = bytes_eq-ne _ _ c;
                one_part = hp;
              },
              hs,
            )
    ]
  ]
]

walk-IsName :
    (stack parts : List Bytes)
    → All IsName stack
    → All (Lacks slash) parts
    → All IsName (walk true stack parts)
unfolding walk
walk-IsName stack [] hs _ = hs
walk-IsName stack (p ∷ parts) hs (hp, hps) =
    walk-IsName (enter true stack p) parts (enter-IsName stack p hs hp) hps

reverse-All : (xs : List Bytes) → All IsName xs → All IsName (reverse xs)
reverse-All [] h = tt
reverse-All (x ∷ xs) (hx, hxs) =
    rw (reverse-append (x ∷ []) xs)
      (All-append IsName (reverse xs) (x ∷ []) (reverse-All xs hxs) (hx, tt))

-- A walk over names alone puts them on the stack.
walk-All_names : (stack cs : List Bytes) → All IsName cs → walk true stack cs ≡ reverse cs ++ stack
unfolding walk
walk-All_names stack [] h = refl
walk-All_names stack (c ∷ cs) (hc, hcs) = rw (
  enter_name stack c hc,
  walk-All_names (c ∷ stack) cs hcs,
  reverse-append (c ∷ []) cs,
  append_assoc,
)

walk-append :
    (stack ps qs : List Bytes) → walk true stack (ps ++ qs) ≡ walk true (walk true stack ps) qs
unfolding walk
walk-append stack [] qs = refl
walk-append stack (p ∷ ps) qs = walk-append (enter true stack p) ps qs

split_names :
    (c : Bytes) (cs : List Bytes)
    → Lacks slash c
    → All IsName cs
    → split (c ++ slashed cs) slash ≡ c ∷ cs
unfolding slashed
split_names c [] hc h = rw append-nil (split_lacking c slash hc)
split_names c (d ∷ cs) hc (hd, hcs) =
    rw (split-append c _ slash hc, split_names d cs hd.one_part hcs)

split_names_rest :
    (c : Bytes) (cs : List Bytes) (f : Bytes)
    → Lacks slash c
    → All IsName cs
    → split (c ++ (slashed cs ++ slash ∷ f)) slash ≡ c ∷ (cs ++ split f slash)
unfolding slashed
split_names_rest c [] f hc h = split-append c f slash hc
split_names_rest c (d ∷ cs) f hc (hd, hcs) =
    rw (split-append c _ slash hc, append_assoc, split_names_rest d cs f hd.one_part hcs)

-- An absolute path is walked from the root.
pub clean_absolute :
    (f : Bytes)
    → starts_with_slash f ≡ true
    → clean f ≡ rooted_path (reverse (walk true [] (split f slash)))
unfolding clean
clean_absolute f h = rw h

-- A path behind a directory of names is walked from that directory.
pub clean_below :
    (cs : List Bytes) (f : Bytes)
    → All IsName cs
    → clean (rooted_path cs ++ slash ∷ f)
      ≡ rooted_path (reverse (walk true (reverse cs) (split f slash)))
unfolding clean
clean_below [] f h = refl
clean_below (c ∷ cs) f (hc, hcs) =
    rw (append_assoc, split_names_rest c cs f hc.one_part hcs)
      (ap (λ stack. rooted_path (reverse stack))
        (walk-append [] (c ∷ cs) (split f slash)
          ∙ ap (λ stack. walk true stack (split f slash))
              (walk-All_names [] (c ∷ cs) (hc, hcs) ∙ append-nil (reverse (c ∷ cs)))))

-- Cleaning leaves an absolute path of names as it is.
pub clean_rooted : (cs : List Bytes) → All IsName cs → clean (rooted_path cs) ≡ rooted_path cs
unfolding clean
clean_rooted [] h = refl
clean_rooted (c ∷ cs) (hc, hcs) = rw (split_names c cs hc.one_part hcs) (
    ap (λ stack. rooted_path (reverse stack))
      (walk-All_names [] (c ∷ cs) (hc, hcs) ∙ append-nil (reverse (c ∷ cs)))
    ∙ ap rooted_path (reverse-reverse (c ∷ cs)))

-- A walk from a directory of names ends in one, whatever the parts are.
pub walk-names :
    (cs : List Bytes) (f : Bytes)
    → All IsName cs
    → All IsName (reverse (walk true (reverse cs) (split f slash)))
walk-names cs f h =
    reverse-All _
      (walk-IsName (reverse cs) (split f slash) (reverse-All cs h) (split-Lacks f slash))
