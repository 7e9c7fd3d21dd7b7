-- ===== src/Paths/Resolve.antt =====
-- A path that passes the program's containment check, joined to a directory.
use risi.Prelude.{
  String, ◌≡◌, refl, ap, true, false, List, [], ◌∷◌, ◌++◌, arith, any, if◌then◌else◌,
}
use risi.Prelude.Text.{codes}
use risi.Paths.{
  Segment, split_slash, same_codes, dot, dot_dot, drop_trivial, parts, escapes, is_nil,
  starts_with_slash,
}

-- The directory above; the root is its own.
abbrev pub tail_or_nil : List Segment → List Segment
tail_or_nil [] = []
tail_or_nil (d ∷ ds) = ds

-- How a file system walks the segments of a path, from a directory given by its chain of
-- names, the innermost first: "" and "." stay, ".." goes up, a name goes down.
abbrev pub resolve : List Segment → List Segment → List Segment
resolve dir [] = dir
resolve dir ([] ∷ ss) = resolve dir ss
resolve dir ((c ∷ cs) ∷ ss) = elim (same_codes (c ∷ cs) dot) [
  | true ↦ resolve dir ss
  | false ↦ elim (same_codes (c ∷ cs) dot_dot) [
    | true ↦ resolve (tail_or_nil dir) ss
    | false ↦ resolve ((c ∷ cs) ∷ dir) ss
  ]
]

-- The names of `ss`, each put in front of the one before.
abbrev pub rev_onto : List Segment → List Segment → List Segment
rev_onto [] dir = dir
rev_onto (s ∷ ss) dir = rev_onto ss (s ∷ dir)

resolve-drop_trivial :
    (dir ss : List Segment)
    → any (λ s. same_codes s dot_dot) (drop_trivial ss) ≡ false
    → resolve dir ss ≡ rev_onto (drop_trivial ss) dir
resolve-drop_trivial dir [] h = refl
resolve-drop_trivial dir ([] ∷ ss) h = resolve-drop_trivial dir ss h
resolve-drop_trivial dir ((c ∷ cs) ∷ ss) h =
    ground (arith, resolve-drop_trivial dir ss, resolve-drop_trivial ((c ∷ cs) ∷ dir) ss)

-- The place of a path that is joined to a directory: an absolute one is walked from the root.
abbrev pub place : List Segment → String → List Segment
place dir path =
    resolve (if starts_with_slash (codes path) then [] else dir) (split_slash (codes path) [])

-- A place below a directory, by one name or more, and not the directory itself.
abbrev pub IsBeneath : List Segment → List Segment → Type 0
IsBeneath dir target = (s : Segment) × (names : List Segment) × (target ≡ s ∷ names ++ dir)

rev_onto-IsBeneath :
    (ss dir target : List Segment) → IsBeneath dir target → IsBeneath dir (rev_onto ss target)
rev_onto-IsBeneath [] dir target beneath = beneath
rev_onto-IsBeneath (s ∷ ss) dir target (x, names, eq) =
    rev_onto-IsBeneath ss dir (s ∷ target) (s, x ∷ names, ap (λ ys. s ∷ ys) eq)

names-IsBeneath : (ss dir : List Segment) → is_nil ss ≡ false → IsBeneath dir (rev_onto ss dir)
names-IsBeneath [] dir h = cc
names-IsBeneath (s ∷ ss) dir h = rev_onto-IsBeneath ss dir (s ∷ dir) (s, [], refl)

-- A path that the containment check lets pass, joined to any directory, is placed beneath that
-- directory, and its walk goes from there down through the path's parts, one by one, and never up.
pub place-IsBeneath :
    (dir : List Segment) (path : String)
    → escapes path ≡ false
    → IsBeneath dir (place dir path) × (place dir path ≡ rev_onto (parts path) dir)
unfolding escapes parts
place-IsBeneath dir path h =
    let relative : starts_with_slash (codes path) ≡ false = ground arith in
    let walked = resolve-drop_trivial dir (split_slash (codes path) []) (ground arith) in
    rw (relative, walked) (names-IsBeneath (parts path) dir (ground arith), refl)
