-- ===== src/Paths.antt =====
-- `PurePosixPath` as the program uses it: is a relative path contained beneath its root?
-- (src/risi/operator/models.py, src/risi/artifacts.py, src/risi/campaign.py)
pub mod Resolve
use risi.Prelude.{
  ℕ, String, Bool, true, false, not, ◌&&◌, ◌||◌, List, [], ◌∷◌, ◌++◌, eqb, any, if◌then◌else◌,
}
use risi.Prelude.Text.{codes}

abbrev pub Segment : Type 0
Segment = List ℕ

-- The segments between the slashes.
unfoldable pub split_slash : List ℕ → Segment → List Segment
split_slash [] acc = acc ∷ []
split_slash (c ∷ cs) acc = elim (eqb c b'/') [
  | true ↦ acc ∷ split_slash cs []
  | false ↦ split_slash cs (acc ++ c ∷ [])
]

abbrev pub same_codes : List ℕ → List ℕ → Bool
same_codes [] [] = true
same_codes (a ∷ as') (b ∷ bs) = eqb a b && same_codes as' bs
same_codes _ _ = false

abbrev pub dot : Segment
dot = b'.' ∷ []

abbrev pub dot_dot : Segment
dot_dot = b'.' ∷ b'.' ∷ []

-- `PurePosixPath(path).parts` of a relative path: empty and "." segments vanish.
abbrev pub drop_trivial : List Segment → List Segment
drop_trivial [] = []
drop_trivial ([] ∷ ss) = drop_trivial ss
drop_trivial ((c ∷ cs) ∷ ss) =
    let rest = drop_trivial ss in if same_codes (c ∷ cs) dot then rest else (c ∷ cs) ∷ rest

unfoldable pub parts : String → List Segment
unfolding split_slash
parts path = drop_trivial (split_slash (codes path) [])

abbrev pub starts_with_slash : List ℕ → Bool
starts_with_slash [] = false
starts_with_slash (c ∷ cs) = eqb c b'/'

abbrev pub is_nil {ℓ} : {A : Type ℓ} → List A → Bool
is_nil [] = true
is_nil (x ∷ xs) = false

-- `path.is_absolute() or not path.parts or ".." in path.parts`
unfoldable pub escapes : String → Bool
unfolding parts
escapes path =
    starts_with_slash (codes path)
    || is_nil (parts path)
    || any (λ s. same_codes s dot_dot) (parts path)

-- `"\\" in path`
abbrev pub has_backslash : String → Bool
has_backslash path = any (λ c. eqb c 92) (codes path)
