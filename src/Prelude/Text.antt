-- ===== src/Prelude/Text.antt =====
-- Text as the program reads it: `str.strip`, code points, and SHA-256 digests in hexadecimal
-- (`is_sha256_digest` of src/risi/canonical.py).
use Prim.Native.Char.{code}
use Prim.Native.String.{String, compare}
use Prim.Native.Nat.{ℕ, Ordering}
use mathlib.Core.Bool.{Bool, true, false, ◌&&◌, ◌||◌}
use mathlib.Core.List.{List, [], ◌∷◌}
use risi.Prelude.Tests.{leb, eqb, if◌then◌else◌}
use risi.Prelude.Lists.{length, all}

-- The code points of a text.
abbrev pub codes : String → List ℕ
codes String.[] = []
codes (String.◌∷◌ c s) = code c ∷ codes s

-- The characters that `str.strip` removes.
pub is_space : ℕ → Bool
is_space c =
    (leb 9 c && leb c 13)
    || (leb 28 c && leb c 32)
    || eqb c 133
    || eqb c 160
    || eqb c 5760
    || (leb 8192 c && leb c 8202)
    || eqb c 8232
    || eqb c 8233
    || eqb c 8239
    || eqb c 8287
    || eqb c 12288

-- `not value.strip()`
unfoldable pub is_blank : String → Bool
unfolding is_space
is_blank s = all is_space (codes s)

-- `_SHA256_PATTERN.fullmatch(value) is not None`: exactly 64 characters of `a-f0-9`.
pub is_lower_hex : ℕ → Bool
is_lower_hex c = (leb b'a' c && leb c b'f') || (leb b'0' c && leb c b'9')

unfoldable pub is_sha256_digest : String → Bool
unfolding is_lower_hex
is_sha256_digest s = eqb (length (codes s)) 64 && all is_lower_hex (codes s)

-- Python orders texts by their code points.
abbrev pub str_leb : String → String → Bool
str_leb s t = elim (compare s t) [ Ordering.gt ↦ false | _ ↦ true ]

-- `sorted` on texts.
abbrev pub insert_text : String → List String → List String
insert_text s [] = s ∷ []
insert_text s (t ∷ ts) = if str_leb s t then s ∷ t ∷ ts else t ∷ insert_text s ts

abbrev pub sorted : List String → List String
sorted [] = []
sorted (s ∷ ss) = insert_text s (sorted ss)
