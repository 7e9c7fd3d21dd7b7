-- ===== src/Reference/Scoring.antt =====
-- The lexical score of src/risi/adapters/reference.py: `_TOKEN` and `_score`.
use risi.Prelude.{
  ℕ, ◌+◌, ◌*◌, ◌/◌, ◌%◌, String, Bool, true, false, ◌&&◌, ◌||◌, List, [], ◌∷◌, ◌++◌, eqb, leb, ltb,
  length, filter, any, if◌then◌else◌,
}
use risi.Prelude.Text.{codes}
use risi.Paths.{same_codes, is_nil}
use risi.Trace.{Runtime}

abbrev pub Token : Type 0
Token = List ℕ

pub is_token_char : ℕ → Bool
is_token_char c = (leb b'a' c && leb c b'z') || (leb b'0' c && leb c b'9')

abbrev close : Token → List Token → List Token
close [] ts = ts
close (c ∷ cs) ts = (c ∷ cs) ∷ ts

-- `re.findall(r"[a-z0-9]+", text)`: the maximal runs, `run` being the one that is open.
pub find_tokens : Token → List ℕ → List Token
unfolding is_token_char
find_tokens run [] = close run []
find_tokens run (c ∷ cs) = elim (is_token_char c) [
  | true ↦ find_tokens (run ++ c ∷ []) cs
  | false ↦ close run (find_tokens [] cs)
]

abbrev pub has_token : Token → List Token → Bool
has_token t ts = any (same_codes t) ts

-- `set(...)`, as a list in which no token is repeated.
abbrev pub distinct : List Token → List Token
distinct [] = []
distinct (t ∷ ts) = let rest = distinct ts in if has_token t rest then rest else t ∷ rest

unfoldable pub tokens : Runtime → String → List Token
unfolding find_tokens
tokens rt text = distinct (find_tokens [] (codes (rt.casefold text)))

-- `round(a / b, 12)` for a positive b, in units of 10^-12: to the nearest unit, and to the even one
-- of two that are equally near.
unfoldable pub round12 : ℕ → ℕ → ℕ
round12 a b =
    let n = a * 1000000000000 in
    let q = n / b in
    let twice = 2 * (n % b) in
    if ltb twice b then q else if ltb b twice then q + 1 else if eqb (q % 2) 0 then q else q + 1

abbrev pub overlap : List Token → List Token → ℕ
overlap query content = length (filter (λ t. has_token t content) query)

unfoldable pub score : Runtime → String → String → ℕ
unfolding tokens round12
score rt query content =
    let q = tokens rt query in
    let c = tokens rt content in
    if is_nil q || is_nil c then 0 else round12 (overlap q c) (length q)
