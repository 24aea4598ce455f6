-- ===== src/Prelude/Text.antt =====
-- What the program does with texts: truth, `strip`, `lower` and the tokens of `[a-z0-9]+`.
use Prim.Native.Nat.{ℕ, zero, suc, ◌+◌, ◌/◌, ◌%◌}
use Prim.Native.Char.{code}
use Prim.Native.String.{String, ◌++◌}
use mathlib.Core.Path.{◌≡◌, refl}
use mathlib.Core.Bool.{Bool, true, false, not, ◌&&◌, ◌||◌}
use mathlib.Core.List.{List, [], ◌∷◌}
use text.Mathlib.Text.{◌==◌}
use muto_rs_deployment_test.Prelude.Tests.{ltb, leb, eqb, if◌then◌else◌}

-- `bool(s)` of a text
abbrev pub nonempty : String → Bool
nonempty s = not (s == "")

-- `a or b` of two texts
abbrev pub or_else : String → String → String
or_else a b = if nonempty a then a else b

abbrev between : ℕ → ℕ → ℕ → Bool
between lo hi c = leb lo c && leb c hi

-- `str.isspace` of one code point
unfoldable pub is_space : ℕ → Bool
is_space c =
    between 9 13 c
    || between 28 32 c
    || eqb c 0x85
    || eqb c 0xA0
    || eqb c 0x1680
    || between 0x2000 0x200A c
    || eqb c 0x2028
    || eqb c 0x2029
    || eqb c 0x202F
    || eqb c 0x205F
    || eqb c 0x3000

unfoldable pub lstrip : String → String
unfolding is_space
lstrip String.[] = String.[]
lstrip (String.◌∷◌ c s) = let rest = lstrip s in if is_space (code c) then rest else String.◌∷◌ c s

unfoldable pub rstrip : String → String
unfolding is_space
rstrip String.[] = String.[]
rstrip (String.◌∷◌ c s) =
    let rest = rstrip s in if rest == "" && is_space (code c) then String.[] else String.◌∷◌ c rest

unfoldable pub strip : String → String
unfolding lstrip rstrip
strip s = rstrip (lstrip s)

-- the code points of a text
abbrev pub codes : String → List ℕ
codes (String.◌∷◌ letter rest) = code letter ∷ codes rest
codes String.[] = []

-- `str.lower` of one code point, as far as the tokens of `[a-z0-9]+` show: the capitals of ASCII,
-- the Kelvin sign, and the dotted capital I, whose second code point 0x307 is in no token. No other
-- code point is lowered into `[a-z0-9]`.
unfoldable pub lower_code : ℕ → ℕ
lower_code c = if between b'A' b'Z' c then c + 32 else if eqb c 0x212A then b'k' else c

abbrev pub is_token_code : ℕ → Bool
is_token_code c = between b'a' b'z' c || between b'0' b'9' c

unfoldable pub lower : List ℕ → List ℕ
unfolding lower_code
lower [] = []
lower (c ∷ cs) =
    let rest = lower cs in if eqb c 0x130 then b'i' ∷ 0x307 ∷ rest else lower_code c ∷ rest

-- A token that is empty is none.
abbrev pub push_token : List ℕ → List (List ℕ) → List (List ℕ)
push_token [] ts = ts
push_token (c ∷ cs) ts = (c ∷ cs) ∷ ts

-- `re.findall(r"[a-z0-9]+", s)`: the pair holds the run that begins the text, and the tokens after it.
unfoldable pub token_runs : List ℕ → List ℕ × List (List ℕ)
token_runs [] = ([], [])
token_runs (c ∷ cs) =
    let (run, ts) = token_runs cs in
    if is_token_code c then (c ∷ run, ts) else ([], push_token run ts)

unfoldable pub find_tokens : List ℕ → List (List ℕ)
unfolding token_runs
find_tokens cs = let (run, ts) = token_runs cs in push_token run ts

unfoldable pub codes_eq : List ℕ → List ℕ → Bool
codes_eq [] [] = true
codes_eq (a ∷ as') (b ∷ bs) = let rest = codes_eq as' bs in if eqb a b then rest else false
codes_eq _ _ = false

strip_test : strip "  find it\n" ≡ "find it"
unfolding strip
strip_test = refl

tokens_test :
    find_tokens (lower (codes "The BLUE-chair 7"))
    ≡ codes "the" ∷ codes "blue" ∷ codes "chair" ∷ codes "7" ∷ []
unfolding find_tokens lower
tokens_test = refl

-- Texts put together
infixr 65 ◌<>◌
abbrev pub ◌<>◌ : String → String → String
s <> t = s ++ t

abbrev digit_text : ℕ → String
digit_text n =
    if eqb n 0
    then "0"
    else if eqb n 1
    then "1"
    else if eqb n 2
    then "2"
    else if eqb n 3
    then "3"
    else if eqb n 4
    then "4"
    else if eqb n 5
    then "5"
    else if eqb n 6
    then "6"
    else if eqb n 7
    then "7"
    else if eqb n 8
    then "8"
    else "9"

decimal_from : ℕ → ℕ → String
decimal_from zero n = digit_text n
decimal_from (suc fuel) n =
    let more = decimal_from fuel (n / 10) <> digit_text (n % 10) in
    if ltb n 10 then digit_text n else more

-- `str(n)`: a number has at most as many digits as its value, and one more for 0.
unfoldable pub decimal : ℕ → String
unfolding decimal_from
decimal n = decimal_from n n

-- `"{:04d}".format(n)`
unfoldable pub decimal4 : ℕ → String
unfolding decimal
decimal4 n =
    if ltb n 10
    then "000" <> decimal n
    else if ltb n 100
    then "00" <> decimal n
    else if ltb n 1000
    then "0" <> decimal n
    else decimal n

decimal_test : decimal4 472 <> decimal 10350 ≡ "047210350"
unfolding decimal4
decimal_test = refl
