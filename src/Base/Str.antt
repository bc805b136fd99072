-- ===== src/Base/Str.antt =====
-- Texts as lists of code points, and the decimal numbers that `format!` prints.
use Prim.Native.Nat.{ℕ, zero, suc, ◌+◌, ◌-◌, ◌*◌, ◌/◌, ◌%◌, ◌^◌, ◌<◌}
use Prim.Native.Char.{code}
use Prim.Native.String.{String}
use mathlib.Core.Path.{◌≡◌}
use mathlib.Core.Logic.{ite}
use mathlib.Core.Bool.{Bool, true, false, ◌&&◌, ◌||◌}
use mathlib.Core.Option.{Option, none, some}
use mathlib.Core.List.{List, [], ◌∷◌, ◌++◌, reverse}
use native.Mathlib.Decide.{ℕ_discrete}
use native.Mathlib.Omega.{arith}
use ida_mcp.Base.Tests.{leb, ltb, ◌==◌, if◌then◌else◌}
use ida_mcp.Base.Lists.{length}

abbrev pub Text : Type 0
Text = List ℕ

abbrev pub text : String → Text
text String.[] = []
text (String.◌∷◌ c s) = code c ∷ text s

unfoldable pub text_discrete : Discrete Text
text_discrete = hlevel ℕ_discrete

-- `==` of `str`.
abbrev pub text_eq : Text → Text → Bool
text_eq s t = ite (text_discrete s t) true false

abbrev pub replicate : ℕ → ℕ → Text
replicate zero c = []
replicate (suc n) c = c ∷ replicate n c

-- The decimal digits, the last one first. The fuel `n + 1` is more than the digits of `n`.
unfoldable pub digits_rev : ℕ → ℕ → Text
digits_rev zero n = []
digits_rev (suc f) n =
    let rest = digits_rev f (n / 10) in (48 + n % 10) ∷ (if ltb n 10 then [] else rest)

-- `{n}` and `{n:0w}` of `format!`.
unfoldable pub decimal : ℕ → Text
unfolding digits_rev
decimal n = reverse (digits_rev (suc n) n)

unfoldable pub padded : ℕ → ℕ → Text
unfolding decimal
padded w n = let ds = decimal n in replicate (w - length ds) 48 ++ ds

-- The number whose digits stand before the first dash of a reversed text.
unfoldable pub read_rev : Text → ℕ
read_rev [] = 0
read_rev (c ∷ cs) = let rest = read_rev cs in if c == 45 then 0 else (c - 48) + 10 * rest

pub read_rev-digits_rev :
    (f n : ℕ) (rest : Text) → n < f → read_rev (digits_rev f n ++ 45 ∷ rest) ≡ n
unfolding read_rev digits_rev
read_rev-digits_rev zero n rest h = elim h [ ]
read_rev-digits_rev (suc f) n rest h = ground (arith, read_rev-digits_rev f (n / 10) rest)

-- `{n:x}` and `{n:0wx}`.
abbrev pub hex_digit : ℕ → ℕ
hex_digit d = if ltb d 10 then 48 + d else 87 + d

unfoldable pub hex_rev : ℕ → ℕ → Text
hex_rev zero n = []
hex_rev (suc f) n =
    let rest = hex_rev f (n / 16) in hex_digit (n % 16) ∷ (if ltb n 16 then [] else rest)

unfoldable pub hex : ℕ → Text
unfolding hex_rev
hex n = reverse (hex_rev (suc n) n)

unfoldable pub hex_padded : ℕ → ℕ → Text
unfolding hex
hex_padded w n = let ds = hex n in replicate (w - length ds) 48 ++ ds

abbrev hex_value : ℕ → ℕ
hex_value c = if ltb c 58 then c - 48 else c - 87

-- The hexadecimal number whose digits stand before the first dash of a reversed text.
unfoldable pub read_hex_rev : Text → ℕ
read_hex_rev [] = 0
read_hex_rev (c ∷ cs) = let rest = read_hex_rev cs in if c == 45 then 0 else hex_value c + 16 * rest

pub read_hex_rev-hex_rev :
    (f n : ℕ) (rest : Text) → n < f → read_hex_rev (hex_rev f n ++ 45 ∷ rest) ≡ n
unfolding read_hex_rev hex_rev
read_hex_rev-hex_rev zero n rest h = elim h [ ]
read_hex_rev-hex_rev (suc f) n rest h = ground (arith, read_hex_rev-hex_rev f (n / 16) rest)

-- The whitespace of `str::trim`.
unfoldable pub is_whitespace : ℕ → Bool
is_whitespace c =
    (leb 9 c && leb c 13)
    || (c == 32)
    || (c == 133)
    || (c == 160)
    || (c == 5760)
    || (leb 8192 c && leb c 8202)
    || (c == 8232)
    || (c == 8233)
    || (c == 8239)
    || (c == 8287)
    || (c == 12288)

unfoldable pub trim_start : Text → Text
trim_start [] = []
trim_start (c ∷ cs) = let rest = trim_start cs in if is_whitespace c then rest else c ∷ cs

abbrev pub is_empty : Text → Bool
is_empty [] = true
is_empty (c ∷ cs) = false

unfoldable pub trim_end : Text → Text
trim_end [] = []
trim_end (c ∷ cs) =
    let rest = trim_end cs in if is_whitespace c && is_empty rest then [] else c ∷ rest

unfoldable pub trim : Text → Text
unfolding trim_start trim_end
trim s = trim_end (trim_start s)

-- `parse::<usize>` and `parse::<u64>`: an optional plus sign, decimal digits, no overflow.
unfoldable pub parse_digits : ℕ → Text → Option ℕ
parse_digits n [] = some n
parse_digits n (c ∷ cs) =
    let rest = parse_digits (n * 10 + (c - 48)) cs in
    if leb 48 c && leb c 57 && ltb (n * 10 + (c - 48)) (2 ^ 64) then rest else none

abbrev pub without_plus : Text → Text
without_plus [] = []
without_plus (c ∷ cs) = if c == 43 then cs else c ∷ cs

unfoldable pub parse_u64 : Text → Option ℕ
unfolding parse_digits
parse_u64 s = let digits = without_plus s in if is_empty digits then none else parse_digits 0 digits
