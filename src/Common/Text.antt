-- ===== src/Common/Text.antt =====
-- JavaScript's operations on texts, character by character.
-- A text is its code points, where the program has UTF-16 code units; the two differ only in the
-- length of texts outside the basic plane.
use Prim.Native.Nat.{ℕ, zero, suc, ◌+◌, ◌-◌, ◌/◌, ◌%◌}
use Prim.Native.Char.{Char, code}
use Prim.Native.String.{String, [], ◌∷◌, ◌++◌ as ◌<>◌}
use mathlib.Core.Bool.{Bool, true, false, ◌&&◌, ◌||◌}
use jolarca.Common.Tests.{ltb, leb, ◌is◌, if◌then◌else◌}
use mathlib.Core.List.{List, [] as nil, ◌∷◌ as ◌∷ᴸ◌}
use mathlib.Core.Option.{Option, none, some}

-- `!s`
abbrev pub is_empty : String → Bool
is_empty [] = true
is_empty (c ∷ s) = false

-- `s || d`
abbrev pub or_text : String → String → String
or_text [] d = d
or_text (c ∷ s) d = c ∷ s

-- `s || undefined`
abbrev pub or_undefined : String → Option String
or_undefined [] = none
or_undefined (c ∷ s) = some (c ∷ s)

-- The white space and line ends that `trim` and `\s` know.
abbrev pub is_space_code : ℕ → Bool
is_space_code n =
    (leb 9 n && leb n 13)
    || n is 32
    || n is 160
    || n is 0x1680
    || (leb 0x2000 n && leb n 0x200a)
    || n is 0x2028
    || n is 0x2029
    || n is 0x202f
    || n is 0x205f
    || n is 0x3000
    || n is 0xfeff

unfoldable pub is_space : Char → Bool
is_space c = is_space_code (code c)

unfoldable pub trim_start : String → String
trim_start [] = []
trim_start (c ∷ s) = let rest = trim_start s in if is_space c then rest else c ∷ s

abbrev pub end_cons : Char → String → String
end_cons c [] = if is_space c then [] else c ∷ []
end_cons c (d ∷ s) = c ∷ (d ∷ s)

unfoldable pub trim_end : String → String
trim_end [] = []
trim_end (c ∷ s) = end_cons c (trim_end s)

-- `s.trim()`
unfoldable pub trim : String → String
unfolding trim_start trim_end is_space
trim s = trim_end (trim_start s)

abbrev digit : ℕ → String
digit zero = "0"
digit (suc zero) = "1"
digit (suc (suc zero)) = "2"
digit (suc (suc (suc zero))) = "3"
digit (suc (suc (suc (suc zero)))) = "4"
digit (suc (suc (suc (suc (suc zero))))) = "5"
digit (suc (suc (suc (suc (suc (suc zero)))))) = "6"
digit (suc (suc (suc (suc (suc (suc (suc zero))))))) = "7"
digit (suc (suc (suc (suc (suc (suc (suc (suc zero)))))))) = "8"
digit _ = "9"

decimal_from : ℕ → ℕ → String → String
decimal_from zero n tail = tail
decimal_from (suc fuel) n tail =
    let rest = decimal_from fuel (n / 10) (digit (n % 10) <> tail) in
    if ltb n 10 then digit n <> tail else rest

-- `String(n)`; a number has fewer digits than `suc n`.
unfoldable pub decimal : ℕ → String
unfolding decimal_from
decimal n = decimal_from (suc n) n ""

-- `s.startsWith(prefix)`
unfoldable pub has_prefix : String → String → Bool
has_prefix [] s = true
has_prefix (p ∷ ps) [] = false
has_prefix (p ∷ ps) (c ∷ s) = code p is code c && has_prefix ps s

abbrev pub starts_with : String → String → Bool
starts_with s prefix = has_prefix prefix s

-- `s.includes(c)`, for a single character by its code.
unfoldable pub includes_code : ℕ → String → Bool
includes_code n [] = false
includes_code n (c ∷ s) = code c is n || includes_code n s

-- The text up to the first character with the code, or all of it.
unfoldable pub before_code : ℕ → String → String
before_code n [] = []
before_code n (c ∷ s) = if code c is n then [] else c ∷ before_code n s

-- The text behind the first character with the code, if there is one.
unfoldable pub after_code : ℕ → String → Option String
after_code n [] = none
after_code n (c ∷ s) = if code c is n then some s else after_code n s

-- `s.length`
unfoldable pub length_of : String → ℕ
length_of [] = 0
length_of (c ∷ s) = suc (length_of s)

-- `s.slice(n)`
unfoldable pub slice_from : ℕ → String → String
slice_from zero s = s
slice_from (suc n) [] = []
slice_from (suc n) (c ∷ s) = slice_from n s

-- `s.slice(0, n)`
unfoldable pub slice_to : ℕ → String → String
slice_to zero s = []
slice_to (suc n) [] = []
slice_to (suc n) (c ∷ s) = c ∷ slice_to n s

abbrev cons_part : Char → List String → List String
cons_part c nil = (c ∷ []) ∷ᴸ nil
cons_part c (part ∷ᴸ parts) = (c ∷ part) ∷ᴸ parts

-- `s.split(c)`, for a single character by its code: one part more than separators.
unfoldable pub split_on : ℕ → String → List String
split_on n [] = [] ∷ᴸ nil
split_on n (c ∷ s) =
    let parts = split_on n s in if code c is n then [] ∷ᴸ parts else cons_part c parts

-- ASCII's part of `s.toLowerCase()` and `s.toUpperCase()`; the program compares the results with
-- ASCII texts.
unfoldable pub lower_code : ℕ → ℕ
lower_code n = if leb b'A' n && leb n b'Z' then n + 32 else n

unfoldable pub upper_code : ℕ → ℕ
upper_code n = if leb b'a' n && leb n b'z' then n - 32 else n

-- The codes of a text.
unfoldable pub codes : String → List ℕ
codes [] = nil
codes (c ∷ s) = code c ∷ᴸ codes s

abbrev pub starts : List ℕ → List ℕ → Bool
starts nil cs = true
starts (w ∷ᴸ ws) nil = false
starts (w ∷ᴸ ws) (c ∷ᴸ cs) = w is c && starts ws cs

-- Whether the text with the first codes occurs in that with the second.
unfoldable pub occurs : List ℕ → List ℕ → Bool
occurs ws nil = starts ws nil
occurs ws (c ∷ᴸ cs) = starts ws (c ∷ᴸ cs) || occurs ws cs
