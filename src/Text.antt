-- ===== src/Text.antt =====
-- What the source uses of Rust's `str` and `char`: blank texts, ASCII classes, prefixes, decimal
-- numbers. A text is a native `String`; the functions walk its characters.
pub mod Laws
use Prim.Native.String
use agentbox_nix.Shared.{
  ℕ, zero, suc, ◌+◌, ◌-◌, ◌*◌, ◌/◌, ◌%◌, Char, code, String, Bool, true, false, ◌&&◌, ◌||◌, Option,
  none, some, List, [], ◌∷◌, leb, eqb, all, if◌then◌else◌,
}

-- The code points of a text.
abbrev pub codes : String → List ℕ
codes String.[] = []
codes (String.◌∷◌ c s) = code c ∷ codes s

abbrev pub chars : String → List Char
chars String.[] = []
chars (String.◌∷◌ c s) = c ∷ chars s

abbrev pub from_chars : List Char → String
from_chars [] = String.[]
from_chars (c ∷ cs) = String.◌∷◌ c (from_chars cs)

-- `char::is_whitespace`, the code points with the Unicode property White_Space.
unfoldable pub is_whitespace : ℕ → Bool
is_whitespace c =
    leb 9 c && leb c 13
    || eqb c 32
    || eqb c 0x85
    || eqb c 0xa0
    || eqb c 0x1680
    || leb 0x2000 c && leb c 0x200a
    || eqb c 0x2028
    || eqb c 0x2029
    || eqb c 0x202f
    || eqb c 0x205f
    || eqb c 0x3000

-- `value.trim().is_empty()`
unfoldable pub is_blank : String → Bool
unfolding is_whitespace
is_blank s = all is_whitespace (codes s)

abbrev pub is_ascii_digit : ℕ → Bool
is_ascii_digit c = leb b'0' c && leb c b'9'

abbrev pub is_ascii_hexdigit : ℕ → Bool
is_ascii_hexdigit c = is_ascii_digit c || leb b'a' c && leb c b'f' || leb b'A' c && leb c b'F'

abbrev pub is_ascii_alphanumeric : ℕ → Bool
is_ascii_alphanumeric c = is_ascii_digit c || leb b'a' c && leb c b'z' || leb b'A' c && leb c b'Z'

-- `char::to_ascii_lowercase`
abbrev pub to_ascii_lowercase : ℕ → ℕ
to_ascii_lowercase c = if leb b'A' c && leb c b'Z' then c + 32 else c

-- `starts_with`, over code points.
abbrev pub is_prefix : List ℕ → List ℕ → Bool
is_prefix [] ys = true
is_prefix (x ∷ xs) [] = false
is_prefix (x ∷ xs) (y ∷ ys) = eqb x y && is_prefix xs ys

abbrev parse_digits : List ℕ → ℕ → Option ℕ
parse_digits [] n = some n
parse_digits (c ∷ cs) n =
    let rest = parse_digits cs (n * 10 + (c - b'0')) in if is_ascii_digit c then rest else none

abbrev bounded : ℕ → Option ℕ → Option ℕ
bounded most none = none
bounded most (some n) = if leb n most then some n else none

abbrev parse_unsigned_codes : List ℕ → ℕ → Option ℕ
parse_unsigned_codes [] most = none
parse_unsigned_codes (c ∷ []) most = bounded most (parse_digits (c ∷ []) 0)
parse_unsigned_codes (c ∷ d ∷ cs) most =
    bounded most (parse_digits (if eqb c b'+' then d ∷ cs else c ∷ d ∷ cs) 0)

-- `str::parse` into an unsigned type with the given greatest value: an optional plus sign, then one
-- digit or more. A value that overflows on the way is above the bound at the end too.
unfoldable pub parse_unsigned : String → ℕ → Option ℕ
parse_unsigned s most = parse_unsigned_codes (codes s) most

abbrev pub u16_max : ℕ
u16_max = 65535

abbrev digit_text : ℕ → String
digit_text d =
    if eqb d 0
    then "0"
    else if eqb d 1
    then "1"
    else if eqb d 2
    then "2"
    else if eqb d 3
    then "3"
    else if eqb d 4
    then "4"
    else if eqb d 5
    then "5"
    else if eqb d 6
    then "6"
    else if eqb d 7
    then "7"
    else if eqb d 8
    then "8"
    else "9"

print_digits : ℕ → ℕ → String → String
print_digits zero n out = out
print_digits (suc fuel) n out =
    let out' = String.◌++◌ (digit_text (n % 10)) out in
    let rest = print_digits fuel (n / 10) out' in if eqb (n / 10) 0 then out' else rest

-- `to_string` of an unsigned number; a number has at most as many digits as the fuel `n + 1`.
unfoldable pub decimal : ℕ → String
unfolding print_digits
decimal n = print_digits (suc n) n ""
