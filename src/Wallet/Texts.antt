-- ===== src/Wallet/Texts.antt =====
-- What the wallet's code uses of strconv and strings, on texts of ASCII bytes.
pub mod Numbers
mod Tests
use cardano_infrastructure.Base.{
  ℕ, zero, suc, ◌+◌, ◌-◌, ◌*◌, ◌/◌, ◌%◌, ◌^◌, Bool, true, false, ◌&&◌, ◌||◌, not, Option, none,
  some, List, [], ◌∷◌, ◌++◌, Bytes, ascii, ltb, leb, ◌==◌, if◌then◌else◌, drop, length, bytes_eq,
}
use cardano_infrastructure.Common.Retry.{has_prefix}

-- The last `fuel` digits.
unfoldable pub digits : ℕ → ℕ → Bytes
digits zero n = []
digits (suc fuel) n =
    let rest = digits fuel (n / 10) in
    if ltb n 10 then (n + 48) ∷ [] else rest ++ ((n % 10 + 48) ∷ [])

-- `strconv.FormatUint(n, 10)` and `%d`: a `uint64` has no more than 20 digits.
unfoldable pub format_uint : ℕ → Bytes
format_uint n = digits 20 n

unfoldable pub to_lower_byte : ℕ → ℕ
to_lower_byte c = if leb 65 c && leb c 90 then c + 32 else c

unfoldable pub to_upper_byte : ℕ → ℕ
to_upper_byte c = if leb 97 c && leb c 122 then c - 32 else c

-- `strings.ToLower`.
unfoldable pub to_lower : Bytes → Bytes
to_lower [] = []
to_lower (c ∷ s) = to_lower_byte c ∷ to_lower s

-- The value of a digit below the base; an underscore counts only when the base is read from the text.
unfoldable pub digit_value : ℕ → Option ℕ
digit_value c =
    if leb 48 c && leb c 57
    then some (c - 48)
    else if leb 97 (to_lower_byte c) && leb (to_lower_byte c) 122
    then some (to_lower_byte c - 87)
    else none

unfoldable pub with_digit : ℕ → ℕ → Option ℕ → Option ℕ
with_digit base n none = none
with_digit base n (some d) =
    if ltb d base && ltb (n * base + d) (2 ^ 64) then some (n * base + d) else none

-- The loop of `strconv.ParseUint` over the digits, from the value so far.
unfoldable pub parse_digits : Bool → ℕ → Bytes → Option ℕ → Option ℕ
parse_digits underscores base s none = none
parse_digits underscores base [] (some n) = some n
parse_digits underscores base (c ∷ s) (some n) =
    let skipped = parse_digits underscores base s (some n) in
    let rest = parse_digits underscores base s (with_digit base n (digit_value c)) in
    if underscores && c == 95 then skipped else rest

-- `strconv.ParseUint(s, 10, 64)`.
unfoldable pub parse_uint : Bytes → Option ℕ
parse_uint [] = none
parse_uint (c ∷ s) = parse_digits false 10 (c ∷ s) (some 0)

-- `underscoreOK` of strconv: `last` is 94 at first, 48 after a digit, 95 after an underscore, else 33.
unfoldable pub underscores_loop : Bool → ℕ → Bytes → Bool
underscores_loop hex last [] = not (last == 95)
underscores_loop hex last (c ∷ s) =
    let after_digit = underscores_loop hex 48 s in
    let after_underscore = underscores_loop hex 95 s in
    let after_other = underscores_loop hex 33 s in
    if (leb 48 c && leb c 57) || (hex && leb 97 (to_lower_byte c) && leb (to_lower_byte c) 102)
    then after_digit
    else if c == 95
    then last == 48 && after_underscore
    else not (last == 95) && after_other

-- The base that a text names, the digits behind the prefix, and whether the prefix is a letter's.
unfoldable pub base_of : Bytes → ℕ × Bytes × Bool
base_of [] = (10, [], false)
base_of (z ∷ []) = if z == 48 then (8, [], false) else (10, z ∷ [], false)
base_of (z ∷ c ∷ []) = if z == 48 then (8, c ∷ [], false) else (10, z ∷ c ∷ [], false)
base_of (z ∷ c ∷ d ∷ s) =
    if not (z == 48)
    then (10, z ∷ c ∷ d ∷ s, false)
    else if to_lower_byte c == 98
    then (2, d ∷ s, true)
    else if to_lower_byte c == 111
    then (8, d ∷ s, true)
    else if to_lower_byte c == 120
    then (16, d ∷ s, true)
    else (8, c ∷ d ∷ s, false)

unfoldable pub checked_underscores : Bool → Option ℕ → Option ℕ
checked_underscores good parsed = if good then parsed else none

-- `strconv.ParseUint(s, 0, 64)`.
unfoldable pub parse_uint_any : Bytes → Option ℕ
parse_uint_any [] = none
parse_uint_any (c ∷ s) =
    let (base, rest, lettered) = base_of (c ∷ s) in
    checked_underscores
      (underscores_loop (lettered && base == 16) (if lettered then 48 else 94)
        (if lettered then rest else c ∷ s))
      (parse_digits true base rest (some 0))

unfoldable pub is_space : ℕ → Bool
is_space c = c == 32 || (leb 9 c && leb c 13)

unfoldable pub trim_left : Bytes → Bytes
trim_left [] = []
trim_left (c ∷ s) = let rest = trim_left s in if is_space c then rest else c ∷ s

unfoldable pub reverse : Bytes → Bytes
reverse [] = []
reverse (c ∷ s) = reverse s ++ (c ∷ [])

-- `strings.TrimSpace`.
unfoldable pub trim_space : Bytes → Bytes
trim_space s = reverse (trim_left (reverse (trim_left s)))

-- `strings.TrimPrefix`.
unfoldable pub trim_prefix : Bytes → Bytes → Bytes
trim_prefix s prefix = if has_prefix s prefix then drop (length prefix) s else s

unfoldable pub trim_newlines_left : Bytes → Bytes
trim_newlines_left [] = []
trim_newlines_left (c ∷ s) = let rest = trim_newlines_left s in if c == 10 then rest else c ∷ s

-- `strings.Trim(s, "\n")`.
unfoldable pub trim_newlines : Bytes → Bytes
trim_newlines s = reverse (trim_newlines_left (reverse (trim_newlines_left s)))

-- `strings.Split(s, " ")[0]`.
unfoldable pub before_space : Bytes → Bytes
before_space [] = []
before_space (c ∷ s) = let rest = before_space s in if c == 32 then [] else c ∷ rest
