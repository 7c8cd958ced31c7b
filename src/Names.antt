-- ===== src/Names.antt =====
-- runtime/manifest.go: the names, paths and byte sizes that a manifest declares. The parameters
-- `trim`, `upper` and `clean` are strings.TrimSpace, strings.ToUpper and path.Clean.
pub mod Sizes
use Prim.Native.Char.{Char, code}
use Prim.Native.String.{[], ◌∷◌}
use text.Mathlib.Text.{starts_with}
use particles.Base.{
  ℕ, ◌+◌, ◌-◌, ◌*◌, ◌^◌, ◌%◌, ◌/◌, String, Bool, true, false, not, ◌&&◌, ◌||◌, Option, none, some,
  str_eq, leb, ltb, ◌==◌, if◌then◌else◌,
}

abbrev between : ℕ → ℕ → ℕ → Bool
between low high c = leb low c && leb c high

unfoldable pub is_digit : Char → Bool
is_digit c = between 48 57 (code c)

-- '-', '_', 'a'..'z', 'A'..'Z', '0'..'9'
unfoldable pub is_name_char : Char → Bool
is_name_char c =
    (code c == 45)
    || ((code c == 95)
        || (between 97 122 (code c) || (between 65 90 (code c) || between 48 57 (code c))))

unfoldable pub all_name_chars : String → Bool
all_name_chars [] = true
all_name_chars (c ∷ s) = is_name_char c && all_name_chars s

-- validateMountName: whether it accepts
unfoldable pub is_mount_name : String → Bool
is_mount_name name = not (str_eq name "") && all_name_chars name

unfoldable pub is_mount_path : (String → String) → String → Bool
is_mount_path clean p =
    not (str_eq p "") && (starts_with p "/" && (str_eq (clean p) p && not (str_eq p "/")))

-- The leading number of a size, up to its last digit, and the rest.
unfoldable pub split_number : String → String × String
split_number [] = ("", "")
split_number (c ∷ s) =
    let (number, rest) = split_number s in
    if str_eq number ""
    then if is_digit c then (c ∷ "", rest) else ("", c ∷ rest)
    else (c ∷ number, rest)

-- The value of decimal digits, after those that gave `value`.
unfoldable pub digits : ℕ → String → Option ℕ
digits value [] = some value
digits value (c ∷ s) =
    let rest = digits (value * 10 + (code c - 48)) s in if is_digit c then rest else none

pub data Parsed : Type 0 where
  not_a_number : Parsed
  -- a number with a minus sign
  negative : ℕ → Parsed
  natural : ℕ → Parsed

abbrev pub int64_max : ℕ
int64_max = 9223372036854775807

unsigned : Bool → Option ℕ → Parsed
unsigned minus none = not_a_number
unsigned minus (some n) =
    if minus
    then if leb n (int64_max + 1) then negative n else not_a_number
    else if leb n int64_max
    then natural n
    else not_a_number

number_of : Bool → String → Parsed
unfolding unsigned
number_of minus [] = not_a_number
number_of minus (c ∷ s) = unsigned minus (digits 0 (c ∷ s))

-- strconv.ParseInt in base 10 with 64 bits
unfoldable pub parse_int : String → Parsed
unfolding number_of
parse_int [] = not_a_number
parse_int (c ∷ s) =
    if code c == 43
    then number_of false s
    else if code c == 45
    then number_of true s
    else number_of false (c ∷ s)

unfoldable pub multiplier : String → Option ℕ
multiplier unit =
    if str_eq unit "" || str_eq unit "B"
    then some 1
    else if str_eq unit "KB"
    then some 1024
    else if str_eq unit "MB"
    then some 1048576
    else if str_eq unit "GB"
    then some 1073741824
    else none

-- `n * mult`, as an int64 product of two values that are not negative
unfoldable pub scaled : Parsed → Option ℕ → Option ℕ
scaled (natural n) (some mult) =
    if n == 0
    then none
    else if ltb (int64_max / mult) n
    then none
    else some ((n * mult) % 18446744073709551616)
scaled _ _ = none

-- ParseByteSize: the size, or none for each of its errors
unfoldable pub parse_byte_size : (String → String) → (String → String) → String → Option ℕ
unfolding parse_int multiplier scaled
parse_byte_size trim upper s =
    let str = trim s in
    let (number, rest) = split_number str in
    if str_eq str "" || str_eq (trim number) ""
    then none
    else scaled (parse_int (trim number)) (multiplier (upper (trim rest)))
