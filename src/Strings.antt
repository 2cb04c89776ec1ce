-- ===== src/Strings.antt =====
-- The functions of the C++ standard library on text that the program uses. A text is the list of
-- its bytes.
use cwsd.Shared.{
  ℕ, ◌+◌, ◌-◌, ◌*◌, ◌%◌, ◌^◌, Bool, true, false, not, ◌&&◌, ◌||◌, Option, none, some, List, [], ◌∷◌,
  leb, ltb, ◌==◌, if◌then◌else◌, suc, print_ℕ,
}

-- An `int`; `negsuc n` is -(n + 1).
pub data ℤ : Type 0 where
  pos : ℕ → ℤ
  negsuc : ℕ → ℤ

-- The `uint8_t` that an `int` is cut to.
unfoldable pub to_u8 : ℤ → ℕ
to_u8 (pos n) = n % 2 ^ 8
to_u8 (negsuc n) = (2 ^ 8 - 1) - n % 2 ^ 8

-- `std::tolower` in the C locale
unfoldable pub to_lower : ℕ → ℕ
to_lower c = if leb b'A' c && leb c b'Z' then c + 32 else c

-- The text up to the first zero byte, as a `const char*` is read.
unfoldable pub c_string : List ℕ → List ℕ
c_string [] = []
c_string (c ∷ cs) = if c == 0 then [] else c ∷ c_string cs

unfoldable pub is_space : ℕ → Bool
is_space c = c == b' ' || leb 9 c && leb c 13

unfoldable pub is_digit : ℕ → Bool
is_digit c = leb b'0' c && leb c b'9'

unfoldable pub skip_spaces : List ℕ → List ℕ
skip_spaces [] = []
skip_spaces (c ∷ cs) = if is_space c then skip_spaces cs else c ∷ cs

-- The number that the digits at the front make, on top of those read already.
unfoldable pub digits_value : ℕ → List ℕ → ℕ
digits_value n [] = n
digits_value n (c ∷ cs) =
    let rest = digits_value (n * 10 + (c - b'0')) cs in if is_digit c then rest else n

unfoldable pub starts_with_digit : List ℕ → Bool
starts_with_digit [] = false
starts_with_digit (c ∷ cs) = is_digit c

-- `std::stoi` past the sign; `none` is `std::invalid_argument` or `std::out_of_range`.
unfoldable pub stoi_digits : Bool → List ℕ → Option ℤ
unfolding starts_with_digit digits_value
stoi_digits negative cs =
    let n = digits_value 0 cs in
    if not (starts_with_digit cs)
    then none
    else if negative
    then if leb n (2 ^ 31) then some (if n == 0 then pos 0 else negsuc (n - 1)) else none
    else if ltb n (2 ^ 31)
    then some (pos n)
    else none

unfoldable pub stoi_signed : List ℕ → Option ℤ
unfolding stoi_digits
stoi_signed [] = none
stoi_signed (c ∷ cs) =
    if c == b'-'
    then stoi_digits true cs
    else if c == b'+'
    then stoi_digits false cs
    else stoi_digits false (c ∷ cs)

-- `std::stoi`
unfoldable pub stoi : List ℕ → Option ℤ
unfolding stoi_signed skip_spaces
stoi cs = stoi_signed (skip_spaces cs)

-- `std::toupper` in the C locale
unfoldable pub to_upper : ℕ → ℕ
to_upper c = if leb b'a' c && leb c b'z' then c - 32 else c

-- `std::to_string` of an `int`
unfoldable pub print_ℤ : ℤ → List ℕ
unfolding print_ℕ
print_ℤ (pos n) = print_ℕ n
print_ℤ (negsuc n) = b'-' ∷ print_ℕ (suc n)
