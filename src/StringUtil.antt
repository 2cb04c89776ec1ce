-- ===== src/StringUtil.antt =====
-- src/string_util.h: trimming, splitting and replacing. A `std::string` is the list of its bytes.
pub mod Split
pub mod Trim
mod Tests
use cwsd.Shared.{
  ℕ, zero, suc, ◌-◌, Bool, true, false, ◌&&◌, ◌||◌, List, [], ◌∷◌, ◌++◌, length, ◌==◌,
  if◌then◌else◌,
}

-- `starts_with`
unfoldable pub starts_with : List ℕ → List ℕ → Bool
starts_with haystack [] = true
starts_with [] (n ∷ needle) = false
starts_with (c ∷ haystack) (n ∷ needle) = c == n && starts_with haystack needle

-- `string_contains`
unfoldable pub string_contains : List ℕ → List ℕ → Bool
unfolding starts_with
string_contains [] needle = starts_with [] needle
string_contains (c ∷ haystack) needle =
    starts_with (c ∷ haystack) needle || string_contains haystack needle

-- The loop of `split_string`, with `skip` bytes of a delimiter still to be passed over: the piece
-- that the text begins with, and the pieces after it.
unfoldable pub split_from : List ℕ → ℕ → List ℕ → List ℕ × List (List ℕ)
split_from delimiter skip [] = ([], [])
split_from delimiter (suc skip) (c ∷ cs) = split_from delimiter skip cs
split_from delimiter zero (c ∷ cs) =
    let (next, others) = split_from delimiter (length delimiter - 1) cs in
    let (piece, rest) = split_from delimiter zero cs in
    if starts_with (c ∷ cs) delimiter then ([], next ∷ others) else (c ∷ piece, rest)

-- `split_string`; with an empty delimiter the code does not end.
unfoldable pub split_string : List ℕ → List ℕ → List (List ℕ)
unfolding split_from
split_string input delimiter = let (piece, rest) = split_from delimiter 0 input in piece ∷ rest

-- The loop of `replace_all`, with `skip` bytes still to be passed over.
unfoldable pub replace_from : List ℕ → List ℕ → ℕ → List ℕ → List ℕ
replace_from from to skip [] = []
replace_from from to (suc skip) (c ∷ cs) = replace_from from to skip cs
replace_from from to zero (c ∷ cs) =
    let after = replace_from from to (length from - 1) cs in
    let rest = replace_from from to zero cs in
    if starts_with (c ∷ cs) from then to ++ after else c ∷ rest

unfoldable pub replace_all : List ℕ → List ℕ → List ℕ → List ℕ
unfolding replace_from
replace_all str [] to = str
replace_all str (f ∷ from) to = replace_from (f ∷ from) to 0 str

-- Whether `c` is one of `chars`.
unfoldable pub one_of : List ℕ → ℕ → Bool
one_of [] c = false
one_of (x ∷ chars) c = x == c || one_of chars c

-- `ltrim`: what stands before the first byte that is none of `chars` goes.
unfoldable pub ltrim : List ℕ → List ℕ → List ℕ
ltrim [] chars = []
ltrim (c ∷ cs) chars = if one_of chars c then ltrim cs chars else c ∷ cs

abbrev pub is_empty : List ℕ → Bool
is_empty [] = true
is_empty (c ∷ cs) = false

-- `rtrim`: what stands behind the last byte that is none of `chars` goes.
unfoldable pub rtrim : List ℕ → List ℕ → List ℕ
rtrim [] chars = []
rtrim (c ∷ cs) chars =
    let rest = rtrim cs chars in if is_empty rest && one_of chars c then [] else c ∷ rest

-- The white space that `trim(str)` takes.
abbrev pub white_space : List ℕ
white_space = b'\t' ∷ b'\n' ∷ 11 ∷ 12 ∷ b'\r' ∷ b' ' ∷ []

-- `trim`
unfoldable pub trim : List ℕ → List ℕ → List ℕ
unfolding ltrim rtrim
trim str chars = ltrim (rtrim str chars) chars
