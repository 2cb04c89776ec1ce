-- ===== src/StringUtil/Tests.antt =====
-- A line of two words.
use cwsd.Shared.{ℕ, ◌≡◌, ◌⊎◌, false, List, [], ◌∷◌, ◌++◌}
use cwsd.StringUtil.{
  starts_with, split_from, split_string, replace_all, ltrim, rtrim, trim, white_space, one_of,
}
use cwsd.StringUtil.Split.{join_all, join-split_string, replace_all-split_string}
use cwsd.StringUtil.Trim.{Blank, trim_lem}

abbrev line : List ℕ
line = b'F' ∷ b' ' ∷ b'7' ∷ []

join-split_string_example : join_all (b' ' ∷ []) ((b'F' ∷ []) ∷ (b'7' ∷ []) ∷ []) ≡ line
unfolding split_string split_from starts_with
join-split_string_example = join-split_string line b' ' []

replace_all-split_string_example :
    replace_all line (b' ' ∷ []) (b',' ∷ b',' ∷ []) ≡ b'F' ∷ b',' ∷ b',' ∷ b'7' ∷ []
unfolding split_string split_from starts_with
replace_all-split_string_example = replace_all-split_string line b' ' [] (b',' ∷ b',' ∷ [])

abbrev trimmed : List ℕ
trimmed = b'F' ∷ []

trim_example :
    (before : List ℕ) × (after : List ℕ) × (b' ' ∷ b'F' ∷ b'\n' ∷ []
      ≡ before ++ (b'F' ∷ []) ++ after)
    × Blank white_space before
    × Blank white_space after
    × ((trimmed ≡ []) ⊎ ((one_of white_space b'F' ≡ false) × (one_of white_space b'F' ≡ false)))
unfolding trim ltrim rtrim one_of
trim_example = trim_lem white_space (b' ' ∷ b'F' ∷ b'\n' ∷ [])
