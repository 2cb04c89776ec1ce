-- ===== src/StringUtil/Split.antt =====
-- What `split_string` and `replace_all` do with the delimiter.
use cwsd.Shared.{
  ℕ, zero, suc, ◌-◌, ◌≡◌, refl, ap, sym, ◌∙◌, true, List, [], ◌∷◌, ◌++◌, length, drop, Bool-cases,
  inl, inr, arith,
}
use cwsd.StringUtil.{starts_with, split_from, split_string, replace_from, replace_all}

-- The pieces with the delimiter between them.
abbrev pub join : List ℕ → List ℕ → List (List ℕ) → List ℕ
join delimiter piece [] = piece
join delimiter piece (p ∷ ps) = piece ++ delimiter ++ join delimiter p ps

abbrev pub join_all : List ℕ → List (List ℕ) → List ℕ
join_all d [] = []
join_all d (p ∷ ps) = join d p ps

-- A text that starts with another one is that one and the rest.
pub starts_with_lem : (s d : List ℕ) → starts_with s d ≡ true → s ≡ d ++ drop (length d) s
unfolding starts_with
starts_with_lem s [] h = refl
starts_with_lem [] (n ∷ d) h = ground arith
starts_with_lem (c ∷ s) (n ∷ d) h =
    let same : c ≡ n = ground arith in
    let rest = starts_with_lem s d (ground arith) in rw (← same) (ap (λ t. c ∷ t) rest)

abbrev joined : List ℕ → List ℕ × List (List ℕ) → List ℕ
joined d (piece, rest) = join d piece rest

join_cons :
    (d : List ℕ) (c : ℕ) (piece : List ℕ) (rest : List (List ℕ))
    → join d (c ∷ piece) rest ≡ c ∷ join d piece rest
join_cons d c piece [] = refl
join_cons d c piece (p ∷ ps) = refl

-- From any number of bytes to be passed over, the pieces make up what is left.
join-split_from :
    (n : ℕ) (d : List ℕ) (skip : ℕ) (s : List ℕ)
    → joined (n ∷ d) (split_from (n ∷ d) skip s) ≡ drop skip s
unfolding split_from
join-split_from n d zero [] = refl
join-split_from n d (suc skip) [] = refl
join-split_from n d (suc skip) (c ∷ cs) = join-split_from n d skip cs
join-split_from n d zero (c ∷ cs) = elim (Bool-cases (starts_with (c ∷ cs) (n ∷ d))) [
  | inl hit ↦ rw hit (
      ap (λ t. n ∷ d ++ t) (join-split_from n d (length (n ∷ d) - 1) cs)
      ∙ ap (λ k. n ∷ d ++ drop k cs) (omega arith)
      ∙ sym (starts_with_lem (c ∷ cs) (n ∷ d) hit))
  | inr miss ↦ rw miss (join_cons (n ∷ d) c _ _ ∙ ap (λ t. c ∷ t) (join-split_from n d 0 cs))
]

-- Joining the pieces of a text with the delimiter that it was split at, which is not empty, gives
-- the text back.
pub join-split_string :
    (s : List ℕ) (n : ℕ) (d : List ℕ) → join_all (n ∷ d) (split_string s (n ∷ d)) ≡ s
unfolding split_string
join-split_string s n d = join-split_from n d 0 s

replace_from_lem :
    (n : ℕ) (d to : List ℕ) (skip : ℕ) (s : List ℕ)
    → replace_from (n ∷ d) to skip s ≡ joined to (split_from (n ∷ d) skip s)
unfolding replace_from split_from
replace_from_lem n d to zero [] = refl
replace_from_lem n d to (suc skip) [] = refl
replace_from_lem n d to (suc skip) (c ∷ cs) = replace_from_lem n d to skip cs
replace_from_lem n d to zero (c ∷ cs) = elim (Bool-cases (starts_with (c ∷ cs) (n ∷ d))) [
  | inl hit ↦ rw hit (ap (λ t. to ++ t) (replace_from_lem n d to (length (n ∷ d) - 1) cs))
  | inr miss ↦ rw miss (ap (λ t. c ∷ t) (replace_from_lem n d to 0 cs) ∙ sym (join_cons to c _ _))
]

-- Where the text to be replaced is not empty, `replace_all` is `split_string` at it, joined with
-- the other text.
pub replace_all-split_string :
    (s : List ℕ) (n : ℕ) (d to : List ℕ)
    → replace_all s (n ∷ d) to ≡ join_all to (split_string s (n ∷ d))
unfolding replace_all split_string
replace_all-split_string s n d to = replace_from_lem n d to 0 s
