-- ===== src/StringUtil/Trim.antt =====
-- What `trim` takes off.
use cwsd.Shared.{
  ℕ, ◌≤◌, ◌≡◌, length, refl, subst, ap, false, ◌∙◌, ◌&&◌, true, List, [], ◌∷◌, ◌++◌, All, get_or,
  last_or, front-last_or, ◌⊎◌, Bool-cases, inl, inr, arith,
}
use cwsd.StringUtil.{is_empty, one_of, ltrim, rtrim, trim}

-- All of the bytes are among `chars`.
abbrev pub Blank : List ℕ → List ℕ → Type 0
Blank chars s = All (λ c. one_of chars c ≡ true) s

ltrim_lem :
    (chars s : List ℕ)
    → (before : List ℕ) × (s ≡ before ++ ltrim s chars)
      × Blank chars before
      × (ltrim (ltrim s chars) chars ≡ ltrim s chars)
unfolding ltrim
ltrim_lem chars [] = ([], refl, tt, refl)
ltrim_lem chars (c ∷ cs) = elim (Bool-cases (one_of chars c)) [
  | inl e ↦
      let (before, same, blank, again) = ltrim_lem chars cs in
      rw e (c ∷ before, ap (λ t. c ∷ t) same, (e, blank), again)
  | inr e ↦ rw (e, e) ([], refl, tt, refl)
]

rtrim_lem : (chars s : List ℕ) → (after : List ℕ) × (s ≡ rtrim s chars ++ after) × Blank chars after
unfolding rtrim
rtrim_lem chars [] = ([], refl, tt)
rtrim_lem chars (c ∷ cs) = elim (Bool-cases (is_empty (rtrim cs chars) && one_of chars c)) [
  | inl e ↦
      let (after, same, blank) = rtrim_lem chars cs in
      let gone : rtrim cs chars ≡ [] = ground arith in
      rw e (c ∷ after, ap (λ t. c ∷ t) (rw gone at same), (ground arith, blank))
  | inr e ↦
      let (after, same, blank) = rtrim_lem chars cs in rw e (after, ap (λ t. c ∷ t) same, blank)
]

rtrim-rtrim : (chars s : List ℕ) → rtrim (rtrim s chars) chars ≡ rtrim s chars
unfolding rtrim
rtrim-rtrim chars [] = refl
rtrim-rtrim chars (c ∷ cs) = elim (Bool-cases (is_empty (rtrim cs chars) && one_of chars c)) [
  | inl e ↦ rw e refl
  | inr e ↦ rw (e, rtrim, rtrim-rtrim chars cs, e) refl
]

-- A text with nothing to be taken off its end has nothing there without its first byte.
rtrim_tail :
    (chars : List ℕ) (c : ℕ) (cs : List ℕ) → rtrim (c ∷ cs) chars ≡ c ∷ cs → rtrim cs chars ≡ cs
unfolding rtrim
rtrim_tail chars c cs h = ground arith

rtrim-ltrim : (chars t : List ℕ) → rtrim t chars ≡ t → rtrim (ltrim t chars) chars ≡ ltrim t chars
unfolding ltrim
rtrim-ltrim chars [] h = h
rtrim-ltrim chars (c ∷ cs) h = elim (Bool-cases (one_of chars c)) [
  | inl e ↦ rw e (rtrim-ltrim chars cs (rtrim_tail chars c cs h))
  | inr e ↦ rw e h
]

length-ltrim : (chars s : List ℕ) → length (ltrim s chars) ≤ length s
unfolding ltrim
length-ltrim chars [] = omega arith
length-ltrim chars (c ∷ cs) = elim (Bool-cases (one_of chars c)) [
  | inl e ↦ rw e (ground (arith, length-ltrim chars cs))
  | inr e ↦ rw e (omega arith)
]

-- A text that loses nothing begins, or ends, with a byte that is none of `chars`.
ltrim_first :
    (chars : List ℕ) (c : ℕ) (cs : List ℕ) → ltrim (c ∷ cs) chars ≡ c ∷ cs → one_of chars c ≡ false
unfolding ltrim
ltrim_first chars c cs h = elim (Bool-cases (one_of chars c)) [
  | inl e ↦ ground (arith, length-ltrim chars cs, ap length (rw e at h))
  | inr e ↦ e
]

rtrim_last :
    (chars front : List ℕ) (c : ℕ)
    → rtrim (front ++ c ∷ []) chars ≡ front ++ c ∷ []
    → one_of chars c ≡ false
unfolding rtrim
rtrim_last chars [] c h = ground arith
rtrim_last chars (f ∷ front) c h = rtrim_last chars front c (rtrim_tail chars f (front ++ c ∷ []) h)

-- A text that loses nothing at either end begins and ends with none of `chars`, unless it is empty.
ends_kept :
    (chars t : List ℕ)
    → ltrim t chars ≡ t
    → rtrim t chars ≡ t
    → (t ≡ []) ⊎ ((one_of chars (get_or t 0 0) ≡ false) × (one_of chars (last_or 0 t) ≡ false))
ends_kept chars [] l r = inl refl
ends_kept chars (c ∷ cs) l r =
    let (front, same) = front-last_or c cs in
    inr (
      ltrim_first chars c cs l,
      rtrim_last chars front (last_or c cs) (subst (λ t. rtrim t chars ≡ t) same r),
    )

-- `trim` takes bytes among `chars` off both ends of the text and nothing else, and what it leaves
-- is empty, or neither begins nor ends with one of them.
pub trim_lem :
    (chars s : List ℕ)
    → let t = trim s chars in
      (before : List ℕ) × (after : List ℕ) × (s ≡ before ++ t ++ after)
      × Blank chars before
      × Blank chars after
      × ((t ≡ []) ⊎ ((one_of chars (get_or t 0 0) ≡ false) × (one_of chars (last_or 0 t) ≡ false)))
unfolding trim
trim_lem chars s =
    let (after, same, blank) = rtrim_lem chars s in
    let (before, same', blank', again) = ltrim_lem chars (rtrim s chars) in
    (
      before,
      after,
      same ∙ ap (λ t. t ++ after) same',
      blank',
      blank,
      ends_kept chars (ltrim (rtrim s chars) chars) again
          (rtrim-ltrim chars (rtrim s chars) (rtrim-rtrim chars s)),
    )
