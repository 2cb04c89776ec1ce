-- ===== src/CwDaemon/Server/Receive.antt =====
-- src/udp_server.cpp, `receive`: what is left of a datagram.
use cwsd.Shared.{
  ℕ, ◌≡◌, ◌≢◌, ◌⊎◌, ◌∙◌, refl, ap, true, ◌&&◌, List, [], ◌∷◌, ◌++◌, last_or, front-last_or, All,
  Bool-cases, inl, inr, arith,
}
use cwsd.CwDaemon.Server.{is_empty, ends_line, strip_tail, receive}

-- Bytes that end a line.
abbrev LineEnd : List ℕ → Type 0
LineEnd s = All (λ c. ends_line c ≡ true) s

line_ends : (s : List ℕ) → LineEnd s → All (λ d. (d ≡ b'\n') ⊎ ((d ≡ b'\r') ⊎ (d ≡ b' '))) s
unfolding ends_line
line_ends [] h = tt
line_ends (d ∷ s) h = (ground (arith, h.0), line_ends s h.1)

strip_tail_lem : (s : List ℕ) → (after : List ℕ) × (s ≡ strip_tail s ++ after) × LineEnd after
unfolding strip_tail
strip_tail_lem [] = ([], refl, tt)
strip_tail_lem (c ∷ cs) = elim (Bool-cases (is_empty (strip_tail cs) && ends_line c)) [
  | inl e ↦
      let (after, same, blank) = strip_tail_lem cs in
      let gone : strip_tail cs ≡ [] = ground arith in
      rw e (c ∷ after, ap (λ t. c ∷ t) (rw gone at same), (ground arith, blank))
  | inr e ↦
      let (after, same, blank) = strip_tail_lem cs in rw e (after, ap (λ t. c ∷ t) same, blank)
]

-- Neither a line feed, nor a carriage return, nor a space.
abbrev pub EndsNoLine : ℕ → Type 0
EndsNoLine c = (c ≢ b'\n') × (c ≢ b'\r') × (c ≢ b' ')

-- What is left ends in none of them.
strip_tail_last : (s front : List ℕ) (c : ℕ) → strip_tail s ≡ front ++ c ∷ [] → EndsNoLine c
unfolding strip_tail ends_line
strip_tail_last [] [] c e = cc
strip_tail_last [] (f ∷ front) c e = cc
strip_tail_last (d ∷ s) [] c e = elim (Bool-cases (is_empty (strip_tail s) && ends_line d)) [
  | inl empty ↦ ground arith
  | inr kept ↦ ground arith
]
strip_tail_last (d ∷ s) (f ∷ front) c e =
    elim (Bool-cases (is_empty (strip_tail s) && ends_line d)) [
      | inl empty ↦ ground arith
      | inr kept ↦ strip_tail_last s front c (ground arith)
    ]

last_or-EndsNoLine : (s rest : List ℕ) → strip_tail s ≡ rest → EndsNoLine (last_or 0 rest)
last_or-EndsNoLine s [] e = (omega arith, omega arith, omega arith)
last_or-EndsNoLine s (c ∷ rest) e =
    let (front, same) = front-last_or c rest in strip_tail_last s front (last_or c rest) (e ∙ same)

-- The message of a datagram that is not empty is its first bytes, at least one of them, with a zero
-- byte behind them; what is left off are line feeds, carriage returns and spaces, and beyond its
-- first byte what is kept does not end in one of these.
pub receive_lem :
    (c : ℕ) (cs : List ℕ)
    → (kept : List ℕ) × (after : List ℕ) × (c ∷ cs ≡ c ∷ kept ++ after)
      × All (λ d. (d ≡ b'\n') ⊎ ((d ≡ b'\r') ⊎ (d ≡ b' '))) after
      × EndsNoLine (last_or 0 kept)
      × (receive (c ∷ cs) ≡ c ∷ kept ++ 0 ∷ [])
unfolding receive
receive_lem c cs =
    let (after, same, blank) = strip_tail_lem cs in
    (
      strip_tail cs,
      after,
      ap (λ t. c ∷ t) same,
      line_ends after blank,
      last_or-EndsNoLine cs (strip_tail cs) refl,
      refl,
    )
