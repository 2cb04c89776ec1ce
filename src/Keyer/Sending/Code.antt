-- ===== src/Keyer/Sending/Code.antt =====
-- The Morse code of a stream of bytes, as bytes are added at its end and taken from its front.
use cwsd.Shared.{
  ℕ, zero, suc, ◌≤◌, ◌≡◌, refl, ap, true, false, Option, some, List, [], ◌∷◌, ◌++◌, append_assoc,
  drop, length, arith, ◌&&◌,
}
use cwsd.Keyer.CharPatterns.{CharPattern, get_char_pattern}
use cwsd.Keyer.Winkeyer.{parameter_count, is_winkeyer_command, is_winkeyer_buffered_command}
use cwsd.Keyer.Machine.{Element}
use cwsd.Keyer.Sending.{code, code_of, elements, lacking, is_buffered_stream, arguments_of}

-- What the byte `c` adds to the code of a stream that lacks `n` arguments.
abbrev pub added : ℕ → ℕ → List Element
added n c = code n (c ∷ [])

pub code-append :
    (skip : ℕ) (xs ys : List ℕ) → code skip (xs ++ ys) ≡ code skip xs ++ code (lacking skip xs) ys
unfolding code lacking
code-append skip [] ys = refl
code-append (suc skip) (x ∷ xs) ys = code-append skip xs ys
code-append zero (x ∷ xs) ys = rw (code-append (arguments_of x) xs ys) (rw append_assoc refl)

pub lacking-append :
    (skip : ℕ) (xs ys : List ℕ) → lacking skip (xs ++ ys) ≡ lacking (lacking skip xs) ys
unfolding lacking
lacking-append skip [] ys = refl
lacking-append (suc skip) (x ∷ xs) ys = lacking-append skip xs ys
lacking-append zero (x ∷ xs) ys = lacking-append (arguments_of x) xs ys

pub is_buffered_stream-append :
    (skip : ℕ) (xs ys : List ℕ)
    → is_buffered_stream skip (xs ++ ys)
      ≡ (is_buffered_stream skip xs && is_buffered_stream (lacking skip xs) ys)
unfolding is_buffered_stream lacking
is_buffered_stream-append skip [] ys = refl
is_buffered_stream-append (suc skip) (x ∷ xs) ys = is_buffered_stream-append skip xs ys
is_buffered_stream-append zero (x ∷ xs) ys =
    let rest = is_buffered_stream-append (arguments_of x) xs ys in ground arith

-- The first `n` bytes of a stream that starts with as many arguments count for nothing.
pub code-drop : (n : ℕ) (xs : List ℕ) → n ≤ length xs → code n xs ≡ code 0 (drop n xs)
unfolding code
code-drop zero xs h = refl
code-drop (suc n) [] h = refl
code-drop (suc n) (x ∷ xs) h = code-drop n xs (omega arith)

pub lacking-drop : (n : ℕ) (xs : List ℕ) → n ≤ length xs → lacking n xs ≡ lacking 0 (drop n xs)
unfolding lacking
lacking-drop zero xs h = refl
lacking-drop (suc n) [] h = omega arith
lacking-drop (suc n) (x ∷ xs) h = lacking-drop n xs (omega arith)

pub is_buffered_stream-drop :
    (n : ℕ) (xs : List ℕ)
    → n ≤ length xs
    → is_buffered_stream n xs ≡ is_buffered_stream 0 (drop n xs)
unfolding is_buffered_stream
is_buffered_stream-drop zero xs h = refl
is_buffered_stream-drop (suc n) [] h = refl
is_buffered_stream-drop (suc n) (x ∷ xs) h = is_buffered_stream-drop n xs (omega arith)

-- A byte that is no command: what it adds and asks for.
pub code_letter :
    (c : ℕ) (q : List ℕ)
    → is_winkeyer_command c ≡ false
    → (code 0 (c ∷ q) ≡ code_of c ++ code 0 q)
      × (lacking 0 (c ∷ q) ≡ lacking 0 q)
      × (is_buffered_stream 0 (c ∷ q) ≡ is_buffered_stream 0 q)
unfolding code lacking is_buffered_stream arguments_of
code_letter c q h = rw h (refl, refl, refl)

-- A command whose arguments are all there.
pub code_command :
    (c : ℕ) (q : List ℕ)
    → is_winkeyer_command c ≡ true
    → parameter_count c ≤ length q
    → let q' = drop (parameter_count c) q in
      (code 0 (c ∷ q) ≡ code 0 q')
      × (lacking 0 (c ∷ q) ≡ lacking 0 q')
      × (is_buffered_stream 0 (c ∷ q) ≡ (is_winkeyer_buffered_command c && is_buffered_stream 0 q'))
unfolding code lacking is_buffered_stream arguments_of
code_command c q h few = rw h (
  code-drop (parameter_count c) q few,
  lacking-drop (parameter_count c) q few,
  ap (λ t. is_winkeyer_buffered_command c && t) (is_buffered_stream-drop (parameter_count c) q few),
)

pub code_of_bar : code_of b'|' ≡ []
unfolding code_of get_char_pattern
code_of_bar = refl

pub code_of_lost : (c : ℕ) → get_char_pattern c ≡ Option.none → code_of c ≡ []
unfolding code_of
code_of_lost c e = rw (e, code_of) refl

pub code_of_found :
    (c : ℕ) {p : CharPattern}
    → get_char_pattern c ≡ some p
    → code_of c ≡ elements p.sent_char_data p.sent_char_bits
unfolding code_of
code_of_found c e = rw (e, code_of) refl
