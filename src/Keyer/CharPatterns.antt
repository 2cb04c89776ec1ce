-- ===== src/Keyer/CharPatterns.antt =====
-- src/keyer/keyer_char_patterns.h and .cpp: the Morse code of each character.
use cwsd.Shared.{
  ℕ, ◌^◌, ◌≤◌, ◌<◌, ◌≡◌, refl, sym, ap, ◌∙◌, Bool, true, ◌&&◌, Option, none, some, List, [], ◌∷◌,
  ◌==◌, if◌then◌else◌, leb, ltb, ==_iff, Bool-cases, inl, inr, arith,
}

-- `char_pattern`: the elements of a character, a dah as 1 and a dit as 0, the first one highest.
pub record CharPattern : Type 0 where
  pub sent_char_data : ℕ
  pub sent_char_bits : ℕ
  pub character : ℕ

abbrev pattern_of : ℕ → ℕ → ℕ → CharPattern
pattern_of bits n c = record { sent_char_data = bits; sent_char_bits = n; character = c }

pub char_table : List CharPattern
char_table =
    pattern_of 0b01 2 b'A'
    ∷ pattern_of 0b1000 4 b'B'
    ∷ pattern_of 0b1010 4 b'C'
    ∷ pattern_of 0b100 3 b'D'
    ∷ pattern_of 0b0 1 b'E'
    ∷ pattern_of 0b0010 4 b'F'
    ∷ pattern_of 0b110 3 b'G'
    ∷ pattern_of 0b0000 4 b'H'
    ∷ pattern_of 0b00 2 b'I'
    ∷ pattern_of 0b0111 4 b'J'
    ∷ pattern_of 0b101 3 b'K'
    ∷ pattern_of 0b0100 4 b'L'
    ∷ pattern_of 0b11 2 b'M'
    ∷ pattern_of 0b10 2 b'N'
    ∷ pattern_of 0b111 3 b'O'
    ∷ pattern_of 0b0110 4 b'P'
    ∷ pattern_of 0b1101 4 b'Q'
    ∷ pattern_of 0b010 3 b'R'
    ∷ pattern_of 0b000 3 b'S'
    ∷ pattern_of 0b1 1 b'T'
    ∷ pattern_of 0b001 3 b'U'
    ∷ pattern_of 0b0001 4 b'V'
    ∷ pattern_of 0b011 3 b'W'
    ∷ pattern_of 0b1001 4 b'X'
    ∷ pattern_of 0b1011 4 b'Y'
    ∷ pattern_of 0b1100 4 b'Z'
    ∷ pattern_of 0b11111 5 b'0'
    ∷ pattern_of 0b01111 5 b'1'
    ∷ pattern_of 0b00111 5 b'2'
    ∷ pattern_of 0b00011 5 b'3'
    ∷ pattern_of 0b00001 5 b'4'
    ∷ pattern_of 0b00000 5 b'5'
    ∷ pattern_of 0b10000 5 b'6'
    ∷ pattern_of 0b11000 5 b'7'
    ∷ pattern_of 0b11100 5 b'8'
    ∷ pattern_of 0b11110 5 b'9'
    ∷ pattern_of 0b001100 6 b'?'
    ∷ pattern_of 0b10010 5 b'/'
    ∷ pattern_of 0b110011 6 b','
    ∷ pattern_of 0b010101 6 b'.'
    ∷ pattern_of 0b10001 5 b'='
    ∷ pattern_of 0b100001 6 b'-'
    ∷ pattern_of 0b011110 6 b'"'
    ∷ pattern_of 0b10110 5 b'('
    ∷ pattern_of 0b101101 6 b')'
    ∷ pattern_of 0b000101 6 b'$'
    ∷ pattern_of 0b01010 5 b'+'
    ∷ pattern_of 0b1000101 7 b'['
    ∷ pattern_of 0b01000 5 b'{'
    ∷ pattern_of 0b10110 5 b'}'
    ∷ []

-- The loop of `get_char_pattern`; `none` is `nullptr`.
find_character : ℕ → List CharPattern → Option CharPattern
find_character chr [] = none
find_character chr (p ∷ ps) = if p.character == chr then some p else find_character chr ps

unfoldable pub get_char_pattern : ℕ → Option CharPattern
unfolding find_character char_table
get_char_pattern chr = find_character chr char_table

-- The loop of `decode_char`.
find_pattern : ℕ → ℕ → List CharPattern → ℕ
find_pattern bits n [] = b'?'
find_pattern bits n (p ∷ ps) =
    if p.sent_char_data == bits && p.sent_char_bits == n
    then p.character
    else find_pattern bits n ps

unfoldable pub decode_char : ℕ → ℕ → ℕ
unfolding find_pattern char_table
decode_char bits n = find_pattern bits n char_table

-- A test that holds of every row of a table.
every_row : (CharPattern → Bool) → List CharPattern → Bool
every_row test [] = true
every_row test (p ∷ ps) = test p && every_row test ps

and_left : (a b : Bool) → (a && b) ≡ true → a ≡ true
and_left a b h = ground arith

and_right : (a b : Bool) → (a && b) ≡ true → b ≡ true
and_right a b h = ground arith

find_character-every_row :
    (test : CharPattern → Bool) (chr : ℕ) (table : List CharPattern) {p : CharPattern}
    → every_row test table ≡ true
    → find_character chr table ≡ some p
    → (test p ≡ true) × (p.character ≡ chr)
unfolding every_row find_character
find_character-every_row test chr [] all found = cc
find_character-every_row test chr (q ∷ ps) {p} all found = elim (Bool-cases (q.character == chr)) [
  | inl hit ↦
      let found' : some q ≡ some p = rw hit at found in
      let same : q ≡ p = cc in
      (
        ap test (sym same) ∙ and_left (test q) _ all,
        ap (λ r. r.character) (sym same) ∙ (==_iff _ chr).0 hit,
      )
  | inr miss ↦ find_character-every_row test chr ps (and_right (test q) _ all) (rw miss at found)
]

fits : CharPattern → Bool
fits p =
    leb 1 p.sent_char_bits && leb p.sent_char_bits 7 && ltb p.sent_char_data (2 ^ p.sent_char_bits)

decodes : CharPattern → Bool
decodes p =
    decode_char p.sent_char_data p.sent_char_bits
    == (if p.character == b'}' then b'(' else p.character)

table_fits : every_row fits char_table ≡ true
unfolding every_row fits char_table
table_fits = refl

table_decodes : every_row decodes char_table ≡ true
unfolding every_row decodes decode_char char_table
table_decodes = refl

-- The code that is found for a character has between one and seven elements and no bit beyond
-- them, and is that character's.
get_char_pattern_bounds :
    (chr : ℕ) (p : CharPattern)
    → get_char_pattern chr ≡ some p
    → (1 ≤ p.sent_char_bits)
      × (p.sent_char_bits ≤ 7)
      × (p.sent_char_data < 2 ^ p.sent_char_bits)
      × (p.character ≡ chr)
unfolding get_char_pattern
get_char_pattern_bounds chr p found =
    let (ok, same) = find_character-every_row fits chr char_table table_fits found in
    unfold fits in ground arith

-- Decoding the code that is found for a character gives the character back, save for `}`, which
-- comes back as `(`; the code has between one and seven elements and no bit beyond them.
pub decode_char-get_char_pattern :
    (chr : ℕ) (p : CharPattern)
    → get_char_pattern chr ≡ some p
    → (decode_char p.sent_char_data p.sent_char_bits ≡ (if chr == b'}' then b'(' else chr))
      × (1 ≤ p.sent_char_bits)
      × (p.sent_char_bits ≤ 7)
      × (p.sent_char_data < 2 ^ p.sent_char_bits)
unfolding get_char_pattern
decode_char-get_char_pattern chr p found =
    let (ok, same) = find_character-every_row decodes chr char_table table_decodes found in
    let (some_element, few, no_more, own) = get_char_pattern_bounds chr p found in
    (unfold decodes in ground arith, some_element, few, no_more)
