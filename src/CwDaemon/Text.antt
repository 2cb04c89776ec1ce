-- ===== src/CwDaemon/Text.antt =====
-- Text messages: what reaches the WinKeyer, and at which speed.
use cwsd.Shared.{
  ℕ, zero, suc, ◌^◌, ◌≤◌, ◌<◌, ◌≡◌, ◌≢◌, refl, Bool, true, false, ◌&&◌, List, [], ◌∷◌, ◌++◌,
  append-nil, All, ltb, Bool-cases, inl, inr, arith, ◌==◌, ==_iff, ==_refl, leb, leb→le,
  if◌then◌else◌, if_both, if_either,
}
use mathlib.Core.List.{map}
use cwsd.Strings.{to_upper}
use cwsd.CwDaemon.{
  TextState, Round, char_round, text_round, text_loop, convert_text, slower, faster,
}

-- A stream of printable characters and buffered speed changes, from the speed `v` to the speed `w`.
pub data TextStream : ℕ → List ℕ → ℕ → Type 0 where
  ends : {v w : ℕ} → v ≡ w → TextStream v [] w
  char : {v w c : ℕ} {cs : List ℕ} → 32 ≤ c → c < 128 → TextStream v cs w → TextStream v (c ∷ cs) w
  speed :
      {v w c n : ℕ} {cs : List ℕ}
      → c ≡ 0x1c
      → n < 2 ^ 8
      → TextStream n cs w
      → TextStream v (c ∷ n ∷ cs) w

TextStream-append :
    {u v w : ℕ} {xs ys : List ℕ} → TextStream u xs v → TextStream v ys w → TextStream u (xs ++ ys) w
TextStream-append (ends e) t = rw e t
TextStream-append (char a b s) t = char a b (TextStream-append s t)
TextStream-append (speed a b s) t = speed a b (TextStream-append s t)

-- What a round pushes takes the speed before it to the speed after it.
abbrev IsStream : TextState → Round → Type 0
IsStream s r = TextStream s.current_speed r.pushed r.after.current_speed

pub to_upper_bounds : (c : ℕ) → 32 ≤ c → c < 128 → (32 ≤ to_upper c) × (to_upper c < 128)
unfolding to_upper
to_upper_bounds c h k = ground arith

bars : (b : Bool) (v : ℕ) → TextStream v (if b then b'|' ∷ b'|' ∷ b'|' ∷ b'|' ∷ [] else []) v
bars false v = ends refl
bars true v = bar (bar (bar (bar (ends refl))))
  where
    bar : {cs : List ℕ} → TextStream v cs v → TextStream v (b'|' ∷ cs) v
    bar = char (omega arith) (omega arith)

char_round-IsStream : (c : ℕ) (s : TextState) → c < 128 → IsStream s (char_round c s)
unfolding char_round
char_round-IsStream c s h =
    if_either (IsStream s) (leb 32 c)
      (λ e.
        let b = to_upper_bounds c (leb→le 32 c e) h in char b.0 b.1 (bars s.is_gap s.current_speed))
      (λ e. ends refl)

-- A round pushes such a stream.
text_round-IsStream :
    (c : ℕ) (cs : List ℕ) (s : TextState) → c < 128 → IsStream s (text_round c cs s)
unfolding text_round slower faster
text_round-IsStream c cs s h =
    if_both (IsStream s) (c == b'-') (speed refl (omega arith) (ends refl)) (
      if_both (IsStream s) (c == b'+') (speed refl (omega arith) (ends refl))
        (if_both (IsStream s) (c == b'~') (ends refl) (char_round-IsStream c s h)))

text_loop-TextStream :
    (cs : List ℕ) (skip : ℕ) (s : TextState)
    → let (bytes, final) = text_loop skip s cs in TextStream s.current_speed bytes final
unfolding text_loop
text_loop-TextStream [] skip s = ends refl
text_loop-TextStream (c ∷ cs) (suc skip) s = text_loop-TextStream cs skip s
text_loop-TextStream (c ∷ cs) zero s = elim (Bool-cases (ltb 0 c && ltb c 128)) [
  | inl more ↦
      rw (more, text_loop)
        (TextStream-append (text_round-IsStream c cs s (ground arith))
          (text_loop-TextStream cs _ _))
  | inr over ↦ rw (over, text_loop) (ends refl)
]

-- Every text becomes a stream of printable characters and buffered speed changes, which leaves the
-- WinKeyer at the speed that it had before, a byte.
pub convert_text-TextStream :
    (input : List ℕ) (v : ℕ) → v < 2 ^ 8 → TextStream v (convert_text input v) v
unfolding convert_text
convert_text-TextStream input v h =
    let (bytes, final) = text_loop 0 (record { is_gap = false; current_speed = v }) input in
    TextStream-append (text_loop-TextStream input 0 (record { is_gap = false; current_speed = v }))
      (if_either (λ end. TextStream final end v) (final == v) (λ e. ends ((==_iff final v).0 e))
        (λ _. speed refl h (ends refl)))

-- A character that stands for itself.
pub record IsPlain (c : ℕ) : Type 0 where
  pub printable : 32 ≤ c
  pub ascii : c < 128
  pub no_minus : c ≢ b'-'
  pub no_plus : c ≢ b'+'
  pub no_gap : c ≢ b'~'

text_loop_plain :
    (cs rest : List ℕ) (v : ℕ)
    → All IsPlain cs
    → text_loop 0 (record { is_gap = false; current_speed = v }) (cs ++ 0 ∷ rest)
      ≡ (map to_upper cs, v)
unfolding text_loop text_round char_round
text_loop_plain [] rest v h = refl
text_loop_plain (c ∷ cs) rest v h = ground (arith, text_loop_plain cs rest v h.1)

-- A text of printable characters with no speed change and no gap becomes these in upper case, and
-- nothing else; what stands behind the zero byte is not read.
pub convert_text_plain :
    (cs rest : List ℕ) (v : ℕ) → All IsPlain cs → convert_text (cs ++ 0 ∷ rest) v ≡ map to_upper cs
unfolding convert_text
convert_text_plain cs rest v h =
    rw (text_loop_plain cs rest v h, ==_refl v) (append-nil (map to_upper cs))
