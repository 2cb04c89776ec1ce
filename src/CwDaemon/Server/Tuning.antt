-- ===== src/CwDaemon/Server/Tuning.antt =====
-- The key while tuning: what the fed bytes tell the keyer, against what the worker holds.
use cwsd.Shared.{
  ℕ, ◌^◌, ◌≤◌, ◌<◌, ◌≡◌, refl, Bool, false, ◌&&◌, Option, none, some, List, [], ◌∷◌, ◌++◌,
  Bool-cases, Option-cases, inl, inr, ◌⊎◌, arith, ◌==◌, if_both, get_or, ltb, All,
}
use cwsd.Strings.{to_u8}
use cwsd.CwDaemon.{
  to_winkeyer, convert_text, convert_command, with_argument, argument, is_tuning_command,
}
use cwsd.CwDaemon.Text.{TextStream, ends, char, speed, convert_text-TextStream}
use cwsd.CwDaemon.Commands.{TextStream-tunes}
use cwsd.CwDaemon.Server.{
  Worker, is_escape, pop_back, start_tuning, expire, Outcome, feeds, leaves, throws, turn,
}

-- A stream of text and commands with their arguments, read as the WinKeyer reads it: it takes the
-- immediate key from `b` to `e`.
pub data Keys : Bool → List ℕ → Bool → Type 0 where
  nothing : {b e : Bool} → b ≡ e → Keys b [] e
  text : {b e : Bool} {c : ℕ} {cs : List ℕ} → 32 ≤ c → Keys b cs e → Keys b (c ∷ cs) e
  clear : {b e : Bool} {cs : List ℕ} → Keys b cs e → Keys b (0x0a ∷ cs) e
  sets_speed : {b e : Bool} {n : ℕ} {cs : List ℕ} → Keys b cs e → Keys b (0x02 ∷ n ∷ cs) e
  sets_weight : {b e : Bool} {n : ℕ} {cs : List ℕ} → Keys b cs e → Keys b (0x03 ∷ n ∷ cs) e
  buffers_speed :
      {b e : Bool} {c n : ℕ} {cs : List ℕ} → c ≡ 0x1c → Keys b cs e → Keys b (c ∷ n ∷ cs) e
  moves_key : {b e : Bool} {n : ℕ} {cs : List ℕ} → Keys (n == 1) cs e → Keys b (0x0b ∷ n ∷ cs) e

Keys-append : {a b c : Bool} {xs ys : List ℕ} → Keys a xs b → Keys b ys c → Keys a (xs ++ ys) c
Keys-append (nothing e) k = rw e k
Keys-append (text h s) k = text h (Keys-append s k)
Keys-append (clear s) k = clear (Keys-append s k)
Keys-append (sets_speed s) k = sets_speed (Keys-append s k)
Keys-append (sets_weight s) k = sets_weight (Keys-append s k)
Keys-append (buffers_speed e s) k = buffers_speed e (Keys-append s k)
Keys-append (moves_key s) k = moves_key (Keys-append s k)

TextStream-Keys : {v w : ℕ} {cs : List ℕ} (b : Bool) → TextStream v cs w → Keys b cs b
TextStream-Keys b (ends e) = nothing refl
TextStream-Keys b (char lo hi s) = text lo (TextStream-Keys b s)
TextStream-Keys b (speed e h s) = buffers_speed e (TextStream-Keys b s)

-- What `to_winkeyer` returns: a tuning command, or bytes that leave the key alone.
data Sent (b : Bool) (bytes : List ℕ) : Type 0 where
  tunes : (n : ℕ) → bytes ≡ 0x0b ∷ 1 ∷ n ∷ [] → Sent b bytes
  streams : is_tuning_command bytes ≡ false → Keys b bytes b → Sent b bytes

with_argument-Sent : (b : Bool) (letter v n : ℕ) → Sent b (with_argument letter v n)
unfolding with_argument is_tuning_command
with_argument-Sent b letter v n =
    if_both (Sent b) (letter == b'2') (streams refl (sets_speed (nothing refl))) (
      if_both (Sent b) (letter == b'7') (streams refl (sets_weight (nothing refl))) (
        if_both (Sent b) (letter == b'c') (tunes n refl) (
          if_both (Sent b) (letter == b'u') (streams refl (sets_speed (nothing refl)))
            (streams refl (sets_speed (nothing refl))))))

convert_command-Sent :
    (b : Bool) (message : List ℕ) (v : ℕ) {bytes : List ℕ}
    → convert_command message v ≡ some bytes
    → Sent b bytes
unfolding convert_command is_tuning_command
convert_command-Sent b message v {bytes} e = elim (Option-cases (argument message)) [
  | inl missing ↦
      let found : (bytes ≡ 0x0a ∷ []) ⊎ (bytes ≡ []) = ground (arith, missing) in
      elim found [
        | inl f ↦ rw f (streams refl (clear (nothing refl)))
        | inr f ↦ rw f (streams refl (nothing refl))
      ]
  | inr (n, p) ↦
      let found : (bytes ≡ 0x0a ∷ [])
          ⊎ (bytes ≡ [])
          ⊎ (bytes ≡ with_argument (get_or message 1 0) v (to_u8 n)) =
        ground (arith, p) in
      elim found [
        | inl f ↦ rw f (streams refl (clear (nothing refl)))
        | inr (inl f) ↦ rw f (streams refl (nothing refl))
        | inr (inr f) ↦ rw f (with_argument-Sent b (get_or message 1 0) v (to_u8 n))
      ]
]

to_winkeyer-Sent :
    (b : Bool) (message : List ℕ) (v : ℕ) {bytes : List ℕ}
    → v < 2 ^ 8
    → to_winkeyer message v ≡ some bytes
    → Sent b bytes
unfolding to_winkeyer
to_winkeyer-Sent b message v {bytes} small e = elim (Bool-cases (get_or message 0 0 == 27)) [
  | inl esc ↦ convert_command-Sent b message v (rw esc at e)
  | inr plain ↦
      let same : convert_text message v ≡ bytes = ground arith in
      let stream = convert_text-TextStream message v small in
      rw (← same) (streams (TextStream-tunes stream) (TextStream-Keys b stream))
]

start_tuning-Keys :
    (clock : ℕ) (bytes : List ℕ) (w : Worker)
    → Sent w.is_tuning bytes
    → let (fed, w') = start_tuning clock bytes w in Keys w.is_tuning fed w'.is_tuning
unfolding start_tuning is_tuning_command pop_back
start_tuning-Keys clock bytes w (tunes n e) = rw e (moves_key (nothing refl))
start_tuning-Keys clock bytes w (streams quiet k) = rw quiet k

expire-Keys :
    (clock : ℕ) (w : Worker) → let (fed, w') = expire clock w in Keys w.is_tuning fed w'.is_tuning
unfolding expire
expire-Keys clock w =
    if_both (λ (r : List ℕ × Worker). Keys w.is_tuning r.0 r.1.is_tuning)
      (w.is_tuning && ltb w.tune_end_time clock) (moves_key (nothing refl)) (nothing refl)

-- What a turn feeds takes the key from where it was held to where it is held then.
abbrev FeedsKeys : Bool → Outcome → Type 0
FeedsKeys b (feeds bytes w) = Keys b bytes w.is_tuning
FeedsKeys b leaves = Unit
FeedsKeys b throws = Unit

turn-FeedsKeys :
    (message : Option (List ℕ)) (v clock later : ℕ) (w : Worker)
    → v < 2 ^ 8
    → FeedsKeys w.is_tuning (turn message v clock later w)
unfolding turn
turn-FeedsKeys none v clock later w small = expire-Keys later w
turn-FeedsKeys (some message) v clock later w small =
    if_both (FeedsKeys w.is_tuning) (is_escape b'5' message) tt (
      if_both (FeedsKeys w.is_tuning) (w.is_tuning && is_escape b'4' message)
        (moves_key (nothing refl))
        (elim (Option-cases (to_winkeyer message v)) [
          | inl e ↦ rw e tt
          | inr (sent, e) ↦ rw e (
              Keys-append
                (start_tuning-Keys clock sent w (to_winkeyer-Sent w.is_tuning message v small e))
                (expire-Keys later _))
        ]))

-- What the worker reads in a turn.
pub record Reading : Type 0 where
  pub message : Option (List ℕ)
  pub speed : ℕ
  pub clock : ℕ
  pub later : ℕ

-- How the loop goes on after a turn, and the loop: all that is fed, and the locals at its end.
abbrev go_on : Worker → (Worker → List ℕ × Worker) → Outcome → List ℕ × Worker
go_on w next (feeds bytes w') = let (more, end) = next w' in (bytes ++ more, end)
go_on w next leaves = ([], w)
go_on w next throws = ([], w)

unfoldable pub serve : List Reading → Worker → List ℕ × Worker
serve [] w = ([], w)
serve (r ∷ rs) w = go_on w (serve rs) (turn r.message r.speed r.clock r.later w)

go_on-Keys :
    (w : Worker) (next : Worker → List ℕ × Worker) (o : Outcome)
    → FeedsKeys w.is_tuning o
    → ((w' : Worker) → let (fed, end) = next w' in Keys w'.is_tuning fed end.is_tuning)
    → let (fed, end) = go_on w next o in Keys w.is_tuning fed end.is_tuning
go_on-Keys w next (feeds bytes w') f ih = Keys-append f (ih w')
go_on-Keys w next leaves f ih = nothing refl
go_on-Keys w next throws f ih = nothing refl

-- If the immediate key is held exactly if the worker tunes, then so it is after any number of
-- turns, whatever is received and whenever, by all that the worker feeds, read as the WinKeyer
-- reads it. The speeds fit a byte.
pub serve-Keys :
    (rs : List Reading) (w : Worker)
    → All (λ r. r.speed < 2 ^ 8) rs
    → let (fed, end) = serve rs w in Keys w.is_tuning fed end.is_tuning
unfolding serve
serve-Keys [] w h = nothing refl
serve-Keys (r ∷ rs) w h =
    go_on-Keys w (serve rs) (turn r.message r.speed r.clock r.later w)
      (turn-FeedsKeys r.message r.speed r.clock r.later w h.0) (λ w'. serve-Keys rs w' h.1)
