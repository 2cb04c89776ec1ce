-- ===== src/CwDaemon.antt =====
-- src/cw_daemon.cpp: messages of the cwdaemon protocol as WinKeyer bytes. `char` is signed, as on
-- x86-64. A message ends with a zero byte (src/udp_server.cpp); where the list ends without one, it
-- is read as if one stood there.
pub mod Text
pub mod Sent
pub mod Commands
pub mod KeyInterface
pub mod Server
mod Tests
use cwsd.Shared.{
  ℕ, zero, suc, ◌+◌, ◌-◌, ◌*◌, ◌%◌, ◌^◌, Bool, true, false, not, ◌&&◌, ◌||◌, Option, none, some,
  List, [], ◌∷◌, ◌++◌, length, drop, get_or, leb, ltb, ◌==◌, if◌then◌else◌, add_u8, sub_u8,
}
use mathlib.Core.Option
use cwsd.Strings.{ℤ, to_u8, c_string, stoi, to_upper}

-- The length of a run of `c` at the front.
unfoldable pub run_length : ℕ → List ℕ → ℕ
run_length c [] = 0
run_length c (x ∷ xs) = if x == c then suc (run_length c xs) else 0

-- `current_speed -= 2 * times` and `current_speed += 2 * times` on a `uint8_t`.
unfoldable pub slower : ℕ → ℕ → ℕ
slower speed times = (speed + 2 ^ 8 * times - 2 * times) % 2 ^ 8

unfoldable pub faster : ℕ → ℕ → ℕ
faster speed times = (speed + 2 * times) % 2 ^ 8

-- The locals of the loop over the text.
pub record TextState : Type 0 where
  pub is_gap : Bool
  pub current_speed : ℕ

-- What a round of the loop does: the bytes that it pushes, how many bytes it takes after its
-- first, and the locals after it.
pub record Round : Type 0 where
  pub pushed : List ℕ
  pub taken : ℕ
  pub after : TextState

-- `case '-'` and `case '+'`
unfoldable pub speed_round : ℕ → ℕ → TextState → Round
speed_round speed taken s = record {
  pushed = 0x1c ∷ speed ∷ [];
  taken = taken;
  after = record s { current_speed = speed };
}

-- `default`
unfoldable pub char_round : ℕ → TextState → Round
char_round c s =
    if leb 32 c
    then record {
      pushed = to_upper c ∷ (if s.is_gap then b'|' ∷ b'|' ∷ b'|' ∷ b'|' ∷ [] else []);
      taken = 0;
      after = record s { is_gap = false };
    }
    else record { pushed = []; taken = 0; after = s }

-- The `switch` of a round at the byte `c`, with `cs` behind it.
unfoldable pub text_round : ℕ → List ℕ → TextState → Round
unfolding speed_round char_round run_length slower faster
text_round c cs s =
    if c == b'-'
    then (let more = run_length b'-' cs in speed_round (slower s.current_speed (suc more)) more s)
    else if c == b'+'
    then (let more = run_length b'+' cs in speed_round (faster s.current_speed (suc more)) more s)
    else if c == b'~'
    then record { pushed = []; taken = 0; after = record s { is_gap = true } }
    else char_round c s

-- The loop, `while (*ptr > 0)`, with `skip` bytes still to be passed over: what it pushes, and the
-- speed at its end.
unfoldable pub text_loop : ℕ → TextState → List ℕ → List ℕ × ℕ
text_loop skip s [] = ([], s.current_speed)
text_loop (suc skip) s (c ∷ cs) = text_loop skip s cs
text_loop zero s (c ∷ cs) = elim (ltb 0 c && ltb c 128) [
  | false ↦ ([], s.current_speed)
  | true ↦
      let r = text_round c cs s in
      let (rest, speed) = text_loop r.taken r.after cs in (r.pushed ++ rest, speed)
]

-- The text branch, with the original speed at the end if it was changed.
unfoldable pub convert_text : List ℕ → ℕ → List ℕ
convert_text input initial_speed =
    let (result, speed) =
      text_loop 0 (record { is_gap = false; current_speed = initial_speed }) input in
    result ++ (if speed == initial_speed then [] else 0x1c ∷ initial_speed ∷ [])

-- The argument of a command: `std::stoi(&buffer[2])`, `none` if it throws.
unfoldable pub argument : List ℕ → Option ℤ
argument input = stoi (c_string (drop 2 input))

unfoldable pub clamp_weight : ℕ → ℕ
clamp_weight w = let raised = if ltb w 10 then 10 else w in if ltb 90 raised then 90 else raised

-- The bytes of a command, given its letter and the `uint8_t` of its argument.
unfoldable pub with_argument : ℕ → ℕ → ℕ → List ℕ
unfolding clamp_weight
with_argument letter initial_speed n =
    if letter == b'2'
    then 0x02 ∷ n ∷ []
    else if letter == b'7'
    then 0x03 ∷ clamp_weight (add_u8 50 n) ∷ []
    else if letter == b'c'
    then 0x0b ∷ 1 ∷ n ∷ []
    else if letter == b'u'
    then 0x02 ∷ add_u8 initial_speed n ∷ []
    else 0x02 ∷ sub_u8 initial_speed n ∷ []

unfoldable pub takes_argument : ℕ → Bool
takes_argument letter =
    letter == b'2' || letter == b'7' || letter == b'c' || letter == b'u' || letter == b'd'

-- The escape branch; `none` if `std::stoi` throws.
unfoldable pub convert_command : List ℕ → ℕ → Option (List ℕ)
unfolding with_argument takes_argument
convert_command input initial_speed =
    let letter = get_or input 1 0 in
    if takes_argument letter
    then Option.map (λ n. with_argument letter initial_speed (to_u8 n)) (argument input)
    else if letter == b'4'
    then some (0x0a ∷ [])
    else some []

-- `to_winkeyer`; `none` if it throws.
unfoldable pub to_winkeyer : List ℕ → ℕ → Option (List ℕ)
to_winkeyer input initial_speed =
    if get_or input 0 0 == 27
    then convert_command input initial_speed
    else some (convert_text input initial_speed)

-- `is_tuning_command`
unfoldable pub is_tuning_command : List ℕ → Bool
is_tuning_command message =
    ltb 2 (length message) && get_or message 0 0 == 0x0b && get_or message 1 0 == 1
