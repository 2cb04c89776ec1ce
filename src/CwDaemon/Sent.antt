-- ===== src/CwDaemon/Sent.antt =====
-- A text message of the cwdaemon protocol, from the socket to the key: src/cwdaemon/cw_daemon.cpp
-- with src/keyer/.
use cwsd.Shared.{ℕ, ◌≤◌, ◌≡◌, refl, ap, ap₂, ◌∙◌, true, false, List, [], ◌∷◌, ◌++◌, All, arith}
use mathlib.Core.List.{map}
use cwsd.Strings.{to_upper}
use cwsd.CwDaemon.{convert_text}
use cwsd.CwDaemon.Text.{IsPlain, convert_text_plain, to_upper_bounds}
use cwsd.Keyer.Floats.{Floats}
use cwsd.Keyer.Machine.{Keyer, Element}
use cwsd.Keyer.Winkeyer.{is_winkeyer_command}
use cwsd.Keyer.Sending.{
  Act, Sends, account, code, code_of, lacking, arguments_of, fed, keeps_all, keyed, run,
}
use cwsd.Keyer.Sending.Code.{code_letter}
use cwsd.Keyer.Sending.Feeds.{waits}
use cwsd.Keyer.Sending.Drains.{rounds_left}
use cwsd.Keyer.Sending.Sent.{due_ticks, all_ticks, fed_sent}

-- The Morse code of a text.
unfoldable pub morse : List ℕ → List Element
unfolding code_of
morse [] = []
morse (c ∷ cs) = code_of c ++ morse cs

no_command : (c : ℕ) → IsPlain c → is_winkeyer_command (to_upper c) ≡ false
unfolding is_winkeyer_command
no_command c plain = ground (arith, to_upper_bounds c plain.printable plain.ascii)

-- A plain text holds no command and no argument.
code_text :
    (cs : List ℕ)
    → All IsPlain cs
    → (code 0 (map to_upper cs) ≡ morse (map to_upper cs)) × (lacking 0 (map to_upper cs) ≡ 0)
unfolding code lacking morse arguments_of
code_text [] plain = (refl, refl)
code_text (c ∷ cs) plain =
    let (sum, more, _) = code_letter (to_upper c) (map to_upper cs) (no_command c plain.0) in
    let (text, whole) = code_text cs plain.1 in
    (sum ∙ ap (λ es. code_of (to_upper c) ++ es) text, more ∙ whole)

-- A keyer that satisfies `Sends` and waits for no argument is fed what a text of plain characters
-- becomes, between calls of `update` and without losing a byte; then as many calls of `update` as
-- `rounds_left` says come in time. What has been keyed then is what had been keyed and what was
-- still to be sent at the start, followed by the Morse code of the characters before the zero
-- byte, in upper case.
pub text_sent :
    {F : Floats} (cs rest : List ℕ) (v : ℕ) (acts : List Act) (clocks : List (ℕ → ℕ)) (k : Keyer F)
    → All IsPlain cs
    → fed acts ≡ convert_text (cs ++ 0 ∷ rest) v
    → Sends k
    → waits k ≡ 0
    → keeps_all k acts ≡ true
    → rounds_left (run k acts) ≤ due_ticks (run k acts) clocks
    → keyed (run (run k acts) (all_ticks clocks)).calls ≡ account k ++ morse (map to_upper cs)
text_sent cs rest v acts clocks k plain bytes sends none_waits kept enough =
    fed_sent acts clocks k sends kept (ap₂ lacking none_waits text ∙ (code_text cs plain).1) enough
    ∙ ap (λ es. account k ++ es) (ap₂ code none_waits text ∙ (code_text cs plain).0)
  where
    text : fed acts ≡ map to_upper cs
    text = bytes ∙ convert_text_plain cs rest v plain
