-- ===== src/Keyer/Sending/Order.antt =====
-- Runs of the keyer: what is keyed is the Morse code of the bytes that it was fed.
use cwsd.Shared.{
  ℕ, ◌+◌, ◌≡◌, refl, sym, ap, ap₂, ◌∙◌, Bool, true, ◌&&◌, List, [], ◌∷◌, ◌++◌, append_assoc,
  append-nil, arith,
}
use cwsd.Keyer.Floats.{Floats}
use cwsd.Keyer.Machine.{Keyer}
use cwsd.Keyer.States.{update}
use cwsd.Keyer.Commands.{winkeyer_data}
use cwsd.Keyer.Sending.{
  code, lacking, Sends, account, is_kept, keeps_all, Act, ticks, feeds, fed, run, no_paddles,
}
use cwsd.Keyer.Sending.Code.{code-append, lacking-append}
use cwsd.Keyer.Sending.Ticks.{update-Quiet}
use cwsd.Keyer.Sending.Feeds.{waits, winkeyer_data-Adds}

and_both : (a b : Bool) → (a && b) ≡ true → (a ≡ true) × (b ≡ true)
and_both a b h = ground arith

module _ {F : Floats} where
  -- Whatever the clock answers, while no paddle is pressed, no memory plays and no byte is lost, a
  -- keyer that satisfies `Sends` still does after any calls of `update` and `winkeyer_data`; it
  -- waits for the arguments that the bytes lack; and the elements that were keyed, those left of
  -- the character being sent and the Morse code of the bytes in the buffer are together, and in
  -- this order, those of the start followed by the Morse code of the bytes that the keyer was fed.
  pub account-run :
      (acts : List Act) (k : Keyer F)
      → Sends k
      → keeps_all k acts ≡ true
      → Sends (run k acts)
        × (waits (run k acts) ≡ lacking (waits k) (fed acts))
        × (account (run k acts) ≡ account k ++ code (waits k) (fed acts))
  unfolding run fed keeps_all code lacking
  account-run [] k v kept = (v, refl, sym (append-nil (account k)))
  account-run (ticks clock ∷ acts) k v kept =
      let q = update-Quiet clock k v in
      let (w, more, sum) = account-run acts (update (no_paddles clock) k) q.sends kept in
      (
        w,
        more ∙ ap (λ (n : ℕ). lacking n (fed acts)) (ap₂ ◌+◌ q.waiting q.remaining),
        sum ∙ ap₂ (λ es (n : ℕ). es ++ code n (fed acts)) q.balance (ap₂ ◌+◌ q.waiting q.remaining),
      )
  account-run (feeds c ∷ acts) k v kept =
      let (here, later) = and_both (is_kept c k) (keeps_all (winkeyer_data c k) acts) kept in
      let p = winkeyer_data-Adds c k v here in
      let (w, more, sum) = account-run acts (winkeyer_data c k) p.sends later in
      (
        w,
        more
            ∙ ap (λ (n : ℕ). lacking n (fed acts)) p.lacks
            ∙ sym (lacking-append (waits k) (c ∷ []) (fed acts)),
        sum
            ∙ ap₂ (λ es (n : ℕ). es ++ code n (fed acts)) p.balance p.lacks
            ∙ append_assoc (account k) (code (waits k) (c ∷ [])) _
            ∙ ap (λ es. account k ++ es) (sym (code-append (waits k) (c ∷ []) (fed acts))),
      )
